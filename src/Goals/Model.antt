-- ===== src/Goals/Model.antt =====
-- The goals, plans and plan steps of packages/shared/src/types.ts.
use cli_bridge.Common.{
  ℕ, ◌≡◌, ◌↔◌, Bool, true, false, String, Option, List, [], ◌∷◌, arith, if◌then◌else◌, Eq, nat_eq,
  string_eq, includes,
}

pub data GoalStatus : Type 0 where
  draft planned approved executing paused done cancelled failed : GoalStatus

abbrev pub goal_status_beq : GoalStatus → GoalStatus → Bool
goal_status_beq draft draft = true
goal_status_beq draft _ = false
goal_status_beq planned planned = true
goal_status_beq planned _ = false
goal_status_beq approved approved = true
goal_status_beq approved _ = false
goal_status_beq executing executing = true
goal_status_beq executing _ = false
goal_status_beq paused paused = true
goal_status_beq paused _ = false
goal_status_beq done done = true
goal_status_beq done _ = false
goal_status_beq cancelled cancelled = true
goal_status_beq cancelled _ = false
goal_status_beq failed failed = true
goal_status_beq failed _ = false

pub goal_status_beq_iff : (a b : GoalStatus) → (goal_status_beq a b ≡ true) ↔ (a ≡ b)
goal_status_beq_iff a b = ground arith

instance abbrev pub goal_status_eq : Eq GoalStatus
goal_status_eq = record { same = goal_status_beq; same_iff = goal_status_beq_iff }

pub data PlanStatus : Type 0 where
  draft awaiting_approval approved executing paused done cancelled : PlanStatus

abbrev pub plan_status_beq : PlanStatus → PlanStatus → Bool
plan_status_beq draft draft = true
plan_status_beq draft _ = false
plan_status_beq awaiting_approval awaiting_approval = true
plan_status_beq awaiting_approval _ = false
plan_status_beq approved approved = true
plan_status_beq approved _ = false
plan_status_beq executing executing = true
plan_status_beq executing _ = false
plan_status_beq paused paused = true
plan_status_beq paused _ = false
plan_status_beq done done = true
plan_status_beq done _ = false
plan_status_beq cancelled cancelled = true
plan_status_beq cancelled _ = false

pub plan_status_beq_iff : (a b : PlanStatus) → (plan_status_beq a b ≡ true) ↔ (a ≡ b)
plan_status_beq_iff a b = ground arith

instance abbrev pub plan_status_eq : Eq PlanStatus
plan_status_eq = record { same = plan_status_beq; same_iff = plan_status_beq_iff }

pub data StepStatus : Type 0 where
  pending running done failed blocked_needs_gate gated_approved : StepStatus

abbrev pub step_status_beq : StepStatus → StepStatus → Bool
step_status_beq pending pending = true
step_status_beq pending _ = false
step_status_beq running running = true
step_status_beq running _ = false
step_status_beq done done = true
step_status_beq done _ = false
step_status_beq failed failed = true
step_status_beq failed _ = false
step_status_beq blocked_needs_gate blocked_needs_gate = true
step_status_beq blocked_needs_gate _ = false
step_status_beq gated_approved gated_approved = true
step_status_beq gated_approved _ = false

pub step_status_beq_iff : (a b : StepStatus) → (step_status_beq a b ≡ true) ↔ (a ≡ b)
step_status_beq_iff a b = ground arith

instance abbrev pub step_status_eq : Eq StepStatus
step_status_eq = record { same = step_status_beq; same_iff = step_status_beq_iff }

pub data StepKind : Type 0 where
  review summarize propose_patch apply_patch run_command write_file delete_file git_commit
        git_push :
      StepKind

pub data Tier : Type 0 where
  patch_proposal workspace_write : Tier

abbrev pub tier_beq : Tier → Tier → Bool
tier_beq patch_proposal patch_proposal = true
tier_beq patch_proposal _ = false
tier_beq workspace_write workspace_write = true
tier_beq workspace_write _ = false

pub tier_beq_iff : (a b : Tier) → (tier_beq a b ≡ true) ↔ (a ≡ b)
tier_beq_iff a b = ground arith

instance abbrev pub tier_eq : Eq Tier
tier_eq = record { same = tier_beq; same_iff = tier_beq_iff }

pub record Goal : Type 0 where
  pub id : String
  pub session_id : String
  pub project_id : Option String
  pub description : String
  pub status : GoalStatus
  pub created_at : ℕ
  pub updated_at : ℕ

pub record PlanStep : Type 0 where
  pub id : String
  pub plan_id : String
  pub index : ℕ
  pub intent : String
  pub kind : StepKind
  pub target_endpoint_id : String
  pub tier : Tier
  pub is_state_mutating : Bool
  pub status : StepStatus
  pub output : Option String
  pub failure_reason : Option String

pub record Plan : Type 0 where
  pub id : String
  pub goal_id : String
  pub parent_plan_id : Option String
  pub steps : List PlanStep
  pub status : PlanStatus
  pub permitted_tiers : List Tier
  pub created_at : ℕ
  pub updated_at : ℕ
  pub approved_at : Option ℕ
  pub paused_at : Option ℕ
  pub pause_reason : Option String

-- `isStateMutatingKind`
unfoldable pub is_state_mutating_kind : StepKind → Bool
is_state_mutating_kind review = false
is_state_mutating_kind summarize = false
is_state_mutating_kind propose_patch = false
is_state_mutating_kind _ = true

-- `isStepTierPermitted`
unfoldable pub is_step_tier_permitted : Plan → PlanStep → Bool
is_step_tier_permitted plan step = includes step.tier plan.permitted_tiers

-- `validatePlan`: its errors, for what the types leave open.
unfoldable pub validate_plan : Plan → List String
validate_plan plan = elim plan.permitted_tiers [
  | [] ↦ "permittedTiers must be a non-empty array" ∷ []
  | t ∷ ts ↦
      if includes patch_proposal (t ∷ ts)
      then []
      else "permittedTiers must include patch-proposal" ∷ []
]
