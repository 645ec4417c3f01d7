-- ===== src/Goals/Store.antt =====
-- Creating, planning, approving, cancelling and pausing a goal: `InMemoryGoalStore`. An operation that
-- the source answers with `undefined` is `none`, and leaves the store as it was.
use cli_bridge.Common.{
  Attempt, made, thrown, ℕ, suc, ◌+◌, String, Option, none, some, List, [], ◌∷◌, if◌then◌else◌,
  ◌==◌, nat_eq, string_eq, or_else, length, Map, get, set, truthy,
}
use cli_bridge.Goals.Model.{
  GoalStatus, PlanStatus, StepStatus, StepKind, Tier, patch_proposal, Goal, PlanStep, Plan,
  goal_status_eq, plan_status_eq, step_status_eq, tier_eq, is_state_mutating_kind, validate_plan,
}

pub record Store : Type 0 where
  pub uuid : ℕ → String
  pub drawn : ℕ
  pub goals : Map Goal
  pub plans : Map Plan
  pub plans_by_goal : Map String

abbrev pub new_id : Option String → Store → String × Store
new_id none s = (s.uuid s.drawn, record s { drawn = suc s.drawn })
new_id (some id) s = (id, s)

abbrev pub save_goal : Goal → Store → Store
save_goal goal s = record s { goals = set goal.id goal s.goals }

abbrev pub save_plan : Plan → Store → Store
save_plan plan s = record s { plans = set plan.id plan s.plans }

pub record CreateGoalInput : Type 0 where
  pub id : Option String
  pub session_id : String
  pub description : String
  pub project_id : Option String

-- `assertGoal` cannot fail on a record of this type.
unfoldable pub create_goal : CreateGoalInput → ℕ → Store → Goal × Store
create_goal input now s =
    let (id, s') = new_id input.id s in
    let goal : Goal = record {
      id = id;
      session_id = input.session_id;
      project_id = input.project_id;
      description = input.description;
      status = GoalStatus.draft;
      created_at = now;
      updated_at = now;
    } in
    (goal, save_goal goal s')

pub record PlanStepInput : Type 0 where
  pub intent : String
  pub kind : StepKind
  pub target_endpoint_id : String
  pub tier : Option Tier

pub record AttachPlanInput : Type 0 where
  pub id : Option String
  pub goal_id : String
  pub steps : List PlanStepInput
  pub permitted_tiers : Option (List Tier)

-- The steps of a new plan, numbered from `index`, each under the next random identifier.
unfoldable pub new_steps : String → ℕ → List PlanStepInput → (ℕ → String) → ℕ → List PlanStep
new_steps plan_id index [] uuid n = []
new_steps plan_id index (i ∷ is) uuid n =
    record {
      id = uuid n;
      plan_id = plan_id;
      index = index;
      intent = i.intent;
      kind = i.kind;
      target_endpoint_id = i.target_endpoint_id;
      tier = or_else i.tier patch_proposal;
      is_state_mutating = is_state_mutating_kind i.kind;
      status = StepStatus.pending;
      output = none;
      failure_reason = none;
    }
    ∷ new_steps plan_id (suc index) is uuid (suc n)

-- A plan that passed its validation takes the place of the goal's plan, and the goal is `planned`.
unfoldable pub adopt : Goal → Plan → ℕ → Store → List String → Attempt Plan × Store
adopt goal plan now s [] = (
  made plan,
  save_goal (record goal { status = GoalStatus.planned; updated_at = now })
      (record (save_plan plan s) { plans_by_goal = set goal.id plan.id s.plans_by_goal }),
)
adopt goal plan now s (e ∷ es) = (thrown (e ∷ es), s)

new_plan : String → String → Option String → List PlanStep → List Tier → ℕ → Plan
new_plan id goal_id parent steps tiers now = record {
  id = id;
  goal_id = goal_id;
  parent_plan_id = parent;
  steps = steps;
  status = PlanStatus.awaiting_approval;
  permitted_tiers = tiers;
  created_at = now;
  updated_at = now;
  approved_at = none;
  paused_at = none;
  pause_reason = none;
}

unfoldable pub attached_plan : AttachPlanInput → Goal → String → ℕ → Store → Plan
unfolding new_plan
attached_plan input goal id now s =
    new_plan id goal.id none (new_steps id 0 input.steps s.uuid s.drawn)
      (or_else input.permitted_tiers (patch_proposal ∷ [])) now

unfoldable pub attach_to : AttachPlanInput → ℕ → Store → Goal → Attempt Plan × Store
unfolding adopt attached_plan
attach_to input now s goal =
    let (id, s') = new_id input.id s in
    let plan = attached_plan input goal id now s' in
    adopt goal plan now (record s' { drawn = s'.drawn + length input.steps }) (validate_plan plan)

unfoldable pub attach_plan : AttachPlanInput → ℕ → Store → Option (Attempt Plan × Store)
unfolding attach_to
attach_plan input now s = elim (get input.goal_id s.goals) [
  | none ↦ none
  | some goal ↦ if goal.status == GoalStatus.draft then some (attach_to input now s goal) else none
]

-- The plan that `plansByGoal` names; an empty identifier counts as none.
unfoldable pub get_plan_by_goal : String → Store → Option Plan
get_plan_by_goal goal_id s = elim (truthy (get goal_id s.plans_by_goal)) [
  | none ↦ none
  | some plan_id ↦ get plan_id s.plans
]

abbrev approve : Goal → Plan → ℕ → Store → Plan × Store
approve goal plan now s =
    let plan' : Plan = record plan {
      status = PlanStatus.approved;
      approved_at = some now;
      updated_at = now;
    } in
    (
      plan',
      save_goal (record goal { status = GoalStatus.approved; updated_at = now })
          (save_plan plan' s),
    )

unfoldable pub approve_plan : String → ℕ → Store → Option (Plan × Store)
approve_plan goal_id now s = elim (get_plan_by_goal goal_id s) [
  | none ↦ none
  | some plan ↦ elim (get goal_id s.goals) [
    | none ↦ none
    | some goal ↦
        if plan.status == PlanStatus.awaiting_approval then some (approve goal plan now s) else none
  ]
]

pub record DerivePlanInput : Type 0 where
  pub id : Option String
  pub goal_id : String
  pub parent_plan_id : String

-- The steps of the parent, unrun and numbered anew.
unfoldable pub derived_steps : String → ℕ → List PlanStep → (ℕ → String) → ℕ → List PlanStep
derived_steps plan_id index [] uuid n = []
derived_steps plan_id index (p ∷ ps) uuid n =
    record {
      id = uuid n;
      plan_id = plan_id;
      index = index;
      intent = p.intent;
      kind = p.kind;
      target_endpoint_id = p.target_endpoint_id;
      tier = p.tier;
      is_state_mutating = p.is_state_mutating;
      status = StepStatus.pending;
      output = none;
      failure_reason = none;
    }
    ∷ derived_steps plan_id (suc index) ps uuid (suc n)

unfoldable pub derived_plan : Plan → Goal → String → ℕ → Store → Plan
unfolding new_plan
derived_plan parent goal id now s =
    new_plan id goal.id (some parent.id) (derived_steps id 0 parent.steps s.uuid s.drawn)
      parent.permitted_tiers now

unfoldable pub derive_from : DerivePlanInput → ℕ → Store → Goal → Plan → Attempt Plan × Store
unfolding adopt derived_plan
derive_from input now s goal parent =
    let (id, s') = new_id input.id s in
    let plan = derived_plan parent goal id now s' in
    adopt goal plan now (record s' { drawn = s'.drawn + length parent.steps }) (validate_plan plan)

-- Whatever the status of the goal and of the parent.
unfoldable pub derive_plan : DerivePlanInput → ℕ → Store → Option (Attempt Plan × Store)
unfolding derive_from
derive_plan input now s = elim (get input.goal_id s.goals) [
  | none ↦ none
  | some goal ↦ elim (get input.parent_plan_id s.plans) [
    | none ↦ none
    | some parent ↦
        if parent.goal_id == goal.id then some (derive_from input now s goal parent) else none
  ]
]
