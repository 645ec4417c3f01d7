-- ===== src/Plans/Model.antt =====
-- What the parser of plans takes and gives. A step of a model's answer has its kind and its tier as
-- texts, until `assertPlan` has checked them.
use cli_bridge.Common.{
  ℕ, Bool, true, String, Option, none, some, List, [], ◌∷◌, if◌then◌else◌, ◌==◌, nat_eq, string_eq,
  includes,
}
use cli_bridge.Goals.Model.{
  StepKind, review, summarize, propose_patch, apply_patch, run_command, write_file, delete_file,
  git_commit, git_push, Tier, patch_proposal, workspace_write, tier_eq,
}
use cli_bridge.Plans.Extract.{Parse}

pub data TierEnforcementMode : Type 0 where
  strict downgrade : TierEnforcementMode

pub record ParseOptions : Type 0 where
  pub tier_enforcement : TierEnforcementMode
  pub strip_fences : Bool
  pub max_steps : ℕ

abbrev pub default_max_steps : ℕ
default_max_steps = 10

abbrev pub default_options : ParseOptions
default_options = record {
  tier_enforcement = strict;
  strip_fences = true;
  max_steps = default_max_steps;
}

-- The permitted tiers come from outside and are texts.
pub record ParseInput : Type 0 where
  pub text : String
  pub goal_id : String
  pub permitted_tiers : Option (List String)
  pub id : Option String

pub record PlanTierDowngrade : Type 0 where
  pub step_index : ℕ
  pub step_id : String
  pub original_tier : String
  pub downgraded_to : String
  pub reason : String

-- `JSON.parse`, the n-th random identifier, and how a number prints.
pub record Platform : Type 0 where
  pub parse : Parse
  pub uuid : ℕ → String
  pub show : ℕ → String

pub record RawStep : Type 0 where
  pub id : String
  pub plan_id : String
  pub index : ℕ
  pub intent : String
  pub kind : String
  pub target_endpoint_id : String
  pub tier : String
  pub is_state_mutating : Bool

-- `FORBIDDEN_EXECUTION_FIELDS`
abbrev pub forbidden_execution_fields : List String
forbidden_execution_fields =
    "executable" ∷ "autoSend" ∷ "confirmed" ∷ "sent" ∷ "autoApprove" ∷ "canExecute" ∷ []

-- `MUTATING_KINDS.has(kind)`
unfoldable pub is_mutating : String → Bool
is_mutating kind =
    includes kind (
      "apply-patch" ∷ "run-command" ∷ "write-file" ∷ "delete-file" ∷ "git-commit" ∷ "git-push" ∷ [])

-- `PLAN_STEP_KINDS`, by their texts.
unfoldable pub kind_of : String → Option StepKind
kind_of kind =
    if kind == "review"
    then some review
    else (if kind == "summarize"
        then some summarize
        else (if kind == "propose-patch"
            then some propose_patch
            else (if kind == "apply-patch"
                then some apply_patch
                else (if kind == "run-command"
                    then some run_command
                    else (if kind == "write-file"
                        then some write_file
                        else (if kind == "delete-file"
                            then some delete_file
                            else (if kind == "git-commit"
                                then some git_commit
                                else (if kind == "git-push" then some git_push else none))))))))

-- `EXECUTION_TIERS`, by their texts.
unfoldable pub tier_of : String → Option Tier
tier_of tier =
    if tier == "patch-proposal"
    then some patch_proposal
    else (if tier == "workspace-write" then some workspace_write else none)
