-- ===== src/Proposals/Model.antt =====
-- The records of packages/shared/src/types.ts that proposals are made of, and the validator of
-- packages/shared/src/schemas.ts.
use cli_bridge.Common.{
  ℕ, ◌≡◌, ◌↔◌, Bool, true, false, String, Option, List, [], ◌∷◌, ◌++◌, arith, if◌then◌else◌, Eq,
  nat_eq, string_eq,
}
use text.Mathlib.Text.{starts_with}
use cli_bridge.Goals.Model.{Tier, patch_proposal, workspace_write}

pub data ExecutionProposalStatus : Type 0 where
  draft awaiting_confirmation confirmed dispatching returned failed paused cancelled timed_out :
      ExecutionProposalStatus

abbrev pub execution_proposal_status_beq : ExecutionProposalStatus → ExecutionProposalStatus → Bool
execution_proposal_status_beq draft draft = true
execution_proposal_status_beq draft _ = false
execution_proposal_status_beq awaiting_confirmation awaiting_confirmation = true
execution_proposal_status_beq awaiting_confirmation _ = false
execution_proposal_status_beq confirmed confirmed = true
execution_proposal_status_beq confirmed _ = false
execution_proposal_status_beq dispatching dispatching = true
execution_proposal_status_beq dispatching _ = false
execution_proposal_status_beq returned returned = true
execution_proposal_status_beq returned _ = false
execution_proposal_status_beq failed failed = true
execution_proposal_status_beq failed _ = false
execution_proposal_status_beq paused paused = true
execution_proposal_status_beq paused _ = false
execution_proposal_status_beq cancelled cancelled = true
execution_proposal_status_beq cancelled _ = false
execution_proposal_status_beq timed_out timed_out = true
execution_proposal_status_beq timed_out _ = false

pub execution_proposal_status_beq_iff :
    (a b : ExecutionProposalStatus) → (execution_proposal_status_beq a b ≡ true) ↔ (a ≡ b)
execution_proposal_status_beq_iff a b = ground arith

instance abbrev pub execution_proposal_status_eq : Eq ExecutionProposalStatus
execution_proposal_status_eq = record {
  same = execution_proposal_status_beq;
  same_iff = execution_proposal_status_beq_iff;
}

-- `AllowedCommand`
pub data Command : Type 0 where
  codex claude : Command

pub data ArtifactKind : Type 0 where
  plan_draft review_result execution_proposal : ArtifactKind

abbrev pub artifact_kind_beq : ArtifactKind → ArtifactKind → Bool
artifact_kind_beq plan_draft plan_draft = true
artifact_kind_beq plan_draft _ = false
artifact_kind_beq review_result review_result = true
artifact_kind_beq review_result _ = false
artifact_kind_beq execution_proposal execution_proposal = true
artifact_kind_beq execution_proposal _ = false

pub artifact_kind_beq_iff : (a b : ArtifactKind) → (artifact_kind_beq a b ≡ true) ↔ (a ≡ b)
artifact_kind_beq_iff a b = ground arith

instance abbrev pub artifact_kind_eq : Eq ArtifactKind
artifact_kind_eq = record { same = artifact_kind_beq; same_iff = artifact_kind_beq_iff }

-- The fields that the store reads.
pub record ReasoningArtifact : Type 0 where
  pub artifact_id : String
  pub goal_id : String
  pub plan_id : String
  pub kind : ArtifactKind
  pub content_hash : String

pub record RunResult : Type 0 where
  pub stdout : String
  pub stderr : String
  pub exit_code : Option ℕ

pub record ExecutionProposal : Type 0 where
  pub id : String
  pub goal_id : String
  pub plan_id : String
  pub step_id : String
  pub artifact_id : String
  pub content_hash : String
  pub binding_hash : String
  pub execution_endpoint_id : String
  pub execution_permission_profile : String
  pub project_id : String
  pub preview : String
  pub command : Command
  pub args : List String
  pub stdin : String
  pub status : ExecutionProposalStatus
  pub created_at : ℕ
  pub updated_at : ℕ
  pub expires_at : ℕ
  pub confirmation_nonce : Option String
  pub confirmed_at : Option ℕ
  pub dispatching_at : Option ℕ
  pub returned_at : Option ℕ
  pub failed_at : Option ℕ
  pub paused_at : Option ℕ
  pub cancelled_at : Option ℕ
  pub timed_out_at : Option ℕ
  pub failure_reason : Option String
  pub result : Option RunResult
  pub supersedes_proposal_id : Option String
  pub superseded_by_proposal_id : Option String

-- Its list of errors, for what the types leave open.
unfoldable pub validate_execution_proposal : ExecutionProposal → List String
validate_execution_proposal p =
    (if starts_with p.content_hash "sha256:"
      then []
      else "contentHash must be a sha256 string" ∷ [])
    ++ (if starts_with p.binding_hash "sha256:"
        then []
        else "bindingHash must be a sha256 string" ∷ [])

abbrev pub tier_text : Tier → String
tier_text patch_proposal = "patch-proposal"
tier_text workspace_write = "workspace-write"
