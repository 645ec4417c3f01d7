-- ===== src/Proposals/Store.antt =====
-- `InMemoryExecutionProposalStore`. A call that throws answers with its message and leaves the store
-- as it was; proposals are cloned on their way in and out.
use cli_bridge.Common.{
  Attempt, made, thrown, ℕ, suc, Bool, ◌&&◌, String, Option, none, some, List, [], ◌∷◌, ◌++◌, map,
  if◌then◌else◌, ◌==◌, nat_eq, string_eq, find, head?, Map, get, set,
}
use cli_bridge.Proposals.Model.{
  ExecutionProposalStatus, draft, execution_proposal_status_eq, Command, codex, claude,
  execution_proposal, artifact_kind_eq, ReasoningArtifact, ExecutionProposal,
  validate_execution_proposal, tier_text,
}
use Prim.Native.String.{◌++◌ as append}
use cli_bridge.Services.StableJson.{json_field, json_object, json_array}
use cli_bridge.Bindings.Model.{RunEndpointBinding}
use cli_bridge.Goals.Model.{PlanStep, Plan}
use cli_bridge.Goals.Steps.{has_id}
use cli_bridge.Proposals.Commands.{forbidden_arg}

-- The platform: random identifiers, the digest, and `JSON.stringify` of a text.
pub record Platform : Type 0 where
  pub uuid : ℕ → String
  pub sha256_hex : String → String
  pub json_string : String → String

pub record Store : Type 0 where
  pub platform : Platform
  pub open platform use *
  pub drawn : ℕ
  pub proposals : Map ExecutionProposal

abbrev pub random_uuid : Store → String × Store
random_uuid s = (s.uuid s.drawn, record s { drawn = suc s.drawn })

-- By the errors of `assertExecutionProposal`.
abbrev pub keep : ExecutionProposal → Store → List String → Attempt ExecutionProposal × Store
keep p s [] = (made p, record s { proposals = set p.id p s.proposals })
keep p s (e ∷ es) = (thrown (e ∷ es), s)

unfoldable pub save : ExecutionProposal → Store → Attempt ExecutionProposal × Store
save p s = keep p s (validate_execution_proposal p)

-- What comes after a save that did not throw.
unfoldable pub then_save :
    Attempt ExecutionProposal × Store → ExecutionProposal → Attempt ExecutionProposal × Store
unfolding save
then_save (made p, s) q = save q s
then_save (thrown es, s) q = (thrown es, s)

abbrev command_text : Command → String
command_text codex = "codex"
command_text claude = "claude"

-- `proposalContentHash`: the digest of the stable JSON, which has its keys in order.
unfoldable pub content_hash_of :
    Platform → String → String → String → Command → List String → String → String
content_hash_of env artifact_id artifact_hash preview command args stdin = append "sha256:" (
    env.sha256_hex (
      json_object (
        json_field env.json_string "args" (json_array (map (λ a. env.json_string a) args))
        ∷ json_field env.json_string "artifactContentHash" (env.json_string artifact_hash)
        ∷ json_field env.json_string "artifactId" (env.json_string artifact_id)
        ∷ json_field env.json_string "command" (env.json_string (command_text command))
        ∷ json_field env.json_string "preview" (env.json_string preview)
        ∷ json_field env.json_string "stdin" (env.json_string stdin)
        ∷ [])))

pub record CreateInput : Type 0 where
  pub binding : RunEndpointBinding
  pub plan : Plan
  pub step_id : String
  pub artifact : ReasoningArtifact
  pub preview : String
  pub command : Command
  pub args : List String
  pub stdin : String
  pub expires_at : ℕ
  pub supersedes_proposal_id : Option String

abbrev pub unless : Bool → String → List String
unless ok reason = if ok then [] else reason ∷ []

unfoldable pub step_errors : CreateInput → Option PlanStep → List String
step_errors input none = "step-not-found" ∷ []
step_errors input (some step) =
    unless (input.artifact.kind == execution_proposal) "artifact-kind-invalid"
    ++ unless
        (input.artifact.plan_id == input.plan.id && input.artifact.goal_id == input.plan.goal_id)
        "artifact-plan-mismatch"
    ++ unless
        (input.binding.plan_id == input.plan.id && input.binding.goal_id == input.plan.goal_id)
        "binding-plan-mismatch"
    ++ unless (step.target_endpoint_id == input.binding.execution_endpoint_id)
        "step-endpoint-mismatch"
    ++ unless (tier_text step.tier == input.binding.execution_permission_profile)
        "step-permission-profile-mismatch"

unfoldable pub command_errors : List String → List String
command_errors args = elim (forbidden_arg args) [
  | none ↦ []
  | some pattern ↦ append "forbidden-arg:" pattern ∷ []
]

-- The first of the errors is the one that is thrown.
unfoldable pub draft_error : CreateInput → Option String
unfolding step_errors command_errors
draft_error input =
    head? (
      command_errors input.args ++ step_errors input (find (has_id input.step_id) input.plan.steps))

unfoldable pub new_proposal : CreateInput → String → ℕ → Platform → ExecutionProposal
unfolding content_hash_of
new_proposal input id now env = record {
  id = id;
  goal_id = input.plan.goal_id;
  plan_id = input.plan.id;
  step_id = input.step_id;
  artifact_id = input.artifact.artifact_id;
  content_hash =
      content_hash_of env input.artifact.artifact_id input.artifact.content_hash input.preview
        input.command input.args input.stdin;
  binding_hash = input.binding.binding_hash;
  execution_endpoint_id = input.binding.execution_endpoint_id;
  execution_permission_profile = input.binding.execution_permission_profile;
  project_id = input.binding.execution_working_directory_ref;
  preview = input.preview;
  command = input.command;
  args = input.args;
  stdin = input.stdin;
  status = draft;
  created_at = now;
  updated_at = now;
  expires_at = input.expires_at;
  confirmation_nonce = none;
  confirmed_at = none;
  dispatching_at = none;
  returned_at = none;
  failed_at = none;
  paused_at = none;
  cancelled_at = none;
  timed_out_at = none;
  failure_reason = none;
  result = none;
  supersedes_proposal_id = input.supersedes_proposal_id;
  superseded_by_proposal_id = none;
}

unfoldable pub create_draft : CreateInput → ℕ → Store → Attempt ExecutionProposal × Store
unfolding new_proposal save
create_draft input now s = elim (draft_error input) [
  | some e ↦ (thrown (e ∷ []), s)
  | none ↦ (let n = random_uuid s in save (new_proposal input n.0 now s.platform) n.1)
]

-- An operation that finds its proposal, asks for a status, and saves what it made of it.
unfoldable pub update :
    String
    → (ExecutionProposalStatus → Bool)
    → String
    → (ExecutionProposal → ExecutionProposal)
    → Store
    → Attempt ExecutionProposal × Store
unfolding save
update id allowed reason f s = elim (get id s.proposals) [
  | none ↦ (thrown ("proposal-not-found" ∷ []), s)
  | some p ↦ if allowed p.status then save (f p) s else (thrown (reason ∷ []), s)
]
