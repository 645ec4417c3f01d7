-- ===== src/Relay/Model.antt =====
-- `WebRelayLoop` of packages/shared/src/types.ts, and its validator of packages/shared/src/schemas.ts.
use cli_bridge.Common.{
  ℕ, ◌≡◌, ◌↔◌, Bool, true, false, String, Option, List, [], ◌∷◌, ◌++◌, arith, if◌then◌else◌, Eq,
  nat_eq, string_eq, truthy,
}
use text.Mathlib.Text.{starts_with}
use cli_bridge.Common.{concat}
use cli_bridge.Outbound.Prompts.{required}

pub data WebRelayLoopStatus : Type 0 where
  queued running paused cancelling cancelled done failed : WebRelayLoopStatus

abbrev pub web_relay_loop_status_beq : WebRelayLoopStatus → WebRelayLoopStatus → Bool
web_relay_loop_status_beq queued queued = true
web_relay_loop_status_beq queued _ = false
web_relay_loop_status_beq running running = true
web_relay_loop_status_beq running _ = false
web_relay_loop_status_beq paused paused = true
web_relay_loop_status_beq paused _ = false
web_relay_loop_status_beq cancelling cancelling = true
web_relay_loop_status_beq cancelling _ = false
web_relay_loop_status_beq cancelled cancelled = true
web_relay_loop_status_beq cancelled _ = false
web_relay_loop_status_beq done done = true
web_relay_loop_status_beq done _ = false
web_relay_loop_status_beq failed failed = true
web_relay_loop_status_beq failed _ = false

pub web_relay_loop_status_beq_iff :
    (a b : WebRelayLoopStatus) → (web_relay_loop_status_beq a b ≡ true) ↔ (a ≡ b)
web_relay_loop_status_beq_iff a b = ground arith

instance abbrev pub web_relay_loop_status_eq : Eq WebRelayLoopStatus
web_relay_loop_status_eq = record {
  same = web_relay_loop_status_beq;
  same_iff = web_relay_loop_status_beq_iff;
}

pub record Evidence : Type 0 where
  pub type : String
  pub at : ℕ
  pub reason : Option String
  pub outbound_prompt_id : Option String
  pub round : Option ℕ

pub record WebRelayLoop : Type 0 where
  pub id : String
  pub project_id : String
  pub goal_id : String
  pub session_id : String
  pub endpoint_id : String
  pub status : WebRelayLoopStatus
  pub round : ℕ
  pub max_rounds : ℕ
  pub per_round_timeout_ms : ℕ
  pub total_deadline_at : ℕ
  pub no_progress_limit : ℕ
  pub no_progress_count : ℕ
  pub seen_content_hashes : List String
  pub last_progress_hash : Option String
  pub current_outbound_prompt_id : Option String
  pub created_at : ℕ
  pub updated_at : ℕ
  pub paused_at : Option ℕ
  pub cancelled_at : Option ℕ
  pub done_at : Option ℕ
  pub failed_at : Option ℕ
  pub failure_reason : Option String
  pub evidence : List Evidence

-- The reasons are the store's own texts, which are not empty.
unfoldable pub append_evidence :
    String → ℕ → Option String → Option String → Option ℕ → WebRelayLoop → WebRelayLoop
append_evidence type at reason outbound round loop = record loop {
  evidence =
      loop.evidence
      ++ record {
        type = type;
        at = at;
        reason = reason;
        outbound_prompt_id = truthy outbound;
        round = round;
      }
        ∷ [];
}

abbrev pub is_terminal : WebRelayLoopStatus → Bool
is_terminal cancelled = true
is_terminal done = true
is_terminal failed = true
is_terminal _ = false

hash_errors : List String → List String
hash_errors [] = []
hash_errors (h ∷ hs) =
    (if starts_with h "sha256:"
      then []
      else "seenContentHashes entries must be sha256 strings" ∷ [])
    ++ hash_errors hs

-- Its list of errors, for what the types leave open.
unfoldable pub validate_web_relay_loop : WebRelayLoop → List String
unfolding hash_errors
validate_web_relay_loop loop = concat (
    required "id" loop.id
    ∷ required "projectId" loop.project_id
    ∷ required "goalId" loop.goal_id
    ∷ required "sessionId" loop.session_id
    ∷ required "endpointId" loop.endpoint_id
    ∷ hash_errors loop.seen_content_hashes
    ∷ [])
