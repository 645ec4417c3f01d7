-- ===== src/Relay/Store.antt =====
-- `InMemoryWebRelayLoopStore`, which drives a store of outbound prompts: creation, pausing, cancelling and
-- the recovery after a restart.
use cli_bridge.Common.{
  Attempt, made, thrown, ℕ, suc, ◌+◌, Bool, true, false, String, Option, none, some, List, [], ◌∷◌,
  if◌then◌else◌, ltb, ◌==◌, nat_eq, string_eq, or_else, Map, get, set, values, truthy,
}
use cli_bridge.Outbound.Prompts.{OutboundStatus, OutboundPrompt}
use cli_bridge.Outbound.Delivery.{mark_failed, cancel as cancel_outbound}
use cli_bridge.Outbound.Store.{
  create as create_outbound, Store as OutboundStore, CreateInput as OutboundInput,
}
use cli_bridge.Outbound.Reports.{get_prompt}
use cli_bridge.Services.Packets.{Services, id_or_uuid}
use cli_bridge.Relay.Model.{
  running, paused, cancelled, failed, web_relay_loop_status_eq, WebRelayLoop, append_evidence,
  validate_web_relay_loop, is_terminal,
}

pub record Store : Type 0 where
  pub outbound : OutboundStore
  pub loops : Map WebRelayLoop

abbrev pub save : WebRelayLoop → Store → Store
save loop s = record s { loops = set loop.id loop s.loops }

abbrev pub default_max_rounds : ℕ
default_max_rounds = 3

abbrev pub hard_max_rounds : ℕ
hard_max_rounds = 10

-- The numbers are natural: the source also refuses a number of rounds that is negative or no integer.
pub record CreateInput : Type 0 where
  pub id : Option String
  pub project_id : String
  pub goal_id : String
  pub session_id : String
  pub endpoint_id : String
  pub initial_prompt : String
  pub max_rounds : Option ℕ
  pub per_round_timeout_ms : Option ℕ
  pub total_deadline_ms : Option ℕ
  pub no_progress_limit : Option ℕ

pub record Answer : Type 0 where
  pub loop : Option WebRelayLoop
  pub outbound_prompt : Option OutboundPrompt
  pub error : Option String

abbrev pub answer_error : String → Answer
answer_error e = record { loop = none; outbound_prompt = none; error = some e }

unfoldable pub new_loop : CreateInput → String → ℕ → WebRelayLoop
unfolding append_evidence
new_loop input id now = append_evidence "created" now none none (some 1) (record {
  id = id;
  project_id = input.project_id;
  goal_id = input.goal_id;
  session_id = input.session_id;
  endpoint_id = input.endpoint_id;
  status = running;
  round = 1;
  max_rounds = or_else input.max_rounds default_max_rounds;
  per_round_timeout_ms = or_else input.per_round_timeout_ms 120000;
  total_deadline_at = now + or_else input.total_deadline_ms 600000;
  no_progress_limit = or_else input.no_progress_limit 2;
  no_progress_count = 0;
  seen_content_hashes = [];
  last_progress_hash = none;
  current_outbound_prompt_id = none;
  created_at = now;
  updated_at = now;
  paused_at = none;
  cancelled_at = none;
  done_at = none;
  failed_at = none;
  failure_reason = none;
  evidence = [];
})

-- The outbound prompt of a round.
abbrev pub first_prompt : WebRelayLoop → String → OutboundInput
first_prompt loop text = record {
  id = none;
  session_id = loop.session_id;
  prompt = text;
  endpoint_id = some loop.endpoint_id;
  loop_id = some loop.id;
  expires_in = none;
}

-- The loop waits for the given prompt now.
unfoldable pub open_round : OutboundPrompt → ℕ → WebRelayLoop → WebRelayLoop
unfolding append_evidence
open_round p now loop =
    append_evidence "round-created" now none (some p.id) (some loop.round)
      (record loop { current_outbound_prompt_id = some p.id })

-- By the errors that `assertWebRelayLoop` finds.
unfoldable pub keep_loop :
    WebRelayLoop → OutboundPrompt → Store → List String → Attempt Answer × Store
keep_loop loop p s [] =
    (made (record { loop = some loop; outbound_prompt = some p; error = none }), save loop s)
keep_loop loop p s (e ∷ es) = (thrown (e ∷ es), s)

-- A loop that is refused leaves its prompt in the outbound store.
unfoldable pub start_loop : WebRelayLoop → String → ℕ → Store → Attempt Answer × Store
unfolding open_round keep_loop
start_loop loop text now s =
    let r = create_outbound (first_prompt loop text) now s.outbound in
    let s' : Store = record s { outbound = r.1 } in
    elim r.0 [
      | thrown es ↦ (thrown es, s')
      | made p ↦
          (let loop' = open_round p now loop in
            keep_loop loop' p s' (validate_web_relay_loop loop'))
    ]

abbrev pub max_rounds_error : ℕ → Option String
max_rounds_error n =
    if ltb n 1
    then some "maxRounds must be a positive integer"
    else (if ltb hard_max_rounds n then some "maxRounds exceeds hard maximum of 10" else none)

unfoldable pub create : CreateInput → ℕ → Store → Attempt Answer × Store
unfolding new_loop start_loop
create input now s = elim (max_rounds_error (or_else input.max_rounds default_max_rounds)) [
  | some e ↦ (made (answer_error e), s)
  | none ↦
      (let n : String × Services = id_or_uuid input.id s.outbound.services in
        let o : OutboundStore = record s.outbound { services = n.1 } in
        start_loop (new_loop input n.0 now) input.initial_prompt now (record s { outbound = o }))
]

unfoldable pub pause_loop : ℕ → WebRelayLoop → WebRelayLoop
unfolding append_evidence
pause_loop now loop =
    append_evidence "paused" now none none none
      (record loop { status = paused; paused_at = some now; updated_at = now })

unfoldable pub pause : String → ℕ → Store → Option WebRelayLoop × Store
pause id now s = elim (get id s.loops) [
  | none ↦ (none, s)
  | some loop ↦
      if loop.status == running
      then (let loop' = pause_loop now loop in (some loop', save loop' s))
      else (none, s)
]

unfoldable pub resume_loop : ℕ → WebRelayLoop → WebRelayLoop
unfolding append_evidence
resume_loop now loop =
    append_evidence "resumed" now none none none
      (record loop { status = running; updated_at = now })

unfoldable pub resume : String → ℕ → Store → Option WebRelayLoop × Store
resume id now s = elim (get id s.loops) [
  | none ↦ (none, s)
  | some loop ↦
      if loop.status == paused
      then (let loop' = resume_loop now loop in (some loop', save loop' s))
      else (none, s)
]

unfoldable pub cancel_loop : ℕ → WebRelayLoop → WebRelayLoop
unfolding append_evidence
cancel_loop now loop =
    append_evidence "cancelled" now none none none
      (record loop { status = cancelled; cancelled_at = some now; updated_at = now })

-- The current prompt of the loop is cancelled with it.
abbrev pub cancel_current : Option String → ℕ → OutboundStore → OutboundStore
cancel_current none now o = o
cancel_current (some id) now o = (cancel_outbound id now o).1

unfoldable pub cancel : String → ℕ → Store → Option WebRelayLoop × Store
cancel id now s = elim (get id s.loops) [
  | none ↦ (none, s)
  | some loop ↦
      if is_terminal loop.status
      then (none, s)
      else (let loop' = cancel_loop now loop in
          let o = cancel_current (truthy loop.current_outbound_prompt_id) now s.outbound in
          (some loop', save loop' (record s { outbound = o })))
]

abbrev pub is_uncertain : OutboundStatus → Bool
is_uncertain OutboundStatus.submitted = true
is_uncertain OutboundStatus.responding = true
is_uncertain _ = false

-- The current prompt of a loop, if it names one and the outbound store has it.
unfoldable pub current_outbound : WebRelayLoop → Store → Option OutboundPrompt
current_outbound loop s = elim (truthy loop.current_outbound_prompt_id) [
  | none ↦ none
  | some id ↦ get_prompt id s.outbound
]

-- Whether a loop that waits for such a prompt is left alone: one that is returned, completed, expired or
-- failed, but not one that is cancelled.
abbrev pub is_settled : OutboundStatus → Bool
is_settled OutboundStatus.returned = true
is_settled OutboundStatus.completed = true
is_settled OutboundStatus.expired = true
is_settled OutboundStatus.failed = true
is_settled _ = false

abbrev pub recovery_reason : OutboundStatus → String
recovery_reason status =
    if is_uncertain status then "restart-uncertain-submission" else "restart-uncertain-outbound"

unfoldable pub fail_recovered : OutboundPrompt → ℕ → WebRelayLoop → WebRelayLoop
unfolding append_evidence
fail_recovered p now loop =
    append_evidence "failed" now (some (recovery_reason p.status)) (some p.id) (some loop.round)
      (record loop {
        status = failed;
        failed_at = some now;
        failure_reason = some (recovery_reason p.status);
        updated_at = now;
      })

-- One round of the loop of `recoverAfterRestart`, and whether it recovered.
unfoldable pub recover_loop : ℕ → WebRelayLoop → Store → Bool × Store
unfolding fail_recovered
recover_loop now loop s =
    if is_terminal loop.status then (false, s) else (elim (current_outbound loop s) [
      | none ↦ (false, s)
      | some p ↦
          if is_settled p.status
          then (false, s)
          else (let o = (mark_failed p.id (recovery_reason p.status) now s.outbound).1 in
              (true, save (fail_recovered p now loop) (record s { outbound = o })))
    ])

unfoldable pub recover_all : ℕ → List WebRelayLoop → ℕ → Store → ℕ × Store
unfolding recover_loop
recover_all now [] n s = (n, s)
recover_all now (loop ∷ loops) n s =
    let r = recover_loop now loop s in recover_all now loops (if r.0 then suc n else n) r.1

-- Writing a loop under its own identifier while iterating adds no entry.
unfoldable pub recover_after_restart : ℕ → Store → ℕ × Store
unfolding recover_all
recover_after_restart now s = recover_all now (values s.loops) 0 s

unfoldable pub get_loop : String → Store → Option WebRelayLoop
get_loop id s = get id s.loops

-- `list`, `exportLoops` and the loops of `report`
unfoldable pub list_loops : Store → List WebRelayLoop
list_loops s = values s.loops
