-- ===== src/Relay/Advance.antt =====
-- `advance` of the web relay loop: what came back from one round decides whether there is another.
use cli_bridge.Common.{
  Attempt, made, thrown, ℕ, suc, ◌-◌, Bool, true, false, not, ◌&&◌, String, Option, none, some, [],
  ◌∷◌, ◌++◌, if◌then◌else◌, ltb, leb, ◌==◌, nat_eq, string_eq, or_else, includes, get, is_blank,
}
use cli_bridge.Outbound.Prompts.{OutboundStatus, OutboundPrompt}
use cli_bridge.Outbound.Store.{create as create_outbound}
use cli_bridge.Services.Packets.{create_content_hash}
use cli_bridge.Relay.Model.{
  running, done, failed, web_relay_loop_status_eq, WebRelayLoop, append_evidence,
}
use cli_bridge.Relay.Store.{
  Store, save, Answer, answer_error, first_prompt, open_round, is_uncertain, current_outbound,
}

pub record AdvanceInput : Type 0 where
  pub loop_id : String
  pub inbound_content : String
  pub progress_hash : Option String
  pub next_prompt : Option String

unfoldable pub done_loop : String → ℕ → WebRelayLoop → WebRelayLoop
unfolding append_evidence
done_loop reason now loop =
    append_evidence "done" now (some reason) none none
      (record loop { status = done; done_at = some now; updated_at = now })

unfoldable pub fail_loop : String → ℕ → WebRelayLoop → WebRelayLoop
unfolding append_evidence
fail_loop reason now loop = append_evidence "failed" now (some reason) none none (record loop {
  status = failed;
  failed_at = some now;
  failure_reason = some reason;
  updated_at = now;
})

-- `done`
unfoldable pub finish : WebRelayLoop → String → ℕ → Store → Attempt Answer × Store
unfolding done_loop
finish loop reason now s =
    let loop' = done_loop reason now loop in
    (made (record { loop = some loop'; outbound_prompt = none; error = none }), save loop' s)

unfoldable pub fail : WebRelayLoop → String → ℕ → Store → Attempt Answer × Store
unfolding fail_loop
fail loop reason now s =
    let loop' = fail_loop reason now loop in
    (made (record { loop = some loop'; outbound_prompt = none; error = some reason }), save loop' s)

-- A time of 0 counts as none.
abbrev pub timed_out : ℕ → Option ℕ → ℕ → Bool
timed_out now none timeout = false
timed_out now (some at) timeout = not (at == 0) && ltb timeout (now - at)

abbrev pub same_hash : Option String → String → Bool
same_hash none h = false
same_hash (some g) h = g == h

-- Progress is a hash other than the last one.
unfoldable pub made_progress : String → WebRelayLoop → WebRelayLoop
made_progress h loop =
    if same_hash loop.last_progress_hash h
    then record loop { no_progress_count = suc loop.no_progress_count }
    else record loop { last_progress_hash = some h; no_progress_count = 0 }

-- The loop once the content with the hash has come back for the prompt.
unfoldable pub observe : AdvanceInput → String → OutboundPrompt → ℕ → WebRelayLoop → WebRelayLoop
unfolding made_progress append_evidence
observe input hash p now loop =
    append_evidence "inbound-observed" now none (some p.id) (some loop.round) (
      made_progress (or_else input.progress_hash hash)
        (record loop { seen_content_hashes = loop.seen_content_hashes ++ hash ∷ [] }))

-- The new round counts already when the outbound store refuses its prompt: the loop is changed in place.
unfoldable pub next_round : WebRelayLoop → String → ℕ → Store → Attempt Answer × Store
unfolding open_round
next_round before text now s =
    let loop : WebRelayLoop = record before { round = suc before.round } in
    let r = create_outbound (first_prompt loop text) now s.outbound in
    let s' : Store = record s { outbound = r.1 } in
    elim r.0 [
      | thrown es ↦ (thrown es, save loop s')
      | made p ↦
          (let loop' : WebRelayLoop = open_round p now (record loop { updated_at = now }) in
            (
              made (record { loop = some loop'; outbound_prompt = some p; error = none }),
              save loop' s',
            ))
    ]

-- After the content was observed. A prompt that is missing or blank ends the loop.
unfoldable pub go_on : AdvanceInput → WebRelayLoop → ℕ → Store → Attempt Answer × Store
unfolding fail finish next_round
go_on input loop now s =
    if leb loop.no_progress_limit loop.no_progress_count
    then fail loop "no-progress" now s
    else (if leb loop.max_rounds loop.round
        then finish loop "max-rounds-reached" now s
        else (if is_blank (or_else input.next_prompt "")
            then finish loop "no-next-prompt" now s
            else next_round loop (or_else input.next_prompt "") now s))

abbrev pub is_returned : OutboundStatus → Bool
is_returned OutboundStatus.returned = true
is_returned _ = false

-- The content that came back for the current prompt.
unfoldable pub attend :
    AdvanceInput → String → OutboundPrompt → WebRelayLoop → ℕ → Store → Attempt Answer × Store
unfolding fail observe go_on
attend input hash p loop now s =
    if is_uncertain p.status
    then fail loop "uncertain-submission" now s
    else (if is_returned p.status
        then (if timed_out now p.submitted_at loop.per_round_timeout_ms
            then fail loop "per-round-timeout" now s
            else (if includes hash loop.seen_content_hashes
                then fail loop "repeated-content" now s
                else go_on input (observe input hash p now loop) now s))
        else (made (answer_error "Current outbound has not returned"), s))

unfoldable pub advance : AdvanceInput → ℕ → Store → Attempt Answer × Store
unfolding fail attend
advance input now s = elim (get input.loop_id s.loops) [
  | none ↦ (made (answer_error "Loop not found"), s)
  | some loop ↦
      if loop.status == running
      then (if leb loop.total_deadline_at now
          then fail loop "total-deadline-reached" now s
          else (elim (current_outbound loop s) [
            | none ↦ fail loop "missing-current-outbound" now s
            | some p ↦
                attend input (create_content_hash s.outbound.services.env input.inbound_content) p
                  loop now s
          ]))
      else (made (answer_error "Loop is not running"), s)
]
