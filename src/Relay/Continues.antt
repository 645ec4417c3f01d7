-- ===== src/Relay/Continues.antt =====
-- `advance` of storage/web-relay-loop-store.ts, up to the next round.
use cli_bridge.Common.{
  made, ℕ, ◌≡◌, refl, inl, inr, true, false, some, arith, leb, ◌==◌, nat_eq, string_eq, Bool-cases,
  Option-cases, includes, get,
}
use cli_bridge.Outbound.Prompts.{OutboundPrompt}
use cli_bridge.Relay.Model.{running, web_relay_loop_status_eq, WebRelayLoop}
use cli_bridge.Relay.Store.{Store, Answer, answer_error, is_uncertain, current_outbound}
use cli_bridge.Relay.Advance.{AdvanceInput, observe, timed_out, go_on, attend, advance, is_returned}
use cli_bridge.Relay.Opening.{Continues, Opens, shut, fail-Opens, content_hash, Found, go_on-Opens}

attend_taken :
    (input : AdvanceInput) (loop : WebRelayLoop) (p : OutboundPrompt) (now : ℕ) (s : Store)
    → is_uncertain p.status ≡ false
    → is_returned p.status ≡ true
    → timed_out now p.submitted_at loop.per_round_timeout_ms ≡ false
    → includes (content_hash input s) loop.seen_content_hashes ≡ false
    → attend input (content_hash input s) p loop now s
      ≡ go_on input (observe input (content_hash input s) p now loop) now s
unfolding attend
attend_taken input loop p now s u r t i = rw (u, r, t, i, attend) refl

attend-Opens :
    (input : AdvanceInput) (loop : WebRelayLoop) (p : OutboundPrompt) (now : ℕ) (s : Store)
    → Found input now s loop p
    → Opens input now s (attend input (content_hash input s) p loop now s)
unfolding attend
attend-Opens input loop p now s found = elim (Bool-cases (is_uncertain p.status)) [
  | inl u ↦ rw (u, attend) (fail-Opens input loop "uncertain-submission" now s)
  | inr u ↦ elim (Bool-cases (is_returned p.status)) [
    | inr r ↦
        rw (u, r, attend)
          (shut input now s s (answer_error "Current outbound has not returned") refl)
    | inl r ↦ elim (Bool-cases (timed_out now p.submitted_at loop.per_round_timeout_ms)) [
      | inl t ↦ rw (u, r, t, attend) (fail-Opens input loop "per-round-timeout" now s)
      | inr t ↦ elim (Bool-cases (includes (content_hash input s) loop.seen_content_hashes)) [
        | inl i ↦ rw (u, r, t, i, attend) (fail-Opens input loop "repeated-content" now s)
        | inr i ↦
            rw (attend_taken input loop p now s u r t i)
              (go_on-Opens input loop p now s found (ground arith) t i)
      ]
    ]
  ]
]

advance_attending :
    (input : AdvanceInput) (loop : WebRelayLoop) (p : OutboundPrompt) (now : ℕ) (s : Store)
    → Found input now s loop p
    → Opens input now s (advance input now s)
unfolding advance
advance_attending input loop p now s found =
    let r : (loop.status == running) ≡ true = ground (arith, found.2) in
    let d : leb loop.total_deadline_at now ≡ false = ground (arith, found.3) in
    let same_call : advance input now s ≡ attend input (content_hash input s) p loop now s =
      rw (found.0, r, d, found.1, advance) refl in
    rw same_call (attend-Opens input loop p now s found)

advance-Opens :
    (input : AdvanceInput) (now : ℕ) (s : Store) → Opens input now s (advance input now s)
unfolding advance
advance-Opens input now s = elim (Option-cases (get input.loop_id s.loops)) [
  | inl e ↦ rw (e, advance) (shut input now s s (answer_error "Loop not found") refl)
  | inr (loop, e) ↦ elim (Bool-cases (loop.status == running)) [
    | inr r ↦ rw (e, r, advance) (shut input now s s (answer_error "Loop is not running") refl)
    | inl r ↦ elim (Bool-cases (leb loop.total_deadline_at now)) [
      | inl d ↦ rw (e, r, d, advance) (fail-Opens input loop "total-deadline-reached" now s)
      | inr d ↦ elim (Option-cases (current_outbound loop s)) [
        | inl m ↦ rw (e, r, d, m, advance) (fail-Opens input loop "missing-current-outbound" now s)
        | inr (p, m) ↦ advance_attending input loop p now s (e, m, ground arith, ground arith)
      ]
    ]
  ]
]

-- An advance that answers with a new prompt found a running loop before its deadline whose current prompt
-- is stored, returned, and was submitted no longer ago than a round may last (a time of 0 is none), and
-- content that the loop had not taken; the loop is below its maximum of rounds, and the next prompt is not
-- blank. The store then holds the loop running, one round further, with the new prompt as its current one,
-- the content taken, and a count of contents without progress that is below its limit: one more if the
-- progress hash, which is that of the content unless it is given, is the last one, and else none.
pub advance-Continues :
    (input : AdvanceInput) (now : ℕ) (s : Store) (a : Answer) (q : OutboundPrompt)
    → (advance input now s).0 ≡ made a
    → a.outbound_prompt ≡ some q
    → Continues input now s (advance input now s).1 q
unfolding Opens
advance-Continues input now s a q = advance-Opens input now s a q
