-- ===== src/Relay/Bounds.antt =====
-- Every loop stays within its rounds, and never takes the same content twice.
use cli_bridge.Common.{
  Attempt-cases, ℕ, suc, ◌≤◌, ◌<◌, ◌≡◌, refl, ap, inl, inr, false, String, List, [], ◌∷◌, ◌++◌,
  arith, eq_iff, leb, ◌==◌, nat_eq, string_eq, Bool-cases, Option-cases, or_else, length,
  length-append, All, includes, get, values, All-values-set, get-All, is_blank,
}
use cli_bridge.Outbound.Prompts.{OutboundPrompt}
use cli_bridge.Outbound.Store.{create as create_outbound}
use cli_bridge.Relay.Model.{
  running, web_relay_loop_status_eq, WebRelayLoop, append_evidence, is_terminal,
}
use cli_bridge.Relay.Store.{
  Store, save, hard_max_rounds, first_prompt, open_round, is_uncertain, current_outbound,
}
use cli_bridge.Relay.Advance.{
  AdvanceInput, fail_loop, done_loop, fail, finish, observe, timed_out, next_round, go_on, attend,
  advance, made_progress, same_hash, is_returned,
}

abbrev pub IsDistinct : List String → Type 0
IsDistinct [] = Unit
IsDistinct (x ∷ xs) = (includes x xs ≡ false) × IsDistinct xs

includes-snoc :
    (x h : String) (xs : List String)
    → includes x xs ≡ false
    → (h == x) ≡ false
    → includes x (xs ++ h ∷ []) ≡ false
includes-snoc x h [] i e = ground (arith, e)
includes-snoc x h (y ∷ ys) i e = ground (arith, includes-snoc x h ys)

pub IsDistinct-snoc :
    (h : String) (xs : List String)
    → IsDistinct xs
    → includes h xs ≡ false
    → IsDistinct (xs ++ h ∷ [])
IsDistinct-snoc h [] d i = (refl, tt)
IsDistinct-snoc h (x ∷ xs) d i = (
  includes-snoc x h xs d.0 (ground (arith, eq_iff h x, eq_iff x h, i)),
  IsDistinct-snoc h xs d.1 (ground (arith, i)),
)

-- The rounds lie within the bounds, and no content was taken twice, nor more than one in a round.
abbrev pub Core : WebRelayLoop → Type 0
Core loop =
    (1 ≤ loop.round)
    × (loop.round ≤ loop.max_rounds)
    × (loop.max_rounds ≤ hard_max_rounds)
    × IsDistinct loop.seen_content_hashes
    × (length loop.seen_content_hashes ≤ loop.round)

-- A loop that has not ended has taken one content less than it has rounds.
abbrev pub IsBounded : WebRelayLoop → Type 0
IsBounded loop =
    Core loop
    × (is_terminal loop.status ≡ false → suc (length loop.seen_content_hashes) ≡ loop.round)

abbrev pub AllBounded : Store → Type 0
AllBounded s = All IsBounded (values s.loops)

pub save-AllBounded :
    (loop : WebRelayLoop) (s : Store) → AllBounded s → IsBounded loop → AllBounded (save loop s)
save-AllBounded loop s a h = All-values-set IsBounded loop.id loop s.loops a h

fail_loop-IsBounded :
    (reason : String) (now : ℕ) (loop : WebRelayLoop)
    → Core loop
    → IsBounded (fail_loop reason now loop)
unfolding fail_loop append_evidence
fail_loop-IsBounded reason now loop c = (c, λ e. absurd (ground arith))

done_loop-IsBounded :
    (reason : String) (now : ℕ) (loop : WebRelayLoop)
    → Core loop
    → IsBounded (done_loop reason now loop)
unfolding done_loop append_evidence
done_loop-IsBounded reason now loop c = (c, λ e. absurd (ground arith))

fail-AllBounded :
    (loop : WebRelayLoop) (reason : String) (now : ℕ) (s : Store)
    → AllBounded s
    → Core loop
    → AllBounded (fail loop reason now s).1
unfolding fail
fail-AllBounded loop reason now s a c =
    save-AllBounded (fail_loop reason now loop) s a (fail_loop-IsBounded reason now loop c)

finish-AllBounded :
    (loop : WebRelayLoop) (reason : String) (now : ℕ) (s : Store)
    → AllBounded s
    → Core loop
    → AllBounded (finish loop reason now s).1
unfolding finish
finish-AllBounded loop reason now s a c =
    save-AllBounded (done_loop reason now loop) s a (done_loop-IsBounded reason now loop c)

-- The loop after a content was taken.
abbrev Observed : WebRelayLoop → Type 0
Observed loop = Core loop × (length loop.seen_content_hashes ≡ loop.round)

observe-Observed :
    (input : AdvanceInput) (hash : String) (p : OutboundPrompt) (now : ℕ) (loop : WebRelayLoop)
    → IsBounded loop
    → is_terminal loop.status ≡ false
    → includes hash loop.seen_content_hashes ≡ false
    → Observed (observe input hash p now loop)
unfolding observe append_evidence made_progress
observe-Observed input hash p now loop h live fresh =
    let seen = loop.seen_content_hashes in
    let distinct = IsDistinct-snoc hash seen h.0.3 fresh in
    let count = length-append seen (hash ∷ []) in
    let full = h.1 live in
    elim (Bool-cases (same_hash loop.last_progress_hash (or_else input.progress_hash hash))) [
      | inl e ↦
          rw (e, observe, made_progress)
            (
              (h.0.0, h.0.1, h.0.2, distinct, omega (arith, count, full)),
              omega (arith, count, full),
            )
      | inr e ↦
          rw (e, observe, made_progress)
            (
              (h.0.0, h.0.1, h.0.2, distinct, omega (arith, count, full)),
              omega (arith, count, full),
            )
    ]

next_round-AllBounded :
    (loop : WebRelayLoop) (text : String) (now : ℕ) (s : Store)
    → AllBounded s
    → Observed loop
    → loop.round < loop.max_rounds
    → AllBounded (next_round loop text now s).1
unfolding next_round open_round append_evidence
next_round-AllBounded loop text now s a c below =
    let loop' : WebRelayLoop = record loop { round = suc loop.round } in
    let core : Core loop' = (omega arith, omega arith, c.0.2, c.0.3, omega (arith, c.0.4)) in
    let bounded : IsBounded loop' = (core, λ e. ap suc c.1) in
    elim (Attempt-cases (create_outbound (first_prompt loop' text) now s.outbound).0) [
      | inl (es, e) ↦ rw (e, next_round) (save-AllBounded loop' s a bounded)
      | inr (p, e) ↦
          rw (e, next_round)
            (save-AllBounded (open_round p now (record loop' { updated_at = now })) s a bounded)
    ]

go_on-AllBounded :
    (input : AdvanceInput) (loop : WebRelayLoop) (now : ℕ) (s : Store)
    → AllBounded s
    → Observed loop
    → AllBounded (go_on input loop now s).1
unfolding go_on
go_on-AllBounded input loop now s a c =
    elim (Bool-cases (leb loop.no_progress_limit loop.no_progress_count)) [
      | inl n ↦ rw (n, go_on) (fail-AllBounded loop "no-progress" now s a c.0)
      | inr n ↦ elim (Bool-cases (leb loop.max_rounds loop.round)) [
        | inl m ↦ rw (n, m, go_on) (finish-AllBounded loop "max-rounds-reached" now s a c.0)
        | inr m ↦ elim (Bool-cases (is_blank (or_else input.next_prompt ""))) [
          | inl b ↦ rw (n, m, b, go_on) (finish-AllBounded loop "no-next-prompt" now s a c.0)
          | inr b ↦
              rw (n, m, b, go_on)
                (next_round-AllBounded loop (or_else input.next_prompt "") now s a c (ground arith))
        ]
      ]
    ]

attend-AllBounded :
    (input : AdvanceInput) (hash : String) (p : OutboundPrompt) (loop : WebRelayLoop) (now : ℕ)
    (s : Store)
    → AllBounded s
    → IsBounded loop
    → is_terminal loop.status ≡ false
    → AllBounded (attend input hash p loop now s).1
unfolding attend
attend-AllBounded input hash p loop now s a h live = elim (Bool-cases (is_uncertain p.status)) [
  | inl u ↦ rw (u, attend) (fail-AllBounded loop "uncertain-submission" now s a h.0)
  | inr u ↦ elim (Bool-cases (is_returned p.status)) [
    | inr r ↦ rw (u, r, attend) a
    | inl r ↦ elim (Bool-cases (timed_out now p.submitted_at loop.per_round_timeout_ms)) [
      | inl t ↦ rw (u, r, t, attend) (fail-AllBounded loop "per-round-timeout" now s a h.0)
      | inr t ↦ elim (Bool-cases (includes hash loop.seen_content_hashes)) [
        | inl i ↦ rw (u, r, t, i, attend) (fail-AllBounded loop "repeated-content" now s a h.0)
        | inr i ↦
            rw (u, r, t, i, attend)
              (go_on-AllBounded input (observe input hash p now loop) now s a
                (observe-Observed input hash p now loop h live i))
      ]
    ]
  ]
]

pub advance-AllBounded :
    (input : AdvanceInput) (now : ℕ) (s : Store) → AllBounded s → AllBounded (advance input now s).1
unfolding advance
advance-AllBounded input now s a = elim (Option-cases (get input.loop_id s.loops)) [
  | inl e ↦ rw (e, advance) a
  | inr (loop, e) ↦ elim (Bool-cases (loop.status == running)) [
    | inr r ↦ rw (e, r, advance) a
    | inl r ↦
        let h = get-All IsBounded input.loop_id loop s.loops a e in
        elim (Bool-cases (leb loop.total_deadline_at now)) [
          | inl d ↦
              rw (e, r, d, advance) (fail-AllBounded loop "total-deadline-reached" now s a h.0)
          | inr d ↦ elim (Option-cases (current_outbound loop s)) [
            | inl m ↦
                rw (e, r, d, m, advance)
                  (fail-AllBounded loop "missing-current-outbound" now s a h.0)
            | inr (p, m) ↦
                rw (e, r, d, m, advance) (attend-AllBounded input _ p loop now s a h (ground arith))
          ]
        ]
  ]
]
