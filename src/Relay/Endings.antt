-- ===== src/Relay/Endings.antt =====
-- A relay loop that has ended is never written again.
use cli_bridge.Common.{
  Attempt-cases, ℕ, suc, ◌≡◌, refl, sym, ◌∙◌, inl, inr, false, String, List, [], ◌∷◌, arith, leb,
  ◌==◌, nat_eq, string_eq, Bool-cases, Option-cases, or_else, All, includes, Map, get, set, get-set,
  IsKeyed, is_blank,
}
use cli_bridge.Outbound.Prompts.{OutboundPrompt}
use cli_bridge.Outbound.Store.{create as create_outbound}
use cli_bridge.Relay.Model.{
  running, web_relay_loop_status_eq, WebRelayLoop, append_evidence, is_terminal,
}
use cli_bridge.Relay.Store.{
  Store, first_prompt, open_round, is_uncertain, current_outbound, recover_loop, recover_all,
  is_settled, fail_recovered,
}
use cli_bridge.Relay.Advance.{
  AdvanceInput, fail_loop, done_loop, fail, finish, observe, timed_out, next_round, go_on, attend,
  advance, made_progress, is_returned,
}
use cli_bridge.Relay.Writes.{
  Evolves, same, wrote, loop_id, IsOpenAt, found_open, written, running_open,
}
use mathlib.Core.Path.{subst}

fail-Evolves :
    (loop : WebRelayLoop) (reason : String) (now : ℕ) (s : Store)
    → IsOpenAt loop.id s.loops
    → Evolves s.loops (fail loop reason now s).1.loops
unfolding fail fail_loop append_evidence
fail-Evolves loop reason now s o = written s.loops (fail_loop reason now loop) o

finish-Evolves :
    (loop : WebRelayLoop) (reason : String) (now : ℕ) (s : Store)
    → IsOpenAt loop.id s.loops
    → Evolves s.loops (finish loop reason now s).1.loops
unfolding finish done_loop append_evidence
finish-Evolves loop reason now s o = written s.loops (done_loop reason now loop) o

next_round-Evolves :
    (loop : WebRelayLoop) (text : String) (now : ℕ) (s : Store)
    → IsOpenAt loop.id s.loops
    → Evolves s.loops (next_round loop text now s).1.loops
unfolding next_round open_round append_evidence
next_round-Evolves loop text now s o =
    let loop' : WebRelayLoop = record loop { round = suc loop.round } in
    elim (Attempt-cases (create_outbound (first_prompt loop' text) now s.outbound).0) [
      | inl (es, e) ↦ rw (e, next_round) (written s.loops loop' o)
      | inr (p, e) ↦
          rw (e, next_round)
            (written s.loops (open_round p now (record loop' { updated_at = now })) o)
    ]

go_on-Evolves :
    (input : AdvanceInput) (loop : WebRelayLoop) (now : ℕ) (s : Store)
    → IsOpenAt loop.id s.loops
    → Evolves s.loops (go_on input loop now s).1.loops
unfolding go_on
go_on-Evolves input loop now s o =
    elim (Bool-cases (leb loop.no_progress_limit loop.no_progress_count)) [
      | inl n ↦ rw (n, go_on) (fail-Evolves loop "no-progress" now s o)
      | inr n ↦ elim (Bool-cases (leb loop.max_rounds loop.round)) [
        | inl m ↦ rw (n, m, go_on) (finish-Evolves loop "max-rounds-reached" now s o)
        | inr m ↦ elim (Bool-cases (is_blank (or_else input.next_prompt ""))) [
          | inl b ↦ rw (n, m, b, go_on) (finish-Evolves loop "no-next-prompt" now s o)
          | inr b ↦
              rw (n, m, b, go_on) (next_round-Evolves loop (or_else input.next_prompt "") now s o)
        ]
      ]
    ]

observe-id :
    (input : AdvanceInput) (hash : String) (p : OutboundPrompt) (now : ℕ) (loop : WebRelayLoop)
    → (observe input hash p now loop).id ≡ loop.id
unfolding observe append_evidence made_progress
observe-id input hash p now loop = ground arith

attend-Evolves :
    (input : AdvanceInput) (hash : String) (p : OutboundPrompt) (loop : WebRelayLoop) (now : ℕ)
    (s : Store)
    → IsOpenAt loop.id s.loops
    → Evolves s.loops (attend input hash p loop now s).1.loops
unfolding attend
attend-Evolves input hash p loop now s o = elim (Bool-cases (is_uncertain p.status)) [
  | inl u ↦ rw (u, attend) (fail-Evolves loop "uncertain-submission" now s o)
  | inr u ↦ elim (Bool-cases (is_returned p.status)) [
    | inr r ↦ rw (u, r, attend) (same s.loops)
    | inl r ↦ elim (Bool-cases (timed_out now p.submitted_at loop.per_round_timeout_ms)) [
      | inl t ↦ rw (u, r, t, attend) (fail-Evolves loop "per-round-timeout" now s o)
      | inr t ↦ elim (Bool-cases (includes hash loop.seen_content_hashes)) [
        | inl i ↦ rw (u, r, t, i, attend) (fail-Evolves loop "repeated-content" now s o)
        | inr i ↦
            rw (u, r, t, i, attend)
              (go_on-Evolves input (observe input hash p now loop) now s
                (subst (λ id. IsOpenAt id s.loops) (sym (observe-id input hash p now loop)) o))
      ]
    ]
  ]
]

pub advance-Evolves :
    (input : AdvanceInput) (now : ℕ) (s : Store)
    → IsKeyed loop_id s.loops
    → Evolves s.loops (advance input now s).1.loops
unfolding advance
advance-Evolves input now s k = elim (Option-cases (get input.loop_id s.loops)) [
  | inl e ↦ rw (e, advance) (same s.loops)
  | inr (loop, e) ↦ elim (Bool-cases (loop.status == running)) [
    | inr r ↦ rw (e, r, advance) (same s.loops)
    | inl r ↦
        let o = found_open input.loop_id loop s.loops k e (running_open loop.status r) in
        elim (Bool-cases (leb loop.total_deadline_at now)) [
          | inl d ↦ rw (e, r, d, advance) (fail-Evolves loop "total-deadline-reached" now s o)
          | inr d ↦ elim (Option-cases (current_outbound loop s)) [
            | inl m ↦
                rw (e, r, d, m, advance) (fail-Evolves loop "missing-current-outbound" now s o)
            | inr (p, m) ↦ rw (e, r, d, m, advance) (attend-Evolves input _ p loop now s o)
          ]
        ]
  ]
]

-- The loops that the recovery has still to see: each has not ended, or is what is stored.
abbrev pub Waits : Map WebRelayLoop → WebRelayLoop → Type 0
Waits m loop = is_terminal loop.status ≡ false → IsOpenAt loop.id m

-- No two have the same identifier.
abbrev pub Apart : List WebRelayLoop → Type 0
Apart [] = Unit
Apart (l ∷ ls) = All (λ (r : WebRelayLoop). (l.id == r.id) ≡ false) ls × Apart ls

Waits-after :
    (m : Map WebRelayLoop) (loop : WebRelayLoop) (ls : List WebRelayLoop)
    → All (λ (r : WebRelayLoop). (loop.id == r.id) ≡ false) ls
    → All (Waits m) ls
    → All (Waits (set loop.id loop m)) ls
Waits-after m loop [] d h = tt
Waits-after m loop (r ∷ rs) d h = (
  λ live l e. h.0 live l (sym (get-set loop.id r.id loop m ∙ rw d.0 refl) ∙ e),
  Waits-after m loop rs d.1 h.1,
)

pub recover_all-Evolves :
    (now : ℕ) (loops : List WebRelayLoop) (n : ℕ) (s : Store)
    → Apart loops
    → All (Waits s.loops) loops
    → Evolves s.loops (recover_all now loops n s).1.loops
unfolding recover_all recover_loop fail_recovered append_evidence
recover_all-Evolves now [] n s a h = same s.loops
recover_all-Evolves now (loop ∷ loops) n s a h = elim (Bool-cases (is_terminal loop.status)) [
  | inl b ↦ rw (b, recover_all, recover_loop) (recover_all-Evolves now loops n s a.1 h.1)
  | inr b ↦ elim (Option-cases (current_outbound loop s)) [
    | inl e ↦ rw (b, e, recover_all, recover_loop) (recover_all-Evolves now loops n s a.1 h.1)
    | inr (p, e) ↦ elim (Bool-cases (is_settled p.status)) [
      | inl c ↦ rw (b, e, c, recover_all, recover_loop) (recover_all-Evolves now loops n s a.1 h.1)
      | inr c ↦
          let loop' = fail_recovered p now loop in
          rw (b, e, c, recover_all, recover_loop)
            (wrote s.loops _ loop' (h.0 b) (
              recover_all-Evolves now loops (suc n)
                (record s { outbound = _; loops = set loop'.id loop' s.loops }) a.1
                (Waits-after s.loops loop' loops a.0 h.1)))
    ]
  ]
]
