-- ===== src/Relay/Rounds.antt =====
-- The bounds of the relay loops over whole histories.
use cli_bridge.Common.{
  Attempt-cases, ℕ, suc, ◌≡◌, refl, ◌⊎◌, inl, inr, true, String, List, [], ◌∷◌, arith, ◌==◌, nat_eq,
  string_eq, Bool-cases, Option-cases, or_else, length, All, All-In, get, values, All-values-set,
  get-All, In,
}
use cli_bridge.Outbound.Prompts.{OutboundPrompt}
use cli_bridge.Outbound.Store.{create as create_outbound, Store as OutboundStore}
use cli_bridge.Services.Packets.{id_or_uuid}
use cli_bridge.Relay.Model.{
  running, paused, web_relay_loop_status_eq, WebRelayLoop, append_evidence, validate_web_relay_loop,
  is_terminal,
}
use cli_bridge.Relay.Store.{
  Store, default_max_rounds, CreateInput, new_loop, first_prompt, open_round, create, keep_loop,
  pause, resume, cancel, cancel_loop, current_outbound, recover_loop, recover_all, is_settled,
  recover_after_restart, pause_loop, resume_loop, fail_recovered, start_loop, max_rounds_error,
}
use cli_bridge.Relay.Calls.{
  Call, creates, pauses, resumes, cancels, recovers, advances, moves, step, run, empty,
}
use cli_bridge.Relay.Bounds.{Core, IsBounded, AllBounded, save-AllBounded, advance-AllBounded}

keep_loop-AllBounded :
    (loop : WebRelayLoop) (p : OutboundPrompt) (s : Store) (errors : List String)
    → AllBounded s
    → IsBounded loop
    → AllBounded (keep_loop loop p s errors).1
unfolding keep_loop
keep_loop-AllBounded loop p s [] a h = save-AllBounded loop s a h
keep_loop-AllBounded loop p s (e ∷ es) a h = a

start_loop-AllBounded :
    (loop : WebRelayLoop) (text : String) (now : ℕ) (s : Store)
    → AllBounded s
    → IsBounded loop
    → AllBounded (start_loop loop text now s).1
unfolding start_loop open_round append_evidence
start_loop-AllBounded loop text now s a h =
    let r = create_outbound (first_prompt loop text) now s.outbound in
    elim (Attempt-cases r.0) [
      | inl (es, e) ↦ rw (e, start_loop) a
      | inr (p, e) ↦
          rw (e, start_loop)
            (keep_loop-AllBounded (open_round p now loop) p (record s { outbound = r.1 })
              (validate_web_relay_loop (open_round p now loop)) a h)
    ]

create-AllBounded :
    (input : CreateInput) (now : ℕ) (s : Store) → AllBounded s → AllBounded (create input now s).1
unfolding create new_loop append_evidence
create-AllBounded input now s a =
    elim (Option-cases (max_rounds_error (or_else input.max_rounds default_max_rounds))) [
      | inr (m, e) ↦ rw (e, create) a
      | inl e ↦
          rw (e, create)
            (start_loop-AllBounded (new_loop input (id_or_uuid input.id s.outbound.services).0 now)
              input.initial_prompt now
              (record s {
                outbound = record s.outbound {
                  services = (id_or_uuid input.id s.outbound.services).1;
                };
              })
              a ((omega arith, ground arith, ground arith, tt, omega arith), λ live. refl))
    ]

pause-AllBounded :
    (id : String) (now : ℕ) (s : Store) → AllBounded s → AllBounded (pause id now s).1
unfolding pause pause_loop append_evidence
pause-AllBounded id now s a = elim (Option-cases (get id s.loops)) [
  | inl e ↦ rw (e, pause) a
  | inr (loop, e) ↦ elim (Bool-cases (loop.status == running)) [
    | inr b ↦ rw (e, b, pause) a
    | inl b ↦
        let h = get-All IsBounded id loop s.loops a e in
        rw (e, b, pause)
          (save-AllBounded (pause_loop now loop) s a (h.0, λ live. h.1 (ground arith)))
  ]
]

resume-AllBounded :
    (id : String) (now : ℕ) (s : Store) → AllBounded s → AllBounded (resume id now s).1
unfolding resume resume_loop append_evidence
resume-AllBounded id now s a = elim (Option-cases (get id s.loops)) [
  | inl e ↦ rw (e, resume) a
  | inr (loop, e) ↦ elim (Bool-cases (loop.status == paused)) [
    | inr b ↦ rw (e, b, resume) a
    | inl b ↦
        let h = get-All IsBounded id loop s.loops a e in
        rw (e, b, resume)
          (save-AllBounded (resume_loop now loop) s a (h.0, λ live. h.1 (ground arith)))
  ]
]

cancel-AllBounded :
    (id : String) (now : ℕ) (s : Store) → AllBounded s → AllBounded (cancel id now s).1
unfolding cancel cancel_loop append_evidence
cancel-AllBounded id now s a = elim (Option-cases (get id s.loops)) [
  | inl e ↦ rw (e, cancel) a
  | inr (loop, e) ↦ elim (Bool-cases (is_terminal loop.status)) [
    | inl b ↦ rw (e, b, cancel) a
    | inr b ↦
        let h = get-All IsBounded id loop s.loops a e in
        rw (e, b, cancel)
          (All-values-set IsBounded loop.id (cancel_loop now loop) s.loops a
            (h.0, λ live. absurd (ground arith)))
  ]
]

recover_loop-AllBounded :
    (now : ℕ) (loop : WebRelayLoop) (s : Store)
    → AllBounded s
    → IsBounded loop
    → AllBounded (recover_loop now loop s).1
unfolding recover_loop fail_recovered append_evidence
recover_loop-AllBounded now loop s a h = elim (Bool-cases (is_terminal loop.status)) [
  | inl b ↦ rw (b, recover_loop) a
  | inr b ↦ elim (Option-cases (current_outbound loop s)) [
    | inl e ↦ rw (b, e, recover_loop) a
    | inr (p, e) ↦ elim (Bool-cases (is_settled p.status)) [
      | inl c ↦ rw (b, e, c, recover_loop) a
      | inr c ↦
          rw (b, e, c, recover_loop)
            (All-values-set IsBounded loop.id (fail_recovered p now loop) s.loops a
              (h.0, λ live. absurd (ground arith)))
    ]
  ]
]

recover_all-AllBounded :
    (now : ℕ) (loops : List WebRelayLoop) (n : ℕ) (s : Store)
    → AllBounded s
    → All IsBounded loops
    → AllBounded (recover_all now loops n s).1
unfolding recover_all
recover_all-AllBounded now [] n s a h = a
recover_all-AllBounded now (loop ∷ loops) n s a h =
    recover_all-AllBounded now loops _ (recover_loop now loop s).1
      (recover_loop-AllBounded now loop s a h.0) h.1

step-AllBounded : (now : ℕ) (c : Call) (s : Store) → AllBounded s → AllBounded (step s (now, c))
unfolding step recover_after_restart
step-AllBounded now (creates input) s a = create-AllBounded input now s a
step-AllBounded now (pauses id) s a = pause-AllBounded id now s a
step-AllBounded now (resumes id) s a = resume-AllBounded id now s a
step-AllBounded now (cancels id) s a = cancel-AllBounded id now s a
step-AllBounded now recovers s a = recover_all-AllBounded now (values s.loops) 0 s a a
step-AllBounded now (advances input) s a = advance-AllBounded input now s a
step-AllBounded now (moves c) s a = a

run-AllBounded : (cs : List (ℕ × Call)) (s : Store) → AllBounded s → AllBounded (run s cs)
unfolding run
run-AllBounded [] s a = a
run-AllBounded ((now, c) ∷ cs) s a = run-AllBounded cs (step s (now, c)) (step-AllBounded now c s a)

-- In every store that calls, hydrations apart, reach from one without loops, whatever others do to the
-- outbound store in between and also when a prompt is refused in the middle of an advance: each loop
-- is in a round from 1 to its maximum, which is at most 10; the contents it took are all different and
-- no more than its rounds, and the loop is cancelled, done or failed, or the contents are one less
-- than its rounds.
pub run-Core :
    (o : OutboundStore) (cs : List (ℕ × Call)) (loop : WebRelayLoop)
    → In loop (values (run (empty o) cs).loops)
    → Core loop
      × ((is_terminal loop.status ≡ true) ⊎ (suc (length loop.seen_content_hashes) ≡ loop.round))
run-Core o cs loop i =
    let h = All-In IsBounded (values (run (empty o) cs).loops) (run-AllBounded cs (empty o) tt) i in
    elim (Bool-cases (is_terminal loop.status)) [
      | inl ended ↦ (h.0, inl ended)
      | inr live ↦ (h.0, inr (h.1 live))
    ]
