-- ===== src/Relay/Histories.antt =====
-- A relay loop that has ended is never written again, over whole histories.
use cli_bridge.Common.{
  ℕ, ◌≡◌, sym, ap, ◌∙◌, inl, inr, true, false, String, none, some, List, [], ◌∷◌, arith, eq_iff,
  ◌==◌, nat_eq, string_eq, Bool-cases, In-All, Map, get, values, IsKeyed, In-values,
}
use cli_bridge.Relay.Model.{web_relay_loop_status_eq, WebRelayLoop, is_terminal}
use cli_bridge.Relay.Store.{Store, recover_after_restart}
use cli_bridge.Relay.Calls.{
  Call, creates, pauses, resumes, cancels, recovers, advances, moves, step, run,
}
use cli_bridge.Relay.Writes.{
  Evolves, same, Evolves-frozen, Evolves-IsKeyed, loop_id, IsOpenAt, found_open, pause-Evolves,
  resume-Evolves, cancel-Evolves, created_id, create-Evolves,
}
use cli_bridge.Relay.Endings.{advance-Evolves, recover_all-Evolves, Waits, Apart}

other_id :
    (k : String) (m : Map WebRelayLoop) (r : WebRelayLoop)
    → get k m ≡ none
    → get r.id m ≡ some r
    → (k == r.id) ≡ false
other_id k m r missing there = elim (Bool-cases (k == r.id)) [
  | inr other ↦ other
  | inl same_id ↦
      let i : k ≡ r.id = ground (arith, eq_iff k r.id) in
      let clash : none ≡ some r = sym missing ∙ ap (λ j. get j m) i ∙ there in
      absurd (ground (arith, clash))
]

IsKeyed-Apart : (m : Map WebRelayLoop) → IsKeyed loop_id m → Apart (values m)
IsKeyed-Apart [] k = tt
IsKeyed-Apart ((j, l) ∷ m) k = (
  In-All (λ (r : WebRelayLoop). (l.id == r.id) ≡ false) (values m)
      (λ r i. other_id l.id m r (ap (λ x. get x m) k.0 ∙ k.1) (In-values loop_id r m k.2 i)),
  IsKeyed-Apart m k.2,
)

recover-Evolves :
    (now : ℕ) (s : Store)
    → IsKeyed loop_id s.loops
    → Evolves s.loops (recover_after_restart now s).1.loops
unfolding recover_after_restart
recover-Evolves now s k = recover_all-Evolves now (values s.loops) 0 s (IsKeyed-Apart s.loops k) (
    In-All (Waits s.loops) (values s.loops)
      (λ l i live. found_open l.id l s.loops k (In-values loop_id l s.loops k i) live))

-- A creation takes an identifier that no loop has.
abbrev pub IsFresh : Store → Call → Type 0
IsFresh s (creates input) = get (created_id input s) s.loops ≡ none
IsFresh s _ = Unit

abbrev pub AllFresh : Store → List (ℕ × Call) → Type 0
AllFresh s [] = Unit
AllFresh s (c ∷ cs) = IsFresh s c.1 × AllFresh (step s c) cs

missing_open : (id : String) (m : Map WebRelayLoop) → get id m ≡ none → IsOpenAt id m
missing_open id m e l f = absurd (let clash : none ≡ some l = sym e ∙ f in ground (arith, clash))

step-Evolves :
    (now : ℕ) (c : Call) (s : Store)
    → IsKeyed loop_id s.loops
    → IsFresh s c
    → Evolves s.loops (step s (now, c)).loops
unfolding step
step-Evolves now (creates input) s k f =
    create-Evolves input now s (missing_open (created_id input s) s.loops f)
step-Evolves now (pauses id) s k f = pause-Evolves id now s k
step-Evolves now (resumes id) s k f = resume-Evolves id now s k
step-Evolves now (cancels id) s k f = cancel-Evolves id now s k
step-Evolves now recovers s k f = recover-Evolves now s k
step-Evolves now (advances input) s k f = advance-Evolves input now s k
step-Evolves now (moves c) s k f = same s.loops

-- A relay loop that is cancelled, done or failed is never written again: from a store that keeps each
-- loop under its own identifier, any history of calls, hydrations apart, whose creations take
-- identifiers that no loop has leaves that loop as it was.
pub run_terminal_loop :
    (s : Store) (cs : List (ℕ × Call)) (id : String) (l : WebRelayLoop)
    → IsKeyed loop_id s.loops
    → AllFresh s cs
    → get id s.loops ≡ some l
    → is_terminal l.status ≡ true
    → get id (run s cs).loops ≡ some l
unfolding run
run_terminal_loop s [] id l k f g t = g
run_terminal_loop s ((now, c) ∷ cs) id l k f g t =
    let e = step-Evolves now c s k f.0 in
    run_terminal_loop (step s (now, c)) cs id l (Evolves-IsKeyed _ _ e k) f.1
      (Evolves-frozen _ _ id l e g t) t
