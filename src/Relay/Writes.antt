-- ===== src/Relay/Writes.antt =====
-- What the operations on the relay loops may overwrite.
use cli_bridge.Common.{
  Attempt-cases, ℕ, ◌≡◌, sym, ap, ◌∙◌, inl, inr, true, false, String, some, List, [], ◌∷◌, arith,
  eq_iff, ◌==◌, nat_eq, string_eq, Bool-cases, Option-cases, unwrap, or_else, Map, get, set,
  get-set, IsKeyed, get-IsKeyed, set-IsKeyed,
}
use cli_bridge.Outbound.Prompts.{OutboundPrompt}
use cli_bridge.Outbound.Store.{create as create_outbound}
use cli_bridge.Services.Packets.{id_or_uuid}
use cli_bridge.Relay.Model.{
  WebRelayLoopStatus, running, paused, web_relay_loop_status_eq, WebRelayLoop, append_evidence,
  validate_web_relay_loop, is_terminal,
}
use cli_bridge.Relay.Store.{
  Store, default_max_rounds, CreateInput, new_loop, first_prompt, open_round, create, keep_loop,
  pause, resume, cancel, cancel_loop, pause_loop, resume_loop, start_loop, max_rounds_error,
}

abbrev pub loop_id : WebRelayLoop → String
loop_id loop = loop.id

-- What is stored under the identifier, if anything, has not ended.
abbrev pub IsOpenAt : String → Map WebRelayLoop → Type 0
IsOpenAt id m = (l : WebRelayLoop) → get id m ≡ some l → is_terminal l.status ≡ false

-- From one map of loops to another by writes, each of a loop under its own identifier and over none that
-- has ended.
pub data Evolves : Map WebRelayLoop → Map WebRelayLoop → Type 0 where
  same : (m : Map WebRelayLoop) → Evolves m m
  wrote :
      (m n : Map WebRelayLoop) (loop : WebRelayLoop)
      → IsOpenAt loop.id m
      → Evolves (set loop.id loop m) n
      → Evolves m n

write_frozen :
    (id : String) (l loop : WebRelayLoop) (m : Map WebRelayLoop)
    → get id m ≡ some l
    → is_terminal l.status ≡ true
    → IsOpenAt loop.id m
    → get id (set loop.id loop m) ≡ some l
write_frozen id l loop m g t o = elim (Bool-cases (loop.id == id)) [
  | inr other ↦ get-set loop.id id loop m ∙ rw other g
  | inl here ↦
      let i : loop.id ≡ id = ground (arith, eq_iff loop.id id) in
      let live = o l (ap (λ k. get k m) i ∙ g) in absurd (ground (arith, live, t))
]

pub Evolves-frozen :
    (m n : Map WebRelayLoop) (id : String) (l : WebRelayLoop)
    → Evolves m n
    → get id m ≡ some l
    → is_terminal l.status ≡ true
    → get id n ≡ some l
Evolves-frozen _ _ id l (same m) g t = g
Evolves-frozen _ _ id l (wrote m n loop o e) g t =
    Evolves-frozen (set loop.id loop m) n id l e (write_frozen id l loop m g t o) t

pub Evolves-IsKeyed : (m n : Map WebRelayLoop) → Evolves m n → IsKeyed loop_id m → IsKeyed loop_id n
Evolves-IsKeyed _ _ (same m) k = k
Evolves-IsKeyed _ _ (wrote m n loop o e) k =
    Evolves-IsKeyed (set loop.id loop m) n e (set-IsKeyed loop_id loop m k)

-- The loop that an operation found is the one that it overwrites.
pub found_open :
    (k : String) (loop : WebRelayLoop) (m : Map WebRelayLoop)
    → IsKeyed loop_id m
    → get k m ≡ some loop
    → is_terminal loop.status ≡ false
    → IsOpenAt loop.id m
found_open k loop m key g live l e =
    let i = get-IsKeyed loop_id k loop m key g in
    let eq : some l ≡ some loop = sym e ∙ ap (λ j. get j m) i ∙ g in
    ap (λ (x : WebRelayLoop). is_terminal x.status) (unwrap eq) ∙ live

pub written :
    (m : Map WebRelayLoop) (loop : WebRelayLoop)
    → IsOpenAt loop.id m
    → Evolves m (set loop.id loop m)
written m loop o = wrote m (set loop.id loop m) loop o (same (set loop.id loop m))

pub running_open :
    (status : WebRelayLoopStatus) → (status == running) ≡ true → is_terminal status ≡ false
running_open status e = ground arith

paused_open : (status : WebRelayLoopStatus) → (status == paused) ≡ true → is_terminal status ≡ false
paused_open status e = ground arith

pub pause-Evolves :
    (id : String) (now : ℕ) (s : Store)
    → IsKeyed loop_id s.loops
    → Evolves s.loops (pause id now s).1.loops
unfolding pause pause_loop append_evidence
pause-Evolves id now s k = elim (Option-cases (get id s.loops)) [
  | inl e ↦ rw (e, pause) (same s.loops)
  | inr (loop, e) ↦ elim (Bool-cases (loop.status == running)) [
    | inr b ↦ rw (e, b, pause) (same s.loops)
    | inl b ↦
        rw (e, b, pause)
          (written s.loops (pause_loop now loop)
            (found_open id loop s.loops k e (running_open loop.status b)))
  ]
]

pub resume-Evolves :
    (id : String) (now : ℕ) (s : Store)
    → IsKeyed loop_id s.loops
    → Evolves s.loops (resume id now s).1.loops
unfolding resume resume_loop append_evidence
resume-Evolves id now s k = elim (Option-cases (get id s.loops)) [
  | inl e ↦ rw (e, resume) (same s.loops)
  | inr (loop, e) ↦ elim (Bool-cases (loop.status == paused)) [
    | inr b ↦ rw (e, b, resume) (same s.loops)
    | inl b ↦
        rw (e, b, resume)
          (written s.loops (resume_loop now loop)
            (found_open id loop s.loops k e (paused_open loop.status b)))
  ]
]

pub cancel-Evolves :
    (id : String) (now : ℕ) (s : Store)
    → IsKeyed loop_id s.loops
    → Evolves s.loops (cancel id now s).1.loops
unfolding cancel cancel_loop append_evidence
cancel-Evolves id now s k = elim (Option-cases (get id s.loops)) [
  | inl e ↦ rw (e, cancel) (same s.loops)
  | inr (loop, e) ↦ elim (Bool-cases (is_terminal loop.status)) [
    | inl b ↦ rw (e, b, cancel) (same s.loops)
    | inr b ↦
        rw (e, b, cancel)
          (written s.loops (cancel_loop now loop) (found_open id loop s.loops k e b))
  ]
]

-- The identifier that a creation gives the loop.
abbrev pub created_id : CreateInput → Store → String
created_id input s = (id_or_uuid input.id s.outbound.services).0

keep_loop-Evolves :
    (loop : WebRelayLoop) (p : OutboundPrompt) (s : Store) (errors : List String)
    → IsOpenAt loop.id s.loops
    → Evolves s.loops (keep_loop loop p s errors).1.loops
unfolding keep_loop
keep_loop-Evolves loop p s [] o = written s.loops loop o
keep_loop-Evolves loop p s (e ∷ es) o = same s.loops

start_loop-Evolves :
    (loop : WebRelayLoop) (text : String) (now : ℕ) (s : Store)
    → IsOpenAt loop.id s.loops
    → Evolves s.loops (start_loop loop text now s).1.loops
unfolding start_loop open_round append_evidence
start_loop-Evolves loop text now s o =
    let r = create_outbound (first_prompt loop text) now s.outbound in
    elim (Attempt-cases r.0) [
      | inl (es, e) ↦ rw (e, start_loop) (same s.loops)
      | inr (p, e) ↦
          rw (e, start_loop)
            (keep_loop-Evolves (open_round p now loop) p (record s { outbound = r.1 })
              (validate_web_relay_loop (open_round p now loop)) o)
    ]

pub create-Evolves :
    (input : CreateInput) (now : ℕ) (s : Store)
    → IsOpenAt (created_id input s) s.loops
    → Evolves s.loops (create input now s).1.loops
unfolding create new_loop append_evidence
create-Evolves input now s o =
    elim (Option-cases (max_rounds_error (or_else input.max_rounds default_max_rounds))) [
      | inr (m, e) ↦ rw (e, create) (same s.loops)
      | inl e ↦
          rw (e, create)
            (start_loop-Evolves (new_loop input (created_id input s) now) input.initial_prompt now
              (record s {
                outbound = record s.outbound {
                  services = (id_or_uuid input.id s.outbound.services).1;
                };
              })
              o)
    ]
