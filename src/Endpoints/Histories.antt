-- ===== src/Endpoints/Histories.antt =====
-- What stays of an endpoint once it is registered.
use cli_bridge.Common.{
  ℕ, ◌≡◌, refl, sym, ap, ◌∙◌, ◌⊎◌, inl, inr, true, false, String, none, some, List, [], ◌∷◌, arith,
  eq_iff, ◌==◌, nat_eq, string_eq, Bool-cases, Option-cases, unwrap, get, set, get-set,
}
use mathlib.Core.Path.{subst}
use cli_bridge.Endpoints.Model.{
  EndpointAction, EndpointStatus, online, offline, endpoint_status_eq, AgentEndpoint,
  validate_agent_endpoint,
}
use cli_bridge.Endpoints.Registry.{
  Registry, endpoint_offline, refused, stands, seen, admit, register, validate_action, heartbeat,
  take_offline,
}

pub data Call : Type 0 where
  registers : AgentEndpoint → Call
  beats leaves : String → Call

unfoldable pub step : Registry → ℕ × Call → Registry
step r (now, registers e) = (register e now r).1
step r (now, beats id) = (heartbeat id now r).1
step r (now, leaves id) = (take_offline id now r).1

unfoldable pub run : Registry → List (ℕ × Call) → Registry
unfolding step
run r [] = r
run r (c ∷ cs) = run (step r c) cs

-- An endpoint seen again is the one that was registered, in all but its status and its last sign of
-- life; it does not come back from being offline.
abbrev pub Endures : AgentEndpoint → AgentEndpoint → Type 0
Endures e f =
    (f.id ≡ e.id)
    × (f.label ≡ e.label)
    × (f.transport ≡ e.transport)
    × (f.risk ≡ e.risk)
    × (f.capabilities ≡ e.capabilities)
    × (f.project_ref ≡ e.project_ref)
    × ((stands offline e ≡ false) ⊎ (stands offline f ≡ true))

Endures-refl : (e : AgentEndpoint) → Endures e e
Endures-refl e = (refl, refl, refl, refl, refl, refl, split (Bool-cases (stands offline e)))
  where
    split :
        (stands offline e ≡ true) ⊎ (stands offline e ≡ false)
        → (stands offline e ≡ false) ⊎ (stands offline e ≡ true)
    split (inl gone) = inr gone
    split (inr there) = inl there

Endures-trans : (e f g : AgentEndpoint) → Endures e f → Endures f g → Endures e g
Endures-trans e f g a b =
    (b.0 ∙ a.0, b.1 ∙ a.1, b.2 ∙ a.2, b.3 ∙ a.3, b.4 ∙ a.4, b.5 ∙ a.5, ground (arith, a.6, b.6))

-- One write under a key where there was nothing, or where an endpoint stood that is not offline.
abbrev Touches : Registry → Registry → Type 0
Touches r t =
    (t ≡ r)
    ⊎ ((k : String) × (e : AgentEndpoint) × (get k r ≡ none) × (t ≡ set k e r))
    ⊎ ((k : String) × (e : AgentEndpoint) × (f : AgentEndpoint) × (get k r ≡ some e)
        × Endures e f
        × (t ≡ set k f r))

admit-Touches :
    (e : AgentEndpoint) (now : ℕ) (r : Registry) (errors : List String)
    → Touches r (admit e now r errors).1
unfolding admit
admit-Touches e now r (x ∷ xs) = inl refl
admit-Touches e now r [] = elim (Option-cases (get e.id r)) [
  | inr (old, f) ↦ rw (f, admit) (inl refl)
  | inl f ↦ rw (f, admit) (inr (inl (e.id, seen online now e, f, refl)))
]

-- A write that shows an endpoint which is not offline.
seen-Touches :
    (status : EndpointStatus) (id : String) (now : ℕ) (r : Registry) (e : AgentEndpoint)
    → get id r ≡ some e
    → stands offline e ≡ false
    → Touches r (set id (seen status now e) r)
seen-Touches status id now r e f there =
    inr (inr (id, e, seen status now e, f, (refl, refl, refl, refl, refl, refl, inl there), refl))

heartbeat-Touches : (id : String) (now : ℕ) (r : Registry) → Touches r (heartbeat id now r).1
unfolding heartbeat
heartbeat-Touches id now r = elim (Option-cases (get id r)) [
  | inl f ↦ rw (f, heartbeat) (inl refl)
  | inr (e, f) ↦ elim (Bool-cases (stands offline e)) [
    | inl gone ↦ rw (f, gone, heartbeat) (inl refl)
    | inr there ↦ rw (f, there, heartbeat) (seen-Touches online id now r e f there)
  ]
]

take_offline-Touches : (id : String) (now : ℕ) (r : Registry) → Touches r (take_offline id now r).1
unfolding take_offline
take_offline-Touches id now r = elim (Option-cases (get id r)) [
  | inl f ↦ rw (f, take_offline) (inl refl)
  | inr (e, f) ↦ elim (Bool-cases (stands offline e)) [
    | inl gone ↦ rw (f, gone, take_offline) (inl refl)
    | inr there ↦ rw (f, there, take_offline) (seen-Touches offline id now r e f there)
  ]
]

step-Touches : (r : Registry) (c : ℕ × Call) → Touches r (step r c)
unfolding step register
step-Touches r (now, registers e) = admit-Touches e now r (validate_agent_endpoint e)
step-Touches r (now, beats id) = heartbeat-Touches id now r
step-Touches r (now, leaves id) = take_offline-Touches id now r

Touches-Endures :
    (r t : Registry) (k : String) (e : AgentEndpoint)
    → Touches r t
    → get k r ≡ some e
    → (f : AgentEndpoint) × (get k t ≡ some f) × Endures e f
Touches-Endures r t k e (inl same) there = (e, rw same there, Endures-refl e)
Touches-Endures r t k e (inr (inl (j, f, fresh, w))) there =
    (e, rw (w, get-set j k f r) (ground (arith, eq_iff j k, ap (λ i. get i r))), Endures-refl e)
Touches-Endures r t k e (inr (inr (j, d, f, here, endures, w))) there = elim (Bool-cases (j == k)) [
  | inr other ↦ (e, rw (w, get-set j k f r, other) there, Endures-refl e)
  | inl same ↦
      let it : d ≡ e = unwrap (sym here ∙ ap (λ i. get i r) ((eq_iff j k).0 same) ∙ there) in
      (f, rw (w, get-set j k f r, same) refl, subst (λ x. Endures x f) it endures)
]

-- An endpoint that is registered stays registered, with its label, transport, risk, capabilities and
-- project, whatever registers, gives a sign of life or leaves later; and once it is offline it stays so.
pub run-Endures :
    (r : Registry) (cs : List (ℕ × Call)) (k : String) (e : AgentEndpoint)
    → get k r ≡ some e
    → (f : AgentEndpoint) × (get k (run r cs) ≡ some f) × Endures e f
unfolding run
run-Endures r [] k e there = (e, there, Endures-refl e)
run-Endures r (c ∷ cs) k e there =
    let (f, there', a) = Touches-Endures r (step r c) k e (step-Touches r c) there in
    let (g, there'', b) = run-Endures (step r c) cs k f there' in
    (g, there'', Endures-trans e f g a b)

-- Every action of an endpoint that is offline is refused after any history, as offline.
pub run_offline :
    (r : Registry) (cs : List (ℕ × Call)) (k : String) (e : AgentEndpoint) (action : EndpointAction)
    → get k r ≡ some e
    → stands offline e ≡ true
    → validate_action k action (run r cs) ≡ refused endpoint_offline
unfolding validate_action
run_offline r cs k e action there gone =
    let (f, there', endures) = run-Endures r cs k e there in
    let still : stands offline f ≡ true = ground (arith, endures.6) in
    rw (there', still, validate_action) refl
