-- ===== src/Plans/Safety.antt =====
-- What every plan has that the parser lets through.
use cli_bridge.Common.{
  Attempt, made, Attempt-cases, ℕ, suc, ◌≡◌, refl, sym, ap, ◌∙◌, inl, inr, Bool, true, false, not,
  ◌&&◌, String, List, [], ◌∷◌, arith, ◌==◌, nat_eq, string_eq, Bool-cases, Option-cases, length,
  All,
}
use cli_bridge.Goals.Model.{workspace_write, StepStatus, PlanStep, tier_eq, is_state_mutating_kind}
use cli_bridge.Plans.Model.{
  TierEnforcementMode, strict, downgrade, PlanTierDowngrade, Platform, RawStep, is_mutating,
  kind_of, tier_of,
}
use cli_bridge.Plans.Tiers.{set_tier, coherent_step, Corrected, permitted_step, each_step}
use cli_bridge.Plans.Parser.{typed_step, typed_steps}
use cli_bridge.Common.{made_value, thrown-ne-made}
use cli_bridge.Plans.Texts.{kind_of_mutates, tier_of_writes}

-- A step writes to the workspace just where its kind changes state.
abbrev pub Coherent : RawStep → Type 0
Coherent s = is_mutating s.kind ≡ (s.tier == "workspace-write")

abbrev pub Of : String → RawStep → Type 0
Of plan_id s = s.plan_id ≡ plan_id

abbrev Allowed : Bool → RawStep → Type 0
Allowed permitted s = (s.tier == "workspace-write") && not permitted ≡ false

pub coherent_step-Coherent :
    (env : Platform) (mode : TierEnforcementMode) (i : ℕ) (plan_id : String) (s : RawStep)
    (c : Corrected)
    → Of plan_id s
    → coherent_step env mode i s ≡ made c
    → Of plan_id c.0 × Coherent c.0
unfolding coherent_step
coherent_step-Coherent env mode i plan_id s c own e = elim (Bool-cases (is_mutating s.kind)) [
  | inl m ↦ elim (Bool-cases (s.tier == "workspace-write")) [
    | inl w ↦
        let same : (s, []) ≡ c = made_value (rw (m, w, coherent_step) at e) in
        rw (← same) (own, m ∙ sym w)
    | inr w ↦ raised mode e m w
  ]
  | inr m ↦ elim (Bool-cases (s.tier == "workspace-write")) [
    | inl w ↦ dropped mode e m w
    | inr w ↦
        let same : (s, []) ≡ c = made_value (rw (m, w, coherent_step) at e) in
        rw (← same) (own, m ∙ sym w)
  ]
]
  where
    raised :
        (mode' : TierEnforcementMode)
        → coherent_step env mode' i s ≡ made c
        → is_mutating s.kind ≡ true
        → (s.tier == "workspace-write") ≡ false
        → Of plan_id c.0 × Coherent c.0
    raised strict f m w = absurd (thrown-ne-made _ c (rw (m, w, coherent_step) at f))
    raised downgrade f m w =
        let same : set_tier "workspace-write" s ≡ c.0 =
          ap (λ x. x.0) (made_value (rw (m, w, coherent_step) at f)) in
        rw (← same) (own, m)

    dropped :
        (mode' : TierEnforcementMode)
        → coherent_step env mode' i s ≡ made c
        → is_mutating s.kind ≡ false
        → (s.tier == "workspace-write") ≡ true
        → Of plan_id c.0 × Coherent c.0
    dropped strict f m w = absurd (thrown-ne-made _ c (rw (m, w, coherent_step) at f))
    dropped downgrade f m w =
        let same : set_tier "patch-proposal" s ≡ c.0 =
          ap (λ x. x.0) (made_value (rw (m, w, coherent_step) at f)) in
        rw (← same) (own, m)

-- After the first rules the permission never lowers a tier: it lets a step pass as it is, or ends.
pub permitted_step-Allowed :
    (env : Platform) (mode : TierEnforcementMode) (permitted : Bool) (i : ℕ) (s : RawStep)
    (c : Corrected)
    → Coherent s
    → permitted_step env mode permitted i s ≡ made c
    → (c ≡ (s, [])) × Allowed permitted s
unfolding permitted_step
permitted_step-Allowed env mode permitted i s c k e =
    elim (Bool-cases (s.tier == "workspace-write" && not permitted)) [
      | inr w ↦ (sym (made_value (rw (w, permitted_step) at e)), w)
      | inl w ↦ absurd (never mode e w (k ∙ ground (arith, w)))
    ]
  where
    never :
        (mode' : TierEnforcementMode)
        → permitted_step env mode' permitted i s ≡ made c
        → (s.tier == "workspace-write" && not permitted) ≡ true
        → is_mutating s.kind ≡ true
        → ⊥
    never strict f w m = thrown-ne-made _ c (rw (w, permitted_step) at f)
    never downgrade f w m = thrown-ne-made _ c (rw (w, m, permitted_step) at f)

-- A loop over the steps keeps what each round keeps.
pub each_step-All :
    (P Q : RawStep → Type 0) (f : ℕ → RawStep → Attempt Corrected) (i : ℕ) (ss ts : List RawStep)
    (ds : List PlanTierDowngrade)
    → ((n : ℕ) (s : RawStep) (c : Corrected) → P s → f n s ≡ made c → Q c.0)
    → All P ss
    → each_step f i ss ≡ made (ts, ds)
    → All Q ts × (length ts ≡ length ss)
unfolding each_step
each_step-All P Q f i [] ts ds h p e =
    let same : [] ≡ ts = ap (λ x. x.0) (made_value e) in rw (← same) (tt, refl)
each_step-All P Q f i (s ∷ ss) ts ds h p e = elim (Attempt-cases (f i s)) [
  | inl (es, g) ↦ absurd (thrown-ne-made es (ts, ds) (rw (g, each_step) at e))
  | inr (c, g) ↦ elim (Attempt-cases (each_step f (suc i) ss)) [
    | inl (es, k) ↦ absurd (thrown-ne-made es (ts, ds) (rw (g, k, each_step) at e))
    | inr ((rest, rest_ds), k) ↦
        let same : c.0 ∷ rest ≡ ts = ap (λ x. x.0) (made_value (rw (g, k, each_step) at e)) in
        let ih = each_step-All P Q f (suc i) ss rest rest_ds h p.1 k in
        rw (← same) ((h i s c p.0 g, ih.0), ap suc ih.1)
  ]
]

abbrev pub AllowedStep : Bool → String → RawStep → Type 0
AllowedStep permitted plan_id s = Of plan_id s × Coherent s × Allowed permitted s

abbrev pub SafeStep : Bool → String → PlanStep → Type 0
SafeStep permitted plan_id p =
    (p.plan_id ≡ plan_id)
    × (p.status ≡ StepStatus.pending)
    × (is_state_mutating_kind p.kind ≡ (p.tier == workspace_write))
    × ((p.tier == workspace_write) && not permitted ≡ false)

typed_step-SafeStep :
    (env : Platform) (permitted : Bool) (plan_id : String) (i : ℕ) (s : RawStep) (p : PlanStep)
    → AllowedStep permitted plan_id s
    → typed_step env i s ≡ made p
    → SafeStep permitted plan_id p
unfolding typed_step
typed_step-SafeStep env permitted plan_id i s p (own, coherent, allowed) e =
    elim (Option-cases (kind_of s.kind)) [
      | inl f ↦ absurd (thrown-ne-made _ p (rw (f, typed_step) at e))
      | inr (kind, f) ↦ elim (Option-cases (tier_of s.tier)) [
        | inl g ↦ absurd (thrown-ne-made _ p (rw (f, g, typed_step) at e))
        | inr (tier, g) ↦
            let same = made_value (rw (f, g, typed_step) at e) in
            let writes = tier_of_writes s.tier tier g in
            rw (← same) (
              own,
              refl,
              kind_of_mutates s.kind kind f ∙ coherent ∙ sym writes,
              ap (λ b. b && not permitted) writes ∙ allowed,
            )
      ]
    ]

pub typed_steps-SafeStep :
    (env : Platform) (permitted : Bool) (plan_id : String) (i : ℕ) (ss : List RawStep)
    (ps : List PlanStep)
    → All (AllowedStep permitted plan_id) ss
    → typed_steps env i ss ≡ made ps
    → All (SafeStep permitted plan_id) ps × (length ps ≡ length ss)
unfolding typed_steps
typed_steps-SafeStep env permitted plan_id i [] ps h e =
    let same : [] ≡ ps = made_value e in rw (← same) (tt, refl)
typed_steps-SafeStep env permitted plan_id i (s ∷ ss) ps h e =
    elim (Attempt-cases (typed_step env i s)) [
      | inl (es, f) ↦ elim (Attempt-cases (typed_steps env (suc i) ss)) [
        | inl (es', g) ↦ absurd (thrown-ne-made _ ps (rw (f, g, typed_steps) at e))
        | inr (rest, g) ↦ absurd (thrown-ne-made _ ps (rw (f, g, typed_steps) at e))
      ]
      | inr (p, f) ↦ elim (Attempt-cases (typed_steps env (suc i) ss)) [
        | inl (es, g) ↦ absurd (thrown-ne-made es ps (rw (f, g, typed_steps) at e))
        | inr (rest, g) ↦
            let same : p ∷ rest ≡ ps = made_value (rw (f, g, typed_steps) at e) in
            let ih = typed_steps-SafeStep env permitted plan_id (suc i) ss rest h.1 g in
            rw (← same) ((typed_step-SafeStep env permitted plan_id i s p h.0 f, ih.0), ap suc ih.1)
      ]
    ]
