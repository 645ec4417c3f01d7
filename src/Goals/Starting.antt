-- ===== src/Goals/Starting.antt =====
-- The store that a result of `advance` stands for, and the steps that may start or wait for a gate.
use cli_bridge.Common.{
  ℕ, ◌≡◌, refl, sym, ap, ◌∙◌, ◌⊎◌, inl, inr, Bool, true, false, String, none, some, List, [], ◌∷◌,
  ◌++◌, ◌&&◌, ◌==◌, nat_eq, string_eq, or_else, Bool-cases, unwrap, find, In, All, truthy,
}
use cli_bridge.Goals.Model.{
  StepStatus, PlanStep, Plan, goal_status_eq, plan_status_eq, step_status_eq, tier_eq,
}
use cli_bridge.Goals.Store.{Store, get_plan_by_goal}
use cli_bridge.Goals.Steps.{is_ready, is_refused, start, block}
use cli_bridge.Goals.Orchestrator.{
  AdvanceStepOptions, AdvanceResult, step_completed, step_gated, step_failed, is_failed,
}
use cli_bridge.Goals.Changing.{Changes}

-- A step that may start: pending with nothing to gate, or past its gate.
abbrev pub MayStart : PlanStep → Type 0
MayStart x =
    ((x.status ≡ StepStatus.pending) × (x.is_state_mutating ≡ false))
    ⊎ (x.status ≡ StepStatus.gated_approved)

-- The plan of the goal has had a step that failed.
abbrev pub HasFailed : String → Store → AdvanceResult → Type 0
HasFailed goal_id s result =
    (plan : Plan) × (x : PlanStep) × (get_plan_by_goal goal_id s ≡ some plan)
    × In x plan.steps
    × (x.status ≡ StepStatus.failed)
    × (result ≡ step_failed x.id x.kind x.index (or_else x.failure_reason "unknown"))

-- The store after an advance with the given result.
abbrev pub Effect : String → AdvanceStepOptions → (ℕ → ℕ) → Store → AdvanceResult → Store → Type 0
Effect goal_id options clock s (step_completed id kind index output) t =
    (x : PlanStep) × MayStart x
    × (truthy options.simulate_failure ≡ none)
    × (output ≡ options.output)
    × Changes goal_id id x (record x { status = StepStatus.done; output = output }) (clock 1) s t
Effect goal_id options clock s (step_gated id kind index) t =
    (x : PlanStep) × (x.kind ≡ kind)
    × (x.index ≡ index)
    × (x.status ≡ StepStatus.pending)
    × (x.is_state_mutating ≡ true)
    × Changes goal_id id x (record x { status = StepStatus.blocked_needs_gate }) (clock 0) s t
Effect goal_id options clock s (step_failed id kind index reason) t =
    ((x : PlanStep) × MayStart x
      × (truthy options.simulate_failure ≡ some reason)
      × Changes goal_id id x (record x { status = StepStatus.failed; failure_reason = some reason })
          (clock 1) s t)
    ⊎ ((t ≡ s) × HasFailed goal_id s (step_failed id kind index reason))
Effect goal_id options clock s _ t = t ≡ s

pub status_of :
    (x : PlanStep) (status : StepStatus) → (x.status == status) ≡ true → x.status ≡ status
status_of x status h = (step_status_eq.same_iff x.status status).0 h

-- A mutation that does nothing to a step that has not failed is refused.
still_refused :
    (x y : PlanStep) → is_failed x ≡ false → y ≡ x → is_refused x y ≡ false → true ≡ false
still_refused x y n same m =
    let refused : is_refused x x ≡ true =
      rw ((step_status_eq.same_iff x.status x.status).1 refl, n) refl in
    sym refused ∙ ap (is_refused x) (sym same) ∙ m

pub start_cases :
    (x : PlanStep)
    → is_failed x ≡ false
    → is_refused x (start x) ≡ false
    → MayStart x × (start x ≡ record x { status = StepStatus.running })
unfolding start
start_cases x n m = elim (Bool-cases (x.status == StepStatus.pending && x.is_state_mutating)) [
  | inl h ↦ absurd (let clash = still_refused x (start x) n (rw (h, start) refl) m in cc (clash))
  | inr h ↦ elim (Bool-cases (is_ready x)) [
    | inr r ↦
        absurd (let clash = still_refused x (start x) n (rw (h, r, start) refl) m in cc (clash))
    | inl r ↦ (
      elim (Bool-cases (x.status == StepStatus.pending)) [
        | inl p ↦ inl (status_of x StepStatus.pending p, rw p at h)
        | inr p ↦ inr (status_of x StepStatus.gated_approved (rw p at r))
      ],
      rw (h, r, start) refl,
    )
  ]
]

pub block_cases :
    (x : PlanStep)
    → is_failed x ≡ false
    → is_refused x (block x) ≡ false
    → (x.status ≡ StepStatus.pending)
      × (x.is_state_mutating ≡ true)
      × (block x ≡ record x { status = StepStatus.blocked_needs_gate })
unfolding block
block_cases x n m = elim (Bool-cases (x.status == StepStatus.pending)) [
  | inr p ↦ absurd (let clash = still_refused x (block x) n (rw (p, block) refl) m in cc (clash))
  | inl p ↦ elim (Bool-cases x.is_state_mutating) [
    | inr g ↦
        absurd (let clash = still_refused x (block x) n (rw (p, g, block) refl) m in cc (clash))
    | inl g ↦ (status_of x StepStatus.pending p, g, rw (p, g, block) refl)
  ]
]

pub find-none-some :
    (p q : PlanStep → Bool) (xs : List PlanStep) (x : PlanStep)
    → find p xs ≡ none
    → find q xs ≡ some x
    → p x ≡ false
find-none-some p q [] x n e = absurd (cc (e))
find-none-some p q (y ∷ ys) x n e = elim (Bool-cases (p y)) [
  | inl h ↦ absurd (let clash : some y ≡ none = rw h at n in cc (clash))
  | inr h ↦ elim (Bool-cases (q y)) [
    | inl g ↦ ap p (sym (unwrap (rw g at e))) ∙ h
    | inr g ↦ find-none-some p q ys x (rw h at n) (rw g at e)
  ]
]

pub find-In :
    (p : PlanStep → Bool) (xs : List PlanStep) (x : PlanStep)
    → find p xs ≡ some x
    → In x xs × (p x ≡ true)
find-In p [] x e = absurd (cc (e))
find-In p (y ∷ ys) x e = elim (Bool-cases (p y)) [
  | inl h ↦ let same : y ≡ x = unwrap (rw h at e) in (inl same, ap p (sym same) ∙ h)
  | inr h ↦ let rest = find-In p ys x (rw h at e) in (inr rest.0, rest.1)
]

pub All-middle :
    (P : PlanStep → Type 0) (front : List PlanStep) (y : PlanStep) (back : List PlanStep)
    → All P (front ++ y ∷ back)
    → P y
All-middle P [] y back h = h.0
All-middle P (x ∷ xs) y back h = All-middle P xs y back h.1
