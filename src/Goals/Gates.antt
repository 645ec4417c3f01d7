-- ===== src/Goals/Gates.antt =====
-- No step that changes state gets past its gate unless the gate was approved.
use cli_bridge.Common.{
  ◌≡◌, refl, sym, ap, ◌∙◌, ◌⊎◌, inl, inr, Bool, true, false, String, Option, List, ◌∷◌, arith,
  nat_eq, string_eq, All, values, In,
}
use cli_bridge.Goals.Model.{
  StepStatus, PlanStep, Plan, goal_status_eq, plan_status_eq, step_status_eq, tier_eq,
  is_state_mutating_kind,
}
use cli_bridge.Goals.Store.{Store}
use cli_bridge.Goals.Steps.{start, block, pass_gate, complete, fail}

-- The statuses that lie behind the gate.
abbrev pub past_gate : StepStatus → Bool
past_gate StepStatus.gated_approved = true
past_gate StepStatus.running = true
past_gate StepStatus.done = true
past_gate _ = false

abbrev pub IsGated : List String → PlanStep → Type 0
IsGated passed s =
    (s.is_state_mutating ≡ is_state_mutating_kind s.kind)
    × (is_state_mutating_kind s.kind ≡ true → past_gate s.status ≡ true → In s.id passed)

abbrev pub PlanGated : List String → Plan → Type 0
PlanGated passed plan = All (IsGated passed) plan.steps

abbrev pub AllGated : List String → Store → Type 0
AllGated passed s = All (PlanGated passed) (values s.plans)

-- A mutation of a step that keeps what names it, and takes a step past its gate only when the step
-- was past it before or does not change state.
abbrev pub Follows : PlanStep → PlanStep → Type 0
Follows s t =
    (t.id ≡ s.id)
    × (t.kind ≡ s.kind)
    × (t.is_state_mutating ≡ s.is_state_mutating)
    × (past_gate t.status ≡ true → (past_gate s.status ≡ true) ⊎ (s.is_state_mutating ≡ false))

pub start-Follows : (s : PlanStep) → Follows s (start s)
unfolding start
start-Follows s = (ground arith, ground arith, ground arith, ground arith)

pub block-Follows : (s : PlanStep) → Follows s (block s)
unfolding block
block-Follows s = (ground arith, ground arith, ground arith, ground arith)

pub complete-Follows : (output : Option String) (s : PlanStep) → Follows s (complete output s)
unfolding complete
complete-Follows output s = (ground arith, ground arith, ground arith, ground arith)

pub fail-Follows : (reason : String) (s : PlanStep) → Follows s (fail reason s)
unfolding fail
fail-Follows reason s = (refl, refl, refl, ground arith)

pub Follows-IsGated :
    (passed : List String) (s t : PlanStep) → Follows s t → IsGated passed s → IsGated passed t
Follows-IsGated passed s t f h = (
  f.2 ∙ h.0 ∙ ap is_state_mutating_kind (sym f.1),
  λ k b.
      let k' : is_state_mutating_kind s.kind ≡ true = ap is_state_mutating_kind (sym f.1) ∙ k in
      elim (f.3 b) [
        | inl past ↦ rw f.0 (h.1 k' past)
        | inr plain ↦ absurd (ground (arith, h.0, k', plain))
      ],
)

pub IsGated-more :
    (id : String) (passed : List String) (s : PlanStep) → IsGated passed s → IsGated (id ∷ passed) s
IsGated-more id passed s h = (h.0, λ k b. inr (h.1 k b))

pub pass_gate-IsGated :
    (passed : List String) (s : PlanStep) (id : String)
    → s.id ≡ id
    → IsGated (id ∷ passed) s
    → IsGated (id ∷ passed) (pass_gate s)
unfolding pass_gate
pass_gate-IsGated passed s id e h =
    let same_id : id ≡ (pass_gate s).id = ground (arith, e) in
    (ground (arith, h.0), λ k b. inl same_id)
