-- ===== src/Proposals/Drafting.antt =====
-- What a proposal was checked for when it was drafted.
use cli_bridge.Common.{
  made, thrown, ℕ, suc, ◌≡◌, refl, inl, inr, Bool, true, false, ◌&&◌, String, none, some, List, [],
  ◌∷◌, ◌++◌, arith, eq_iff, ◌==◌, nat_eq, string_eq, Option-cases, find, head?, get, get-set_self,
}
use cli_bridge.Proposals.Model.{
  draft, execution_proposal_status_eq, execution_proposal, artifact_kind_eq, ExecutionProposal,
  validate_execution_proposal, tier_text,
}
use cli_bridge.Proposals.Store.{
  Store, save, CreateInput, create_draft, draft_error, new_proposal, keep, step_errors,
  command_errors, unless,
}
use cli_bridge.Goals.Model.{PlanStep}
use cli_bridge.Goals.Steps.{has_id}
use cli_bridge.Proposals.Commands.{forbidden_arg}
use cli_bridge.Proposals.Harmless.{IsHarmless, forbidden_arg-IsHarmless}

head?-none : (xs : List String) → head? xs ≡ none → xs ≡ []
head?-none [] e = refl
head?-none (x ∷ xs) e = absurd (ground arith)

append-nil : (xs ys : List String) → xs ++ ys ≡ [] → (xs ≡ []) × (ys ≡ [])
append-nil [] ys e = (refl, e)
append-nil (x ∷ xs) ys e = absurd (ground arith)

all_met :
    (a b c d e : Bool) (ra rb rc rd re : String)
    → unless a ra ++ unless b rb ++ unless c rc ++ unless d rd ++ unless e re ≡ []
    → (a ≡ true) × (b ≡ true) × (c ≡ true) × (d ≡ true) × (e ≡ true)
all_met true true true true true ra rb rc rd re h = (refl, refl, refl, refl, refl)
all_met false b c d e ra rb rc rd re h = absurd (ground arith)
all_met true false c d e ra rb rc rd re h = absurd (ground arith)
all_met true true false d e ra rb rc rd re h = absurd (ground arith)
all_met true true true false e ra rb rc rd re h = absurd (ground arith)
all_met true true true true false ra rb rc rd re h = absurd (ground arith)

-- The step that a draft is for, and what the draft takes from it.
abbrev pub Matches : CreateInput → PlanStep → Type 0
Matches input step =
    (find (has_id input.step_id) input.plan.steps ≡ some step)
    × (input.artifact.kind ≡ execution_proposal)
    × (input.artifact.plan_id ≡ input.plan.id)
    × (input.artifact.goal_id ≡ input.plan.goal_id)
    × (input.binding.plan_id ≡ input.plan.id)
    × (input.binding.goal_id ≡ input.plan.goal_id)
    × (step.target_endpoint_id ≡ input.binding.execution_endpoint_id)
    × (tier_text step.tier ≡ input.binding.execution_permission_profile)

step_errors-Matches :
    (input : CreateInput) (step : PlanStep)
    → find (has_id input.step_id) input.plan.steps ≡ some step
    → step_errors input (some step) ≡ []
    → Matches input step
unfolding step_errors
step_errors-Matches input step f e =
    let (kind, artifact, binding, endpoint, tier) =
      all_met (input.artifact.kind == execution_proposal)
        (input.artifact.plan_id == input.plan.id && input.artifact.goal_id == input.plan.goal_id)
        (input.binding.plan_id == input.plan.id && input.binding.goal_id == input.plan.goal_id)
        (step.target_endpoint_id == input.binding.execution_endpoint_id)
        (tier_text step.tier == input.binding.execution_permission_profile) _ _ _ _ _ e in
    (
      f,
      ground (arith, kind),
      ground (arith, artifact, eq_iff input.artifact.plan_id input.plan.id),
      ground (arith, artifact, eq_iff input.artifact.goal_id input.plan.goal_id),
      ground (arith, binding, eq_iff input.binding.plan_id input.plan.id),
      ground (arith, binding, eq_iff input.binding.goal_id input.plan.goal_id),
      ground (arith, endpoint, eq_iff step.target_endpoint_id input.binding.execution_endpoint_id),
      ground (arith, tier, eq_iff (tier_text step.tier) input.binding.execution_permission_profile),
    )

command_errors-none : (args : List String) → command_errors args ≡ [] → forbidden_arg args ≡ none
unfolding command_errors
command_errors-none args e = elim (Option-cases (forbidden_arg args)) [
  | inl n ↦ n
  | inr (pattern, n) ↦ absurd (let e' = rw (n, command_errors) at e in ground (arith, e'))
]

draft_error-Matches :
    (input : CreateInput)
    → draft_error input ≡ none
    → (forbidden_arg input.args ≡ none) × ((step : PlanStep) × Matches input step)
unfolding draft_error
draft_error-Matches input e =
    let (c, s) = append-nil _ _ (head?-none _ e) in
    (
      command_errors-none input.args c,
      elim (Option-cases (find (has_id input.step_id) input.plan.steps)) [
        | inl n ↦ absurd (let s' = rw (n, step_errors) at s in ground (arith, s'))
        | inr (step, n) ↦ (step, step_errors-Matches input step n (rw n at s))
      ],
    )

save-made :
    (p q : ExecutionProposal) (s : Store)
    → (save p s).0 ≡ made q
    → (q ≡ p) × (get p.id (save p s).1.proposals ≡ some p)
unfolding save
save-made p q s = kept (validate_execution_proposal p)
  where
    kept :
        (errors : List String)
        → (keep p s errors).0 ≡ made q
        → (q ≡ p) × (get p.id (keep p s errors).1.proposals ≡ some p)
    kept [] e = (ground (arith, e), get-set_self p.id p s.proposals)
    kept (x ∷ xs) e = absurd (ground (arith, e))

-- What a draft that was made is known to be.
abbrev pub Drafted : CreateInput → Store → ExecutionProposal → Type 0
Drafted input t p =
    (get p.id t.proposals ≡ some p)
    × (p.status ≡ draft)
    × (p.confirmed_at ≡ none)
    × (p.args ≡ input.args)
    × (p.binding_hash ≡ input.binding.binding_hash)
    × IsHarmless p.args
    × ((step : PlanStep) × Matches input step)

-- A draft that was made is stored, unconfirmed, with the arguments and the binding that were asked for;
-- no argument holds, with letters in whatever case, one of the five patterns that take the safeguards off
-- the agents; and the plan has the step, whose endpoint and tier are those of
-- the binding, while artifact and binding belong to that plan and its goal.
pub create_draft-Drafted :
    (input : CreateInput) (now : ℕ) (s : Store) (p : ExecutionProposal)
    → (create_draft input now s).0 ≡ made p
    → Drafted input (create_draft input now s).1 p
unfolding create_draft new_proposal
create_draft-Drafted input now s p e = elim (Option-cases (draft_error input)) [
  | inr (reason, d) ↦ absurd (
      let clash : thrown (reason ∷ []) ≡ made p = rw (d, create_draft) at e in
      ground (arith, clash))
  | inl d ↦
      let q : ExecutionProposal = new_proposal input (s.uuid s.drawn) now s.platform in
      let s' : Store = record s { drawn = suc s.drawn } in
      let e' : (save q s').0 ≡ made p = rw (d, create_draft) at e in
      let (eq, there) = save-made q p s' e' in
      let (safe, matched) = draft_error-Matches input d in
      rw (d, create_draft, eq)
        (there, refl, refl, refl, refl, forbidden_arg-IsHarmless input.args safe, matched)
]
