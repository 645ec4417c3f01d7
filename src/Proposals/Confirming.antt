-- ===== src/Proposals/Confirming.antt =====
-- What a confirmation grants, and which proposals need one.
use cli_bridge.Common.{
  eq_iff, ℕ, ◌≤◌, ◌≡◌, sym, ◌∙◌, inl, inr, Bool, true, ◌||◌, String, none, List, [], ◌∷◌, arith,
  ◌==◌, nat_eq, string_eq, Bool-cases, Option-cases, is_some, All, All-map, get, values,
  All-values-set, get-All, IsKeyed, set-IsKeyed, In,
}
use cli_bridge.Proposals.Model.{
  ExecutionProposalStatus, confirmed, dispatching, execution_proposal_status_eq, artifact_kind_eq,
  ExecutionProposal, validate_execution_proposal,
}
use cli_bridge.Proposals.Store.{Store, save, update, keep}
use cli_bridge.Proposals.Operations.{ConfirmInput, mismatch}

abbrev pub proposal_id : ExecutionProposal → String
proposal_id p = p.id

-- A confirmation that names what the proposal is about, each by itself.
abbrev pub Names : ConfirmInput → ExecutionProposal → Type 0
Names input p =
    (input.plan_id ≡ p.plan_id)
    × (input.step_id ≡ p.step_id)
    × (input.artifact_id ≡ p.artifact_id)
    × (input.content_hash ≡ p.content_hash)
    × (input.binding_hash ≡ p.binding_hash)
    × (input.execution_endpoint_id ≡ p.execution_endpoint_id)
    × (input.execution_permission_profile ≡ p.execution_permission_profile)
    × (input.project_id ≡ p.project_id)

mismatch-Names :
    (input : ConfirmInput) (p : ExecutionProposal) → mismatch input p ≡ none → Names input p
unfolding mismatch
mismatch-Names input p e = ground (
  arith,
  e,
  eq_iff input.plan_id p.plan_id,
  eq_iff input.step_id p.step_id,
  eq_iff input.artifact_id p.artifact_id,
  eq_iff input.content_hash p.content_hash,
  eq_iff input.binding_hash p.binding_hash,
  eq_iff input.execution_endpoint_id p.execution_endpoint_id,
  eq_iff input.execution_permission_profile p.execution_permission_profile,
  eq_iff input.project_id p.project_id,
)

-- A confirmation of just this proposal, at a time when it had not expired, is among the given ones.
abbrev pub Granted : List (ℕ × ConfirmInput) → ExecutionProposal → Type 0
Granted gs p =
    (now : ℕ) × (input : ConfirmInput) × In (now, input) gs
    × (input.proposal_id ≡ p.id)
    × Names input p
    × (now ≤ p.expires_at)

-- The same, by the test that the store makes.
abbrev pub Passed : List (ℕ × ConfirmInput) → ExecutionProposal → Type 0
Passed gs p =
    (now : ℕ) × (input : ConfirmInput) × In (now, input) gs
    × (input.proposal_id ≡ p.id)
    × (mismatch input p ≡ none)
    × (now ≤ p.expires_at)

pub Passed-Granted :
    (gs : List (ℕ × ConfirmInput)) (p : ExecutionProposal) → Passed gs p → Granted gs p
Passed-Granted gs p (now, input, i, id, m, e) = (now, input, i, id, mismatch-Names input p m, e)

abbrev pub needs_consent : ExecutionProposal → Bool
needs_consent p = is_some p.confirmed_at || p.status == confirmed || p.status == dispatching

abbrev pub Backed : List (ℕ × ConfirmInput) → ExecutionProposal → Type 0
Backed gs p = needs_consent p ≡ true → Passed gs p

-- What a confirmation is about.
abbrev pub Terms : ExecutionProposal → ExecutionProposal → Type 0
Terms p q =
    (q.id ≡ p.id)
    × (q.expires_at ≡ p.expires_at)
    × ((input : ConfirmInput) → mismatch input q ≡ mismatch input p)

pub Terms-Passed :
    (gs : List (ℕ × ConfirmInput)) (p q : ExecutionProposal) → Terms p q → Passed gs p → Passed gs q
Terms-Passed gs p q t (now, input, i, id, m, e) =
    (now, input, i, id ∙ sym t.0, t.2 input ∙ m, omega (arith, t.1))

-- A write that keeps the terms, and needs consent only if there was need before.
abbrev pub Follows : ExecutionProposal → ExecutionProposal → Type 0
Follows p q = Terms p q × (needs_consent q ≡ true → needs_consent p ≡ true)

pub Follows-Backed :
    (gs : List (ℕ × ConfirmInput)) (p q : ExecutionProposal)
    → Follows p q
    → Backed gs p
    → Backed gs q
Follows-Backed gs p q f b n = Terms-Passed gs p q f.0 (b (f.1 n))

-- Each proposal is stored under its own identifier, and backed.
abbrev pub Sound : List (ℕ × ConfirmInput) → Store → Type 0
Sound gs s = IsKeyed proposal_id s.proposals × All (Backed gs) (values s.proposals)

pub Sound-more :
    (g : ℕ × ConfirmInput) (gs : List (ℕ × ConfirmInput)) (s : Store)
    → Sound gs s
    → Sound (g ∷ gs) s
Sound-more g gs s h = (
  h.0,
  All-map {P = Backed gs} {Q = Backed (g ∷ gs)}
      (λ (p : ExecutionProposal) b n.
        let (now, input, i, id, m, e) = b n in (now, input, inr i, id, m, e))
      (values s.proposals) h.1,
)

pub save-Sound :
    (gs : List (ℕ × ConfirmInput)) (p : ExecutionProposal) (s : Store)
    → Sound gs s
    → Backed gs p
    → Sound gs (save p s).1
unfolding save
save-Sound gs p s h b = kept (validate_execution_proposal p)
  where
    kept : (errors : List String) → Sound gs (keep p s errors).1
    kept [] = (
      set-IsKeyed proposal_id p s.proposals h.0,
      All-values-set (Backed gs) p.id p s.proposals h.1 b,
    )
    kept (e ∷ es) = h

pub update-Sound :
    (gs : List (ℕ × ConfirmInput)) (id : String) (allowed : ExecutionProposalStatus → Bool)
    (reason : String) (f : ExecutionProposal → ExecutionProposal) (s : Store)
    → ((p : ExecutionProposal) → allowed p.status ≡ true → Follows p (f p))
    → Sound gs s
    → Sound gs (update id allowed reason f s).1
unfolding update
update-Sound gs id allowed reason f s k h = elim (Option-cases (get id s.proposals)) [
  | inl e ↦ rw (e, update) h
  | inr (p, e) ↦ elim (Bool-cases (allowed p.status)) [
    | inr a ↦ rw (e, a, update) h
    | inl a ↦
        rw (e, a, update)
          (save-Sound gs (f p) s h
            (Follows-Backed gs p (f p) (k p a) (get-All (Backed gs) id p s.proposals h.1 e)))
  ]
]
