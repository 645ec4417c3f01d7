-- ===== src/Execution/Writing.antt =====
-- What the writes of the dispatcher make of one proposal.
use cli_bridge.Common.{
  made, thrown, ℕ, ◌≡◌, refl, sym, ap, ◌∙◌, ◌⊎◌, inl, inr, String, some, List, [], ◌∷◌, ◌==◌,
  nat_eq, string_eq, Bool-cases, Option-cases, List-cases, get,
}
use cli_bridge.Proposals.Model.{
  confirmed, execution_proposal_status_eq, artifact_kind_eq, ExecutionProposal,
  validate_execution_proposal,
}
use cli_bridge.Proposals.Store.{Store, save, update}
use cli_bridge.Proposals.Operations.{mark_dispatching}
use cli_bridge.Goals.Model.{plan_status_eq}
use cli_bridge.Common.{unwrap, thrown-ne-made, set, Bool}
use cli_bridge.Proposals.Model.{dispatching, ExecutionProposalStatus}
use cli_bridge.Execution.Stepping.{Marked}

-- One proposal of the store, which stands under its identifier, becomes another.
abbrev pub Becomes : ExecutionProposal → ExecutionProposal → Store → Store → Type 0
Becomes p q s t =
    (get p.id s.proposals ≡ some p) × (t ≡ record s { proposals = set p.id q s.proposals })

abbrev pub Dispatched : ExecutionProposal → ℕ → Store → Store → Type 0
Dispatched p now s t =
    Becomes p (record p { status = dispatching; dispatching_at = some now; updated_at = now }) s t

-- An update throws and keeps the store, or writes what it makes of the proposal.
update-cases :
    (id : String) (allowed : ExecutionProposalStatus → Bool) (reason : String)
    (f : ExecutionProposal → ExecutionProposal) (s : Store)
    → ((es : List String) × (update id allowed reason f s ≡ (thrown es, s)))
      ⊎ ((p : ExecutionProposal) × (get id s.proposals ≡ some p)
          × (update id allowed reason f s
              ≡ (made (f p), record s { proposals = set (f p).id (f p) s.proposals })))
unfolding update save
update-cases id allowed reason f s = elim (Option-cases (get id s.proposals)) [
  | inl e ↦ inl ("proposal-not-found" ∷ [], rw (e, update) refl)
  | inr (p, e) ↦ elim (Bool-cases (allowed p.status)) [
    | inr a ↦ inl (reason ∷ [], rw (e, a, update) refl)
    | inl a ↦ elim (List-cases (validate_execution_proposal (f p))) [
      | inl v ↦ inr (p, e, rw (e, a, update, v, save) refl)
      | inr (x, xs, v) ↦ inl (x ∷ xs, rw (e, a, update, v, save) refl)
    ]
  ]
]

-- A write to a proposal that stands under its own identifier.
pub update_written :
    (allowed : ExecutionProposalStatus → Bool) (reason : String)
    (f : ExecutionProposal → ExecutionProposal) (p : ExecutionProposal) (s : Store)
    → get p.id s.proposals ≡ some p
    → (f p).id ≡ p.id
    → ((update p.id allowed reason f s).1 ≡ s)
      ⊎ Becomes p (f p) s (update p.id allowed reason f s).1
update_written allowed reason f p s there own = elim (update-cases p.id allowed reason f s) [
  | inl (es, e) ↦ inl (ap (λ x. x.1) e)
  | inr (q, found, e) ↦
      let same : q ≡ p = unwrap (sym found ∙ there) in
      inr (
        there,
        ap (λ x. x.1) e
            ∙ ap
                (λ (x : ExecutionProposal). record s { proposals = set (f x).id (f x) s.proposals })
                same
            ∙ ap (λ i. record s { proposals = set i (f p) s.proposals }) own,
      )
]

pub Marked-Dispatched :
    (p : ExecutionProposal) (now : ℕ) (s t : Store)
    → get p.id s.proposals ≡ some p
    → Marked p now s t
    → Dispatched p now s t
unfolding mark_dispatching
Marked-Dispatched p now s t there (q, marked) =
    elim (update-cases p.id (λ status. status == confirmed) "proposal-not-confirmed"
      (λ x. record x { status = dispatching; dispatching_at = some now; updated_at = now }) s) [
        | inl (es, e) ↦ absurd (thrown-ne-made es q (ap (λ x. x.0) (sym e ∙ marked)))
        | inr (r, found, e) ↦
            let same : r ≡ p = unwrap (sym found ∙ there) in
            (
              there,
              ap (λ x. x.1) (sym marked ∙ e)
                  ∙ ap
                      (λ (x : ExecutionProposal). record s {
                        proposals =
                            set x.id
                              (record x {
                                status = dispatching;
                                dispatching_at = some now;
                                updated_at = now;
                              })
                              s.proposals;
                      })
                      same,
            )
      ]
