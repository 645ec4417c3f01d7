-- ===== src/Proposals/Queries.antt =====
-- The queries of `InMemoryExecutionProposalStore`, and the hydration of one proposal.
use cli_bridge.Common.{
  Attempt, ℕ, ◌≤◌, ◌≡◌, refl, ap, Bool, true, false, not, ◌&&◌, ◌||◌, String, Option, none, some,
  List, [], ◌∷◌, arith, if◌then◌else◌, leb, ◌==◌, nat_eq, string_eq, Bool-cases, filter, head?, All,
  All-In, Option-cases, inl, inr, ◌≢◌, ◌∙◌, All-map, sym, values, sort_by, In, In-filter, filter-In,
  sort_by-In, sorted-In, is_empty,
}
use mathlib.Core.Path.{subst}
use cli_bridge.Proposals.Model.{
  ExecutionProposalStatus, returned, failed, cancelled, timed_out, ExecutionProposal,
  execution_proposal_status_eq,
}
use cli_bridge.Proposals.Store.{Store, save}

pub record Query : Type 0 where
  pub plan_id : Option String
  pub goal_id : Option String

abbrev pub asks : Option String → String → Bool
asks none id = true
asks (some wanted) id = id == wanted

abbrev pub created_at_of : ExecutionProposal → ℕ
created_at_of p = p.created_at

unfoldable pub list_proposals : Query → Store → List ExecutionProposal
list_proposals query s = sort_by created_at_of (
    filter (λ (p : ExecutionProposal). asks query.goal_id p.goal_id)
      (filter (λ (p : ExecutionProposal). asks query.plan_id p.plan_id) (values s.proposals)))

-- The stable sort that has the newest first.
unfoldable pub insert_newest : ExecutionProposal → List ExecutionProposal → List ExecutionProposal
insert_newest p [] = p ∷ []
insert_newest p (q ∷ qs) =
    let rest = insert_newest p qs in if leb q.created_at p.created_at then p ∷ q ∷ qs else q ∷ rest

unfoldable pub newest_first : List ExecutionProposal → List ExecutionProposal
unfolding insert_newest
newest_first [] = []
newest_first (p ∷ ps) = insert_newest p (newest_first ps)

abbrev pub is_ended : ExecutionProposalStatus → Bool
is_ended returned = true
is_ended failed = true
is_ended cancelled = true
is_ended timed_out = true
is_ended _ = false

abbrev pub is_current : ExecutionProposal → Bool
is_current p = not (is_ended p.status)

unfoldable pub get_current : Query → Store → Option ExecutionProposal
unfolding list_proposals newest_first
get_current query s = head? (newest_first (filter is_current (list_proposals query s)))

-- An answer of nothing is a proposal that was left out.
unfoldable pub hydrate_proposal :
    ExecutionProposal → Store → Option (Attempt ExecutionProposal) × Store
unfolding save
hydrate_proposal p s =
    if is_empty p.id || is_empty p.plan_id || is_empty p.goal_id
    then (none, s)
    else (let (answer, t) = save p s in (some answer, t))

newer : ExecutionProposal → Option ExecutionProposal → Option ExecutionProposal
newer p none = some p
newer p (some q) = if leb q.created_at p.created_at then some p else some q

latest : List ExecutionProposal → Option ExecutionProposal
unfolding newer
latest [] = none
latest (p ∷ ps) = newer p (latest ps)

head?-insert_newest :
    (p : ExecutionProposal) (qs : List ExecutionProposal)
    → head? (insert_newest p qs) ≡ newer p (head? qs)
unfolding insert_newest newer
head?-insert_newest p [] = refl
head?-insert_newest p (q ∷ qs) = ground arith

head?-newest_first : (ps : List ExecutionProposal) → head? (newest_first ps) ≡ latest ps
unfolding newest_first latest
head?-newest_first [] = refl
head?-newest_first (p ∷ ps) =
    head?-insert_newest p (newest_first ps) ∙ ap (newer p) (head?-newest_first ps)

latest-ne-none : (p : ExecutionProposal) (ps : List ExecutionProposal) → latest (p ∷ ps) ≢ none
unfolding latest newer
latest-ne-none p ps e = elim (Option-cases (latest ps)) [
  | inl h ↦ absurd (cc (rw (h, newer) at e))
  | inr (q, h) ↦ elim (Bool-cases (leb q.created_at p.created_at)) [
    | inl g ↦ absurd (cc (rw (h, newer, g) at e))
    | inr g ↦ absurd (cc (rw (h, newer, g) at e))
  ]
]

listed-ne-none : (q : ExecutionProposal) (ps : List ExecutionProposal) → In q ps → latest ps ≢ none
listed-ne-none q [] i = absurd i
listed-ne-none q (p ∷ ps) i = latest-ne-none p ps

abbrev IsLatest : ExecutionProposal → List ExecutionProposal → Type 0
IsLatest p ps = In p ps × All (λ (q : ExecutionProposal). q.created_at ≤ p.created_at) ps

latest-IsLatest :
    (p : ExecutionProposal) (ps : List ExecutionProposal) → latest ps ≡ some p → IsLatest p ps
unfolding latest newer
latest-IsLatest p [] e = absurd (cc)
latest-IsLatest p (q ∷ []) e =
    let same : q ≡ p = cc (e) in
    let time : q.created_at ≡ p.created_at = ap created_at_of same in (inl same, (omega arith, tt))
latest-IsLatest p (q ∷ r ∷ ps) e = elim (Option-cases (latest (r ∷ ps))) [
  | inl h ↦ absurd (latest-ne-none r ps h)
  | inr (t, h) ↦
      let ih = latest-IsLatest t (r ∷ ps) h in
      elim (Bool-cases (leb t.created_at q.created_at)) [
        | inl g ↦
            let newest : some q ≡ some p = rw (h, g, newer) at e in
            let same : q ≡ p = cc (newest) in
            let time : q.created_at ≡ p.created_at = ap created_at_of same in
            (inl same, (ground arith, All-map (λ x le. ground (arith, le)) (r ∷ ps) ih.1))
        | inr g ↦
            let newest : some t ≡ some p = rw (h, g, newer) at e in
            let same : t ≡ p = cc (newest) in
            let time : t.created_at ≡ p.created_at = ap created_at_of same in
            let moved : IsLatest p (r ∷ ps) = subst (λ x. IsLatest x (r ∷ ps)) same ih in
            (inr moved.0, (ground arith, moved.1))
      ]
]

-- A proposal that a query asks for and that has not ended.
unfoldable pub is_wanted : Query → ExecutionProposal → Bool
is_wanted query p = asks query.plan_id p.plan_id && asks query.goal_id p.goal_id && is_current p

abbrev pub IsCurrent : Query → Store → Option ExecutionProposal → Type 0
IsCurrent query s none =
    (q : ExecutionProposal) → In q (values s.proposals) → is_wanted query q ≡ false
IsCurrent query s (some p) =
    In p (values s.proposals)
    × (is_wanted query p ≡ true)
    × ((q : ExecutionProposal)
        → In q (values s.proposals)
        → is_wanted query q ≡ true
        → q.created_at ≤ p.created_at)

listed_current :
    (query : Query) (s : Store) (q : ExecutionProposal)
    → In q (values s.proposals)
    → is_wanted query q ≡ true
    → In q (filter is_current (list_proposals query s))
unfolding list_proposals is_wanted
listed_current query s q i w =
    let of_plan =
      filter-In (λ (p : ExecutionProposal). asks query.plan_id p.plan_id) q _ i (ground arith) in
    let of_goal =
      filter-In (λ (p : ExecutionProposal). asks query.goal_id p.goal_id) q _ of_plan
        (ground arith) in
    filter-In is_current q _ (sort_by-In created_at_of q _ of_goal) (ground arith)

current_listed :
    (query : Query) (s : Store) (q : ExecutionProposal)
    → In q (filter is_current (list_proposals query s))
    → In q (values s.proposals) × (is_wanted query q ≡ true)
unfolding list_proposals is_wanted
current_listed query s q i =
    let by_plan =
      filter (λ (p : ExecutionProposal). asks query.plan_id p.plan_id) (values s.proposals) in
    let by_goal = filter (λ (p : ExecutionProposal). asks query.goal_id p.goal_id) by_plan in
    let (listed, open_still) = In-filter is_current q _ i in
    let (goal_too, of_goal) =
      In-filter (λ (p : ExecutionProposal). asks query.goal_id p.goal_id) q by_plan
        (sorted-In created_at_of q by_goal listed) in
    let (there, of_plan) =
      In-filter (λ (p : ExecutionProposal). asks query.plan_id p.plan_id) q (values s.proposals)
        goal_too in
    (there, ground arith)

-- The current proposal for a plan or a goal is one that was asked for, that has not ended, and that none
-- such was created after; if there is none, no proposal that was asked for is still to end.
pub get_current-IsCurrent : (query : Query) (s : Store) → IsCurrent query s (get_current query s)
unfolding get_current
get_current-IsCurrent query s =
    let ps = filter is_current (list_proposals query s) in
    elim (Option-cases (get_current query s)) [
      | inl e ↦ rw e (λ q i. elim (Bool-cases (is_wanted query q)) [
        | inr w ↦ w
        | inl w ↦
            absurd
              (listed-ne-none q ps (listed_current query s q i w) (sym (head?-newest_first ps) ∙ e))
      ])
      | inr (p, e) ↦
          let (there, newest) = latest-IsLatest p ps (sym (head?-newest_first ps) ∙ e) in
          let (stored, wanted) = current_listed query s p there in
          rw e (stored, wanted, λ q i w. All-In _ ps newest (listed_current query s q i w))
    ]
