-- ===== src/Relay/Opening.antt =====
-- The part of `advance` that may open the next round: storage/web-relay-loop-store.ts.
use mathlib.Core.Path.{subst}
use cli_bridge.Common.{
  true, ◌==◌, ◌⊎◌, ◌↔◌, ◌≤◌, ◌+◌, ◌++◌, [], ◌∷◌, Option, Bool-cases, eq_iff, unwrap, truthy,
  Option-cases, inl, inr,
}
use cli_bridge.Relay.Advance.{same_hash, made_progress}
use cli_bridge.Common.{
  Attempt, made, thrown, Attempt-cases, ℕ, suc, ◌<◌, ◌≡◌, refl, sym, ap, ◌∙◌, inl, inr, false,
  String, none, some, arith, leb, nat_eq, string_eq, Bool-cases, unwrap, or_else, includes, get,
  get-set_self, is_blank,
}
use cli_bridge.Outbound.Prompts.{OutboundStatus, OutboundPrompt}
use cli_bridge.Outbound.Store.{create as create_outbound}
use cli_bridge.Services.Packets.{create_content_hash}
use cli_bridge.Relay.Model.{running, web_relay_loop_status_eq, WebRelayLoop, append_evidence}
use cli_bridge.Outbound.Reports.{get_prompt}
use cli_bridge.Relay.Store.{Store, Answer, first_prompt, open_round, current_outbound}
use cli_bridge.Relay.Advance.{
  AdvanceInput, fail, finish, observe, timed_out, next_round, go_on, made_progress, same_hash,
}

-- The prompt was not submitted, or no longer ago than a round may last; a time of 0 counts as none.
abbrev pub InTime : ℕ → Option ℕ → ℕ → Type 0
InTime now submitted timeout =
    (submitted ≡ none) ⊎ ((at : ℕ) × (submitted ≡ some at) × ((at ≡ 0) ⊎ (now ≤ at + timeout)))

-- How many contents have brought no progress in a row, once this one is counted: progress is a hash
-- other than the last.
abbrev pub Counts : String → WebRelayLoop → ℕ → Type 0
Counts hash loop n =
    ((loop.last_progress_hash ≡ some hash) × (n ≡ suc loop.no_progress_count))
    ⊎ ((¬ (loop.last_progress_hash ≡ some hash)) × (n ≡ 0))

abbrev pub content_hash : AdvanceInput → Store → String
content_hash input s = create_content_hash s.outbound.services.env input.inbound_content

-- What a loop, its current prompt and the content that came back must satisfy.
abbrev pub MayContinue : AdvanceInput → String → ℕ → WebRelayLoop → OutboundPrompt → Type 0
MayContinue input hash now loop p =
    (loop.status ≡ running)
    × (now < loop.total_deadline_at)
    × (p.status ≡ OutboundStatus.returned)
    × InTime now p.submitted_at loop.per_round_timeout_ms
    × (includes hash loop.seen_content_hashes ≡ false)
    × (loop.round < loop.max_rounds)
    × (is_blank (or_else input.next_prompt "") ≡ false)

-- The prompt that the loop names as its current one stands in the outbound store.
abbrev pub Awaits : WebRelayLoop → Store → OutboundPrompt → Type 0
Awaits loop s p =
    (id : String) × (truthy loop.current_outbound_prompt_id ≡ some id)
    × (get id s.outbound.prompts ≡ some p)

current_outbound-Awaits :
    (loop : WebRelayLoop) (s : Store) (p : OutboundPrompt)
    → current_outbound loop s ≡ some p
    → Awaits loop s p
unfolding current_outbound get_prompt
current_outbound-Awaits loop s p e = elim (Option-cases (truthy loop.current_outbound_prompt_id)) [
  | inl n ↦
      absurd (let clash : none ≡ some p = rw (n, current_outbound) at e in ground (arith, clash))
  | inr (id, n) ↦ (id, n, rw (n, current_outbound) at e)
]

-- The answer of an advance that opens another round.
abbrev pub Continues : AdvanceInput → ℕ → Store → Store → OutboundPrompt → Type 0
Continues input now s t q =
    (loop : WebRelayLoop) × (p : OutboundPrompt) × (get input.loop_id s.loops ≡ some loop)
    × Awaits loop s p
    × MayContinue input (create_content_hash s.outbound.services.env input.inbound_content) now loop
        p
    × ((loop' : WebRelayLoop) × (get loop.id t.loops ≡ some loop')
        × (loop'.status ≡ running)
        × (loop'.round ≡ suc loop.round)
        × (loop'.current_outbound_prompt_id ≡ some q.id)
        × Counts (or_else input.progress_hash (content_hash input s)) loop loop'.no_progress_count
        × (loop'.no_progress_count < loop.no_progress_limit)
        × (loop'.last_progress_hash ≡ some (or_else input.progress_hash (content_hash input s)))
        × (loop'.seen_content_hashes ≡ loop.seen_content_hashes ++ content_hash input s ∷ []))

unfoldable pub Opens : AdvanceInput → ℕ → Store → Attempt Answer × Store → Type 0
Opens input now s (r, t) =
    (a : Answer) (q : OutboundPrompt)
    → r ≡ made a
    → a.outbound_prompt ≡ some q
    → Continues input now s t q

unmade : {a b : Answer} → made a ≡ made b → a ≡ b
unmade e = ground arith

-- An answer without a prompt opens nothing.
pub shut :
    (input : AdvanceInput) (now : ℕ) (s t : Store) (b : Answer)
    → b.outbound_prompt ≡ none
    → Opens input now s (made b, t)
unfolding Opens
shut input now s t b n a q e f =
    let clash : none ≡ some q = sym n ∙ ap (λ (x : Answer). x.outbound_prompt) (unmade e) ∙ f in
    absurd (ground (arith, clash))

pub fail-Opens :
    (input : AdvanceInput) (loop : WebRelayLoop) (reason : String) (now : ℕ) (s : Store)
    → Opens input now s (fail loop reason now s)
unfolding fail
fail-Opens input loop reason now s = shut input now s (fail loop reason now s).1 _ refl

finish-Opens :
    (input : AdvanceInput) (loop : WebRelayLoop) (reason : String) (now : ℕ) (s : Store)
    → Opens input now s (finish loop reason now s)
unfolding finish
finish-Opens input loop reason now s = shut input now s (finish loop reason now s).1 _ refl

-- The loop that the store holds once another round is open.
abbrev Opened : WebRelayLoop → Store → OutboundPrompt → Type 0
Opened loop t q =
    (loop' : WebRelayLoop) × (get loop.id t.loops ≡ some loop')
    × (loop'.status ≡ loop.status)
    × (loop'.round ≡ suc loop.round)
    × (loop'.current_outbound_prompt_id ≡ some q.id)
    × (loop'.no_progress_count ≡ loop.no_progress_count)
    × (loop'.last_progress_hash ≡ loop.last_progress_hash)
    × (loop'.seen_content_hashes ≡ loop.seen_content_hashes)

next_round-Opened :
    (loop : WebRelayLoop) (text : String) (now : ℕ) (s : Store) (a : Answer) (q : OutboundPrompt)
    → (next_round loop text now s).0 ≡ made a
    → a.outbound_prompt ≡ some q
    → Opened loop (next_round loop text now s).1 q
unfolding next_round open_round append_evidence
next_round-Opened loop text now s a q e f =
    let loop' : WebRelayLoop = record loop { round = suc loop.round } in
    elim (Attempt-cases (create_outbound (first_prompt loop' text) now s.outbound).0) [
      | inl (es, c) ↦
          absurd (let clash : thrown es ≡ made a = rw (c, next_round) at e in ground (arith, clash))
      | inr (p, c) ↦
          let loop'' : WebRelayLoop = open_round p now (record loop' { updated_at = now }) in
          let answer : Answer = record {
            loop = some loop'';
            outbound_prompt = some p;
            error = none;
          } in
          let e' : made answer ≡ made a = rw (c, next_round) at e in
          let g : some p ≡ some q = ap (λ (x : Answer). x.outbound_prompt) (unmade e') ∙ f in
          rw (c, next_round)
            (
              loop'',
              get-set_self loop.id loop'' s.loops,
              refl,
              refl,
              ap (λ (r : OutboundPrompt). some r.id) (unwrap g),
              refl,
              refl,
              refl,
            )
    ]

observe_keeps :
    (input : AdvanceInput) (hash : String) (p : OutboundPrompt) (now : ℕ) (loop : WebRelayLoop)
    → let l = observe input hash p now loop in
      (l.id ≡ loop.id)
      × (l.status ≡ loop.status)
      × (l.round ≡ loop.round)
      × (l.max_rounds ≡ loop.max_rounds)
      × (l.no_progress_limit ≡ loop.no_progress_limit)
unfolding observe append_evidence made_progress
observe_keeps input hash p now loop =
    elim (Bool-cases (same_hash loop.last_progress_hash (or_else input.progress_hash hash))) [
      | inl e ↦ rw (e, observe, made_progress) (refl, refl, refl, refl, refl)
      | inr e ↦ rw (e, observe, made_progress) (refl, refl, refl, refl, refl)
    ]

-- What holds once the content may be taken.
abbrev pub Found : AdvanceInput → ℕ → Store → WebRelayLoop → OutboundPrompt → Type 0
Found input now s loop p =
    (get input.loop_id s.loops ≡ some loop)
    × (current_outbound loop s ≡ some p)
    × (loop.status ≡ running)
    × (now < loop.total_deadline_at)

same_hash-same : (o : Option String) (h : String) → (same_hash o h ≡ true) ↔ (o ≡ some h)
same_hash-same none h = ((λ e. absurd (cc (e))), λ e. absurd (cc (e)))
same_hash-same (some g) h =
    ((λ e. ap (λ (x : String). some x) ((eq_iff g h).0 e)), λ e. (eq_iff g h).1 (unwrap e))

observe-Counts :
    (input : AdvanceInput) (hash : String) (p : OutboundPrompt) (now : ℕ) (loop : WebRelayLoop)
    → let l = observe input hash p now loop in
      let h = or_else input.progress_hash hash in
      Counts h loop l.no_progress_count
      × (l.last_progress_hash ≡ some h)
      × (l.seen_content_hashes ≡ loop.seen_content_hashes ++ hash ∷ [])
unfolding observe append_evidence made_progress
observe-Counts input hash p now loop =
    let h : String = or_else input.progress_hash hash in
    elim (Bool-cases (same_hash loop.last_progress_hash h)) [
      | inl e ↦
          let same = (same_hash-same loop.last_progress_hash h).0 e in
          rw (e, observe, made_progress) (inl (same, refl), same, refl)
      | inr e ↦
          rw (e, observe, made_progress)
            (
              inr (
                (λ same. absurd (
                    let clash : true ≡ false =
                      sym ((same_hash-same loop.last_progress_hash h).1 same) ∙ e in
                    cc (clash))),
                refl,
              ),
              refl,
              refl,
            )
    ]

timed_out-InTime :
    (now : ℕ) (submitted : Option ℕ) (timeout : ℕ)
    → timed_out now submitted timeout ≡ false
    → InTime now submitted timeout
timed_out-InTime now none timeout e = inl refl
timed_out-InTime now (some at) timeout e = elim (Bool-cases (at == 0)) [
  | inl z ↦ inr (at, refl, inl (ground (arith, z)))
  | inr z ↦ inr (at, refl, inr (ground (arith, z, e)))
]

continued :
    (input : AdvanceInput) (loop : WebRelayLoop) (p : OutboundPrompt) (now : ℕ) (s : Store)
    → Found input now s loop p
    → p.status ≡ OutboundStatus.returned
    → timed_out now p.submitted_at loop.per_round_timeout_ms ≡ false
    → includes (content_hash input s) loop.seen_content_hashes ≡ false
    → let l : WebRelayLoop = observe input (content_hash input s) p now loop in
      l.no_progress_count < l.no_progress_limit
      → l.round < l.max_rounds
      → is_blank (or_else input.next_prompt "") ≡ false
      → Opens input now s (next_round l (or_else input.next_prompt "") now s)
unfolding Opens
continued input loop p now s found returned in_time fresh progress below text a q e f =
    let h : String = content_hash input s in
    let l : WebRelayLoop = observe input h p now loop in
    let (i, st, r, m, n) = observe_keeps input h p now loop in
    let (counts, last, seen) = observe-Counts input h p now loop in
    let (loop', there, status, round, current, count', last', seen') =
      next_round-Opened l (or_else input.next_prompt "") now s a q e f in
    (
      loop,
      p,
      found.0,
      current_outbound-Awaits loop s p found.1,
      (
        found.2,
        found.3,
        returned,
        timed_out-InTime now p.submitted_at loop.per_round_timeout_ms in_time,
        fresh,
        omega (arith, below, r, m),
        text,
      ),
      (
        loop',
        ap (λ k. get k (next_round l (or_else input.next_prompt "") now s).1.loops) (sym i) ∙ there,
        status ∙ st ∙ found.2,
        round ∙ ap suc r,
        current,
        subst (Counts (or_else input.progress_hash h) loop) (sym count') counts,
        omega (arith, progress, n, count'),
        last' ∙ last,
        seen' ∙ seen,
      ),
    )

pub go_on-Opens :
    (input : AdvanceInput) (loop : WebRelayLoop) (p : OutboundPrompt) (now : ℕ) (s : Store)
    → Found input now s loop p
    → p.status ≡ OutboundStatus.returned
    → timed_out now p.submitted_at loop.per_round_timeout_ms ≡ false
    → includes (content_hash input s) loop.seen_content_hashes ≡ false
    → Opens input now s (go_on input (observe input (content_hash input s) p now loop) now s)
unfolding go_on
go_on-Opens input loop p now s found returned in_time fresh =
    let l : WebRelayLoop = observe input (content_hash input s) p now loop in
    elim (Bool-cases (leb l.no_progress_limit l.no_progress_count)) [
      | inl n ↦ rw (n, go_on) (fail-Opens input l "no-progress" now s)
      | inr n ↦ elim (Bool-cases (leb l.max_rounds l.round)) [
        | inl m ↦ rw (n, m, go_on) (finish-Opens input l "max-rounds-reached" now s)
        | inr m ↦ elim (Bool-cases (is_blank (or_else input.next_prompt ""))) [
          | inl b ↦ rw (n, m, b, go_on) (finish-Opens input l "no-next-prompt" now s)
          | inr b ↦
              let below : l.round < l.max_rounds = ground arith in
              let progress : l.no_progress_count < l.no_progress_limit = ground arith in
              rw (n, m, b, go_on)
                (continued input loop p now s found returned in_time fresh progress below b)
        ]
      ]
    ]
