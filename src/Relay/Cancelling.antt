-- ===== src/Relay/Cancelling.antt =====
-- Cancelling a relay loop reaches into the outbound store.
use cli_bridge.Common.{
  ℕ, ◌≡◌, refl, sym, ap, ◌∙◌, true, false, String, none, some, nat_eq, string_eq, get, set, arith,
  inl, inr, ◌⊎◌, ◌||◌, ◌==◌, Option-cases, Bool-cases, get-set_self, get-IsKeyed, truthy,
}
use cli_bridge.Outbound.Prompts.{OutboundStatus, OutboundPrompt}
use cli_bridge.Outbound.Prompts as Prompts
use cli_bridge.Outbound.Delivery.{cancel as cancel_outbound}
use cli_bridge.Outbound.Store.{Store as OutboundStore}
use cli_bridge.Relay.Model.{
  cancelled, done, failed, web_relay_loop_status_eq, WebRelayLoop, append_evidence, is_terminal,
}
use cli_bridge.Relay.Store.{Store, cancel, cancel_loop, cancel_current}
use cli_bridge.Outbound.Delivery.{cancel_prompt}
use cli_bridge.Outbound.Store.{is_pending}
use cli_bridge.Outbound.Calls.{prompt_id, HasKeys}

-- The prompt as the outbound store holds it once it is cancelled.
cancel_outbound-get :
    (id : String) (now : ℕ) (p : OutboundPrompt) (o : OutboundStore)
    → HasKeys o
    → get id o.prompts ≡ some p
    → is_pending p.status ≡ true
    → get id (cancel_outbound id now o).1.prompts ≡ some (cancel_prompt now p)
unfolding cancel_outbound cancel_prompt Prompts.append_evidence
cancel_outbound-get id now p o k e b =
    let same_id : p.id ≡ id = get-IsKeyed prompt_id id p o.prompts k e in
    rw (e, b, cancel_outbound)
      (ap (λ j. get j (set p.id (cancel_prompt now p) o.prompts)) (sym same_id)
        ∙ get-set_self p.id (cancel_prompt now p) o.prompts)

cancel_outbound-kept :
    (id : String) (now : ℕ) (p : OutboundPrompt) (o : OutboundStore)
    → get id o.prompts ≡ some p
    → is_pending p.status ≡ false
    → (cancel_outbound id now o).1 ≡ o
unfolding cancel_outbound
cancel_outbound-kept id now p o e b = rw (e, b, cancel_outbound) refl

cancel_outbound-missing :
    (id : String) (now : ℕ) (o : OutboundStore)
    → get id o.prompts ≡ none
    → (cancel_outbound id now o).1 ≡ o
unfolding cancel_outbound
cancel_outbound-missing id now o e = rw (e, cancel_outbound) refl

-- Queued, claimed, or waiting for the manual send.
abbrev pub Unsent : OutboundStatus → Type 0
Unsent status =
    (status ≡ OutboundStatus.queued)
    ⊎ (status ≡ OutboundStatus.claimed)
    ⊎ (status ≡ OutboundStatus.waiting_manual_send)

is_pending-Unsent : (status : OutboundStatus) → is_pending status ≡ true → Unsent status
is_pending-Unsent OutboundStatus.queued e = inl refl
is_pending-Unsent OutboundStatus.claimed e = inr (inl refl)
is_pending-Unsent OutboundStatus.waiting_manual_send e = inr (inr refl)
is_pending-Unsent _ e = absurd (cc)

Unsent-is_pending : (status : OutboundStatus) → Unsent status → is_pending status ≡ true
Unsent-is_pending status (inl e) = ap is_pending e
Unsent-is_pending status (inr (inl e)) = ap is_pending e
Unsent-is_pending status (inr (inr e)) = ap is_pending e

-- The prompt with the identifier stands cancelled, without a claim token, if it was still to be sent;
-- else the outbound store is as it was.
abbrev pub CancelsPrompt : String → OutboundStore → OutboundStore → Type 0
CancelsPrompt id o o' =
    ((get id o.prompts ≡ none) × (o' ≡ o))
    ⊎ ((p : OutboundPrompt) × (get id o.prompts ≡ some p) × (¬ Unsent p.status) × (o' ≡ o))
    ⊎ ((p : OutboundPrompt) × (q : OutboundPrompt) × (get id o.prompts ≡ some p)
        × Unsent p.status
        × (get id o'.prompts ≡ some q)
        × (q.status ≡ OutboundStatus.cancelled)
        × (q.claim_token ≡ none))

-- The loop stands cancelled, from the time, with its identifier and round; and so does its prompt, if it
-- names one.
abbrev pub Cancels : WebRelayLoop → ℕ → Store → Store → Type 0
Cancels loop now s t =
    ((loop' : WebRelayLoop) × (get loop.id t.loops ≡ some loop')
      × (loop'.id ≡ loop.id)
      × (loop'.status ≡ cancelled)
      × (loop'.cancelled_at ≡ some now)
      × (loop'.round ≡ loop.round))
    × (((truthy loop.current_outbound_prompt_id ≡ none) × (t.outbound ≡ s.outbound))
        ⊎ ((id : String) × (truthy loop.current_outbound_prompt_id ≡ some id)
            × CancelsPrompt id s.outbound t.outbound))

cancel_outbound-CancelsPrompt :
    (id : String) (now : ℕ) (o : OutboundStore)
    → HasKeys o
    → CancelsPrompt id o (cancel_outbound id now o).1
unfolding cancel_prompt Prompts.append_evidence
cancel_outbound-CancelsPrompt id now o k = elim (Option-cases (get id o.prompts)) [
  | inl e ↦ inl (e, cancel_outbound-missing id now o e)
  | inr (p, e) ↦ elim (Bool-cases (is_pending p.status)) [
    | inr b ↦ inr (
        inl (
          p,
          e,
          (λ u.
              absurd
                (let clash : true ≡ false = sym (Unsent-is_pending p.status u) ∙ b in cc (clash))),
          cancel_outbound-kept id now p o e b,
        ))
    | inl b ↦ inr (
        inr (
          p,
          cancel_prompt now p,
          e,
          is_pending-Unsent p.status b,
          cancel_outbound-get id now p o k e b,
          refl,
          refl,
        ))
  ]
]

-- Where each outbound prompt stands under its own identifier, cancelling a relay loop that is not
-- cancelled, done or failed stores it as cancelled, with the time and its round; and if the loop names a
-- prompt that is still queued, claimed or waits for the manual send, that one stands cancelled in the
-- outbound store, with no claim token left, and else the outbound store is as it was.
pub cancel-cancel_prompt :
    (id : String) (now : ℕ) (loop : WebRelayLoop) (s : Store)
    → HasKeys s.outbound
    → get id s.loops ≡ some loop
    → (loop.status == cancelled || loop.status == done || loop.status == failed) ≡ false
    → Cancels loop now s (cancel id now s).1
unfolding cancel cancel_loop append_evidence
cancel-cancel_prompt id now loop s k e live =
    let goes_on : is_terminal loop.status ≡ false = ground (arith, live) in
    let there = get-set_self loop.id (cancel_loop now loop) s.loops in
    elim (Option-cases (truthy loop.current_outbound_prompt_id)) [
      | inl c ↦
          rw (e, goes_on, c, cancel, cancel_current)
            ((cancel_loop now loop, there, refl, refl, refl, refl), inl (refl, refl))
      | inr (oid, c) ↦
          rw (e, goes_on, c, cancel, cancel_current)
            (
              (cancel_loop now loop, there, refl, refl, refl, refl),
              inr (oid, refl, cancel_outbound-CancelsPrompt oid now s.outbound k),
            )
    ]
