-- ===== src/Outbound/Moves.antt =====
-- Each operation of the store makes progress on at most one prompt.
use cli_bridge.Common.{
  ℕ, ◌≡◌, refl, ap, ◌∙◌, ◌⊎◌, inl, inr, true, false, ◌&&◌, String, some, [], arith, ltb, ◌==◌,
  nat_eq, string_eq, Bool-cases, Option-cases, or_else, get, set, get-IsKeyed,
}
use cli_bridge.Outbound.Prompts.{
  OutboundStatus, queued, claimed, waiting_manual_send, submitted, responding, response_ready,
  returned, status_eq, OutboundPrompt,
}
use mathlib.Core.List.{append_assoc}
use cli_bridge.Outbound.Store.{Store, expire, is_terminal, is_pending}
use cli_bridge.Outbound.Delivery.{
  AcknowledgeInput, acknowledge, mark_submitted, transition, mark_failed, cancel, submit, move_to,
  fail_prompt, claim_prompt, settle, cancel_prompt, holds_token,
}
use cli_bridge.Outbound.Calls.{Progress, HasKeys, prompt_id}

pub expire-Progress :
    (now : ℕ) (p : OutboundPrompt) → is_pending p.status ≡ true → Progress p (expire now p)
unfolding expire
expire-Progress now p h = record { moves = ground arith; same = refl; adds = (_, refl) }

submit-Progress :
    (now : ℕ) (p : OutboundPrompt)
    → p.status == waiting_manual_send ≡ true
    → Progress p (submit now p)
unfolding submit
submit-Progress now p h = record { moves = ground arith; same = refl; adds = (_, refl) }

fail_prompt-Progress :
    (reason : String) (now : ℕ) (p : OutboundPrompt)
    → is_terminal p.status ≡ false
    → Progress p (fail_prompt reason now p)
unfolding fail_prompt
fail_prompt-Progress reason now p h = record { moves = ground arith; same = refl; adds = (_, refl) }

pub claim_prompt-Progress :
    (token : String) (now : ℕ) (p : OutboundPrompt)
    → p.status == queued ≡ true
    → Progress p (claim_prompt token now p)
unfolding claim_prompt
claim_prompt-Progress token now p h = record { moves = ground arith; same = refl; adds = (_, refl) }

cancel_prompt-Progress :
    (now : ℕ) (p : OutboundPrompt) → is_pending p.status ≡ true → Progress p (cancel_prompt now p)
unfolding cancel_prompt
cancel_prompt-Progress now p h = record { moves = ground arith; same = refl; adds = (_, refl) }

-- An acknowledgement adds one entry or two.
settle-Progress :
    (input : AcknowledgeInput) (now : ℕ) (p : OutboundPrompt)
    → p.status == claimed ≡ true
    → Progress p (settle input now p)
unfolding settle
settle-Progress input now p h = elim (Bool-cases input.ok) [
  | inl e ↦
      rw (e, settle)
        (record {
          moves = ground arith;
          same = refl;
          adds = (_, append_assoc (or_else p.evidence []) _ _);
        })
  | inr e ↦ rw (e, settle) (record { moves = ground arith; same = refl; adds = (_, refl) })
]

-- The three steps of `transition`.
pub data IsMove : OutboundStatus → OutboundStatus → Type 0 where
  respond : IsMove submitted responding
  ready : IsMove responding response_ready
  return : IsMove response_ready returned

move_to-Progress :
    {from to : OutboundStatus} (m : IsMove from to) (type : String) (now : ℕ) (p : OutboundPrompt)
    → p.status == from ≡ true
    → Progress p (move_to to type now p)
unfolding move_to
move_to-Progress respond type now p h = record {
  moves = ground arith;
  same = refl;
  adds = (_, refl);
}
move_to-Progress ready type now p h = record { moves = ground arith; same = refl; adds = (_, refl) }
move_to-Progress return type now p h = record {
  moves = ground arith;
  same = refl;
  adds = (_, refl);
}

abbrev pub Acts : Store → Store → Type 0
Acts s t =
    (t.prompts ≡ s.prompts)
    ⊎ ((p : OutboundPrompt) × (q : OutboundPrompt) × (get p.id s.prompts ≡ some p)
        × Progress p q
        × (t.prompts ≡ set q.id q s.prompts))

-- A prompt that is found stands under its own identifier.
own_key :
    (id : String) (p : OutboundPrompt) (s : Store)
    → HasKeys s
    → get id s.prompts ≡ some p
    → get p.id s.prompts ≡ some p
own_key id p s h e = ap (λ k. get k s.prompts) (get-IsKeyed prompt_id id p s.prompts h e) ∙ e

pub mark_submitted-Acts :
    (id : String) (now : ℕ) (s : Store) → HasKeys s → Acts s (mark_submitted id now s).1
unfolding mark_submitted
mark_submitted-Acts id now s h = elim (Option-cases (get id s.prompts)) [
  | inl e ↦ rw (e, mark_submitted) (inl refl)
  | inr (p, e) ↦ elim (Bool-cases (p.status == waiting_manual_send)) [
    | inl w ↦ elim (Bool-cases (ltb p.expires_at now)) [
      | inl x ↦
          rw (e, w, x, mark_submitted)
            (inr (p, _, own_key id p s h e, expire-Progress now p (ground arith), refl))
      | inr x ↦
          rw (e, w, x, mark_submitted)
            (inr (p, _, own_key id p s h e, submit-Progress now p w, refl))
    ]
    | inr w ↦ rw (e, w, mark_submitted) (inl refl)
  ]
]

pub transition-Acts :
    {from to : OutboundStatus} (m : IsMove from to) (id type : String) (now : ℕ) (s : Store)
    → HasKeys s
    → Acts s (transition id from to type now s).1
unfolding transition
transition-Acts {from} {to} m id type now s h = elim (Option-cases (get id s.prompts)) [
  | inl e ↦ rw (e, transition) (inl refl)
  | inr (p, e) ↦ elim (Bool-cases (p.status == from)) [
    | inl w ↦
        rw (e, w, transition)
          (inr (p, _, own_key id p s h e, move_to-Progress m type now p w, refl))
    | inr w ↦ rw (e, w, transition) (inl refl)
  ]
]

pub mark_failed-Acts :
    (id reason : String) (now : ℕ) (s : Store) → HasKeys s → Acts s (mark_failed id reason now s).1
unfolding mark_failed
mark_failed-Acts id reason now s h = elim (Option-cases (get id s.prompts)) [
  | inl e ↦ rw (e, mark_failed) (inl refl)
  | inr (p, e) ↦ elim (Bool-cases (is_terminal p.status)) [
    | inl w ↦ rw (e, w, mark_failed) (inl refl)
    | inr w ↦
        rw (e, w, mark_failed)
          (inr (p, _, own_key id p s h e, fail_prompt-Progress reason now p w, refl))
  ]
]

pub cancel-Acts : (id : String) (now : ℕ) (s : Store) → HasKeys s → Acts s (cancel id now s).1
unfolding cancel
cancel-Acts id now s h = elim (Option-cases (get id s.prompts)) [
  | inl e ↦ rw (e, cancel) (inl refl)
  | inr (p, e) ↦ elim (Bool-cases (is_pending p.status)) [
    | inl w ↦
        rw (e, w, cancel) (inr (p, _, own_key id p s h e, cancel_prompt-Progress now p w, refl))
    | inr w ↦ rw (e, w, cancel) (inl refl)
  ]
]

pub acknowledge-Acts :
    (input : AcknowledgeInput) (now : ℕ) (s : Store)
    → HasKeys s
    → Acts s (acknowledge input now s).1
unfolding acknowledge
acknowledge-Acts input now s h = elim (Option-cases (get input.id s.prompts)) [
  | inl e ↦ rw (e, acknowledge) (inl refl)
  | inr (p, e) ↦
      elim (Bool-cases (p.status == claimed && holds_token p.claim_token input.claim_token)) [
        | inl w ↦
            rw (e, w, acknowledge)
              (inr
                (p, _, own_key input.id p s h e, settle-Progress input now p (ground arith), refl))
        | inr w ↦ rw (e, w, acknowledge) (inl refl)
      ]
]
