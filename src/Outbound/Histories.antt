-- ===== src/Outbound/Histories.antt =====
-- The lifecycle over a whole history of the store, creations included.
use cli_bridge.Common.{
  ℕ, ◌≡◌, refl, sym, ap, ◌∙◌, ◌⊎◌, inl, inr, true, String, none, some, List, [], ◌∷◌, arith, eq_iff,
  ◌==◌, nat_eq, string_eq, Bool-cases, get, set, get-set, set-IsKeyed,
}
use cli_bridge.Outbound.Prompts.{status_eq, OutboundPrompt, validate_outbound_prompt}
use cli_bridge.Services.Packets.{BridgePacket, create_packet, id_or_uuid}
use cli_bridge.Outbound.Store.{
  Store, CreateInput, create, new_prompt, keep_prompt, finish, prompt_packet, is_terminal,
}
use cli_bridge.Outbound.Delivery.{
  acknowledge, mark_submitted, mark_responding, mark_response_ready, mark_returned, mark_failed,
  cancel,
}
use cli_bridge.Outbound.Calls.{
  HasKeys, prompt_id, Advances, IsFresh, created_id, step, Call, creates, claims, acknowledges,
  submits, responds, readies, returns, cancels, fails,
}
use cli_bridge.Outbound.Moves.{
  Acts, respond, ready, return, mark_submitted-Acts, transition-Acts, mark_failed-Acts, cancel-Acts,
  acknowledge-Acts,
}
use cli_bridge.Outbound.Calls.{IsFreshAll, run}
use cli_bridge.Outbound.Lifecycle.{
  Advances-terminal, Advances-refl, Acts-Advances, Acts-HasKeys, claim_next-Advances,
  claim_next-HasKeys,
}

-- What `create` does to the prompts: nothing when the prompt is refused, and else it adds one.
abbrev pub Adds : String → Store → Store → Type 0
Adds id s t =
    (t.prompts ≡ s.prompts)
    ⊎ ((q : OutboundPrompt) × (q.id ≡ id) × (t.prompts ≡ set q.id q s.prompts))

finish-Adds :
    (packet : BridgePacket) (p : OutboundPrompt) (now : ℕ) (s : Store) (errors : List String)
    → Adds p.id s (finish packet p now s errors).1
unfolding finish keep_prompt
finish-Adds packet p now s [] = inr (_, refl, refl)
finish-Adds packet p now s (e ∷ es) = inl refl

packet_drawn :
    (input : CreateInput) (now : ℕ) (s : Store)
    → (id_or_uuid input.id (prompt_packet input now s).1).0 ≡ created_id input s
unfolding prompt_packet create_packet id_or_uuid
packet_drawn input now s = ground arith

pub create-Adds :
    (input : CreateInput) (now : ℕ) (s : Store) → Adds (created_id input s) s (create input now s).1
unfolding create new_prompt
create-Adds input now s =
    rw (← packet_drawn input now s) (finish-Adds _ _ now _ (validate_outbound_prompt _))

Adds-Advances :
    (id : String) (s t : Store) (k : String)
    → get id s.prompts ≡ none
    → Adds id s t
    → Advances (get k s.prompts) (get k t.prompts)
Adds-Advances id s t k fresh (inl e) = rw e (Advances-refl (get k s.prompts))
Adds-Advances id s t k fresh (inr (q, own, e)) = elim (Bool-cases (q.id == k)) [
  | inl same ↦
      let here : get k s.prompts ≡ none =
        ap (λ j. get j s.prompts) (sym ((eq_iff q.id k).0 same) ∙ own) ∙ fresh in
      rw here tt
  | inr other ↦ rw (e, get-set q.id k q s.prompts, other) (Advances-refl (get k s.prompts))
]

Adds-HasKeys : (id : String) (s t : Store) → HasKeys s → Adds id s t → HasKeys t
Adds-HasKeys id s t h (inl e) = rw e h
Adds-HasKeys id s t h (inr (q, own, e)) = rw e (set-IsKeyed prompt_id q s.prompts h)

acts :
    (s t : Store) (k : String)
    → HasKeys s
    → Acts s t
    → Advances (get k s.prompts) (get k t.prompts) × HasKeys t
acts s t k h a = (Acts-Advances s t k a, Acts-HasKeys s t h a)

step_lem :
    (s : Store) (c : ℕ × Call) (k : String)
    → HasKeys s
    → IsFresh s c.1
    → Advances (get k s.prompts) (get k (step s c).prompts) × HasKeys (step s c)
unfolding step mark_responding mark_response_ready mark_returned
step_lem s (now, creates input) k h fresh =
    let a = create-Adds input now s in
    let t = (create input now s).1 in
    (Adds-Advances (created_id input s) s t k fresh a, Adds-HasKeys (created_id input s) s t h a)
step_lem s (now, claims) k h fresh = (claim_next-Advances now s k h, claim_next-HasKeys now s h)
step_lem s (now, acknowledges input) k h fresh =
    acts s (acknowledge input now s).1 k h (acknowledge-Acts input now s h)
step_lem s (now, submits id) k h fresh =
    acts s (mark_submitted id now s).1 k h (mark_submitted-Acts id now s h)
step_lem s (now, responds id) k h fresh =
    acts s (mark_responding id now s).1 k h (transition-Acts respond id _ now s h)
step_lem s (now, readies id) k h fresh =
    acts s (mark_response_ready id now s).1 k h (transition-Acts ready id _ now s h)
step_lem s (now, returns id) k h fresh =
    acts s (mark_returned id now s).1 k h (transition-Acts return id _ now s h)
step_lem s (now, cancels id) k h fresh = acts s (cancel id now s).1 k h (cancel-Acts id now s h)
step_lem s (now, fails id reason) k h fresh =
    acts s (mark_failed id reason now s).1 k h (mark_failed-Acts id reason now s h)

-- Whatever the call, hydrations apart, a prompt that is in the store stays there: it is left alone, or
-- moves along one edge of the lifecycle, keeps its authorised content, and only gains evidence; a call that creates
-- must take an identifier that is not in use.
pub step-Advances :
    (s : Store) (c : ℕ × Call) (k : String)
    → HasKeys s
    → IsFresh s c.1
    → Advances (get k s.prompts) (get k (step s c).prompts)
step-Advances s c k h fresh = (step_lem s c k h fresh).0

pub step-HasKeys : (s : Store) (c : ℕ × Call) → HasKeys s → IsFresh s c.1 → HasKeys (step s c)
step-HasKeys s c h fresh = (step_lem s c "" h fresh).1

-- A prompt that is returned, completed, expired, failed or cancelled is never written again, in any
-- history, hydrations apart, whose creations take identifiers that are not in use.
pub run_terminal :
    (s : Store) (cs : List (ℕ × Call)) (k : String) (p : OutboundPrompt)
    → HasKeys s
    → IsFreshAll s cs
    → get k s.prompts ≡ some p
    → is_terminal p.status ≡ true
    → get k (run s cs).prompts ≡ some p
unfolding run
run_terminal s [] k p h fresh e t = e
run_terminal s (c ∷ cs) k p h fresh e t =
    run_terminal (step s c) cs k p (step-HasKeys s c h fresh.0) fresh.1
      (Advances-terminal p _ t (rw e at (step-Advances s c k h fresh.0))) t
