-- ===== src/Inbound/Refinement.antt =====
-- Each operation of the store does to the mailbox what the specification says.
use cli_bridge.Common.{
  Attempt, made, thrown, ℕ, ◌≡◌, refl, ◌∙◌, inl, inr, true, false, String, none, some, List, [],
  ◌∷◌, arith, if◌then◌else◌, ◌==◌, nat_eq, string_eq, Bool-cases, Option-cases, unwrap, filter,
  find, get, set, values, get-All, get-set, get-IsKeyed, In-values, In-filter, head?-sort_by-In, In,
  truthy,
}
use cli_bridge.Services.Audit.{AuditEventType, AuditInput, succeeded}
use cli_bridge.Services.Packets.{BridgePacket}
use cli_bridge.Inbound.Model.{
  InboundStatus, consumed, failed, cancelled, inbound_status_eq, InboundMessage, is_terminal,
  validate_inbound_message,
}
use cli_bridge.Inbound.Store.{
  Store, CreateInput, save, audit, message_event, new_message, keep_message, create, created,
  answers, create_once, create_idempotent,
}
use cli_bridge.Inbound.Delivery.{
  ClaimInput, is_wanted, claim_message, next_wanted, claim_next, resolve_for_endpoint, AckInput,
  settle, settled_event, act, ack, cancel_message, cancel,
}
use cli_bridge.Inbound.Calls.{
  Call, creates, repeats, claims, acks, cancels, step, message_id, HasKeys,
}
use cli_bridge.Inbound.Mailbox.{Slot, slot_of, view, put, asks, moved, Posts, Takes, Simulates}
use cli_bridge.Common.{head?-sort_by-none, filter-none}
use mathlib.Core.Path.{fun_ext}
use mathlib.Core.Option

view-set :
    (m : InboundMessage) (s t : Store)
    → t.messages ≡ set m.id m s.messages
    → view t ≡ put m.id (slot_of m) (view s)
unfolding view put
view-set m s t e = fun_ext (λ k. rw (e, get-set m.id k m s.messages) (ground arith))

view-same : (s t : Store) → t.messages ≡ s.messages → view t ≡ view s
unfolding view
view-same s t e = fun_ext (λ k. rw e refl)

keep_message-Posts :
    (input : CreateInput) (packet : BridgePacket) (id : String) (now : ℕ) (s : Store)
    (errors : List String)
    → Posts input
        (view s)
        (view (keep_message packet (new_message input packet id now) now s errors).1)
unfolding keep_message new_message
keep_message-Posts input packet id now s [] =
    inr (id, view-set (new_message input packet id now) s _ refl)
keep_message-Posts input packet id now s (e ∷ es) = inl refl

pub create-Posts :
    (input : CreateInput) (now : ℕ) (s : Store) → Posts input (view s) (view (create input now s).1)
unfolding create view
create-Posts input now s = keep_message-Posts input _ _ now _ (validate_inbound_message _)

pub created-messages : (r : Attempt InboundMessage × Store) → (created r).1 ≡ r.1
unfolding created
created-messages (thrown es, s) = refl
created-messages (made m, s) = refl

pub create_idempotent-Posts :
    (input : CreateInput) (now : ℕ) (s : Store)
    → Posts input (view s) (view (create_idempotent input now s).1)
unfolding create_idempotent create_once
create_idempotent-Posts input now s = elim (Option-cases (truthy input.source_outbound_prompt_id)) [
  | inl e ↦
      rw (e, created-messages (create input now s), create_idempotent) (create-Posts input now s)
  | inr (id, e) ↦ elim (Option-cases (find (answers id) (values s.messages))) [
    | inl f ↦
        rw (e, f, created-messages (create input now s), create_idempotent, create_once)
          (create-Posts input now s)
    | inr (m, f) ↦ rw (e, f, create_idempotent, create_once) (inl refl)
  ]
]

act-view :
    (f : InboundMessage → InboundMessage) (event : InboundMessage → AuditInput)
    (status : InboundStatus) (id endpoint_id : String) (now : ℕ) (s : Store)
    → HasKeys s
    → ((m : InboundMessage)
        → (f m).id ≡ m.id × slot_of (f m) ≡ record (slot_of m) { status = status })
    → view (act f event (resolve_for_endpoint id endpoint_id now s)).1
      ≡ moved id endpoint_id status (view s)
unfolding act resolve_for_endpoint moved view
act-view f event status id endpoint_id now s h e = elim (Option-cases (get id s.messages)) [
  | inl none_there ↦ rw (none_there, act, resolve_for_endpoint, moved) refl
  | inr (m, there) ↦ elim (Bool-cases (m.endpoint_id == endpoint_id)) [
    | inr other ↦ rw (there, other, act, resolve_for_endpoint, moved) refl
    | inl mine ↦ elim (Bool-cases (is_terminal m.status)) [
      | inl over ↦ rw (there, mine, over, act, resolve_for_endpoint, moved) refl
      | inr live ↦
          rw (there, mine, live, act, resolve_for_endpoint, moved)
            (view-set (f m) s (audit (event (f m)) (save (f m) s)) refl
              ∙ rw ((e m).1, (e m).0, get-IsKeyed message_id id m s.messages h there) refl)
    ]
  ]
]

wanted-In :
    (input : ClaimInput) (s : Store) (m : InboundMessage)
    → HasKeys s
    → In m (filter (is_wanted input) (values s.messages))
    → (view s m.id ≡ some (slot_of m)) × (asks input (slot_of m) ≡ true)
unfolding view
wanted-In input s m h i =
    let found = In-filter (is_wanted input) m (values s.messages) i in
    (rw (In-values message_id m s.messages h found.0) refl, found.1)

unwanted :
    (input : ClaimInput) (s : Store)
    → next_wanted input s ≡ none
    → (k : String) (slot : Slot) → view s k ≡ some slot
    → asks input slot ≡ false
unfolding next_wanted view
unwanted input s e k slot v = elim (Option-cases (get k s.messages)) [
  | inl gone ↦ absurd (none_some (rw gone at v))
  | inr (m, there) ↦
      let still : is_wanted input m ≡ false =
        get-All (λ (x : InboundMessage). is_wanted input x ≡ false) k m s.messages
          (filter-none (is_wanted input) (values s.messages) (head?-sort_by-none _ _ e)) there in
      let same : some (slot_of m) ≡ some slot = rw there at v in rw (← unwrap same) still
]
  where
    none_some : {a : Slot} → Option.map slot_of none ≡ some a → ⊥
    none_some f = cc

claim_next-Takes :
    (input : ClaimInput) (now : ℕ) (s : Store)
    → HasKeys s
    → Takes input (view s) (view (claim_next input now s).1)
unfolding claim_next next_wanted claim_message
claim_next-Takes input now s h = elim (Option-cases (next_wanted input s)) [
  | inl e ↦ rw (e, claim_next) (inl (refl, unwanted input s e))
  | inr (m, e) ↦
      let found = wanted-In input s m h (head?-sort_by-In _ m _ e) in
      rw (e, claim_next)
        (inr (m.id, slot_of m, found.0, found.1, view-set (claim_message now m) s _ refl))
]

settle_slot :
    (input : AckInput) (now : ℕ) (m : InboundMessage)
    → ((settle input now m).id ≡ m.id)
      × (slot_of (settle input now m)
          ≡ record (slot_of m) { status = if input.ok then consumed else failed })
unfolding settle
settle_slot input now m = elim (Bool-cases input.ok) [
  | inl e ↦ rw (e, settle) (refl, refl)
  | inr e ↦ rw (e, settle) (refl, refl)
]

-- Where each message stands under its own identifier, every call does to the mailbox what is specified:
-- a creation posts one queued message or nothing; a claim takes a queued message of its endpoint, and of
-- its session if it names one, or finds that there is none; an acknowledgement or a cancellation moves
-- the endpoint's own unsettled message, and nothing else.
pub step-Simulates :
    (s : Store) (now : ℕ) (c : Call) → HasKeys s → Simulates c (view s) (view (step s (now, c)))
unfolding step ack cancel cancel_message
step-Simulates s now (creates input) h = create-Posts input now s
step-Simulates s now (repeats input) h = create_idempotent-Posts input now s
step-Simulates s now (claims input) h = claim_next-Takes input now s h
step-Simulates s now (acks input) h =
    act-view _ (settled_event input now) _ input.inbound_message_id input.endpoint_id now s h
      (settle_slot input now)
step-Simulates s now (cancels id endpoint_id) h =
    act-view (cancel_message now)
      (message_event AuditEventType.inbound_cancelled "local-server" none succeeded now) cancelled
      id endpoint_id now s h (λ m. (refl, refl))
