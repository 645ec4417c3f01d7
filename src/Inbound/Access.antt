-- ===== src/Inbound/Access.antt =====
-- Who may write a message: only a call of its own endpoint, and only until it has ended.
use cli_bridge.Common.{
  ℕ, ◌≡◌, refl, sym, ap, ◌∙◌, ◌⊎◌, inl, inr, Bool, true, false, String, none, some, List, [], ◌∷◌,
  arith, eq_iff, ◌==◌, nat_eq, string_eq, Bool-cases, Option-cases, unwrap, find, All, get, set,
  values, get-set, get-IsKeyed, set-IsKeyed, In-values, In-filter, head?-sort_by-In, truthy,
}
use cli_bridge.Services.Audit.{AuditEventType, AuditInput, succeeded}
use cli_bridge.Services.Packets.{BridgePacket, id_or_uuid, create_packet, random_uuid}
use cli_bridge.Inbound.Model.{
  inbound_status_eq, InboundMessage, is_terminal, validate_inbound_message,
}
use cli_bridge.Inbound.Store.{
  Store, CreateInput, message_event, message_packet, new_message, keep_message, create, answers,
  create_once, create_idempotent,
}
use cli_bridge.Inbound.Delivery.{
  ClaimInput, is_wanted, claim_message, next_wanted, claim_next, resolve_for_endpoint, AckInput,
  settle, settled_event, act, ack, cancel_message, cancel,
}
use cli_bridge.Inbound.Calls.{
  Call, creates, repeats, claims, acks, cancels, step, run, message_id, HasKeys,
}
use cli_bridge.Inbound.Refinement.{created-messages}

-- The identifier that a creation takes.
abbrev pub created_id : CreateInput → Store → String
created_id input s = (id_or_uuid input.id (random_uuid s.services).1).0

abbrev pub IsFresh : Store → Call → Type 0
IsFresh s (creates input) = get (created_id input s) s.messages ≡ none
IsFresh s (repeats input) = get (created_id input s) s.messages ≡ none
IsFresh s (claims input) = Unit
IsFresh s (acks input) = Unit
IsFresh s (cancels id endpoint_id) = Unit

abbrev pub IsFreshAll : Store → List (ℕ × Call) → Type 0
IsFreshAll s [] = Unit
IsFreshAll s (c ∷ cs) = IsFresh s c.1 × IsFreshAll (step s c) cs

-- Is the call one of this endpoint on a message that is there?
abbrev pub is_by : String → Call → Bool
is_by e (creates input) = false
is_by e (repeats input) = false
is_by e (claims input) = e == input.endpoint_id
is_by e (acks input) = e == input.endpoint_id
is_by e (cancels id endpoint_id) = e == endpoint_id

-- What a call does to the messages: nothing, or one new message, or one new version of a message that
-- has not ended, at the call of its endpoint.
abbrev pub Writes : Call → Store → Store → Type 0
Writes c s t =
    (t.messages ≡ s.messages)
    ⊎ ((q : InboundMessage) × (get q.id s.messages ≡ none) × (t.messages ≡ set q.id q s.messages))
    ⊎ ((m : InboundMessage) × (q : InboundMessage) × (get m.id s.messages ≡ some m)
        × (q.id ≡ m.id)
        × (is_terminal m.status ≡ false)
        × (is_by m.endpoint_id c ≡ true)
        × (t.messages ≡ set q.id q s.messages))

keep_message-Writes :
    (c : Call) (packet : BridgePacket) (m : InboundMessage) (now : ℕ) (s : Store)
    (errors : List String)
    → get m.id s.messages ≡ none
    → Writes c s (keep_message packet m now s errors).1
unfolding keep_message
keep_message-Writes c packet m now s [] fresh = inr (inl (m, fresh, refl))
keep_message-Writes c packet m now s (e ∷ es) fresh = inl refl

create-Writes :
    (c : Call) (input : CreateInput) (now : ℕ) (s : Store)
    → get (created_id input s) s.messages ≡ none
    → Writes c s (create input now s).1
unfolding create new_message message_packet create_packet id_or_uuid random_uuid
create-Writes c input now s fresh =
    keep_message-Writes c (message_packet input now s).0 _ now _ (validate_inbound_message _)
      (ground arith)

create_idempotent-Writes :
    (c : Call) (input : CreateInput) (now : ℕ) (s : Store)
    → get (created_id input s) s.messages ≡ none
    → Writes c s (create_idempotent input now s).1
unfolding create_idempotent create_once
create_idempotent-Writes c input now s fresh =
    elim (Option-cases (truthy input.source_outbound_prompt_id)) [
      | inl e ↦
          rw (e, created-messages (create input now s), create_idempotent)
            (create-Writes c input now s fresh)
      | inr (id, e) ↦ elim (Option-cases (find (answers id) (values s.messages))) [
        | inl f ↦
            rw (e, f, created-messages (create input now s), create_idempotent, create_once)
              (create-Writes c input now s fresh)
        | inr (m, f) ↦ rw (e, f, create_idempotent, create_once) (inl refl)
      ]
    ]

claim_next-Writes :
    (input : ClaimInput) (now : ℕ) (s : Store)
    → HasKeys s
    → Writes (claims input) s (claim_next input now s).1
unfolding claim_next next_wanted claim_message
claim_next-Writes input now s h = elim (Option-cases (next_wanted input s)) [
  | inl e ↦ rw (e, claim_next) (inl refl)
  | inr (m, e) ↦
      let found = In-filter (is_wanted input) m (values s.messages) (head?-sort_by-In _ m _ e) in
      let there : get m.id s.messages ≡ some m = In-values message_id m s.messages h found.0 in
      rw (e, claim_next)
        (inr (inr (m, claim_message now m, there, refl, ground arith, ground arith, refl)))
]

act-Writes :
    (c : Call) (f : InboundMessage → InboundMessage) (event : InboundMessage → AuditInput)
    (id endpoint_id : String) (now : ℕ) (s : Store)
    → HasKeys s
    → ((m : InboundMessage) → (f m).id ≡ m.id)
    → ((e : String) → (e == endpoint_id) ≡ true → is_by e c ≡ true)
    → Writes c s (act f event (resolve_for_endpoint id endpoint_id now s)).1
unfolding act resolve_for_endpoint
act-Writes c f event id endpoint_id now s h own by = elim (Option-cases (get id s.messages)) [
  | inl none_there ↦ rw (none_there, act, resolve_for_endpoint) (inl refl)
  | inr (m, there) ↦ elim (Bool-cases (m.endpoint_id == endpoint_id)) [
    | inr other ↦ rw (there, other, act, resolve_for_endpoint) (inl refl)
    | inl mine ↦ elim (Bool-cases (is_terminal m.status)) [
      | inl over ↦ rw (there, mine, over, act, resolve_for_endpoint) (inl refl)
      | inr live ↦
          let key : m.id ≡ id = get-IsKeyed message_id id m s.messages h there in
          let here : get m.id s.messages ≡ some m = ap (λ k. get k s.messages) key ∙ there in
          rw (there, mine, live, act, resolve_for_endpoint)
            (inr (inr (m, f m, here, own m, live, by m.endpoint_id mine, refl)))
    ]
  ]
]

settle_id : (input : AckInput) (now : ℕ) (m : InboundMessage) → (settle input now m).id ≡ m.id
unfolding settle
settle_id input now m = elim (Bool-cases input.ok) [
  | inl e ↦ rw (e, settle) refl
  | inr e ↦ rw (e, settle) refl
]

step-Writes : (s : Store) (c : ℕ × Call) → HasKeys s → IsFresh s c.1 → Writes c.1 s (step s c)
unfolding step ack cancel cancel_message
step-Writes s (now, creates input) h fresh = create-Writes (creates input) input now s fresh
step-Writes s (now, repeats input) h fresh =
    create_idempotent-Writes (repeats input) input now s fresh
step-Writes s (now, claims input) h fresh = claim_next-Writes input now s h
step-Writes s (now, acks input) h fresh =
    act-Writes (acks input) (settle input now) (settled_event input now) input.inbound_message_id
      input.endpoint_id now s h (settle_id input now) (λ e same. same)
step-Writes s (now, cancels id endpoint_id) h fresh =
    act-Writes (cancels id endpoint_id) (cancel_message now)
      (message_event AuditEventType.inbound_cancelled "local-server" none succeeded now) id
      endpoint_id now s h (λ m. refl) (λ e same. same)

Writes-HasKeys : (c : Call) (s t : Store) → HasKeys s → Writes c s t → HasKeys t
Writes-HasKeys c s t h (inl e) = rw e h
Writes-HasKeys c s t h (inr (inl (q, fresh, e))) = rw e (set-IsKeyed message_id q s.messages h)
Writes-HasKeys c s t h (inr (inr (m, q, here, own, live, by, e))) =
    rw e (set-IsKeyed message_id q s.messages h)

pub step-HasKeys : (s : Store) (c : ℕ × Call) → HasKeys s → IsFresh s c.1 → HasKeys (step s c)
step-HasKeys s c h fresh = Writes-HasKeys c.1 s (step s c) h (step-Writes s c h fresh)

Writes-get :
    (c : Call) (s t : Store) (k : String) (m : InboundMessage)
    → Writes c s t
    → get k s.messages ≡ some m
    → m.id ≡ k
    → (is_terminal m.status ≡ true) ⊎ (is_by m.endpoint_id c ≡ false)
    → get k t.messages ≡ some m
Writes-get c s t k m (inl e) there key kept = rw e there
Writes-get c s t k m (inr (inl (q, fresh, e))) there key kept =
    rw (e, get-set q.id k q s.messages) (ground (arith, eq_iff q.id k, ap (λ j. get j s.messages)))
Writes-get c s t k m (inr (inr (n, q, here, own, live, by, e))) there key kept =
    elim (Bool-cases (q.id == k)) [
      | inr other ↦ rw (e, get-set q.id k q s.messages, other) there
      | inl same ↦
          let at_k : n.id ≡ k = sym own ∙ (eq_iff q.id k).0 same in
          let it : n ≡ m = unwrap (sym here ∙ ap (λ j. get j s.messages) at_k ∙ there) in
          elim kept [
            | inl over ↦
                absurd (ground (arith, ap (λ (x : InboundMessage). is_terminal x.status) it))
            | inr foreign ↦
                absurd (ground (arith, ap (λ (x : InboundMessage). is_by x.endpoint_id c) it))
          ]
    ]

-- A message that has ended is never written again, and a message is never written by the calls of
-- other endpoints: in any history that has only such calls, hydrations apart, from a store that keeps
-- each message under its own identifier, and whose creations take identifiers that are not in use, it
-- stays as it was.
pub run_kept :
    (s : Store) (cs : List (ℕ × Call)) (k : String) (m : InboundMessage)
    → HasKeys s
    → IsFreshAll s cs
    → get k s.messages ≡ some m
    → (is_terminal m.status ≡ true) ⊎ All (λ (c : ℕ × Call). is_by m.endpoint_id c.1 ≡ false) cs
    → get k (run s cs).messages ≡ some m
unfolding run
run_kept s [] k m h fresh there kept = there
run_kept s (c ∷ cs) k m h fresh there kept =
    run_kept (step s c) cs k m (step-HasKeys s c h fresh.0) fresh.1
      (Writes-get c.1 s (step s c) k m (step-Writes s c h fresh.0) there
        (get-IsKeyed message_id k m s.messages h there) (now_kept kept))
      (later_kept kept)
  where
    now_kept :
        (is_terminal m.status ≡ true)
          ⊎ All (λ (x : ℕ × Call). is_by m.endpoint_id x.1 ≡ false) (c ∷ cs)
        → (is_terminal m.status ≡ true) ⊎ (is_by m.endpoint_id c.1 ≡ false)
    now_kept (inl over) = inl over
    now_kept (inr foreign) = inr foreign.0

    later_kept :
        (is_terminal m.status ≡ true)
          ⊎ All (λ (x : ℕ × Call). is_by m.endpoint_id x.1 ≡ false) (c ∷ cs)
        → (is_terminal m.status ≡ true) ⊎ All (λ (x : ℕ × Call). is_by m.endpoint_id x.1 ≡ false) cs
    later_kept (inl over) = inl over
    later_kept (inr foreign) = inr foreign.1
