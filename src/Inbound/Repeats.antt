-- ===== src/Inbound/Repeats.antt =====
-- A creation that is sent twice.
use cli_bridge.Common.{
  Attempt, made, thrown, ℕ, ◌≡◌, refl, sym, ap, ◌∙◌, inl, inr, Bool, true, false, not, String, none,
  some, List, [], ◌∷◌, arith, eq_iff, nat_eq, string_eq, Option-cases, find, Map, set, values,
  truthy,
}
use cli_bridge.Services.Packets.{
  BridgePacket, id_or_uuid, create_packet, create_and_append, random_uuid,
}
use cli_bridge.Services.Redaction.{redact_sensitive_content}
use cli_bridge.Inbound.Model.{inbound_status_eq, InboundMessage}
use cli_bridge.Inbound.Store.{
  Store, CreateInput, message_packet, new_message, keep_message, create, CreateResult, created,
  answers, same_operation, create_once, create_idempotent,
}
use cli_bridge.Common.{made_value, thrown-ne-made}

find-set :
    (p : InboundMessage → Bool) (m : InboundMessage) (k : String) (ms : Map InboundMessage)
    → find p (values ms) ≡ none
    → p m ≡ true
    → find p (values (set k m ms)) ≡ some m
unfolding set
find-set p m k [] e t = rw t refl
find-set p m k ((j, n) ∷ ms) e t = ground (arith, find-set p m k ms)

-- What a creation leaves that was not refused.
abbrev Made : CreateInput → Store → InboundMessage → Store → Type 0
Made input s m t =
    (m.endpoint_id ≡ input.endpoint_id)
    × (m.session_id ≡ input.session_id)
    × (m.content ≡ (redact_sensitive_content s.rules input.content).processed_content)
    × (m.source_outbound_prompt_id ≡ truthy input.source_outbound_prompt_id)
    × (t.messages ≡ set m.id m s.messages)
    × (t.env ≡ s.env)

keep_message_made :
    (packet : BridgePacket) (m n : InboundMessage) (now : ℕ) (s t : Store) (errors : List String)
    → keep_message packet m now s errors ≡ (made n, t)
    → (m ≡ n) × (t.messages ≡ set m.id m s.messages) × (t.env ≡ s.env)
unfolding keep_message create_and_append id_or_uuid random_uuid
keep_message_made packet m n now s t [] e =
    (made_value (ap (λ r. r.0) e), sym (ap (λ r. r.1.messages) e), sym (ap (λ r. r.1.env) e))
keep_message_made packet m n now s t (x ∷ xs) e =
    absurd (thrown-ne-made (x ∷ xs) n (ap (λ r. r.0) e))

create_made :
    (input : CreateInput) (now : ℕ) (s t : Store) (m : InboundMessage)
    → create input now s ≡ (made m, t)
    → Made input s m t
unfolding create new_message message_packet create_packet id_or_uuid random_uuid
create_made input now s t m e =
    let kept = keep_message_made (message_packet input now s).0 _ m now _ t _ e in
    rw (← kept.0) (refl, refl, refl, refl, kept.1, kept.2 ∙ ground arith)

replayed_after :
    (input : CreateInput) (id : String) (later : ℕ) (s t : Store) (m : InboundMessage)
    → truthy input.source_outbound_prompt_id ≡ some id
    → find (answers id) (values s.messages) ≡ none
    → Made input s m t
    → create_idempotent input later t
      ≡ (made (record { message = m; replayed = true; conflict = false }), t)
unfolding create_idempotent create_once
replayed_after input id later s t m e f (endpoint, session, text, source, kept, same_env) =
    let named : answers id m ≡ true = rw (source ∙ e) ((eq_iff id id).1 refl) in
    let there : find (answers id) (values t.messages) ≡ some m =
      rw kept (find-set (answers id) m m.id s.messages f named) in
    let same : same_operation input t m ≡ true =
      rw (endpoint, session, text, same_env)
        (ground (
          arith,
          eq_iff input.endpoint_id input.endpoint_id,
          eq_iff input.session_id input.session_id,
          eq_iff m.content m.content,
        )) in
    rw (e, there, same, create_idempotent, create_once) refl

created_made :
    (p : Attempt InboundMessage × Store) (t : Store) (r : CreateResult)
    → created p ≡ (made r, t)
    → (m : InboundMessage) × (p ≡ (made m, t))
      × (r ≡ record { message = m; replayed = false; conflict = false })
unfolding created
created_made (thrown es, s) t r e = absurd (thrown-ne-made es r (ap (λ q. q.0) e))
created_made (made m, s) t r e =
    (m, ap (λ u. (made m, u)) (ap (λ q. q.1) e), sym (made_value (ap (λ q. q.0) e)))

not-not : (b : Bool) → b ≡ not (not b)
not-not true = refl
not-not false = refl

-- A creation that names the outbound prompt it answers, and that was not refused, can be sent again at
-- any time: the second one returns the same message, reports a replay unless the first one already was
-- in conflict with that message, and changes nothing.
pub create_idempotent-again :
    (input : CreateInput) (id : String) (now later : ℕ) (s t : Store) (r : CreateResult)
    → truthy input.source_outbound_prompt_id ≡ some id
    → create_idempotent input now s ≡ (made r, t)
    → create_idempotent input later t ≡ (made (record r { replayed = not r.conflict }), t)
unfolding create_idempotent create_once created
create_idempotent-again input id now later s t r e first =
    elim (Option-cases (find (answers id) (values s.messages))) [
      | inr (m, f) ↦
          let same = same_operation input s m in
          let found : (made (record { message = m; replayed = same; conflict = not same }), s)
              ≡ (made r, t) =
            rw (e, f, create_idempotent, create_once) at first in
          let result : record { message = m; replayed = same; conflict = not same } ≡ r =
            made_value (ap (λ p. p.0) found) in
          let state : s ≡ t = ap (λ p. p.1) found in
          rw (← result, ← state)
            (rw (e, f, create_idempotent, create_once)
              (ap (λ b. (made (record { message = m; replayed = b; conflict = not same }), s))
                (not-not same)))
      | inl f ↦
          let (m, kept, same) =
            created_made (create input now s) t r
              (rw (e, f, create_idempotent, create_once) at first) in
          rw same (replayed_after input id later s t m e f (create_made input now s t m kept))
    ]
