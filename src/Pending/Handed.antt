-- ===== src/Pending/Handed.antt =====
-- What the adapter is given was confirmed, and is a redacted text.
use cli_bridge.Common.{
  ℕ, ◌≡◌, refl, sym, ap, ◌∙◌, inl, inr, String, Option, none, some, List, [], ◌∷◌, arith, ◌==◌,
  nat_eq, string_eq, Bool-cases, Option-cases, All, All-map, All-In, get, In,
}
use cli_bridge.Services.Audit.{AuditInput}
use cli_bridge.Services.Packets.{
  Env, BridgePacket, Services, id_or_uuid, create_packet, create_and_append, random_uuid,
}
use cli_bridge.Services.Redaction.{Rule}
use cli_bridge.Pending.Model.{draft, confirmed, pending_prompt_status_eq, PendingPrompt, Delivery}
use cli_bridge.Pending.Store.{
  Store, lookup, put, CreateInput, new_prompt, creation_event, prompt_packet, create, preview,
  confirm, hand_off, cancel,
}
use cli_bridge.Pending.Sending.{Flight, begin_send, finish_send}
use cli_bridge.Pending.Calls.{
  Server, Call, creates, previews, confirms, begins, lands, hands_off, cancels, launch, land, step,
  run, consents, empty, redacted_text, texts, texts_of, consents_of, remove_at, flight_at,
}
use cli_bridge.Pending.Objects.{
  Every, put-Every, lookup-object, Led, put-Led, lookup-Led, Change, Change-Every, Change-Led,
  Change-env, Consented, create_and_append-env,
}
use cli_bridge.Pending.Consent.{
  preview-Change, confirm-Change, cancel-Change, hand_off-Change, finish_send-Change,
}
use mathlib.Core.Path.{subst}

Change-more :
    (few many : List String) (s t : Store)
    → ((x : String) → In x few → In x many)
    → Change few s t
    → Change many s t
Change-more few many s t sub (inl same) = inl same
Change-more few many s t sub (inr (at, p, q, w, there, id, text, may, env, same)) = inr (
  at,
  p,
  q,
  w,
  there,
  id,
  text,
  λ c. elim (may c) [ inl was ↦ inl was | inr i ↦ inr (sub q.id i) ],
  env,
  same,
)

abbrev pub IsHanded : List String → List String → String × String → Type 0
IsHanded ids ts h = In h.0 ids × In h.1 ts

-- The addresses and identifiers agree, every object is consented, the rules are the given ones, and what
-- was handed over was confirmed and redacted.
abbrev pub Sound : List Rule → List String → List String → Server → Type 0
Sound rules ids ts v =
    Led v.store
    × Every (Consented ids ts) v.store
    × (v.store.services.rules ≡ rules)
    × All (IsHanded ids ts) v.handed

Sound-confirms :
    (rules : List Rule) (id : String) (ids ts : List String) (v : Server)
    → Sound rules ids ts v
    → Sound rules (id ∷ ids) ts v
Sound-confirms rules id ids ts v h = (
  h.0,
  λ at p e. (λ c. inr ((h.1 at p e).0 c), (h.1 at p e).1),
  h.2,
  All-map (λ g k. (inr k.0, k.1)) v.handed h.3,
)

Sound-creates :
    (rules : List Rule) (t : String) (ids ts : List String) (v : Server)
    → Sound rules ids ts v
    → Sound rules ids (t ∷ ts) v
Sound-creates rules t ids ts v h = (
  h.0,
  λ at p e. ((h.1 at p e).0, inr (h.1 at p e).1),
  h.2,
  All-map (λ g k. (k.0, inr k.1)) v.handed h.3,
)

Change-Sound :
    (rules : List Rule) (few ids ts : List String) (v : Server) (t : Store) (flights : List Flight)
    → ((x : String) → In x few → In x ids)
    → Change few v.store t
    → Sound rules ids ts v
    → Sound rules ids ts (record v { store = t; flights = flights })
Change-Sound rules few ids ts v t flights sub c h =
    let c' = Change-more few ids v.store t sub c in
    (
      Change-Led ids v.store t c' h.0,
      Change-Every ids ts v.store t c' h.1,
      ap (λ (e : Env). e.rules) (Change-env ids v.store t c') ∙ h.2,
      h.3,
    )

-- Storing a new prompt.
kept-Sound :
    (rules : List Rule) (ids ts : List String) (v : Server) (p : PendingPrompt) (w w' : Services)
    → p.status ≡ draft
    → In p.prompt ts
    → w'.rules ≡ rules
    → Sound rules ids ts v
    → Sound rules ids ts (record v {
      store = record (put v.store.allocated p (record v.store { services = w })) { services = w' };
    })
unfolding put
kept-Sound rules ids ts v p w w' d i r h = (
  put-Led v.store.allocated p (record v.store { services = w }) h.0 (inl refl),
  put-Every (Consented ids ts) v.store.allocated p (record v.store { services = w }) h.1
      (λ c. absurd (ground (arith, c, d)), i),
  r,
  h.3,
)

prompt_packet-text :
    (input : CreateInput) (now : ℕ) (s : Services)
    → ((prompt_packet input now s).0.processed_content ≡ redacted_text s.rules input.prompt)
      × ((prompt_packet input now s).1.env ≡ s.env)
unfolding prompt_packet create_packet id_or_uuid random_uuid
prompt_packet-text input now s = (refl, refl)

id_or_uuid-env : (id : Option String) (s : Services) → (id_or_uuid id s).1.env ≡ s.env
unfolding id_or_uuid random_uuid
id_or_uuid-env none s = refl
id_or_uuid-env (some id) s = refl

create-Sound :
    (rules : List Rule) (ids ts : List String) (v : Server) (input : CreateInput) (now : ℕ)
    → Sound rules ids ts v
    → Sound rules ids
        (redacted_text rules input.prompt ∷ ts)
        (record v { store = (create input now v.store).1 })
unfolding create new_prompt
create-Sound rules ids ts v input now h =
    let r : BridgePacket × Services = prompt_packet input now v.store.services in
    let n : String × Services = id_or_uuid input.id r.1 in
    let p : PendingPrompt = new_prompt input r.0 n.0 now in
    let event : AuditInput = creation_event r.0 p now in
    let text = prompt_packet-text input now v.store.services in
    let env = create_and_append-env event n.1 ∙ id_or_uuid-env input.id r.1 ∙ text.1 in
    kept-Sound rules ids (redacted_text rules input.prompt ∷ ts) v p n.1
      (create_and_append event n.1) refl
      (inl (ap (λ rs. redacted_text rs input.prompt) (sym h.2) ∙ sym text.0))
      (ap (λ (e : Env). e.rules) env ∙ h.2)
      (Sound-creates rules (redacted_text rules input.prompt) ids ts v h)

begin_send-Sound :
    (rules : List Rule) (ids ts : List String) (v : Server) (id : String) (now : ℕ)
    → Sound rules ids ts v
    → Sound rules ids ts (launch id (begin_send id now v.store) v)
unfolding begin_send launch
begin_send-Sound rules ids ts v id now h = elim (Option-cases (lookup id v.store)) [
  | inl e ↦ rw (e, begin_send) h
  | inr ((at, p), e) ↦ elim (Bool-cases (p.status == confirmed)) [
    | inr b ↦ rw (e, b, begin_send) h
    | inl b ↦
        let known = h.1 at p (lookup-object id at p v.store e).1 in
        let named : In p.id ids = known.0 (ground arith) in
        rw (e, b, begin_send)
          (
            h.0,
            h.1,
            h.2,
            ((subst (λ i. In i ids) (lookup-Led id at p v.store h.0 e) named, known.1), h.3),
          )
  ]
]

land-Sound :
    (rules : List Rule) (ids ts : List String) (v : Server) (n : ℕ) (adapter : String)
    (delivery : Delivery)
    → Sound rules ids ts v
    → Sound rules ids ts (land n adapter delivery v)
unfolding land
land-Sound rules ids ts v n adapter delivery h = elim (Option-cases (flight_at n v.flights)) [
  | inl e ↦ rw (e, land) h
  | inr (f, e) ↦
      rw (e, land)
        (Change-Sound rules [] ids ts v (finish_send adapter delivery f v.store).1
          (remove_at n v.flights) (λ x i. absurd i) (finish_send-Change adapter delivery f v.store)
          h)
]

step-Sound :
    (rules : List Rule) (ids ts : List String) (v : Server) (now : ℕ) (c : Call)
    → Sound rules ids ts v
    → Sound rules (consents_of c ids) (texts_of rules c ts) (step v (now, c))
unfolding step
step-Sound rules ids ts v now (creates input) h = create-Sound rules ids ts v input now h
step-Sound rules ids ts v now (previews id) h =
    Change-Sound rules [] ids ts v (preview id now v.store).1 v.flights (λ x i. absurd i)
      (preview-Change id now v.store) h
step-Sound rules ids ts v now (confirms id) h =
    Change-Sound rules (id ∷ []) (id ∷ ids) ts v (confirm id now v.store).1 v.flights
      (λ x i. elim i [ inl e ↦ inl e | inr none_left ↦ absurd none_left ])
      (confirm-Change id now v.store h.0) (Sound-confirms rules id ids ts v h)
step-Sound rules ids ts v now (begins id) h = begin_send-Sound rules ids ts v id now h
step-Sound rules ids ts v now (cancels id) h =
    Change-Sound rules [] ids ts v (cancel id now v.store).1 v.flights (λ x i. absurd i)
      (cancel-Change id now v.store) h
step-Sound rules ids ts v now (hands_off id reason) h =
    Change-Sound rules [] ids ts v (hand_off id reason now v.store).1 v.flights (λ x i. absurd i)
      (hand_off-Change id reason now v.store) h
step-Sound rules ids ts v now (lands n adapter delivery) h =
    land-Sound rules ids ts v n adapter delivery h

run-Sound :
    (rules : List Rule) (ids ts : List String) (v : Server) (cs : List (ℕ × Call))
    → Sound rules ids ts v
    → Sound rules (consents cs ids) (texts rules cs ts) (run v cs)
unfolding run
run-Sound rules ids ts v [] h = h
run-Sound rules ids ts v ((now, c) ∷ cs) h =
    run-Sound rules (consents_of c ids) (texts_of rules c ts) (step v (now, c)) cs
      (step-Sound rules ids ts v now c h)

empty-Sound : (services : Services) → Sound services.rules [] [] (empty services)
unfolding get
empty-Sound services = (λ id at e. absurd (ground arith), λ at p e. absurd (ground arith), refl, tt)

-- In every history that starts from an empty store, with sends that overlap each other and any other
-- operation in any order: whatever text the adapter is handed under an identifier, one of the calls
-- asked to confirm that identifier, and the text is the redacted text of a prompt that one of the calls
-- created. No text that was not redacted, and no prompt that nobody confirmed, reaches the adapter.
pub run-IsHanded :
    (services : Services) (cs : List (ℕ × Call)) (id text : String)
    → In (id, text) (run (empty services) cs).handed
    → In id (consents cs []) × In text (texts services.rules cs [])
run-IsHanded services cs id text i =
    All-In (IsHanded (consents cs []) (texts services.rules cs [])) (run (empty services) cs).handed
      (run-Sound services.rules [] [] (empty services) cs (empty-Sound services)).3 i
