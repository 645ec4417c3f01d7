-- ===== src/Inbound/Replays.antt =====
-- The export of the messages and its hydration, and the counts.
use cli_bridge.Common.{
  suc, ◌+◌, ◌≡◌, refl, sym, ap, ◌∙◌, String, none, some, List, [], ◌∷◌, arith, ◌==◌, nat_eq,
  string_eq, length, filter, All, get, values, sort_by,
}
use cli_bridge.Services.Packets.{Services}
use cli_bridge.Inbound.Model.{
  InboundStatus, queued, claimed, consumed, failed, cancelled, inbound_status_eq, InboundMessage,
  validate_inbound_message,
}
use cli_bridge.Inbound.Store.{
  Store, save, ListQuery, list_messages, export_messages, hydrate_messages,
}
use cli_bridge.Inbound.Delivery.{count, summary}
use cli_bridge.Inbound.Calls.{empty, message_id, HasKeys}
use cli_bridge.Common.{filter-true, set_all, get-set_all_sorted, All-sort_by, length-sort_by}

abbrev pub IsValid : InboundMessage → Type 0
IsValid m = validate_inbound_message m ≡ []

hydrate_messages_valid :
    (ms : List InboundMessage) (s : Store)
    → All IsValid ms
    → (hydrate_messages ms s).0 ≡ length ms
      × ((hydrate_messages ms s).1.messages ≡ set_all message_id ms s.messages)
unfolding hydrate_messages set_all
hydrate_messages_valid [] s h = (refl, refl)
hydrate_messages_valid (m ∷ ms) s h =
    let ih = hydrate_messages_valid ms (save m s) h.1 in
    rw (h.0, hydrate_messages) (ap suc ih.0, ih.1)

export_messages_sorted :
    (s : Store)
    → export_messages s ≡ sort_by (λ (m : InboundMessage). m.created_at) (values s.messages)
unfolding export_messages list_messages
export_messages_sorted s =
    rw
      (
        filter-true (values s.messages),
        filter-true (values s.messages),
        filter-true (values s.messages),
      )
      refl

-- The messages that a store exports restore it: a store without messages that hydrates them takes all
-- of them, and holds under each identifier what the first store held, where that one keeps each message
-- under its own identifier and its messages are valid.
pub export-hydrate :
    (s : Store) (services : Services) (k : String)
    → HasKeys s
    → All IsValid (values s.messages)
    → ((hydrate_messages (export_messages s) (empty services)).0 ≡ length (values s.messages))
      × (get k (hydrate_messages (export_messages s) (empty services)).1.messages
          ≡ get k s.messages)
export-hydrate s services k h valid =
    let sorted = sort_by (λ (m : InboundMessage). m.created_at) (values s.messages) in
    let back =
      hydrate_messages_valid sorted (empty services)
        (All-sort_by _ IsValid (values s.messages) valid) in
    rw (export_messages_sorted s) (
      back.0 ∙ length-sort_by _ (values s.messages),
      ap (get k) back.1
          ∙ get-set_all_sorted message_id (λ (m : InboundMessage). m.created_at) k s.messages h,
    )

total_count :
    (ms : List InboundMessage)
    → length ms
      ≡ count queued ms
        + count claimed ms
        + count consumed ms
        + count failed ms
        + count cancelled ms
unfolding count
total_count [] = omega arith
total_count (m ∷ ms) = ground (arith, total_count ms)

count-filter :
    (status : InboundStatus) (ms : List InboundMessage)
    → length (filter (λ (m : InboundMessage). m.status == status) ms) ≡ count status ms
unfolding count
count-filter status [] = refl
count-filter status (m ∷ ms) = ground (arith, count-filter status ms)

-- The messages that stand in one status, over all endpoints and sessions.
abbrev pub in_status : InboundStatus → ListQuery
in_status status = record { endpoint_id = none; session_id = none; status = some status }

listed-count :
    (status : InboundStatus) (s : Store)
    → length (list_messages (in_status status) s) ≡ count status (values s.messages)
unfolding list_messages
listed-count status s =
    length-sort_by (λ (m : InboundMessage). m.created_at) _
    ∙ rw (filter-true (values s.messages), filter-true (values s.messages))
        (count-filter status (values s.messages))

-- The summary agrees with the lists: each of its counts is the number of messages listed in that status,
-- its total the number of those exported, and the total is the sum of the counts.
pub summary-list_messages :
    (s : Store)
    → let v = summary s in
      (v.total ≡ length (export_messages s))
      × (v.queued ≡ length (list_messages (in_status queued) s))
      × (v.claimed ≡ length (list_messages (in_status claimed) s))
      × (v.consumed ≡ length (list_messages (in_status consumed) s))
      × (v.failed ≡ length (list_messages (in_status failed) s))
      × (v.cancelled ≡ length (list_messages (in_status cancelled) s))
      × (v.total ≡ v.queued + v.claimed + v.consumed + v.failed + v.cancelled)
unfolding summary
summary-list_messages s = (
  sym (ap length (export_messages_sorted s) ∙ length-sort_by _ (values s.messages)),
  sym (listed-count queued s),
  sym (listed-count claimed s),
  sym (listed-count consumed s),
  sym (listed-count failed s),
  sym (listed-count cancelled s),
  total_count (values s.messages),
)
