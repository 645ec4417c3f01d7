-- ===== src/Services/Restoring.antt =====
-- Export and hydration of packets and audit events: storage/packet-store.ts and storage/audit-log.ts.
-- The validators cannot fail on records of these types.
use cli_bridge.Common.{
  ℕ, suc, ◌≡◌, refl, sym, ap, ◌∙◌, String, List, [], ◌∷◌, ◌++◌, get, set, values, IsKeyed, length,
  set_all, get-set_all_kept, string_eq,
}
use mathlib.Core.List.{append-nil, append_assoc}
use cli_bridge.Services.Audit.{AuditEvent}
use cli_bridge.Services.Packets.{BridgePacket, Services, export_packets}

-- No raw content is restored.
unfoldable pub hydrate_packets : List BridgePacket → Services → ℕ × Services
hydrate_packets [] s = (0, s)
hydrate_packets (p ∷ ps) s =
    let (n, t) = hydrate_packets ps (record s { packets = set p.id p s.packets }) in (suc n, t)

unfoldable pub hydrate_events : List AuditEvent → Services → ℕ × Services
hydrate_events [] s = (0, s)
hydrate_events (e ∷ es) s =
    let (n, t) = hydrate_events es (record s { events = s.events ++ e ∷ [] }) in (suc n, t)

abbrev pub packet_id : BridgePacket → String
packet_id p = p.id

hydrate_packets-set_all :
    (ps : List BridgePacket) (s : Services)
    → hydrate_packets ps s ≡ (length ps, record s { packets = set_all packet_id ps s.packets })
unfolding hydrate_packets set_all
hydrate_packets-set_all [] s = refl
hydrate_packets-set_all (p ∷ ps) s =
    rw (hydrate_packets-set_all ps (record s { packets = set p.id p s.packets })) refl

hydrate_events-append :
    (es : List AuditEvent) (s : Services)
    → hydrate_events es s ≡ (length es, record s { events = s.events ++ es })
unfolding hydrate_events
hydrate_events-append [] s =
    ap (λ (es : List AuditEvent). (0, record s { events = es })) (sym (append-nil s.events))
hydrate_events-append (e ∷ es) s =
    rw (hydrate_events-append es (record s { events = s.events ++ e ∷ [] })) (
      ap (λ (all : List AuditEvent). (suc (length es), record s { events = all }))
        (append_assoc s.events (e ∷ []) es))

-- Packets and audit events that are exported and hydrated into services that have none are all taken:
-- each packet is found as it was, where each stands under its own identifier, the events follow in their
-- order, and no raw content comes back.
pub export_packets-hydrate_packets :
    (s t : Services) (k : String)
    → IsKeyed packet_id s.packets
    → t.packets ≡ []
    → t.events ≡ []
    → t.raw_contents ≡ []
    → let restored = (hydrate_events s.events (hydrate_packets (export_packets s) t).1).1 in
      (get k restored.packets ≡ get k s.packets)
      × (restored.events ≡ s.events)
      × (restored.raw_contents ≡ [])
unfolding export_packets
export_packets-hydrate_packets s t k keyed p e r =
    rw (hydrate_packets-set_all (values s.packets) t) (
      rw
        (hydrate_events-append s.events
          (record t { packets = set_all packet_id (values s.packets) t.packets }))
        (
          ap (λ m. get k (set_all packet_id (values s.packets) m)) p
              ∙ get-set_all_kept packet_id k s.packets keyed,
          ap (λ es. es ++ s.events) e,
          r,
        ))
