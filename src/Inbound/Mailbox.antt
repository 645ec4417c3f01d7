-- ===== src/Inbound/Mailbox.antt =====
-- The mailbox that the store of inbound messages promises: for each identifier the endpoint and the
-- session that the message is for, and where it stands. A call is specified on the mailbox alone.
use cli_bridge.Common.{
  ◌≡◌, ◌⊎◌, Bool, true, false, not, ◌&&◌, String, Option, none, some, if◌then◌else◌, ◌==◌, nat_eq,
  string_eq, get,
}
use cli_bridge.Inbound.Model.{
  InboundStatus, queued, claimed, consumed, failed, cancelled, inbound_status_eq, InboundMessage,
  is_terminal,
}
use cli_bridge.Inbound.Store.{Store, CreateInput, fits}
use cli_bridge.Inbound.Delivery.{ClaimInput}
use mathlib.Core.Option
use cli_bridge.Inbound.Calls.{Call, creates, repeats, claims, acks, cancels}

pub record Slot : Type 0 where
  pub endpoint_id : String
  pub session_id : String
  pub status : InboundStatus

abbrev pub Box : Type 0
Box = String → Option Slot

abbrev pub slot_of : InboundMessage → Slot
slot_of m = record { endpoint_id = m.endpoint_id; session_id = m.session_id; status = m.status }

unfoldable pub view : Store → Box
view s k = Option.map slot_of (get k s.messages)

unfoldable pub put : String → Slot → Box → Box
put id slot b k = if id == k then some slot else b k

-- A queued message for the endpoint, and for the session if the claim names one.
abbrev pub asks : ClaimInput → Slot → Bool
asks input slot =
    slot.status == queued
    && slot.endpoint_id == input.endpoint_id
    && fits input.session_id slot.session_id

-- A message that the endpoint may still settle or withdraw.
abbrev pub own : String → Slot → Bool
own endpoint_id slot = slot.endpoint_id == endpoint_id && not (is_terminal slot.status)

-- Gives the endpoint's own message a new status, and leaves the mailbox alone if it has none.
unfoldable pub moved : String → String → InboundStatus → Box → Box
unfolding put
moved id endpoint_id status b = elim (b id) [
  | none ↦ b
  | some slot ↦ if own endpoint_id slot then put id (record slot { status = status }) b else b
]

-- Nothing was posted, or a queued message for the given endpoint and session.
abbrev pub Posts : CreateInput → Box → Box → Type 0
Posts input b c =
    (c ≡ b)
    ⊎ ((id : String) × (c
          ≡ put id
              (record {
                endpoint_id = input.endpoint_id;
                session_id = input.session_id;
                status = queued;
              })
              b))

-- Nothing is taken only if nothing is there for the claim; else one such message is claimed.
abbrev pub Takes : ClaimInput → Box → Box → Type 0
Takes input b c =
    ((c ≡ b) × ((k : String) (slot : Slot) → b k ≡ some slot → asks input slot ≡ false))
    ⊎ ((id : String) × (slot : Slot) × (b id ≡ some slot)
        × (asks input slot ≡ true)
        × (c ≡ put id (record slot { status = claimed }) b))

abbrev pub Simulates : Call → Box → Box → Type 0
Simulates (creates input) b c = Posts input b c
Simulates (repeats input) b c = Posts input b c
Simulates (claims input) b c = Takes input b c
Simulates (acks input) b c =
    c ≡ moved input.inbound_message_id input.endpoint_id (if input.ok then consumed else failed) b
Simulates (cancels id endpoint_id) b c = c ≡ moved id endpoint_id cancelled b
