-- ===== src/Inbound/Calls.antt =====
-- Histories of the store of inbound messages.
use cli_bridge.Common.{ℕ, String, List, [], ◌∷◌, nat_eq, string_eq, IsKeyed}
use cli_bridge.Services.Packets.{Services}
use cli_bridge.Inbound.Model.{inbound_status_eq, InboundMessage}
use cli_bridge.Inbound.Store.{Store, CreateInput, create, create_idempotent}
use cli_bridge.Inbound.Delivery.{ClaimInput, claim_next, AckInput, ack, cancel}

pub data Call : Type 0 where
  creates repeats : CreateInput → Call
  claims : ClaimInput → Call
  acks : AckInput → Call
  cancels : String → String → Call

unfoldable pub step : Store → ℕ × Call → Store
step s (now, creates input) = (create input now s).1
step s (now, repeats input) = (create_idempotent input now s).1
step s (now, claims input) = (claim_next input now s).1
step s (now, acks input) = (ack input now s).1
step s (now, cancels id endpoint_id) = (cancel id endpoint_id now s).1

unfoldable pub run : Store → List (ℕ × Call) → Store
unfolding step
run s [] = s
run s (c ∷ cs) = run (step s c) cs

abbrev pub empty : Services → Store
empty services = record { services = services; messages = [] }

abbrev pub message_id : InboundMessage → String
message_id m = m.id

abbrev pub HasKeys : Store → Type 0
HasKeys s = IsKeyed message_id s.messages
