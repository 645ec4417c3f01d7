-- ===== src/Relay/Calls.antt =====
-- A history of the relay loops and of the outbound store that they drive, as a list of timed calls.
use cli_bridge.Common.{ℕ, String, List, [], ◌∷◌, nat_eq, string_eq}
use cli_bridge.Outbound.Store.{Store as OutboundStore}
use cli_bridge.Relay.Model.{web_relay_loop_status_eq}
use cli_bridge.Relay.Store.{
  Store, CreateInput, create, pause, resume, cancel, recover_after_restart,
}
use cli_bridge.Relay.Advance.{AdvanceInput, advance}
use cli_bridge.Outbound.Calls as OutboundCalls

pub data Call : Type 0 where
  creates : CreateInput → Call
  pauses resumes cancels : String → Call
  recovers : Call
  advances : AdvanceInput → Call
  -- A call that others make on the outbound store: a claim, an acknowledgement, a report.
  moves : OutboundCalls.Call → Call

unfoldable pub step : Store → ℕ × Call → Store
step s (now, creates input) = (create input now s).1
step s (now, pauses id) = (pause id now s).1
step s (now, resumes id) = (resume id now s).1
step s (now, cancels id) = (cancel id now s).1
step s (now, recovers) = (recover_after_restart now s).1
step s (now, advances input) = (advance input now s).1
step s (now, moves c) = record s { outbound = OutboundCalls.step s.outbound (now, c) }

unfoldable pub run : Store → List (ℕ × Call) → Store
unfolding step
run s [] = s
run s (c ∷ cs) = run (step s c) cs

-- A store without loops.
abbrev pub empty : OutboundStore → Store
empty o = record { outbound = o; loops = [] }
