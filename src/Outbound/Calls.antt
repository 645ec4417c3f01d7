-- ===== src/Outbound/Calls.antt =====
-- A history of the store as a list of timed calls, and the lifecycle that the calls follow.
use cli_bridge.Common.{
  ℕ, suc, ◌≡◌, ◌⊎◌, Bool, true, false, String, Option, none, some, List, [], ◌∷◌, ◌++◌, nat_eq,
  string_eq, or_else, get, IsKeyed,
}
use cli_bridge.Outbound.Prompts.{
  OutboundStatus, queued, claimed, delivered, waiting_manual_send, submitted, responding,
  response_ready, returned, expired, failed, cancelled, status_eq, Evidence, Authorization,
  OutboundPrompt,
}
use cli_bridge.Outbound.Store.{Store, CreateInput, create}
use cli_bridge.Outbound.Delivery.{
  AcknowledgeInput, claim_next, acknowledge, mark_submitted, mark_responding, mark_response_ready,
  mark_returned, mark_failed, cancel,
}

pub data Call : Type 0 where
  creates : CreateInput → Call
  claims : Call
  acknowledges : AcknowledgeInput → Call
  submits responds readies returns cancels : String → Call
  fails : String → String → Call

unfoldable pub step : Store → ℕ × Call → Store
step s (now, creates input) = (create input now s).1
step s (now, claims) = (claim_next now s).1
step s (now, acknowledges input) = (acknowledge input now s).1
step s (now, submits id) = (mark_submitted id now s).1
step s (now, responds id) = (mark_responding id now s).1
step s (now, readies id) = (mark_response_ready id now s).1
step s (now, returns id) = (mark_returned id now s).1
step s (now, cancels id) = (cancel id now s).1
step s (now, fails id reason) = (mark_failed id reason now s).1

unfoldable pub run : Store → List (ℕ × Call) → Store
unfolding step
run s [] = s
run s (c ∷ cs) = run (step s c) cs

-- The identifier that `create` gives: its packet draws the first random one.
abbrev pub created_id : CreateInput → Store → String
created_id input s = or_else input.id (s.uuid (suc s.drawn))

-- A call that creates takes an identifier that is not in use.
abbrev pub IsFresh : Store → Call → Type 0
IsFresh s (creates input) = get (created_id input s) s.prompts ≡ none
IsFresh s _ = Unit

abbrev pub IsFreshAll : Store → List (ℕ × Call) → Type 0
IsFreshAll s [] = Unit
IsFreshAll s (c ∷ cs) = IsFresh s c.1 × IsFreshAll (step s c) cs

abbrev pub prompt_id : OutboundPrompt → String
prompt_id p = p.id

-- The store keeps each prompt under its own identifier.
abbrev pub HasKeys : Store → Type 0
HasKeys s = IsKeyed prompt_id s.prompts

-- The lifecycle: each status with those that one operation can lead to.
abbrev pub may_move : OutboundStatus → OutboundStatus → Bool
may_move queued claimed = true
may_move queued expired = true
may_move queued cancelled = true
may_move queued failed = true
may_move claimed waiting_manual_send = true
may_move claimed expired = true
may_move claimed cancelled = true
may_move claimed failed = true
may_move delivered failed = true
may_move waiting_manual_send submitted = true
may_move waiting_manual_send expired = true
may_move waiting_manual_send cancelled = true
may_move waiting_manual_send failed = true
may_move submitted responding = true
may_move submitted failed = true
may_move responding response_ready = true
may_move responding failed = true
may_move response_ready returned = true
may_move response_ready failed = true
may_move _ _ = false

-- What a prompt is about, which was fixed when it was authorised.
pub record Content : Type 0 where
  pub id : String
  pub session_id : String
  pub packet_id : String
  pub prompt : String
  pub authorization : Authorization
  pub loop_id : Option String
  pub endpoint_id : Option String
  pub created_at : ℕ

abbrev pub content : OutboundPrompt → Content
content p = record {
  id = p.id;
  session_id = p.session_id;
  packet_id = p.packet_id;
  prompt = p.prompt;
  authorization = p.authorization;
  loop_id = p.loop_id;
  endpoint_id = p.endpoint_id;
  created_at = p.created_at;
}

-- One operation on a prompt: it follows the lifecycle, keeps what was authorised, and only adds to
-- the evidence.
pub record Progress (p q : OutboundPrompt) : Type 0 where
  pub moves : may_move p.status q.status ≡ true
  pub same : content q ≡ content p
  pub adds : (es : List Evidence) × (or_else q.evidence [] ≡ or_else p.evidence [] ++ es)

-- What becomes of the prompt under a key.
abbrev pub Advances : Option OutboundPrompt → Option OutboundPrompt → Type 0
Advances none o = Unit
Advances (some p) none = ⊥
Advances (some p) (some q) = (q ≡ p) ⊎ Progress p q
