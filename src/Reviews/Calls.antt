-- ===== src/Reviews/Calls.antt =====
-- Histories of the store of reviews, and the lifecycle of a review.
use cli_bridge.Common.{
  ℕ, ◌≡◌, Bool, true, false, String, none, List, [], ◌∷◌, nat_eq, string_eq, get, IsKeyed,
}
use cli_bridge.Services.Packets.{id_or_uuid, random_uuid}
use cli_bridge.Reviews.Model.{
  AgentReviewStatus, draft, previewed, confirmed, sent, returned, cancelled, failed,
  agent_review_status_eq, AgentReviewRequest,
}
use cli_bridge.Reviews.Store.{Store, services, CreateInput, create_draft}
use cli_bridge.Reviews.Operations.{
  preview, confirm, cancel, fail, send_confirmed, ReturnInput, return_result,
}

pub data Call : Type 0 where
  creates : CreateInput → Call
  previews confirms sends cancels : String → Call
  returns : String → ReturnInput → Call
  fails : String → String → Call

unfoldable pub step : Store → ℕ × Call → Store
step s (now, creates input) = (create_draft input now s).1
step s (now, previews id) = (preview id now s).1
step s (now, confirms id) = (confirm id now s).1
step s (now, sends id) = (send_confirmed id now s).1
step s (now, returns id input) = (return_result id input now s).1
step s (now, cancels id) = (cancel id now s).1
step s (now, fails id reason) = (fail id reason now s).1

unfoldable pub run : Store → List (ℕ × Call) → Store
unfolding step
run s [] = s
run s (c ∷ cs) = run (step s c) cs

abbrev pub review_id : AgentReviewRequest → String
review_id r = r.id

abbrev pub HasKeys : Store → Type 0
HasKeys s = IsKeyed review_id s.reviews

-- The identifier that a draft takes.
abbrev pub created_id : CreateInput → Store → String
created_id input s = (id_or_uuid input.id (random_uuid (services s)).1).0

abbrev pub IsFresh : Store → Call → Type 0
IsFresh s (creates input) = get (created_id input s) s.reviews ≡ none
IsFresh s (previews id) = Unit
IsFresh s (confirms id) = Unit
IsFresh s (sends id) = Unit
IsFresh s (returns id input) = Unit
IsFresh s (cancels id) = Unit
IsFresh s (fails id reason) = Unit

abbrev pub IsFreshAll : Store → List (ℕ × Call) → Type 0
IsFreshAll s [] = Unit
IsFreshAll s (c ∷ cs) = IsFresh s c.1 × IsFreshAll (step s c) cs

-- The lifecycle: forward one by one from the draft to the return, a cancellation until it is sent, and a
-- failure until it is returned.
abbrev pub may_move : AgentReviewStatus → AgentReviewStatus → Bool
may_move draft previewed = true
may_move previewed confirmed = true
may_move confirmed sent = true
may_move sent returned = true
may_move draft cancelled = true
may_move previewed cancelled = true
may_move confirmed cancelled = true
may_move returned failed = false
may_move failed failed = false
may_move _ failed = true
may_move _ _ = false
