-- ===== src/Reviews/Sending.antt =====
-- `sendConfirmed` of storage/pending-review-store.ts.
use cli_bridge.Common.{
  Bool, Option, ℕ, ◌≡◌, refl, ◌⊎◌, inl, inr, true, false, String, none, some, ◌==◌, nat_eq,
  string_eq, get, set,
}
use cli_bridge.Reviews.Model.{confirmed, sent, agent_review_status_eq, AgentReviewRequest}
use cli_bridge.Reviews.Store.{Store}
use cli_bridge.Reviews.Operations.{SendResult}
use cli_bridge.Endpoints.Model.{AgentEndpoint, offline, endpoint_status_eq, EndpointStatus}
use cli_bridge.Endpoints.Registry.{RegistryResult, RegistryFailure, ok, refused}

-- The review is confirmed, and its endpoint is registered, not offline and able to review.
abbrev pub Sendable : String → Store → AgentReviewRequest → AgentEndpoint → Type 0
Sendable id s r e =
    (get id s.reviews ≡ some r)
    × (r.status ≡ confirmed)
    × (get r.target_endpoint_id s.registry ≡ some e)
    × (¬ (e.status ≡ some offline))
    × (e.capabilities.can_review ≡ true)

-- The review as it was, but for its status and the times; nothing else but the audit log is written.
abbrev pub Sent : String → ℕ → Store → SendResult × Store → Type 0
Sent id now s (result, t) =
    (r : AgentReviewRequest) × (e : AgentEndpoint) × Sendable id s r e
    × (result.ok ≡ true)
    × (result.review ≡ record r { status = sent; sent_at = some now; updated_at = now })
    × (t.reviews ≡ set r.id result.review s.reviews)
    × (t.results ≡ s.results)
    × (t.registry ≡ s.registry)

-- What stands against sending a review that is there, with the reason that is told.
abbrev pub Hindered : Store → AgentReviewRequest → Option String → Type 0
Hindered s r why =
    ((get r.target_endpoint_id s.registry ≡ none) × (why ≡ some "endpoint-not-found"))
    ⊎ ((e : AgentEndpoint) × (get r.target_endpoint_id s.registry ≡ some e)
        × (((e.status ≡ some offline) × (why ≡ some "endpoint-offline"))
            ⊎ ((e.capabilities.can_review ≡ false) × (why ≡ some "capability-denied"))
            ⊎ ((¬ (r.status ≡ confirmed)) × (why ≡ some "pending-review-not-confirmed"))))

abbrev pub Unsent : String → Store → SendResult × Store → Type 0
Unsent id s (result, t) =
    ((r : AgentReviewRequest) (e : AgentEndpoint) → ¬ Sendable id s r e)
    × (result.ok ≡ false)
    × (t ≡ s)
    × (((get id s.reviews ≡ none) × (result.failure_reason ≡ some "pending-review-not-found"))
        ⊎ ((r : AgentReviewRequest) × (get id s.reviews ≡ some r)
            × Hindered s r result.failure_reason))

pub verdict-cases : (v : RegistryResult) → (v ≡ ok) ⊎ ((why : RegistryFailure) × (v ≡ refused why))
verdict-cases ok = inl refl
verdict-cases (refused why) = inr (why, refl)

abbrev at_offline : Option EndpointStatus → Bool
at_offline none = false
at_offline (some at) = at == offline
