-- ===== src/Goals/Effects.antt =====
-- What one `advance` of the orchestrator leaves in the store.
use cli_bridge.Common.{ℕ, ◌⊎◌, String, nat_eq, string_eq}
use cli_bridge.Goals.Model.{goal_status_eq, plan_status_eq, step_status_eq, tier_eq}
use cli_bridge.Goals.Store.{Store}
use cli_bridge.Goals.Orchestrator.{Orchestrator, AdvanceStepOptions, AdvanceResult}
use cli_bridge.Goals.Choosing.{RunsNone, RunsNext}
use cli_bridge.Goals.Starting.{Effect}

-- What an advance answers and counts, and what it leaves in the store.
abbrev pub Advances :
    String → AdvanceStepOptions → (ℕ → ℕ) → Orchestrator → AdvanceResult × Orchestrator → Type 0
Advances goal_id options clock o r =
    (RunsNone o r ⊎ RunsNext goal_id o r) × Effect goal_id options clock o.store r.0 r.1.store
