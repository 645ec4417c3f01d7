-- ===== src/Endpoints/Examples.antt =====
-- The theorems about the registry at one endpoint.
use cli_bridge.Common.{
  ℕ, ◌≡◌, refl, true, false, none, some, List, [], ◌∷◌, nat_eq, string_eq, get, set, is_blank,
}
use cli_bridge.Endpoints.Model.{
  EndpointTransport, online, offline, endpoint_status_eq, AgentEndpoint, validate_agent_endpoint,
}
use cli_bridge.Endpoints.Registry.{Registry, seen, register}
use cli_bridge.Endpoints.Model.{EndpointRisk}
use cli_bridge.Endpoints.Histories.{Call, registers, beats, leaves, step, run, Endures, run-Endures}

abbrev pub codex_endpoint : AgentEndpoint
codex_endpoint = record {
  id = "codex";
  label = "Codex";
  transport = EndpointTransport.command;
  risk = EndpointRisk.medium;
  capabilities = record {
    can_accept_prompt = true;
    can_return_output = true;
    can_review = true;
    can_execute = true;
    can_summarize = false;
    can_receive_inbound = none;
    can_use_managed_writeback = none;
  };
  adapter_name = none;
  experimental = none;
  project_ref = none;
  status = none;
  last_seen_at = none;
}

abbrev pub one_endpoint : Registry
one_endpoint = ("codex", seen online 10 codex_endpoint) ∷ []

registers_it : step [] (10, registers codex_endpoint) ≡ one_endpoint
unfolding step register validate_agent_endpoint is_blank get set
registers_it = refl

abbrev later : List (ℕ × Call)
later = (20, beats "codex") ∷ (30, leaves "codex") ∷ (40, beats "codex") ∷ []

run-Endures_example :
    (f : AgentEndpoint) × (get "codex" (run one_endpoint later) ≡ some f)
    × Endures (seen online 10 codex_endpoint) f
unfolding get
run-Endures_example = run-Endures one_endpoint later "codex" (seen online 10 codex_endpoint) refl

abbrev gone : Registry
gone = ("codex", seen offline 30 codex_endpoint) ∷ []
