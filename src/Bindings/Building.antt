-- ===== src/Bindings/Building.antt =====
-- What `buildBinding` makes of an input, and when it makes it.
use cli_bridge.Common.{
  made, ℕ, ◌≤◌, ◌≡◌, refl, sym, ◌∙◌, inl, inr, true, false, none, some, List, [], ◌∷◌, arith,
  eq_iff, nat_eq, string_eq, Bool-cases, Option-cases, All,
}
use cli_bridge.Bindings.Model.{
  RunEndpointBinding, endpoint_ref, Platform, is_execution_tier, validate_run_endpoint_binding,
}
use cli_bridge.Bindings.Hash.{hash_binding_fields}
use cli_bridge.Bindings.Store.{
  Store, CreateInput, input_errors, can_reason, without_hash, hashed, asserted, bind,
  find_endpoints, build_binding,
}
use cli_bridge.Bindings.Store.{Test, failures, input_tests}
use cli_bridge.Common.{List-cases, made_value, thrown-ne-made}
use cli_bridge.Endpoints.Model.{AgentEndpoint}
use cli_bridge.Endpoints.Registry.{get_endpoint}

-- What every binding promises: the digest of its fields, the validator's rules, the bounds on steps and
-- rounds, the tiers, a known project and an endpoint that can execute.
abbrev pub IsBuilt : Platform → RunEndpointBinding → Type 0
IsBuilt env b =
    (b.binding_hash ≡ hash_binding_fields env b)
    × (validate_run_endpoint_binding env b ≡ [])
    × (1 ≤ b.max_steps)
    × (b.max_steps ≤ 50)
    × (1 ≤ b.max_reasoning_rounds)
    × (b.max_reasoning_rounds ≤ 20)
    × (b.reasoning_tier ≡ "high")
    × (is_execution_tier b.execution_tier ≡ true)
    × (env.project_exists b.execution_working_directory_ref ≡ true)
    × (b.execution_endpoint.can_execute ≡ true)

unfoldable pub Passed : Test → Type 0
Passed t = t.0 ≡ true

pub failures-Passed : (tests : List Test) → failures tests ≡ [] → All Passed tests
unfolding failures Passed
failures-Passed [] e = tt
failures-Passed ((true, error) ∷ tests) e = (refl, failures-Passed tests e)
failures-Passed ((false, error) ∷ tests) e = absurd (cc)

pub Passed-failures : (tests : List Test) → All Passed tests → failures tests ≡ []
unfolding failures Passed
Passed-failures [] h = refl
Passed-failures ((true, error) ∷ tests) h = Passed-failures tests h.1
Passed-failures ((false, error) ∷ tests) h = absurd (let clash : false ≡ true = h.0 in cc (clash))

Within : CreateInput → Platform → Type 0
Within input env =
    (1 ≤ input.max_steps)
    × (input.max_steps ≤ 50)
    × (1 ≤ input.max_reasoning_rounds)
    × (input.max_reasoning_rounds ≤ 20)
    × (input.reasoning_tier ≡ "high")
    × (is_execution_tier input.execution_tier ≡ true)
    × (env.project_exists input.execution_working_directory_ref ≡ true)

input_errors-Within :
    (input : CreateInput) (env : Platform) → input_errors input env ≡ [] → Within input env
unfolding input_errors Within Passed
input_errors-Within input env e =
    let (_, (_, (_, (_, (_, (_, (_, (tier, (execution, (project, (steps, (rounds, _)))))))))))) =
      failures-Passed (input_tests input env) e in
    (
      ground (arith, steps),
      ground (arith, steps),
      ground (arith, rounds),
      ground (arith, rounds),
      (eq_iff input.reasoning_tier "high").0 tier,
      execution,
      project,
    )

-- What an input makes of a binding.
abbrev pub Fills : CreateInput → ℕ → RunEndpointBinding → Type 0
Fills input now b =
    (b.goal_id ≡ input.goal_id)
    × (b.plan_id ≡ input.plan_id)
    × (b.parent_plan_id ≡ input.parent_plan_id)
    × (b.reasoning_endpoint_id ≡ input.reasoning_endpoint_id)
    × (b.execution_endpoint_id ≡ input.execution_endpoint_id)
    × (b.reasoning_tier ≡ input.reasoning_tier)
    × (b.execution_tier ≡ input.execution_tier)
    × (b.execution_permission_profile ≡ input.execution_permission_profile)
    × (b.execution_working_directory_ref ≡ input.execution_working_directory_ref)
    × (b.max_steps ≡ input.max_steps)
    × (b.max_reasoning_rounds ≡ input.max_reasoning_rounds)
    × (b.deadline_at ≡ input.deadline_at)
    × (b.created_at ≡ now)
    × (b.locked_at ≡ none)

asserted_made :
    (env : Platform) (a b : RunEndpointBinding)
    → asserted env a ≡ made b
    → (validate_run_endpoint_binding env a ≡ []) × (a ≡ b)
unfolding asserted
asserted_made env a b e = elim (List-cases (validate_run_endpoint_binding env a)) [
  | inl none_there ↦ (none_there, made_value (rw (none_there, asserted) at e))
  | inr (x, xs, some_there) ↦ absurd (thrown-ne-made (x ∷ xs) b (rw (some_there, asserted) at e))
]

pub bind-able :
    (input : CreateInput) (reasoning execution : AgentEndpoint) (now : ℕ) (env : Platform)
    → can_reason reasoning ≡ true
    → execution.can_execute ≡ true
    → bind input reasoning execution now env
      ≡ asserted env (hashed env (without_hash input reasoning execution now))
unfolding bind
bind-able input reasoning execution now env able executes = rw (able, executes, bind) refl

-- No test of the input fails, its endpoints are registered, the one can reason and the other execute;
-- then the binding is made by `assertRunEndpointBinding`.
abbrev pub Accepted : CreateInput → ℕ → Store → RunEndpointBinding → Type 0
Accepted input now s b =
    (input_errors input s.platform ≡ [])
    × (reasoning : AgentEndpoint) × (execution : AgentEndpoint) × (get_endpoint
          input.reasoning_endpoint_id s.registry
        ≡ some reasoning)
    × (get_endpoint input.execution_endpoint_id s.registry ≡ some execution)
    × (can_reason reasoning ≡ true)
    × (execution.can_execute ≡ true)
    × (asserted s.platform (hashed s.platform (without_hash input reasoning execution now))
        ≡ made b)

bind_made :
    (input : CreateInput) (reasoning execution : AgentEndpoint) (now : ℕ) (env : Platform)
    (b : RunEndpointBinding)
    → bind input reasoning execution now env ≡ made b
    → (can_reason reasoning ≡ true)
      × (execution.can_execute ≡ true)
      × (asserted env (hashed env (without_hash input reasoning execution now)) ≡ made b)
unfolding bind
bind_made input reasoning execution now env b e = elim (Bool-cases (can_reason reasoning)) [
  | inr unable ↦ absurd (thrown-ne-made _ b (rw (unable, bind) at e))
  | inl able ↦ elim (Bool-cases execution.can_execute) [
    | inr unable ↦ absurd (thrown-ne-made _ b (rw (able, unable, bind) at e))
    | inl executes ↦
        (able, executes, sym (bind-able input reasoning execution now env able executes) ∙ e)
  ]
]

pub build_binding-Accepted :
    (input : CreateInput) (now : ℕ) (s : Store) (b : RunEndpointBinding)
    → build_binding input now s ≡ made b
    → Accepted input now s b
unfolding build_binding find_endpoints
build_binding-Accepted input now s b e = elim (List-cases (input_errors input s.platform)) [
  | inr (x, xs, f) ↦ absurd (thrown-ne-made (x ∷ []) b (rw (f, build_binding) at e))
  | inl f ↦ elim (Option-cases (get_endpoint input.reasoning_endpoint_id s.registry)) [
    | inl g ↦ absurd (thrown-ne-made _ b (rw (f, g, build_binding, find_endpoints) at e))
    | inr (reasoning, g) ↦
        elim (Option-cases (get_endpoint input.execution_endpoint_id s.registry)) [
          | inl h ↦ absurd (thrown-ne-made _ b (rw (f, g, h, build_binding, find_endpoints) at e))
          | inr (execution, h) ↦
              let (able, executes, accepted) =
                bind_made input reasoning execution now s.platform b
                  (rw (f, g, h, build_binding, find_endpoints) at e) in
              (f, reasoning, execution, g, h, able, executes, accepted)
        ]
  ]
]

-- A binding that is built has what is promised, and the fields of the input.
pub build_binding-IsBuilt :
    (input : CreateInput) (now : ℕ) (s : Store) (b : RunEndpointBinding)
    → build_binding input now s ≡ made b
    → IsBuilt s.platform b × Fills input now b
unfolding without_hash hashed Within hash_binding_fields endpoint_ref
build_binding-IsBuilt input now s b e =
    let (passed, reasoning, execution, g, h, able, executes, kept) =
      build_binding-Accepted input now s b e in
    let (valid, same) =
      asserted_made s.platform (hashed s.platform (without_hash input reasoning execution now)) b
        kept in
    let (steps, steps', rounds, rounds', tier, tier', project) =
      input_errors-Within input s.platform passed in
    rw (← same) (
      (refl, valid, steps, steps', rounds, rounds', tier, tier', project, executes),
      (refl, refl, refl, refl, refl, refl, refl, refl, refl, refl, refl, refl, refl, refl),
    )
