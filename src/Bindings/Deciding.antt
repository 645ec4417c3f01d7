-- ===== src/Bindings/Deciding.antt =====
-- Which inputs `createBinding` accepts, and what a derived binding takes over.
use cli_bridge.Common.{
  made, thrown, Attempt-cases, ℕ, ◌≡◌, refl, sym, ap, ◌∙◌, ◌⊎◌, inl, inr, true, false, String, none,
  some, List, [], arith, eq_iff, not, ◌==◌, ◌≤◌, is_blank, or_else, nat_eq, string_eq, Bool-cases,
  get, set,
}
use cli_bridge.Bindings.Store.{merged}
use cli_bridge.Bindings.Model.{
  is_execution_tier, RunEndpointBinding, Platform, validate_run_endpoint_binding,
}
use cli_bridge.Bindings.Hash.{hash_binding_fields}
use cli_bridge.Bindings.Store.{
  Store, CreateInput, input_errors, can_reason, without_hash, hashed, asserted, find_endpoints,
  build_binding, keep, create_binding,
}
use cli_bridge.Bindings.Locking.{
  verified, DeriveInput, inherited, preview_derived_binding, is_locked, commit_binding,
  derive_binding,
}
use cli_bridge.Common.{made_value, thrown-ne-made}
use cli_bridge.Bindings.Building.{
  IsBuilt, Fills, build_binding-IsBuilt, Passed-failures, build_binding-Accepted, bind-able, Passed,
  failures-Passed,
}
use cli_bridge.Bindings.Store.{input_tests}
use cli_bridge.Bindings.Histories.{preview_derived_binding_made}
use cli_bridge.Endpoints.Model.{AgentEndpoint}
use cli_bridge.Endpoints.Registry.{get_endpoint}
use text.Mathlib.TextPositions.{starts_with-append}

-- Nothing that is required is blank, the tiers are those of the roles, the bounds are kept, the project
-- is known, and the deadline is a date.
abbrev pub Proper : CreateInput → Platform → Type 0
Proper input env =
    (is_blank input.goal_id ≡ false)
    × (is_blank input.plan_id ≡ false)
    × (is_blank input.reasoning_endpoint_id ≡ false)
    × (is_blank input.execution_endpoint_id ≡ false)
    × (is_blank input.execution_permission_profile ≡ false)
    × (is_blank input.execution_working_directory_ref ≡ false)
    × (is_blank input.deadline_at ≡ false)
    × (input.reasoning_tier ≡ "high")
    × ((input.execution_tier ≡ "medium") ⊎ (input.execution_tier ≡ "low"))
    × (env.project_exists input.execution_working_directory_ref ≡ true)
    × (1 ≤ input.max_steps)
    × (input.max_steps ≤ 50)
    × (1 ≤ input.max_reasoning_rounds)
    × (input.max_reasoning_rounds ≤ 20)
    × (env.is_date input.deadline_at ≡ true)

-- It accepts prompts, reviews or summarizes.
abbrev pub Reasons : AgentEndpoint → Type 0
Reasons e = (e.can_accept_prompt ≡ true) ⊎ (e.can_review ≡ true) ⊎ (e.can_summarize ≡ true)

-- The input is proper, its endpoints are registered, the one can reason and the other execute.
abbrev pub Acceptable : CreateInput → Store → Type 0
Acceptable input s =
    Proper input s.platform
    × (reasoning : AgentEndpoint) × (execution : AgentEndpoint) × (get_endpoint
          input.reasoning_endpoint_id s.registry
        ≡ some reasoning)
    × (get_endpoint input.execution_endpoint_id s.registry ≡ some execution)
    × Reasons reasoning
    × (execution.can_execute ≡ true)

input_errors-Proper :
    (input : CreateInput) (env : Platform) → input_errors input env ≡ [] → Proper input env
unfolding Passed input_errors
input_errors-Proper input env e =
    let (
      goal,
      (
        plan,
        (
          reasoning,
          (
            execution,
            (
              profile,
              (project, (deadline, (tier, (tier', (known, (steps, (rounds, (date, _)))))))),
            ),
          ),
        ),
      ),
    ) =
      failures-Passed (input_tests input env) e in
    (
      ground (arith, goal),
      ground (arith, plan),
      ground (arith, reasoning),
      ground (arith, execution),
      ground (arith, profile),
      ground (arith, project),
      ground (arith, deadline),
      (eq_iff input.reasoning_tier "high").0 tier,
      elim (Bool-cases (input.execution_tier == "medium")) [
        | inl m ↦ inl ((eq_iff input.execution_tier "medium").0 m)
        | inr m ↦ inr ((eq_iff input.execution_tier "low").0 (ground (arith, m, tier')))
      ],
      known,
      ground (arith, steps),
      ground (arith, steps),
      ground (arith, rounds),
      ground (arith, rounds),
      date,
    )

execution_tier_of :
    (tier : String) → (tier ≡ "medium") ⊎ (tier ≡ "low") → is_execution_tier tier ≡ true
execution_tier_of tier (inl e) = rw e refl
execution_tier_of tier (inr e) = rw e refl

Proper-input_errors :
    (input : CreateInput) (env : Platform) → Proper input env → input_errors input env ≡ []
unfolding Passed input_errors
Proper-input_errors input env
      (
        goal, plan, reasoning, execution, profile, project, deadline, tier, tier', known, s, s', r,
        r', date,
      ) =
    Passed-failures (input_tests input env) (
      ap not goal,
      (
        ap not plan,
        (
          ap not reasoning,
          (
            ap not execution,
            (
              ap not profile,
              (
                ap not project,
                (
                  ap not deadline,
                  (
                    (eq_iff input.reasoning_tier "high").1 tier,
                    (
                      execution_tier_of input.execution_tier tier',
                      (known, (ground arith, (ground arith, (date, tt)))),
                    ),
                  ),
                ),
              ),
            ),
          ),
        ),
      ),
    )

can_reason-Reasons : (e : AgentEndpoint) → can_reason e ≡ true → Reasons e
can_reason-Reasons e able = elim (Bool-cases e.can_accept_prompt) [
  | inl a ↦ inl a
  | inr a ↦ elim (Bool-cases e.can_review) [
    | inl r ↦ inr (inl r)
    | inr r ↦ inr (inr (ground (arith, a, r, able)))
  ]
]

Reasons-can_reason : (e : AgentEndpoint) → Reasons e → can_reason e ≡ true
Reasons-can_reason e (inl a) = ground (arith, a)
Reasons-can_reason e (inr (inl r)) = ground (arith, r)
Reasons-can_reason e (inr (inr z)) = ground (arith, z)

input_valid :
    (input : CreateInput) (reasoning execution : AgentEndpoint) (now : ℕ) (env : Platform)
    → input_errors input env ≡ []
    → validate_run_endpoint_binding env (hashed env (without_hash input reasoning execution now))
      ≡ []
unfolding Passed input_errors validate_run_endpoint_binding hashed without_hash hash_binding_fields
input_valid input reasoning execution now env e =
    let (_, (_, (_, (_, (_, (_, (_, (tier, (execution, (_, (_, (_, (date, _))))))))))))) =
      failures-Passed (input_tests input env) e in
    rw (tier, execution, date, starts_with-append "sha256:" _) refl

build_binding-accepted :
    (input : CreateInput) (now : ℕ) (s : Store)
    → Acceptable input s
    → (b : RunEndpointBinding) × (build_binding input now s ≡ made b)
unfolding build_binding find_endpoints asserted
build_binding-accepted input now s (proper, reasoning, execution, r, x, reasons, executes) =
    let passed = Proper-input_errors input s.platform proper in
    let able = Reasons-can_reason reasoning reasons in
    let b = hashed s.platform (without_hash input reasoning execution now) in
    let valid : asserted s.platform b ≡ made b =
      rw (input_valid input reasoning execution now s.platform passed, asserted) refl in
    (
      b,
      rw (passed, r, x, build_binding, find_endpoints)
          (bind-able input reasoning execution now s.platform able executes ∙ valid),
    )

-- For a plan that has no binding, `createBinding` makes one of the fields of the input, not locked, and
-- stores it, exactly when no required field is blank, the tiers are high and medium or low, there are 1
-- to 50 steps and 1 to 20 rounds, the project is known, the deadline is a date, and the endpoints are
-- registered, the one able to accept prompts, review or summarize and the other to execute; else it
-- throws, and the store stays as it was.
pub create_binding-Acceptable :
    (input : CreateInput) (now : ℕ) (s : Store)
    → get input.plan_id s.bindings ≡ none
    → ((b : RunEndpointBinding) × Acceptable input s
        × Fills input now b
        × (create_binding input now s
            ≡ (made b, record s { bindings = set input.plan_id b s.bindings })))
      ⊎ ((errors : List String) × (¬ Acceptable input s)
          × (create_binding input now s ≡ (thrown errors, s)))
unfolding create_binding keep
create_binding-Acceptable input now s fresh = elim (Attempt-cases (build_binding input now s)) [
  | inr (b, e) ↦
      let (passed, r, x, g, h, able, executes, _) = build_binding-Accepted input now s b e in
      let able' = can_reason-Reasons r able in
      let proper = input_errors-Proper input s.platform passed in
      inl (
        b,
        (proper, r, x, g, h, able', executes),
        (build_binding-IsBuilt input now s b e).1,
        rw (fresh, e, create_binding) refl,
      )
  | inl (es, e) ↦ inr (
    es,
    (λ ok. let (b, f) = build_binding-accepted input now s ok in thrown-ne-made es b (sym e ∙ f)),
    rw (fresh, e, create_binding) refl,
  )
]

-- The store with one more binding.
abbrev pub Stored : Store → RunEndpointBinding → Store → Type 0
Stored s b t = t.bindings ≡ set b.plan_id b s.bindings

commit_binding_made :
    (a b : RunEndpointBinding) (s t : Store)
    → commit_binding a s ≡ (made b, t)
    → (a ≡ b) × (is_locked b.plan_id s ≡ false) × Stored s b t
unfolding commit_binding keep
commit_binding_made a b s t e = elim (Attempt-cases (verified s.platform a)) [
  | inl (es, f) ↦ absurd (thrown-ne-made es b (ap (λ p. p.0) (rw (f, commit_binding) at e)))
  | inr (c, f) ↦ elim (Bool-cases (is_locked a.plan_id s)) [
    | inl g ↦ absurd (thrown-ne-made _ b (ap (λ p. p.0) (rw (f, g, commit_binding) at e)))
    | inr g ↦
        let kept : (made a, record s { bindings = set a.plan_id a s.bindings }) ≡ (made b, t) =
          rw (f, g, commit_binding) at e in
        let same : a ≡ b = made_value (ap (λ p. p.0) kept) in
        rw (← same) (refl, g, sym (ap (λ p. p.1.bindings) kept))
  ]
]

-- What the input gives, and else what the parent has; the plan of the parent is the parent plan.
abbrev pub Inherits : RunEndpointBinding → DeriveInput → ℕ → RunEndpointBinding → Type 0
Inherits parent input now b =
    (b.goal_id ≡ input.goal_id)
    × (b.plan_id ≡ input.plan_id)
    × (b.parent_plan_id ≡ some input.parent_plan_id)
    × (b.reasoning_endpoint_id
        ≡ or_else input.changes.reasoning_endpoint_id parent.reasoning_endpoint_id)
    × (b.execution_endpoint_id
        ≡ or_else input.changes.execution_endpoint_id parent.execution_endpoint_id)
    × (b.reasoning_tier ≡ or_else input.changes.reasoning_tier parent.reasoning_tier)
    × (b.execution_tier ≡ or_else input.changes.execution_tier parent.execution_tier)
    × (b.execution_permission_profile
        ≡ or_else input.changes.execution_permission_profile parent.execution_permission_profile)
    × (b.execution_working_directory_ref
        ≡ or_else input.changes.execution_working_directory_ref
            parent.execution_working_directory_ref)
    × (b.max_steps ≡ or_else input.changes.max_steps parent.max_steps)
    × (b.max_reasoning_rounds
        ≡ or_else input.changes.max_reasoning_rounds parent.max_reasoning_rounds)
    × (b.deadline_at ≡ or_else input.changes.deadline_at parent.deadline_at)
    × (b.created_at ≡ now)
    × (b.locked_at ≡ none)

-- A derived binding.
abbrev pub Derives : DeriveInput → ℕ → Store → RunEndpointBinding → Store → Type 0
Derives input now s b t =
    (parent : RunEndpointBinding) × (get input.parent_plan_id s.bindings ≡ some parent)
    × IsBuilt s.platform b
    × Inherits parent input now b
    × (is_locked input.plan_id s ≡ false)
    × Stored s b t

-- A binding that was derived is built, takes every field that the input does not give from the binding
-- of the parent plan, which has one, names that plan as its parent, and is not locked; it is stored for
-- its plan, which had no locked binding, and every other plan keeps its own.
pub derive_binding-Derives :
    (input : DeriveInput) (now : ℕ) (s t : Store) (b : RunEndpointBinding)
    → derive_binding input now s ≡ (made b, t)
    → Derives input now s b t
unfolding derive_binding inherited merged
derive_binding-Derives input now s t b e =
    elim (Attempt-cases (preview_derived_binding input now s)) [
      | inl (es, f) ↦ absurd (thrown-ne-made es b (ap (λ p. p.0) (rw (f, derive_binding) at e)))
      | inr (a, f) ↦
          let (same, free, stored) = commit_binding_made a b s t (rw (f, derive_binding) at e) in
          let (parent, there, built, fills) =
            preview_derived_binding_made input now s b (f ∙ ap made same) in
          (parent, there, built, fills, rw fills.1 at free, stored)
    ]
