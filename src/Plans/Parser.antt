-- ===== src/Plans/Parser.antt =====
-- `parseGoalPlanResult`. A result that is not `ok` is a call that throws its `failureReason`.
use cli_bridge.Common.{
  Attempt, made, thrown, ℕ, suc, Bool, false, not, String, Option, none, some, List, [], ◌∷◌, ◌++◌,
  if◌then◌else◌, ltb, ◌==◌, nat_eq, string_eq, or_else, is_some, length, find, includes, truthy,
}
use Prim.Native.String.{◌++◌ as append}
use cli_bridge.Goals.Model.{Tier, workspace_write, StepStatus, PlanStatus, PlanStep, Plan, tier_eq}
use cli_bridge.Plans.Extract.{strip_json_fence, extract_plan_candidate}
use cli_bridge.Plans.Model.{
  TierEnforcementMode, ParseOptions, ParseInput, PlanTierDowngrade, Platform, RawStep,
  forbidden_execution_fields, kind_of, tier_of,
}
use cli_bridge.Plans.Tiers.{
  normalize_caller_permitted_tiers, coherent_step, permitted_step, each_step,
}
use cli_bridge.Services.Json.{
  Json, obj, JsonObject, json_get, as_string, as_number, as_bool, as_items,
}

abbrev refuse : {A : Type 0} → String → Attempt A
refuse reason = thrown (reason ∷ [])

-- `typeof x === 'string' ? x : d`
abbrev text_or : Option Json → String → String
text_or value d = or_else (as_string value) d

abbrev pub missing_step : String → ℕ → String → RawStep
missing_step plan_id index id = record {
  id = id;
  plan_id = plan_id;
  index = index;
  intent = "";
  kind = "review";
  target_endpoint_id = "";
  tier = "patch-proposal";
  is_state_mutating = false;
}

-- The step of an object, with its identifier and the next random identifier to be drawn.
unfoldable pub read_step : Platform → String → ℕ → ℕ → JsonObject → RawStep × ℕ
read_step env plan_id index drawn fields =
    let given = truthy (as_string (json_get "id" fields)) in
    (
      record {
        id = or_else given (env.uuid drawn);
        plan_id = plan_id;
        index = or_else (as_number (json_get "index" fields)) index;
        intent = text_or (json_get "intent" fields) "";
        kind = text_or (json_get "kind" fields) "review";
        target_endpoint_id = text_or (json_get "targetEndpointId" fields) "";
        tier = text_or (json_get "tier" fields) "patch-proposal";
        is_state_mutating = or_else (as_bool (json_get "isStateMutating" fields)) false;
      },
      if is_some given then drawn else suc drawn,
    )

unfoldable pub normalise_step : Platform → String → ℕ → ℕ → Json → RawStep × ℕ
unfolding read_step
normalise_step env plan_id index drawn (obj fields) = read_step env plan_id index drawn fields
normalise_step env plan_id index drawn _ = (missing_step plan_id index (env.uuid drawn), suc drawn)

unfoldable pub normalise_steps : Platform → String → ℕ → ℕ → List Json → List RawStep × ℕ
unfolding normalise_step
normalise_steps env plan_id index drawn [] = ([], drawn)
normalise_steps env plan_id index drawn (v ∷ vs) =
    let (s, next) = normalise_step env plan_id index drawn v in
    let (ss, last) = normalise_steps env plan_id (suc index) next vs in (s ∷ ss, last)

abbrev error_if : Bool → String → List String
error_if wrong error = if wrong then error ∷ [] else []

abbrev joined : List String → String
joined [] = ""
joined (e ∷ []) = e
joined (e ∷ f ∷ es) = append e (append ", " (joined (f ∷ es)))

-- `validatePlanStep` on the n-th step, which gives the step its kind and its tier.
unfoldable pub typed_step : Platform → ℕ → RawStep → Attempt PlanStep
unfolding kind_of tier_of
typed_step env i s = elim (kind_of s.kind) [
  | none ↦ thrown (
      append "steps[" (
        append (env.show i) (
          append "]: " (
            joined
              ("kind is invalid" ∷ error_if (not (is_some (tier_of s.tier))) "tier is invalid"))))
      ∷ [])
  | some kind ↦ elim (tier_of s.tier) [
    | none ↦ thrown (append "steps[" (append (env.show i) "]: tier is invalid") ∷ [])
    | some tier ↦ made (record {
      id = s.id;
      plan_id = s.plan_id;
      index = s.index;
      intent = s.intent;
      kind = kind;
      target_endpoint_id = s.target_endpoint_id;
      tier = tier;
      is_state_mutating = s.is_state_mutating;
      status = StepStatus.pending;
      output = none;
      failure_reason = none;
    })
  ]
]

abbrev both : Attempt PlanStep → Attempt (List PlanStep) → Attempt (List PlanStep)
both (made p) (made ps) = made (p ∷ ps)
both (made p) (thrown es) = thrown es
both (thrown e) (made ps) = thrown e
both (thrown e) (thrown es) = thrown (e ++ es)

unfoldable pub typed_steps : Platform → ℕ → List RawStep → Attempt (List PlanStep)
unfolding typed_step
typed_steps env i [] = made []
typed_steps env i (s ∷ ss) = let rest = typed_steps env (suc i) ss in both (typed_step env i s) rest

pub record ParseResult : Type 0 where
  pub plan : Plan
  pub downgrades : List PlanTierDowngrade

unfoldable pub assembled : ParseInput → String → Option ℕ → ℕ → List Tier → List PlanStep → Plan
assembled input plan_id created now tiers steps = record {
  id = plan_id;
  goal_id = input.goal_id;
  parent_plan_id = none;
  steps = steps;
  status = PlanStatus.awaiting_approval;
  permitted_tiers = tiers;
  created_at = or_else created now;
  updated_at = now;
  approved_at = none;
  paused_at = none;
  pause_reason = none;
}

-- From the coherent and permitted steps to the plan that `assertPlan` lets through.
unfoldable pub assert_plan :
    Platform → List RawStep → (List PlanStep → Plan) → List PlanTierDowngrade → Attempt ParseResult
unfolding typed_steps
assert_plan env steps plan downgrades = elim (typed_steps env 0 steps) [
  | thrown es ↦ refuse (append "plan-schema-invalid: Invalid Plan: " (joined es))
  | made typed ↦ made (record { plan = plan typed; downgrades = downgrades })
]

unfoldable pub enforce :
    Platform
    → TierEnforcementMode
    → List Tier
    → List RawStep
    → (List PlanStep → Plan)
    → Attempt ParseResult
unfolding each_step coherent_step permitted_step assert_plan
enforce env mode tiers steps plan = elim (each_step (coherent_step env mode) 0 steps) [
  | thrown es ↦ thrown es
  | made (coherent, first) ↦
      elim (each_step (permitted_step env mode (includes workspace_write tiers)) 0 coherent) [
        | thrown es ↦ thrown es
        | made (permitted, second) ↦ assert_plan env permitted plan (first ++ second)
      ]
]

-- `input.id ?? parsed.id ?? randomUUID()`
abbrev pub plan_id_of : Platform → ParseInput → JsonObject → ℕ → String × ℕ
plan_id_of env input fields drawn = elim input.id [
  | some id ↦ (id, drawn)
  | none ↦ elim (as_string (json_get "id" fields)) [
    | some id ↦ (id, drawn)
    | none ↦ (env.uuid drawn, suc drawn)
  ]
]

abbrev pub forbidden_field : JsonObject → Option String
forbidden_field fields = find (λ key. is_some (json_get key fields)) forbidden_execution_fields

abbrev ceiling_error : Platform → ℕ → ℕ → String
ceiling_error env found most = append "plan-step-ceiling-exceeded: plan has " (
    append (env.show found) (
      append " steps but the maximum is " (
        append (env.show most)
          ". Split the goal into smaller sub-goals, or reduce the plan scope.")))

-- What is made of the object that was found.
unfoldable pub parse_fields :
    Platform → ParseInput → ParseOptions → ℕ → ℕ → JsonObject → Attempt ParseResult
unfolding normalise_steps normalize_caller_permitted_tiers enforce assembled
parse_fields env input options now drawn fields =
    let (plan_id, next) = plan_id_of env input fields drawn in
    let raw_steps = as_items (json_get "steps" fields) in
    let (steps, last) = normalise_steps env plan_id 0 next raw_steps in
    if ltb options.max_steps (length raw_steps)
    then refuse (ceiling_error env (length raw_steps) options.max_steps)
    else elim (normalize_caller_permitted_tiers input.permitted_tiers) [
      | thrown es ↦ thrown es
      | made tiers ↦
          enforce env options.tier_enforcement tiers steps
            (assembled input plan_id (as_number (json_get "createdAt" fields)) now tiers)
    ]

-- `parsed.goalId === input.goalId`
abbrev pub names_goal : ParseInput → JsonObject → Bool
names_goal input fields = elim (as_string (json_get "goalId" fields)) [
  | none ↦ false
  | some id ↦ id == input.goal_id
]

unfoldable pub parse_json :
    Platform → ParseInput → ParseOptions → ℕ → ℕ → Option Json → Attempt ParseResult
unfolding parse_fields
parse_json env input options now drawn none = refuse "plan-json-parse-error"
parse_json env input options now drawn (some (obj fields)) =
    if names_goal input fields
    then elim (forbidden_field fields) [
      | some key ↦ refuse (append "plan-forbidden-field:" key)
      | none ↦ parse_fields env input options now drawn fields
    ]
    else refuse "plan-goal-id-mismatch"
parse_json env input options now drawn (some _) = refuse "plan-not-object"

abbrev pub raw_text : ParseInput → ParseOptions → String
raw_text input options = if options.strip_fences then strip_json_fence input.text else input.text

unfoldable pub parse_goal_plan_result :
    Platform → ParseInput → ParseOptions → ℕ → ℕ → Attempt ParseResult
unfolding parse_json
parse_goal_plan_result env input options now drawn =
    elim (extract_plan_candidate env.parse (raw_text input options)) [
      | none ↦ refuse "plan-json-not-found"
      | some candidate ↦ parse_json env input options now drawn (env.parse candidate)
    ]
