-- ===== src/Plans/Parsing.antt =====
-- A plan that the parser lets through, from the answer of the model to the result.
use cli_bridge.Common.{
  made, Attempt-cases, ℕ, suc, ◌≤◌, ◌≡◌, refl, ap, ◌∙◌, inl, inr, true, false, not, ◌&&◌, String,
  Option, none, some, List, [], ◌∷◌, arith, ltb, ◌==◌, nat_eq, string_eq, Bool-cases, Option-cases,
  length, All, All-map, includes,
}
use cli_bridge.Goals.Model.{
  Tier, patch_proposal, workspace_write, StepStatus, PlanStatus, PlanStep, Plan, tier_eq,
  is_state_mutating_kind, is_step_tier_permitted,
}
use cli_bridge.Plans.Extract.{extract_plan_candidate}
use cli_bridge.Plans.Model.{
  TierEnforcementMode, ParseOptions, ParseInput, Platform, RawStep, tier_of,
}
use cli_bridge.Plans.Tiers.{
  normalize_from, normalize_caller_permitted_tiers, coherent_step, permitted_step, each_step,
}
use cli_bridge.Plans.Parser.{
  read_step, normalise_step, normalise_steps, typed_steps, ParseResult, assembled, assert_plan,
  enforce, plan_id_of, parse_fields, parse_json, parse_goal_plan_result, names_goal,
  forbidden_field, raw_text,
}
use cli_bridge.Common.{made_value, thrown-ne-made}
use cli_bridge.Plans.Safety.{
  AllowedStep, SafeStep, Coherent, Of, coherent_step-Coherent, permitted_step-Allowed,
  each_step-All, typed_steps-SafeStep,
}
use cli_bridge.Services.Json.{
  Json, null, bool, num, str, list, obj, JsonObject, json_get, as_number, as_items,
}

normalize_from-includes :
    (texts : List String) (tiers ts : List Tier)
    → normalize_from texts tiers ≡ made ts
    → includes patch_proposal ts ≡ true
unfolding normalize_from
normalize_from-includes [] tiers ts e = elim (Bool-cases (includes patch_proposal tiers)) [
  | inl f ↦ let same : tiers ≡ ts = made_value (rw (f, normalize_from) at e) in rw (← same) f
  | inr f ↦ absurd (thrown-ne-made _ ts (rw (f, normalize_from) at e))
]
normalize_from-includes (x ∷ xs) tiers ts e = elim (Option-cases (tier_of x)) [
  | inl f ↦ absurd (thrown-ne-made _ ts (rw (f, normalize_from) at e))
  | inr (t, f) ↦ normalize_from-includes xs _ ts (rw (f, normalize_from) at e)
]

normalize_caller_permitted_tiers-includes :
    (given : Option (List String)) (ts : List Tier)
    → normalize_caller_permitted_tiers given ≡ made ts
    → includes patch_proposal ts ≡ true
unfolding normalize_caller_permitted_tiers
normalize_caller_permitted_tiers-includes none ts e =
    let same : patch_proposal ∷ [] ≡ ts = made_value e in rw (← same) refl
normalize_caller_permitted_tiers-includes (some []) ts e = absurd (thrown-ne-made _ ts e)
normalize_caller_permitted_tiers-includes (some (x ∷ xs)) ts e =
    normalize_from-includes (x ∷ xs) [] ts e

normalise_step-Of :
    (env : Platform) (plan_id : String) (index drawn : ℕ) (v : Json)
    → Of plan_id (normalise_step env plan_id index drawn v).0
unfolding normalise_step read_step
normalise_step-Of env plan_id index drawn null = refl
normalise_step-Of env plan_id index drawn (bool b) = refl
normalise_step-Of env plan_id index drawn (num n) = refl
normalise_step-Of env plan_id index drawn (str t) = refl
normalise_step-Of env plan_id index drawn (list vs) = refl
normalise_step-Of env plan_id index drawn (obj fields) = refl

normalise_steps-Of :
    (env : Platform) (plan_id : String) (index drawn : ℕ) (vs : List Json)
    → All (Of plan_id) (normalise_steps env plan_id index drawn vs).0
      × (length (normalise_steps env plan_id index drawn vs).0 ≡ length vs)
unfolding normalise_steps
normalise_steps-Of env plan_id index drawn [] = (tt, refl)
normalise_steps-Of env plan_id index drawn (v ∷ vs) =
    let ih =
      normalise_steps-Of env plan_id (suc index) (normalise_step env plan_id index drawn v).1 vs in
    ((normalise_step-Of env plan_id index drawn v, ih.0), ap suc ih.1)

-- The plan awaits its approval; its steps are pending, write to the workspace just where their kind
-- changes state, and do so only with a tier that is among the permitted ones.
abbrev pub IsSafe : Plan → Type 0
IsSafe plan =
    (plan.status ≡ PlanStatus.awaiting_approval)
    × All
        (λ (p : PlanStep).
          (p.plan_id ≡ plan.id)
          × (p.status ≡ StepStatus.pending)
          × (is_state_mutating_kind p.kind ≡ (p.tier == workspace_write))
          × (is_step_tier_permitted plan p ≡ true))
        plan.steps

tier-included :
    (tier : Tier) (tiers : List Tier)
    → includes patch_proposal tiers ≡ true
    → (tier == workspace_write) && not (includes workspace_write tiers) ≡ false
    → includes tier tiers ≡ true
tier-included patch_proposal tiers patch allowed = patch
tier-included workspace_write tiers patch allowed = ground arith

enforce_made :
    (env : Platform) (mode : TierEnforcementMode) (tiers : List Tier) (plan_id : String)
    (steps : List RawStep) (plan : List PlanStep → Plan) (r : ParseResult)
    → All (Of plan_id) steps
    → enforce env mode tiers steps plan ≡ made r
    → (typed : List PlanStep) × All (SafeStep (includes workspace_write tiers) plan_id) typed
      × (length typed ≡ length steps)
      × (plan typed ≡ r.plan)
unfolding enforce assert_plan
enforce_made env mode tiers plan_id steps plan r own e =
    let permitted = includes workspace_write tiers in
    elim (Attempt-cases (each_step (coherent_step env mode) 0 steps)) [
      | inl (es, f) ↦ absurd (thrown-ne-made es r (rw (f, enforce) at e))
      | inr ((coherent, first), f) ↦
          elim (Attempt-cases (each_step (permitted_step env mode permitted) 0 coherent)) [
            | inl (es, g) ↦ absurd (thrown-ne-made es r (rw (f, g, enforce) at e))
            | inr ((allowed, second), g) ↦ elim (Attempt-cases (typed_steps env 0 allowed)) [
              | inl (es, k) ↦ absurd (thrown-ne-made _ r (rw (f, g, k, enforce, assert_plan) at e))
              | inr (typed, k) ↦
                  let kept =
                    each_step-All (Of plan_id) (λ s. Of plan_id s × Coherent s)
                      (coherent_step env mode) 0 steps coherent first
                      (λ n s c o h. coherent_step-Coherent env mode n plan_id s c o h) own f in
                  let kept' =
                    each_step-All (λ s. Of plan_id s × Coherent s) (AllowedStep permitted plan_id)
                      (permitted_step env mode permitted) 0 coherent allowed second
                      (λ n s c o h.
                        let (same, free) = permitted_step-Allowed env mode permitted n s c o.1 h in
                        rw same (o.0, o.1, free))
                      kept.0 g in
                  let safe = typed_steps-SafeStep env permitted plan_id 0 allowed typed kept'.0 k in
                  (
                    typed,
                    safe.0,
                    safe.1 ∙ kept'.1 ∙ kept.1,
                    ap (λ (x : ParseResult). x.plan)
                        (made_value (rw (f, g, k, enforce, assert_plan) at e)),
                  )
            ]
          ]
    ]

-- What is known of a result: its plan is for the goal that was asked for, permits what the caller does,
-- has no more steps than may be, and is safe.
abbrev pub Parsed : ParseInput → ParseOptions → Plan → Type 0
Parsed input options plan =
    (plan.goal_id ≡ input.goal_id)
    × (normalize_caller_permitted_tiers input.permitted_tiers ≡ made plan.permitted_tiers)
    × (length plan.steps ≤ options.max_steps)
    × IsSafe plan

parse_fields-Parsed :
    (env : Platform) (input : ParseInput) (options : ParseOptions) (now drawn : ℕ)
    (fields : JsonObject) (r : ParseResult)
    → parse_fields env input options now drawn fields ≡ made r
    → Parsed input options r.plan
unfolding parse_fields assembled is_step_tier_permitted
parse_fields-Parsed env input options now drawn fields r e =
    let (plan_id, next) = plan_id_of env input fields drawn in
    let raw = as_items (json_get "steps" fields) in
    elim (Bool-cases (ltb options.max_steps (length raw))) [
      | inl f ↦ absurd (thrown-ne-made _ r (rw (f, parse_fields) at e))
      | inr f ↦ elim (Attempt-cases (normalize_caller_permitted_tiers input.permitted_tiers)) [
        | inl (es, g) ↦ absurd (thrown-ne-made es r (rw (f, g, parse_fields) at e))
        | inr (tiers, g) ↦
            let own = normalise_steps-Of env plan_id 0 next raw in
            let (typed, safe, count, same) =
              enforce_made env options.tier_enforcement tiers plan_id
                (normalise_steps env plan_id 0 next raw).0
                (assembled input plan_id (as_number (json_get "createdAt" fields)) now tiers) r
                own.0 (rw (f, g, parse_fields) at e) in
            let bound : length typed ≤ options.max_steps = ground (arith, count, own.1) in
            rw (← same) (
              refl,
              g,
              bound,
              (
                refl,
                All-map
                    (λ p (o, pending, coherent, allowed). (
                      o,
                      pending,
                      coherent,
                      tier-included p.tier tiers
                          (normalize_caller_permitted_tiers-includes input.permitted_tiers tiers g)
                          allowed,
                    ))
                    typed safe,
              ),
            )
      ]
    ]

parse_json-Parsed :
    (env : Platform) (input : ParseInput) (options : ParseOptions) (now drawn : ℕ) (v : Option Json)
    (r : ParseResult)
    → parse_json env input options now drawn v ≡ made r
    → Parsed input options r.plan
unfolding parse_json
parse_json-Parsed env input options now drawn none r e = absurd (thrown-ne-made _ r e)
parse_json-Parsed env input options now drawn (some null) r e = absurd (thrown-ne-made _ r e)
parse_json-Parsed env input options now drawn (some (bool b)) r e = absurd (thrown-ne-made _ r e)
parse_json-Parsed env input options now drawn (some (num n)) r e = absurd (thrown-ne-made _ r e)
parse_json-Parsed env input options now drawn (some (str t)) r e = absurd (thrown-ne-made _ r e)
parse_json-Parsed env input options now drawn (some (list vs)) r e = absurd (thrown-ne-made _ r e)
parse_json-Parsed env input options now drawn (some (obj fields)) r e =
    elim (Bool-cases (names_goal input fields)) [
      | inr f ↦ absurd (thrown-ne-made _ r (rw (f, parse_json) at e))
      | inl f ↦ elim (Option-cases (forbidden_field fields)) [
        | inr (key, g) ↦ absurd (thrown-ne-made _ r (rw (f, g, parse_json) at e))
        | inl g ↦
            parse_fields-Parsed env input options now drawn fields r (rw (f, g, parse_json) at e)
      ]
    ]

-- Whatever a model answers, a plan that the parser returns is for the goal that was asked for, permits
-- the tiers that the caller permits and no others, has no more steps than the options allow, awaits its
-- approval, and all its steps are pending, write to the workspace just where their kind changes state,
-- and have a permitted tier; so no answer gains the right to write, in either mode of enforcement.
pub parse_goal_plan_result-Parsed :
    (env : Platform) (input : ParseInput) (options : ParseOptions) (now drawn : ℕ) (r : ParseResult)
    → parse_goal_plan_result env input options now drawn ≡ made r
    → Parsed input options r.plan
unfolding parse_goal_plan_result
parse_goal_plan_result-Parsed env input options now drawn r e =
    elim (Option-cases (extract_plan_candidate env.parse (raw_text input options))) [
      | inl f ↦ absurd (thrown-ne-made _ r (rw (f, parse_goal_plan_result) at e))
      | inr (candidate, f) ↦
          parse_json-Parsed env input options now drawn (env.parse candidate) r
            (rw (f, parse_goal_plan_result) at e)
    ]
