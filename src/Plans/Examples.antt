-- ===== src/Plans/Examples.antt =====
-- The theorem about the parser at an answer with one step, in a fence.
use cli_bridge.Plans.Extract.{trim_end, trim_start}
use cli_bridge.Services.Json.{json_get}
use cli_bridge.Common.{
  made, ◌≡◌, refl, false, none, some, [], ◌∷◌, if◌then◌else◌, ◌==◌, nat_eq, string_eq,
}
use cli_bridge.Goals.Model.{StepKind, patch_proposal, StepStatus, PlanStep, tier_eq}
use cli_bridge.Plans.Extract.{Parse, strip_json_fence, extract_plan_candidate}
use cli_bridge.Plans.Model.{default_options, ParseInput, Platform, is_mutating}
use cli_bridge.Plans.Parser.{ParseResult, assembled, parse_goal_plan_result}
use cli_bridge.Services.Json.{
  Json, null, bool, num, str, list, obj, JsonObject, JsonArray, end, field, done, item,
}
use cli_bridge.Plans.Parsing.{Parsed, parse_goal_plan_result-Parsed}

-- A parser that knows one text.
abbrev the_plan : Json
the_plan = obj (
    field "goalId" (str "g") (
      field "steps"
        (list (
          item
            (obj (
              field "intent" (str "look")
                (field "kind" (str "review") (field "tier" (str "patch-proposal") end))))
            done))
        end))

abbrev platform : Platform
platform = record {
  parse = λ text. if text == "{plan}" then some the_plan else none;
  uuid = λ n. "u";
  show = λ n. "n";
}

abbrev input : ParseInput
input = record {
  text = "```json {plan}```";
  goal_id = "g";
  permitted_tiers = some ("patch-proposal" ∷ []);
  id = none;
}

strips : strip_json_fence input.text ≡ "{plan}"
unfolding strip_json_fence
strips = refl

finds : extract_plan_candidate platform.parse "See: {plan}" ≡ some "{plan}"
unfolding extract_plan_candidate cli_bridge.Plans.Extract.trim_end
    cli_bridge.Plans.Extract.trim_start cli_bridge.Services.Json.json_get
finds = refl

-- A brace that is closed before any is opened keeps the plan from being found.
misses : extract_plan_candidate platform.parse "} {plan}" ≡ none
unfolding extract_plan_candidate cli_bridge.Plans.Extract.trim_end
    cli_bridge.Plans.Extract.trim_start
misses = refl

abbrev the_step : PlanStep
the_step = record {
  id = "u";
  plan_id = "u";
  index = 0;
  intent = "look";
  kind = StepKind.review;
  target_endpoint_id = "";
  tier = patch_proposal;
  is_state_mutating = false;
  status = StepStatus.pending;
  output = none;
  failure_reason = none;
}

abbrev result : ParseResult
result = record {
  plan = assembled input "u" none 50 (patch_proposal ∷ []) (the_step ∷ []);
  downgrades = [];
}

parses : parse_goal_plan_result platform input default_options 50 0 ≡ made result
unfolding parse_goal_plan_result extract_plan_candidate cli_bridge.Plans.Extract.trim_end
    cli_bridge.Plans.Extract.trim_start strip_json_fence cli_bridge.Services.Json.json_get
    is_mutating
parses = refl

parse_goal_plan_result-Parsed_example : Parsed input default_options result.plan
parse_goal_plan_result-Parsed_example =
    parse_goal_plan_result-Parsed platform input default_options 50 0 result parses
