-- ===== src/Goals/Restoring.antt =====
-- Export and hydration of goals and plans: `exportGoals`, `exportPlans`, `hydrateGoal` and `hydratePlan`.
use cli_bridge.Common.{
  ℕ, ◌≡◌, refl, ap, ◌∙◌, Bool, true, false, String, Option, none, some, List, [], ◌∷◌,
  if◌then◌else◌, ◌==◌, nat_eq, string_eq, All, get, set, get-set, values, IsKeyed, set_all,
}
use cli_bridge.Common.{get-set_all_kept}
use cli_bridge.Goals.Model.{Goal, Plan, validate_plan}
use cli_bridge.Goals.Store.{Store, save_goal, save_plan}
use cli_bridge.Goals.Calls.{empty}
use cli_bridge.Goals.Steps.{list_goals, export_plans}

-- `assertGoal` cannot fail on a record of this type.
unfoldable pub hydrate_goal : Goal → Store → Bool × Store
hydrate_goal goal s = (true, save_goal goal s)

unfoldable pub hydrate_plan : Plan → Store → Bool × Store
hydrate_plan plan s = elim (validate_plan plan) [
  | [] ↦
      (true, record (save_plan plan s) { plans_by_goal = set plan.goal_id plan.id s.plans_by_goal })
  | _ ∷ _ ↦ (false, s)
]

-- What the server does with a snapshot: the goals, then the plans, one by one.
abbrev pub hydrate_goals : List Goal → Store → Store
hydrate_goals [] s = s
hydrate_goals (goal ∷ goals) s = hydrate_goals goals (hydrate_goal goal s).1

abbrev pub hydrate_plans : List Plan → Store → Store
hydrate_plans [] s = s
hydrate_plans (plan ∷ plans) s = hydrate_plans plans (hydrate_plan plan s).1

abbrev pub goal_key : Goal → String
goal_key goal = goal.id

abbrev pub plan_key : Plan → String
plan_key plan = plan.id

abbrev pub IsValid : Plan → Type 0
IsValid plan = validate_plan plan ≡ []

-- The identifier of the last of the plans for a goal, or what there was.
unfoldable pub last_for : String → List Plan → Option String → Option String
last_for goal_id [] before = before
last_for goal_id (plan ∷ plans) before =
    last_for goal_id plans (if plan.goal_id == goal_id then some plan.id else before)

hydrate_goals-set_all :
    (goals : List Goal) (s : Store)
    → hydrate_goals goals s ≡ record s { goals = set_all goal_key goals s.goals }
unfolding hydrate_goal set_all
hydrate_goals-set_all [] s = refl
hydrate_goals-set_all (goal ∷ goals) s = hydrate_goals-set_all goals (save_goal goal s)

hydrate_plans-set_all :
    (k : String) (plans : List Plan) (s : Store)
    → All IsValid plans
    → (hydrate_plans plans s).goals ≡ s.goals
      × ((hydrate_plans plans s).plans ≡ set_all plan_key plans s.plans)
      × (get k (hydrate_plans plans s).plans_by_goal ≡ last_for k plans (get k s.plans_by_goal))
unfolding hydrate_plan set_all last_for
hydrate_plans-set_all k [] s v = (refl, refl, refl)
hydrate_plans-set_all k (plan ∷ plans) s v =
    let next : Store = record (save_plan plan s) {
      plans_by_goal = set plan.goal_id plan.id s.plans_by_goal;
    } in
    let (same, stored, last) = hydrate_plans-set_all k plans next v.1 in
    let current = get-set plan.goal_id k plan.id s.plans_by_goal in
    rw (v.0, hydrate_plan, hydrate_plans) (same, stored, last ∙ ap (last_for k plans) current)

-- A store that takes the goals and the plans that another one exports.
abbrev pub restored : Store → Store → Store
restored s blank = hydrate_plans (export_plans s) (hydrate_goals (list_goals s) blank)

-- Goals and plans that are exported and hydrated into a blank store are found as they were, where each
-- stands under its own identifier and the plans are valid; the plan of a goal is then the last of its
-- plans in the order in which they were first stored.
pub export-restored :
    (s : Store) (uuid : ℕ → String) (k : String)
    → IsKeyed goal_key s.goals
    → IsKeyed plan_key s.plans
    → All IsValid (values s.plans)
    → get k (restored s (empty uuid)).goals ≡ get k s.goals
      × (get k (restored s (empty uuid)).plans ≡ get k s.plans)
      × (get k (restored s (empty uuid)).plans_by_goal ≡ last_for k (values s.plans) none)
unfolding list_goals export_plans get
export-restored s uuid k goals plans valid =
    let with_goals : Store = hydrate_goals (values s.goals) (empty uuid) in
    let (same, stored, last) = hydrate_plans-set_all k (values s.plans) with_goals valid in
    let taken = hydrate_goals-set_all (values s.goals) (empty uuid) in
    (
      ap (get k) (same ∙ ap (λ t. t.goals) taken) ∙ get-set_all_kept goal_key k s.goals goals,
      ap (get k) (stored ∙ ap (λ t. set_all plan_key (values s.plans) t.plans) taken)
          ∙ get-set_all_kept plan_key k s.plans plans,
      last ∙ ap (λ t. last_for k (values s.plans) (get k t.plans_by_goal)) taken,
    )
