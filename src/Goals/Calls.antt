-- ===== src/Goals/Calls.antt =====
-- A history of the goal store as a list of timed calls.
use cli_bridge.Common.{ℕ, String, Option, none, some, List, [], ◌∷◌, nat_eq, string_eq}
use cli_bridge.Goals.Model.{goal_status_eq, plan_status_eq, step_status_eq, tier_eq}
use cli_bridge.Goals.Store.{
  Store, CreateGoalInput, create_goal, AttachPlanInput, attach_plan, approve_plan, DerivePlanInput,
  derive_plan,
}
use cli_bridge.Goals.Steps.{
  mark_step_running, block_step_for_gate, approve_step_gate, complete_step, fail_step, cancel_goal,
  pause_plan,
}

pub data Call : Type 0 where
  creates : CreateGoalInput → Call
  attaches : AttachPlanInput → Call
  approves : String → Call
  derives : DerivePlanInput → Call
  starts blocks passes : String → String → Call
  completes : String → String → Option String → Call
  fails : String → String → String → Call
  cancels : String → Call
  pauses : String → String → Call

-- A call that is answered with `undefined` leaves the store as it was.
abbrev pub after : {R : Type 0} → Store → Option (R × Store) → Store
after s none = s
after s (some (r, t)) = t

unfoldable pub step : Store → ℕ × Call → Store
step s (now, creates input) = (create_goal input now s).1
step s (now, attaches input) = after s (attach_plan input now s)
step s (now, approves goal) = after s (approve_plan goal now s)
step s (now, derives input) = after s (derive_plan input now s)
step s (now, starts goal id) = after s (mark_step_running goal id now s)
step s (now, blocks goal id) = after s (block_step_for_gate goal id now s)
step s (now, passes goal id) = after s (approve_step_gate goal id now s)
step s (now, completes goal id output) = after s (complete_step goal id output now s)
step s (now, fails goal id reason) = after s (fail_step goal id reason now s)
step s (now, cancels goal) = after s (cancel_goal goal now s)
step s (now, pauses goal reason) = after s (pause_plan goal reason now s)

unfoldable pub run : Store → List (ℕ × Call) → Store
unfolding step
run s [] = s
run s (c ∷ cs) = run (step s c) cs

-- The steps whose gate a call asks to approve, and those of a history on top of the given ones.
abbrev pub gates_of : Call → List String → List String
gates_of (passes goal id) gates = id ∷ gates
gates_of _ gates = gates

abbrev pub gates : List (ℕ × Call) → List String → List String
gates [] before = before
gates (c ∷ cs) before = gates cs (gates_of c.1 before)

-- A store before any call.
abbrev pub empty : (ℕ → String) → Store
empty uuid = record { uuid = uuid; drawn = 0; goals = []; plans = []; plans_by_goal = [] }
