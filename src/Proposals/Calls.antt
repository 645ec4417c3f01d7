-- ===== src/Proposals/Calls.antt =====
-- Histories of the store of execution proposals.
use cli_bridge.Common.{ℕ, String, List, [], ◌∷◌, nat_eq, string_eq}
use cli_bridge.Proposals.Model.{execution_proposal_status_eq, artifact_kind_eq, RunResult}
use cli_bridge.Proposals.Store.{Platform, Store, CreateInput, create_draft}
use cli_bridge.Proposals.Operations.{
  ConfirmInput, request_confirmation, confirm, edit, EditInput, mark_dispatching, mark_returned,
  mark_failed, pause, resume, cancel,
}

pub data Call : Type 0 where
  drafts : CreateInput → Call
  requests dispatches resumes cancels : String → Call
  confirms : ConfirmInput → Call
  edits : String → EditInput → Call
  returns : String → RunResult → Call
  fails pauses : String → String → Call

unfoldable pub step : Store → ℕ × Call → Store
step s (now, drafts input) = (create_draft input now s).1
step s (now, requests id) = (request_confirmation id now s).1
step s (now, confirms input) = (confirm input now s).1
step s (now, edits id input) = (edit id input now s).1
step s (now, dispatches id) = (mark_dispatching id now s).1
step s (now, returns id result) = (mark_returned id result now s).1
step s (now, fails id reason) = (mark_failed id reason now s).1
step s (now, pauses id reason) = (pause id reason now s).1
step s (now, resumes id) = (resume id now s).1
step s (now, cancels id) = (cancel id now s).1

unfoldable pub run : Store → List (ℕ × Call) → Store
unfolding step
run s [] = s
run s (c ∷ cs) = run (step s c) cs

-- The confirmations that a call gives, with their time, and those of a history on top of the given ones.
abbrev pub grants_of : ℕ × Call → List (ℕ × ConfirmInput) → List (ℕ × ConfirmInput)
grants_of (now, confirms input) gs = (now, input) ∷ gs
grants_of (now, _) gs = gs

abbrev pub grants : List (ℕ × Call) → List (ℕ × ConfirmInput) → List (ℕ × ConfirmInput)
grants [] before = before
grants (c ∷ cs) before = grants cs (grants_of c before)

-- A store before any call.
abbrev pub empty : Platform → Store
empty env = record { platform = env; drawn = 0; proposals = [] }
