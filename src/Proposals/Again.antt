-- ===== src/Proposals/Again.antt =====
-- A command under way that is paused and resumed may be dispatched again.
use cli_bridge.Common.{
  made, ℕ, ◌≡◌, refl, ap, Bool, true, String, none, some, [], arith, ◌==◌, nat_eq, string_eq, get,
  set, get-set_self,
}
use cli_bridge.Proposals.Model.{
  ExecutionProposalStatus, confirmed, dispatching, paused, execution_proposal_status_eq,
  artifact_kind_eq, ExecutionProposal, validate_execution_proposal,
}
use cli_bridge.Proposals.Store.{Store, save, update}
use cli_bridge.Proposals.Operations.{mark_dispatching, pause, resume, may_pause, resumed}

pub update_made :
    (allowed : ExecutionProposalStatus → Bool) (reason : String)
    (f : ExecutionProposal → ExecutionProposal) (p : ExecutionProposal) (s : Store)
    → get p.id s.proposals ≡ some p
    → allowed p.status ≡ true
    → validate_execution_proposal (f p) ≡ []
    → update p.id allowed reason f s
      ≡ (made (f p), record s { proposals = set (f p).id (f p) s.proposals })
unfolding update save
update_made allowed reason f p s e a v = rw (e, a, update, v, save) refl

abbrev pub paused_proposal : String → ℕ → ExecutionProposal → ExecutionProposal
paused_proposal reason now p = record p {
  status = paused;
  paused_at = some now;
  failure_reason = some reason;
  updated_at = now;
}

abbrev resumed_proposal : ℕ → ExecutionProposal → ExecutionProposal
resumed_proposal now p = record p {
  status = resumed p.confirmed_at;
  failure_reason = none;
  updated_at = now;
}

abbrev pub dispatched_proposal : ℕ → ExecutionProposal → ExecutionProposal
dispatched_proposal now p = record p {
  status = dispatching;
  dispatching_at = some now;
  updated_at = now;
}

abbrev pub stored : ExecutionProposal → Store → Store
stored p s = record s { proposals = set p.id p s.proposals }

pub pause_made :
    (reason : String) (now : ℕ) (p : ExecutionProposal) (s : Store)
    → get p.id s.proposals ≡ some p
    → p.status ≡ dispatching
    → validate_execution_proposal p ≡ []
    → pause p.id reason now s
      ≡ (made (paused_proposal reason now p), stored (paused_proposal reason now p) s)
unfolding pause validate_execution_proposal
pause_made reason now p s e d v =
    let a : may_pause p.status ≡ true = ground (arith, d) in
    update_made may_pause "proposal-not-pausable" (λ q. paused_proposal reason now q) p s e a v

resume_made :
    (now : ℕ) (p : ExecutionProposal) (s : Store)
    → get p.id s.proposals ≡ some p
    → p.status ≡ paused
    → validate_execution_proposal p ≡ []
    → resume p.id now s ≡ (made (resumed_proposal now p), stored (resumed_proposal now p) s)
unfolding resume validate_execution_proposal
resume_made now p s e d v =
    let a : (p.status == paused) ≡ true = ground (arith, d) in
    update_made (λ status. status == paused) "proposal-not-paused" (λ q. resumed_proposal now q) p s
      e a v

pub mark_dispatching_made :
    (now : ℕ) (p : ExecutionProposal) (s : Store)
    → get p.id s.proposals ≡ some p
    → p.status ≡ confirmed
    → validate_execution_proposal p ≡ []
    → mark_dispatching p.id now s
      ≡ (made (dispatched_proposal now p), stored (dispatched_proposal now p) s)
unfolding mark_dispatching validate_execution_proposal
mark_dispatching_made now p s e d v =
    let a : (p.status == confirmed) ≡ true = ground (arith, d) in
    update_made (λ status. status == confirmed) "proposal-not-confirmed"
      (λ q. dispatched_proposal now q) p s e a v

-- A valid proposal that is dispatching and was confirmed can be paused, resumed and dispatched a
-- second time: the resumption makes it confirmed again, and dispatching is accepted.
pub pause-resume-mark_dispatching :
    (reason : String) (at t1 t2 t3 : ℕ) (p : ExecutionProposal) (s : Store)
    → get p.id s.proposals ≡ some p
    → p.status ≡ dispatching
    → p.confirmed_at ≡ some at
    → validate_execution_proposal p ≡ []
    → (mark_dispatching p.id t3 (resume p.id t2 (pause p.id reason t1 s).1).1).0
      ≡ made (record p {
        status = dispatching;
        paused_at = some t1;
        failure_reason = none;
        dispatching_at = some t3;
        updated_at = t3;
      })
unfolding validate_execution_proposal
pause-resume-mark_dispatching reason at t1 t2 t3 p s e d c v =
    let p1 : ExecutionProposal = paused_proposal reason t1 p in
    let s1 : Store = stored p1 s in
    let p2 : ExecutionProposal = resumed_proposal t2 p1 in
    let s2 : Store = stored p2 s1 in
    let live : p2.status ≡ confirmed = ap resumed c in
    rw
      (
        pause_made reason t1 p s e d v,
        resume_made t2 p1 s1 (get-set_self p.id p1 s.proposals) refl v,
        mark_dispatching_made t3 p2 s2 (get-set_self p.id p2 s1.proposals) live v,
      )
      refl
