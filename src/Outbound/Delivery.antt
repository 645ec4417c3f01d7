-- ===== src/Outbound/Delivery.antt =====
-- The life of an outbound prompt after its creation: `claimNext`, `acknowledge`, the `mark…`
-- transitions and `cancel` of apps/local-server/src/storage/outbound-prompt-store.ts.
use cli_bridge.Common.{
  ℕ, Bool, true, false, not, ◌&&◌, String, Option, none, some, if◌then◌else◌, ltb, ◌==◌, nat_eq,
  string_eq, or_else, filter, head?, get, values, sort_by, is_empty,
}
use cli_bridge.Services.Json.{str, obj, end, field}
use cli_bridge.Services.Audit.{
  claim_outbound_prompt, fill_chatgpt, operation_failed, operation_cancelled, Outcome, succeeded,
  failed_with,
}
use cli_bridge.Services.Packets.{random_uuid}
use cli_bridge.Outbound.Prompts.{
  OutboundStatus, queued, claimed, waiting_manual_send, submitted, responding, response_ready,
  returned, failed, cancelled, status_eq, OutboundPrompt, append_evidence,
}
use cli_bridge.Outbound.Store.{
  Store, prompt_event, save, audit, is_pending, is_terminal, expire, recover_stale_claims,
}

staged : String → Outcome
staged stage = record {
  ok = true;
  failure_reason = none;
  metadata = some (obj (field "stage" (str stage) end));
}

unfoldable pub submit : ℕ → OutboundPrompt → OutboundPrompt
unfolding append_evidence
submit now p =
    append_evidence "submitted" now none
      (record p { status = submitted; submitted_at = some now; updated_at = now })

unfoldable pub mark_submitted : String → ℕ → Store → Option OutboundPrompt × Store
unfolding staged
mark_submitted id now s = elim (get id s.prompts) [
  | none ↦ (none, s)
  | some p ↦
      if not (p.status == waiting_manual_send)
      then (none, s)
      else (if ltb p.expires_at now
          then (none, save (expire now p) s)
          else (let q = submit now p in
              (
                some q,
                audit (prompt_event fill_chatgpt "chatgpt-web" none (staged "submitted") now q)
                    (save q s),
              )))
]

-- The time field that `transition` sets: only these three targets have one.
unfoldable pub stamp : OutboundStatus → ℕ → OutboundPrompt → OutboundPrompt
stamp responding now p = record p { responding_at = some now }
stamp response_ready now p = record p { response_ready_at = some now }
stamp returned now p = record p { returned_at = some now }
stamp _ now p = p

unfoldable pub move_to : OutboundStatus → String → ℕ → OutboundPrompt → OutboundPrompt
unfolding stamp append_evidence
move_to to type now p =
    append_evidence type now none
      (record (stamp to now (record p { status = to })) { updated_at = now })

unfoldable pub transition :
    String → OutboundStatus → OutboundStatus → String → ℕ → Store → Option OutboundPrompt × Store
transition id from to type now s = elim (get id s.prompts) [
  | none ↦ (none, s)
  | some p ↦
      if p.status == from then (let q = move_to to type now p in (some q, save q s)) else (none, s)
]

unfoldable pub mark_responding : String → ℕ → Store → Option OutboundPrompt × Store
unfolding transition
mark_responding id = transition id submitted responding "responding"

unfoldable pub mark_response_ready : String → ℕ → Store → Option OutboundPrompt × Store
unfolding transition
mark_response_ready id = transition id responding response_ready "response-ready"

unfoldable pub mark_returned : String → ℕ → Store → Option OutboundPrompt × Store
unfolding transition
mark_returned id = transition id response_ready returned "returned"

unfoldable pub fail_prompt : String → ℕ → OutboundPrompt → OutboundPrompt
unfolding append_evidence
fail_prompt reason now p = append_evidence "failed" now (some reason) (record p {
  status = failed;
  failed_at = some now;
  failure_reason = some reason;
  updated_at = now;
})

-- The claim token stays where it is.
unfoldable pub mark_failed : String → String → ℕ → Store → Option OutboundPrompt × Store
mark_failed id reason now s = elim (get id s.prompts) [
  | none ↦ (none, s)
  | some p ↦
      if is_terminal p.status
      then (none, s)
      else (let q = fail_prompt reason now p in (some q, save q s))
]

abbrev pub is_queued : OutboundPrompt → Bool
is_queued p = p.status == queued

unfoldable pub claim_prompt : String → ℕ → OutboundPrompt → OutboundPrompt
unfolding append_evidence
claim_prompt token now p = append_evidence "claimed" now none (record p {
  status = claimed;
  claimed_at = some now;
  claim_token = some token;
  updated_at = now;
})

unfoldable pub claim : ℕ → Store → OutboundPrompt → OutboundPrompt × Store
unfolding random_uuid
claim now s p =
    let (token, services) = random_uuid s.services in
    let q = claim_prompt token now p in
    let s' : Store = record s { services = services } in
    (q, audit (prompt_event claim_outbound_prompt "chatgpt-web" none succeeded now q) (save q s'))

-- The head of the queue: the oldest queued prompt, the first of equals.
unfoldable pub next_queued : Store → Option OutboundPrompt
next_queued s =
    head? (sort_by (λ (p : OutboundPrompt). p.created_at) (filter is_queued (values s.prompts)))

unfoldable pub claim_next : ℕ → Store → Option OutboundPrompt × Store
unfolding claim next_queued recover_stale_claims
claim_next now s =
    let s' = recover_stale_claims now s in
    elim (next_queued s') [
      | none ↦ (none, s')
      | some p ↦ (let (q, t) = claim now s' p in (some q, t))
    ]

pub record AcknowledgeInput : Type 0 where
  pub id : String
  pub claim_token : String
  pub ok : Bool
  pub failure_reason : Option String

-- The token is there, is not empty, and is the one that the caller shows.
abbrev pub holds_token : Option String → String → Bool
holds_token none given = false
holds_token (some token) given = not (is_empty token) && token == given

unfoldable pub filled : ℕ → OutboundPrompt → OutboundPrompt
filled now p = append_evidence "waiting-manual-send" now none (
    append_evidence "filled-and-acknowledged" now none (record p {
      status = waiting_manual_send;
      delivered_at = some now;
      waiting_at = some now;
      failure_reason = none;
    }))

unfoldable pub unfilled : Option String → ℕ → OutboundPrompt → OutboundPrompt
unfilled reason now p =
    let why = or_else reason "chatgpt-fill-failed" in
    append_evidence "failed" now (some why)
      (record p { status = failed; failed_at = some now; failure_reason = some why })

unfoldable pub settle : AcknowledgeInput → ℕ → OutboundPrompt → OutboundPrompt
unfolding append_evidence filled unfilled
settle input now p =
    let open_prompt : OutboundPrompt = record p { claim_token = none } in
    let q : OutboundPrompt =
      if input.ok then filled now open_prompt else unfilled input.failure_reason now open_prompt in
    record q { updated_at = now }

acknowledged : Bool → OutboundPrompt → Outcome
acknowledged true q = succeeded
acknowledged false q = failed_with q.failure_reason

unfoldable pub acknowledge : AcknowledgeInput → ℕ → Store → Option OutboundPrompt × Store
unfolding acknowledged
acknowledge input now s = elim (get input.id s.prompts) [
  | none ↦ (none, s)
  | some p ↦
      if p.status == claimed && holds_token p.claim_token input.claim_token
      then (let q = settle input now p in
          (
            some q,
            audit
                (prompt_event (if input.ok then fill_chatgpt else operation_failed) "chatgpt-web"
                  none (acknowledged input.ok q) now q)
                (save q s),
          ))
      else (none, s)
]

unfoldable pub cancel_prompt : ℕ → OutboundPrompt → OutboundPrompt
unfolding append_evidence
cancel_prompt now p =
    append_evidence "cancelled" now none (record p {
      status = cancelled;
      cancelled_at = some now;
      claim_token = none;
      updated_at = now;
    })

unfoldable pub cancel : String → ℕ → Store → Option OutboundPrompt × Store
cancel id now s = elim (get id s.prompts) [
  | none ↦ (none, s)
  | some p ↦
      if is_pending p.status
      then (let q = cancel_prompt now p in
          (
            some q,
            audit (prompt_event operation_cancelled "local-server" none succeeded now q) (save q s),
          ))
      else (none, s)
]
