-- ===== src/Outbound/Tokens.antt =====
-- Claim tokens: who may acknowledge a prompt, how often, and how long.
use cli_bridge.Common.{
  ℕ, ◌-◌, ◌<◌, ◌≡◌, refl, ap, ◌∙◌, inl, inr, Bool, true, false, ◌&&◌, String, Option, none, some,
  arith, eq_iff, if◌then◌else◌, ◌==◌, nat_eq, string_eq, Bool-cases, Option-cases, get,
  get-set_self, get-map_values, get-IsKeyed, is_empty,
}
use cli_bridge.Outbound.Prompts.{
  OutboundStatus, claimed, waiting_manual_send, failed, status_eq, OutboundPrompt,
}
use mathlib.Core.Option
use cli_bridge.Outbound.Store.{
  Store, recover_prompt, recover_stale_claims, is_terminal, claimed_ttl,
}
use cli_bridge.Outbound.Delivery.{
  AcknowledgeInput, claim_next, claim, acknowledge, settle, holds_token,
}
use cli_bridge.Outbound.Calls.{HasKeys, prompt_id, content}
use cli_bridge.Outbound.Lifecycle.{
  recover-HasKeys, next_queued-get, claim_next_cases, claim-Acts, Acts-Advances, Advances-terminal,
}

-- What an acknowledgement does, on every branch.
abbrev pub Settles : AcknowledgeInput → Store → Option OutboundPrompt × Store → Type 0
Settles input s (none, t) =
    (t ≡ s)
    × ((p : OutboundPrompt)
        → get input.id s.prompts ≡ some p
        → p.status ≡ claimed
        → p.claim_token ≡ some input.claim_token
        → is_empty input.claim_token ≡ true)
Settles input s (some q, t) =
    (p : OutboundPrompt) × (get input.id s.prompts ≡ some p)
    × (p.status ≡ claimed)
    × (p.claim_token ≡ some input.claim_token)
    × (is_empty input.claim_token ≡ false)
    × (content q ≡ content p)
    × (q.status ≡ (if input.ok then waiting_manual_send else failed))
    × (q.claim_token ≡ none)
    × (get input.id t.prompts ≡ some q)

holds_token_iff :
    (token : Option String) (given : String)
    → holds_token token given ≡ true
    → (token ≡ some given) × (is_empty given ≡ false)
holds_token_iff none given h = absurd (cc)
holds_token_iff (some token) given h = ground (arith, eq_iff token given, ap is_empty)

holds_token_of :
    (token : Option String) (given : String)
    → token ≡ some given
    → is_empty given ≡ false
    → holds_token token given ≡ true
holds_token_of token given e h = rw (e, h) ((eq_iff given given).1 refl)

settle_status :
    (input : AcknowledgeInput) (now : ℕ) (p : OutboundPrompt)
    → ((settle input now p).status ≡ (if input.ok then waiting_manual_send else failed))
      × ((settle input now p).claim_token ≡ none)
      × (content (settle input now p) ≡ content p)
unfolding settle
settle_status input now p = elim (Bool-cases input.ok) [
  | inl e ↦ rw (e, settle) (refl, refl, refl)
  | inr e ↦ rw (e, settle) (refl, refl, refl)
]

refuses :
    (input : AcknowledgeInput) (s : Store) (p : OutboundPrompt)
    → get input.id s.prompts ≡ some p
    → (p.status == claimed && holds_token p.claim_token input.claim_token) ≡ false
    → Settles input s (none, s)
refuses input s p e h = (
  refl,
  λ r e' held token.
      let same : r ≡ p = ground arith in
      elim (Bool-cases (is_empty input.claim_token)) [
        | inl empty ↦ empty
        | inr full ↦
            let holds = holds_token_of r.claim_token input.claim_token token full in
            ground (
              arith,
              ap (λ (x : OutboundPrompt). x.status) same,
              ap (λ (x : OutboundPrompt). holds_token x.claim_token input.claim_token) same,
            )
      ],
)

-- An acknowledgement takes effect exactly when the prompt is claimed under the token that the caller
-- shows, and that token is not empty: then the prompt waits for the manual send, or has failed, and
-- its token is gone; else the store is as it was.
pub acknowledge-Settles :
    (input : AcknowledgeInput) (now : ℕ) (s : Store)
    → HasKeys s
    → Settles input s (acknowledge input now s)
unfolding acknowledge
acknowledge-Settles input now s h = elim (Option-cases (get input.id s.prompts)) [
  | inl e ↦ rw (e, acknowledge) (refl, λ p e'. absurd (cc))
  | inr (p, e) ↦
      elim (Bool-cases (p.status == claimed && holds_token p.claim_token input.claim_token)) [
        | inl w ↦
            let (status, token, same) = settle_status input now p in
            let held = holds_token_iff p.claim_token input.claim_token (ground arith) in
            let own : (settle input now p).id ≡ input.id =
              ap (λ c. c.id) same ∙ get-IsKeyed prompt_id input.id p s.prompts h e in
            rw (e, w, acknowledge)
              (
                p,
                e,
                ground arith,
                held.0,
                held.1,
                same,
                status,
                token,
                rw own (get-set_self input.id _ s.prompts),
              )
        | inr w ↦ rw (e, w, acknowledge) (refuses input s p e w)
      ]
]

unclaimed :
    (input : AcknowledgeInput) (now : ℕ) (s : Store) (p : OutboundPrompt)
    → get input.id s.prompts ≡ some p
    → (p.status == claimed) ≡ false
    → acknowledge input now s ≡ (none, s)
unfolding acknowledge
unclaimed input now s p e h = rw (e, h, acknowledge) refl

-- A claim is settled once: after an acknowledgement that took effect, none for the same prompt does,
-- whatever token it shows.
pub acknowledge_once :
    (input again : AcknowledgeInput) (now later : ℕ) (s : Store) (q : OutboundPrompt)
    → HasKeys s
    → (acknowledge input now s).0 ≡ some q
    → again.id ≡ input.id
    → acknowledge again later (acknowledge input now s).1 ≡ (none, (acknowledge input now s).1)
acknowledge_once input again now later s q h e same =
    go (acknowledge input now s) (acknowledge-Settles input now s h) e
  where
    go :
        (r : Option OutboundPrompt × Store)
        → Settles input s r
        → r.0 ≡ some q
        → acknowledge again later r.1 ≡ (none, r.1)
    go (none, t) settles e' = absurd (cc)
    go (some q', t) (p, found, held, token, full, kept, status, gone, there) e' =
        unclaimed again later t q' (rw same there) (not_claimed input.ok q'.status status)
      where
        not_claimed :
            (b : Bool) (x : OutboundStatus)
            → x ≡ (if b then waiting_manual_send else failed)
            → (x == claimed) ≡ false
        not_claimed b x eq = ground arith

ended :
    (now at : ℕ) (p : OutboundPrompt)
    → p.status ≡ claimed
    → p.claimed_at ≡ some at
    → claimed_ttl < now - at
    → (is_terminal (recover_prompt now p).status ≡ true)
      × ((recover_prompt now p).status == claimed ≡ false)
unfolding recover_prompt
ended now at p held since late = ground arith

claim_next-terminal :
    (now : ℕ) (s : Store) (k : String) (p : OutboundPrompt)
    → HasKeys s
    → get k (recover_stale_claims now s).prompts ≡ some p
    → is_terminal p.status ≡ true
    → get k (claim_next now s).1.prompts ≡ some p
claim_next-terminal now s k p h e t =
    claim_next_cases (λ (r : Option OutboundPrompt × Store). get k r.1.prompts ≡ some p) now s e
      λ q found.
        let s' = recover_stale_claims now s in
        let there = next_queued-get s' q (recover-HasKeys now s h) found in
        Advances-terminal p _ t
          (rw e at (Acts-Advances s' (claim now s' q).1 k (claim-Acts now s' q there.0 there.1)))

-- A claim that was held for longer than its lease is lost at the next `claimNext`: its token then
-- acknowledges nothing.
pub acknowledge_late :
    (input : AcknowledgeInput) (now later at : ℕ) (s : Store) (p : OutboundPrompt)
    → HasKeys s
    → get input.id s.prompts ≡ some p
    → p.status ≡ claimed
    → p.claimed_at ≡ some at
    → claimed_ttl < now - at
    → acknowledge input later (claim_next now s).1 ≡ (none, (claim_next now s).1)
unfolding recover_stale_claims
acknowledge_late input now later at s p h e held since late =
    let (terminal, released) = ended now at p held since late in
    let recovered : get input.id (recover_stale_claims now s).prompts
        ≡ some (recover_prompt now p) =
      get-map_values (recover_prompt now) input.id s.prompts
      ∙ ap (Option.map (recover_prompt now)) e in
    unclaimed input later (claim_next now s).1 (recover_prompt now p)
      (claim_next-terminal now s input.id _ h recovered terminal) released
