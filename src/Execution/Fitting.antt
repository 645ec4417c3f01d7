-- ===== src/Execution/Fitting.antt =====
-- The arguments that `validateExecutionInvocation` fixes for each kind of provider.
use cli_bridge.Common.{
  ◌≡◌, refl, sym, ap, ◌∙◌, ◌⊎◌, inl, inr, true, false, String, none, some, List, [], ◌∷◌, arith,
  eq_iff, ◌==◌, nat_eq, string_eq, Bool-cases, Option-cases,
}
use cli_bridge.Proposals.Model.{execution_proposal_status_eq, artifact_kind_eq}
use cli_bridge.Execution.Capabilities.{Capability}
use cli_bridge.Execution.Dispatcher.{DispatchInput, invocation_failure}
use cli_bridge.Execution.Dispatcher.{is_workbuddy}
use cli_bridge.Goals.Model.{plan_status_eq}
use cli_bridge.Proposals.Model.{Command, codex, claude}
use cli_bridge.Execution.Dispatcher.{same_texts, codex_review_args, claude_review_args}

-- The arguments of a review by Codex, and by Claude Code without any tool.
abbrev pub Arguments : String → Command → List String → Type 0
Arguments kind command args =
    ((kind ≡ "codex")
      × (command ≡ codex)
      × (args ≡ "exec" ∷ "-s" ∷ "read-only" ∷ "--json" ∷ "--ephemeral" ∷ "-" ∷ []))
    ⊎ ((kind ≡ "claude")
        × (command ≡ claude)
        × (args
            ≡ "-p" ∷ "--output-format" ∷ "json" ∷ "--tools" ∷ "" ∷ "--disallowed-tools"
              ∷ "Bash,Edit,Write,Read,WebFetch,WebSearch" ∷ "--permission-mode" ∷ "plan"
              ∷ "--no-session-persistence" ∷ []))

-- The provider that is given is of a kind that fixes just this command and these arguments.
abbrev pub Fits : DispatchInput → Command → List String → Type 0
Fits input command args =
    (cap : Capability) × (input.provider_capability ≡ some cap) × Arguments cap.kind command args

abbrev pub IsWorkbuddy : DispatchInput → Type 0
IsWorkbuddy input =
    (cap : Capability) × (input.provider_capability ≡ some cap) × (cap.kind ≡ "workbuddy")

same_texts-same : (xs ys : List String) → same_texts xs ys ≡ true → xs ≡ ys
same_texts-same [] [] e = refl
same_texts-same [] (y ∷ ys) e = absurd (cc (e))
same_texts-same (x ∷ xs) [] e = absurd (cc (e))
same_texts-same (x ∷ xs) (y ∷ ys) e =
    let first : x ≡ y = (eq_iff x y).0 (ground (arith, e)) in
    let rest : xs ≡ ys = same_texts-same xs ys (ground (arith, e)) in
    ap (λ z. z ∷ xs) first ∙ ap (λ zs. y ∷ zs) rest

invocation_failure-Arguments :
    (cap : Capability) (command : Command) (args : List String)
    → invocation_failure (some cap) command args ≡ none
    → Arguments cap.kind command args
unfolding invocation_failure
invocation_failure-Arguments cap command args e = elim (Bool-cases cap.can_execute) [
  | inr x ↦ absurd (
      let clash : some "execution-endpoint-cannot-execute" ≡ none =
        rw (x, invocation_failure) at e in
      cc (clash))
  | inl x ↦ elim (Bool-cases (cap.kind == "codex")) [
    | inl k ↦ inl (
      (eq_iff cap.kind "codex").0 k,
      ground (arith, e, x, k),
      same_texts-same args codex_review_args (ground (arith, e, x, k)),
    )
    | inr k ↦ elim (Bool-cases (cap.kind == "claude")) [
      | inl l ↦ inr (
        (eq_iff cap.kind "claude").0 l,
        ground (arith, e, x, k, l),
        same_texts-same args claude_review_args (ground (arith, e, x, k, l)),
      )
      | inr l ↦ absurd (ground (arith, e, x, k, l))
    ]
  ]
]

pub invocation_failure-Fits :
    (input : DispatchInput) (command : Command) (args : List String)
    → invocation_failure input.provider_capability command args ≡ none
    → Fits input command args
unfolding invocation_failure
invocation_failure-Fits input command args e = elim (Option-cases input.provider_capability) [
  | inl n ↦ absurd (
      let clash : some "execution-endpoint-cannot-execute" ≡ none =
        rw (n, invocation_failure) at e in
      cc (clash))
  | inr (cap, c) ↦ (
    cap,
    c,
    invocation_failure-Arguments cap command args
        (ap (λ o. invocation_failure o command args) (sym c) ∙ e),
  )
]

pub is_workbuddy-IsWorkbuddy :
    (input : DispatchInput) → is_workbuddy input.provider_capability ≡ true → IsWorkbuddy input
is_workbuddy-IsWorkbuddy input e = elim (Option-cases input.provider_capability) [
  | inl n ↦ absurd (let clash : false ≡ true = rw n at e in cc (clash))
  | inr (cap, c) ↦ (cap, c, (eq_iff cap.kind "workbuddy").0 (rw c at e))
]
