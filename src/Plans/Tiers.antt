-- ===== src/Plans/Tiers.antt =====
-- The rules on the tiers of a plan: what the caller permits, and that a step writes to the workspace just
-- where its kind changes state.
use cli_bridge.Common.{
  Attempt, made, thrown, ℕ, suc, Bool, not, ◌&&◌, String, Option, none, some, List, [], ◌∷◌, ◌++◌,
  if◌then◌else◌, ◌==◌, nat_eq, string_eq, includes, is_empty,
}
use Prim.Native.String.{◌++◌ as append}
use cli_bridge.Goals.Model.{Tier, patch_proposal, tier_eq}
use cli_bridge.Plans.Model.{
  TierEnforcementMode, strict, downgrade, PlanTierDowngrade, Platform, RawStep, is_mutating,
  tier_of,
}

-- The loop of `normalizeCallerPermittedTiers`, on what is normalised so far.
unfoldable pub normalize_from : List String → List Tier → Attempt (List Tier)
unfolding tier_of
normalize_from [] tiers =
    if includes patch_proposal tiers
    then made tiers
    else thrown ("plan-permitted-tiers-missing-patch-proposal" ∷ [])
normalize_from (text ∷ texts) tiers = elim (tier_of text) [
  | none ↦ thrown (append "plan-permitted-tiers-invalid:" text ∷ [])
  | some tier ↦ normalize_from texts (if includes tier tiers then tiers else tiers ++ tier ∷ [])
]

unfoldable pub normalize_caller_permitted_tiers : Option (List String) → Attempt (List Tier)
unfolding normalize_from
normalize_caller_permitted_tiers none = made (patch_proposal ∷ [])
normalize_caller_permitted_tiers (some []) = thrown ("plan-permitted-tiers-invalid" ∷ [])
normalize_caller_permitted_tiers (some (t ∷ ts)) = normalize_from (t ∷ ts) []

-- `step ${i} ("${step.intent || step.id}") has`
abbrev pub label : Platform → ℕ → RawStep → String
label env i s = append "step " (
    append (env.show i)
      (append " (\"" (append (if is_empty s.intent then s.id else s.intent) "\") has")))

abbrev pub set_tier : String → RawStep → RawStep
set_tier tier s = record s { tier = tier }

abbrev pub lowered : ℕ → RawStep → String → String → PlanTierDowngrade
lowered i s tier reason = record {
  step_index = i;
  step_id = s.id;
  original_tier = s.tier;
  downgraded_to = tier;
  reason = reason;
}

abbrev mutating_mismatch : Platform → ℕ → RawStep → String
mutating_mismatch env i s = append "plan-kind-tier-mismatch: " (
    append (label env i s) (
      append " mutating kind=\"" (
        append s.kind (
          append "\" but tier=\""
            (append s.tier "\". Mutating kinds require tier=workspace-write.")))))

abbrev reading_mismatch : Platform → ℕ → RawStep → String
reading_mismatch env i s = append "plan-kind-tier-mismatch: " (
    append (label env i s) (
      append " non-mutating kind=\"" (
        append s.kind
          "\" but tier=\"workspace-write\". Non-mutating kinds must not use workspace-write tier.")))

abbrev raised_reason : RawStep → String
raised_reason s = append "mutating kind=\"" (
    append s.kind
      (append "\" had mismatched tier=\"" (append s.tier "\"; corrected to workspace-write")))

abbrev incoherent_reason : RawStep → String
incoherent_reason s =
    append "non-mutating kind=\""
      (append s.kind "\" had incoherent tier=\"workspace-write\"; corrected to patch-proposal")

-- A step with what was corrected in it.
abbrev pub Corrected : Type 0
Corrected = RawStep × List PlanTierDowngrade

-- Rules A and B on one step.
unfoldable pub coherent_step : Platform → TierEnforcementMode → ℕ → RawStep → Attempt Corrected
coherent_step env mode i s =
    let writes = s.tier == "workspace-write" in
    if is_mutating s.kind
    then (if writes then made (s, []) else elim mode [
      | strict ↦ thrown (mutating_mismatch env i s ∷ [])
      | downgrade ↦
          made (set_tier "workspace-write" s, lowered i s "workspace-write" (raised_reason s) ∷ [])
    ])
    else (if writes
        then elim mode [
          | strict ↦ thrown (reading_mismatch env i s ∷ [])
          | downgrade ↦
              made (
                set_tier "patch-proposal" s,
                lowered i s "patch-proposal" (incoherent_reason s) ∷ [],
              )
        ]
        else made (s, []))

abbrev reading_violation : Platform → ℕ → RawStep → String
reading_violation env i s = append "plan-tier-violation: " (
    append (label env i s) (
      append " tier=workspace-write but permittedTiers does not include workspace-write."
        " Either remove the workspace-write steps or explicitly add \"workspace-write\" to permittedTiers."))

abbrev mutating_violation : Platform → ℕ → RawStep → String
mutating_violation env i s = append "plan-tier-violation: " (
    append (label env i s) (
      append " mutating kind=\"" (
        append s.kind (
          append "\" and tier=workspace-write, but permittedTiers does not include workspace-write."
            " Mutating steps cannot be downgraded to patch-proposal."))))

-- The permission on one step, given whether the caller permits to write to the workspace.
unfoldable pub permitted_step :
    Platform → TierEnforcementMode → Bool → ℕ → RawStep → Attempt Corrected
permitted_step env mode permitted i s =
    if s.tier == "workspace-write" && not permitted
    then elim mode [
      | strict ↦ thrown (reading_violation env i s ∷ [])
      | downgrade ↦
          if is_mutating s.kind
          then thrown (mutating_violation env i s ∷ [])
          else made (
            set_tier "patch-proposal" s,
            lowered i s "patch-proposal"
                  "plan permittedTiers does not include workspace-write; step downgraded to patch-proposal"
                ∷ [],
          )
    ]
    else made (s, [])

-- One of the loops over the steps: the first step that is refused ends it.
unfoldable pub each_step :
    (ℕ → RawStep → Attempt Corrected)
    → ℕ
    → List RawStep
    → Attempt (List RawStep × List PlanTierDowngrade)
each_step f i [] = made ([], [])
each_step f i (s ∷ ss) =
    let rest = each_step f (suc i) ss in
    elim (f i s) [
      | thrown es ↦ thrown es
      | made (t, ds) ↦ elim rest [
        | thrown es ↦ thrown es
        | made (ts, rest_ds) ↦ made (t ∷ ts, ds ++ rest_ds)
      ]
    ]
