-- ===== src/Plans/Texts.antt =====
-- Kinds and tiers as texts and as values of their types.
use cli_bridge.Common.{
  ◌≡◌, refl, sym, ap, ◌∙◌, String, some, arith, eq_iff, ◌==◌, nat_eq, string_eq,
}
use cli_bridge.Goals.Model.{
  StepKind, Tier, patch_proposal, workspace_write, tier_eq, is_state_mutating_kind,
}
use cli_bridge.Plans.Model.{is_mutating, kind_of, tier_of}
use cli_bridge.Goals.Model.{
  review, summarize, propose_patch, apply_patch, run_command, write_file, delete_file, git_commit,
  git_push,
}

kind_text : StepKind → String
kind_text review = "review"
kind_text summarize = "summarize"
kind_text propose_patch = "propose-patch"
kind_text apply_patch = "apply-patch"
kind_text run_command = "run-command"
kind_text write_file = "write-file"
kind_text delete_file = "delete-file"
kind_text git_commit = "git-commit"
kind_text git_push = "git-push"

kind_of_text : (text : String) (kind : StepKind) → kind_of text ≡ some kind → text ≡ kind_text kind
unfolding kind_of kind_text
kind_of_text text kind e = ground (
  arith,
  eq_iff text "review",
  eq_iff text "summarize",
  eq_iff text "propose-patch",
  eq_iff text "apply-patch",
  eq_iff text "run-command",
  eq_iff text "write-file",
  eq_iff text "delete-file",
  eq_iff text "git-commit",
  eq_iff text "git-push",
)

kind_text_mutates : (kind : StepKind) → is_mutating (kind_text kind) ≡ is_state_mutating_kind kind
unfolding kind_text is_mutating is_state_mutating_kind
kind_text_mutates review = refl
kind_text_mutates summarize = refl
kind_text_mutates propose_patch = refl
kind_text_mutates apply_patch = refl
kind_text_mutates run_command = refl
kind_text_mutates write_file = refl
kind_text_mutates delete_file = refl
kind_text_mutates git_commit = refl
kind_text_mutates git_push = refl

-- The two tables of kinds that change state agree.
pub kind_of_mutates :
    (text : String) (kind : StepKind)
    → kind_of text ≡ some kind
    → is_state_mutating_kind kind ≡ is_mutating text
kind_of_mutates text kind e =
    sym (ap is_mutating (kind_of_text text kind e) ∙ kind_text_mutates kind)

tier_text : Tier → String
tier_text patch_proposal = "patch-proposal"
tier_text workspace_write = "workspace-write"

tier_of_text : (text : String) (tier : Tier) → tier_of text ≡ some tier → text ≡ tier_text tier
unfolding tier_of tier_text
tier_of_text text tier e =
    ground (arith, eq_iff text "patch-proposal", eq_iff text "workspace-write")

tier_text_writes : (tier : Tier) → (tier_text tier == "workspace-write") ≡ (tier == workspace_write)
unfolding tier_text
tier_text_writes patch_proposal = refl
tier_text_writes workspace_write = refl

pub tier_of_writes :
    (text : String) (tier : Tier)
    → tier_of text ≡ some tier
    → (tier == workspace_write) ≡ (text == "workspace-write")
tier_of_writes text tier e =
    sym (ap (λ t. t == "workspace-write") (tier_of_text text tier e) ∙ tier_text_writes tier)
