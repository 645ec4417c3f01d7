-- ===== src/Services/Redaction.antt =====
-- apps/local-server/src/security/redaction.ts: the pass over the redaction rules. A rule's regular
-- expression is given by what the loop asks of it, `test` and `replace`.
use cli_bridge.Common.{
  Bool, String, Option, none, some, List, [], ◌∷◌, ◌++◌, if◌then◌else◌, ltb, length,
}

pub record Rule : Type 0 where
  pub name : String
  pub test : String → Bool
  pub replace : String → String
  pub block_reason : Option String

pub record RedactionResult : Type 0 where
  pub processed_content : String
  pub redaction_applied : Bool
  pub redaction_summary : List String
  pub blocked : Bool
  pub block_reasons : List String

abbrev pub push_reason : Option String → List String → List String
push_reason none reasons = reasons
push_reason (some r) reasons = reasons ++ r ∷ []

unfoldable pub redact_from : List Rule → String → List String → List String → RedactionResult
redact_from [] content summary reasons = record {
  processed_content = content;
  redaction_applied = ltb 0 (length summary);
  redaction_summary = summary;
  blocked = ltb 0 (length reasons);
  block_reasons = reasons;
}
redact_from (r ∷ rs) content summary reasons =
    let skipped = redact_from rs content summary reasons in
    let applied =
      redact_from rs (r.replace content) (summary ++ r.name ∷ [])
        (push_reason r.block_reason reasons) in
    if r.test content then applied else skipped

unfoldable pub redact_sensitive_content : List Rule → String → RedactionResult
unfolding redact_from
redact_sensitive_content rules raw = redact_from rules raw [] []
