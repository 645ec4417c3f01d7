-- ===== src/Services/Examples.antt =====
-- A concrete environment for the tests: identifiers in unary, a digest that is the text itself, and
-- one redaction rule.
use Prim.Native.String.{◌++◌ as append}
use text.Mathlib.Text.{starts_with}
use cli_bridge.Common.{ℕ, zero, suc, ◌≡◌, refl, String, none, [], ◌∷◌, nat_eq, string_eq}
use cli_bridge.Services.Redaction.{Rule, redact_sensitive_content}
use cli_bridge.Services.Packets.{Env, Services}

abbrev pub tally : ℕ → String
tally zero = "u"
tally (suc n) = append (tally n) "I"

abbrev pub bearer_rule : Rule
bearer_rule = record {
  name = "bearer-token";
  test = λ s. starts_with s "Bearer ";
  replace = λ _. "Bearer [REDACTED_TOKEN]";
  block_reason = none;
}

abbrev pub sample_env : Env
sample_env = record { uuid = tally; sha256_hex = λ s. s; rules = bearer_rule ∷ [] }

abbrev pub fresh_services : Services
fresh_services = record {
  env = sample_env;
  drawn = 0;
  packets = [];
  raw_contents = [];
  events = [];
}

redacts :
    (redact_sensitive_content sample_env.rules "Bearer abc").processed_content
    ≡ "Bearer [REDACTED_TOKEN]"
unfolding redact_sensitive_content
redacts = refl
