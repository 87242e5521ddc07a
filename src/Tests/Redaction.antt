-- ===== src/Tests/Redaction.antt =====
-- Redaction at concrete inputs.
use evidence_tool.Base.{String, ◌≡◌, refl, ℕ, true, some, [], ◌∷◌, string_dec}
use evidence_tool.Base.Dict.{lookup}
use evidence_tool.Models.Value.{Value, text, object, get_key}
use evidence_tool.Models.Evidence.{Evidence}
use evidence_tool.Models.Redaction.{is_sensitive, redact_text, observation_dict, evidence_dict}
use evidence_tool.Models.Redaction.Secrets.{mappings, hidden, no_fields, observation_dict-hides}
use evidence_tool.Tests.Data.{config_valid}

blots_assignments :
    redact_text "db Password = hunter2, api-key:x;done"
    ≡ "db Password = [REDACTED], api-key:[REDACTED];done"
unfolding redact_text
blots_assignments = refl

abbrev isoformat : ℕ → String
isoformat n = "2026-01-01T00:00:00+00:00"

abbrev with_password : String → Value
with_password s = object (("Redis_Password", text s) ∷ [])

is_hidden : is_sensitive "Redis_Password" ≡ true
unfolding is_sensitive
is_hidden = refl

observation_dict-hides_example :
    observation_dict isoformat (record config_valid { value = with_password "hunter2" })
    ≡ observation_dict isoformat (record config_valid { value = with_password "letmein" })
observation_dict-hides_example =
    observation_dict-hides isoformat config_valid (with_password "hunter2")
      (with_password "letmein")
      (mappings (hidden "Redis_Password" (text "hunter2") (text "letmein") is_hidden no_fields))

-- the message of evidence is printed as it is
tells_message :
    (e : Evidence) → get_key "message" (evidence_dict isoformat e) ≡ some (text e.message)
unfolding evidence_dict lookup string_dec
tells_message e = refl
