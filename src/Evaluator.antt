-- ===== src/Evaluator.antt =====
-- evidence/evaluator.py: observations become evidence. Times and ages are microseconds.
pub mod Freshness
use evidence_tool.Base.{
  ℕ, String, ◌<>◌, Bool, true, false, Option, none, some, List, [], ◌∷◌, if◌then◌else◌,
}
use evidence_tool.Base.Dict.{Dict, lookup}
use evidence_tool.Base.Int.{ℤ, negsuc, ltb_ℤ, leb_ℤ}
use evidence_tool.Models.Value.{get_key}
use evidence_tool.Models.Observation.{Observation, age_seconds}
use evidence_tool.Models.Evidence.{EvidenceStatus, unknown, parse_status, Evidence}

-- How Python prints the two floats of the message.
pub record Numerals : Type 0 where
  pub rounded : ℤ → String
  pub plain : ℤ → String

unfoldable pub or_unknown : Option EvidenceStatus → EvidenceStatus
or_unknown none = unknown
or_unknown (some s) = s

-- the status that the provider put into the value
unfoldable pub raw_status : Observation → EvidenceStatus
unfolding or_unknown parse_status
raw_status o = elim (get_key "status" o.value) [
  | none ↦ unknown
  | some v ↦ or_unknown (parse_status v)
]

-- -5.0 seconds
abbrev pub skew : ℤ
skew = negsuc 4999999

module _ (numerals : Numerals) where
  open numerals use {rounded, plain}

  unfoldable pub judge_age : Observation → ℤ → Option ℤ → Evidence
  judge_age o age none = record {
    observation = o;
    status = raw_status o;
    message = o.message;
    is_stale = false;
  }
  judge_age o age (some limit) =
      if leb_ℤ limit age
      then record {
        observation = o;
        status = unknown;
        message =
            o.message
            <> (" (stale: observed "
                <> (rounded age <> ("s ago, max_age=" <> (plain limit <> "s)"))));
        is_stale = true;
      }
      else record { observation = o; status = raw_status o; message = o.message; is_stale = false }

  -- `now` is the reading of the clock in `age_seconds`
  unfoldable pub evaluate_observation : Observation → Option ℤ → ℕ → Evidence
  unfolding judge_age age_seconds
  evaluate_observation o max_age now =
      let age = age_seconds o now in
      if ltb_ℤ age skew
      then record {
        observation = o;
        status = unknown;
        message = o.message <> " (invalid timestamp: future date detected)";
        is_stale = true;
      }
      else judge_age o age max_age

  unfoldable pub evaluate_observations :
      List Observation → Dict ℤ → (Observation → ℕ) → List Evidence
  unfolding evaluate_observation
  evaluate_observations [] max_ages clock = []
  evaluate_observations (o ∷ os) max_ages clock =
      evaluate_observation o (lookup o.id max_ages) (clock o)
      ∷ evaluate_observations os max_ages clock
