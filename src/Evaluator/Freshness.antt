-- ===== src/Evaluator/Freshness.antt =====
-- When the evaluator lets the status of a provider stand.
use evidence_tool.Base.{ℕ, ◌+◌, ◌≤◌, ◌≡◌, ◌≢◌, ◌↔◌, true, Option, none, some, arith}
use evidence_tool.Base.Int.{ℤ, pos, negsuc, ◌<ℤ◌}
use evidence_tool.Models.Observation.{Observation, age_seconds}
use evidence_tool.Models.Evidence.{EvidenceStatus, unknown}
use evidence_tool.Evaluator.{Numerals, raw_status, evaluate_observation}

-- not from more than five seconds ahead of the clock, and younger than the limit, if there is one
abbrev pub IsFresh : Observation → Option ℤ → ℕ → Type 0
IsFresh o none now = o.observed_at ≤ now + 5000000
IsFresh o (some limit) now = (o.observed_at ≤ now + 5000000) × (age_seconds o now <ℤ limit)

module _ (numerals : Numerals) (o : Observation) (now : ℕ) where
  -- A status other than UNKNOWN comes out exactly when the provider reported it and the observation
  -- is fresh: at most five seconds ahead of the clock, and younger than the limit if there is one.
  pub evaluate_observation-definite_iff :
      (limit : Option ℤ) (s : EvidenceStatus)
      → s ≢ unknown
      → ((evaluate_observation numerals o limit now).status ≡ s)
        ↔ ((raw_status o ≡ s) × IsFresh o limit now)
  unfolding evaluate_observation
  evaluate_observation-definite_iff none s definite = ground arith
  evaluate_observation-definite_iff (some (pos n)) s definite = ground arith
  evaluate_observation-definite_iff (some (negsuc n)) s definite = ground arith

  -- Evidence is marked stale exactly when its observation is more than five seconds ahead of the
  -- clock, or not younger than the limit if there is one.
  pub evaluate_observation-stale_iff :
      (limit : Option ℤ)
      → ((evaluate_observation numerals o limit now).is_stale ≡ true) ↔ (¬ IsFresh o limit now)
  unfolding evaluate_observation
  evaluate_observation-stale_iff none = ground arith
  evaluate_observation-stale_iff (some (pos n)) = ground arith
  evaluate_observation-stale_iff (some (negsuc n)) = ground arith
