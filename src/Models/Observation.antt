-- ===== src/Models/Observation.antt =====
-- models/observation.py: the fact that a provider saw. Times are microseconds.
use evidence_tool.Base.{ℕ, String, Option}
use evidence_tool.Base.Int.{ℤ, sub_ℕ}
use evidence_tool.Models.Value.{Value}

pub record Observation : Type 0 where
  pub id : String
  pub source : String
  pub category : String
  pub collector : String
  pub method : String
  pub value : Value
  pub message : String
  pub observed_at : ℕ
  pub collected_at : ℕ
  pub host : Option String
  pub execution_scope : Option String
  pub target : Option String
  pub capability : Option String
  pub transport_status : Option String

unfoldable pub age_seconds : Observation → ℕ → ℤ
age_seconds o now = sub_ℕ now o.observed_at
