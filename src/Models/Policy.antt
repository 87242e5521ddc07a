-- ===== src/Models/Policy.antt =====
-- models/policy.py. `max_age` is in microseconds.
use evidence_tool.Base.{String, Bool, Option, none, some, List, [], ◌∷◌, ◌==◌, if◌then◌else◌}
use evidence_tool.Base.Int.{ℤ}

pub data OnUnknown : Type 0 where
  block ignore : OnUnknown

pub data RiskLevel : Type 0 where
  low medium high critical : RiskLevel

abbrev pub risk_text : RiskLevel → String
risk_text low = "LOW"
risk_text medium = "MEDIUM"
risk_text high = "HIGH"
risk_text critical = "CRITICAL"

pub record EvidenceRequirement : Type 0 where
  pub id : String
  pub on_unknown : OnUnknown
  pub max_age : Option ℤ

pub data PolicySchema : Type 0 where
  v1_legacy v2_situational : PolicySchema

pub record Policy : Type 0 where
  pub version : String
  pub action : String
  pub risk : RiskLevel
  pub schema : PolicySchema
  pub required_evidence : List EvidenceRequirement
  pub allow : List String
  pub blocked_by : List String
  pub human_approval : Bool

find_requirement : List EvidenceRequirement → String → Option EvidenceRequirement
find_requirement [] evidence_id = none
find_requirement (req ∷ rest) evidence_id =
    if req.id == evidence_id then some req else find_requirement rest evidence_id

unfoldable pub requirement_for : Policy → String → Option EvidenceRequirement
unfolding find_requirement
requirement_for policy evidence_id = find_requirement policy.required_evidence evidence_id

abbrev pub requirement_ids : List EvidenceRequirement → List String
requirement_ids [] = []
requirement_ids (req ∷ rest) = req.id ∷ requirement_ids rest
