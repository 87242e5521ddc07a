-- ===== src/Models/Evidence.antt =====
-- models/evidence.py: the judgement of an observation.
pub mod Lookup
use evidence_tool.Base.{String, Bool, true, false, Option, none, some, List, [], ◌∷◌, ◌==◌}
use evidence_tool.Base.{if◌then◌else◌, ◌≡◌, arith}
use evidence_tool.Base.Dict.{Dict, insert}
use evidence_tool.Models.Observation.{Observation}
use evidence_tool.Models.Value.{Value, text}

pub data EvidenceStatus : Type 0 where
  pass fail unknown : EvidenceStatus

-- `a == b` on statuses
abbrev pub same_status : EvidenceStatus → EvidenceStatus → Bool
same_status pass pass = true
same_status fail fail = true
same_status unknown unknown = true
same_status _ _ = false

abbrev pub status_text : EvidenceStatus → String
status_text pass = "PASS"
status_text fail = "FAIL"
status_text unknown = "UNKNOWN"

-- `EvidenceStatus(v)`, where `none` is the ValueError
unfoldable pub parse_status : Value → Option EvidenceStatus
parse_status (text s) =
    if s == "PASS"
    then some pass
    else if s == "FAIL"
    then some fail
    else if s == "UNKNOWN"
    then some unknown
    else none
parse_status _ = none

pub record Evidence : Type 0 where
  pub observation : Observation
  pub status : EvidenceStatus
  pub message : String
  pub is_stale : Bool

abbrev pub evidence_id : Evidence → String
evidence_id e = e.observation.id

-- `{e.id: e for e in evidence}`: of two with one id the later one stays.
unfoldable pub index_from : Dict Evidence → List Evidence → Dict Evidence
index_from d [] = d
index_from d (e ∷ es) = index_from (insert (evidence_id e) e d) es

abbrev pub by_id : List Evidence → Dict Evidence
by_id es = index_from [] es

abbrev pub ids : List Evidence → List String
ids [] = []
ids (e ∷ es) = evidence_id e ∷ ids es
