-- ===== src/Models/Correlation.antt =====
-- models/correlation.py: situations, their evaluations and the composite state.
use evidence_tool.Base.{String, Bool, not, List, [], ◌∷◌, is_empty, any}
use evidence_tool.Base.Dict.{Dict}
use evidence_tool.Models.Evidence.{EvidenceStatus}

pub record Situation : Type 0 where
  pub id : String
  pub description : String
  pub signature : Dict EvidenceStatus

pub record SituationEvaluation : Type 0 where
  pub situation : Situation
  pub matched : Bool
  pub unresolved_evidence : List String
  pub missing_evidence : List String
  pub discrepant_evidence : List String

abbrev pub is_ambiguous : SituationEvaluation → Bool
is_ambiguous ev = not (is_empty ev.unresolved_evidence)

pub record OperationalState : Type 0 where
  pub situations : List Situation
  pub evaluations : List SituationEvaluation
  pub unresolved_evidence : List String
  pub discrepancies : Dict (List String)

abbrev pub ambiguous : OperationalState → Bool
ambiguous state = any is_ambiguous state.evaluations

abbrev pub situation_ids : List Situation → List String
situation_ids [] = []
situation_ids (s ∷ rest) = s.id ∷ situation_ids rest
