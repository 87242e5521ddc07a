-- ===== src/Causality/Models.antt =====
-- causality/models.py
use evidence_tool.Base.{String, Bool, Option, List}
use evidence_tool.Base.Dict.{Dict}

pub data CausalityStatus : Type 0 where
  root_cause_identified root_cause_constrained root_cause_unknown : CausalityStatus

abbrev pub causality_text : CausalityStatus → String
causality_text root_cause_identified = "ROOT_CAUSE_IDENTIFIED"
causality_text root_cause_constrained = "ROOT_CAUSE_CONSTRAINED"
causality_text root_cause_unknown = "ROOT_CAUSE_UNKNOWN"

pub data CausalRelationType : Type 0 where
  propagates_to triggers symptom_of precludes : CausalRelationType

abbrev pub relation_text : CausalRelationType → String
relation_text propagates_to = "PROPAGATES_TO"
relation_text triggers = "TRIGGERS"
relation_text symptom_of = "SYMPTOM_OF"
relation_text precludes = "PRECLUDES"

pub record CausalRule : Type 0 where
  pub id : String
  pub source : String
  pub target : String
  pub relation : CausalRelationType
  pub conditions : Dict String
  pub description : String
  pub is_root_cause_candidate : Bool
  pub is_surface_symptom : Bool

pub record CausalExplanation : Type 0 where
  pub status : CausalityStatus
  pub primary_root_cause : Option String
  pub causal_chain : List String
  pub propagated_symptoms : List String
  pub precluded_hypotheses : List String
  pub candidate_causes : List String
  pub confidence : String
