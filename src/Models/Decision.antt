-- ===== src/Models/Decision.antt =====
-- models/decision.py
use evidence_tool.Base.{String, List}

pub data DecisionStatus : Type 0 where
  allow block human_review : DecisionStatus

abbrev pub decision_text : DecisionStatus → String
decision_text allow = "ALLOW"
decision_text block = "BLOCK"
decision_text human_review = "HUMAN_REVIEW"

pub record Decision : Type 0 where
  pub status : DecisionStatus
  pub reason : String
  pub blocking_evidence : List String
