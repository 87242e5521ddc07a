-- ===== src/Integrity.antt =====
-- decision/integrity.py: the checks on a decision after it was made. The log line is not modelled.
pub mod Identity
pub mod Legacy
pub mod Situational
use evidence_tool.Base.{
  ℕ, suc, String, ◌<>◌, Bool, true, false, not, ◌&&◌, ◌||◌, Option, none, some, List, [], ◌∷◌, ◌++◌,
  ◌==◌, if◌then◌else◌, ltb, is_empty, filter, any, contains, to_set, join,
}
use evidence_tool.Base.Dict.{Dict, lookup}
use evidence_tool.Base.Sort.{sorted}
use evidence_tool.Models.Evidence.{pass, fail, unknown, Evidence, by_id, ids}
use evidence_tool.Models.Policy.{EvidenceRequirement, Policy}
use evidence_tool.Models.Correlation.{
  SituationEvaluation, is_ambiguous, OperationalState, ambiguous,
}
use evidence_tool.Models.Decision.{Decision, DecisionStatus, allow, block, human_review}
use evidence_tool.Engine.{blocks_unknown, evaluation_of}

pub record IntegrityResult : Type 0 where
  pub is_valid : Bool
  pub violations : List String

-- `violations.append(text)` under a test
abbrev pub flag : Bool → String → List String
flag true text = text ∷ []
flag false text = []

-- `Counter(ids)[a]`
unfoldable pub occurrences : List String → String → ℕ
occurrences [] a = 0
occurrences (x ∷ xs) a = let rest = occurrences xs a in if a == x then suc rest else rest

unfoldable pub duplicate_ids : List String → List String
unfolding occurrences
duplicate_ids xs = sorted (filter (λ a. ltb 1 (occurrences xs a)) (to_set xs))

-- `sorted(set(blocking) - set(ids))`
unfoldable pub unknown_blocking_ids : List String → List String → List String
unknown_blocking_ids blocking known =
    sorted (filter (λ a. not (contains known a)) (to_set blocking))

-- whether the policy lists situations
abbrev pub is_situational : Policy → Bool
is_situational policy = not (is_empty policy.allow) || not (is_empty policy.blocked_by)

unfoldable pub block_violations : Decision → Policy → List String
block_violations decision policy = flag (is_empty decision.blocking_evidence) (
    if is_situational policy
    then "Decision is BLOCK but blocking_evidence is empty (required for situational policies)."
    else "Decision is BLOCK but blocking_evidence is empty (required for legacy policies).")

unfoldable pub review_violations : Decision → Policy → List String
review_violations decision policy =
    flag (not policy.human_approval) "Decision is HUMAN_REVIEW but policy.human_approval is false."
    ++ flag (not (is_empty decision.blocking_evidence))
        "Decision is HUMAN_REVIEW but has blocking_evidence (should be BLOCK)."

-- the loop over `policy.allow`
unfoldable pub ambiguity_violation :
    OperationalState → String → Option SituationEvaluation → List String
ambiguity_violation state allow_id none =
    flag (ambiguous state) "Decision is ALLOW but the operational state is AMBIGUOUS."
ambiguity_violation state allow_id (some ev) =
    flag (is_ambiguous ev)
      ("Decision is ALLOW but allowed situation '" <> (allow_id <> "' is AMBIGUOUS."))

unfoldable pub ambiguity_violations : OperationalState → List String → List String
ambiguity_violations state [] = []
ambiguity_violations state (allow_id ∷ rest) =
    ambiguity_violation state allow_id (evaluation_of state allow_id)
    ++ ambiguity_violations state rest

unfoldable pub situational_violations : Policy → Option OperationalState → List String
situational_violations policy none =
    "Decision is ALLOW under V0.3 policy but no OperationalState was provided." ∷ []
situational_violations policy (some state) =
    flag (is_empty state.situations) "Decision is ALLOW but no known situation was identified."
    ++ (flag (not (any (λ s. contains policy.allow s.id) state.situations))
          "Decision is ALLOW but no identified situation is explicitly allowed by policy."
        ++ (flag (any (λ s. contains policy.blocked_by s.id) state.situations)
              "Decision is ALLOW but an identified situation is explicitly blocked by policy."
            ++ ambiguity_violations state policy.allow))

unfoldable pub requirement_violation : EvidenceRequirement → Option Evidence → List String
requirement_violation req none =
    flag (blocks_unknown req.on_unknown)
      ("Decision is ALLOW but required evidence " <> (req.id <> " is missing (on_unknown: BLOCK)."))
requirement_violation req (some e) = elim e.status [
  | fail ↦ ("Decision is ALLOW but required evidence " <> (req.id <> " is FAIL.")) ∷ []
  | unknown ↦ flag (blocks_unknown req.on_unknown) (
      "Decision is ALLOW but required evidence "
      <> (req.id <> " is UNKNOWN with on_unknown: BLOCK."))
  | pass ↦ []
]

unfoldable pub requirement_violations : Dict Evidence → List EvidenceRequirement → List String
requirement_violations evidence [] = []
requirement_violations evidence (req ∷ rest) =
    requirement_violation req (lookup req.id evidence) ++ requirement_violations evidence rest

unfoldable pub allow_violations :
    Decision → Policy → List Evidence → Option OperationalState → List String
allow_violations decision policy evidence state =
    flag (not (is_empty decision.blocking_evidence)) "Decision is ALLOW but has blocking_evidence."
    ++ (flag policy.human_approval
          "Decision is ALLOW but policy requires human_approval (should be HUMAN_REVIEW)."
        ++ (if is_situational policy
            then situational_violations policy state
            else requirement_violations (by_id evidence) policy.required_evidence))

unfoldable pub status_violations :
    DecisionStatus → Decision → Policy → List Evidence → Option OperationalState → List String
status_violations block decision policy evidence state = block_violations decision policy
status_violations human_review decision policy evidence state = review_violations decision policy
status_violations allow decision policy evidence state =
    allow_violations decision policy evidence state

unfoldable pub identity_violations : List String → List String → List String
identity_violations blocking known =
    flag (not (is_empty (duplicate_ids known)))
      ("Evidence contains duplicate IDs: " <> (join ", " (duplicate_ids known) <> "."))
    ++ flag (not (is_empty (unknown_blocking_ids blocking known))) (
        "Decision blocking_evidence references missing evidence: "
        <> (join ", " (unknown_blocking_ids blocking known) <> "."))

unfoldable pub validate_decision_integrity :
    Decision → Policy → List Evidence → Option OperationalState → IntegrityResult
validate_decision_integrity decision policy evidence state =
    let found =
      identity_violations decision.blocking_evidence (ids evidence)
      ++ status_violations decision.status decision policy evidence state in
    record { is_valid = is_empty found; violations = found }
