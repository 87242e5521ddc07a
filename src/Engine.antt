-- ===== src/Engine.antt =====
-- decision/engine.py: from evidence or a state, and a policy, to a decision.
pub mod Legacy
pub mod Situational
pub mod Precedence
pub mod Locality
use evidence_tool.Base.{
  String, ◌<>◌, Bool, true, false, ◌&&◌, Option, none, some, List, [], ◌∷◌, ◌++◌, ◌==◌,
  if◌then◌else◌, is_empty, contains, find_first, update, join, Result, ok, err, type_error,
}
use evidence_tool.Base.Dict.{Dict, keys, lookup}
use evidence_tool.Base.Sort.{sorted}
use evidence_tool.Models.Evidence.{pass, fail, unknown, Evidence, by_id}
use evidence_tool.Models.Policy
use evidence_tool.Models.Policy.{
  EvidenceRequirement, Policy, v1_legacy, v2_situational, risk_text, requirement_ids,
}
use evidence_tool.Models.Correlation.{
  Situation, SituationEvaluation, is_ambiguous, OperationalState, situation_ids,
}
use evidence_tool.Models.Decision.{Decision, allow, block, human_review}

-- `requirement.on_unknown == OnUnknown.BLOCK`
abbrev pub blocks_unknown : Policy.OnUnknown → Bool
blocks_unknown Policy.OnUnknown.block = true
blocks_unknown Policy.OnUnknown.ignore = false

-- whether the loop of `_decide_legacy` appends the requirement
abbrev pub is_blocking : EvidenceRequirement → Option Evidence → Bool
is_blocking requirement none = blocks_unknown requirement.on_unknown
is_blocking requirement (some found) = elim found.status [
  | fail ↦ true
  | unknown ↦ blocks_unknown requirement.on_unknown
  | pass ↦ false
]

unfoldable pub collect_blocking :
    Dict Evidence → List EvidenceRequirement → List String → List String
collect_blocking evidence [] blocking = blocking
collect_blocking evidence (requirement ∷ rest) blocking = collect_blocking evidence rest (
    if is_blocking requirement (lookup requirement.id evidence)
    then blocking ++ requirement.id ∷ []
    else blocking)

-- the decision after the loop
unfoldable pub conclude_legacy : Policy → List String → Decision
conclude_legacy policy (first ∷ second ∷ rest) =
    let blocking = first ∷ second ∷ rest in
    record {
      status = block;
      reason = "Required evidence " <> (join ", " blocking <> " not satisfied.");
      blocking_evidence = blocking;
    }
conclude_legacy policy (first ∷ []) = record {
  status = block;
  reason = "Required evidence " <> (first <> " is not satisfied.");
  blocking_evidence = first ∷ [];
}
conclude_legacy policy [] =
    if policy.human_approval
    then record {
      status = human_review;
      reason =
          "All required evidence satisfied, but this action (risk: "
          <> (risk_text policy.risk <> ") requires human approval.");
      blocking_evidence = [];
    }
    else record {
      status = allow;
      reason = "All required evidence satisfied and no human approval required.";
      blocking_evidence = [];
    }

unfoldable pub decide_legacy : List Evidence → Policy → Decision
unfolding collect_blocking conclude_legacy
decide_legacy evidence policy =
    conclude_legacy policy (collect_blocking (by_id evidence) policy.required_evidence [])

-- `next(s for s in state.situations if s.id == blocked_id)`
abbrev pub situation_of : OperationalState → String → Option Situation
situation_of state id = find_first (λ s. s.id == id) state.situations

abbrev pub evaluation_of : OperationalState → String → Option SituationEvaluation
evaluation_of state id = find_first (λ ev. ev.situation.id == id) state.evaluations

abbrev pub is_active : OperationalState → String → Bool
is_active state id = contains (situation_ids state.situations) id

-- the keys of the signature; the id is known to be among the situations
signature_keys : Option Situation → List String
signature_keys none = []
signature_keys (some s) = keys s.signature

unfoldable pub check_blocked_v2 : OperationalState → List String → Option Decision
unfolding signature_keys
check_blocked_v2 state [] = none
check_blocked_v2 state (blocked_id ∷ rest) =
    let later = check_blocked_v2 state rest in
    if is_active state blocked_id
    then some (record {
      status = block;
      reason = "Situation '" <> (blocked_id <> "' is explicitly blocked by policy.");
      blocking_evidence = signature_keys (situation_of state blocked_id);
    })
    else later

-- `eval_for_sit and not eval_for_sit.is_ambiguous`
abbrev pub is_clear : Option SituationEvaluation → Bool
is_clear none = false
is_clear (some ev) = elim (is_ambiguous ev) [ true ↦ false | false ↦ true ]

abbrev pub authorise : Policy → String → Decision
authorise policy allow_id =
    if policy.human_approval
    then record {
      status = human_review;
      reason =
          "Situation '" <> (allow_id <> "' authorized, but this action requires human approval.");
      blocking_evidence = [];
    }
    else record {
      status = allow;
      reason = "Situation '" <> (allow_id <> "' authorized and no human approval required.");
      blocking_evidence = [];
    }

unfoldable pub check_allowed_match_v2 : OperationalState → Policy → List String → Option Decision
check_allowed_match_v2 state policy [] = none
check_allowed_match_v2 state policy (allow_id ∷ rest) =
    let later = check_allowed_match_v2 state policy rest in
    if is_active state allow_id && is_clear (evaluation_of state allow_id)
    then some (authorise policy allow_id)
    else later

-- step 3: an allowed situation with unresolved evidence
abbrev pub unresolved_of : Option SituationEvaluation → List String
unresolved_of none = []
unresolved_of (some ev) = ev.unresolved_evidence

unfoldable pub check_unresolved_v2 : OperationalState → List String → Option Decision
check_unresolved_v2 state [] = none
check_unresolved_v2 state (allow_id ∷ rest) =
    let later = check_unresolved_v2 state rest in
    let unresolved = unresolved_of (evaluation_of state allow_id) in
    if is_empty unresolved
    then later
    else some (record {
      status = block;
      reason = "Situation '" <> (allow_id <> "' cannot be evaluated: unresolved evidence.");
      blocking_evidence = unresolved;
    })

abbrev or_empty : Option (List String) → List String
or_empty none = []
or_empty (some xs) = xs

collect_discrepancies : OperationalState → List String → List String → List String
collect_discrepancies state [] blocking = blocking
collect_discrepancies state (allow_id ∷ rest) blocking =
    collect_discrepancies state rest
      (update blocking (or_empty (lookup allow_id state.discrepancies)))

-- step 4: no situation matches
unfoldable pub no_match_v2 : OperationalState → Policy → Decision
unfolding collect_discrepancies
no_match_v2 state policy =
    let discrepant = collect_discrepancies state policy.allow [] in
    record {
      status = block;
      reason = "No known situation matches the allowed situations for this action.";
      blocking_evidence = sorted (
          if is_empty discrepant
          then update [] (requirement_ids policy.required_evidence)
          else discrepant);
    }

-- `if decision: return decision`, else the next step
abbrev pub or_else_decide : Option Decision → Decision → Decision
or_else_decide none d = d
or_else_decide (some d) _ = d

unfoldable pub decide_v2 : OperationalState → Policy → Decision
unfolding check_blocked_v2 check_allowed_match_v2 check_unresolved_v2 no_match_v2
decide_v2 state policy = or_else_decide (check_blocked_v2 state policy.blocked_by) (
    or_else_decide (check_allowed_match_v2 state policy policy.allow)
      (or_else_decide (check_unresolved_v2 state policy.allow) (no_match_v2 state policy)))

-- the argument of `decide`
pub data Subject : Type 0 where
  from_evidence : List Evidence → Subject
  from_state : OperationalState → Subject

unfoldable pub route : Policy.PolicySchema → Subject → Policy → Result Decision
route v1_legacy (from_evidence evidence) policy = ok (decide_legacy evidence policy)
route v1_legacy (from_state state) policy =
    err (type_error "V1_LEGACY policy requires list[Evidence]")
route v2_situational (from_evidence evidence) policy =
    err (type_error "V2_SITUATIONAL policy requires OperationalState")
route v2_situational (from_state state) policy = ok (decide_v2 state policy)

unfoldable pub decide : Subject → Policy → Result Decision
unfolding route
decide subject policy = route policy.schema subject policy
