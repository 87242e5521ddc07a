-- ===== src/Engine/Precedence.antt =====
-- Decisions with and without a request for approval.
use evidence_tool.Base.{
  String, ◌≡◌, refl, ap, Bool, true, false, List, [], ◌∷◌, arith, Result, ok, err,
}
use evidence_tool.Models.Evidence.{Evidence, by_id}
use evidence_tool.Models.Policy.{Policy, PolicySchema, v1_legacy, v2_situational}
use evidence_tool.Models.Correlation.{OperationalState}
use evidence_tool.Models.Decision.{Decision, DecisionStatus, allow, human_review}
use evidence_tool.Engine.{
  Subject, from_evidence, from_state, collect_blocking, conclude_legacy, decide_legacy,
  check_blocked_v2, check_allowed_match_v2, check_unresolved_v2, decide_v2, decide, or_else_decide,
  route,
}

abbrev pub with_approval : Bool → Policy → Policy
with_approval b p = record p { human_approval = b }

abbrev pub escalate : DecisionStatus → DecisionStatus
escalate allow = human_review
escalate s = s

-- the verdict of a decision: its status and its blocking evidence
abbrev pub verdict : (DecisionStatus → DecisionStatus) → Decision → DecisionStatus × List String
verdict f d = (f d.status, d.blocking_evidence)

abbrev pub verdict_of :
    (DecisionStatus → DecisionStatus) → Result Decision → Result (DecisionStatus × List String)
verdict_of f (ok d) = ok (verdict f d)
verdict_of f (err e) = err e

abbrev pub keep : DecisionStatus → DecisionStatus
keep s = s

module _ (policy : Policy) where
  conclude_legacy-approval :
      (blocking : List String)
      → verdict keep (conclude_legacy (with_approval true policy) blocking)
        ≡ verdict escalate (conclude_legacy (with_approval false policy) blocking)
  unfolding conclude_legacy
  conclude_legacy-approval [] = refl
  conclude_legacy-approval (a ∷ []) = refl
  conclude_legacy-approval (a ∷ b ∷ rest) = refl

  check_allowed_match_v2-approval :
      (state : OperationalState) (ids : List String) (d e : Decision)
      → verdict keep d ≡ verdict escalate e
      → verdict keep
          (or_else_decide (check_allowed_match_v2 state (with_approval true policy) ids) d)
        ≡ verdict escalate
            (or_else_decide (check_allowed_match_v2 state (with_approval false policy) ids) e)
  unfolding check_allowed_match_v2
  check_allowed_match_v2-approval state [] d e h = h
  check_allowed_match_v2-approval state (id ∷ ids) d e h =
      ground (arith, check_allowed_match_v2-approval state ids d e h)

  blocked-verdict :
      (state : OperationalState) (ids : List String) (d e : Decision)
      → verdict keep d ≡ verdict escalate e
      → verdict keep (or_else_decide (check_blocked_v2 state ids) d)
        ≡ verdict escalate (or_else_decide (check_blocked_v2 state ids) e)
  unfolding check_blocked_v2
  blocked-verdict state [] d e h = h
  blocked-verdict state (id ∷ ids) d e h = ground (arith, blocked-verdict state ids d e h)

  unresolved-verdict :
      (state : OperationalState) (ids : List String) (d e : Decision)
      → verdict keep d ≡ verdict escalate e
      → verdict keep (or_else_decide (check_unresolved_v2 state ids) d)
        ≡ verdict escalate (or_else_decide (check_unresolved_v2 state ids) e)
  unfolding check_unresolved_v2
  unresolved-verdict state [] d e h = h
  unresolved-verdict state (id ∷ ids) d e h = ground (arith, unresolved-verdict state ids d e h)

  decide_v2-approval :
      (state : OperationalState)
      → verdict keep (decide_v2 state (with_approval true policy))
        ≡ verdict escalate (decide_v2 state (with_approval false policy))
  decide_v2-approval state =
      unfold decide_v2 in
      blocked-verdict state policy.blocked_by _ _ (
        check_allowed_match_v2-approval state policy.allow _ _
          (unresolved-verdict state policy.allow _ _ refl))

  decide_legacy-approval :
      (evidence : List Evidence)
      → verdict keep (decide_legacy evidence (with_approval true policy))
        ≡ verdict escalate (decide_legacy evidence (with_approval false policy))
  decide_legacy-approval evidence =
      unfold decide_legacy in
      conclude_legacy-approval (collect_blocking (by_id evidence) policy.required_evidence [])

  route-approval :
      (schema : PolicySchema) (subject : Subject)
      → verdict_of keep (route schema subject (with_approval true policy))
        ≡ verdict_of escalate (route schema subject (with_approval false policy))
  unfolding route
  route-approval v1_legacy (from_evidence evidence) = ap ok (decide_legacy-approval evidence)
  route-approval v1_legacy (from_state state) = refl
  route-approval v2_situational (from_evidence evidence) = refl
  route-approval v2_situational (from_state state) = ap ok (decide_v2-approval state)

  -- Whatever the schema, the decision of a policy that asks for approval is the decision of the same
  -- policy without, with ALLOW turned into HUMAN_REVIEW: BLOCK, the blocking evidence and the
  -- errors stay.
  pub decide-approval :
      (subject : Subject)
      → verdict_of keep (decide subject (with_approval true policy))
        ≡ verdict_of escalate (decide subject (with_approval false policy))
  decide-approval subject = unfold decide in route-approval policy.schema subject
