-- ===== src/Integrity/Legacy.antt =====
-- The check against the V1 engine.
use evidence_tool.Base.{
  ◌≡◌, ◌↔◌, refl, true, false, Option, none, some, List, [], ◌∷◌, arith, is_empty, All, Nodup,
}
use evidence_tool.Base.Dict.{Dict, lookup}
use evidence_tool.Models.Evidence.{Evidence, by_id, ids}
use evidence_tool.Models.Policy.{EvidenceRequirement, Policy}
use evidence_tool.Models.Correlation.{OperationalState}
use evidence_tool.Models.Decision
use evidence_tool.Models.Decision.{Decision, DecisionStatus}
use evidence_tool.Engine.{decide_legacy}
use evidence_tool.Engine.Legacy.{
  SatisfiedBy, IsSatisfied, decide_legacy-proceeds_iff, decide_legacy-blocks_iff,
  decide_legacy-cases,
}
use evidence_tool.Integrity.{
  is_situational, requirement_violation, requirement_violations, block_violations,
  review_violations, allow_violations, status_violations, identity_violations,
  validate_decision_integrity,
}
use evidence_tool.Integrity.Identity.{
  is_empty-append, is_empty-flag, AreKnown, identity_violations-empty_iff,
}

requirement_violation-empty_iff :
    (req : EvidenceRequirement) (found : Option Evidence)
    → (is_empty (requirement_violation req found) ≡ true) ↔ SatisfiedBy req found
unfolding requirement_violation
requirement_violation-empty_iff req none = ground arith
requirement_violation-empty_iff req (some e) = ground arith

requirement_violations-empty_iff :
    (evidence : Dict Evidence) (reqs : List EvidenceRequirement)
    → (is_empty (requirement_violations evidence reqs) ≡ true) ↔ All (IsSatisfied evidence) reqs
unfolding requirement_violations
requirement_violations-empty_iff evidence [] = (λ h. tt, λ h. refl)
requirement_violations-empty_iff evidence (req ∷ rest) = rw is_empty-append (
    ground (
      arith,
      requirement_violations-empty_iff evidence rest,
      requirement_violation-empty_iff req (lookup req.id evidence),
    ))

module _ (policy : Policy) (evidence : List Evidence) (state : Option OperationalState) where
  module _ (legacy : is_situational policy ≡ false) where
    allow_violations-empty_iff :
        (d : Decision)
        → (is_empty (allow_violations d policy evidence state) ≡ true) ↔ (
            (d.blocking_evidence ≡ [])
            × (policy.human_approval ≡ false)
            × All (IsSatisfied (by_id evidence)) policy.required_evidence)
    unfolding allow_violations
    allow_violations-empty_iff d =
        rw (is_empty-append, is_empty-append, is_empty-flag, is_empty-flag, legacy)
          (ground
            (arith, requirement_violations-empty_iff (by_id evidence) policy.required_evidence))

    -- Where an ALLOW passes the check under a policy that lists no situations, the V1 engine
    -- decides ALLOW, too.
    pub decide_legacy_of_valid :
        (d : Decision)
        → d.status ≡ Decision.allow
        → (validate_decision_integrity d policy evidence state).is_valid ≡ true
        → (decide_legacy evidence policy).status ≡ Decision.allow
    unfolding validate_decision_integrity status_violations
    decide_legacy_of_valid d allowed valid = ground (
      arith,
      is_empty-append (identity_violations d.blocking_evidence (ids evidence))
          (status_violations d.status d policy evidence state),
      allow_violations-empty_iff d,
      decide_legacy-proceeds_iff evidence policy,
    )

    status_violations-decide_legacy :
        let d = decide_legacy evidence policy in
        is_empty (status_violations d.status d policy evidence state) ≡ true
    unfolding status_violations block_violations review_violations
    status_violations-decide_legacy = ground (
      arith,
      allow_violations-empty_iff (decide_legacy evidence policy),
      decide_legacy-proceeds_iff evidence policy,
      decide_legacy-blocks_iff evidence policy,
      decide_legacy-cases evidence policy,
    )

    -- Under a policy that lists no situations, allowed or blocking, the V1 engine's own decision
    -- passes the check exactly when the evidence ids are unique and all blocking ids have evidence.
    pub validate-decide_legacy_iff :
        ((validate_decision_integrity
            (decide_legacy evidence policy)
            policy
            evidence
            state).is_valid
          ≡ true)
        ↔ (Nodup (ids evidence)
            × AreKnown (decide_legacy evidence policy).blocking_evidence (ids evidence))
    unfolding validate_decision_integrity
    validate-decide_legacy_iff =
        rw (is_empty-append, status_violations-decide_legacy)
          (ground (
            arith,
            identity_violations-empty_iff (decide_legacy evidence policy).blocking_evidence
                (ids evidence),
          ))
