-- ===== src/Integrity/Situational.antt =====
-- The check of an ALLOW under a policy that lists situations, against the V2 engine.
use evidence_tool.Base.{
  ◌||◌, ap, ◌∙◌, String, ◌≡◌, ◌↔◌, refl, true, false, not, ◌&&◌, Option, none, some, List, [], ◌∷◌,
  arith, is_empty, All, Any, any, contains, Nodup, if◌then◌else◌,
}
use evidence_tool.Models.Evidence.{Evidence, ids, by_id}
use evidence_tool.Models.Policy.{Policy}
use evidence_tool.Models.Correlation.{
  Situation, SituationEvaluation, OperationalState, is_ambiguous, ambiguous, situation_ids,
}
use evidence_tool.Models.Decision
use evidence_tool.Models.Decision.{Decision, DecisionStatus}
use evidence_tool.Engine.{evaluation_of, decide_v2}
use evidence_tool.Correlation.{correlate_state}
use evidence_tool.Engine.Situational.{Occurs, decide_v2-proceeds_iff}
use evidence_tool.Integrity.{
  is_situational, ambiguity_violation, ambiguity_violations, situational_violations,
  allow_violations, status_violations, validate_decision_integrity,
}
use evidence_tool.Integrity.Identity.{
  is_empty-append, is_empty-flag, AreKnown, identity_violations-empty_iff,
}

-- The evaluation of an allowed id is not ambiguous; without an evaluation, no other is.
abbrev pub IsUnambiguous : OperationalState → Option SituationEvaluation → Type 0
IsUnambiguous state none = ambiguous state ≡ false
IsUnambiguous state (some ev) = ev.unresolved_evidence ≡ []

-- The evaluation of an allowed id has unresolved evidence.
abbrev pub IsAmbiguousAt : Option SituationEvaluation → Type 0
IsAmbiguousAt none = ⊥
IsAmbiguousAt (some ev) = is_ambiguous ev ≡ true

-- what the check asks of a state, apart from the texts it reports
pub record AllowsState (policy : Policy) (state : OperationalState) : Type 0 where
  pub allowed : Any (λ s. contains policy.allow s.id ≡ true) state.situations
  pub not_blocked : ¬ Any (λ s. contains policy.blocked_by s.id ≡ true) state.situations
  pub unambiguous : All (λ id. IsUnambiguous state (evaluation_of state id)) policy.allow

ambiguity_violation-empty_iff :
    (state : OperationalState) (id : String) (ev : Option SituationEvaluation)
    → (is_empty (ambiguity_violation state id ev) ≡ true) ↔ IsUnambiguous state ev
unfolding ambiguity_violation
ambiguity_violation-empty_iff state id none = rw is_empty-flag (ground arith)
ambiguity_violation-empty_iff state id (some ev) = rw is_empty-flag (ground arith)

ambiguity_violations-empty_iff :
    (state : OperationalState) (allow : List String)
    → (is_empty (ambiguity_violations state allow) ≡ true)
      ↔ All (λ id. IsUnambiguous state (evaluation_of state id)) allow
unfolding ambiguity_violations
ambiguity_violations-empty_iff state [] = (λ h. tt, λ h. refl)
ambiguity_violations-empty_iff state (id ∷ rest) = rw is_empty-append (
    ground (
      arith,
      ambiguity_violations-empty_iff state rest,
      ambiguity_violation-empty_iff state id (evaluation_of state id),
    ))

any_listed_iff :
    (listed : List String) (ss : List Situation)
    → (any (λ s. contains listed s.id) ss ≡ true) ↔ Any (λ s. contains listed s.id ≡ true) ss
any_listed_iff listed [] = (λ h. cc, λ h. absurd h)
any_listed_iff listed (s ∷ ss) = ground (arith, any_listed_iff listed ss)

AreKnown-nil : (blocking known : List String) → blocking ≡ [] → AreKnown blocking known
AreKnown-nil [] known e a m = cc
AreKnown-nil (x ∷ xs) known e a m = cc

is_situational_of_Any :
    (P : String → Type 0) (policy : Policy) → Any P policy.allow → is_situational policy ≡ true
is_situational_of_Any P policy other = go policy.allow other
  where
    go :
        (xs : List String)
        → Any P xs
        → (not (is_empty xs) || not (is_empty policy.blocked_by)) ≡ true
    go [] h = absurd h
    go (x ∷ xs) h = refl

no_ambiguity :
    (state : OperationalState) (xs : List String)
    → All (λ id. IsUnambiguous state (evaluation_of state id)) xs
    → Any (λ id. IsAmbiguousAt (evaluation_of state id)) xs
    → ⊥
no_ambiguity state [] h other = other
no_ambiguity state (id ∷ xs) h other =
    ground (arith, no_ambiguity state xs h.1, clash (evaluation_of state id) h.0)
  where
    clash : (ev : Option SituationEvaluation) → IsUnambiguous state ev → ¬ IsAmbiguousAt ev
    clash none _ x = x
    clash (some ev) u x = ground arith

module _ (policy : Policy) (evidence : List Evidence) (state : OperationalState) where
  situational_violations-empty_iff :
      (is_empty (situational_violations policy (some state)) ≡ true) ↔ AllowsState policy state
  unfolding situational_violations
  situational_violations-empty_iff =
      rw (is_empty-append, is_empty-append, is_empty-append)
        (ground (
          arith,
          any_listed_iff policy.allow state.situations,
          any_listed_iff policy.blocked_by state.situations,
          ambiguity_violations-empty_iff state policy.allow,
        ))

  status_violations-allow :
      (d : Decision)
      → is_situational policy ≡ true
      → is_empty (status_violations Decision.allow d policy evidence (some state)) ≡ (
          is_empty d.blocking_evidence
          && (not policy.human_approval && is_empty (situational_violations policy (some state))))
  unfolding status_violations allow_violations
  status_violations-allow d situational =
      rw (is_empty-append, is_empty-append, situational) (ground arith)

  status_violations-status :
      (d : Decision)
      → is_situational policy ≡ true
      → d.status ≡ Decision.allow
      → is_empty (status_violations d.status d policy evidence (some state)) ≡ (
          is_empty d.blocking_evidence
          && (not policy.human_approval && is_empty (situational_violations policy (some state))))
  status_violations-status d situational allowed =
      ap (λ s. is_empty (status_violations s d policy evidence (some state))) allowed
      ∙ status_violations-allow d situational

  module _ (situational : is_situational policy ≡ true) (d : Decision) where
    -- Under a policy that lists situations, an ALLOW passes the check exactly when the evidence ids are unique, no evidence blocks, no
    -- approval is asked for, a matched situation is allowed, none is blocked, and no allowed id has
    -- an ambiguous evaluation, nor the state any at all if an allowed id has no evaluation.
    pub validate-allow_iff :
        d.status ≡ Decision.allow
        → ((validate_decision_integrity d policy evidence (some state)).is_valid ≡ true) ↔ (
            Nodup (ids evidence)
            × (d.blocking_evidence ≡ [])
            × (policy.human_approval ≡ false)
            × AllowsState policy state)
    validate-allow_iff allowed =
        unfold validate_decision_integrity in
        simp (is_empty-append, status_violations-status d situational allowed)
          (ground (
            arith,
            identity_violations-empty_iff d.blocking_evidence (ids evidence),
            situational_violations-empty_iff,
            AreKnown-nil d.blocking_evidence (ids evidence),
          ))

-- Over a catalog without repeated ids, where the policy asks for no approval and the evidence matches
-- the signature of an allowed situation and of no situation that blocks, the V2 engine decides
-- ALLOW, and the check reports this decision as a violation if the evaluation of another allowed
-- situation has unresolved evidence.
pub decide_v2_reported :
    (policy : Policy) (evidence : List Evidence) (catalog : List Situation)
    → Nodup (situation_ids catalog)
    → policy.human_approval ≡ false
    → ¬ Any (Occurs (by_id evidence) catalog) policy.blocked_by
    → Any (Occurs (by_id evidence) catalog) policy.allow
    → Any (λ id. IsAmbiguousAt (evaluation_of (correlate_state evidence catalog) id)) policy.allow
    → ((decide_v2 (correlate_state evidence catalog) policy).status ≡ Decision.allow)
      × ((validate_decision_integrity
            (decide_v2 (correlate_state evidence catalog) policy)
            policy
            evidence
            (some (correlate_state evidence catalog))).is_valid
          ≡ false)
decide_v2_reported policy evidence catalog unique no_approval unblocked occurs other =
    let state = correlate_state evidence catalog in
    let allowed : (decide_v2 state policy).status ≡ Decision.allow =
      (decide_v2-proceeds_iff evidence catalog unique policy).1 (unblocked, occurs)
      ∙ ap (λ b. if b then Decision.human_review else Decision.allow) no_approval in
    (
      allowed,
      ground (
        arith,
        validate-allow_iff policy evidence state (is_situational_of_Any _ policy other)
            (decide_v2 state policy) allowed,
        no_ambiguity state policy.allow,
      ),
    )
