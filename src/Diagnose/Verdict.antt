-- ===== src/Diagnose/Verdict.antt =====
-- What the result of `diagnose` says about the observations.
use evidence_tool.Base.{
  ℕ, String, ◌≡◌, ◌≢◌, ◌↔◌, refl, sym, ap, subst, ◌∙◌, ◌⊎◌, inl, inr, true, false, Option, none,
  some, List, [], ◌∷◌, arith, any, All, Any, contains, Nodup, ok, Option-cases,
}
use evidence_tool.Base.Int.{ℤ}
use evidence_tool.Base.Dict.{Dict, lookup, insert, lookup-insert}
use evidence_tool.Models.Observation.{Observation}
use evidence_tool.Models.Evidence.{Evidence, evidence_id, pass, ids, index_from, by_id}
use evidence_tool.Models.Policy
use evidence_tool.Models.Policy.{
  Policy, EvidenceRequirement, v1_legacy, v2_situational, requirement_ids,
}
use evidence_tool.Models.Correlation.{Situation, OperationalState}
use evidence_tool.Models.Decision
use evidence_tool.Models.Decision.{Decision, DecisionStatus}
use evidence_tool.Evaluator.{Numerals, raw_status, evaluate_observation, evaluate_observations}
use evidence_tool.Evaluator.Freshness.{evaluate_observation-definite_iff}
use evidence_tool.Correlation.{correlate_state}
use evidence_tool.Engine.{decide, decide_legacy, decide_v2}
use evidence_tool.Engine.Legacy.{
  SatisfiedBy, IsSatisfied, IsUnsatisfied, decide_legacy-proceeds_iff, decide_legacy-cases,
  contains-blocking_evidence_legacy,
}
use evidence_tool.Integrity.{is_situational}
use evidence_tool.Integrity.Identity.{AreKnown}
use evidence_tool.Integrity.Legacy.{validate-decide_legacy_iff}
use evidence_tool.Causality.Models.{CausalRule}
use evidence_tool.Capability.{ExecutionContext}
use evidence_tool.Diagnose.{
  DiagnosisResult, max_ages, is_denied, subject_for, evidence_of, report, conclude, diagnose,
}
use evidence_tool.Diagnose.Namespaces.{namespace_of, needed_namespaces}
use evidence_tool.Diagnose.Collect.{Registry, ids_of, collect_all, Collected}
use evidence_tool.Diagnose.Coverage.{collect_all-covers}

-- evidence that is found under an id is evidence of that id
lookup-index_from :
    (k : String) (d : Dict Evidence) (es : List Evidence) (e : Evidence)
    → lookup k (index_from d es) ≡ some e
    → (lookup k d ≡ some e) ⊎ ((evidence_id e ≡ k) × Any (λ (x : Evidence). x ≡ e) es)
unfolding index_from
lookup-index_from k d [] e h = inl h
lookup-index_from k d (x ∷ es) e h = ground (
  arith,
  lookup-index_from k (insert (evidence_id x) x d) es e,
  lookup-insert k (evidence_id x) x d,
)

lookup-by_id :
    (k : String) (es : List Evidence) (e : Evidence)
    → lookup k (by_id es) ≡ some e
    → (evidence_id e ≡ k) × Any (λ (x : Evidence). x ≡ e) es
unfolding lookup
lookup-by_id k es e h = ground (arith, lookup-index_from k [] es e)

observation-evaluate_observation :
    (numerals : Numerals) (o : Observation) (limit : Option ℤ) (now : ℕ)
    → (evaluate_observation numerals o limit now).observation ≡ o
unfolding evaluate_observation
observation-evaluate_observation numerals o none now = ground arith
observation-evaluate_observation numerals o (some limit) now = ground arith

pass_of_strict :
    (req : EvidenceRequirement) (found : Option Evidence)
    → SatisfiedBy req found
    → req.on_unknown ≡ Policy.OnUnknown.block
    → (e : Evidence) × (found ≡ some e) × (e.status ≡ pass)
pass_of_strict req none h strict = cc
pass_of_strict req (some e) (inl p) strict = (e, refl, p)
pass_of_strict req (some e) (inr (p, q)) strict = cc

abbrev pub Passes : String → Observation → Type 0
Passes id o = (o.id ≡ id) × (raw_status o ≡ pass)

module _ (numerals : Numerals) (ages : Dict ℤ) (clock : Observation → ℕ) where
  ids-evaluate_observations :
      (os : List Observation) → ids (evaluate_observations numerals os ages clock) ≡ ids_of os
  unfolding evaluate_observations
  ids-evaluate_observations [] = refl
  ids-evaluate_observations (o ∷ os) = ground (
    arith,
    observation-evaluate_observation numerals o (lookup o.id ages) (clock o),
    ids-evaluate_observations os,
  )

  any_denied-evaluate_observations :
      (os : List Observation)
      → any
          (λ (e : Evidence). is_denied e.observation)
          (evaluate_observations numerals os ages clock)
        ≡ any is_denied os
  unfolding evaluate_observations
  any_denied-evaluate_observations [] = refl
  any_denied-evaluate_observations (o ∷ os) = ground (
    arith,
    observation-evaluate_observation numerals o (lookup o.id ages) (clock o),
    any_denied-evaluate_observations os,
  )

  Passes-of_member :
      (os : List Observation) (e : Evidence)
      → Any (λ (x : Evidence). x ≡ e) (evaluate_observations numerals os ages clock)
      → e.status ≡ pass
      → Any (Passes (evidence_id e)) os
  unfolding evaluate_observations
  Passes-of_member [] e m p = absurd m
  Passes-of_member (o ∷ os) e (inl q) p = inl (
    ap (λ (x : Observation). x.id)
          (sym (observation-evaluate_observation numerals o (lookup o.id ages) (clock o)))
        ∙ ap evidence_id q,
    ((evaluate_observation-definite_iff numerals o (clock o) (lookup o.id ages) pass cc).0
        (ap (λ (x : Evidence). x.status) q ∙ p)).0,
  )
  Passes-of_member (o ∷ os) e (inr m) p = inr (Passes-of_member os e m p)

  Passes-of_satisfied :
      (os : List Observation) (req : EvidenceRequirement)
      → IsSatisfied (by_id (evaluate_observations numerals os ages clock)) req
      → req.on_unknown ≡ Policy.OnUnknown.block
      → Any (Passes req.id) os
  Passes-of_satisfied os req h strict =
      let es = evaluate_observations numerals os ages clock in
      let (e, p, passed) = pass_of_strict req (lookup req.id (by_id es)) h strict in
      let (named, member) = lookup-by_id req.id es e p in
      rw (sym named) (Passes-of_member os e member passed)

IsSatisfied-of_all :
    (evidence : Dict Evidence) (req : EvidenceRequirement) (reqs : List EvidenceRequirement)
    → Any (λ (x : EvidenceRequirement). x ≡ req) reqs
    → All (IsSatisfied evidence) reqs
    → IsSatisfied evidence req
IsSatisfied-of_all evidence req [] m h = absurd m
IsSatisfied-of_all evidence req (x ∷ reqs) (inl p) h = subst (IsSatisfied evidence) p h.0
IsSatisfied-of_all evidence req (x ∷ reqs) (inr m) h = IsSatisfied-of_all evidence req reqs m h.1

required_of_unsatisfied :
    (evidence : Dict Evidence) (id : String) (reqs : List EvidenceRequirement)
    → Any (IsUnsatisfied evidence id) reqs
    → contains (requirement_ids reqs) id ≡ true
required_of_unsatisfied evidence id [] h = absurd h
required_of_unsatisfied evidence id (req ∷ rest) h =
    ground (arith, required_of_unsatisfied evidence id rest)

proceeds_of_not_block :
    {s t : DecisionStatus} → (s ≡ Decision.block) ⊎ (s ≡ t) → s ≢ Decision.block → s ≡ t
proceeds_of_not_block (inl p) h = absurd (h p)
proceeds_of_not_block (inr p) h = p

decide-subject_for :
    (schema : Policy.PolicySchema) (policy : Policy) (es : List Evidence) (state : OperationalState)
    → policy.schema ≡ schema
    → (d : Decision) × (decide (subject_for schema es state) policy ≡ ok d)
unfolding decide subject_for
decide-subject_for v1_legacy policy es state h = (decide_legacy es policy, rw h refl)
decide-subject_for v2_situational policy es state h = (decide_v2 state policy, rw h refl)

decide-subject_for_legacy :
    (policy : Policy) (es : List Evidence) (state : OperationalState)
    → policy.schema ≡ v1_legacy
    → decide (subject_for policy.schema es state) policy ≡ ok (decide_legacy es policy)
unfolding decide subject_for
decide-subject_for_legacy policy es state h = rw h refl

module _ (numerals : Numerals) (order : List String → List String) (clock : Observation → ℕ)
    (registry : Registry) (policy : Policy) (catalog : List Situation) (rules : List CausalRule)
    (execution : Option ExecutionContext) where
  abbrev collected : Collected
  collected = collect_all registry policy catalog (needed_namespaces policy catalog) execution

  abbrev found : List Evidence
  found = evidence_of numerals order clock policy collected

  -- `diagnose` gives a result, whatever the policy's schema and whatever the providers do.
  pub diagnose_total :
      (r : DiagnosisResult) × (diagnose numerals order clock registry policy catalog rules execution
        ≡ ok r)
  unfolding diagnose conclude
  diagnose_total =
      let (d, p) =
        decide-subject_for policy.schema policy found (correlate_state found catalog) refl in
      (report numerals order clock policy catalog rules collected d, rw p refl)

  known :
      ((id : String)
        → contains (requirement_ids policy.required_evidence) id ≡ true
        → namespace_of id ≢ none)
      → AreKnown (decide_legacy found policy).blocking_evidence (ids_of collected.observations)
  known dotted id m =
      let required =
        required_of_unsatisfied (by_id found) id policy.required_evidence
          ((contains-blocking_evidence_legacy found policy id).0 m) in
      elim (Option-cases (namespace_of id)) [
        | inl p ↦ absurd (dotted id required p)
        | inr (namespace, p) ↦
            collect_all-covers registry policy catalog id (inl required) namespace p execution
      ]

  diagnose_legacy :
      policy.schema ≡ v1_legacy
      → diagnose numerals order clock registry policy catalog rules execution
        ≡ ok (
            report numerals order clock policy catalog rules collected (decide_legacy found policy))
  unfolding diagnose conclude
  diagnose_legacy v1 =
      rw (decide-subject_for_legacy policy found (correlate_state found catalog) v1) refl

  module _ (r : DiagnosisResult) (v1 : policy.schema ≡ v1_legacy)
      (returned : diagnose numerals order clock registry policy catalog rules execution
        ≡ ok r) where
    result_legacy :
        report numerals order clock policy catalog rules collected (decide_legacy found policy) ≡ r
    result_legacy = ok-inj (sym (diagnose_legacy v1) ∙ returned)
      where
        ok-inj : {x y : DiagnosisResult} → ok x ≡ ok y → x ≡ y
        ok-inj h = cc

    -- Under a V1 policy, a decision other than BLOCK means that any requirement of the policy whose
    -- `on_unknown` is BLOCK has an observation with status PASS.
    pub diagnose_legacy-proceeds :
        (req : EvidenceRequirement)
        → r.decision.status ≢ Decision.block
        → Any (λ (x : EvidenceRequirement). x ≡ req) policy.required_evidence
        → req.on_unknown ≡ Policy.OnUnknown.block
        → Any (Passes req.id) r.observations
    unfolding report evidence_of
    diagnose_legacy-proceeds req =
        subst
          (λ (x : DiagnosisResult).
            x.decision.status ≢ Decision.block
            → Any (λ (y : EvidenceRequirement). y ≡ req) policy.required_evidence
            → req.on_unknown ≡ Policy.OnUnknown.block
            → Any (Passes req.id) x.observations)
          result_legacy
          (λ h required strict.
            Passes-of_satisfied numerals (max_ages policy) clock collected.observations req
              (IsSatisfied-of_all (by_id found) req policy.required_evidence required (
                (decide_legacy-proceeds_iff found policy).0
                  (proceeds_of_not_block (decide_legacy-cases found policy) h)))
              strict)

    -- Under a V1 policy that lists no situations and requires dotted ids only, the run counts as a
    -- success exactly when no observation reports a denied capability and no id was observed twice.
    pub diagnose_legacy-success_iff :
        is_situational policy ≡ false
        → ((id : String)
            → contains (requirement_ids policy.required_evidence) id ≡ true
            → namespace_of id ≢ none)
        → (r.success ≡ true)
          ↔ ((any is_denied r.observations ≡ false) × Nodup (ids_of r.observations))
    unfolding report evidence_of
    diagnose_legacy-success_iff legacy dotted =
        subst
          (λ (x : DiagnosisResult).
            (x.success ≡ true)
            ↔ ((any is_denied x.observations ≡ false) × Nodup (ids_of x.observations)))
          result_legacy
          (ground (
            arith,
            validate-decide_legacy_iff policy found (some (correlate_state found catalog)) legacy,
            any_denied-evaluate_observations numerals (max_ages policy) clock
                collected.observations,
            ids-evaluate_observations numerals (max_ages policy) clock collected.observations,
            known dotted,
          ))
