-- ===== src/Diagnose.antt =====
-- diagnose.py: from a policy and the providers to a decision, its check and its explanation.
-- Metrics of time, trace spans, log lines and the incident's random id are not modelled.
pub mod Namespaces
pub mod Collect
pub mod Needed
pub mod Settled
pub mod Coverage
pub mod Verdict
use evidence_tool.Base.{
  ℕ, String, Bool, true, false, not, ◌&&◌, Option, none, some, List, [], ◌∷◌, any, Result, ok,
  ◌>>=◌,
}
use evidence_tool.Base.Dict.{Dict, insert}
use evidence_tool.Base.Int.{ℤ}
use evidence_tool.Models.Value.{Value, bool, get_key}
use evidence_tool.Models.Observation.{Observation}
use evidence_tool.Models.Evidence.{Evidence}
use evidence_tool.Models.Policy.{
  Policy, EvidenceRequirement, PolicySchema, v1_legacy, v2_situational,
}
use evidence_tool.Models.Correlation.{Situation, OperationalState}
use evidence_tool.Models.Decision.{Decision}
use evidence_tool.Evaluator.{Numerals, evaluate_observations}
use evidence_tool.Correlation.{correlate_state}
use evidence_tool.Engine.{Subject, from_evidence, from_state, decide}
use evidence_tool.Integrity.{IntegrityResult, validate_decision_integrity}
use evidence_tool.Causality.Models.{CausalRule, CausalExplanation}
use evidence_tool.Causality.Engine.{reconstruct_causality}
use evidence_tool.Capability.{ExecutionContext, AuthorityMetadata, caller_text, remaining}
use evidence_tool.Recommendation.{recommend}
use evidence_tool.Diagnose.Namespaces.{needed_namespaces}
use evidence_tool.Diagnose.Collect.{Registry, collect_all, Collected}

pub record DiagnosisResult : Type 0 where
  pub observations : List Observation
  pub evidence : List Evidence
  pub state : OperationalState
  pub policy : Policy
  pub decision : Decision
  pub recommendation : String
  pub success : Bool
  pub integrity_violation : Bool
  pub integrity : IntegrityResult
  pub authority : Option AuthorityMetadata
  pub causality : CausalExplanation

-- `{req.id: req.max_age ... if req.max_age is not None}`
unfoldable pub max_ages_from : Dict ℤ → List EvidenceRequirement → Dict ℤ
max_ages_from d [] = d
max_ages_from d (req ∷ rest) = elim req.max_age [
  | none ↦ max_ages_from d rest
  | some limit ↦ max_ages_from (insert req.id limit d) rest
]

unfoldable pub max_ages : Policy → Dict ℤ
unfolding max_ages_from
max_ages policy = max_ages_from [] policy.required_evidence

-- `e.observation.value.get("capability_denied") is True`
unfoldable pub is_true : Option Value → Bool
is_true (some (bool true)) = true
is_true _ = false

unfoldable pub is_denied : Observation → Bool
unfolding is_true
is_denied o = is_true (get_key "capability_denied" o.value)

-- the subject that the policy's schema asks for
unfoldable pub subject_for : PolicySchema → List Evidence → OperationalState → Subject
subject_for v2_situational evidence state = from_state state
subject_for v1_legacy evidence state = from_evidence evidence

unfoldable pub authority_of : Option ExecutionContext → Option AuthorityMetadata
authority_of none = none
authority_of (some execution) =
    let tracker = execution.capabilities.probe_tracker in
    some (record {
      caller_id = execution.identity.caller_id;
      caller_type = caller_text execution.identity.caller_type;
      session_id = execution.identity.session_id;
      policy_fingerprint = execution.capabilities.policy_fingerprint;
      probes_budget = tracker.max_probes;
      probes_consumed = tracker.consumed;
      probes_remaining = remaining tracker;
    })

-- `order` is the iteration order of sets, `clock` the reading of the clock for an observation.
module _ (numerals : Numerals) (order : List String → List String) (clock : Observation → ℕ) where
  unfoldable pub evidence_of : Policy → Collected → List Evidence
  evidence_of policy collected =
      evaluate_observations numerals collected.observations (max_ages policy) clock

  -- the rest after the decision
  unfoldable pub report :
      Policy → List Situation → List CausalRule → Collected → Decision → DiagnosisResult
  report policy catalog rules collected decision =
      let evidence = evidence_of policy collected in
      let state = correlate_state evidence catalog in
      let denied = any (λ (e : Evidence). is_denied e.observation) evidence in
      let integrity = validate_decision_integrity decision policy evidence (some state) in
      record {
        observations = collected.observations;
        evidence = evidence;
        state = state;
        policy = policy;
        decision = decision;
        recommendation = recommend decision;
        success = not denied && integrity.is_valid;
        integrity_violation = not (not denied && integrity.is_valid);
        integrity = integrity;
        authority = authority_of collected.execution;
        causality = reconstruct_causality order evidence state rules;
      }

  -- steps 3 to 5
  unfoldable pub conclude :
      Policy → List Situation → List CausalRule → Collected → Result DiagnosisResult
  unfolding report
  conclude policy catalog rules collected =
      let evidence = evidence_of policy collected in
      do
        decision ←
            decide (subject_for policy.schema evidence (correlate_state evidence catalog)) policy
        ok (report policy catalog rules collected decision)

  unfoldable pub diagnose :
      Registry
      → Policy
      → List Situation
      → List CausalRule
      → Option ExecutionContext
      → Result DiagnosisResult
  unfolding conclude
  diagnose registry policy catalog rules execution =
      conclude policy catalog rules
        (collect_all registry policy catalog (needed_namespaces policy catalog) execution)
