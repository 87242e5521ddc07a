-- ===== src/Agent.antt =====
-- agent/gate.py and agent/models.py: the gate between an AI agent and `diagnose`. The gate is taken
-- as built: its constructor's loading of files and the trace are not modelled.
pub mod Gate
use evidence_tool.Base.{
  ℕ, zero, String, ◌<>◌, Bool, true, false, not, ◌&&◌, ◌||◌, Option, none, some, List, [], ◌∷◌,
  ◌==◌, if◌then◌else◌, nonempty, split, has_infix, Result, ok, err, Error, value_error,
  capability_denied, ◌>>=◌, ◌>>◌, guard,
}
use evidence_tool.Base.Dict.{Dict, lookup}
use evidence_tool.Base.Int.{ℤ, pos}
use evidence_tool.Models.Value.{Value, truthy}
use evidence_tool.Models.Observation.{Observation}
use evidence_tool.Models.Evidence.{Evidence, evidence_id, pass, same_status}
use evidence_tool.Models.Policy.{Policy}
use evidence_tool.Models.Correlation.{Situation}
use evidence_tool.Models.Decision.{DecisionStatus, allow, block, human_review, decision_text}
use evidence_tool.Evaluator.{Numerals}
use evidence_tool.Causality.Models.{CausalRule, causality_text}
use evidence_tool.Capability.{
  CallerType, ai_agent, human, automated_pipeline, unknown_caller, caller_text, CapabilitySet,
  NetworkCapability, KubernetesCapability, default_network, default_kubernetes, new_tracker,
  IpAddresses, ExecutionContext, AuthorityMetadata, clone_isolated, post_init,
  require_ssh_transport, remaining,
}
use evidence_tool.Diagnose.{DiagnosisResult, diagnose, authority_of}
use evidence_tool.Diagnose.Collect.{Registry}
use evidence_tool.Loaders.{Printing}

pub record AgentDiagnosisRequest : Type 0 where
  pub agent_id : String
  pub action : String
  pub target : String
  pub context : Dict Value
  pub session_id : Option String
  pub policy_path : Option String
  pub caller_type : CallerType

pub record AgentDiagnosisResult : Type 0 where
  pub is_allowed : Bool
  pub status : String
  pub reason : String
  pub matching_situation : Option String
  pub root_cause_evidence : List String
  pub supporting_evidence : List String
  pub recommendation : String
  pub authority : Option AuthorityMetadata
  pub causality_status : String
  pub primary_root_cause : Option String
  pub causal_chain : List String
  pub propagated_symptoms : List String
  pub precluded_hypotheses : List String
  pub raw_diagnosis : DiagnosisResult

pub record AgentSafetyGate : Type 0 where
  pub capabilities : CapabilitySet
  pub explicit_capability_policy : Bool
  pub catalog : List Situation
  pub causality_catalog : List CausalRule
  pub default_policy : Option Policy

-- the capabilities of a gate that is given none
abbrev pub loopback_only : CapabilitySet
loopback_only = post_init (record {
  network = record default_network { targets = "127.0.0.0/8" ∷ "::1" ∷ [] };
  kubernetes = record default_kubernetes {
    enabled = false;
    operations = [];
    allowed_namespaces = [];
  };
  allowed_providers = none;
  require_trusted_providers = false;
  policy_fingerprint = none;
  probe_tracker = new_tracker none;
})

unfoldable pub is_ai_agent : CallerType → Bool
is_ai_agent ai_agent = true
is_ai_agent human = false
is_ai_agent automated_pipeline = false
is_ai_agent unknown_caller = false

-- `reason.split("'")[1]`
second : List String → Option String
second (_ ∷ s ∷ _) = some s
second _ = none

unfoldable pub matching_situation_of : String → Option String
unfolding second
matching_situation_of reason =
    if has_infix reason "Situation '" then second (split 39 reason) else none

unfoldable pub supporting : List Evidence → List String
supporting [] = []
supporting (e ∷ es) =
    let rest = supporting es in if same_status e.status pass then evidence_id e ∷ rest else rest

-- `decision.status == DecisionStatus.ALLOW`
unfoldable pub is_allow : DecisionStatus → Bool
is_allow allow = true
is_allow block = false
is_allow human_review = false

-- What else the gate calls: the loader of a policy file, `str` on the values of the context, the
-- providers for a context of texts, and the parameters of `diagnose` and of the capabilities.
pub record Environment : Type 1 where
  pub load_policy : String → Result Policy
  pub printing : Printing
  pub registry : Dict String → Registry
  pub numerals : Numerals
  pub order : List String → List String
  pub clock : Observation → ℕ
  pub ip : IpAddresses

module _ (env : Environment) where
  open env use {load_policy, printing, registry, numerals, order, clock, ip}

  unfoldable pub from_path : Option String → CallerType → Result Policy
  unfolding is_ai_agent
  from_path none caller_type =
      err (value_error "No policy specified in request or default gate configuration.")
  from_path (some path) caller_type =
      if nonempty path
      then (if is_ai_agent caller_type
          then err (
              capability_denied
                "AI agents require a gate default policy; request policy_path is not trusted.")
          else load_policy path)
      else err (value_error "No policy specified in request or default gate configuration.")

  unfoldable pub resolve_policy : AgentSafetyGate → AgentDiagnosisRequest → Result Policy
  unfolding from_path
  resolve_policy gate request = elim gate.default_policy [
    | some policy ↦ ok policy
    | none ↦ from_path request.policy_path request.caller_type
  ]

  -- the confinement of an SSH destination, and the capabilities after the probe it counts as
  unfoldable pub confine :
      AgentSafetyGate → Option Value → CapabilitySet → Result (Unit {0}) × CapabilitySet
  confine gate none c = (ok tt, c)
  confine gate (some host) c =
      if truthy host
      then (if gate.explicit_capability_policy
          then require_ssh_transport printing.number ip (printing.value host) c
          else (err (capability_denied "SSH transport requires an explicit capability policy."), c))
      else (ok tt, c)

  unfoldable pub str_context : Dict Value → Dict String
  str_context [] = []
  str_context ((k, v) ∷ rest) = (k, printing.value v) ∷ str_context rest

  unfoldable pub execution_for : AgentDiagnosisRequest → CapabilitySet → ExecutionContext
  execution_for request c = record {
    caller = request.agent_id;
    identity = record {
      caller_id = request.agent_id;
      caller_type = request.caller_type;
      session_id = request.session_id;
    };
    transport_host = none;
    capabilities = c;
  }

  -- The authority names the caller and the counts of the tracker, as that of `diagnose` does.
  unfoldable pub answer : DiagnosisResult → AgentDiagnosisResult
  answer raw_result = record {
    is_allowed = is_allow raw_result.decision.status;
    status = decision_text raw_result.decision.status;
    reason = raw_result.decision.reason;
    matching_situation = matching_situation_of raw_result.decision.reason;
    root_cause_evidence = raw_result.decision.blocking_evidence;
    supporting_evidence = supporting raw_result.evidence;
    recommendation = raw_result.recommendation;
    authority = raw_result.authority;
    causality_status = causality_text raw_result.causality.status;
    primary_root_cause = raw_result.causality.primary_root_cause;
    causal_chain = raw_result.causality.causal_chain;
    propagated_symptoms = raw_result.causality.propagated_symptoms;
    precluded_hypotheses = raw_result.causality.precluded_hypotheses;
    raw_diagnosis = raw_result;
  }

  unfoldable pub run :
      AgentSafetyGate → AgentDiagnosisRequest → Policy → CapabilitySet → Result AgentDiagnosisResult
  unfolding answer str_context execution_for
  run gate request policy c = do
    raw_result ←
        diagnose numerals order clock (registry (str_context request.context)) policy gate.catalog
          gate.causality_catalog (some (execution_for request c))
    ok (answer raw_result)

  unfoldable pub evaluate : AgentSafetyGate → AgentDiagnosisRequest → Result AgentDiagnosisResult
  unfolding run
  evaluate gate request = do
    policy ← resolve_policy gate request
    guard (policy.action == request.action) (
        value_error (
          "Policy action mismatch: policy governs '"
          <> (policy.action <> ("' but agent requested '" <> (request.action <> "'.")))))
    let (confined, c) =
          confine gate (lookup "host" request.context) (clone_isolated gate.capabilities) in
        confined >> run gate request policy c
