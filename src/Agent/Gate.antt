-- ===== src/Agent/Gate.antt =====
-- The answers of the gate in agent/gate.py.
use evidence_tool.Base.{
  String, ◌≡◌, ◌≢◌, refl, ap, sym, ◌∙◌, subst, Bool, true, false, Option, none, some, arith, ◌==◌,
  Any, Result, ok, Error, ◌>>◌, guard, >>=-eq-ok,
}
use evidence_tool.Base.Dict.{lookup}
use evidence_tool.Models.Value.{Value, truthy}
use evidence_tool.Models.Policy
use evidence_tool.Models.Policy.{Policy, EvidenceRequirement, v1_legacy}
use evidence_tool.Models.Decision
use evidence_tool.Models.Decision.{DecisionStatus}
use evidence_tool.Capability.{ai_agent, CapabilitySet, clone_isolated, require_ssh_transport}
use evidence_tool.Capability.Grants.{NetworkGranted, require_network_iff}
use evidence_tool.Diagnose.{diagnose, DiagnosisResult}
use evidence_tool.Diagnose.Verdict.{Passes, diagnose_legacy-proceeds}
use evidence_tool.Agent.{
  AgentDiagnosisRequest, AgentDiagnosisResult, AgentSafetyGate, Environment, is_ai_agent, is_allow,
  from_path, resolve_policy, confine, str_context, execution_for, answer, run, evaluate,
}

ok-inj {ℓ} : {A : Type ℓ} {x y : A} → ok x ≡ ok y → x ≡ y
ok-inj h = cc

guard->>= {ℓ} :
    {B : Type ℓ} (test : Bool) (e : Error) (m : Result B) (b : B)
    → (guard test e >> m) ≡ ok b
    → (test ≡ true) × (m ≡ ok b)
guard->>= true e m b h = (refl, h)
guard->>= false e m b h = cc

module _ (env : Environment) (gate : AgentSafetyGate) (request : AgentDiagnosisRequest) where
  open env use {registry, numerals, order, clock, ip, printing}

  abbrev confinement : Result (Unit {0}) × CapabilitySet
  confinement = confine env gate (lookup "host" request.context) (clone_isolated gate.capabilities)

  -- the steps of an evaluation that gives an answer
  record Evaluated (given : AgentDiagnosisResult) : Type 1 where
    policy : Policy
    resolved : resolve_policy env gate request ≡ ok policy
    governs : policy.action ≡ request.action
    confined : confinement.0 ≡ ok tt
    raw : DiagnosisResult
    diagnosed :
        diagnose numerals order clock
          (registry (str_context env request.context))
          policy
          gate.catalog
          gate.causality_catalog
          (some (execution_for env request confinement.1))
        ≡ ok raw
    answered : answer env raw ≡ given

  Evaluated-of :
      (given : AgentDiagnosisResult) → evaluate env gate request ≡ ok given → Evaluated given
  unfolding evaluate run
  Evaluated-of given h =
      let (policy, resolved, after) = >>=-eq-ok (resolve_policy env gate request) _ h in
      let (same, rest) = guard->>= (policy.action == request.action) _ _ given after in
      let (_, confined, ran) = >>=-eq-ok confinement.0 _ rest in
      let (raw, diagnosed, answered) =
        >>=-eq-ok
          (diagnose numerals order clock (registry (str_context env request.context)) policy
            gate.catalog gate.causality_catalog (some (execution_for env request confinement.1)))
          _ ran in
      record {
        policy = policy;
        resolved = resolved;
        governs = ground arith;
        confined = confined;
        raw = raw;
        diagnosed = diagnosed;
        answered = ok-inj answered;
      }

  from_path-agent : (path : Option String) (p : Policy) → from_path env path ai_agent ≢ ok p
  unfolding from_path is_ai_agent
  from_path-agent none p h = cc
  from_path-agent (some String.[]) p h = cc
  from_path-agent (some (String.◌∷◌ _ _)) p h = cc

  resolve_policy-no_default :
      gate.default_policy ≡ none
      → request.caller_type ≡ ai_agent
      → (p : Policy) → resolve_policy env gate request ≢ ok p
  unfolding resolve_policy
  resolve_policy-no_default no_default agent p =
      rw (no_default, agent) (from_path-agent request.policy_path p)

  resolve_policy-default :
      (p q : Policy) → gate.default_policy ≡ some p → resolve_policy env gate request ≡ ok q → q ≡ p
  unfolding resolve_policy
  resolve_policy-default p q default h = ground (arith, default, h)

  confine-granted :
      (host : Value)
      → truthy host ≡ true
      → (c : CapabilitySet) → (confine env gate (some host) c).0 ≡ ok tt
      → (gate.explicit_capability_policy ≡ true)
        × NetworkGranted ip c "ssh_transport" (printing.value host) none
  unfolding confine require_ssh_transport
  confine-granted host set c h =
      ground
        (arith, require_network_iff printing.number ip "ssh_transport" (printing.value host) none c)

  -- A gate without a default policy never answers an AI agent, whatever path the request names.
  pub evaluate-no_default :
      gate.default_policy ≡ none
      → request.caller_type ≡ ai_agent
      → (given : AgentDiagnosisResult) → evaluate env gate request ≢ ok given
  evaluate-no_default no_default agent given h =
      resolve_policy-no_default no_default agent (Evaluated-of given h).policy
        (Evaluated-of given h).resolved

  -- An answer to a request whose host is set means that the gate has an explicit capability policy,
  -- and that this grants an SSH probe of the host out of a full budget.
  pub evaluate-ssh_confined :
      (given : AgentDiagnosisResult) (host : Value)
      → evaluate env gate request ≡ ok given
      → lookup "host" request.context ≡ some host
      → truthy host ≡ true
      → (gate.explicit_capability_policy ≡ true)
        × NetworkGranted ip
            (clone_isolated gate.capabilities)
            "ssh_transport"
            (printing.value host)
            none
  evaluate-ssh_confined given host h named set =
      confine-granted host set (clone_isolated gate.capabilities) (
        subst
          (λ (o : Option Value). (confine env gate o (clone_isolated gate.capabilities)).0 ≡ ok tt)
          named (Evaluated-of given h).confined)

  not_block_of_is_allow : (s : DecisionStatus) → is_allow s ≡ true → s ≢ Decision.block
  unfolding is_allow
  not_block_of_is_allow Decision.allow h = cc
  not_block_of_is_allow Decision.block h = cc
  not_block_of_is_allow Decision.human_review h = cc

  Passes-of_answer :
      (policy : Policy) (raw : DiagnosisResult)
      → policy.schema ≡ v1_legacy
      → diagnose numerals order clock
          (registry (str_context env request.context))
          policy
          gate.catalog
          gate.causality_catalog
          (some (execution_for env request confinement.1))
        ≡ ok raw
      → (given : AgentDiagnosisResult) → answer env raw ≡ given
      → given.is_allowed ≡ true
      → (req : EvidenceRequirement)
      → Any (λ (x : EvidenceRequirement). x ≡ req) policy.required_evidence
      → req.on_unknown ≡ Policy.OnUnknown.block
      → Any (Passes req.id) given.raw_diagnosis.observations
  unfolding answer
  Passes-of_answer policy raw v1 diagnosed given answered allowed req required strict =
      subst
        (λ (x : AgentDiagnosisResult).
          x.is_allowed ≡ true → Any (Passes req.id) x.raw_diagnosis.observations)
        answered
        (λ allowed'.
          diagnose_legacy-proceeds numerals order clock (registry (str_context env request.context))
            policy gate.catalog gate.causality_catalog
            (some (execution_for env request confinement.1)) raw v1 diagnosed req
            (not_block_of_is_allow raw.decision.status allowed') required strict)
        allowed

  -- With a V1 policy as default, an answer that allows the action means that the policy governs this
  -- very action, and that any requirement of the policy whose `on_unknown` is BLOCK has an
  -- observation with status PASS.
  pub evaluate-allowed :
      (given : AgentDiagnosisResult) (policy : Policy) (req : EvidenceRequirement)
      → evaluate env gate request ≡ ok given
      → gate.default_policy ≡ some policy
      → policy.schema ≡ v1_legacy
      → given.is_allowed ≡ true
      → Any (λ (x : EvidenceRequirement). x ≡ req) policy.required_evidence
      → req.on_unknown ≡ Policy.OnUnknown.block
      → (policy.action ≡ request.action) × Any (Passes req.id) given.raw_diagnosis.observations
  evaluate-allowed given policy req h default v1 allowed required strict =
      let done = Evaluated-of given h in
      let same = resolve_policy-default policy done.policy default done.resolved in
      (
        ap (λ (p : Policy). p.action) (sym same) ∙ done.governs,
        Passes-of_answer policy done.raw v1
            (subst
              (λ (p : Policy).
                diagnose numerals order clock (registry (str_context env request.context)) p
                  gate.catalog gate.causality_catalog
                  (some (execution_for env request confinement.1))
                ≡ ok done.raw)
              same done.diagnosed)
            given done.answered allowed req required strict,
      )
