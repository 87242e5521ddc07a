-- ===== src/Tests/Gate.antt =====
-- The gate at concrete inputs.
use evidence_tool.Base.{◌≡◌, refl, inl, true, none, some, [], ◌∷◌, Any, string_dec, starts_with, ok}
use evidence_tool.Base.Dict.{lookup, insert}
use evidence_tool.Base.Sort.{sorted, insert_sorted, text_le}
use evidence_tool.Models.Value.{text, truthy}
use evidence_tool.Models.Observation.{age_seconds}
use evidence_tool.Models.Evidence.{index_from, parse_status}
use evidence_tool.Evaluator.{
  raw_status, judge_age, or_unknown, evaluate_observation, evaluate_observations,
}
use evidence_tool.Engine.{decide_legacy, decide, route, collect_blocking, conclude_legacy}
use evidence_tool.Capability.{
  CapabilitySet, ai_agent, clone_isolated, post_init, allows_provider, require_ssh_transport,
  require_network, record_probe, count_and, check_network, check_port, allows_target, any_network,
}
use evidence_tool.Capability.Grants.{NetworkGranted}
use evidence_tool.Diagnose.{
  max_ages, max_ages_from, subject_for, evidence_of, report, conclude, diagnose,
}
use evidence_tool.Diagnose.Namespaces.{
  needed_namespaces, expected_of_catalog, expected_ids, failed_of_catalog, failed_ids,
}
use evidence_tool.Diagnose.Collect.{
  run_provider, Collected, collect_from, collect_all, settle, attempt, authorise_provider,
  check_observations, is_valid_observation, substitutes, missing_observation, error_observation,
}
use evidence_tool.Diagnose.Verdict.{Passes}
use evidence_tool.Agent.{
  AgentDiagnosisRequest, AgentDiagnosisResult, AgentSafetyGate, Environment, is_allow,
  resolve_policy, confine, answer, run, evaluate, execution_for, str_context,
}
use evidence_tool.Agent.Gate.{evaluate-ssh_confined, evaluate-allowed}
use evidence_tool.Tests.Data.{
  numerals, registry, restart, needs_config, catalog, same_order, printing, config_valid,
}
use evidence_tool.Tests.Probes.{ip, capabilities}
use evidence_tool.Tests.Pipeline.{clock, namespaces, unit_unknown}

abbrev env : Environment
env = record {
  load_policy = λ path. ok restart;
  printing = printing;
  registry = λ context. registry;
  numerals = numerals;
  order = same_order;
  clock = clock;
  ip = ip;
}

abbrev request : AgentDiagnosisRequest
request = record {
  agent_id = "agent-7";
  action = "restart_nginx";
  target = "web";
  context = ("host", text "10.0.0.1") ∷ [];
  session_id = none;
  policy_path = some "policy.yaml";
  caller_type = ai_agent;
}

abbrev gate : AgentSafetyGate
gate = record {
  capabilities = capabilities;
  explicit_capability_policy = true;
  catalog = catalog;
  causality_catalog = [];
  default_policy = some restart;
}

abbrev open_gate : AgentSafetyGate
open_gate = record gate { default_policy = none }

abbrev confined : CapabilitySet
confined = (confine env gate (some (text "10.0.0.1")) (clone_isolated capabilities)).1

abbrev collected : Collected
collected =
    collect_all registry restart catalog (needed_namespaces restart catalog)
      (some (execution_for env request confined))

abbrev given : AgentDiagnosisResult
given = answer env (
    report numerals same_order clock restart catalog [] collected
      (decide_legacy (evidence_of numerals same_order clock restart collected) restart))

grants : (confine env gate (some (text "10.0.0.1")) (clone_isolated capabilities)).0 ≡ ok tt
unfolding confine truthy require_ssh_transport require_network record_probe count_and check_network
    check_port allows_target any_network clone_isolated post_init string_dec
grants = refl

answers : evaluate env gate request ≡ ok given
unfolding evaluate run resolve_policy diagnose conclude decide route subject_for str_context lookup
    string_dec
answers = rw grants refl

gathered : collected.observations ≡ config_valid ∷ unit_unknown ∷ []
unfolding collect_all collect_from settle attempt run_provider authorise_provider check_observations
    is_valid_observation substitutes missing_observation error_observation expected_ids
    expected_of_catalog failed_ids failed_of_catalog starts_with sorted insert_sorted text_le
    allows_provider confine truthy require_ssh_transport require_network count_and clone_isolated
    post_init record_probe execution_for string_dec
gathered = rw namespaces refl

allows : given.is_allowed ≡ true
unfolding answer is_allow report evidence_of evaluate_observations evaluate_observation age_seconds
    judge_age raw_status or_unknown parse_status max_ages max_ages_from decide_legacy
    collect_blocking conclude_legacy index_from lookup insert string_dec
allows = rw gathered refl

evaluate-allowed_example :
    (restart.action ≡ request.action)
    × Any (Passes "nginx.config_valid") given.raw_diagnosis.observations
evaluate-allowed_example =
    evaluate-allowed env gate request given restart needs_config answers refl refl allows (inl refl)
      refl

names_host : lookup "host" request.context ≡ some (text "10.0.0.1")
unfolding lookup string_dec
names_host = refl

is_set : truthy (text "10.0.0.1") ≡ true
unfolding truthy
is_set = refl

evaluate-ssh_confined_example :
    (gate.explicit_capability_policy ≡ true)
    × NetworkGranted ip (clone_isolated capabilities) "ssh_transport" "10.0.0.1" none
evaluate-ssh_confined_example =
    evaluate-ssh_confined env gate request given (text "10.0.0.1") answers names_host is_set
