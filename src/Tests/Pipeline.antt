-- ===== src/Tests/Pipeline.antt =====
-- The pipeline and the gate at concrete inputs.
use evidence_tool.Base.{
  ℕ, ◌≡◌, ◌≢◌, ◌↔◌, refl, inl, true, false, none, some, List, [], ◌∷◌, Any, any, contains, Nodup,
  string_dec, split, cons_first, starts_with, ok,
}
use evidence_tool.Base.Dict.{lookup, insert}
use evidence_tool.Base.Sort.{sorted, insert_sorted, text_le}
use evidence_tool.Models.Value.{text, object}
use evidence_tool.Models.Observation.{Observation, age_seconds}
use evidence_tool.Models.Evidence.{Evidence, index_from, parse_status}
use evidence_tool.Models.Decision
use evidence_tool.Evaluator.{
  raw_status, judge_age, or_unknown, evaluate_observation, evaluate_observations,
}
use evidence_tool.Engine.{decide_legacy, decide, route, collect_blocking, conclude_legacy}
use evidence_tool.Diagnose.{
  DiagnosisResult, max_ages, max_ages_from, is_denied, subject_for, evidence_of, report, conclude,
  diagnose,
}
use evidence_tool.Diagnose.Namespaces.{
  namespace_of, first_of, add_part, add_namespaces, add_of_situations, add_of_policy,
  needed_namespaces, expected_of_catalog, expected_ids, failed_of_catalog, failed_ids,
}
use evidence_tool.Diagnose.Collect.{
  run_provider, ids_of, Collected, collect_from, collect_all, settle, attempt, authorise_provider,
  check_observations, is_valid_observation, substitutes, missing_observation, error_observation,
}
use evidence_tool.Diagnose.Needed.{IsNeeded}
use evidence_tool.Diagnose.Coverage.{collect_all-covers}
use evidence_tool.Diagnose.Verdict.{Passes, diagnose_legacy-proceeds, diagnose_legacy-success_iff}
use evidence_tool.Loaders.Policy.Namespaced.{load_policy-namespaced}
use evidence_tool.Tests.Loading.{policy_file, loads}
use evidence_tool.Tests.Data.{
  numerals, registry, restart, needs_config, catalog, same_order, printing, config_valid,
}

abbrev pub unit_unknown : Observation
unit_unknown = record config_valid {
  id = "systemd.service_active";
  source = "systemd";
  category = "system";
  collector = "diagnose_engine";
  method = "provider_execution";
  value = object (("status", text "UNKNOWN") ∷ []);
  message = "Provider execution failed:\nno route to host";
}

abbrev pub clock : Observation → ℕ
clock o = 2000

abbrev collected : Collected
collected = collect_all registry restart catalog (needed_namespaces restart catalog) none

unit-IsNeeded : IsNeeded restart catalog "systemd.service_active"
unfolding string_dec
unit-IsNeeded = inl refl

unit_is_systemd : namespace_of "systemd.service_active" ≡ some "systemd"
unfolding namespace_of first_of split cons_first
unit_is_systemd = refl

-- systemd raises, and the id has an observation all the same
collect_all-covers_example :
    contains (ids_of collected.observations) "systemd.service_active" ≡ true
collect_all-covers_example =
    collect_all-covers registry restart catalog "systemd.service_active" unit-IsNeeded "systemd"
      unit_is_systemd none

abbrev found : List Evidence
found = evidence_of numerals same_order clock restart collected

abbrev result : DiagnosisResult
result = report numerals same_order clock restart catalog [] collected (decide_legacy found restart)

returns : diagnose numerals same_order clock registry restart catalog [] none ≡ ok result
unfolding diagnose conclude decide route subject_for
returns = refl

pub namespaces : needed_namespaces restart catalog ≡ "nginx" ∷ "systemd" ∷ []
unfolding needed_namespaces add_of_policy add_of_situations add_namespaces add_part namespace_of
    first_of split cons_first sorted insert_sorted text_le string_dec
namespaces = refl

-- what the loop over the two providers leaves
gathered : collected.observations ≡ config_valid ∷ unit_unknown ∷ []
unfolding collect_all collect_from settle attempt run_provider authorise_provider check_observations
    is_valid_observation substitutes missing_observation error_observation expected_ids
    expected_of_catalog failed_ids failed_of_catalog starts_with sorted insert_sorted text_le
    string_dec
gathered = rw namespaces refl

passes : result.decision.status ≡ Decision.allow
unfolding report evidence_of evaluate_observations evaluate_observation age_seconds judge_age
    raw_status or_unknown parse_status max_ages max_ages_from decide_legacy collect_blocking
    conclude_legacy index_from lookup insert string_dec
passes = rw gathered refl

proceeds : result.decision.status ≢ Decision.block
proceeds = rw passes cc

diagnose_legacy-proceeds_example : Any (Passes "nginx.config_valid") result.observations
diagnose_legacy-proceeds_example =
    diagnose_legacy-proceeds numerals same_order clock registry restart catalog [] none result refl
      returns needs_config proceeds (inl refl) refl

diagnose_legacy-success_example :
    (result.success ≡ true)
    ↔ ((any is_denied result.observations ≡ false) × Nodup (ids_of result.observations))
diagnose_legacy-success_example =
    diagnose_legacy-success_iff numerals same_order clock registry restart catalog [] none result
      refl returns refl (load_policy-namespaced printing policy_file restart loads)
