-- ===== src/Causality/Engine.antt =====
-- causality/engine.py. `order` is the order in which Python iterates over a set, given the items of
-- the set in the order in which they came in.
use evidence_tool.Base.{
  ℕ, zero, suc, String, Bool, true, false, not, ◌&&◌, ◌||◌, Option, none, some, List, [], ◌∷◌, ◌==◌,
  if◌then◌else◌, is_empty, filter, contains, add, update, to_set, has_infix,
}
use evidence_tool.Base.Dict.{Dict, lookup}
use evidence_tool.Base.Sort.{sorted_set}
use evidence_tool.Models.Evidence.{fail, same_status, Evidence, evidence_id, by_id}
use evidence_tool.Models.Correlation.{OperationalState, ambiguous, situation_ids}
use evidence_tool.Causality.Models.{
  CausalRule, root_cause_identified, root_cause_constrained, root_cause_unknown, CausalExplanation,
}
use evidence_tool.Causality.Rules.{
  is_failing, filter_active_rules, add_standard_preclusions, degree_of, Graph, build_graph,
}
use evidence_tool.Causality.Search.{build_causal_chain}

-- the targets and the sources of the rules marked as surface symptoms
abbrev pub surface_rules : List CausalRule → List CausalRule
surface_rules rules = filter (λ r. r.is_surface_symptom) rules

abbrev pub targets : List CausalRule → List String
targets [] = []
targets (r ∷ rest) = r.target ∷ targets rest

abbrev pub sources : List CausalRule → List String
sources [] = []
sources (r ∷ rest) = r.source ∷ sources rest

abbrev pub symptom_nodes_of : List CausalRule → List String
symptom_nodes_of rules =
    update (to_set (targets (surface_rules rules))) (sources (surface_rules rules))

abbrev pub is_source_node : Dict ℕ → String → Bool
is_source_node in_degree node = elim (degree_of (lookup node in_degree)) [
  | zero ↦ true
  | suc n ↦ false
]

abbrev pub symptom_keywords : String → Bool
symptom_keywords id = has_infix id "http_status" || (has_infix id "latency" || has_infix id "sla")

-- the loop of `_collect_symptoms` over the evidence
unfoldable pub failing_symptoms : List Evidence → List String → List String
failing_symptoms [] symptoms = symptoms
failing_symptoms (e ∷ es) symptoms = failing_symptoms es (
    if same_status e.status fail && symptom_keywords (evidence_id e)
    then add symptoms (evidence_id e)
    else symptoms)

abbrev pub direct_indicator : String → Option String
direct_indicator cand =
    if cand == "REDIS_OOM_MAXMEMORY"
    then some "redis.memory_pressure"
    else if cand == "POSTGRES_POOL_EXHAUSTED"
    then some "postgres.pool_exhaustion"
    else if cand == "K8S_OOM_KILLED"
    then some "k8s.container_oom_killed"
    else if cand == "NGINX_CONFIG_INVALID"
    then some "nginx.config_valid"
    else none

abbrev pub is_indicated : Dict Evidence → Option String → Bool
is_indicated evidence none = false
is_indicated evidence (some ind) = is_failing (lookup ind evidence)

-- `_rank_and_filter_candidates`
unfoldable pub rank_and_filter_candidates : List String → Dict Evidence → List String
rank_and_filter_candidates [] evidence = []
rank_and_filter_candidates (c ∷ []) evidence = c ∷ []
rank_and_filter_candidates (c ∷ d ∷ rest) evidence =
    let prioritized =
      filter (λ cand. is_indicated evidence (direct_indicator cand)) (c ∷ d ∷ rest) in
    if is_empty prioritized then c ∷ d ∷ rest else prioritized

-- the last part of `reconstruct_causality`: what the candidates make of it
unfoldable pub explain :
    List String → Bool → Dict (List String) → List String → List String → CausalExplanation
explain [] uncertain graph symptoms precluded = record {
  status = root_cause_unknown;
  primary_root_cause = none;
  causal_chain = [];
  propagated_symptoms = symptoms;
  precluded_hypotheses = precluded;
  candidate_causes = [];
  confidence = if uncertain then "INSUFFICIENT_EVIDENCE" else "CONSTRAINED";
}
explain (primary ∷ []) uncertain graph symptoms precluded = record {
  status = root_cause_identified;
  primary_root_cause = some primary;
  causal_chain = build_causal_chain primary graph symptoms;
  propagated_symptoms = symptoms;
  precluded_hypotheses = precluded;
  candidate_causes = primary ∷ [];
  confidence = "DETERMINISTIC";
}
explain (c ∷ d ∷ rest) uncertain graph symptoms precluded = record {
  status = root_cause_constrained;
  primary_root_cause = none;
  causal_chain = [];
  propagated_symptoms = symptoms;
  precluded_hypotheses = precluded;
  candidate_causes = c ∷ d ∷ rest;
  confidence = "CONSTRAINED";
}

-- the variables of `reconstruct_causality`
pub record Setting : Type 0 where
  pub evidence_by_id : Dict Evidence
  pub matched : List String
  pub precluded : List String
  pub network : Graph
  pub symptom_nodes : List String

unfoldable pub setting_of : List Evidence → OperationalState → List CausalRule → Setting
unfolding filter_active_rules add_standard_preclusions build_graph
setting_of evidence_list state rules =
    let evidence = by_id evidence_list in
    let matched = to_set (situation_ids state.situations) in
    let f = filter_active_rules rules evidence matched in
    record {
      evidence_by_id = evidence;
      matched = matched;
      precluded = add_standard_preclusions evidence f.precluded;
      network = build_graph f.active_rules matched;
      symptom_nodes = symptom_nodes_of rules;
    }

module _ (order : List String → List String) where
  unfoldable pub find_candidate_causes :
      List String → Dict ℕ → List String → List String → List String → List String
  find_candidate_causes all_nodes in_degree symptom_nodes precluded matched =
      let candidates =
        filter
          (λ n.
            is_source_node in_degree n
            && (not (contains symptom_nodes n) && not (contains precluded n)))
          (order all_nodes) in
      if is_empty candidates
      then filter (λ n. not (contains symptom_nodes n) && not (contains precluded n))
          (order matched)
      else candidates

  unfoldable pub collect_symptoms : List String → Dict ℕ → List String → List Evidence → List String
  unfolding failing_symptoms
  collect_symptoms all_nodes in_degree symptom_nodes evidence_list = sorted_set (
      failing_symptoms evidence_list (
        filter (λ n. not (is_source_node in_degree n) || contains symptom_nodes n)
          (order all_nodes)))

  unfoldable pub candidates_of : Setting → List String
  candidates_of s =
      rank_and_filter_candidates
        (find_candidate_causes s.network.all_nodes s.network.in_degree s.symptom_nodes s.precluded
          s.matched)
        s.evidence_by_id

  unfoldable pub reconstruct_causality :
      List Evidence → OperationalState → List CausalRule → CausalExplanation
  reconstruct_causality evidence_list state rules =
      let s = setting_of evidence_list state rules in
      explain (candidates_of s) (ambiguous state || not (is_empty state.unresolved_evidence))
        s.network.graph
        (collect_symptoms s.network.all_nodes s.network.in_degree s.symptom_nodes evidence_list)
        (sorted_set s.precluded)
