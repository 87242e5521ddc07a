-- ===== src/Tests/Causes.antt =====
-- The causal engine at concrete inputs.
use evidence_tool.Base.{
  String, ◌≡◌, ◌↔◌, ◌⊎◌, refl, true, false, some, List, [], ◌∷◌, contains, string_dec,
}
use evidence_tool.Base.Dict.{Dict, lookup, insert}
use evidence_tool.Models.Evidence.{index_from}
use evidence_tool.Models.Correlation.{OperationalState}
use evidence_tool.Correlation.{correlate_state, evaluate_situation, scan, judge, walk, note}
use evidence_tool.Causality.Models.{CausalRule, propagates_to}
use evidence_tool.Causality.Engine.{
  reconstruct_causality, symptom_nodes_of, explain, candidates_of, setting_of,
  find_candidate_causes, rank_and_filter_candidates,
}
use evidence_tool.Causality.Rules.{
  build_graph, add_edges, add_edge, add_standard_preclusions, filter_active_rules, filter_rules,
  filter_rule, conditions_satisfied,
}
use evidence_tool.Causality.Search.{Walk, search_from, build_causal_chain}
use evidence_tool.Causality.Chain.{search_from_total}
use evidence_tool.Causality.Reach.{Reach}
use evidence_tool.Causality.Reach.Content.{contains-build_causal_chain_iff}
use evidence_tool.Causality.Candidates.{candidate_admissible}
use evidence_tool.Causality.Determinism.{conclusion, conclusion_deterministic}
use evidence_tool.Tests.Data.{
  catalog, same_order, same_order-IsOrder, reversed, reversed-IsOrder, seen_down,
}

abbrev ring : Dict (List String)
ring = ("DISK", "DATABASE" ∷ "CACHE" ∷ []) ∷ ("DATABASE", "API" ∷ "DISK" ∷ []) ∷ []

search_from_total_example : (w : Walk) × (search_from "DISK" ring ≡ some w)
search_from_total_example = search_from_total "DISK" ring

contains-build_causal_chain_example :
    (contains (build_causal_chain "DISK" ring ("http.5xx" ∷ [])) "API" ≡ true)
    ↔ (Reach ring "DISK" "API" ⊎ (contains ("http.5xx" ∷ []) "API" ≡ true))
contains-build_causal_chain_example =
    contains-build_causal_chain_iff ring "DISK" ("http.5xx" ∷ []) "API"

abbrev rule : CausalRule
rule = record {
  id = "R1";
  source = "DOWN";
  target = "GATEWAY";
  relation = propagates_to;
  conditions = [];
  description = "no upstream";
  is_root_cause_candidate = true;
  is_surface_symptom = false;
}

abbrev state : OperationalState
state = correlate_state seen_down catalog

conclusion_deterministic_example :
    conclusion (reconstruct_causality same_order seen_down state (rule ∷ []))
    ≡ conclusion (reconstruct_causality reversed seen_down state (rule ∷ []))
conclusion_deterministic_example =
    conclusion_deterministic same_order reversed same_order-IsOrder reversed-IsOrder seen_down state
      (rule ∷ [])

down_is_candidate :
    contains (reconstruct_causality same_order seen_down state (rule ∷ [])).candidate_causes "DOWN"
    ≡ true
unfolding reconstruct_causality explain candidates_of setting_of find_candidate_causes
    rank_and_filter_candidates build_graph add_edges add_edge add_standard_preclusions
    filter_active_rules filter_rules filter_rule conditions_satisfied correlate_state
    evaluate_situation scan judge walk note lookup insert index_from string_dec
down_is_candidate = refl

candidate_admissible_example :
    let e = reconstruct_causality same_order seen_down state (rule ∷ []) in
    (contains e.precluded_hypotheses "DOWN" ≡ false)
    × (contains (symptom_nodes_of (rule ∷ [])) "DOWN" ≡ false)
candidate_admissible_example =
    candidate_admissible same_order seen_down state (rule ∷ []) "DOWN" down_is_candidate
