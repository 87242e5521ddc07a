-- ===== src/Causality/Rules.antt =====
-- causality/engine.py: which rules are active, what is precluded, and the graph of the active rules.
use evidence_tool.Base.{
  ℕ, suc, String, Bool, true, false, not, ◌&&◌, ◌||◌, Option, none, some, List, [], ◌∷◌, ◌++◌, ◌==◌,
  if◌then◌else◌, contains, add, update,
}
use evidence_tool.Base.Dict.{Dict, lookup, insert}
use evidence_tool.Models.Evidence.{pass, fail, status_text, same_status, Evidence}
use evidence_tool.Causality.Models.{CausalRelationType, precludes, CausalRule}

-- `ev is not None and ev.status.value == expected`
abbrev pub has_status_text : Option Evidence → String → Bool
has_status_text none expected = false
has_status_text (some ev) expected = status_text ev.status == expected

unfoldable pub conditions_satisfied : Dict String → Dict Evidence → Bool
conditions_satisfied [] evidence = true
conditions_satisfied ((ev_id, expected) ∷ rest) evidence =
    has_status_text (lookup ev_id evidence) expected && conditions_satisfied rest evidence

abbrev pub is_failing : Option Evidence → Bool
is_failing none = false
is_failing (some ev) = same_status ev.status fail

abbrev pub is_passing : Option Evidence → Bool
is_passing none = false
is_passing (some ev) = same_status ev.status pass

abbrev pub is_precluding : CausalRelationType → Bool
is_precluding precludes = true
is_precluding _ = false

-- `_filter_active_rules`: the two lists that the loop fills
pub record Filtered : Type 0 where
  pub active_rules : List CausalRule
  pub precluded : List String

unfoldable pub filter_rule : Dict Evidence → List String → CausalRule → Filtered → Filtered
filter_rule evidence matched rule f =
    if not (conditions_satisfied rule.conditions evidence)
    then f
    else if is_precluding rule.relation
    then record f { precluded = f.precluded ++ rule.target ∷ [] }
    else if contains matched rule.source || is_failing (lookup rule.source evidence)
    then record f { active_rules = f.active_rules ++ rule ∷ [] }
    else f

unfoldable pub filter_rules : Dict Evidence → List String → List CausalRule → Filtered → Filtered
filter_rules evidence matched [] f = f
filter_rules evidence matched (rule ∷ rest) f =
    filter_rules evidence matched rest (filter_rule evidence matched rule f)

unfoldable pub filter_active_rules : List CausalRule → Dict Evidence → List String → Filtered
unfolding filter_rules filter_rule
filter_active_rules rules evidence matched =
    filter_rules evidence matched rules (record { active_rules = []; precluded = [] })

-- `_add_standard_preclusions`
unfoldable pub add_standard_preclusions : Dict Evidence → List String → List String
add_standard_preclusions evidence precluded =
    precluded
    ++ ((if is_passing (lookup "network.port_reachable" evidence)
            || is_passing (lookup "redis.reachable" evidence)
          then "TOTAL_NETWORK_PARTITION" ∷ []
          else [])
        ++ ((if is_passing (lookup "postgres.reachable" evidence)
              then "POSTGRES_UNREACHABLE" ∷ []
              else [])
            ++ ((if is_passing (lookup "redis.reachable" evidence)
                  then "REDIS_UNREACHABLE" ∷ []
                  else [])
                ++ (if is_passing (lookup "tls.certificate_valid" evidence)
                    then "TLS_FAILURE" ∷ []
                    else []))))

-- `graph.get(node, [])` and `in_degree[node]` of the defaultdicts
abbrev pub successors_of : Option (List String) → List String
successors_of none = []
successors_of (some ts) = ts

abbrev pub degree_of : Option ℕ → ℕ
degree_of none = 0
degree_of (some n) = n

pub record Graph : Type 0 where
  pub graph : Dict (List String)
  pub in_degree : Dict ℕ
  pub all_nodes : List String

unfoldable pub add_edge : CausalRule → Graph → Graph
add_edge rule g = record {
  graph =
      insert rule.source (successors_of (lookup rule.source g.graph) ++ rule.target ∷ []) g.graph;
  in_degree = insert rule.target (suc (degree_of (lookup rule.target g.in_degree))) g.in_degree;
  all_nodes = add (add g.all_nodes rule.source) rule.target;
}

unfoldable pub add_edges : List CausalRule → Graph → Graph
add_edges [] g = g
add_edges (rule ∷ rest) g = add_edges rest (add_edge rule g)

unfoldable pub build_graph : List CausalRule → List String → Graph
unfolding add_edges add_edge insert lookup
build_graph active_rules matched =
    let g = add_edges active_rules (record { graph = []; in_degree = []; all_nodes = [] }) in
    record g { all_nodes = update g.all_nodes matched }
