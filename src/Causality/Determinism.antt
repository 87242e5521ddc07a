-- ===== src/Causality/Determinism.antt =====
-- The explanation under two orders of iterating over sets.
use evidence_tool.Base.{
  ℕ, String, ◌≡◌, refl, sym, ap, ◌∙◌, Bool, not, ◌&&◌, ◌||◌, List, [], ◌∷◌, arith, if◌then◌else◌,
  is_empty, filter, contains, contains-filter, Nodup, add, contains-add, Nodup-add, to_set,
  update-Nodup, to_set-Nodup,
}
use evidence_tool.Base.Dict.{Dict}
use evidence_tool.Base.Sort.Unique.{SameMembers, sorted_set-eq}
use evidence_tool.Models.Evidence.{Evidence, by_id, evidence_id, fail, same_status}
use evidence_tool.Models.Correlation.{OperationalState, situation_ids}
use evidence_tool.Causality.Models.{CausalRule, CausalExplanation}
use evidence_tool.Causality.Engine.{
  is_source_node, rank_and_filter_candidates, find_candidate_causes, collect_symptoms,
  failing_symptoms, symptom_keywords, explain, Setting, setting_of, candidates_of,
  reconstruct_causality,
}
use evidence_tool.Causality.Rules.{filter_active_rules, Graph, build_graph, add_edge, add_edges}
use evidence_tool.Causality.Candidates.{
  IsOrder, indicated, is_admissible, candidate_causes-reconstruct_causality,
}

is_empty_same : (xs ys : List String) → SameMembers xs ys → is_empty xs ≡ is_empty ys
is_empty_same [] [] h = refl
is_empty_same [] (y ∷ ys) h = absurd (ground (arith, h y))
is_empty_same (x ∷ xs) [] h = absurd (ground (arith, h x))
is_empty_same (x ∷ xs) (y ∷ ys) h = refl

filter_same :
    (p : String → Bool) (xs ys : List String)
    → SameMembers xs ys
    → SameMembers (filter p xs) (filter p ys)
filter_same p xs ys h a = ground (arith, contains-filter p xs a, contains-filter p ys a, h a)

filter-Nodup : (p : String → Bool) (xs : List String) → Nodup xs → Nodup (filter p xs)
filter-Nodup p [] u = tt
filter-Nodup p (x ∷ xs) u = ground (arith, filter-Nodup p xs u.1, contains-filter p xs x)

-- two lists without repetition and with the same members are alike as far as the engine asks
not_single :
    (x y z : String) (rest : List String)
    → Nodup (y ∷ z ∷ rest)
    → ¬ SameMembers (x ∷ []) (y ∷ z ∷ rest)
not_single x y z rest u h = ground (arith, h y, h z)

rank_same :
    (evidence : Dict Evidence) (xs ys : List String)
    → Nodup xs
    → Nodup ys
    → SameMembers xs ys
    → SameMembers (rank_and_filter_candidates xs evidence) (rank_and_filter_candidates ys evidence)
unfolding rank_and_filter_candidates
rank_same evidence [] [] ux uy h a = h a
rank_same evidence [] (y ∷ ys) ux uy h a = absurd (ground (arith, h y))
rank_same evidence (x ∷ xs) [] ux uy h a = absurd (ground (arith, h x))
rank_same evidence (x ∷ []) (y ∷ []) ux uy h a = h a
rank_same evidence (x ∷ []) (y ∷ z ∷ ys) ux uy h a = absurd (not_single x y z ys uy h)
rank_same evidence (x ∷ z ∷ xs) (y ∷ []) ux uy h a =
    absurd (not_single y x z xs ux (λ b. sym (h b)))
rank_same evidence (x ∷ w ∷ xs) (y ∷ z ∷ ys) ux uy h a = ground (
  arith,
  h a,
  filter_same (indicated evidence) (x ∷ w ∷ xs) (y ∷ z ∷ ys) h a,
  is_empty_same (filter (indicated evidence) (x ∷ w ∷ xs))
      (filter (indicated evidence) (y ∷ z ∷ ys))
      (filter_same (indicated evidence) (x ∷ w ∷ xs) (y ∷ z ∷ ys) h),
)

rank-Nodup :
    (evidence : Dict Evidence) (xs : List String)
    → Nodup xs
    → Nodup (rank_and_filter_candidates xs evidence)
unfolding rank_and_filter_candidates
rank-Nodup evidence [] u = u
rank-Nodup evidence (x ∷ []) u = u
rank-Nodup evidence (x ∷ y ∷ xs) u =
    ground (arith, filter-Nodup (indicated evidence) (x ∷ y ∷ xs) u)

-- the explanation without the list of its candidates
abbrev pub conclusion : CausalExplanation → CausalExplanation
conclusion e = record e { candidate_causes = [] }

explain_same :
    (xs ys : List String) (u : Bool) (g : Dict (List String)) (sy pr : List String)
    → Nodup xs
    → Nodup ys
    → SameMembers xs ys
    → conclusion (explain xs u g sy pr) ≡ conclusion (explain ys u g sy pr)
unfolding explain
explain_same [] [] u g sy pr ux uy h = refl
explain_same [] (y ∷ ys) u g sy pr ux uy h = absurd (ground (arith, h y))
explain_same (x ∷ xs) [] u g sy pr ux uy h = absurd (ground (arith, h x))
explain_same (x ∷ []) (y ∷ []) u g sy pr ux uy h =
    ap (λ (c : String). conclusion (explain (c ∷ []) u g sy pr)) (ground (arith, h x))
explain_same (x ∷ []) (y ∷ z ∷ ys) u g sy pr ux uy h = absurd (not_single x y z ys uy h)
explain_same (x ∷ z ∷ xs) (y ∷ []) u g sy pr ux uy h =
    absurd (not_single y x z xs ux (λ a. sym (h a)))
explain_same (x ∷ w ∷ xs) (y ∷ z ∷ ys) u g sy pr ux uy h = refl

-- one turn of the loop over the evidence
abbrev with_failing : Evidence → List String → List String
with_failing e symptoms =
    if same_status e.status fail && symptom_keywords (evidence_id e)
    then add symptoms (evidence_id e)
    else symptoms

failing_symptoms_same :
    (es : List Evidence) (s t : List String)
    → SameMembers s t
    → SameMembers (failing_symptoms es s) (failing_symptoms es t)
unfolding failing_symptoms
failing_symptoms_same [] s t h a = h a
failing_symptoms_same (e ∷ es) s t h b =
    failing_symptoms_same es (with_failing e s) (with_failing e t)
      (λ a. ground (
        arith,
        h a,
        h (evidence_id e),
        contains-add s (evidence_id e) a,
        contains-add t (evidence_id e) a,
      ))
      b

add_edges-Nodup :
    (rules : List CausalRule) (g : Graph) → Nodup g.all_nodes → Nodup (add_edges rules g).all_nodes
unfolding add_edges add_edge
add_edges-Nodup [] g u = u
add_edges-Nodup (r ∷ rest) g u =
    add_edges-Nodup rest (add_edge r g) (Nodup-add _ r.target (Nodup-add g.all_nodes r.source u))

module _ (first second : List String → List String) (one : IsOrder first)
    (other : IsOrder second) where
  orders_same : (xs : List String) → SameMembers (first xs) (second xs)
  orders_same xs a = one.members xs a ∙ sym (other.members xs a)

  collect_symptoms_same :
      (nodes : List String) (degrees : Dict ℕ) (symptoms : List String) (es : List Evidence)
      → collect_symptoms first nodes degrees symptoms es
        ≡ collect_symptoms second nodes degrees symptoms es
  collect_symptoms_same nodes degrees symptoms es =
      unfold collect_symptoms in
      sorted_set-eq _ _ (
        failing_symptoms_same es _ _ (
          filter_same (λ n. not (is_source_node degrees n) || contains symptoms n) (first nodes)
            (second nodes) (orders_same nodes)))

  module _ (evidence : List Evidence) (state : OperationalState) (rules : List CausalRule) where
    abbrev setting : Setting
    setting = setting_of evidence state rules

    all_nodes-Nodup : Nodup setting.network.all_nodes
    unfolding setting_of build_graph
    all_nodes-Nodup = update-Nodup (to_set (situation_ids state.situations)) _ (
        add_edges-Nodup
          (filter_active_rules rules (by_id evidence)
            (to_set (situation_ids state.situations))).active_rules
          (record { graph = []; in_degree = []; all_nodes = [] }) tt)

    matched-Nodup : Nodup setting.matched
    unfolding setting_of
    matched-Nodup = to_set-Nodup (situation_ids state.situations)

    abbrev source_node : String → Bool
    source_node n =
        is_source_node setting.network.in_degree n
        && is_admissible setting.symptom_nodes setting.precluded n

    abbrev found_by : (List String → List String) → List String
    found_by order =
        find_candidate_causes order setting.network.all_nodes setting.network.in_degree
          setting.symptom_nodes setting.precluded setting.matched

    found-Nodup : (order : List String → List String) → IsOrder order → Nodup (found_by order)
    unfolding find_candidate_causes
    found-Nodup order o = ground (
      arith,
      filter-Nodup source_node (order setting.network.all_nodes)
          (o.nodup setting.network.all_nodes all_nodes-Nodup),
      filter-Nodup (is_admissible setting.symptom_nodes setting.precluded) (order setting.matched)
          (o.nodup setting.matched matched-Nodup),
    )

    found_same : SameMembers (found_by first) (found_by second)
    unfolding find_candidate_causes
    found_same a =
        let p : String → Bool = source_node in
        let q : String → Bool = is_admissible setting.symptom_nodes setting.precluded in
        let xs = setting.network.all_nodes in
        let same = filter_same p (first xs) (second xs) (orders_same xs) in
        ground (
          arith,
          is_empty_same (filter p (first xs)) (filter p (second xs)) same,
          same a,
          filter_same q (first setting.matched) (second setting.matched)
              (orders_same setting.matched) a,
        )

    candidates_Nodup :
        (order : List String → List String) → IsOrder order → Nodup (candidates_of order setting)
    unfolding candidates_of
    candidates_Nodup order o =
        rank-Nodup setting.evidence_by_id (found_by order) (found-Nodup order o)

    candidates_same : SameMembers (candidates_of first setting) (candidates_of second setting)
    unfolding candidates_of
    candidates_same =
        rank_same setting.evidence_by_id (found_by first) (found_by second) (found-Nodup first one)
          (found-Nodup second other) found_same

    -- Whatever the order in which sets are iterated over, the status, the primary cause, the chain,
    -- the symptoms, the precluded hypotheses and the confidence are the same.
    pub conclusion_deterministic :
        conclusion (reconstruct_causality first evidence state rules)
        ≡ conclusion (reconstruct_causality second evidence state rules)
    unfolding reconstruct_causality
    conclusion_deterministic =
        rw
          (collect_symptoms_same setting.network.all_nodes setting.network.in_degree
            setting.symptom_nodes evidence)
          (explain_same (candidates_of first setting) (candidates_of second setting) _ _ _ _
            (candidates_Nodup first one) (candidates_Nodup second other) candidates_same)

    -- Whatever the order in which sets are iterated over, the candidate causes have the same
    -- members.
    pub candidate_causes_same :
        SameMembers
          (reconstruct_causality first evidence state rules).candidate_causes
          (reconstruct_causality second evidence state rules).candidate_causes
    candidate_causes_same =
        rw
          (
            candidate_causes-reconstruct_causality first evidence state rules,
            candidate_causes-reconstruct_causality second evidence state rules,
          )
          candidates_same
