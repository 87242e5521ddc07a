-- ===== src/Causality/Candidates.antt =====
-- Which causes are named.
use evidence_tool.Base.{
  String, ◌≡◌, refl, Bool, true, false, not, ◌&&◌, List, [], ◌∷◌, arith, contains, contains-filter,
  Nodup,
}
use evidence_tool.Base.Dict.{Dict}
use evidence_tool.Base.Sort.{sorted_set, contains-sorted_set}
use evidence_tool.Models.Evidence.{Evidence}
use evidence_tool.Models.Correlation.{OperationalState}
use evidence_tool.Causality.Models.{CausalRule}
use evidence_tool.Causality.Engine.{
  is_indicated, direct_indicator, is_source_node, rank_and_filter_candidates, find_candidate_causes,
  symptom_nodes_of, explain, Setting, setting_of, candidates_of, reconstruct_causality,
}

-- An order in which a set is iterated over: the same members, none twice.
pub record IsOrder (order : List String → List String) : Type 0 where
  pub members : (xs : List String) (a : String) → contains (order xs) a ≡ contains xs a
  pub nodup : (xs : List String) → Nodup xs → Nodup (order xs)

abbrev pub indicated : Dict Evidence → String → Bool
indicated evidence cand = is_indicated evidence (direct_indicator cand)

abbrev pub is_admissible : List String → List String → String → Bool
is_admissible symptoms precluded n = not (contains symptoms n) && not (contains precluded n)

contains-rank :
    (cs : List String) (evidence : Dict Evidence) (c : String)
    → contains (rank_and_filter_candidates cs evidence) c ≡ true
    → contains cs c ≡ true
unfolding rank_and_filter_candidates
contains-rank [] evidence c m = m
contains-rank (x ∷ []) evidence c m = m
contains-rank (x ∷ y ∷ cs) evidence c m =
    ground (arith, contains-filter (indicated evidence) (x ∷ y ∷ cs) c)

candidate_causes-explain :
    (cs : List String) (u : Bool) (g : Dict (List String)) (sy pr : List String)
    → (explain cs u g sy pr).candidate_causes ≡ cs
unfolding explain
candidate_causes-explain [] u g sy pr = refl
candidate_causes-explain (c ∷ []) u g sy pr = refl
candidate_causes-explain (c ∷ d ∷ rest) u g sy pr = refl

precluded-explain :
    (cs : List String) (u : Bool) (g : Dict (List String)) (sy pr : List String)
    → (explain cs u g sy pr).precluded_hypotheses ≡ pr
unfolding explain
precluded-explain [] u g sy pr = refl
precluded-explain (c ∷ []) u g sy pr = refl
precluded-explain (c ∷ d ∷ rest) u g sy pr = refl

module _ (order : List String → List String) where
  contains-find :
      (s : Setting) (c : String)
      → contains
          (find_candidate_causes order s.network.all_nodes s.network.in_degree s.symptom_nodes
            s.precluded s.matched)
          c
        ≡ true
      → (contains s.symptom_nodes c ≡ false) × (contains s.precluded c ≡ false)
  unfolding find_candidate_causes
  contains-find s c m = ground (
    arith,
    contains-filter
        (λ n. is_source_node s.network.in_degree n && is_admissible s.symptom_nodes s.precluded n)
        (order s.network.all_nodes) c,
    contains-filter (is_admissible s.symptom_nodes s.precluded) (order s.matched) c,
  )

  candidates_of_lem :
      (s : Setting) (c : String)
      → contains (candidates_of order s) c ≡ true
      → contains
          (rank_and_filter_candidates
            (find_candidate_causes order s.network.all_nodes s.network.in_degree s.symptom_nodes
              s.precluded s.matched)
            s.evidence_by_id)
          c
        ≡ true
  unfolding candidates_of
  candidates_of_lem s c m = m

  contains-candidates_of :
      (s : Setting) (c : String)
      → contains (candidates_of order s) c ≡ true
      → (contains s.symptom_nodes c ≡ false) × (contains s.precluded c ≡ false)
  contains-candidates_of s c m = contains-find s c (
      contains-rank
        (find_candidate_causes order s.network.all_nodes s.network.in_degree s.symptom_nodes
          s.precluded s.matched)
        s.evidence_by_id c (candidates_of_lem s c m))

  module _ (evidence : List Evidence) (state : OperationalState) (rules : List CausalRule) where
    pub candidate_causes-reconstruct_causality :
        (reconstruct_causality order evidence state rules).candidate_causes
        ≡ candidates_of order (setting_of evidence state rules)
    unfolding reconstruct_causality
    candidate_causes-reconstruct_causality =
        candidate_causes-explain (candidates_of order (setting_of evidence state rules)) _ _ _ _

    precluded-reconstruct_causality :
        (reconstruct_causality order evidence state rules).precluded_hypotheses
        ≡ sorted_set (setting_of evidence state rules).precluded
    unfolding reconstruct_causality
    precluded-reconstruct_causality =
        precluded-explain (candidates_of order (setting_of evidence state rules)) _ _ _ _

    symptom_nodes-setting_of :
        (setting_of evidence state rules).symptom_nodes ≡ symptom_nodes_of rules
    unfolding setting_of
    symptom_nodes-setting_of = refl

    -- No candidate cause is among the precluded hypotheses, nor is it the source or the target of a
    -- rule marked as a surface symptom.
    pub candidate_admissible :
        (c : String)
        → let e = reconstruct_causality order evidence state rules in
          contains e.candidate_causes c ≡ true
          → (contains e.precluded_hypotheses c ≡ false)
            × (contains (symptom_nodes_of rules) c ≡ false)
    candidate_admissible c m =
        let s = setting_of evidence state rules in
        let found = rw candidate_causes-reconstruct_causality at m in
        let ranked = contains-candidates_of s c found in
        (
          rw (precluded-reconstruct_causality, contains-sorted_set) ranked.1,
          rw (← symptom_nodes-setting_of) ranked.0,
        )
