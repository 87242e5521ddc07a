-- ===== src/Correlation/Locality.antt =====
-- What is correlated about one situation, under two collections of evidence.
use evidence_tool.Base.{
  String, ◌≡◌, refl, ◌∙◌, ap, Option, List, [], ◌∷◌, map, arith, ◌==◌, All, filter, find_first,
}
use evidence_tool.Base.Dict.{Dict, keys, lookup, lookup-insert}
use evidence_tool.Models.Evidence.{EvidenceStatus, Evidence, by_id}
use evidence_tool.Models.Correlation.{Situation, SituationEvaluation, OperationalState}
use evidence_tool.Correlation.{
  Tally, clean, judge, scan, evaluate_situation, Progress, start, note, walk, correlate_state,
}
use evidence_tool.Correlation.Matching.{
  all_observed, matched-evaluate_situation, situation-evaluate_situation,
  situations-correlate_state, evaluations-correlate_state,
}

-- the two collections give the same evidence for each of the ids
abbrev pub Agree : Dict Evidence → Dict Evidence → List String → Type 0
Agree a b = All (λ k. lookup k a ≡ lookup k b)

module _ (a b : Dict Evidence) where
  scan_local :
      (sig : Dict EvidenceStatus) (t : Tally) → Agree a b (keys sig) → scan a sig t ≡ scan b sig t
  unfolding scan
  scan_local [] t h = refl
  scan_local ((k, v) ∷ sig) t h =
      scan_local sig (judge k v (lookup k a) t) h.1 ∙ ap (λ o. scan b sig (judge k v o t)) h.0

  pub evaluate_situation_local :
      (s : Situation)
      → Agree a b (keys s.signature)
      → evaluate_situation a s ≡ evaluate_situation b s
  unfolding evaluate_situation
  evaluate_situation_local s h = rw (scan_local s.signature clean h)

-- every situation of the catalog that has this id is evaluated alike
abbrev SameAt : Dict Evidence → Dict Evidence → String → List Situation → Type 0
SameAt a b id = All (λ s. s.id ≡ id → evaluate_situation a s ≡ evaluate_situation b s)

-- what a state says about one situation
pub record View : Type 0 where
  pub is_matched : Option Situation
  pub evaluation : Option SituationEvaluation
  pub discrepancy : Option (List String)

abbrev pub view : OperationalState → String → View
view state id = record {
  is_matched = find_first (λ s. s.id == id) state.situations;
  evaluation = find_first (λ ev. ev.situation.id == id) state.evaluations;
  discrepancy = lookup id state.discrepancies;
}

module _ (a b : Dict Evidence) (id : String) where
  note_local :
      (s : Situation) (p q : Progress)
      → (s.id ≡ id → evaluate_situation a s ≡ evaluate_situation b s)
      → lookup id p.discrepancies ≡ lookup id q.discrepancies
      → lookup id (note (evaluate_situation a s) p).discrepancies
        ≡ lookup id (note (evaluate_situation b s) q).discrepancies
  unfolding note
  note_local s p q h e = simp (lookup-insert, situation-evaluate_situation) (ground (arith, h))

  matched_local :
      (catalog : List Situation)
      → SameAt a b id catalog
      → find_first (λ s. s.id == id) (filter (λ s. all_observed a s.signature) catalog)
        ≡ find_first (λ s. s.id == id) (filter (λ s. all_observed b s.signature) catalog)
  matched_local [] h = refl
  matched_local (s ∷ catalog) h = ground (
    arith,
    h.0,
    matched_local catalog h.1,
    matched-evaluate_situation a s,
    matched-evaluate_situation b s,
  )

  evaluation_local :
      (catalog : List Situation)
      → SameAt a b id catalog
      → find_first (λ ev. ev.situation.id == id) (map (evaluate_situation a) catalog)
        ≡ find_first (λ ev. ev.situation.id == id) (map (evaluate_situation b) catalog)
  evaluation_local [] h = refl
  evaluation_local (s ∷ catalog) h = ground (
    arith,
    h.0,
    evaluation_local catalog h.1,
    situation-evaluate_situation a s,
    situation-evaluate_situation b s,
  )

  discrepancy_local :
      (catalog : List Situation) (p q : Progress)
      → SameAt a b id catalog
      → lookup id p.discrepancies ≡ lookup id q.discrepancies
      → lookup id (walk a catalog p).discrepancies ≡ lookup id (walk b catalog q).discrepancies
  unfolding walk
  discrepancy_local [] p q h e = e
  discrepancy_local (s ∷ catalog) p q h e =
      discrepancy_local catalog (note (evaluate_situation a s) p) (note (evaluate_situation b s) q)
        h.1 (note_local s p q h.0 e)

module _ (xs ys : List Evidence) (id : String) (catalog : List Situation) where
  abbrev find_matched : OperationalState → Option Situation
  find_matched state = find_first (λ s. s.id == id) state.situations

  abbrev find_evaluation : OperationalState → Option SituationEvaluation
  find_evaluation state = find_first (λ ev. ev.situation.id == id) state.evaluations

  module _ (same : SameAt (by_id xs) (by_id ys) id catalog) where
    find_matched_local :
        find_matched (correlate_state xs catalog) ≡ find_matched (correlate_state ys catalog)
    find_matched_local =
        rw (situations-correlate_state xs catalog, situations-correlate_state ys catalog)
          (matched_local (by_id xs) (by_id ys) id catalog same)

    find_evaluation_local :
        find_evaluation (correlate_state xs catalog) ≡ find_evaluation (correlate_state ys catalog)
    find_evaluation_local =
        rw (evaluations-correlate_state xs catalog, evaluations-correlate_state ys catalog)
          (evaluation_local (by_id xs) (by_id ys) id catalog same)

    lookup-discrepancies_local :
        lookup id (correlate_state xs catalog).discrepancies
        ≡ lookup id (correlate_state ys catalog).discrepancies
    unfolding correlate_state
    lookup-discrepancies_local =
        discrepancy_local (by_id xs) (by_id ys) id catalog start start same refl

    -- Two collections of evidence that evaluate the situations of an id alike give the same view
    -- of that id.
    pub view_local : view (correlate_state xs catalog) id ≡ view (correlate_state ys catalog) id
    view_local = cc (find_matched_local, find_evaluation_local, lookup-discrepancies_local)

  -- The same from evidence that agrees on the signatures of those situations.
  pub view_of_Agree :
      All (λ s. s.id ≡ id → Agree (by_id xs) (by_id ys) (keys s.signature)) catalog
      → view (correlate_state xs catalog) id ≡ view (correlate_state ys catalog) id
  view_of_Agree h = view_local (go catalog h)
    where
      go :
          (c : List Situation)
          → All (λ s. s.id ≡ id → Agree (by_id xs) (by_id ys) (keys s.signature)) c
          → SameAt (by_id xs) (by_id ys) id c
      go [] _ = tt
      go (s ∷ c) (h, hs) = (λ e. evaluate_situation_local (by_id xs) (by_id ys) s (h e), go c hs)
