-- ===== src/Correlation/Matching.antt =====
-- What the evaluation of a situation says of the evidence, and how the state is made of these.
use mathlib.Core.List.{append-nil, append_assoc}
use evidence_tool.Base.{
  String, ◌≡◌, ◌≢◌, ◌↔◌, ◌∙◌, refl, Bool, true, false, ◌&&◌, Option, none, some, List, [], ◌∷◌,
  ◌++◌, arith, if◌then◌else◌, All, filter, map,
}
use evidence_tool.Base.Dict.{Dict, lookup}
use evidence_tool.Models.Evidence.{
  EvidenceStatus, pass, fail, unknown, Evidence, by_id, same_status,
}
use evidence_tool.Models.Correlation.{Situation}
use evidence_tool.Correlation.{
  Tally, clean, judge, scan, evaluate_situation, Progress, start, note, walk, correlate_state,
}

-- the evidence has the expected status, which is not UNKNOWN
abbrev pub Observed : Dict Evidence → String × EvidenceStatus → Type 0
Observed evidence (ev_id, expected) =
    (ev : Evidence) × (lookup ev_id evidence ≡ some ev)
    × (ev.status ≡ expected)
    × (expected ≢ unknown)

abbrev pub Holds : Dict Evidence → Situation → Type 0
Holds evidence s = All (Observed evidence) s.signature

-- a Boolean version of `Observed`
abbrev pub observed : Option Evidence → EvidenceStatus → Bool
observed none expected = false
observed (some ev) pass = same_status ev.status pass
observed (some ev) fail = same_status ev.status fail
observed (some ev) unknown = false

module _ (evidence : Dict Evidence) where
  unfoldable pub all_observed : Dict EvidenceStatus → Bool
  all_observed [] = true
  all_observed ((k, v) ∷ sig) = observed (lookup k evidence) v && all_observed sig

  match-scan :
      (sig : Dict EvidenceStatus) (t : Tally)
      → (scan evidence sig t).match ≡ (t.match && all_observed sig)
  unfolding scan all_observed
  match-scan [] t = ground arith
  match-scan ((k, pass) ∷ sig) t =
      match-scan sig (judge k pass (lookup k evidence) t) ∙ ground arith
  match-scan ((k, fail) ∷ sig) t =
      match-scan sig (judge k fail (lookup k evidence) t) ∙ ground arith
  match-scan ((k, unknown) ∷ sig) t =
      match-scan sig (judge k unknown (lookup k evidence) t) ∙ ground arith

  pub all_observed_iff :
      (sig : Dict EvidenceStatus) → (all_observed sig ≡ true) ↔ All (Observed evidence) sig
  unfolding all_observed
  all_observed_iff [] = (λ h. tt, λ h. refl)
  all_observed_iff ((k, pass) ∷ sig) = ground (arith, all_observed_iff sig)
  all_observed_iff ((k, fail) ∷ sig) = ground (arith, all_observed_iff sig)
  all_observed_iff ((k, unknown) ∷ sig) = ground (arith, all_observed_iff sig)

  pub matched-evaluate_situation :
      (s : Situation) → (evaluate_situation evidence s).matched ≡ all_observed s.signature
  unfolding evaluate_situation
  matched-evaluate_situation s = match-scan s.signature clean

  pub situation-evaluate_situation : (s : Situation) → (evaluate_situation evidence s).situation ≡ s
  unfolding evaluate_situation
  situation-evaluate_situation s = refl

  -- A situation matches exactly when the evidence holds for every entry of its signature.
  pub matched_iff :
      (s : Situation) → ((evaluate_situation evidence s).matched ≡ true) ↔ Holds evidence s
  matched_iff s = rw matched-evaluate_situation (all_observed_iff s.signature)

  situations-note :
      (s : Situation) (p : Progress) (rest : List Situation)
      → (note (evaluate_situation evidence s) p).matched_situations ++ rest
        ≡ p.matched_situations ++ (if all_observed s.signature then s ∷ rest else rest)
  unfolding note
  situations-note s p rest = ground (
    arith,
    matched-evaluate_situation s,
    situation-evaluate_situation s,
    append_assoc p.matched_situations (s ∷ []) rest,
  )

  situations-walk :
      (catalog : List Situation) (p : Progress)
      → (walk evidence catalog p).matched_situations
        ≡ p.matched_situations ++ filter (λ s. all_observed s.signature) catalog
  unfolding walk
  situations-walk [] p = rw append-nil
  situations-walk (s ∷ catalog) p =
      situations-walk catalog (note (evaluate_situation evidence s) p)
      ∙ situations-note s p (filter (λ s. all_observed s.signature) catalog)

  evaluations-walk :
      (catalog : List Situation) (p : Progress)
      → (walk evidence catalog p).evaluations
        ≡ p.evaluations ++ map (evaluate_situation evidence) catalog
  unfolding walk
  evaluations-walk [] p = rw append-nil
  evaluations-walk (s ∷ catalog) p =
      evaluations-walk catalog (note (evaluate_situation evidence s) p)
      ∙ append_assoc p.evaluations (evaluate_situation evidence s ∷ []) _

module _ (evidence_list : List Evidence) (catalog : List Situation) where
  -- The matched situations, in the order of the catalog.
  pub situations-correlate_state :
      (correlate_state evidence_list catalog).situations
      ≡ filter (λ s. all_observed (by_id evidence_list) s.signature) catalog
  unfolding correlate_state
  situations-correlate_state = situations-walk (by_id evidence_list) catalog start

  -- One evaluation for each situation of the catalog, in its order.
  pub evaluations-correlate_state :
      (correlate_state evidence_list catalog).evaluations
      ≡ map (evaluate_situation (by_id evidence_list)) catalog
  unfolding correlate_state
  evaluations-correlate_state = evaluations-walk (by_id evidence_list) catalog start
