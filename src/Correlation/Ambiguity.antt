-- ===== src/Correlation/Ambiguity.antt =====
-- The lists of an evaluation and its verdict.
use evidence_tool.Base.{
  String, ◌≡◌, ◌↔◌, refl, true, ◌&&◌, Option, none, some, List, [], ◌∷◌, ◌++◌, arith, is_empty,
}
use evidence_tool.Base.Dict.{Dict, lookup}
use evidence_tool.Models.Evidence.{EvidenceStatus, Evidence}
use evidence_tool.Models.Correlation.{Situation}
use evidence_tool.Correlation.{Tally, clean, judge, scan, evaluate_situation}

-- the flag of the loop agrees with its lists
abbrev IsTally : Tally → Type 0
IsTally t = t.match ≡ (is_empty t.missing && (is_empty t.unresolved && is_empty t.discrepant))

is_empty-snoc : (xs : List String) (x : String) → is_empty (xs ++ x ∷ []) ≡ is_empty (x ∷ xs)
is_empty-snoc [] x = refl
is_empty-snoc (y ∷ xs) x = refl

judge-IsTally :
    (k : String) (v : EvidenceStatus) (o : Option Evidence) (t : Tally)
    → IsTally t
    → IsTally (judge k v o t)
unfolding judge
judge-IsTally k v none t h = ground (arith, is_empty-snoc t.missing k)
judge-IsTally k v (some e) t h =
    ground (arith, is_empty-snoc t.unresolved k, is_empty-snoc t.discrepant k)

module _ (evidence : Dict Evidence) where
  scan-IsTally : (sig : Dict EvidenceStatus) (t : Tally) → IsTally t → IsTally (scan evidence sig t)
  unfolding scan
  scan-IsTally [] t h = h
  scan-IsTally ((k, v) ∷ sig) t h =
      scan-IsTally sig (judge k v (lookup k evidence) t) (judge-IsTally k v (lookup k evidence) t h)

  -- A situation matches exactly when nothing is missing, unresolved or discrepant.
  pub matched-empty_iff :
      (s : Situation)
      → let ev = evaluate_situation evidence s in
        (ev.matched ≡ true) ↔ (
          (ev.missing_evidence ≡ [])
          × (ev.unresolved_evidence ≡ [])
          × (ev.discrepant_evidence ≡ []))
  unfolding evaluate_situation
  matched-empty_iff s = ground (arith, scan-IsTally s.signature clean refl)
