-- ===== src/Correlation.antt =====
-- decision/correlation.py: the evidence against a catalog of situations.
pub mod Matching
pub mod Ambiguity
pub mod Locality
use evidence_tool.Base.{
  String, Bool, true, false, ◌&&◌, Option, none, some, List, [], ◌∷◌, ◌++◌, if◌then◌else◌, add,
  update, contains,
}
use evidence_tool.Base.Dict.{Dict, keys, lookup, insert}
use evidence_tool.Base.Sort.{sorted_set}
use evidence_tool.Models.Evidence.{
  EvidenceStatus, unknown, same_status, Evidence, evidence_id, by_id, index_from,
}
use evidence_tool.Models.Correlation.{Situation, SituationEvaluation, OperationalState}

-- the variables of the loop over one signature
pub record Tally : Type 0 where
  pub match : Bool
  pub missing : List String
  pub unresolved : List String
  pub discrepant : List String

abbrev pub clean : Tally
clean = record { match = true; missing = []; unresolved = []; discrepant = [] }

-- the body of the loop over one signature
unfoldable pub judge : String → EvidenceStatus → Option Evidence → Tally → Tally
judge ev_id expected none t = record t { match = false; missing = t.missing ++ ev_id ∷ [] }
judge ev_id expected (some ev) t =
    if same_status ev.status unknown
    then record t { match = false; unresolved = t.unresolved ++ ev_id ∷ [] }
    else if same_status ev.status expected
    then t
    else record t { match = false; discrepant = t.discrepant ++ ev_id ∷ [] }

unfoldable pub scan : Dict Evidence → Dict EvidenceStatus → Tally → Tally
unfolding judge
scan evidence [] t = t
scan evidence ((ev_id, expected) ∷ signature) t =
    scan evidence signature (judge ev_id expected (lookup ev_id evidence) t)

unfoldable pub evaluate_situation : Dict Evidence → Situation → SituationEvaluation
unfolding scan
evaluate_situation evidence situation =
    let t = scan evidence situation.signature clean in
    record {
      situation = situation;
      matched = t.match;
      unresolved_evidence = t.unresolved;
      missing_evidence = t.missing;
      discrepant_evidence = t.discrepant;
    }

-- the variables of the loop over the catalog
pub record Progress : Type 0 where
  pub matched_situations : List Situation
  pub evaluations : List SituationEvaluation
  pub discrepancies : Dict (List String)
  pub catalog_evidence_ids : List String

abbrev pub start : Progress
start = record {
  matched_situations = [];
  evaluations = [];
  discrepancies = [];
  catalog_evidence_ids = [];
}

-- what one turn of the loop records about an evaluated situation
unfoldable pub note : SituationEvaluation → Progress → Progress
note ev p =
    let s = ev.situation in
    record {
      matched_situations =
          if ev.matched then p.matched_situations ++ s ∷ [] else p.matched_situations;
      evaluations = p.evaluations ++ ev ∷ [];
      discrepancies =
          insert s.id
            (if ev.matched
              then []
              else ev.missing_evidence ++ (ev.unresolved_evidence ++ ev.discrepant_evidence))
            p.discrepancies;
      catalog_evidence_ids = update p.catalog_evidence_ids (keys s.signature);
    }

unfoldable pub walk : Dict Evidence → List Situation → Progress → Progress
unfolding note
walk evidence [] p = p
walk evidence (s ∷ catalog) p = walk evidence catalog (note (evaluate_situation evidence s) p)

-- ids of the evidence that is UNKNOWN and named by the catalog
unresolved_ids : List Evidence → List String → List String
unresolved_ids [] catalog_ids = []
unresolved_ids (e ∷ es) catalog_ids =
    let rest = unresolved_ids es catalog_ids in
    if same_status e.status unknown && contains catalog_ids (evidence_id e)
    then evidence_id e ∷ rest
    else rest

unfoldable pub correlate_state : List Evidence → List Situation → OperationalState
unfolding evaluate_situation walk unresolved_ids index_from sorted_set insert lookup
correlate_state evidence_list catalog =
    let p = walk (by_id evidence_list) catalog start in
    record {
      situations = p.matched_situations;
      evaluations = p.evaluations;
      unresolved_evidence = sorted_set (unresolved_ids evidence_list p.catalog_evidence_ids);
      discrepancies = p.discrepancies;
    }
