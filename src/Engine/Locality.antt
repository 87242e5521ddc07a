-- ===== src/Engine/Locality.antt =====
-- A V2 decision under two collections of evidence.
use evidence_tool.Base.{
  String, ◌≡◌, refl, ap, Bool, true, false, Option, none, some, List, [], ◌∷◌, arith, ◌==◌, All,
  contains, find_first,
}
use evidence_tool.Base.Dict.{keys}
use evidence_tool.Models.Evidence.{Evidence, by_id}
use evidence_tool.Models.Policy.{Policy}
use evidence_tool.Models.Correlation.{Situation, OperationalState, situation_ids}
use evidence_tool.Correlation.{correlate_state}
use evidence_tool.Correlation.Locality.{view, View, Agree, view_of_Agree}
use evidence_tool.Engine.{
  is_active, check_blocked_v2, check_allowed_match_v2, check_unresolved_v2, collect_discrepancies,
  decide_v2,
}

abbrev is_found : Option Situation → Bool
is_found none = false
is_found (some s) = true

contains-situation_ids :
    (ss : List Situation) (id : String)
    → contains (situation_ids ss) id ≡ is_found (find_first (λ s. s.id == id) ss)
contains-situation_ids [] id = refl
contains-situation_ids (s ∷ ss) id = ground (arith, contains-situation_ids ss id)

module _ (a b : OperationalState) where
  abbrev SameViews : List String → Type 0
  SameViews = All (λ id. view a id ≡ view b id)

  is_active_same : (id : String) → view a id ≡ view b id → is_active a id ≡ is_active b id
  is_active_same id h = ground (
    arith,
    contains-situation_ids a.situations id,
    contains-situation_ids b.situations id,
    ap (λ (v : View). v.is_matched) h,
  )

  check_blocked_v2_same :
      (ids : List String) → SameViews ids → check_blocked_v2 a ids ≡ check_blocked_v2 b ids
  unfolding check_blocked_v2
  check_blocked_v2_same [] h = refl
  check_blocked_v2_same (id ∷ ids) h =
      rw (is_active_same id h.0, check_blocked_v2_same ids h.1, ap (λ (v : View). v.is_matched) h.0)

  check_allowed_match_v2_same :
      (policy : Policy) (ids : List String)
      → SameViews ids
      → check_allowed_match_v2 a policy ids ≡ check_allowed_match_v2 b policy ids
  unfolding check_allowed_match_v2
  check_allowed_match_v2_same policy [] h = refl
  check_allowed_match_v2_same policy (id ∷ ids) h = rw (
    is_active_same id h.0,
    check_allowed_match_v2_same policy ids h.1,
    ap (λ (v : View). v.evaluation) h.0,
  )

  check_unresolved_v2_same :
      (ids : List String) → SameViews ids → check_unresolved_v2 a ids ≡ check_unresolved_v2 b ids
  unfolding check_unresolved_v2
  check_unresolved_v2_same [] h = refl
  check_unresolved_v2_same (id ∷ ids) h =
      rw (check_unresolved_v2_same ids h.1, ap (λ (v : View). v.evaluation) h.0)

  collect_discrepancies_same :
      (ids acc : List String)
      → SameViews ids
      → collect_discrepancies a ids acc ≡ collect_discrepancies b ids acc
  unfolding collect_discrepancies
  collect_discrepancies_same [] acc h = refl
  collect_discrepancies_same (id ∷ ids) acc h =
      rw (ap (λ (v : View). v.discrepancy) h.0) (collect_discrepancies_same ids _ h.1)

  pub decide_v2_same :
      (policy : Policy)
      → SameViews policy.allow
      → SameViews policy.blocked_by
      → decide_v2 a policy ≡ decide_v2 b policy
  unfolding decide_v2
  decide_v2_same policy allowed blocked = rw (
    check_blocked_v2_same policy.blocked_by blocked,
    check_allowed_match_v2_same policy policy.allow allowed,
    check_unresolved_v2_same policy.allow allowed,
    collect_discrepancies_same policy.allow [] allowed,
  )

-- the evidence agrees on the signatures of the situations with this id
abbrev pub AgreeAt : List Evidence → List Evidence → List Situation → String → Type 0
AgreeAt xs ys catalog id =
    All (λ s. s.id ≡ id → Agree (by_id xs) (by_id ys) (keys s.signature)) catalog

module _ (xs ys : List Evidence) (catalog : List Situation) where
  views_of_AgreeAt :
      (ids : List String)
      → All (AgreeAt xs ys catalog) ids
      → All (λ id. view (correlate_state xs catalog) id ≡ view (correlate_state ys catalog) id) ids
  views_of_AgreeAt [] h = tt
  views_of_AgreeAt (id ∷ ids) h = (view_of_Agree xs ys id catalog h.0, views_of_AgreeAt ids h.1)

  -- Two collections of evidence that agree on the signatures of the situations which the policy
  -- allows or blocks lead to the same V2 decision, whatever else they hold: also where evidence
  -- that the policy requires is PASS in the one and FAIL in the other, a FAIL for which section 13.2
  -- of PRODUCT_CONTRACT.md wants BLOCK.
  pub decide_v2_local :
      (policy : Policy)
      → All (AgreeAt xs ys catalog) policy.allow
      → All (AgreeAt xs ys catalog) policy.blocked_by
      → decide_v2 (correlate_state xs catalog) policy
        ≡ decide_v2 (correlate_state ys catalog) policy
  decide_v2_local policy allowed blocked =
      decide_v2_same (correlate_state xs catalog) (correlate_state ys catalog) policy
        (views_of_AgreeAt policy.allow allowed) (views_of_AgreeAt policy.blocked_by blocked)
