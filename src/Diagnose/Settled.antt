-- ===== src/Diagnose/Settled.antt =====
-- The observations of one turn of the loop over the providers.
use evidence_tool.Base.{
  String, ◌≡◌, refl, true, not, ◌||◌, List, [], ◌∷◌, ◌++◌, arith, if◌then◌else◌, contains,
  contains-append, contains-update, contains-filter, update, filter, Any, Result, ok, err,
  value_error, type_error, capability_denied, os_error,
}
use evidence_tool.Base.Dict.{keys}
use evidence_tool.Base.Sort.{sorted, contains-sorted}
use evidence_tool.Models.Observation.{Observation}
use evidence_tool.Models.Policy.{Policy, requirement_ids}
use evidence_tool.Models.Correlation.{Situation}
use evidence_tool.Diagnose.Namespaces.{
  in_namespace, expected_of_catalog, expected_ids, failed_of_catalog, failed_ids,
}
use evidence_tool.Diagnose.Collect.{
  Registry, ids_of, substitutes, missing_observation, denied_observation, error_observation, settle,
}
use evidence_tool.Diagnose.Needed.{IsListed, IsNeeded}

-- what a turn of the loop gives has the ids of that namespace
pub ids_of-append : (xs ys : List Observation) → ids_of (xs ++ ys) ≡ ids_of xs ++ ids_of ys
ids_of-append [] ys = refl
ids_of-append (x ∷ xs) ys = ground (arith, ids_of-append xs ys)

ids_of-substitutes :
    (make : String → Observation) (xs : List String)
    → ((id : String) → (make id).id ≡ id)
    → ids_of (substitutes make xs) ≡ xs
unfolding substitutes
ids_of-substitutes make [] h = refl
ids_of-substitutes make (x ∷ xs) h = ground (arith, ids_of-substitutes make xs h, h x)

module _ (policy : Policy) (namespace id : String) where
  expected_of_catalog-keeps :
      (catalog : List Situation) (expected : List String)
      → contains expected id ≡ true
      → contains (expected_of_catalog namespace policy catalog expected) id ≡ true
  unfolding expected_of_catalog
  expected_of_catalog-keeps [] expected h = h
  expected_of_catalog-keeps (sit ∷ rest) expected h =
      let more = filter (in_namespace namespace) (keys sit.signature) in
      expected_of_catalog-keeps rest
        (if contains policy.allow sit.id || contains policy.blocked_by sit.id
          then update expected more
          else expected)
        (ground (arith, contains-update more expected id))

  failed_of_catalog-keeps :
      (catalog : List Situation) (failed : List String)
      → contains failed id ≡ true
      → contains (failed_of_catalog namespace catalog failed) id ≡ true
  unfolding failed_of_catalog
  failed_of_catalog-keeps [] failed h = h
  failed_of_catalog-keeps (sit ∷ rest) failed h =
      let more = filter (in_namespace namespace) (keys sit.signature) in
      failed_of_catalog-keeps rest (update failed more)
        (ground (arith, contains-update more failed id))

  module _ (belongs : in_namespace namespace id ≡ true) where
    expected_of_catalog-covers :
        (catalog : List Situation) (expected : List String)
        → Any (IsListed policy id) catalog
        → contains (expected_of_catalog namespace policy catalog expected) id ≡ true
    unfolding expected_of_catalog
    expected_of_catalog-covers [] expected h = absurd h
    expected_of_catalog-covers (sit ∷ rest) expected h =
        let more = filter (in_namespace namespace) (keys sit.signature) in
        let next =
          if contains policy.allow sit.id || contains policy.blocked_by sit.id
          then update expected more
          else expected in
        ground (
          arith,
          expected_of_catalog-covers rest next,
          expected_of_catalog-keeps rest next,
          contains-update more expected id,
          contains-filter (in_namespace namespace) (keys sit.signature) id,
          contains-append policy.allow policy.blocked_by sit.id,
        )

    failed_of_catalog-covers :
        (catalog : List Situation) (failed : List String)
        → Any (IsListed policy id) catalog
        → contains (failed_of_catalog namespace catalog failed) id ≡ true
    unfolding failed_of_catalog
    failed_of_catalog-covers [] failed h = absurd h
    failed_of_catalog-covers (sit ∷ rest) failed h =
        let more = filter (in_namespace namespace) (keys sit.signature) in
        ground (
          arith,
          failed_of_catalog-covers rest (update failed more),
          failed_of_catalog-keeps rest (update failed more),
          contains-update more failed id,
          contains-filter (in_namespace namespace) (keys sit.signature) id,
        )

    expected_ids-covers :
        (catalog : List Situation)
        → IsNeeded policy catalog id
        → contains (expected_ids namespace policy catalog) id ≡ true
    unfolding expected_ids
    expected_ids-covers catalog h =
        let own = filter (in_namespace namespace) (requirement_ids policy.required_evidence) in
        ground (
          arith,
          expected_of_catalog-keeps catalog (update [] own),
          expected_of_catalog-covers catalog (update [] own),
          contains-update own [] id,
          contains-filter (in_namespace namespace) (requirement_ids policy.required_evidence) id,
        )

    failed_ids-covers :
        (catalog : List Situation)
        → IsNeeded policy catalog id
        → contains (failed_ids namespace policy catalog) id ≡ true
    unfolding failed_ids
    failed_ids-covers catalog h =
        let own = filter (in_namespace namespace) (requirement_ids policy.required_evidence) in
        ground (
          arith,
          failed_of_catalog-keeps catalog own,
          failed_of_catalog-covers catalog own,
          contains-filter (in_namespace namespace) (requirement_ids policy.required_evidence) id,
        )

    module _ (registry : Registry) (catalog : List Situation)
        (needed : IsNeeded policy catalog id) where
      pub settle-covers :
          (outcome : Result (List Observation))
          → contains (ids_of (settle registry policy catalog namespace outcome)) id ≡ true
      unfolding settle missing_observation denied_observation error_observation
      settle-covers (ok collected) =
          let absent =
            filter (λ x. not (contains (ids_of collected) x))
              (expected_ids namespace policy catalog) in
          rw
            (
              ids_of-append collected
                  (substitutes (missing_observation registry namespace) (sorted absent)),
              ids_of-substitutes (missing_observation registry namespace) (sorted absent) λ _. refl,
              contains-append (ids_of collected) (sorted absent) id,
              contains-sorted absent id,
              contains-filter (λ x. not (contains (ids_of collected) x))
                  (expected_ids namespace policy catalog) id,
              expected_ids-covers catalog needed,
            )
            (ground arith)
      settle-covers (err (capability_denied m)) =
          rw
            (ids_of-substitutes (denied_observation registry namespace m)
              (failed_ids namespace policy catalog) λ _. refl)
            (failed_ids-covers catalog needed)
      settle-covers (err (value_error m)) =
          rw
            (ids_of-substitutes (error_observation registry namespace m)
              (failed_ids namespace policy catalog) λ _. refl)
            (failed_ids-covers catalog needed)
      settle-covers (err (type_error m)) =
          rw
            (ids_of-substitutes (error_observation registry namespace m)
              (failed_ids namespace policy catalog) λ _. refl)
            (failed_ids-covers catalog needed)
      settle-covers (err (os_error m)) =
          rw
            (ids_of-substitutes (error_observation registry namespace m)
              (failed_ids namespace policy catalog) λ _. refl)
            (failed_ids-covers catalog needed)
