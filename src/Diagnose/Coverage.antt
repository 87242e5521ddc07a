-- ===== src/Diagnose/Coverage.antt =====
-- The observations after the loop over the providers.
use evidence_tool.Base.{
  String, ◌≡◌, true, Option, some, List, [], ◌∷◌, ◌++◌, arith, contains, contains-append,
}
use evidence_tool.Models.Policy.{Policy}
use evidence_tool.Models.Correlation.{Situation}
use evidence_tool.Capability.{ExecutionContext}
use evidence_tool.Diagnose.Namespaces.{namespace_of, needed_namespaces, in_namespace}
use evidence_tool.Diagnose.Collect.{
  Registry, ids_of, settle, attempt, Collected, collect_from, collect_all,
}
use evidence_tool.Diagnose.Needed.{IsNeeded, needed_namespaces-covers, in_namespace-namespace_of}
use evidence_tool.Diagnose.Settled.{settle-covers, ids_of-append}

module _ (registry : Registry) (policy : Policy) (catalog : List Situation) (id : String) where
  abbrev turn : String → Collected → Collected
  turn namespace done =
      let (outcome, after) = attempt registry namespace done.execution in
      record {
        observations = done.observations ++ settle registry policy catalog namespace outcome;
        execution = after;
      }

  turn-keeps :
      (namespace : String) (done : Collected)
      → contains (ids_of done.observations) id ≡ true
      → contains (ids_of (turn namespace done).observations) id ≡ true
  turn-keeps namespace done h =
      let given =
        settle registry policy catalog namespace (attempt registry namespace done.execution).0 in
      ground (
        arith,
        ids_of-append done.observations given,
        contains-append (ids_of done.observations) (ids_of given) id,
      )

  collect_from-keeps :
      (namespaces : List String) (done : Collected)
      → contains (ids_of done.observations) id ≡ true
      → contains (ids_of (collect_from registry policy catalog namespaces done).observations) id
        ≡ true
  unfolding collect_from
  collect_from-keeps [] done h = h
  collect_from-keeps (n ∷ rest) done h = collect_from-keeps rest (turn n done) (turn-keeps n done h)

  module _ (needed : IsNeeded policy catalog id) where
    turn-covers :
        (namespace : String) (done : Collected)
        → in_namespace namespace id ≡ true
        → contains (ids_of (turn namespace done).observations) id ≡ true
    turn-covers namespace done belongs =
        let outcome = (attempt registry namespace done.execution).0 in
        let given = settle registry policy catalog namespace outcome in
        ground (
          arith,
          ids_of-append done.observations given,
          contains-append (ids_of done.observations) (ids_of given) id,
          settle-covers policy namespace id belongs registry catalog needed outcome,
        )

    collect_from-covers :
        (namespace : String) (namespaces : List String) (done : Collected)
        → contains namespaces namespace ≡ true
        → in_namespace namespace id ≡ true
        → contains (ids_of (collect_from registry policy catalog namespaces done).observations) id
          ≡ true
    unfolding collect_from
    collect_from-covers namespace [] done m belongs = cc
    collect_from-covers namespace (n ∷ rest) done m belongs = ground (
      arith,
      collect_from-covers namespace rest (turn n done),
      collect_from-keeps rest (turn n done),
      turn-covers n done,
    )

    -- Every dotted id that the policy requires, or that stands in the signature of a situation of
    -- the catalog that the policy allows or is blocked by, has an observation after the loop,
    -- whether providers are denied, raise, give invalid observations or leave the id out.
    pub collect_all-covers :
        (namespace : String)
        → namespace_of id ≡ some namespace
        → (execution : Option ExecutionContext)
        → contains
            (ids_of
              (collect_all registry policy catalog
                (needed_namespaces policy catalog)
                execution).observations)
            id
          ≡ true
    unfolding collect_all
    collect_all-covers namespace e execution =
        collect_from-covers namespace (needed_namespaces policy catalog)
          (record { observations = []; execution = execution })
          (needed_namespaces-covers policy catalog id namespace needed e)
          (in_namespace-namespace_of id namespace e)
