-- ===== src/Diagnose/Collect.antt =====
-- diagnose.py: the loop over the providers, with its two handlers.
use evidence_tool.Base.{
  ℕ, String, ◌<>◌, Bool, true, false, not, ◌&&◌, ◌||◌, Option, none, some, List, [], ◌∷◌, ◌++◌,
  if◌then◌else◌, contains, filter, Result, ok, err, Error, value_error, type_error,
  capability_denied, os_error, ◌>>=◌, ◌>>◌, guard,
}
use evidence_tool.Base.Sort.{sorted}
use evidence_tool.Models.Value.{Value, text, bool, object}
use evidence_tool.Models.Observation.{Observation}
use evidence_tool.Models.Policy.{Policy}
use evidence_tool.Models.Correlation.{Situation}
use evidence_tool.Capability.{ExecutionContext, allows_provider}
use evidence_tool.Diagnose.Namespaces.{in_namespace, expected_ids, failed_ids}

pub data ProviderTrust : Type 0 where
  builtin approved experimental disabled : ProviderTrust

abbrev pub trust_text : ProviderTrust → String
trust_text builtin = "builtin"
trust_text approved = "approved"
trust_text experimental = "experimental"
trust_text disabled = "disabled"

-- What the providers are to the loop: `get_provider_trust`, `get_provider(namespace).collect(...)`,
-- which may raise and may use up the budget of the execution context, and the clock.
pub record Registry : Type 0 where
  pub get_provider_trust : String → Result ProviderTrust
  pub collect :
      String → Option ExecutionContext → Result (List Observation) × Option ExecutionContext
  pub now : String → ℕ

abbrev pub ids_of : List Observation → List String
ids_of [] = []
ids_of (o ∷ os) = o.id ∷ ids_of os

-- an observation that the engine makes itself
abbrev pub substitute : Registry → String → String → String → Value → String → String → Observation
substitute registry namespace category method value message id = record {
  id = id;
  source = namespace;
  category = category;
  collector = "diagnose_engine";
  method = method;
  value = value;
  message = message;
  observed_at = registry.now id;
  collected_at = registry.now id;
  host = none;
  execution_scope = none;
  target = none;
  capability = none;
  transport_status = none;
}

unfoldable pub substitutes : (String → Observation) → List String → List Observation
substitutes make [] = []
substitutes make (id ∷ rest) = make id ∷ substitutes make rest

abbrev unknown_value : Value
unknown_value = object (("status", text "UNKNOWN") ∷ [])

abbrev denied_value : Value
denied_value = object (("status", text "UNKNOWN") ∷ ("capability_denied", bool true) ∷ [])

unfoldable pub missing_observation : Registry → String → String → Observation
missing_observation registry namespace id =
    substitute registry namespace "system" "partial_provider_collection" unknown_value
      ("Provider '" <> (namespace <> ("' did not return evidence '" <> (id <> "'.")))) id

unfoldable pub denied_observation : Registry → String → String → String → Observation
denied_observation registry namespace message id =
    substitute registry namespace "security" "capability_policy" denied_value message id

unfoldable pub error_observation : Registry → String → String → String → Observation
error_observation registry namespace message id =
    substitute registry namespace "system" "provider_execution" unknown_value
      ("Provider execution failed:\n" <> message) id

abbrev docker_names : List String
docker_names = "docker" ∷ "container" ∷ []

abbrev k8s_names : List String
k8s_names = "k8s" ∷ "kubernetes" ∷ []

unfoldable pub is_valid_observation : String → Observation → Bool
is_valid_observation namespace o =
    (contains (namespace ∷ "docker" ∷ "container" ∷ "k8s" ∷ "kubernetes" ∷ []) o.source)
    && (in_namespace namespace o.id
        || (contains docker_names namespace
            && (in_namespace "docker" o.id || in_namespace "container" o.id))
        || (contains k8s_names namespace
            && (in_namespace "k8s" o.id || in_namespace "kubernetes" o.id)))

unfoldable pub is_trusted : ProviderTrust → Bool
is_trusted builtin = true
is_trusted approved = true
is_trusted experimental = false
is_trusted disabled = false

unfoldable pub check_trust : String → ProviderTrust → Result (Unit {0})
unfolding is_trusted
check_trust namespace trust = guard (is_trusted trust) (
    capability_denied (
      "Provider '"
      <> (namespace <> ("' has trust level '" <> (trust_text trust <> "' and is not approved.")))))

-- the two tests before the provider runs
unfoldable pub authorise_provider : Registry → String → Option ExecutionContext → Result (Unit {0})
unfolding check_trust
authorise_provider registry namespace none = ok tt
authorise_provider registry namespace (some execution) = do
  guard (allows_provider execution.capabilities namespace) (
      capability_denied
        ("Provider '" <> (namespace <> "' is not authorized by capability policy.")))
  if execution.capabilities.require_trusted_providers
      then registry.get_provider_trust namespace >>= check_trust namespace
      else ok tt

-- the loop over the collected observations, which stops at the first one that is not valid
unfoldable pub check_observations : String → List Observation → Result (Unit {0})
check_observations namespace [] = ok tt
check_observations namespace (o ∷ os) = do
  guard (is_valid_observation namespace o) (
      capability_denied
        ("Provider '" <> (namespace <> ("' returned invalid observation '" <> (o.id <> "'.")))))
  check_observations namespace os

unfoldable pub run_provider :
    Registry
    → String
    → Option ExecutionContext
    → Result (Unit {0})
    → Result (List Observation) × Option ExecutionContext
run_provider registry namespace execution (err e) = (err e, execution)
run_provider registry namespace execution (ok _) =
    let (collected, after) = registry.collect namespace execution in
    (collected >>= (λ os. check_observations namespace os >> ok os), after)

-- the body of `try`
unfoldable pub attempt :
    Registry
    → String
    → Option ExecutionContext
    → Result (List Observation) × Option ExecutionContext
unfolding run_provider
attempt registry namespace execution =
    run_provider registry namespace execution (authorise_provider registry namespace execution)

-- `str(exc)`
abbrev pub error_text : Error → String
error_text (value_error t) = t
error_text (type_error t) = t
error_text (capability_denied t) = t
error_text (os_error t) = t

-- what the turn adds to `observations`: the handlers and the filling in of missing ids
unfoldable pub settle :
    Registry → Policy → List Situation → String → Result (List Observation) → List Observation
settle registry policy catalog namespace (ok collected) =
    collected
    ++ substitutes (missing_observation registry namespace) (
        sorted (
          filter (λ id. not (contains (ids_of collected) id))
            (expected_ids namespace policy catalog)))
settle registry policy catalog namespace (err (capability_denied message)) =
    substitutes (denied_observation registry namespace message)
      (failed_ids namespace policy catalog)
settle registry policy catalog namespace (err (value_error message)) =
    substitutes (error_observation registry namespace message) (failed_ids namespace policy catalog)
settle registry policy catalog namespace (err (type_error message)) =
    substitutes (error_observation registry namespace message) (failed_ids namespace policy catalog)
settle registry policy catalog namespace (err (os_error message)) =
    substitutes (error_observation registry namespace message) (failed_ids namespace policy catalog)

pub record Collected : Type 0 where
  pub observations : List Observation
  pub execution : Option ExecutionContext

unfoldable pub collect_from :
    Registry → Policy → List Situation → List String → Collected → Collected
unfolding settle attempt
collect_from registry policy catalog [] done = done
collect_from registry policy catalog (namespace ∷ rest) done =
    let (outcome, after) = attempt registry namespace done.execution in
    collect_from registry policy catalog rest (record {
      observations = done.observations ++ settle registry policy catalog namespace outcome;
      execution = after;
    })

unfoldable pub collect_all :
    Registry → Policy → List Situation → List String → Option ExecutionContext → Collected
unfolding collect_from
collect_all registry policy catalog namespaces execution =
    collect_from registry policy catalog namespaces
      (record { observations = []; execution = execution })
