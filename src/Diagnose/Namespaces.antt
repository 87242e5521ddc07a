-- ===== src/Diagnose/Namespaces.antt =====
-- diagnose.py: which provider namespaces a policy needs, and which ids belong to one.
use evidence_tool.Base.{
  String, ◌<>◌, Bool, ◌||◌, Option, none, some, List, [], ◌∷◌, ◌++◌, ◌==◌, if◌then◌else◌, contains,
  add, update, filter, split, starts_with,
}
use evidence_tool.Base.Dict.{keys}
use evidence_tool.Base.Sort.{sorted}
use evidence_tool.Models.Policy.{Policy, requirement_ids}
use evidence_tool.Models.Correlation.{Situation}

-- `parts[0]` if there is more than one part
unfoldable pub first_of : List String → Option String
first_of [] = none
first_of (part ∷ []) = none
first_of (part ∷ _ ∷ _) = some part

-- of an id of evidence, split at the dots
unfoldable pub namespace_of : String → Option String
unfolding first_of
namespace_of id = first_of (split 46 id)

unfoldable pub add_part : Option String → List String → List String
add_part none found = found
add_part (some part) found = add found part

unfoldable pub add_namespaces : List String → List String → List String
unfolding add_part
add_namespaces [] found = found
add_namespaces (id ∷ rest) found = add_namespaces rest (add_part (namespace_of id) found)

-- the loops over the situations of one id
unfoldable pub add_of_situations : String → List Situation → List String → List String
add_of_situations sit_id [] found = found
add_of_situations sit_id (sit ∷ rest) found =
    add_of_situations sit_id rest
      (if sit.id == sit_id then add_namespaces (keys sit.signature) found else found)

unfoldable pub add_of_policy : List String → List Situation → List String → List String
add_of_policy [] catalog found = found
add_of_policy (sit_id ∷ rest) catalog found =
    add_of_policy rest catalog (add_of_situations sit_id catalog found)

-- An absent catalog is the empty one.
unfoldable pub needed_namespaces : Policy → List Situation → List String
needed_namespaces policy catalog = sorted (
    add_of_policy (policy.allow ++ policy.blocked_by) catalog
      (add_namespaces (requirement_ids policy.required_evidence) []))

-- `id.startswith(f"{namespace}.")`
abbrev pub in_namespace : String → String → Bool
in_namespace namespace id = starts_with id (namespace <> ".")

unfoldable pub expected_of_catalog : String → Policy → List Situation → List String → List String
expected_of_catalog namespace policy [] expected = expected
expected_of_catalog namespace policy (sit ∷ rest) expected =
    expected_of_catalog namespace policy rest (
      if contains policy.allow sit.id || contains policy.blocked_by sit.id
      then update expected (filter (in_namespace namespace) (keys sit.signature))
      else expected)

-- the set `expected_ids`
unfoldable pub expected_ids : String → Policy → List Situation → List String
expected_ids namespace policy catalog =
    expected_of_catalog namespace policy catalog
      (update [] (filter (in_namespace namespace) (requirement_ids policy.required_evidence)))

unfoldable pub failed_of_catalog : String → List Situation → List String → List String
failed_of_catalog namespace [] failed = failed
failed_of_catalog namespace (sit ∷ rest) failed =
    failed_of_catalog namespace rest
      (update failed (filter (in_namespace namespace) (keys sit.signature)))

-- the list `failed_ids` of the two handlers, which takes in the whole catalog
unfoldable pub failed_ids : String → Policy → List Situation → List String
failed_ids namespace policy catalog =
    failed_of_catalog namespace catalog
      (filter (in_namespace namespace) (requirement_ids policy.required_evidence))
