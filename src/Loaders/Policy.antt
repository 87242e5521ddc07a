-- ===== src/Loaders/Policy.antt =====
-- policy/loader.py: from the value of a YAML file to a policy. An integer above the range of floats
-- as `max_age`, for which `math.isfinite` raises, is taken like any other.
pub mod Sound
pub mod Namespaced
use evidence_tool.Base.{
  ℕ, suc, ◌+◌, ◌*◌, String, ◌<>◌, Bool, true, false, not, ◌&&◌, ◌||◌, Option, none, some, List, [],
  ◌∷◌, ◌==◌, if◌then◌else◌, is_empty, contains, filter, to_set, length, nat_beq, Result, ok, err,
  Error, value_error, ◌>>=◌, ◌>>◌, guard,
}
use evidence_tool.Base.Sort.{sorted}
use evidence_tool.Base.Int.{ℤ, pos, negsuc}
use evidence_tool.Models.Value.{
  Value, null, bool, int, float, text, list, mapping, Float, finite, infinite, nan, items, get_key,
  nil,
}
use evidence_tool.Models.Policy
use evidence_tool.Models.Policy.{
  OnUnknown, EvidenceRequirement, Policy, PolicySchema, RiskLevel, requirement_ids, v1_legacy,
  v2_situational, low, medium, high, critical,
}
use evidence_tool.Loaders.{Printing, is_blank, get_or, check_texts}
use evidence_tool.Loaders.Dotted.{is_dotted_id}

-- `OnUnknown(...)` with the default of the model
unfoldable pub parse_on_unknown : Option Value → Option OnUnknown
parse_on_unknown none = some OnUnknown.block
parse_on_unknown (some (text s)) =
    if s == "BLOCK"
    then some OnUnknown.block
    else if s == "IGNORE"
    then some OnUnknown.ignore
    else none
parse_on_unknown (some _) = none

-- `max_age`, in microseconds; the outer `none` is the ValueError
unfoldable pub parse_max_age : Option Value → Option (Option ℤ)
parse_max_age none = some none
parse_max_age (some null) = some none
parse_max_age (some (int (pos n))) = some (some (pos (n * 1000000)))
parse_max_age (some (float (finite (pos n)))) = some (some (pos n))
parse_max_age (some _) = none

-- `PolicySchema(raw.get("schema", ...))`
unfoldable pub parse_schema : Option Value → Option PolicySchema
parse_schema none = some v1_legacy
parse_schema (some (text s)) =
    if s == "v1" then some v1_legacy else if s == "v2" then some v2_situational else none
parse_schema (some _) = none

-- `RiskLevel(raw["risk"])`
unfoldable pub parse_risk : Option Value → Option RiskLevel
parse_risk (some (text s)) =
    if s == "LOW"
    then some low
    else if s == "MEDIUM"
    then some medium
    else if s == "HIGH"
    then some high
    else if s == "CRITICAL"
    then some critical
    else none
parse_risk _ = none

-- an optional value, or the exception
abbrev pub or_raise {ℓ} : {A : Type ℓ} → Option A → Error → Result A
or_raise none e = err e
or_raise (some a) e = ok a

-- `isinstance(v, str)` and the test of it
abbrev pub text_that : (String → Bool) → Option Value → Option String
text_that good (some (text s)) = if good s then some s else none
text_that good _ = none

abbrev pub human_approval_of : Option Value → Option Bool
human_approval_of none = some false
human_approval_of (some (bool b)) = some b
human_approval_of (some _) = none

-- a list that is empty by default
abbrev pub list_of : Option Value → Option (List Value)
list_of none = some []
list_of (some (list xs)) = some (items xs)
list_of (some _) = none

module _ (printing : Printing) where
  unfoldable pub at_index : ℕ → String → Error
  at_index index rest =
      value_error ("Invalid policy: required_evidence[" <> (printing.number index <> ("]" <> rest)))

  unfoldable pub parse_mapping : Value → ℕ → Result EvidenceRequirement
  unfolding at_index
  parse_mapping item index = do
    evidence_id ←
        or_raise (text_that is_dotted_id (get_key "id" item))
          (at_index index " needs a non-empty 'id'.")
    on_unknown ←
        or_raise (parse_on_unknown (get_key "on_unknown" item))
          (at_index index ".on_unknown must be BLOCK or IGNORE.")
    max_age ←
        or_raise (parse_max_age (get_key "max_age" item))
          (at_index index ".max_age must be a non-negative number.")
    ok (record { id = evidence_id; on_unknown = on_unknown; max_age = max_age })

  unfoldable pub parse_evidence_requirement : Value → ℕ → Result EvidenceRequirement
  unfolding parse_mapping
  parse_evidence_requirement (text s) index =
      if is_dotted_id s
      then ok (record { id = s; on_unknown = OnUnknown.block; max_age = none })
      else err (at_index index " needs a valid dotted 'id'.")
  parse_evidence_requirement (mapping fs) index = parse_mapping (mapping fs) index
  parse_evidence_requirement _ index = err (at_index index " must be a string or mapping.")

  -- `enumerate(required_evidence_raw)`
  unfoldable pub parse_requirements : List Value → ℕ → Result (List EvidenceRequirement)
  unfolding parse_evidence_requirement
  parse_requirements [] index = ok []
  parse_requirements (item ∷ rest) index = do
    req ← parse_evidence_requirement item index
    reqs ← parse_requirements rest (suc index)
    ok (req ∷ reqs)

  unfoldable pub situation_list : String → Option Value → Result (List String)
  situation_list field raw = do
    xs ←
        or_raise (list_of raw) (value_error ("Invalid policy: '" <> (field <> "' must be a list.")))
    check_texts (λ s. not (is_blank s))
        (value_error ("Invalid policy: '" <> (field <> "' entries must be non-empty strings."))) xs

  -- `set(allow_list).intersection(set(blocked_by_list))`, sorted
  abbrev pub conflicts : List String → List String → List String
  conflicts allow blocked_by = sorted (filter (contains blocked_by) (to_set allow))

  unfoldable pub validate_situational_lists : Value → Result (List String × List String)
  unfolding situation_list
  validate_situational_lists raw = do
    allow ← situation_list "allow" (get_key "allow" raw)
    blocked_by ← situation_list "blocked_by" (get_key "blocked_by" raw)
    guard (is_empty (conflicts allow blocked_by)) (
        value_error (
          "Semantic Policy Conflict: situations cannot be simultaneously allowed and blocked: "
          <> printing.texts (conflicts allow blocked_by)))
    ok (allow, blocked_by)

  unfoldable pub require_field : Value → String → Result Value
  require_field raw field =
      or_raise (get_key field raw)
        (value_error ("Invalid policy: missing required field '" <> (field <> "'.")))

  -- `len(evidence_ids) == len(set(evidence_ids))`
  abbrev pub are_unique : List String → Bool
  are_unique xs = nat_beq (length xs) (length (to_set xs))

  -- the version, and the action, after the test for the three fields
  unfoldable pub load_header : Value → Result (Value × String)
  unfolding require_field
  load_header raw = do
    version ← require_field raw "version"
    _ ← require_field raw "action"
    _ ← require_field raw "risk"
    action ←
        or_raise (text_that (λ s. not (is_blank s)) (get_key "action" raw))
          (value_error "Invalid policy: 'action' must be a non-empty string.")
    ok (version, action)

  unfoldable pub load_requirements : Value → Result (List EvidenceRequirement)
  unfolding parse_requirements
  load_requirements raw = do
    listed ←
        or_raise (list_of (get_key "required_evidence" raw))
          (value_error "Invalid policy: 'required_evidence' must be a list.")
    required_evidence ← parse_requirements listed 0
    guard (are_unique (requirement_ids required_evidence))
        (value_error "Semantic Policy Conflict: required evidence IDs must be unique.")
    ok required_evidence

  unsupported : Error
  unsupported = value_error "Invalid policy: 'schema' or 'risk' has an unsupported value."

  unfoldable pub load_policy : Value → Result Policy
  unfolding load_header load_requirements validate_situational_lists unsupported
  load_policy (mapping fs) =
      let raw = mapping fs in
      do
        header ← load_header raw
        required_evidence ← load_requirements raw
        schema ← or_raise (parse_schema (get_key "schema" raw)) unsupported
        risk ← or_raise (parse_risk (get_key "risk" raw)) unsupported
        lists ← validate_situational_lists raw
        human_approval ←
            or_raise (human_approval_of (get_key "human_approval" raw))
              (value_error "Invalid policy: 'human_approval' must be a boolean.")
        ok (record {
          version = printing.value header.0;
          action = header.1;
          risk = risk;
          schema = schema;
          required_evidence = required_evidence;
          allow = lists.0;
          blocked_by = lists.1;
          human_approval = human_approval;
        })
  load_policy _ = err (value_error "Invalid policy format: expected a YAML mapping.")
