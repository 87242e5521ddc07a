-- ===== src/Causality/Loader.antt =====
-- causality/loader.py: from the value of a YAML file to the causal rules. Keys of mappings are texts.
pub mod Conditions
use Prim.Native.Char.{Char, code}
use evidence_tool.Base.{
  ℕ, String, ◌<>◌, ◌==◌, ◌≡◌, refl, ap, ◌∙◌, Bool, true, false, ◌&&◌, ◌||◌, Option, none, some,
  List, [], ◌∷◌, leb, nat_beq, if◌then◌else◌, All, Result, ok, err, value_error, arith, ◌-◌,
}
use evidence_tool.Base.Dict.{Dict, insert}
use evidence_tool.Base.Decimal.{strip}
use evidence_tool.Base.Cut.{cut}
use evidence_tool.Base.Utf8.{char_of}
use evidence_tool.Models.Value.{
  Value, text, bool, list, mapping, fields, items, end, nil, get_key, truthy, to_items, object,
}
use evidence_tool.Causality.Models.{
  CausalRule, CausalRelationType, propagates_to, triggers, symptom_of, precludes, relation_text,
}
use evidence_tool.Loaders.{Printing, get_or}

-- `s.upper()`, as far as a result of capital letters of ASCII goes
unfoldable pub upper : String → String
upper String.[] = ""
upper (String.◌∷◌ c s) =
    String.◌∷◌
      (if leb 97 (code c) && leb (code c) 122
        then char_of (code c - 32)
        else if nat_beq (code c) 305
        then char_of 73
        else if nat_beq (code c) 383
        then char_of 83
        else c)
      (upper s)

-- `CausalRelationType(rel_str)`, and the relation for what is none
abbrev pub relation_of : String → CausalRelationType
relation_of s =
    if s == relation_text propagates_to
    then propagates_to
    else if s == relation_text triggers
    then triggers
    else if s == relation_text symptom_of
    then symptom_of
    else if s == relation_text precludes
    then precludes
    else propagates_to

module _ (printing : Printing) where
  -- `str(v)`
  abbrev pub str : Value → String
  str (text s) = s
  str v = printing.value v

  unfoldable pub conditions_from : Dict Value → Dict String → Dict String
  conditions_from [] conditions = conditions
  conditions_from ((k, v) ∷ rest) conditions = conditions_from rest (insert k (str v) conditions)

  abbrev pub add_condition : Option (String × String) → Dict String → Dict String
  add_condition none conditions = conditions
  add_condition (some (k, v)) conditions = insert (strip k) (strip v) conditions

  unfoldable pub conditions_in : List Value → Dict String → Dict String
  unfolding cut
  conditions_in [] conditions = conditions
  conditions_in (text c ∷ rest) conditions =
      conditions_in rest (add_condition (cut 61 c) conditions)
  conditions_in (_ ∷ rest) conditions = conditions_in rest conditions

  unfoldable pub parse_conditions : Value → Dict String
  unfolding conditions_from conditions_in
  parse_conditions (mapping fs) = conditions_from (fields fs) []
  parse_conditions (list vs) = conditions_in (items vs) []
  parse_conditions _ = []

  unfoldable pub parse_rule : Value → CausalRule
  unfolding parse_conditions truthy upper
  parse_rule item = record {
    id = str (get_or (text "") (get_key "id" item));
    source = str (get_or (text "") (get_key "source" item));
    target = str (get_or (text "") (get_key "target" item));
    relation = relation_of (upper (str (get_or (text "PROPAGATES_TO") (get_key "relation" item))));
    conditions = parse_conditions (get_or (mapping end) (get_key "conditions" item));
    description = str (get_or (text "") (get_key "description" item));
    is_root_cause_candidate = truthy (get_or (bool true) (get_key "is_root_cause_candidate" item));
    is_surface_symptom = truthy (get_or (bool false) (get_key "is_surface_symptom" item));
  }

  unfoldable pub parse_rules : List Value → List CausalRule
  unfolding parse_rule
  parse_rules [] = []
  parse_rules (mapping fs ∷ rest) = parse_rule (mapping fs) ∷ parse_rules rest
  parse_rules (_ ∷ rest) = parse_rules rest

  abbrev pub rules_of : Value → Result (List CausalRule)
  rules_of (list vs) = ok (parse_rules (items vs))
  rules_of _ = err (value_error "Invalid causality catalog: 'causal_rules' must be a list.")

  -- `a or b`
  abbrev pub either : Option Value → Value → Value
  either none b = b
  either (some v) b = if truthy v then v else b

  unfoldable pub load_causal_catalog : Value → Result (List CausalRule)
  unfolding parse_rules truthy
  load_causal_catalog (mapping fs) = rules_of (
      either (get_key "causal_rules" (mapping fs))
        (either (get_key "rules" (mapping fs)) (list nil)))
  load_causal_catalog _ = err (value_error "Invalid causality catalog: root must be a dictionary.")
