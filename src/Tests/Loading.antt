-- ===== src/Tests/Loading.antt =====
-- The loaders at concrete inputs.
use evidence_tool.Base.{◌≡◌, refl, true, List, [], ◌∷◌, contains, string_dec, ok}
use evidence_tool.Base.Dict.{lookup, insert}
use evidence_tool.Base.Sort.{sorted}
use evidence_tool.Base.Int.{pos}
use evidence_tool.Models.Value.{Value, text, int, object, list, to_items}
use evidence_tool.Models.Evidence.{parse_status}
use evidence_tool.Models.Policy.{requirement_ids}
use evidence_tool.Loaders.{is_blank, check_texts}
use evidence_tool.Loaders.Dotted.{is_dotted_id, before_dot, after_dot, after_first}
use evidence_tool.Loaders.Policy.{
  parse_on_unknown, parse_max_age, parse_schema, parse_risk, parse_mapping,
  parse_evidence_requirement, parse_requirements, situation_list, validate_situational_lists,
  require_field, load_header, load_requirements, load_policy,
}
use evidence_tool.Loaders.Policy.Sound.{IsWellFormed, load_policy-IsWellFormed}
use evidence_tool.Loaders.Catalog.{
  load_catalog, situations_of, check_status, signature_items, description_of, load_signature,
  load_situation, load_situations,
}
use evidence_tool.Tests.Data.{printing, restart, catalog}

abbrev requirements : List Value
requirements =
    text "nginx.config_valid"
    ∷ object (
        ("id", text "systemd.service_active")
        ∷ ("on_unknown", text "IGNORE")
        ∷ ("max_age", int (pos 60))
        ∷ [])
    ∷ []

abbrev pub policy_file : Value
policy_file = object (
    ("version", text "1")
    ∷ ("action", text "restart_nginx")
    ∷ ("risk", text "LOW")
    ∷ ("required_evidence", list (to_items requirements))
    ∷ [])

pub loads : load_policy printing policy_file ≡ ok restart
unfolding load_policy load_header load_requirements require_field parse_requirements
    parse_evidence_requirement parse_mapping parse_on_unknown parse_max_age parse_schema parse_risk
    validate_situational_lists situation_list check_texts is_blank is_dotted_id before_dot after_dot
    after_first lookup sorted string_dec
loads = refl

load_policy-IsWellFormed_example : IsWellFormed restart
load_policy-IsWellFormed_example = load_policy-IsWellFormed printing policy_file restart loads

config_is_required :
    contains (requirement_ids restart.required_evidence) "nginx.config_valid" ≡ true
unfolding string_dec
config_is_required = refl

abbrev catalog_file : Value
catalog_file = object (
    (
      "situations",
      object (
          (
            "DOWN",
            object (
                ("description", text "the unit is not active")
                ∷ (
                  "signature",
                  object (
                      ("nginx.config_valid", text "PASS")
                      ∷ ("systemd.service_active", text "FAIL")
                      ∷ []),
                )
                ∷ []),
          )
          ∷ (
            "BROKEN",
            object (
                ("description", text "the configuration is not valid")
                ∷ ("signature", object (("nginx.config_valid", text "FAIL") ∷ []))
                ∷ []),
          )
          ∷ []),
    )
    ∷ [])

loads_catalog : load_catalog printing "catalog.yaml" catalog_file ≡ ok catalog
unfolding load_catalog situations_of load_situations load_situation load_signature check_status
    signature_items description_of parse_status lookup insert string_dec
loads_catalog = refl
