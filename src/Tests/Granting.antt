-- ===== src/Tests/Granting.antt =====
-- A file of capabilities at a concrete input.
use evidence_tool.Base.{String, ◌≡◌, refl, true, none, some, [], ◌∷◌, string_dec, Result, ok}
use evidence_tool.Base.Dict.{lookup}
use evidence_tool.Base.Int.{pos}
use evidence_tool.Models.Value.{Value, int, bool, object, list, to_items, truthy}
use evidence_tool.Capability.{
  CapabilitySet, default_network, default_kubernetes, new_tracker, post_init,
}
use evidence_tool.Loaders.Capability.{
  integers, port_set, in_range, ports_of_list, parse_ports, strings, strings_or, parse_max_probes,
  parse_network_timeout, parse_kubernetes_timeout, parse_network, parse_kubernetes, trusted_of,
  allowed_of, capabilities_of, capabilities_in, is_untampered, load_capability_policy,
}
use evidence_tool.Loaders.Capability.Sound.{IsLoaded, load_capability_policy-IsLoaded}

abbrev file : Value
file = object (
    (
      "network",
      object (
          ("ports", list (to_items (int (pos 443) ∷ int (pos 6379) ∷ [])))
          ∷ ("max_probes", int (pos 5))
          ∷ []),
    )
    ∷ ("providers", object (("require_trusted", bool true) ∷ []))
    ∷ [])

abbrev hash : String → String
hash content = "5f2b"

abbrev same_text : String → String
same_text s = s

abbrev yaml : String → Result Value
yaml content = ok file

abbrev granted : CapabilitySet
granted = record {
  network = record default_network { ports = some (443 ∷ 6379 ∷ []); max_probes = some 5 };
  kubernetes = default_kubernetes;
  allowed_providers = none;
  require_trusted_providers = true;
  policy_fingerprint = some "5f2b";
  probe_tracker = new_tracker (some 5);
}

loads_capabilities :
    load_capability_policy hash same_text yaml "network: ..." (some "5f2b") ≡ ok granted
unfolding load_capability_policy is_untampered capabilities_in capabilities_of parse_network
    parse_kubernetes parse_ports ports_of_list in_range port_set integers strings strings_or
    parse_max_probes parse_network_timeout parse_kubernetes_timeout trusted_of allowed_of post_init
    truthy lookup string_dec
loads_capabilities = refl

load_capability_policy-IsLoaded_example :
    (is_untampered same_text (hash "network: ...") (some "5f2b") ≡ true)
    × IsLoaded (hash "network: ...") granted
load_capability_policy-IsLoaded_example =
    load_capability_policy-IsLoaded hash same_text yaml "network: ..." (some "5f2b") granted
      loads_capabilities
