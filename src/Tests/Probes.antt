-- ===== src/Tests/Probes.antt =====
-- Probes at concrete inputs.
use evidence_tool.Base.{
  Result, true, ℕ, ◌≤◌, String, ◌≡◌, ◌↔◌, refl, Bool, false, Option, none, some, List, [], ◌∷◌,
  string_dec, ok, err, value_error, ◌==◌, if◌then◌else◌,
}
use evidence_tool.Capability.{
  IpAddresses, NetworkCapability, CapabilitySet, default_network, default_kubernetes, new_tracker,
  remaining, allows_target, any_network, require_network,
}
use evidence_tool.Capability.Grants.{
  NetworkGranted, require_network_iff, TargetAllowed, allows_target_iff,
}
use evidence_tool.Capability.Budget.{
  Request, network, kubernetes, require_all, granted-le-remaining,
}

-- Addresses are texts that are not names of this list, and a network is an address.
abbrev pub parse : String → Option String
parse s = if s == "db.internal" then none else some s

abbrev pub in_network : String → String → Result Bool
in_network address item =
    if item == "db.internal"
    then err (value_error "'db.internal' does not appear to be an IPv4 or IPv6 network")
    else ok (item == address)

abbrev pub ip : IpAddresses
ip = record { Address = String; ip_address = parse; in_network = in_network }

abbrev show : ℕ → String
show n = "2"

abbrev pub restricted : NetworkCapability
restricted = record default_network {
  targets = "10.0.0.1" ∷ "db.internal" ∷ "10.0.0.2" ∷ [];
  max_probes = some 2;
}

abbrev pub capabilities : CapabilitySet
capabilities = record {
  network = restricted;
  kubernetes = default_kubernetes;
  allowed_providers = none;
  require_trusted_providers = false;
  policy_fingerprint = none;
  probe_tracker = new_tracker (some 2);
}

abbrev requests : List Request
requests =
    network "tcp_connect" "10.0.0.1" (some 6379)
    ∷ kubernetes "k8s_get_pod" "kube-system"
    ∷ network "dns_lookup" "10.0.0.1" none
    ∷ []

require_network_example :
    ((require_network show ip "tcp_connect" "10.0.0.1" (some 6379) capabilities).0 ≡ ok tt)
    ↔ NetworkGranted ip capabilities "tcp_connect" "10.0.0.1" (some 6379)
require_network_example =
    require_network_iff show ip "tcp_connect" "10.0.0.1" (some 6379) capabilities

allows_target_example :
    (allows_target ip restricted "10.0.0.2" ≡ ok true)
    ↔ TargetAllowed ip restricted.targets "10.0.0.2"
allows_target_example = allows_target_iff ip restricted "10.0.0.2"

-- the name in the list hides the address behind it
hides_address :
    allows_target ip restricted "10.0.0.2"
    ≡ err (value_error "'db.internal' does not appear to be an IPv4 or IPv6 network")
unfolding allows_target any_network string_dec
hides_address = refl

two_remain : remaining capabilities.probe_tracker ≡ some 2
unfolding remaining
two_remain = refl

granted-le-remaining_example : (require_all ip show requests capabilities).0 ≤ 2
granted-le-remaining_example = granted-le-remaining ip show requests capabilities 2 two_remain
