-- ===== src/Loaders/Capability.antt =====
-- capability/loader.py: from the text of a file to a capability set. The hash, `str.lower` and
-- `yaml.safe_load` are parameters.
pub mod Sound
use evidence_tool.Base.{
  ℕ, zero, suc, ◌*◌, String, ◌<>◌, ◌==◌, Bool, true, false, not, ◌&&◌, ◌||◌, Option, none, some,
  List, [], ◌∷◌, ◌++◌, if◌then◌else◌, nonempty, nat_beq, leb, any, all, to_set, Result, ok, err,
  value_error, capability_denied, ◌>>=◌, ◌>>◌, guard,
}
use evidence_tool.Base.Int.{ℤ, pos, negsuc}
use evidence_tool.Models.Value.{
  Value, null, bool, int, float, text, list, mapping, Float, finite, infinite, minus_infinite, nan,
  items, end, get_key, truthy,
}
use evidence_tool.Capability.{
  NetworkCapability, KubernetesCapability, CapabilitySet, default_kubernetes, kubernetes_operations,
  network_operations, new_tracker, post_init,
}

-- a set of numbers
abbrev pub add_port : List ℕ → ℕ → List ℕ
add_port ports p = if any (λ q. nat_beq p q) ports then ports else ports ++ p ∷ []

-- `[item for item in value]` if all of them are `int` and not `bool`
unfoldable pub integers : List Value → Option (List ℤ)
integers [] = some []
integers (int n ∷ rest) = elim (integers rest) [ none ↦ none | some ns ↦ some (n ∷ ns) ]
integers (_ ∷ rest) = none

-- `1 <= item <= 65535`, and the set of the items
unfoldable pub port_set : List ℤ → List ℕ → Option (List ℕ)
port_set [] ports = some ports
port_set (pos n ∷ rest) ports =
    let more = port_set rest (add_port ports n) in if leb 1 n && leb n 65535 then more else none
port_set (negsuc n ∷ rest) ports = none

unfoldable pub in_range : Option (List ℕ) → Result (Option (List ℕ))
in_range none =
    err (value_error "Invalid capability policy: network.ports must be between 1 and 65535.")
in_range (some ports) = ok (some ports)

unfoldable pub ports_of_list : Option (List ℤ) → Result (Option (List ℕ))
unfolding in_range
ports_of_list none =
    err (value_error "Invalid capability policy: network.ports must be a list of integers or '*'.")
ports_of_list (some ns) = in_range (port_set ns [])

unfoldable pub parse_ports : Option Value → Result (Option (List ℕ))
unfolding ports_of_list
parse_ports none = ok none
parse_ports (some null) = ok none
parse_ports (some (text s)) = if s == "*" then ok none else ports_of_list none
parse_ports (some (list xs)) = ports_of_list (integers (items xs))
parse_ports (some _) = ports_of_list none

unfoldable pub strings : List Value → Option (List String)
strings [] = some []
strings (text s ∷ rest) = elim (strings rest) [ none ↦ none | some xs ↦ some (s ∷ xs) ]
strings (_ ∷ rest) = none

-- `raw.get(key, default)`, which has to be a list of strings
unfoldable pub strings_or : List String → Option Value → Option (List String)
strings_or default none = some default
strings_or default (some (list xs)) = strings (items xs)
strings_or default (some _) = none

unfoldable pub parse_max_probes : Option Value → Option (Option ℕ)
parse_max_probes none = some none
parse_max_probes (some null) = some none
parse_max_probes (some (int (pos (suc n)))) = some (some (suc n))
parse_max_probes (some _) = none

-- `not math.isfinite(v) or v <= 0` is refused
unfoldable pub parse_network_timeout : Option Value → Option ℤ
parse_network_timeout none = some (pos 2000000)
parse_network_timeout (some (int (pos (suc n)))) = some (pos (suc n * 1000000))
parse_network_timeout (some (float (finite (pos (suc n))))) = some (pos (suc n))
parse_network_timeout (some _) = none

-- `v <= 0` is refused, which is false for a nan
unfoldable pub parse_kubernetes_timeout : Option Value → Option Float
parse_kubernetes_timeout none = some (finite (pos 5000000))
parse_kubernetes_timeout (some (int (pos (suc n)))) = some (finite (pos (suc n * 1000000)))
parse_kubernetes_timeout (some (float (finite (pos (suc n))))) = some (finite (pos (suc n)))
parse_kubernetes_timeout (some (float infinite)) = some infinite
parse_kubernetes_timeout (some (float nan)) = some nan
parse_kubernetes_timeout (some _) = none

-- `raise ValueError("Invalid capability policy: ...")`, or the value
abbrev pub valid {ℓ} : {A : Type ℓ} → String → Option A → Result A
valid what none = err (value_error ("Invalid capability policy: " <> what))
valid what (some a) = ok a

-- `bool(raw.get("enabled", True))`
abbrev pub enabled_of : Option Value → Bool
enabled_of none = true
enabled_of (some v) = truthy v

unfoldable pub parse_network : Value → Result NetworkCapability
parse_network (mapping fs) =
    let raw = mapping fs in
    do
      operations ←
          valid "network.operations must be a list of strings."
            (strings_or network_operations (get_key "operations" raw))
      targets ←
          valid "network.targets must be a list of strings."
            (strings_or ("*" ∷ []) (get_key "targets" raw))
      max_probes ←
          valid "network.max_probes must be a positive integer."
            (parse_max_probes (get_key "max_probes" raw))
      timeout_seconds ←
          valid "network.timeout_seconds must be a positive number."
            (parse_network_timeout (get_key "timeout_seconds" raw))
      ports ← parse_ports (get_key "ports" raw)
      ok (record {
        enabled = enabled_of (get_key "enabled" raw);
        operations = to_set operations;
        targets = targets;
        ports = ports;
        max_probes = max_probes;
        timeout_seconds = timeout_seconds;
        allow_insecure_tls = false;
      })
parse_network _ = err (value_error "Invalid capability policy: 'network' must be a mapping.")

unfoldable pub parse_kubernetes : Value → Result KubernetesCapability
parse_kubernetes null = ok default_kubernetes
parse_kubernetes (mapping fs) =
    let raw = mapping fs in
    do
      operations ←
          valid "kubernetes.operations must be a list of strings."
            (strings_or kubernetes_operations (get_key "operations" raw))
      allowed ←
          valid "kubernetes.allowed_namespaces must be a list of strings."
            (strings_or ("*" ∷ []) (get_key "allowed_namespaces" raw))
      denied ← valid "kubernetes.denied_namespaces must be a list of strings." (
          strings_or ("kube-system" ∷ "kube-public" ∷ "kube-node-lease" ∷ [])
            (get_key "denied_namespaces" raw))
      timeout_seconds ←
          valid "kubernetes.timeout_seconds must be a positive number."
            (parse_kubernetes_timeout (get_key "timeout_seconds" raw))
      ok (record {
        enabled = enabled_of (get_key "enabled" raw);
        operations = to_set operations;
        allowed_namespaces = allowed;
        denied_namespaces = to_set denied;
        timeout_seconds = timeout_seconds;
      })
parse_kubernetes _ = err (value_error "Invalid capability policy: 'kubernetes' must be a mapping.")

-- `raw.get(key, default)`
abbrev pub value_or : Value → Option Value → Value
value_or default none = default
value_or default (some v) = v

unfoldable pub trusted_of : Option Value → Option Bool
trusted_of none = some false
trusted_of (some (bool b)) = some b
trusted_of (some _) = none

unfoldable pub allowed_of : Option Value → Option (Option (List String))
allowed_of none = some none
allowed_of (some null) = some none
allowed_of (some (list xs)) = elim (strings (items xs)) [
  | none ↦ none
  | some names ↦ some (some (to_set names))
]
allowed_of (some _) = none

unfoldable pub capabilities_of : String → Value → Result CapabilitySet
unfolding trusted_of allowed_of
capabilities_of fingerprint (mapping fs) =
    let capabilities = mapping fs in
    let providers = value_or (mapping end) (get_key "providers" capabilities) in
    do
      network ← parse_network (value_or (mapping end) (get_key "network" capabilities))
      kubernetes ← parse_kubernetes (value_or (mapping end) (get_key "kubernetes" capabilities))
      require_trusted ←
          valid "providers.require_trusted must be a boolean."
            (trusted_of (get_key "require_trusted" providers))
      allowed ←
          valid "providers.allowed must be a list of strings."
            (allowed_of (get_key "allowed" providers))
      ok (
          post_init (record {
            network = network;
            kubernetes = kubernetes;
            allowed_providers = allowed;
            require_trusted_providers = require_trusted;
            policy_fingerprint = some fingerprint;
            probe_tracker = new_tracker none;
          }))
capabilities_of fingerprint _ =
    err (value_error "Invalid capability policy: 'capabilities' must be a mapping.")

unfoldable pub capabilities_in : String → Value → Result CapabilitySet
capabilities_in fingerprint (mapping fs) =
    capabilities_of fingerprint (value_or (mapping fs) (get_key "capabilities" (mapping fs)))
capabilities_in fingerprint _ =
    err (value_error "Invalid capability policy: expected a YAML mapping.")

-- `expected_hash and sha256_hash.lower() != expected_hash.lower()` is false
unfoldable pub is_untampered : (String → String) → String → Option String → Bool
is_untampered lower actual none = true
is_untampered lower actual (some expected) =
    not (nonempty expected) || lower actual == lower expected

abbrev pub expected_text : Option String → String
expected_text none = ""
expected_text (some expected) = expected

module _ (sha256 : String → String) (lower : String → String)
    (safe_load : String → Result Value) where
  unfoldable pub load_capability_policy : String → Option String → Result CapabilitySet
  unfolding is_untampered capabilities_in
  load_capability_policy content expected_hash = do
    guard (is_untampered lower (sha256 content) expected_hash) (
        capability_denied (
          "Capability policy tamper detected: expected hash "
          <> (expected_text expected_hash <> (", got " <> sha256 content))))
    raw ← safe_load content
    capabilities_in (sha256 content) raw
