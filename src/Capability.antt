-- ===== src/Capability.antt =====
-- capability/models.py: what a caller may probe, and how often. A port and a probe budget are
-- numbers that are not negative. `ipaddress` is a parameter.
pub mod Budget
pub mod Grants
use evidence_tool.Base.{
  ℕ, suc, ◌+◌, ◌-◌, String, ◌<>◌, Bool, true, false, not, ◌&&◌, ◌||◌, Option, none, some, List, [],
  ◌∷◌, ◌==◌, nat_beq, if◌then◌else◌, ltb, contains, any, Result, ok, err, capability_denied,
  value_error, ◌>>=◌, ◌>>◌, guard,
}
use evidence_tool.Base.Int.{ℤ, pos}
use evidence_tool.Models.Value.{Float, finite}

pub data CallerType : Type 0 where
  ai_agent human automated_pipeline unknown_caller : CallerType

abbrev pub caller_text : CallerType → String
caller_text ai_agent = "AI_AGENT"
caller_text human = "HUMAN"
caller_text automated_pipeline = "AUTOMATED_PIPELINE"
caller_text unknown_caller = "UNKNOWN"

pub record CallerIdentity : Type 0 where
  pub caller_id : String
  pub caller_type : CallerType
  pub session_id : Option String

abbrev pub local_caller : CallerIdentity
local_caller = record { caller_id = "local-cli"; caller_type = human; session_id = none }

pub record ProbeTracker : Type 0 where
  pub max_probes : Option ℕ
  pub consumed : ℕ

abbrev pub new_tracker : Option ℕ → ProbeTracker
new_tracker max_probes = record { max_probes = max_probes; consumed = 0 }

-- `self.max_probes is not None and consumed > self.max_probes`
abbrev pub is_exceeded : Option ℕ → ℕ → Bool
is_exceeded none consumed = false
is_exceeded (some limit) consumed = ltb limit consumed

-- The count goes up before the test, also where the test raises.
unfoldable pub record_probe : (ℕ → String) → ProbeTracker → Result (Unit {0}) × ProbeTracker
record_probe show t =
    let t' : ProbeTracker = record t { consumed = t.consumed + 1 } in
    elim t.max_probes [
      | none ↦ (ok tt, t')
      | some limit ↦ (
        guard (not (ltb limit t'.consumed)) (
            capability_denied
              ("Probe budget exceeded: limit of " <> (show limit <> " probes reached."))),
        t',
      )
    ]

-- `max(0, self.max_probes - self.consumed)`
unfoldable pub remaining : ProbeTracker → Option ℕ
remaining t = elim t.max_probes [ none ↦ none | some limit ↦ some (limit - t.consumed) ]

pub record AuthorityMetadata : Type 0 where
  pub caller_id : String
  pub caller_type : String
  pub session_id : Option String
  pub policy_fingerprint : Option String
  pub probes_budget : Option ℕ
  pub probes_consumed : ℕ
  pub probes_remaining : Option ℕ

pub record NetworkCapability : Type 0 where
  pub enabled : Bool
  pub operations : List String
  pub targets : List String
  pub ports : Option (List ℕ)
  pub max_probes : Option ℕ
  pub timeout_seconds : ℤ
  pub allow_insecure_tls : Bool

abbrev pub network_operations : List String
network_operations =
    "dns_lookup" ∷ "route_check" ∷ "icmp_echo" ∷ "tcp_connect" ∷ "tls_handshake" ∷ "http_probe"
    ∷ "redis_ping" ∷ "redis_info" ∷ "db_ping" ∷ "db_pool_check" ∷ "ssh_transport" ∷ []

abbrev pub default_network : NetworkCapability
default_network = record {
  enabled = true;
  operations = network_operations;
  targets = "*" ∷ [];
  ports = none;
  max_probes = none;
  timeout_seconds = pos 2000000;
  allow_insecure_tls = false;
}

-- What `ipaddress` is used for: `ip_address(s)`, where `none` is a ValueError, and
-- `address in ip_network(s, strict=False)`, with the ValueError that it may raise.
pub record IpAddresses : Type 1 where
  pub Address : Type 0
  pub ip_address : String → Option Address
  pub in_network : Address → String → Result Bool

abbrev pub network_allows_operation : NetworkCapability → String → Bool
network_allows_operation network operation =
    network.enabled && contains network.operations operation

module _ (ip : IpAddresses) where
  -- `any(address in ip_network(item) for item in self.targets)`
  unfoldable pub any_network : ip.Address → List String → Result Bool
  any_network address [] = ok false
  any_network address (item ∷ rest) =
      let later = any_network address rest in
      elim (ip.in_network address item) [ err e ↦ err e | ok true ↦ ok true | ok false ↦ later ]

  unfoldable pub allows_target : NetworkCapability → String → Result Bool
  unfolding any_network
  allows_target network target =
      if contains network.targets "*" then ok true else elim (ip.ip_address target) [
        | none ↦ ok (contains network.targets target)
        | some address ↦ any_network address network.targets
      ]

-- `port in self.ports`
abbrev pub allows_port : NetworkCapability → ℕ → Bool
allows_port network port = elim network.ports [
  | none ↦ true
  | some ports ↦ any (λ p. nat_beq port p) ports
]

pub record KubernetesCapability : Type 0 where
  pub enabled : Bool
  pub operations : List String
  pub allowed_namespaces : List String
  pub denied_namespaces : List String
  pub timeout_seconds : Float

abbrev pub kubernetes_operations : List String
kubernetes_operations =
    "k8s_get_pod" ∷ "k8s_get_events" ∷ "k8s_get_node" ∷ "k8s_get_pvc" ∷ "k8s_get_service" ∷ []

abbrev pub default_kubernetes : KubernetesCapability
default_kubernetes = record {
  enabled = true;
  operations = kubernetes_operations;
  allowed_namespaces = "*" ∷ [];
  denied_namespaces = "kube-system" ∷ "kube-public" ∷ "kube-node-lease" ∷ [];
  timeout_seconds = finite (pos 5000000);
}

abbrev pub kubernetes_allows_operation : KubernetesCapability → String → Bool
kubernetes_allows_operation k operation = k.enabled && contains k.operations operation

unfoldable pub allows_namespace : KubernetesCapability → String → Bool
allows_namespace k namespace =
    if not k.enabled
    then false
    else if contains k.denied_namespaces namespace
    then false
    else if contains k.allowed_namespaces "*"
    then true
    else contains k.allowed_namespaces namespace

pub record CapabilitySet : Type 0 where
  pub network : NetworkCapability
  pub kubernetes : KubernetesCapability
  pub allowed_providers : Option (List String)
  pub require_trusted_providers : Bool
  pub policy_fingerprint : Option String
  pub probe_tracker : ProbeTracker

-- the budget of a tracker that has none is the one of the network capability
abbrev pub budget : Option ℕ → Option ℕ → Option ℕ
budget (some limit) none = some limit
budget _ own = own

unfoldable pub post_init : CapabilitySet → CapabilitySet
post_init c = record c {
  probe_tracker = record (c.probe_tracker) {
    max_probes = budget c.network.max_probes c.probe_tracker.max_probes;
  };
}

unfoldable pub clone_isolated : CapabilitySet → CapabilitySet
unfolding post_init
clone_isolated c = post_init (record c { probe_tracker = new_tracker c.network.max_probes })

unfoldable pub allows_provider : CapabilitySet → String → Bool
allows_provider c namespace = elim c.allowed_providers [
  | none ↦ true
  | some allowed ↦ contains allowed namespace
]

pub record ExecutionContext : Type 0 where
  pub caller : String
  pub identity : CallerIdentity
  pub transport_host : Option String
  pub capabilities : CapabilitySet

module _ (show : ℕ → String) where
  -- `record_probe`, then the tests; the count stays whatever they say
  unfoldable pub count_and : CapabilitySet → Result (Unit {0}) → Result (Unit {0}) × CapabilitySet
  count_and c checks =
      let (counted, tracker) = record_probe show c.probe_tracker in
      (counted >> checks, record c { probe_tracker = tracker })

  unfoldable pub check_kubernetes : KubernetesCapability → String → String → Result (Unit {0})
  check_kubernetes k operation namespace = do
    guard (kubernetes_allows_operation k operation)
        (capability_denied ("Kubernetes operation '" <> (operation <> "' is not enabled.")))
    guard (allows_namespace k namespace)
        (capability_denied ("Kubernetes namespace '" <> (namespace <> "' is not authorized.")))

  unfoldable pub require_kubernetes :
      String → String → CapabilitySet → Result (Unit {0}) × CapabilitySet
  unfolding record_probe check_kubernetes count_and
  require_kubernetes operation namespace c =
      count_and c (check_kubernetes c.kubernetes operation namespace)

  -- the test of the port, where there is one
  unfoldable pub check_port : NetworkCapability → Option ℕ → Result (Unit {0})
  check_port network none = ok tt
  check_port network (some port) =
      guard (allows_port network port)
        (capability_denied ("Network port '" <> (show port <> "' is not authorized.")))

  module _ (ip : IpAddresses) where
    unfoldable pub check_network :
        NetworkCapability → String → String → Option ℕ → Result (Unit {0})
    unfolding check_port
    check_network network operation target port = do
      guard (network_allows_operation network operation)
          (capability_denied ("Network capability '" <> (operation <> "' is not enabled.")))
      allowed ← allows_target ip network target
      guard allowed (capability_denied ("Network target '" <> (target <> "' is not authorized.")))
      check_port network port

    unfoldable pub require_network :
        String → String → Option ℕ → CapabilitySet → Result (Unit {0}) × CapabilitySet
    unfolding record_probe check_network count_and
    require_network operation target port c =
        count_and c (check_network c.network operation target port)

    unfoldable pub require_ssh_transport :
        String → CapabilitySet → Result (Unit {0}) × CapabilitySet
    unfolding require_network
    require_ssh_transport target c = require_network "ssh_transport" target none c
