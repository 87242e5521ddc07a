-- ===== src/Capability/Grants.antt =====
-- Exactly when a probe is granted, and when a target is allowed.
use evidence_tool.Base.{
  ℕ, suc, ◌≤◌, String, ◌≡◌, ◌↔◌, true, false, ◌||◌, Option, none, some, List, [], ◌∷◌, ◌++◌, arith,
  contains, All, Result, ok, err, Error, refl, ap, ◌∙◌, Bool, false, Bool-cases, Option-cases,
  Result-cases, inl, inr,
}
use evidence_tool.Capability.{
  IpAddresses, ProbeTracker, NetworkCapability, KubernetesCapability, CapabilitySet, any_network,
  allows_target, allows_port, allows_namespace, check_network, check_kubernetes, count_and,
  record_probe, require_network, require_kubernetes,
}

no_value : {e : Error} {b : Bool} → err e ≡ ok b → ⊥
no_value h = cc

ok_inj : {a b : Bool} → ok a ≡ ok b → a ≡ b
ok_inj h = cc

-- one more probe is within the budget
abbrev pub Within : Option ℕ → ℕ → Type 0
Within none n = Unit
Within (some limit) n = n ≤ limit

abbrev pub HasBudget : ProbeTracker → Type 0
HasBudget t = Within t.max_probes (suc t.consumed)

abbrev pub PortAllowed : NetworkCapability → Option ℕ → Type 0
PortAllowed network none = Unit
PortAllowed network (some port) = allows_port network port ≡ true

pub record NetworkGranted (ip : IpAddresses) (c : CapabilitySet) (operation target : String)
    (port : Option ℕ) : Type 0 where
  pub in_budget : HasBudget c.probe_tracker
  pub enabled : c.network.enabled ≡ true
  pub listed : contains c.network.operations operation ≡ true
  pub target_allowed : allows_target ip c.network target ≡ ok true
  pub port_allowed : PortAllowed c.network port

pub record KubernetesGranted (c : CapabilitySet) (operation namespace : String) : Type 0 where
  pub in_budget : HasBudget c.probe_tracker
  pub enabled : c.kubernetes.enabled ≡ true
  pub listed : contains c.kubernetes.operations operation ≡ true
  pub not_denied : contains c.kubernetes.denied_namespaces namespace ≡ false
  pub allowed :
      (contains c.kubernetes.allowed_namespaces "*"
        || contains c.kubernetes.allowed_namespaces namespace)
      ≡ true

module _ (show : ℕ → String) where
  pub record_probe_iff : (t : ProbeTracker) → ((record_probe show t).0 ≡ ok tt) ↔ HasBudget t
  unfolding record_probe
  record_probe_iff t = ground arith

  check_kubernetes_iff :
      (k : KubernetesCapability) (operation namespace : String)
      → (check_kubernetes show k operation namespace ≡ ok tt) ↔ (
          (k.enabled ≡ true)
          × (contains k.operations operation ≡ true)
          × (contains k.denied_namespaces namespace ≡ false)
          × ((contains k.allowed_namespaces "*" || contains k.allowed_namespaces namespace) ≡ true))
  unfolding check_kubernetes allows_namespace
  check_kubernetes_iff k operation namespace = ground arith

  pub count_and_iff :
      (c : CapabilitySet) (checks : Result (Unit {0}))
      → ((count_and show c checks).0 ≡ ok tt) ↔ (HasBudget c.probe_tracker × (checks ≡ ok tt))
  unfolding count_and
  count_and_iff c checks = ground (arith, record_probe_iff c.probe_tracker)

  -- A Kubernetes probe is granted exactly when one more is within the budget, the operation is
  -- allowed, and the namespace is allowed by name or by "*" and not denied.
  pub require_kubernetes_iff :
      (operation namespace : String) (c : CapabilitySet)
      → ((require_kubernetes show operation namespace c).0 ≡ ok tt)
        ↔ KubernetesGranted c operation namespace
  require_kubernetes_iff operation namespace c =
      unfold require_kubernetes in
      ground (
        arith,
        count_and_iff c (check_kubernetes show c.kubernetes operation namespace),
        check_kubernetes_iff c.kubernetes operation namespace,
      )

  module _ (ip : IpAddresses) where
    check_network_iff :
        (network : NetworkCapability) (operation target : String) (port : Option ℕ)
        → (check_network show ip network operation target port ≡ ok tt) ↔ (
            (network.enabled ≡ true)
            × (contains network.operations operation ≡ true)
            × (allows_target ip network target ≡ ok true)
            × PortAllowed network port)
    unfolding check_network
    check_network_iff network operation target none = ground arith
    check_network_iff network operation target (some p) = ground arith

    -- A network probe is granted exactly when one more is within the budget and the operation, the
    -- target and the port are allowed.
    pub require_network_iff :
        (operation target : String) (port : Option ℕ) (c : CapabilitySet)
        → ((require_network show ip operation target port c).0 ≡ ok tt)
          ↔ NetworkGranted ip c operation target port
    require_network_iff operation target port c =
        unfold require_network in
        ground (
          arith,
          count_and_iff c (check_network show ip c.network operation target port),
          check_network_iff c.network operation target port,
        )

-- An entry of the list is a network that holds the address, and every entry before it is a network
-- that does not.
pub record HeldIn (ip : IpAddresses) (address : ip.Address) (targets : List String) : Type 0 where
  pub before : List String
  pub item : String
  pub after : List String
  pub listed : targets ≡ before ++ item ∷ after
  pub passed : All (λ x. ip.in_network address x ≡ ok false) before
  pub holds : ip.in_network address item ≡ ok true

module _ (ip : IpAddresses) (address : ip.Address) where
  any_network_of :
      (before : List String) (item : String) (after : List String)
      → All (λ x. ip.in_network address x ≡ ok false) before
      → ip.in_network address item ≡ ok true
      → any_network ip address (before ++ item ∷ after) ≡ ok true
  unfolding any_network
  any_network_of [] item after h e = rw e refl
  any_network_of (x ∷ before) item after h e = rw h.0 (any_network_of before item after h.1 e)

  HeldIn-after :
      (x : String) (rest : List String)
      → ip.in_network address x ≡ ok false
      → HeldIn ip address rest
      → HeldIn ip address (x ∷ rest)
  HeldIn-after x rest other held = record {
    before = x ∷ held.before;
    item = held.item;
    after = held.after;
    listed = ap (λ xs. x ∷ xs) held.listed;
    passed = (other, held.passed);
    holds = held.holds;
  }

  any_network-HeldIn :
      (targets : List String) → any_network ip address targets ≡ ok true → HeldIn ip address targets
  unfolding any_network
  any_network-HeldIn [] h = absurd (ground arith)
  any_network-HeldIn (x ∷ rest) h = elim (Result-cases (ip.in_network address x)) [
    | inl (e, raised) ↦ absurd (no_value (rw (any_network, raised) at h))
    | inr (true, found) ↦ record {
      before = [];
      item = x;
      after = rest;
      listed = refl;
      passed = tt;
      holds = found;
    }
    | inr (false, other) ↦
        HeldIn-after x rest other (any_network-HeldIn rest (rw (any_network, other) at h))
  ]

-- How a target can be allowed: by "*", as a name of the list, or as an address of a network of it.
pub data TargetAllowed (ip : IpAddresses) (targets : List String) (target : String) : Type 0 where
  by_star : contains targets "*" ≡ true → TargetAllowed ip targets target
  by_name :
      ip.ip_address target ≡ none → contains targets target ≡ true → TargetAllowed ip targets target
  by_network :
      (address : ip.Address)
      → ip.ip_address target ≡ some address
      → HeldIn ip address targets
      → TargetAllowed ip targets target

module _ (ip : IpAddresses) (network : NetworkCapability) (target : String) where
  allows_target-TargetAllowed :
      allows_target ip network target ≡ ok true → TargetAllowed ip network.targets target
  unfolding allows_target
  allows_target-TargetAllowed h = elim (Bool-cases (contains network.targets "*")) [
    | inl star ↦ by_star star
    | inr no_star ↦ elim (Option-cases (ip.ip_address target)) [
      | inl name ↦ by_name name (ok_inj (rw (no_star, name) at h))
      | inr (address, parsed) ↦
          by_network address parsed
            (any_network-HeldIn ip address network.targets (rw (no_star, parsed) at h))
    ]
  ]

  allowed_of : TargetAllowed ip network.targets target → allows_target ip network target ≡ ok true
  unfolding allows_target
  allowed_of (by_star star) = rw star refl
  allowed_of (by_name name listed) = elim (Bool-cases (contains network.targets "*")) [
    | inl star ↦ rw star refl
    | inr no_star ↦ rw (no_star, name, listed) refl
  ]
  allowed_of (by_network address parsed held) = elim (Bool-cases (contains network.targets "*")) [
    | inl star ↦ rw star refl
    | inr no_star ↦
        rw (no_star, parsed)
          (ap (any_network ip address) held.listed
            ∙ any_network_of ip address held.before held.item held.after held.passed held.holds)
  ]

  -- A target is allowed exactly when the targets list "*", or it is no address and listed itself, or
  -- it is an address and an entry is a network that holds it, with networks only before this entry:
  -- a host name in the list hides the networks behind it.
  pub allows_target_iff :
      (allows_target ip network target ≡ ok true) ↔ TargetAllowed ip network.targets target
  allows_target_iff = (allows_target-TargetAllowed, allowed_of)
