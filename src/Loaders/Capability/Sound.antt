-- ===== src/Loaders/Capability/Sound.antt =====
-- What a loaded capability set is like.
use evidence_tool.Base.{
  ℕ, suc, ◌≤◌, ◌*◌, ◌+◌, String, ◌≡◌, refl, ap, Bool, true, Option, none, some, List, [], ◌∷◌, ◌++◌,
  arith, All, Result, ok, err, Yields, Yields->>=, Yields-guard, Yields_of_ok,
}
use evidence_tool.Base.Int.{ℤ, pos, negsuc}
use evidence_tool.Models.Value.{
  Value, null, int, float, finite, text, list, mapping, end, items, get_key,
}
use evidence_tool.Capability.{
  NetworkCapability, KubernetesCapability, CapabilitySet, post_init, budget, network_operations,
}
use evidence_tool.Loaders.Capability.{
  add_port, port_set, in_range, ports_of_list, integers, parse_ports, parse_max_probes,
  parse_network_timeout, valid, parse_network, parse_kubernetes, trusted_of, allowed_of,
  capabilities_of, capabilities_in, is_untampered, load_capability_policy, strings_or, value_or,
}

abbrev pub IsPort : ℕ → Type 0
IsPort p = (1 ≤ p) × (p ≤ 65535)

abbrev pub ArePorts : Option (List ℕ) → Type 0
ArePorts none = Unit
ArePorts (some ports) = All IsPort ports

abbrev pub IsBudget : Option ℕ → Type 0
IsBudget none = Unit
IsBudget (some n) = 1 ≤ n

abbrev pub IsPositive : ℤ → Type 0
IsPositive t = (n : ℕ) × (t ≡ pos (suc n))

pub record IsNetwork (network : NetworkCapability) : Type 0 where
  pub ports : ArePorts network.ports
  pub budget : IsBudget network.max_probes
  pub timeout : IsPositive network.timeout_seconds

-- The capabilities of a file with this fingerprint, of whose budget nothing is used.
pub record IsLoaded (fingerprint : String) (c : CapabilitySet) : Type 0 where
  pub network : IsNetwork c.network
  pub marked : c.policy_fingerprint ≡ some fingerprint
  pub budget : c.probe_tracker.max_probes ≡ c.network.max_probes
  pub unused : c.probe_tracker.consumed ≡ 0

All-snoc : (ports : List ℕ) (p : ℕ) → All IsPort ports → IsPort p → All IsPort (ports ++ p ∷ [])
All-snoc [] p h i = (i, tt)
All-snoc (q ∷ ports) p h i = (h.0, All-snoc ports p h.1 i)

All-add_port :
    (ports : List ℕ) (p : ℕ) → All IsPort ports → IsPort p → All IsPort (add_port ports p)
All-add_port ports p h i = ground (arith, All-snoc ports p h i)

port_set-in_range :
    (ns : List ℤ) (ports : List ℕ)
    → All IsPort ports
    → Yields ArePorts (in_range (port_set ns ports))
unfolding port_set in_range
port_set-in_range [] ports h = h
port_set-in_range (pos n ∷ ns) ports h =
    ground (arith, port_set-in_range ns (add_port ports n), All-add_port ports n h)
port_set-in_range (negsuc n ∷ ns) ports h = tt

parse_ports-Yields : (v : Option Value) → Yields ArePorts (parse_ports v)
unfolding parse_ports ports_of_list
parse_ports-Yields none = tt
parse_ports-Yields (some null) = tt
parse_ports-Yields (some (text s)) = ground arith
parse_ports-Yields (some (list xs)) = elim_integers (integers (items xs))
  where
    elim_integers : (ns : Option (List ℤ)) → Yields ArePorts (ports_of_list ns)
    elim_integers none = tt
    elim_integers (some ns) = port_set-in_range ns [] tt
parse_ports-Yields (some _) = tt

parse_max_probes-Yields :
    (what : String) (v : Option Value) → Yields IsBudget (valid what (parse_max_probes v))
unfolding parse_max_probes
parse_max_probes-Yields what none = tt
parse_max_probes-Yields what (some null) = tt
parse_max_probes-Yields what (some (int (pos (suc n)))) = ground arith
parse_max_probes-Yields what (some _) = tt

parse_network_timeout-Yields :
    (what : String) (v : Option Value) → Yields IsPositive (valid what (parse_network_timeout v))
unfolding parse_network_timeout
parse_network_timeout-Yields what none = (1999999, refl)
parse_network_timeout-Yields what (some (int (pos (suc n)))) =
    (n * 1000000 + 999999, ap pos (omega arith))
parse_network_timeout-Yields what (some (float (finite (pos (suc n))))) = (n, refl)
parse_network_timeout-Yields what (some _) = tt

valid-Yields {ℓ} :
    {A : Type ℓ} (what : String) (o : Option A) → Yields (λ _. Unit {0}) (valid what o)
valid-Yields what none = tt
valid-Yields what (some a) = tt

parse_network-Yields : (v : Value) → Yields IsNetwork (parse_network v)
unfolding parse_network
parse_network-Yields (mapping fs) =
    let raw = mapping fs in
    Yields->>= (λ (xs : List String). Unit {0}) IsNetwork _ _
      (valid-Yields "network.operations must be a list of strings."
        (strings_or network_operations (get_key "operations" raw)))
      λ operations _.
        Yields->>= (λ (xs : List String). Unit {0}) IsNetwork _ _
          (valid-Yields "network.targets must be a list of strings."
            (strings_or ("*" ∷ []) (get_key "targets" raw)))
          λ targets _.
            Yields->>= IsBudget IsNetwork _ _
              (parse_max_probes-Yields "network.max_probes must be a positive integer."
                (get_key "max_probes" raw))
              λ max_probes budget.
                Yields->>= IsPositive IsNetwork _ _
                  (parse_network_timeout-Yields "network.timeout_seconds must be a positive number."
                    (get_key "timeout_seconds" raw))
                  λ timeout positive.
                    Yields->>= ArePorts IsNetwork _ _ (parse_ports-Yields (get_key "ports" raw))
                      λ ports good. record { ports = good; budget = budget; timeout = positive }
parse_network-Yields _ = tt

anything : {A : Type 0} (m : Result A) → Yields (λ _. Unit {0}) m
anything (ok a) = tt
anything (err e) = tt

capabilities_of-Yields :
    (fingerprint : String) (v : Value)
    → Yields (IsLoaded fingerprint) (capabilities_of fingerprint v)
unfolding capabilities_of post_init
capabilities_of-Yields fingerprint (mapping fs) =
    let raw = mapping fs in
    let providers = value_or (mapping end) (get_key "providers" raw) in
    let P = IsLoaded fingerprint in
    Yields->>= IsNetwork P _ _
      (parse_network-Yields (value_or (mapping end) (get_key "network" raw)))
      λ network good.
        Yields->>= (λ (k : KubernetesCapability). Unit {0}) P _ _
          (anything (parse_kubernetes (value_or (mapping end) (get_key "kubernetes" raw))))
          λ kubernetes _.
            Yields->>= (λ (b : Bool). Unit {0}) P _ _
              (valid-Yields "providers.require_trusted must be a boolean."
                (trusted_of (get_key "require_trusted" providers)))
              λ trusted _.
                Yields->>= (λ (o : Option (List String)). Unit {0}) P _ _
                  (valid-Yields "providers.allowed must be a list of strings."
                    (allowed_of (get_key "allowed" providers)))
                  λ allowed _. record {
                    network = good;
                    marked = refl;
                    budget = budget_of_none network.max_probes;
                    unused = refl;
                  }
  where
    budget_of_none : (own : Option ℕ) → budget own none ≡ own
    budget_of_none none = refl
    budget_of_none (some n) = refl
capabilities_of-Yields fingerprint _ = tt

capabilities_in-Yields :
    (fingerprint : String) (v : Value)
    → Yields (IsLoaded fingerprint) (capabilities_in fingerprint v)
unfolding capabilities_in
capabilities_in-Yields fingerprint (mapping fs) =
    capabilities_of-Yields fingerprint (value_or (mapping fs) (get_key "capabilities" (mapping fs)))
capabilities_in-Yields fingerprint _ = tt

module _ (sha256 : String → String) (lower : String → String) (safe_load : String → Result Value)
    (content : String) (expected_hash : Option String) where
  abbrev IsAuthentic : CapabilitySet → Type 0
  IsAuthentic c =
      (is_untampered lower (sha256 content) expected_hash ≡ true) × IsLoaded (sha256 content) c

  load_capability_policy-Yields :
      Yields IsAuthentic (load_capability_policy sha256 lower safe_load content expected_hash)
  unfolding load_capability_policy
  load_capability_policy-Yields =
      Yields-guard IsAuthentic (is_untampered lower (sha256 content) expected_hash) _ _ λ same.
        Yields->>= (λ (v : Value). Unit {0}) IsAuthentic _ _ (anything (safe_load content))
          λ raw _.
            both same (capabilities_in (sha256 content) raw)
              (capabilities_in-Yields (sha256 content) raw)
    where
      both :
          is_untampered lower (sha256 content) expected_hash ≡ true
          → (m : Result CapabilitySet) → Yields (IsLoaded (sha256 content)) m
          → Yields IsAuthentic m
      both same (ok c) h = (same, h)
      both same (err e) h = tt

  -- A file of capabilities is loaded only if its hash is the expected one, where one is expected;
  -- the set then has ports from 1 to 65535, a budget of at least one probe if it has one, of which
  -- nothing is used, a timeout above zero, and the hash as its fingerprint.
  pub load_capability_policy-IsLoaded :
      (c : CapabilitySet)
      → load_capability_policy sha256 lower safe_load content expected_hash ≡ ok c
      → (is_untampered lower (sha256 content) expected_hash ≡ true) × IsLoaded (sha256 content) c
  load_capability_policy-IsLoaded c h =
      Yields_of_ok IsAuthentic (load_capability_policy sha256 lower safe_load content expected_hash)
        load_capability_policy-Yields h
