-- ===== src/Capability/Budget.antt =====
-- The budget of probes over a sequence of requests.
use evidence_tool.Base.{
  ap, ◌⊎◌, inl, inr, Option-cases, ℕ, ◌+◌, ◌-◌, ◌≤◌, String, ◌≡◌, refl, ◌∙◌, Option, some, List, [],
  ◌∷◌, arith, length, Result, ok, err,
}
use evidence_tool.Capability.{
  IpAddresses, record_probe, remaining, CapabilitySet, clone_isolated, count_and, check_network,
  check_kubernetes, require_network, require_kubernetes,
}
use evidence_tool.Capability.Grants.{HasBudget, count_and_iff}

-- What a provider may ask of its capability set.
pub data Request : Type 0 where
  network : String → String → Option ℕ → Request
  kubernetes : String → String → Request

module _ (ip : IpAddresses) (show : ℕ → String) where
  unfoldable pub require : Request → CapabilitySet → Result (Unit {0}) × CapabilitySet
  require (network operation target port) c = require_network show ip operation target port c
  require (kubernetes operation namespace) c = require_kubernetes show operation namespace c

  abbrev granted : Result (Unit {0}) → ℕ
  granted (ok _) = 1
  granted (err _) = 0

  -- The requests in turn: how many were granted, and the set with its tracker afterwards.
  unfoldable pub require_all : List Request → CapabilitySet → ℕ × CapabilitySet
  unfolding require
  require_all [] c = (0, c)
  require_all (r ∷ rs) c =
      let (answer, c') = require r c in
      let (n, c'') = require_all rs c' in (granted answer + n, c'')

  abbrev counted : ℕ → CapabilitySet → CapabilitySet
  counted n c = record c {
    probe_tracker = record (c.probe_tracker) { consumed = c.probe_tracker.consumed + n };
  }

  count_and-counted :
      (c : CapabilitySet) (checks : Result (Unit {0})) → (count_and show c checks).1 ≡ counted 1 c
  unfolding count_and record_probe
  count_and-counted c checks = ground arith

  require-counted : (r : Request) (c : CapabilitySet) → (require r c).1 ≡ counted 1 c
  unfolding require require_network require_kubernetes
  require-counted (network o t p) c = count_and-counted c (check_network show ip c.network o t p)
  require-counted (kubernetes o n) c = count_and-counted c (check_kubernetes show c.kubernetes o n)

  require_all-counted :
      (rs : List Request) (c : CapabilitySet) → (require_all rs c).1 ≡ counted (length rs) c
  unfolding require_all
  require_all-counted [] c = ground arith
  require_all-counted (r ∷ rs) c =
      require_all-counted rs (require r c).1
      ∙ ap (counted (length rs)) (require-counted r c)
      ∙ ground arith

  -- Every request is counted, granted or not.
  pub consumed-require_all :
      (rs : List Request) (c : CapabilitySet)
      → (require_all rs c).1.probe_tracker.consumed ≡ c.probe_tracker.consumed + length rs
  consumed-require_all rs c =
      ap (λ (x : CapabilitySet). x.probe_tracker.consumed) (require_all-counted rs c)

  require-HasBudget :
      (r : Request) (c : CapabilitySet) → (require r c).0 ≡ ok tt → HasBudget c.probe_tracker
  unfolding require require_network require_kubernetes
  require-HasBudget (network o t p) c h =
      ((count_and_iff show c (check_network show ip c.network o t p)).0 h).0
  require-HasBudget (kubernetes o n) c h =
      ((count_and_iff show c (check_kubernetes show c.kubernetes o n)).0 h).0

  granted-cases : (answer : Result (Unit {0})) → (answer ≡ ok tt) ⊎ (granted answer ≡ 0)
  granted-cases (ok tt) = inl refl
  granted-cases (err e) = inr refl

  granted_bound :
      (rs : List Request) (c : CapabilitySet) (limit : ℕ)
      → c.probe_tracker.max_probes ≡ some limit
      → (require_all rs c).0 ≤ limit - c.probe_tracker.consumed
  unfolding require_all
  granted_bound [] c limit h = omega arith
  granted_bound (r ∷ rs) c limit h =
      let later = granted_bound rs (require r c).1 limit (rw (require-counted r c) h) in
      let one = ap (λ (x : CapabilitySet). x.probe_tracker.consumed) (require-counted r c) in
      elim (granted-cases (require r c).0) [
        | inl given ↦ ground (arith, later, one, given, require-HasBudget r c given)
        | inr denied ↦ ground (arith, later, one, denied)
      ]

  -- Where the budget is limited, no more probes are granted than it leaves, however many are asked
  -- for.
  pub granted-le-remaining :
      (rs : List Request) (c : CapabilitySet) (left : ℕ)
      → remaining c.probe_tracker ≡ some left
      → (require_all rs c).0 ≤ left
  unfolding remaining
  granted-le-remaining rs c left h = elim (Option-cases c.probe_tracker.max_probes) [
    | inl e ↦ absurd (ground arith)
    | inr (limit, e) ↦ ground (arith, granted_bound rs c limit e)
  ]

  -- Isolating a capability set after any requests gives what isolating it before them gives, with
  -- the whole budget.
  pub clone_isolated-require_all :
      (rs : List Request) (c : CapabilitySet)
      → clone_isolated (require_all rs c).1 ≡ clone_isolated c
  unfolding clone_isolated
  clone_isolated-require_all rs c = rw (require_all-counted rs c)
