-- ===== src/Probes/Network/Off.antt =====
-- The network provider where the network capability is off.
use evidence_tool.Base.{
  ℕ, String, ◌≡◌, refl, Bool, true, false, ◌||◌, Option, some, List, [], ◌∷◌, All, Result, ok, err,
  Yields, inl, inr, Result-cases, string_dec,
}
use evidence_tool.Base.Dict.{lookup}
use evidence_tool.Models.Value.{text, get_key}
use evidence_tool.Models.Observation.{Observation}
use evidence_tool.Capability.{IpAddresses}
use evidence_tool.Probes.System.{Outside}
use evidence_tool.Probes.Session.{Session, Probe, raise}
use evidence_tool.Probes.Session.Rules.{
  Triple, Triple-pure, Triple-observe, Triple-bind, Triple-try, Triple-with, Untouched,
  request-Untouched,
}
use evidence_tool.Probes.Context.{ProviderContext, get, is_yes, port_of}
use evidence_tool.Probes.Network.{with_status, unknown_observation}
use evidence_tool.Probes.Network.Reach.{
  check, check_dns_resolvable, check_route_exists, check_host_reachable, check_port_reachable,
}
use evidence_tool.Probes.Network.Web.{check_tls_handshake, check_http_reachable}
use evidence_tool.Probes.Network.Collect.{
  Target, run_checks, run_at, start, collect, target_of, use_tls_of, wants_http, append_if,
}
use evidence_tool.Probes.Network.Run.{All-append}

-- The observation says that nothing is known.
pub record IsUnknown (seen : Observation) : Type 0 where
  pub unknown : get_key "status" seen.value ≡ some (text "UNKNOWN")

module _ (o : Outside) (ip : IpAddresses) (w : o.World) where
  abbrev Off : {A : Type 0} → (A → Type 0) → Probe o.World A → Type 0
  Off Q m = Triple (Untouched w) Q m

  -- nothing is granted, so what the probe would do does not matter
  check-Off :
      (id method operation target : String) (port : Option ℕ) (host : String)
      (granted : Probe o.World Observation)
      → Off IsUnknown (check o ip id method operation target port host granted)
  unfolding unknown_observation with_status lookup string_dec
  check-Off id method operation target port host granted =
      Triple-try (λ _. ⊥) IsUnknown _ _ _ (request-Untouched ip operation target port w)
        (λ reason. Triple-observe _ λ w'. record { unknown = refl }) (λ _ never. absurd never)

  append_if-Off :
      (b : Bool) (probe : Probe o.World Observation) (seen : List Observation)
      → Off IsUnknown probe
      → All IsUnknown seen
      → Off (All IsUnknown) (append_if o ip b probe seen)
  append_if-Off false probe seen h a = Triple-pure seen a
  append_if-Off true probe seen h a =
      Triple-bind IsUnknown (All IsUnknown) probe _ h
        λ found u. Triple-pure _ (All-append IsUnknown seen (found ∷ []) a (u, tt))

  run_checks-Off :
      (context : ProviderContext) (t : Target) (port : ℕ) (use_tls : Bool)
      → Off (All IsUnknown) (run_checks o ip context t port use_tls)
  unfolding run_checks check_dns_resolvable check_route_exists check_host_reachable
      check_port_reachable check_tls_handshake check_http_reachable
  run_checks-Off context t port use_tls =
      Triple-bind IsUnknown (All IsUnknown) _ _ (check-Off _ _ _ _ _ _ _) λ dns a.
        Triple-bind IsUnknown (All IsUnknown) _ _ (check-Off _ _ _ _ _ _ _) λ route b.
          Triple-bind IsUnknown (All IsUnknown) _ _ (Triple-with _ λ s. check-Off _ _ _ _ _ _ _)
            λ echo c.
              Triple-bind IsUnknown (All IsUnknown) _ _ (Triple-with _ λ s. check-Off _ _ _ _ _ _ _)
                λ tcp d.
                  Triple-bind (All IsUnknown) (All IsUnknown) _ _
                    (append_if-Off (use_tls || is_yes (get context "check_tls")) _ _
                      (Triple-with _ λ s. check-Off _ _ _ _ _ _ _) (a, (b, (c, (d, tt)))))
                    λ with_tls e.
                      append_if-Off (wants_http o context port) _ with_tls
                        (Triple-with _ λ s. check-Off _ _ _ _ _ _ _) e

  start_off :
      (context : ProviderContext) (r : Result Target) (s : Session o.World)
      → Untouched w s
      → Untouched w (start o ip context r s).1 × Yields (All IsUnknown) (start o ip context r s).0
  unfolding start run_at raise
  start_off context (err e) s h = (h, tt)
  start_off context (ok t) s h = elim (Result-cases (port_of (get context "port") t.port_val)) [
    | inl (e, bad) ↦ rw bad (h, tt)
    | inr (port, good) ↦
        rw good ((run_checks-Off context t port (use_tls_of o context port t.use_tls)).at s h)
  ]

  -- Where the network capability is off, a run does nothing to the outside, and whatever it
  -- observes has the status UNKNOWN.
  pub collect_off :
      (context : ProviderContext)
      → context.capabilities.network.enabled ≡ false
      → ((collect o ip context w).1.world ≡ w) × Yields (All IsUnknown) (collect o ip context w).0
  unfolding collect
  collect_off context off =
      let (kept, unknown) = start_off context (target_of o context) _ (refl, off) in
      (kept.0, unknown)
