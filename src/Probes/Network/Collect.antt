-- ===== src/Probes/Network/Collect.antt =====
-- providers/network.py: `collect`
use evidence_tool.Base.{
  ℕ, String, ◌==◌, Bool, true, false, ◌||◌, Option, none, some, List, [], ◌∷◌, ◌++◌, if◌then◌else◌,
  nonempty, nat_beq, any, has_infix, Result, ok, err,
}
use evidence_tool.Models.Observation.{Observation}
use evidence_tool.Capability.{IpAddresses}
use evidence_tool.Probes.System.{Outside, Url}
use evidence_tool.Probes.Session.{Session, Probe, pure, raise, ◌>>=◌}
use evidence_tool.Probes.Context.{ProviderContext, get, or_text, is_yes, port_of}
use evidence_tool.Probes.Network.{has_failed}
use evidence_tool.Probes.Network.Reach.{
  check_dns_resolvable, check_route_exists, check_host_reachable, check_port_reachable,
}
use evidence_tool.Probes.Network.Web.{check_tls_handshake, check_http_reachable}

-- what is probed
pub record Target : Type 0 where
  pub target_host : String
  pub port_val : ℕ
  pub http_path : String
  pub use_tls : Bool

abbrev pub one_of : List ℕ → ℕ → Bool
one_of ports port = any (λ p. nat_beq port p) ports

-- `context.get(...) is not None`: a text is never None
abbrev is_given : String → Bool
is_given v = true

module _ (o : Outside) where
  abbrev or_port : ℕ → Option ℕ → ℕ
  or_port default none = default
  or_port default (some port) = if nat_beq port 0 then default else port

  abbrev or_host : Option String → String
  or_host none = "127.0.0.1"
  or_host (some hostname) = or_text hostname "127.0.0.1"

  abbrev target_at : Url → Result (Option ℕ) → Result Target
  target_at parsed (err e) = err e
  target_at parsed (ok port) = ok (record {
    target_host = or_host parsed.hostname;
    port_val = or_port (if parsed.scheme == "https" then 443 else 80) port;
    http_path = or_text parsed.path "/";
    use_tls = parsed.scheme == "https";
  })

  abbrev target_raw : ProviderContext → String
  target_raw context =
      or_text (get context "target_host")
        (or_text (get context "domain") (or_text (get context "target") "127.0.0.1"))

  unfoldable pub target_of : ProviderContext → Result Target
  target_of context =
      if has_infix (target_raw context) "://"
      then (let parsed = o.urlparse (target_raw context) in target_at parsed parsed.port)
      else ok (record {
        target_host = target_raw context;
        port_val = 80;
        http_path = or_text (get context "http_path") (or_text (get context "path") "/");
        use_tls = false;
      })

  unfoldable pub use_tls_of : ProviderContext → ℕ → Bool → Bool
  use_tls_of context port use_tls =
      if is_given (get context "use_tls")
      then is_yes (o.lower (get context "use_tls"))
      else if one_of (443 ∷ 8443 ∷ []) port
      then true
      else use_tls

  abbrev pub wants_http : ProviderContext → ℕ → Bool
  wants_http context port =
      is_yes (get context "check_http")
      || nonempty (get context "http_path")
      || one_of (80 ∷ 443 ∷ 8080 ∷ 8443 ∷ []) port

  module _ (ip : IpAddresses) where
    -- an optional probe
    abbrev pub append_if :
        Bool → Probe o.World Observation → List Observation → Probe o.World (List Observation)
    append_if false probe observations = pure observations
    append_if true probe observations = do found ← probe; pure (observations ++ found ∷ [])

    unfoldable pub run_checks :
        ProviderContext → Target → ℕ → Bool → Probe o.World (List Observation)
    run_checks context t port use_tls =
        let host = get context "host" in
        do
          dns ← check_dns_resolvable o ip t.target_host host
          route ← check_route_exists o ip t.target_host host
          echo ← check_host_reachable o ip t.target_host host
          tcp ← check_port_reachable o ip t.target_host port host
          with_tls ←
              append_if (use_tls || is_yes (get context "check_tls"))
                (check_tls_handshake o ip t.target_host port host (has_failed tcp.value))
                (dns ∷ route ∷ echo ∷ tcp ∷ [])
          append_if (wants_http context port)
              (check_http_reachable o ip t.target_host port t.http_path use_tls host
                (has_failed tcp.value))
              with_tls

    unfoldable pub run_at : ProviderContext → Target → Result ℕ → Probe o.World (List Observation)
    unfolding run_checks use_tls_of
    run_at context t (err e) = raise e
    run_at context t (ok port) = run_checks context t port (use_tls_of context port t.use_tls)

    unfoldable pub start : ProviderContext → Result Target → Probe o.World (List Observation)
    unfolding run_at
    start context (err e) = raise e
    start context (ok t) = run_at context t (port_of (get context "port") t.port_val)

    -- `collect`, on the outside
    unfoldable pub collect : ProviderContext → o.World → Result (List Observation) × Session o.World
    unfolding start target_of
    collect context w =
        start context (target_of context)
          (record { capabilities = context.capabilities; probe_count = 0; world = w })
