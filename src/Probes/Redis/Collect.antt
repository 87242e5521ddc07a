-- ===== src/Probes/Redis/Collect.antt =====
-- providers/redis.py: `collect`
use evidence_tool.Base.{
  ℕ, ◌+◌, String, ◌<>◌, ◌==◌, Bool, true, false, ◌&&◌, some, none, List, [], ◌∷◌, if◌then◌else◌,
  nonempty, Result, ok, err,
}
use evidence_tool.Base.Int.{pos}
use evidence_tool.Base.Decimal.{decimal}
use evidence_tool.Models.Value.{Value, Float, text, int, bool, get_key}
use evidence_tool.Models.Observation.{Observation}
use evidence_tool.Capability.{IpAddresses}
use evidence_tool.Probes.System.{Outside, Attempt, done, failed, socket_text}
use evidence_tool.Probes.Session.{
  Session, Probe, pure, raise, outside, raising_use, observe, ◌>>=◌, try_request, request,
  probe_timeout,
}
use evidence_tool.Probes.Shell.{CommandResult, whole, succeeded, run_command}
use evidence_tool.Probes.Context.{ProviderContext, get, get_with, or_text, port_of}
use evidence_tool.Probes.Redis.{Settings, with_status, failure}
use evidence_tool.Probes.Redis.Local.{execute_redis_local}
use evidence_tool.Probes.Redis.Remote.{execute_redis_remote}

abbrev scope_of : String → String
scope_of host = if nonempty host then "remote" else "local"

module _ (o : Outside) where
  abbrev settings_at : ProviderContext → ℕ → Result Float → Result Float → Result Settings
  settings_at context port (err e) latency = err e
  settings_at context port (ok ratio) (err e) = err e
  settings_at context port (ok ratio) (ok latency) = ok (record {
    target_host =
        or_text (get context "redis_host") (or_text (get context "target_host") "127.0.0.1");
    port = port;
    password = or_text (get context "password") (get context "redis_password");
    username = or_text (get context "username") (get context "redis_username");
    expected_role = or_text (get context "expected_role") "master";
    max_mem_ratio = ratio;
    max_latency_ms = latency;
  })

  abbrev with_port : ProviderContext → Result ℕ → Result Settings
  with_port context (err e) = err e
  with_port context (ok port) =
      settings_at context port (o.floats.parse_float (get_with "0.9" context "max_mem_ratio"))
        (o.floats.parse_float (get_with "100.0" context "max_latency_ms"))

  unfoldable pub settings_of : ProviderContext → Result Settings
  settings_of context =
      with_port context (port_of (or_text (get context "redis_port") (get context "port")) 6379)

  -- an observation of a target and a capability
  abbrev record_finding :
      String
      → String
      → String
      → String
      → String
      → String
      → Value × String
      → Probe o.World Observation
  record_finding id method target capability host transport (value, message) = observe λ w. record {
    id = id;
    source = "redis";
    category = "datastore";
    collector = "redis_provider";
    method = method;
    value = value;
    message = message;
    observed_at = o.now w;
    collected_at = o.now w;
    host = some host;
    execution_scope = some (scope_of host);
    target = some target;
    capability = some capability;
    transport_status = some transport;
  }

  -- `_unknown_observation`
  unfoldable pub unknown_observation :
      String → String → String → String → String → String → Probe o.World Observation
  unknown_observation id method target capability host reason =
      record_finding id method target capability host "capability_denied" (
        with_status "UNKNOWN" (("capability_denied", bool true) ∷ []),
        "Capability denied: " <> reason,
      )

  abbrev place : Settings → String
  place x = x.target_host <> (":" <> decimal x.port)

  abbrev reachable : Settings → Value × String
  reachable x = (
    with_status "PASS" (("target_host", text x.target_host) ∷ ("port", int (pos x.port)) ∷ []),
    "Redis instance on " <> (place x <> " is reachable"),
  )

  unfoldable pub reach_answer : Settings → Attempt (Unit {0}) → Value × String
  reach_answer x (done _) = reachable x
  reach_answer x (failed e) = (
    failure "CONNECTION_REFUSED" (("error", text (socket_text e)) ∷ []),
    "Redis instance on " <> (place x <> (" is unreachable: " <> socket_text e)),
  )

  unfoldable pub remote_reach : Settings → CommandResult → Value × String
  remote_reach x res = if res.ran && succeeded res then reachable x else (
    failure "CONNECTION_REFUSED"
        (("target_host", text x.target_host) ∷ ("port", int (pos x.port)) ∷ []),
    "Redis instance on " <> (place x <> " is unreachable"),
  )

  unfoldable pub reach : Settings → String → ℕ → Probe o.World (Value × String)
  reach x host timeout =
      if nonempty host
      then (do
        res ← raising_use (
            run_command o
              ("nc" ∷ "-z" ∷ "-w" ∷ decimal timeout ∷ x.target_host ∷ decimal x.port ∷ [])
              (whole (timeout + 1)) host none)
        pure (remote_reach x res))
      else (do
        attempt ← outside (o.connect x.target_host x.port timeout)
        pure (reach_answer x attempt))

  module _ (ip : IpAddresses) where
    -- `_check_reachable`
    unfoldable pub check_reachable : Settings → String → Probe o.World Observation
    check_reachable x host s =
        let method = "tcp_connect(" <> (place x <> ")") in
        let timeout = probe_timeout s.capabilities.network.timeout_seconds in
        try_request (request ip "tcp_connect" x.target_host (some x.port))
          (unknown_observation "redis.reachable" method x.target_host "tcp_connect" host)
          (λ granted. do
            finding ← reach x host timeout
            record_finding "redis.reachable" method x.target_host "tcp_connect" host "executed"
                finding)
          s

    -- `_execute_redis_probes`
    unfoldable pub execute_redis_probes : Settings → String → Probe o.World (List Observation)
    execute_redis_probes x host s =
        let timeout = probe_timeout s.capabilities.network.timeout_seconds in
        try_request (request ip "redis_ping" x.target_host (some x.port))
          (λ reason. do
            found ←
                unknown_observation "redis.ping" "redis_ping" x.target_host "redis_ping" host reason
            pure (found ∷ []))
          (λ granted.
            if nonempty host
            then execute_redis_remote o x.target_host x.port host x.password timeout
            else execute_redis_local o x timeout)
          s

    abbrev pub has_passed : Value → Bool
    has_passed v = elim (get_key "status" v) [ some (text t) ↦ t == "PASS" | _ ↦ false ]

    unfoldable pub run_probes : Settings → String → Probe o.World (List Observation)
    run_probes x host = do
      reached ← check_reachable x host
      if has_passed reached.value
          then (do probes ← execute_redis_probes x host; pure (reached ∷ probes))
          else pure (reached ∷ [])

    unfoldable pub start : ProviderContext → Result Settings → Probe o.World (List Observation)
    start context (err e) = raise e
    start context (ok x) = run_probes x (get context "host")

    -- `collect`, on the outside
    unfoldable pub collect : ProviderContext → o.World → Result (List Observation) × Session o.World
    collect context w =
        start context (settings_of context)
          (record { capabilities = context.capabilities; probe_count = 0; world = w })
