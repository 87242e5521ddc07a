-- ===== src/Probes/Network/Reach.antt =====
-- providers/network.py: echo, TCP connection, and the checks of name, route, host and port.
use evidence_tool.Base.{
  ℕ, ◌+◌, ◌*◌, String, ◌<>◌, true, false, not, ◌&&◌, Option, none, some, List, [], ◌∷◌, ◌++◌,
  if◌then◌else◌, nonempty,
}
use evidence_tool.Base.Decimal.{decimal}
use evidence_tool.Models.Value.{Value, text, int}
use evidence_tool.Models.Observation.{Observation}
use evidence_tool.Capability.{IpAddresses}
use evidence_tool.Probes.System.{
  Outside, Attempt, done, failed, SocketError, connection_refused, timed_out, errno_error,
  socket_text,
}
use evidence_tool.Probes.Session.{Probe, pure, outside, ◌>>=◌, try_request, request, probe_timeout}
use evidence_tool.Probes.Shell.{CommandResult, succeeded, whole}
use evidence_tool.Probes.Network.{
  with_status, failure, error_entry, probe_error, endpoint, error_of, failure_of_errno, Finding,
  caught_os, command, record_finding, unknown_observation,
}
use evidence_tool.Probes.Network.Lookup.{dns_lookup, route_check}

module _ (o : Outside) where
  -- `timeout` is at least one
  abbrev pub ping_command : String → String → ℕ → List String
  ping_command target host timeout =
      if o.is_windows && not (nonempty host)
      then "ping" ∷ "-n" ∷ "1" ∷ "-w" ∷ decimal (timeout * 1000) ∷ target ∷ []
      else "ping" ∷ "-c" ∷ "1" ∷ "-W" ∷ decimal timeout ∷ target ∷ []

  unfoldable pub addressable : String → Attempt (List String) → Finding
  addressable target (done addresses) = (
    "Host " <> (target <> " is addressable"),
    with_status "PASS" (("target_host", text target) ∷ []),
  )
  addressable target (failed e) = (
    "Host " <> (target <> (" is unreachable: " <> socket_text e)),
    failure "HOST_UNREACHABLE" (("target_host", text target) ∷ error_entry (socket_text e)),
  )

  abbrev returncode_value : CommandResult → Value
  returncode_value res = elim res.returncode [ none ↦ Value.null | some n ↦ int n ]

  abbrev pub ping_answer : String → CommandResult → Finding
  ping_answer target res =
      if succeeded res
      then (
        "Host " <> (target <> " responds to ping"),
        with_status "PASS" (("target_host", text target) ∷ []),
      )
      else (
        "Host " <> (target <> " did not respond to ping"),
        failure "HOST_UNREACHABLE"
            (("target_host", text target) ∷ ("returncode", returncode_value res) ∷ []),
      )

  -- the whole of the granted probe, since the observation differs where SSH does not reach the host
  unfoldable pub icmp_echo : String → String → ℕ → String → Probe o.World Observation
  unfolding addressable
  icmp_echo target host timeout method = do
    res ← command o (ping_command target host timeout) (whole (timeout + 1)) host
    if res.ran
        then record_finding o "network.host_reachable" method target "icmp_echo" host "executed"
            (ping_answer target res)
        else if nonempty host
        then unknown_observation o "network.host_reachable" method target "icmp_echo" host
            ("Could not execute remote ping: " <> error_of res) false
        else do
          results ← outside (o.getaddrinfo target)
          record_finding o "network.host_reachable" method target "icmp_echo" host "executed"
              (addressable target results)

  abbrev at_port : String → ℕ → String
  at_port target port = decimal port <> (" on " <> target)

  -- `_check_port_remote`
  unfoldable pub check_port_remote : String → ℕ → String → ℕ → Probe o.World Finding
  check_port_remote target port host timeout = do
    res ←
        command o ("nc" ∷ "-z" ∷ "-w" ∷ decimal timeout ∷ target ∷ decimal port ∷ [])
          (whole (timeout + 1)) host
    pure (
        if not res.ran
        then ("Could not check remote port: " <> error_of res, probe_error)
        else if succeeded res
        then (
          "Port " <> (at_port target port <> " is reachable"),
          with_status "PASS" (endpoint target port),
        )
        else (
          "Port " <> (at_port target port <> " is unreachable / connection refused"),
          failure "CONNECTION_REFUSED" (endpoint target port),
        ))

  abbrev port_failure : String → ℕ → String → String → Value
  port_failure target port kind e = failure kind (endpoint target port ++ error_entry e)

  -- the three handlers
  unfoldable pub port_error : String → ℕ → SocketError → Finding
  port_error target port (connection_refused e) = (
    "Connection refused on port " <> at_port target port,
    port_failure target port "CONNECTION_REFUSED" e,
  )
  port_error target port (timed_out e) =
      ("Connection timed out on port " <> at_port target port, port_failure target port "TIMEOUT" e)
  port_error target port (errno_error n e) = (
    "Port "
        <> (at_port target port <> (" is unreachable (" <> (failure_of_errno n <> ("): " <> e)))),
    port_failure target port (failure_of_errno n) e,
  )
  port_error target port e = (
    "Port " <> (at_port target port <> (" is unreachable (CONNECTION_FAILED): " <> socket_text e)),
    port_failure target port "CONNECTION_FAILED" (socket_text e),
  )

  unfoldable pub port_answer : String → ℕ → Attempt (Unit {0}) → Probe o.World Finding
  unfolding port_error
  port_answer target port (done _) = pure (
    "Port " <> (at_port target port <> " is reachable"),
    with_status "PASS" (endpoint target port),
  )
  port_answer target port (failed e) = caught_os (port_error target port) e

  -- `_check_port_local`
  unfoldable pub check_port_local : String → ℕ → ℕ → Probe o.World Finding
  unfolding port_answer
  check_port_local target port timeout = do
    attempt ← outside (o.connect target port timeout)
    port_answer target port attempt

  -- A check asks first; a denied request gives an observation, too.
  module _ (ip : IpAddresses) where
    abbrev pub check :
        String
        → String
        → String
        → String
        → Option ℕ
        → String
        → Probe o.World Observation
        → Probe o.World Observation
    check id method operation target port host granted =
        try_request (request ip operation target port)
          (λ reason. unknown_observation o id method target operation host reason true)
          (λ _. granted)

    abbrev pub executed :
        String
        → String
        → String
        → String
        → String
        → Probe o.World Finding
        → Probe o.World Observation
    executed id method target operation host probe = do
      finding ← probe
      record_finding o id method target operation host "executed" finding

    unfoldable pub check_dns_resolvable : String → String → Probe o.World Observation
    check_dns_resolvable target host =
        let method = "dns_lookup(" <> (target <> ")") in
        check "network.dns_resolvable" method "dns_lookup" target none host (
          executed "network.dns_resolvable" method target "dns_lookup" host
            (dns_lookup o target host))

    unfoldable pub check_route_exists : String → String → Probe o.World Observation
    check_route_exists target host =
        let method = "route_get(" <> (target <> ")") in
        check "network.route_exists" method "route_check" target none host (
          executed "network.route_exists" method target "route_check" host
            (route_check o target host))

    unfoldable pub check_host_reachable : String → String → Probe o.World Observation
    check_host_reachable target host s =
        let timeout = probe_timeout s.capabilities.network.timeout_seconds in
        let method = "ping -c 1 -W " <> (decimal timeout <> (" " <> target)) in
        check "network.host_reachable" method "icmp_echo" target none host
          (icmp_echo target host timeout method) s

    unfoldable pub check_port_reachable : String → ℕ → String → Probe o.World Observation
    check_port_reachable target port host s =
        let timeout = probe_timeout s.capabilities.network.timeout_seconds in
        let method = "tcp_connect(" <> (target <> (":" <> (decimal port <> ")"))) in
        check "network.port_reachable" method "tcp_connect" target (some port) host
          (executed "network.port_reachable" method target "tcp_connect" host (
            if nonempty host
            then check_port_remote target port host timeout
            else check_port_local target port timeout))
          s
