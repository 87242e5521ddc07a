-- ===== src/Probes/Network/Lookup.antt =====
-- providers/network.py: name lookup and route.
use evidence_tool.Base.{
  String, ◌<>◌, ◌==◌, true, false, not, ◌&&◌, ◌||◌, List, [], ◌∷◌, if◌then◌else◌, nonempty, nat_beq,
  has_infix,
}
use evidence_tool.Base.Decimal.{strip, strip_left}
use evidence_tool.Models.Value.{text, bool}
use evidence_tool.Probes.System.{
  Outside, Attempt, done, failed, SocketError, errno_error, socket_text,
}
use evidence_tool.Probes.Session.{Probe, pure, outside, ◌>>=◌}
use evidence_tool.Probes.Shell.{CommandResult, succeeded, default_timeout}
use evidence_tool.Probes.Context.{or_text}
use evidence_tool.Probes.Network.{
  with_status, failure, error_entry, probe_error, error_of, first_word, Finding, caught_os, command,
}

module _ (o : Outside) where
  unfoldable pub dns_lookup_remote : String → String → Probe o.World Finding
  dns_lookup_remote target host = do
    res ← command o ("getent" ∷ "hosts" ∷ target ∷ []) default_timeout host
    pure (
        if not res.ran
        then ("Could not perform remote DNS lookup: " <> error_of res, probe_error)
        else if succeeded res
        then (let ip = or_text (first_word (strip_left res.stdout)) "resolved" in
            (
              "DNS lookup succeeded for " <> (target <> (" (" <> (ip <> ")"))),
              with_status "PASS"
                  (("resolved", bool true) ∷ ("ip", text ip) ∷ ("raw", text res.stdout) ∷ []),
            ))
        else (
          "DNS resolution failed for " <> (target <> ": NXDOMAIN or resolution error"),
          with_status "FAIL" (("resolved", bool false) ∷ ("failure", text "NXDOMAIN") ∷ []),
        ))

  abbrev first_address : List String → String
  first_address [] = "resolved"
  first_address (ip ∷ rest) = ip

  abbrev pub dns_error : String → SocketError → Finding
  dns_error target e = (
    "DNS lookup failed for " <> (target <> (": " <> socket_text e)),
    with_status "FAIL"
        (("resolved", bool false) ∷ ("failure", text "NXDOMAIN") ∷ error_entry (socket_text e)),
  )

  unfoldable pub dns_answer : String → Attempt (List String) → Probe o.World Finding
  dns_answer target (done addresses) =
      let ip = first_address addresses in
      pure (
        "DNS lookup succeeded for " <> (target <> (" (" <> (ip <> ")"))),
        with_status "PASS" (("resolved", bool true) ∷ ("ip", text ip) ∷ []),
      )
  dns_answer target (failed e) = caught_os (dns_error target) e

  unfoldable pub dns_lookup_local : String → Probe o.World Finding
  unfolding dns_answer
  dns_lookup_local target = do results ← outside (o.getaddrinfo target); dns_answer target results

  unfoldable pub dns_lookup : String → String → Probe o.World Finding
  unfolding dns_lookup_remote dns_lookup_local
  dns_lookup target host =
      if nonempty host then dns_lookup_remote target host else dns_lookup_local target

  -- `errno.ENETUNREACH` and `errno.EHOSTUNREACH`
  unfoldable pub route_failure : String → SocketError → Finding
  route_failure target (errno_error n t) =
      if nat_beq n 101 || nat_beq n 113
      then (
        "No route to host " <> (target <> (": " <> t)),
        failure "NO_ROUTE_TO_HOST" (error_entry t),
      )
      else (
        "Route lookup for " <> (target <> (": " <> t)),
        with_status "PASS" (("info", text t) ∷ []),
      )
  route_failure target e = (
    "Route lookup for " <> (target <> (": " <> socket_text e)),
    with_status "PASS" (("info", text (socket_text e)) ∷ []),
  )

  unfoldable pub route_answer : String → Attempt String → Probe o.World Finding
  unfolding route_failure
  route_answer target (done local_ip) = pure (
    "Route to " <> (target <> (" via interface " <> local_ip)),
    with_status "PASS" (("interface_ip", text local_ip) ∷ []),
  )
  route_answer target (failed e) = caught_os (route_failure target) e

  -- without an answer of `ip`, the address that a datagram socket takes
  unfoldable pub route_by_socket : String → Probe o.World Finding
  unfolding route_answer
  route_by_socket target = do
    source ← outside (o.udp_source (if target == "localhost" then "127.0.0.1" else target))
    route_answer target source

  abbrev route_found : String → CommandResult → Finding
  route_found target res = (
    "Route to " <> (target <> (" exists: " <> strip res.stdout)),
    with_status "PASS" (("route", text (strip res.stdout)) ∷ []),
  )

  abbrev no_route : String → CommandResult → Finding
  no_route target res = (
    "No route to " <> (target <> (": " <> strip res.stderr)),
    failure "NO_ROUTE_TO_HOST" (error_entry (strip res.stderr)),
  )

  unfoldable pub route_check_remote : String → String → Probe o.World Finding
  route_check_remote target host = do
    res ← command o ("ip" ∷ "route" ∷ "get" ∷ target ∷ []) default_timeout host
    pure (
        if not res.ran
        then ("Could not perform remote route check: " <> error_of res, probe_error)
        else if succeeded res
        then route_found target res
        else no_route target res)

  unfoldable pub route_local_answer : String → CommandResult → Probe o.World Finding
  unfolding route_by_socket
  route_local_answer target res =
      if res.ran && succeeded res
      then pure (route_found target res)
      else if res.ran && has_infix res.stderr "RTNETLINK"
      then pure (no_route target res)
      else route_by_socket target

  unfoldable pub route_check_local : String → Probe o.World Finding
  unfolding route_local_answer
  route_check_local target = do
    res ← command o ("ip" ∷ "route" ∷ "get" ∷ target ∷ []) default_timeout ""
    route_local_answer target res

  unfoldable pub route_check : String → String → Probe o.World Finding
  unfolding route_check_remote route_check_local
  route_check target host =
      if nonempty host then route_check_remote target host else route_check_local target
