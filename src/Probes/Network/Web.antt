-- ===== src/Probes/Network/Web.antt =====
-- providers/network.py: the TLS handshake and the HTTP request.
use evidence_tool.Base.{
  ℕ, ◌+◌, String, ◌<>◌, Bool, true, not, ◌&&◌, ◌||◌, Option, none, some, List, [], ◌∷◌,
  if◌then◌else◌, nonempty, leb, ltb, has_infix, Result, ok, err,
}
use evidence_tool.Base.Int.{ℤ, pos}
use evidence_tool.Base.Decimal.{decimal, decimal_int, strip}
use evidence_tool.Models.Value.{text, bool}
use evidence_tool.Models.Observation.{Observation}
use evidence_tool.Capability.{IpAddresses}
use evidence_tool.Probes.System.{
  Outside, Attempt, done, failed, SocketError, ssl_error, timed_out, socket_text,
}
use evidence_tool.Probes.Session.{Probe, pure, raise, outside, observe, ◌>>=◌, probe_timeout}
use evidence_tool.Probes.Shell.{succeeded, whole}
use evidence_tool.Probes.Context.{or_text}
use evidence_tool.Probes.Network.{
  with_status, failure, error_entry, probe_error, endpoint, error_of, before_colon, after_colon,
  http_code, http_value, elapsed, scheme_of, Finding, caught_os, command, record_finding,
}
use evidence_tool.Probes.Network.Reach.{check, executed}

module _ (o : Outside) where
  abbrev place : String → ℕ → String
  place target port = target <> (":" <> decimal port)

  unfoldable pub tls_remote : String → ℕ → String → ℕ → Probe o.World Finding
  tls_remote target port host timeout = do
    res ←
        command o
          ("openssl"
            ∷ "s_client"
            ∷ "-connect"
            ∷ place target port
            ∷ "-servername"
            ∷ target
            ∷ "-brief"
            ∷ [])
          (whole (timeout + 2)) host
    pure (
        if not res.ran
        then ("Could not execute remote openssl s_client: " <> error_of res, probe_error)
        else if succeeded res
        then (
          "TLS handshake succeeded with " <> place target port,
          with_status "PASS" (endpoint target port),
        )
        else (
          "TLS handshake failed with "
              <> (place target port <> (": " <> or_text (strip res.stderr) (strip res.stdout))),
          failure "TLS_HANDSHAKE_ERROR" (endpoint target port),
        ))

  abbrev or_else : String → Option String → String
  or_else default none = default
  or_else default (some s) = s

  unfoldable pub tls_error : String → ℕ → SocketError → Finding
  tls_error target port (ssl_error e) = (
    "TLS handshake failed for " <> (place target port <> (": " <> e)),
    failure "TLS_HANDSHAKE_ERROR" (error_entry e),
  )
  tls_error target port (timed_out e) = (
    "TLS handshake timed out for " <> (place target port <> (": " <> e)),
    failure "TIMEOUT" (error_entry e),
  )
  tls_error target port e = (
    "TLS connection error for " <> (place target port <> (": " <> socket_text e)),
    failure "CONNECTION_FAILED" (error_entry (socket_text e)),
  )

  unfoldable pub tls_answer :
      String → ℕ → Attempt (Option String × Option String) → Probe o.World Finding
  unfolding tls_error
  tls_answer target port (done (negotiated, offered)) =
      let version = or_text (or_else "" negotiated) "TLS" in
      let cipher = or_else "unknown" offered in
      pure (
        "TLS handshake succeeded (" <> (version <> (", " <> (cipher <> ")"))),
        with_status "PASS" (("tls_version", text version) ∷ ("cipher", text cipher) ∷ []),
      )
  tls_answer target port (failed e) = caught_os (tls_error target port) e

  unfoldable pub tls_local : String → ℕ → ℕ → Probe o.World Finding
  unfolding tls_answer
  tls_local target port timeout = do
    session ← outside (o.tls_session target port timeout)
    tls_answer target port session

  -- what `_check_tls_handshake` and `_check_http_reachable` give after a failed TCP probe
  abbrev pub skipped :
      String → String → String → String → String → String → Probe o.World Observation
  skipped id method target operation host message =
      record_finding o id method target operation host "skipped" (
        message,
        with_status "UNKNOWN" (("failure", text "TCP_UNREACHABLE") ∷ ("skipped", bool true) ∷ []),
      )

  abbrev curl_command : String → String → ℕ → String → ℕ → List String
  curl_command scheme target port path timeout =
      "curl"
      ∷ "-s"
      ∷ "-o"
      ∷ "/dev/null"
      ∷ "-w"
      ∷ "%{http_code}:%{time_total}"
      ∷ "--connect-timeout"
      ∷ decimal timeout
      ∷ "-k"
      ∷ (scheme <> ("://" <> (place target port <> path)))
      ∷ []

  abbrev timing : String → ℤ → String
  timing code latency = code <> (" (" <> (decimal_int latency <> "ms)"))

  abbrev remote_message : ℕ → ℤ → String
  remote_message code latency =
      if leb 200 code && ltb code 400
      then "HTTP probe succeeded: status " <> timing (decimal code) latency
      else if leb 500 code
      then "HTTP probe returned server error: status " <> timing (decimal code) latency
      else "HTTP probe returned status " <> timing (decimal code) latency

  -- `int(float(latency_str) * 1000) if latency_str else 0`, which may raise
  abbrev latency_of : String → Result ℤ
  latency_of s = if nonempty s then o.milliseconds s else ok (pos 0)

  unfoldable pub answered : ℕ → Result ℤ → Probe o.World Finding
  answered code (ok latency) = pure (remote_message code latency, http_value code latency)
  answered code (err e) = raise e

  -- `_check_http_remote`
  unfoldable pub check_http_remote :
      String → String → ℕ → String → String → ℕ → Probe o.World Finding
  unfolding answered
  check_http_remote scheme target port path host timeout = do
    res ← command o (curl_command scheme target port path timeout) (whole (timeout + 2)) host
    if not res.ran
        then pure ("Could not execute remote curl probe: " <> error_of res, probe_error)
        else if succeeded res && has_infix res.stdout ":"
        then answered (http_code (before_colon (strip res.stdout)))
            (latency_of (after_colon (strip res.stdout)))
        else pure (
          "HTTP probe failed for " <> (scheme <> ("://" <> (place target port <> path))),
          failure "HTTP_UNAVAILABLE" (error_entry (strip res.stderr)),
        )

  abbrev local_message : String → ℕ → ℤ → String
  local_message path code latency =
      if (leb 200 code && ltb code 400) || not (leb 500 code)
      then "HTTP GET " <> (path <> (" returned status " <> timing (decimal code) latency))
      else "HTTP GET "
        <> (path <> (" returned server error: status " <> timing (decimal code) latency))

  unfoldable pub http_error : String → ℕ → String → SocketError → Finding
  http_error target port path (timed_out e) = (
    "HTTP request timed out for " <> (place target port <> (path <> (": " <> e))),
    failure "HTTP_TIMEOUT" (error_entry e),
  )
  http_error target port path e = (
    "HTTP request failed for " <> (place target port <> (path <> (": " <> socket_text e))),
    failure "HTTP_UNAVAILABLE" (error_entry (socket_text e)),
  )

  unfoldable pub http_answer : String → ℕ → String → ℤ → Attempt ℕ → Finding
  unfolding http_error
  http_answer target port path latency (done code) =
      (local_message path code latency, http_value code latency)
  http_answer target port path latency (failed e) = http_error target port path e

  -- `_check_http_local`
  unfoldable pub check_http_local : String → ℕ → String → Bool → ℕ → Probe o.World Finding
  unfolding http_answer
  check_http_local target port path use_tls timeout = do
    start ← observe o.now
    answer ← outside (o.http_get use_tls target port path timeout)
    end ← observe o.now
    pure (http_answer target port path (elapsed start end) answer)

  module _ (ip : IpAddresses) where
    unfoldable pub check_tls_handshake : String → ℕ → String → Bool → Probe o.World Observation
    unfolding tls_remote tls_local
    check_tls_handshake target port host tcp_failed s =
        let method = "tls_handshake(" <> (place target port <> ")") in
        let timeout = probe_timeout s.capabilities.network.timeout_seconds in
        check o ip "network.tls_handshake" method "tls_handshake" target (some port) host
          (if tcp_failed
            then skipped "network.tls_handshake" method target "tls_handshake" host (
                "TLS handshake skipped because TCP port "
                <> (decimal port <> (" on " <> (target <> " is unreachable"))))
            else executed o ip "network.tls_handshake" method target "tls_handshake" host (
                if nonempty host
                then tls_remote target port host timeout
                else tls_local target port timeout))
          s

    unfoldable pub check_http_reachable :
        String → ℕ → String → Bool → String → Bool → Probe o.World Observation
    unfolding check_http_remote check_http_local
    check_http_reachable target port path use_tls host tcp_failed s =
        let scheme = scheme_of use_tls in
        let method = "http_get(" <> (scheme <> ("://" <> (place target port <> (path <> ")")))) in
        let timeout = probe_timeout s.capabilities.network.timeout_seconds in
        check o ip "network.http_reachable" method "http_probe" target (some port) host
          (if tcp_failed
            then skipped "network.http_reachable" method target "http_probe" host (
                "HTTP probe skipped because TCP port "
                <> (decimal port <> (" on " <> (target <> " is unreachable"))))
            else executed o ip "network.http_reachable" method target "http_probe" host (
                if nonempty host
                then check_http_remote scheme target port path host timeout
                else check_http_local target port path use_tls timeout))
          s
