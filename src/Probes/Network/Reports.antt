-- ===== src/Probes/Network/Reports.antt =====
-- What the network provider reports, whatever the system does.
use evidence_tool.Base.{ℕ, String, ◌≡◌, refl, Bool, true, false, Option, nonempty}
use evidence_tool.Models.Observation.{Observation}
use evidence_tool.Capability.{IpAddresses}
use evidence_tool.Probes.System.{Outside}
use evidence_tool.Probes.Session.{Session, Probe, request}
use evidence_tool.Probes.Session.Rules.{
  Triple, Lax, Triple-observe, Triple-if, Triple-bind, Triple-use, Triple-attempt, Triple-try,
  Triple-with,
}
use evidence_tool.Probes.Network.{Finding, record_finding, unknown_observation}
use evidence_tool.Probes.Network.Reach.{
  check, executed, icmp_echo, check_dns_resolvable, check_route_exists, check_host_reachable,
  check_port_reachable,
}
use evidence_tool.Probes.Network.Web.{skipped, check_tls_handshake, check_http_reachable}
use evidence_tool.Probes.Network.Findings.{
  HasStatus, FindingHasStatus, undecided, dns_lookup_lem, route_check_lem, check_port_lem,
  ping_answer_lem, addressable_lem,
}
use evidence_tool.Probes.Network.WebFindings.{tls_lem, http_remote_lem, http_local_lem}

-- an observation of this id, with a status that the evaluator knows
pub record Describes (id : String) (seen : Observation) : Type 0 where
  pub has_id : seen.id ≡ id
  pub status : HasStatus seen.value

module _ (o : Outside) {I : Session o.World → Type 0} (lax : Lax I) where
  pub record_lem :
      (id method target operation host transport : String) (f : Finding)
      → FindingHasStatus f
      → Triple I (Describes id) (record_finding o id method target operation host transport f)
  record_lem id method target operation host transport f h =
      Triple-observe _ λ w. record { has_id = refl; status = h.status }

  unknown_lem :
      (id method target operation host reason : String) (denied : Bool)
      → Triple I
          (Describes id)
          (unknown_observation o id method target operation host reason denied)
  unfolding unknown_observation
  unknown_lem id method target operation host reason denied =
      record_lem id method target operation host "capability_denied" _ (undecided _ _)

  executed_lem :
      (ip : IpAddresses) (id method target operation host : String) (probe : Probe o.World Finding)
      → Triple I FindingHasStatus probe
      → Triple I (Describes id) (executed o ip id method target operation host probe)
  executed_lem ip id method target operation host probe h =
      Triple-bind FindingHasStatus (Describes id) probe _ h
        λ f k. record_lem id method target operation host "executed" f k

  echo_lem :
      (target host : String) (timeout : ℕ) (method : String)
      → Triple I (Describes "network.host_reachable") (icmp_echo o target host timeout method)
  unfolding icmp_echo
  echo_lem target host timeout method =
      Triple-attempt (Describes "network.host_reachable") _ _ lax λ res.
        Triple-if res.ran _ _
          (λ _. record_lem _ method target _ host _ _ (ping_answer_lem o lax target res))
          λ _.
            Triple-if (nonempty host) _ _ (λ _. unknown_lem _ method target _ host _ false)
              λ _. Triple-use (Describes "network.host_reachable") _ _ lax λ results.
                record_lem _ method target _ host _ _ (addressable_lem o lax target results)

  module _ (ip : IpAddresses)
      (asks : (operation target : String) (port : Option ℕ)
        → Triple I (λ _. Unit {0}) (request ip operation target port)) where
    check_lem :
        (id method operation target : String) (port : Option ℕ) (host : String)
        (granted : Probe o.World Observation)
        → Triple I (Describes id) granted
        → Triple I (Describes id) (check o ip id method operation target port host granted)
    check_lem id method operation target port host granted h =
        Triple-try (λ _. Unit {0}) (Describes id) _ _ _ (asks operation target port)
          (λ reason. unknown_lem id method target operation host reason true) (λ _ _. h)

    pub dns_lem :
        (target host : String)
        → Triple I (Describes "network.dns_resolvable") (check_dns_resolvable o ip target host)
    unfolding check_dns_resolvable
    dns_lem target host =
        check_lem _ _ _ _ _ _ _ (executed_lem ip _ _ _ _ _ _ (dns_lookup_lem o lax target host))

    pub route_lem :
        (target host : String)
        → Triple I (Describes "network.route_exists") (check_route_exists o ip target host)
    unfolding check_route_exists
    route_lem target host =
        check_lem _ _ _ _ _ _ _ (executed_lem ip _ _ _ _ _ _ (route_check_lem o lax target host))

    pub host_lem :
        (target host : String)
        → Triple I (Describes "network.host_reachable") (check_host_reachable o ip target host)
    unfolding check_host_reachable
    host_lem target host = Triple-with _ λ s. (check_lem _ _ _ _ _ _ _ (echo_lem target host _ _))

    pub port_lem :
        (target : String) (port : ℕ) (host : String)
        → Triple I (Describes "network.port_reachable") (check_port_reachable o ip target port host)
    unfolding check_port_reachable
    port_lem target port host = Triple-with _ λ s.
        (check_lem _ _ _ _ _ _ _
          (executed_lem ip _ _ _ _ _ _ (check_port_lem o lax target port host _)))

    skipped_lem :
        (id method target operation host message : String)
        → Triple I (Describes id) (skipped o id method target operation host message)
    skipped_lem id method target operation host message =
        record_lem id method target operation host "skipped" _ (undecided _ _)

    pub handshake_lem :
        (target : String) (port : ℕ) (host : String) (tcp_failed : Bool)
        → Triple I
            (Describes "network.tls_handshake")
            (check_tls_handshake o ip target port host tcp_failed)
    unfolding check_tls_handshake
    handshake_lem target port host tcp_failed = Triple-with _ λ s.
        (check_lem _ _ _ _ _ _ _ (
          Triple-if tcp_failed _ _ (λ _. skipped_lem _ _ _ _ _ _)
            (λ _. executed_lem ip _ _ _ _ _ _ (tls_lem o lax target port host _))))

    pub http_lem :
        (target : String) (port : ℕ) (path : String) (use_tls : Bool) (host : String)
        (tcp_failed : Bool)
        → Triple I
            (Describes "network.http_reachable")
            (check_http_reachable o ip target port path use_tls host tcp_failed)
    unfolding check_http_reachable
    http_lem target port path use_tls host tcp_failed = Triple-with _ λ s.
        (check_lem _ _ _ _ _ _ _ (
          Triple-if tcp_failed _ _ (λ _. skipped_lem _ _ _ _ _ _)
            (λ _. executed_lem ip _ _ _ _ _ _ (
              Triple-if (nonempty host) _ _ (λ _. http_remote_lem o lax _ target port path host _)
                (λ _. http_local_lem o lax target port path use_tls _)))))
