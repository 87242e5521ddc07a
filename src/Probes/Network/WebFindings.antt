-- ===== src/Probes/Network/WebFindings.antt =====
-- The status that the TLS and HTTP probes find, whatever the system does.
use evidence_tool.Base.{
  String, Bool, ◌&&◌, Option, Result, ok, err, if◌then◌else◌, not, has_infix, ℕ, nonempty,
}
use evidence_tool.Base.Int.{ℤ}
use evidence_tool.Base.Decimal.{strip}
use evidence_tool.Probes.System.{
  Outside, Attempt, done, failed, SocketError, connection_refused, timed_out, ssl_error,
  errno_error, raised,
}
use evidence_tool.Probes.Session.{Session}
use evidence_tool.Probes.Session.Rules.{
  Triple, Lax, Triple-pure, Triple-raise, Triple-if, Triple-use, Triple-attempt, Triple-read,
}
use evidence_tool.Probes.Shell.{succeeded}
use evidence_tool.Probes.Network.{http_code, before_colon}
use evidence_tool.Probes.Network.Web.{
  tls_remote, tls_local, tls_error, tls_answer, answered, http_error, http_answer,
  check_http_remote, check_http_local,
}
use evidence_tool.Probes.Network.Findings.{
  statuses, FindingHasStatus, caught-HasStatus, passing, failing, undecided, http_value-HasStatus,
}

module _ (o : Outside) {I : Session o.World → Type 0} (lax : Lax I) where
  pub tls_error_lem :
      (target : String) (port : ℕ) (e : SocketError) → FindingHasStatus (tls_error o target port e)
  unfolding tls_error
  tls_error_lem target port (connection_refused t) = failing _ _
  tls_error_lem target port (timed_out t) = failing _ _
  tls_error_lem target port (errno_error n t) = failing _ _
  tls_error_lem target port (ssl_error t) = failing _ _
  tls_error_lem target port (raised e) = failing _ _

  pub tls_answer_lem :
      (target : String) (port : ℕ) (a : Attempt (Option String × Option String))
      → Triple I FindingHasStatus (tls_answer o target port a)
  unfolding tls_answer
  tls_answer_lem target port (done (version, cipher)) = Triple-pure _ (passing _ _)
  tls_answer_lem target port (failed e) =
      caught-HasStatus (tls_error o target port) e (tls_error_lem target port)

  pub tls_lem :
      (target : String) (port : ℕ) (host : String) (timeout : ℕ)
      → Triple I FindingHasStatus (
          if nonempty host
          then tls_remote o target port host timeout
          else tls_local o target port timeout)
  unfolding tls_remote tls_local
  tls_lem target port host timeout =
      Triple-if (nonempty host) _ _
        (λ _. Triple-attempt FindingHasStatus _ _ lax λ res. Triple-pure _ (search statuses))
        (λ _. Triple-use FindingHasStatus _ _ lax (tls_answer_lem target port))

  pub http_error_lem :
      (target : String) (port : ℕ) (path : String) (e : SocketError)
      → FindingHasStatus (http_error o target port path e)
  unfolding http_error
  http_error_lem target port path (connection_refused t) = failing _ _
  http_error_lem target port path (timed_out t) = failing _ _
  http_error_lem target port path (errno_error n t) = failing _ _
  http_error_lem target port path (ssl_error t) = failing _ _
  http_error_lem target port path (raised e) = failing _ _

  pub http_answer_lem :
      (target : String) (port : ℕ) (path : String) (latency : ℤ) (a : Attempt ℕ)
      → FindingHasStatus (http_answer o target port path latency a)
  unfolding http_answer
  http_answer_lem target port path latency (done code) = http_value-HasStatus _ code latency
  http_answer_lem target port path latency (failed e) = http_error_lem target port path e

  pub answered_lem : (code : ℕ) (r : Result ℤ) → Triple I FindingHasStatus (answered o code r)
  unfolding answered
  answered_lem code (ok latency) = Triple-pure _ (http_value-HasStatus _ code latency)
  answered_lem code (err e) = Triple-raise e

  pub http_remote_lem :
      (scheme target : String) (port : ℕ) (path host : String) (timeout : ℕ)
      → Triple I FindingHasStatus (check_http_remote o scheme target port path host timeout)
  unfolding check_http_remote
  http_remote_lem scheme target port path host timeout =
      Triple-attempt FindingHasStatus _ _ lax λ res.
        Triple-if (not res.ran) _ _ (λ _. Triple-pure _ (undecided _ _))
          λ _.
            Triple-if (succeeded res && has_infix res.stdout ":") _ _
              (λ _. answered_lem (http_code (before_colon (strip res.stdout))) _)
              (λ _. Triple-pure _ (failing _ _))

  pub http_local_lem :
      (target : String) (port : ℕ) (path : String) (use_tls : Bool) (timeout : ℕ)
      → Triple I FindingHasStatus (check_http_local o target port path use_tls timeout)
  unfolding check_http_local
  http_local_lem target port path use_tls timeout = Triple-read FindingHasStatus _ _ λ start.
      Triple-use FindingHasStatus _ _ lax λ answer.
        Triple-read FindingHasStatus _ _ λ end. Triple-pure _ (http_answer_lem _ _ _ _ answer)
