-- ===== src/Probes/Network/Findings.antt =====
-- The status that each probe finds, whatever the system does.
use evidence_tool.Base.{
  String, ◌≡◌, refl, ◌⊎◌, inl, inr, Bool, true, false, ◌&&◌, some, List, if◌then◌else◌, has_infix,
  ltb, leb, ℕ, nonempty, string_dec,
}
use evidence_tool.Base.Int.{ℤ}
use evidence_tool.Base.Dict.{Dict, lookup}
use evidence_tool.Models.Value.{Value, text, get_key}
use evidence_tool.Probes.System.{
  Outside, Attempt, done, failed, SocketError, connection_refused, timed_out, ssl_error,
  errno_error, raised,
}
use evidence_tool.Probes.Session.{Session}
use evidence_tool.Probes.Session.Rules.{
  Triple, Lax, Triple-pure, Triple-raise, Triple-if, Triple-use, Triple-attempt,
}
use evidence_tool.Probes.Shell.{CommandResult, succeeded}
use evidence_tool.Probes.Network.{Finding, caught_os, with_status, http_value}
use evidence_tool.Probes.Network.Lookup.{
  dns_lookup, dns_lookup_remote, dns_answer, dns_error, route_failure, route_answer, route_check,
  route_check_remote, route_local_answer,
}
use evidence_tool.Probes.Network.Reach.{
  port_error, port_answer, check_port_remote, check_port_local, addressable, ping_answer,
}

-- The value has a status that the evaluator knows.
abbrev pub HasStatus : Value → Type 0
HasStatus v =
    (get_key "status" v ≡ some (text "PASS"))
    ⊎ (get_key "status" v ≡ some (text "FAIL"))
    ⊎ (get_key "status" v ≡ some (text "UNKNOWN"))

pub record FindingHasStatus (f : Finding) : Type 0 where
  pub status : HasStatus f.1

module _ {W : Type 0} {I : Session W → Type 0} where
  pub caught-HasStatus :
      (f : SocketError → Finding) (e : SocketError)
      → ((e' : SocketError) → FindingHasStatus (f e'))
      → Triple I FindingHasStatus (caught_os f e)
  caught-HasStatus f (raised e) h = Triple-raise e
  caught-HasStatus f (connection_refused t) h = Triple-pure _ (h _)
  caught-HasStatus f (timed_out t) h = Triple-pure _ (h _)
  caught-HasStatus f (ssl_error t) h = Triple-pure _ (h _)
  caught-HasStatus f (errno_error n t) h = Triple-pure _ (h _)

pub Finding-if :
    (b : Bool) (f g : Finding)
    → FindingHasStatus f
    → FindingHasStatus g
    → FindingHasStatus (if b then f else g)
Finding-if true f g hf hg = hf
Finding-if false f g hf hg = hg

pub passing :
    (message : String) (rest : Dict Value) → FindingHasStatus (message, with_status "PASS" rest)
unfolding with_status lookup string_dec
passing message rest = record { status = inl refl }

pub failing :
    (message : String) (rest : Dict Value) → FindingHasStatus (message, with_status "FAIL" rest)
unfolding with_status lookup string_dec
failing message rest = record { status = inr (inl refl) }

pub undecided :
    (message : String) (rest : Dict Value) → FindingHasStatus (message, with_status "UNKNOWN" rest)
unfolding with_status lookup string_dec
undecided message rest = record { status = inr (inr refl) }

pub ruleset statuses = (Finding-if, passing, failing, undecided)

pub Value-if :
    (message : String) (b : Bool) (v w : Value)
    → FindingHasStatus (message, v)
    → FindingHasStatus (message, w)
    → FindingHasStatus (message, if b then v else w)
Value-if message true v w hv hw = hv
Value-if message false v w hv hw = hw

pub http_value-HasStatus :
    (message : String) (code : ℕ) (latency : ℤ)
    → FindingHasStatus (message, http_value code latency)
unfolding http_value
http_value-HasStatus message code latency =
    Value-if message (leb 200 code && ltb code 400) _ _ (passing _ _)
      (Value-if message (leb 500 code) _ _ (failing _ _) (failing _ _))

module _ (o : Outside) {I : Session o.World → Type 0} (lax : Lax I) where
  pub route_failure_lem :
      (target : String) (e : SocketError) → FindingHasStatus (route_failure o target e)
  unfolding route_failure
  route_failure_lem target (errno_error n t) = search statuses
  route_failure_lem target (raised e) = passing _ _
  route_failure_lem target (connection_refused t) = passing _ _
  route_failure_lem target (timed_out t) = passing _ _
  route_failure_lem target (ssl_error t) = passing _ _

  pub dns_answer_lem :
      (target : String) (a : Attempt (List String))
      → Triple I FindingHasStatus (dns_answer o target a)
  unfolding dns_answer
  dns_answer_lem target (done addresses) = Triple-pure _ (passing _ _)
  dns_answer_lem target (failed e) = caught-HasStatus (dns_error o target) e (λ e'. failing _ _)

  pub dns_remote_lem :
      (target host : String) → Triple I FindingHasStatus (dns_lookup_remote o target host)
  unfolding dns_lookup_remote
  dns_remote_lem target host =
      Triple-attempt FindingHasStatus _ _ lax λ res. Triple-pure _ (search statuses)

  pub dns_lookup_lem : (target host : String) → Triple I FindingHasStatus (dns_lookup o target host)
  unfolding dns_lookup
  dns_lookup_lem target host =
      Triple-if (nonempty host) _ _ (λ _. dns_remote_lem target host)
        (λ _. Triple-use FindingHasStatus _ _ lax (dns_answer_lem target))

  pub route_answer_lem :
      (target : String) (a : Attempt String) → Triple I FindingHasStatus (route_answer o target a)
  unfolding route_answer
  route_answer_lem target (done ip) = Triple-pure _ (passing _ _)
  route_answer_lem target (failed e) =
      caught-HasStatus (route_failure o target) e (route_failure_lem target)

  pub route_local_lem :
      (target : String) (res : CommandResult)
      → Triple I FindingHasStatus (route_local_answer o target res)
  unfolding route_local_answer
  route_local_lem target res =
      Triple-if (res.ran && succeeded res) _ _ (λ _. Triple-pure _ (passing _ _))
        λ _.
          Triple-if (res.ran && has_infix res.stderr "RTNETLINK") _ _
            (λ _. Triple-pure _ (failing _ _))
            λ _. Triple-use FindingHasStatus _ _ lax (route_answer_lem target)

  pub route_remote_lem :
      (target host : String) → Triple I FindingHasStatus (route_check_remote o target host)
  unfolding route_check_remote
  route_remote_lem target host =
      Triple-attempt FindingHasStatus _ _ lax λ res. Triple-pure _ (search statuses)

  pub route_check_lem :
      (target host : String) → Triple I FindingHasStatus (route_check o target host)
  unfolding route_check
  route_check_lem target host =
      Triple-if (nonempty host) _ _ (λ _. route_remote_lem target host)
        (λ _. Triple-attempt FindingHasStatus _ _ lax (route_local_lem target))

  pub port_error_lem :
      (target : String) (port : ℕ) (e : SocketError) → FindingHasStatus (port_error o target port e)
  unfolding port_error
  port_error_lem target port (connection_refused t) = failing _ _
  port_error_lem target port (timed_out t) = failing _ _
  port_error_lem target port (errno_error n t) = failing _ _
  port_error_lem target port (ssl_error t) = failing _ _
  port_error_lem target port (raised e) = failing _ _

  pub port_answer_lem :
      (target : String) (port : ℕ) (a : Attempt (Unit {0}))
      → Triple I FindingHasStatus (port_answer o target port a)
  unfolding port_answer
  port_answer_lem target port (done _) = Triple-pure _ (passing _ _)
  port_answer_lem target port (failed e) =
      caught-HasStatus (port_error o target port) e (port_error_lem target port)

  pub check_port_lem :
      (target : String) (port : ℕ) (host : String) (timeout : ℕ)
      → Triple I FindingHasStatus (
          if nonempty host
          then check_port_remote o target port host timeout
          else check_port_local o target port timeout)
  unfolding check_port_remote check_port_local
  check_port_lem target port host timeout =
      Triple-if (nonempty host) _ _
        (λ _. Triple-attempt FindingHasStatus _ _ lax λ res. Triple-pure _ (search statuses))
        (λ _. Triple-use FindingHasStatus _ _ lax (port_answer_lem target port))

  pub addressable_lem :
      (target : String) (a : Attempt (List String)) → FindingHasStatus (addressable o target a)
  unfolding addressable
  addressable_lem target (done addresses) = passing _ _
  addressable_lem target (failed e) = failing _ _

  pub ping_answer_lem :
      (target : String) (res : CommandResult) → FindingHasStatus (ping_answer o target res)
  ping_answer_lem target res = search statuses
