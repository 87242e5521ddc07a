-- ===== src/Probes/Network.antt =====
-- providers/network.py: the six probes of a target. An observation's host is the text that the
-- context gives, which may be empty; the probe then runs here and not over SSH.
pub mod Lookup
pub mod Reach
pub mod Web
pub mod Collect
pub mod Findings
pub mod WebFindings
pub mod Reports
pub mod Run
pub mod Off
pub mod Scheme
use Prim.Native.Char.{code}
use evidence_tool.Base.{
  ℕ, ◌+◌, ◌-◌, ◌*◌, ◌/◌, String, ◌<>◌, ◌==◌, Bool, true, false, not, ◌&&◌, ◌||◌, Option, none, some,
  List, [], ◌∷◌, ◌++◌, if◌then◌else◌, nonempty, nat_beq, ltb, leb, any, has_infix, Result, ok, err,
}
use evidence_tool.Base.Int.{ℤ, pos, negsuc}
use evidence_tool.Base.Decimal.{
  decimal, decimal_int, strip, strip_left, is_space, is_digit, is_empty_text,
}
use evidence_tool.Base.Dict.{Dict}
use evidence_tool.Models.Value.{Value, text, bool, int, object, get_key}
use evidence_tool.Models.Observation.{Observation}
use evidence_tool.Capability.{IpAddresses}
use evidence_tool.Probes.System.{
  Outside, Attempt, done, failed, SocketError, connection_refused, timed_out, ssl_error,
  errno_error, raised, socket_text, Url,
}
use evidence_tool.Probes.Session.{
  Session, Probe, pure, raise, outside, raising_use, observe, ◌>>=◌, settle_request, request,
  probe_timeout,
}
use evidence_tool.Probes.Shell.{CommandResult, Timeout, default_timeout, whole, run_command}
use evidence_tool.Probes.Context.{ProviderContext, get, or_text, is_yes, port_of}

unfoldable pub with_status : String → Dict Value → Value
with_status status rest = object (("status", text status) ∷ rest)

abbrev pub failure : String → Dict Value → Value
failure kind rest = with_status "FAIL" (("failure", text kind) ∷ rest)

abbrev pub error_entry : String → Dict Value
error_entry e = ("error", text e) ∷ []

abbrev pub probe_error : Value
probe_error = with_status "UNKNOWN" (("failure", text "PROBE_ERROR") ∷ [])

abbrev pub endpoint : String → ℕ → Dict Value
endpoint target port = ("target_host", text target) ∷ ("port", int (pos port)) ∷ []

-- `value.get("status") == "FAIL"`
abbrev pub has_failed : Value → Bool
has_failed v = elim (get_key "status" v) [ some (text s) ↦ s == "FAIL" | _ ↦ false ]

abbrev pub error_of : CommandResult → String
error_of res = elim res.error [ none ↦ "None" | some e ↦ e ]

-- `str.split()[0]` of a text that does not begin with white space
unfoldable pub first_word : String → String
first_word String.[] = ""
first_word (String.◌∷◌ c s) =
    let rest = first_word s in if is_space (code c) then "" else String.◌∷◌ c rest

-- `s.split(":", 1)`, for a text that holds a colon
unfoldable pub before_colon : String → String
before_colon String.[] = ""
before_colon (String.◌∷◌ c s) =
    let rest = before_colon s in if nat_beq (code c) 58 then "" else String.◌∷◌ c rest

unfoldable pub after_colon : String → String
after_colon String.[] = ""
after_colon (String.◌∷◌ c s) = let rest = after_colon s in if nat_beq (code c) 58 then s else rest

unfoldable pub number_of_digits : ℕ → String → Option ℕ
number_of_digits n String.[] = some n
number_of_digits n (String.◌∷◌ c s) =
    let rest = number_of_digits (n * 10 + (code c - 48)) s in
    if is_digit (code c) then rest else none

-- `int(code_str) if code_str.isdigit() else 0`, on the ASCII digits that curl prints for a status:
-- digits of other scripts, which `isdigit` takes as well, are not read
unfoldable pub http_code : String → ℕ
unfolding number_of_digits
http_code s = elim (number_of_digits 0 s) [ none ↦ 0 | some n ↦ n ]

-- `int((end - start) * 1000)` of two times in microseconds
unfoldable pub elapsed : ℕ → ℕ → ℤ
elapsed start end =
    if leb start end
    then pos ((end - start) / 1000)
    else (let late = (start - end) / 1000 in if nat_beq late 0 then pos 0 else negsuc (late - 1))

abbrev pub scheme_of : Bool → String
scheme_of use_tls = if use_tls then "https" else "http"

abbrev status_entries : ℕ → ℤ → Dict Value
status_entries status latency = ("status_code", int (pos status)) ∷ ("latency_ms", int latency) ∷ []

unfoldable pub http_value : ℕ → ℤ → Value
http_value status latency =
    if leb 200 status && ltb status 400
    then with_status "PASS" (status_entries status latency)
    else if leb 500 status
    then failure "HTTP_5XX" (status_entries status latency)
    else failure ("HTTP_" <> decimal status) (status_entries status latency)

-- `errno.ECONNREFUSED`, `ETIMEDOUT`, `EHOSTUNREACH`, `ENETUNREACH` of Linux, and those of Windows
unfoldable pub failure_of_errno : ℕ → String
failure_of_errno n =
    if nat_beq n 111
    then "CONNECTION_REFUSED"
    else if nat_beq n 110 || nat_beq n 10060
    then "TIMEOUT"
    else if nat_beq n 113 || nat_beq n 10065
    then "HOST_UNREACHABLE"
    else if nat_beq n 101 || nat_beq n 10051
    then "NETWORK_UNREACHABLE"
    else "CONNECTION_FAILED"

-- the message and the value of an observation
abbrev pub Finding : Type 0
Finding = String × Value

-- `except OSError`, where `f` says what is found; other exceptions go on
abbrev pub caught_os : {W : Type 0} → (SocketError → Finding) → SocketError → Probe W Finding
caught_os f (raised e) = raise e
caught_os f e = pure (f e)

module _ (o : Outside) where
  abbrev pub command : List String → Timeout → String → Probe o.World CommandResult
  command args timeout host = raising_use (run_command o args timeout host none)

  abbrev pub scope_of : String → String
  scope_of host = if nonempty host then "remote" else "local"

  abbrev pub record_finding :
      String → String → String → String → String → String → Finding → Probe o.World Observation
  record_finding id method target capability host transport (message, value) = observe λ w. record {
    id = id;
    source = "network";
    category = "connectivity";
    collector = "network_provider";
    method = method;
    value = value;
    message = message;
    observed_at = o.now w;
    collected_at = o.now w;
    host = some host;
    execution_scope = some (scope_of host);
    target = some target;
    capability = some capability;
    transport_status = some transport;
  }

  -- `_unknown_observation`
  unfoldable pub unknown_observation :
      String → String → String → String → String → String → Bool → Probe o.World Observation
  unknown_observation id method target capability host reason capability_denied =
      record_finding id method target capability host "capability_denied" (
        (if capability_denied then "Network capability denied: " <> reason else reason),
        with_status "UNKNOWN" (("capability_denied", bool capability_denied) ∷ []),
      )
