-- ===== src/Probes/Session.antt =====
-- A run of `collect`: the capabilities, whose tracker counts requests, the provider's own count of
-- probes, and the outside; `_require_network` and `_probe_timeout` of the providers.
pub mod Rules
use evidence_tool.Base.{
  ℕ, suc, ◌+◌, ◌/◌, String, Bool, true, false, Option, none, some, List, if◌then◌else◌, leb, Result,
  ok, err, Error, capability_denied,
}
use evidence_tool.Base.Int.{ℤ, pos, negsuc}
use evidence_tool.Base.Decimal.{decimal}
use evidence_tool.Probes.System.{Attempt, done, failed, uncaught}
use evidence_tool.Capability.{CapabilitySet, IpAddresses, require_network}

pub record Session (W : Type 0) : Type 0 where
  pub capabilities : CapabilitySet
  pub probe_count : ℕ
  pub world : W

abbrev pub Probe : Type 0 → Type 0 → Type 0
Probe W A = Session W → Result A × Session W

abbrev pub value_of : {A : Type 0} → Attempt A → Result A
value_of (done a) = ok a
value_of (failed e) = err (uncaught e)

module _ {W A : Type 0} where
  unfoldable pub pure : A → Probe W A
  pure a s = (ok a, s)

  unfoldable pub raise : Error → Probe W A
  raise e s = (err e, s)

  -- a use of the outside
  unfoldable pub outside : (W → A × W) → Probe W A
  outside use_of s = let (a, w) = use_of s.world in (ok a, record s { world = w })

  -- a use of a socket, whose exceptions go on
  unfoldable pub socket_use : (W → Attempt A × W) → Probe W A
  socket_use use_of s =
      let (attempt, w) = use_of s.world in (value_of attempt, record s { world = w })

  -- a use of the outside whose exceptions go on
  unfoldable pub raising_use : (W → Result A × W) → Probe W A
  raising_use use_of s = let (r, w) = use_of s.world in (r, record s { world = w })

  -- what can be read off the outside, such as the time
  unfoldable pub observe : (W → A) → Probe W A
  observe read s = (ok (read s.world), s)

module _ {W A B : Type 0} where
  abbrev pub continue : (A → Probe W B) → Result A × Session W → Result B × Session W
  continue next (ok a, s) = next a s
  continue next (err e, s) = (err e, s)

  infixl 5 ◌>>=◌
  -- opening this opens `pure`, `raise`, `outside` and `observe`, too
  unfoldable pub ◌>>=◌ : Probe W A → (A → Probe W B) → Probe W B
  unfolding pure raise outside raising_use observe socket_use
  ◌>>=◌ m next s = continue next (m s)

  -- `try: m except CapabilityDenied as exc: denied(str(exc))`, and `granted` where nothing is raised
  abbrev pub settle_request :
      (String → Probe W B) → (A → Probe W B) → Result A × Session W → Result B × Session W
  settle_request denied granted (ok a, s) = granted a s
  settle_request denied granted (err (capability_denied reason), s) = denied reason s
  settle_request denied granted (err e, s) = (err e, s)

  unfoldable pub try_request : Probe W A → (String → Probe W B) → (A → Probe W B) → Probe W B
  unfolding ◌>>=◌
  try_request m denied granted s = settle_request denied granted (m s)

-- `max_probes is not None and self._probe_count >= max_probes`
abbrev pub limit_reached : Option ℕ → ℕ → Bool
limit_reached none count = false
limit_reached (some limit) count = leb limit count

unfoldable pub count_probe :
    {W : Type 0} → Result (Unit {0}) → Session W → Result (Unit {0}) × Session W
count_probe (err e) s = (err e, s)
count_probe (ok _) s =
    if limit_reached s.capabilities.network.max_probes s.probe_count
    then (err (capability_denied "Network probe limit has been reached."), s)
    else (ok tt, record s { probe_count = suc s.probe_count })

-- `_require_network`
unfoldable pub request :
    {W : Type 0} → IpAddresses → String → String → Option ℕ → Probe W (Unit {0})
unfolding count_probe
request ip operation target port s =
    let (outcome, capabilities) = require_network decimal ip operation target port s.capabilities in
    count_probe outcome (record s { capabilities = capabilities })

-- `max(1, math.ceil(timeout_seconds))`
unfoldable pub probe_timeout : ℤ → ℕ
probe_timeout (negsuc n) = 1
probe_timeout (pos n) = let seconds = (n + 999999) / 1000000 in if leb seconds 1 then 1 else seconds
