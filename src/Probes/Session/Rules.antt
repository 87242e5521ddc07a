-- ===== src/Probes/Session/Rules.antt =====
-- What a probe keeps and what it gives, one rule for each way to build a probe.
use evidence_tool.Base.{
  ℕ, ◌≤◌, String, Bool, true, false, Option, some, ◌≡◌, refl, if◌then◌else◌, Result, ok, err, Error,
  capability_denied, value_error, type_error, os_error, Yields, arith,
}
use evidence_tool.Base.Decimal.{decimal}
use evidence_tool.Capability.{
  IpAddresses, CapabilitySet, require_network, count_and, record_probe, check_network,
}
use evidence_tool.Probes.Session.{
  Session, Probe, pure, raise, outside, raising_use, observe, ◌>>=◌, continue, settle_request,
  try_request, request, count_probe,
}

-- Where `I` holds before the probe it holds after it, raised or not, and a value satisfies `Q`.
pub record Triple {W A : Type 0} (I : Session W → Type 0) (Q : A → Type 0) (m : Probe W A)
    : Type 0 where
  pub at : (s : Session W) → I s → I (m s).1 × Yields Q (m s).0

-- `I` says nothing of the outside.
abbrev pub Lax : {W : Type 0} → (Session W → Type 0) → Type 0
Lax {W} I = (s : Session W) (w : W) → I s → I (record s { world = w })

Yields-anything : {A : Type 0} → (r : Result A) → Yields (λ _. Unit {0}) r
Yields-anything (ok a) = tt
Yields-anything (err e) = tt

module _ {W A : Type 0} {I : Session W → Type 0} where
  pub Triple-raising :
      (use_of : W → Result A × W) → Lax I → Triple I (λ _. Unit {0}) (raising_use use_of)
  unfolding raising_use
  Triple-raising use_of lax = record {
    at = λ s h. (lax s (use_of s.world).1 h, Yields-anything (use_of s.world).0);
  }

module _ {W A : Type 0} {I : Session W → Type 0} {Q : A → Type 0} where
  pub Triple-pure : (a : A) → Q a → Triple I Q (pure a)
  unfolding pure
  Triple-pure a q = record { at = λ s h. (h, q) }

  pub Triple-raise : (e : Error) → Triple I Q (raise e)
  unfolding raise
  Triple-raise e = record { at = λ s h. (h, tt) }

  pub Triple-observe : (read : W → A) → ((w : W) → Q (read w)) → Triple I Q (observe read)
  unfolding observe
  Triple-observe read q = record { at = λ s h. (h, q s.world) }

  pub Triple-outside :
      (use_of : W → A × W) → Lax I → ((w : W) → Q (use_of w).0) → Triple I Q (outside use_of)
  unfolding outside
  Triple-outside use_of lax q = record { at = λ s h. (lax s (use_of s.world).1 h, q s.world) }

  -- a probe that reads its session
  pub Triple-with :
      (body : Session W → Probe W A)
      → ((s : Session W) → Triple I Q (body s))
      → Triple I Q (λ s. body s s)
  Triple-with body k = record { at = λ s h. (k s).at s h }

  pub Triple-if :
      (b : Bool) (m n : Probe W A)
      → (b ≡ true → Triple I Q m)
      → (b ≡ false → Triple I Q n)
      → Triple I Q (if b then m else n)
  Triple-if true m n km kn = km refl
  Triple-if false m n km kn = kn refl

module _ {W A B : Type 0} {I : Session W → Type 0} where
  continue-keeps :
      (P : A → Type 0) (Q : B → Type 0) (next : A → Probe W B) (r : Result A × Session W)
      → I r.1 × Yields P r.0
      → ((a : A) → P a → Triple I Q (next a))
      → I (continue next r).1 × Yields Q (continue next r).0
  continue-keeps P Q next (ok a, s) h k = (k a h.1).at s h.0
  continue-keeps P Q next (err e, s) h k = (h.0, tt)

  pub Triple-bind :
      (P : A → Type 0) (Q : B → Type 0) (m : Probe W A) (next : A → Probe W B)
      → Triple I P m
      → ((a : A) → P a → Triple I Q (next a))
      → Triple I Q (m >>= next)
  unfolding ◌>>=◌
  Triple-bind P Q m next km kn = record { at = λ s h. continue-keeps P Q next (m s) (km.at s h) kn }

  -- a use of the outside, and the rest for whatever came of it
  pub Triple-use :
      (Q : B → Type 0) (use_of : W → A × W) (next : A → Probe W B)
      → Lax I
      → ((a : A) → Triple I Q (next a))
      → Triple I Q (outside use_of >>= next)
  Triple-use Q use_of next lax k =
      Triple-bind (λ _. Unit {0}) Q (outside use_of) next (Triple-outside use_of lax (λ w. tt))
        (λ a _. k a)

  -- a use of the outside that may raise, and the rest for whatever value came of it
  pub Triple-attempt :
      (Q : B → Type 0) (use_of : W → Result A × W) (next : A → Probe W B)
      → Lax I
      → ((a : A) → Triple I Q (next a))
      → Triple I Q (raising_use use_of >>= next)
  Triple-attempt Q use_of next lax k =
      Triple-bind (λ _. Unit {0}) Q (raising_use use_of) next (Triple-raising use_of lax)
        (λ a _. k a)

  -- a look at the outside, and the rest for whatever was seen
  pub Triple-read :
      (Q : B → Type 0) (read : W → A) (next : A → Probe W B)
      → ((a : A) → Triple I Q (next a))
      → Triple I Q (observe read >>= next)
  Triple-read Q read next k =
      Triple-bind (λ _. Unit {0}) Q (observe read) next (Triple-observe read (λ w. tt)) (λ a _. k a)

  settle-keeps :
      (P : A → Type 0) (Q : B → Type 0) (denied : String → Probe W B) (granted : A → Probe W B)
      (r : Result A × Session W)
      → I r.1 × Yields P r.0
      → ((reason : String) → Triple I Q (denied reason))
      → ((a : A) → P a → Triple I Q (granted a))
      → I (settle_request denied granted r).1 × Yields Q (settle_request denied granted r).0
  settle-keeps P Q denied granted (ok a, s) h kd kg = (kg a h.1).at s h.0
  settle-keeps P Q denied granted (err (capability_denied reason), s) h kd kg = (kd reason).at s h.0
  settle-keeps P Q denied granted (err (value_error t), s) h kd kg = (h.0, tt)
  settle-keeps P Q denied granted (err (type_error t), s) h kd kg = (h.0, tt)
  settle-keeps P Q denied granted (err (os_error t), s) h kd kg = (h.0, tt)

  -- a request, then one of two ways
  pub Triple-try :
      (P : A → Type 0) (Q : B → Type 0) (m : Probe W A) (denied : String → Probe W B)
      (granted : A → Probe W B)
      → Triple I P m
      → ((reason : String) → Triple I Q (denied reason))
      → ((a : A) → P a → Triple I Q (granted a))
      → Triple I Q (try_request m denied granted)
  unfolding try_request
  Triple-try P Q m denied granted km kd kg = record {
    at = λ s h. settle-keeps P Q denied granted (m s) (km.at s h) kd kg;
  }

-- Nothing is asked of the session.
abbrev pub Anywhere : {W : Type 0} → Session W → Type 0
Anywhere s = Unit

-- The outside is as it was, and the network capability is off.
abbrev pub Untouched : {W : Type 0} → W → Session W → Type 0
Untouched w s = (s.world ≡ w) × (s.capabilities.network.enabled ≡ false)

-- No more probes are counted than the network capability allows.
abbrev pub Limited : {W : Type 0} → ℕ → Session W → Type 0
Limited limit s = (s.capabilities.network.max_probes ≡ some limit) × (s.probe_count ≤ limit)

module _ (ip : IpAddresses) (operation target : String) (port : Option ℕ) where
  require_network-network :
      (c : CapabilitySet)
      → (require_network decimal ip operation target port c).1.network ≡ c.network
  unfolding require_network count_and record_probe
  require_network-network c = ground arith

  -- what an answer of `require_network` may be where the capability is off
  abbrev IsDenied : Result (Unit {0}) → Type 0
  IsDenied (err (capability_denied reason)) = Unit
  IsDenied _ = ⊥

  require_network-off :
      (c : CapabilitySet)
      → c.network.enabled ≡ false
      → IsDenied (require_network decimal ip operation target port c).0
  unfolding require_network count_and record_probe check_network
  require_network-off c off = ground arith

  module _ {W : Type 0} where
    pub request-Anywhere :
        Triple {W = W} Anywhere (λ _. Unit {0}) (request ip operation target port)
    request-Anywhere = record { at = λ s h. (tt, Yields-anything _) }

    count_probe-IsDenied :
        (w : W) (r : Result (Unit {0})) (s : Session W)
        → IsDenied r
        → Untouched w s
        → Untouched w (count_probe r s).1 × Yields (λ _. ⊥) (count_probe r s).0
    unfolding count_probe
    count_probe-IsDenied w (err e) s d h = (h, tt)
    count_probe-IsDenied w (ok _) s d h = absurd d

    -- With the capability off nothing is granted.
    pub request-Untouched :
        (w : W) → Triple (Untouched w) (λ _. ⊥) (request ip operation target port)
    unfolding request
    request-Untouched w = record {
      at = λ s h.
          count_probe-IsDenied w _ _ (require_network-off s.capabilities h.1)
            (h.0, rw (require_network-network s.capabilities) h.1);
    }

    count_probe-Limited :
        (limit : ℕ) (r : Result (Unit {0})) (s : Session W)
        → Limited limit s
        → Limited limit (count_probe r s).1
    unfolding count_probe
    count_probe-Limited limit (err e) s h = h
    count_probe-Limited limit (ok _) s h = ground arith

    -- A probe is counted only below the limit.
    pub request-Limited :
        (limit : ℕ)
        → Triple {W = W} (Limited limit) (λ _. Unit {0}) (request ip operation target port)
    unfolding request
    request-Limited limit = record {
      at = λ s h. (
        count_probe-Limited limit
            (require_network decimal ip operation target port s.capabilities).0
            (record s {
              capabilities = (require_network decimal ip operation target port s.capabilities).1;
            })
            (rw (require_network-network s.capabilities) h.0, h.1),
        Yields-anything _,
      );
    }
