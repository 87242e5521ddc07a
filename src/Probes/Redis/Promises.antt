-- ===== src/Probes/Redis/Promises.antt =====
-- What the Redis provider always reports, and what becomes of a password.
use evidence_tool.Base.{
  ℕ, String, ◌≡◌, refl, ◌∙◌, Bool, true, ◌&&◌, ◌||◌, List, [], ◌∷◌, ◌++◌, arith, any, has_infix,
  ◌==◌, string_dec, Result, ok, err, Error, Yields, Bool-cases, inl, inr,
}
use evidence_tool.Models.Value.{Float}
use evidence_tool.Models.Observation.{Observation}
use evidence_tool.Probes.System.{Outside, Attempt, done, failed}
use evidence_tool.Probes.Session.{Session, Probe, pure, ◌>>=◌}
use evidence_tool.Probes.Session.Rules.{Triple, Anywhere, Triple-pure, Triple-bind, Triple-read}
use evidence_tool.Probes.Redis.{Settings}
use evidence_tool.Probes.Redis.Local.{
  exchange, ping_findings, probe_ping, is_ping, session_error, attempt, close_session, recover,
  after_ping, after_auth, run_session, execute_redis_local,
}

abbrev HasPing : List Observation → Type 0
HasPing found = any is_ping found ≡ true

any-append :
    (p : Observation → Bool) (xs ys : List Observation) → any p (xs ++ ys) ≡ (any p xs || any p ys)
any-append p [] ys = refl
any-append p (x ∷ xs) ys = ground (arith, any-append p xs ys)

HasPing-left : (xs ys : List Observation) → HasPing xs → HasPing (xs ++ ys)
HasPing-left xs ys h = any-append is_ping xs ys ∙ ground arith

HasPing-right : (xs ys : List Observation) → HasPing ys → HasPing (xs ++ ys)
HasPing-right xs ys h = any-append is_ping xs ys ∙ ground arith

-- An answer with an observation of `redis.ping`, and no exception.
abbrev pub Pinged : Result (List Observation) → Type 0
Pinged (ok found) = any is_ping found ≡ true
Pinged (err e) = ⊥

module _ {W A : Type 0} where
  anything : (m : Probe W A) → Triple Anywhere (λ _. Unit {0}) m
  anything m = record { at = λ s h. (tt, yes_or_no (m s).0) }
    where
      yes_or_no : (r : Result A) → Yields (λ _. Unit {0}) r
      yes_or_no (ok a) = tt
      yes_or_no (err e) = tt

module _ (o : Outside) where
  ping_findings-HasPing :
      (now : ℕ) (latency : Float) (reply : String × String)
      → HasPing (ping_findings o now latency reply).1
  unfolding ping_findings string_dec
  ping_findings-HasPing now latency (kind, reply) =
      elim (Bool-cases (kind == "+" && reply == "PONG")) [
        | inl pong ↦ rw pong refl
        | inr other ↦ elim (Bool-cases (has_infix reply "NOAUTH")) [
          | inl refused ↦ rw (other, refused) refl
          | inr failed_ping ↦ rw (other, failed_ping) refl
        ]
      ]

  probe_ping-HasPing :
      (x : Settings)
      → Triple Anywhere (λ (a : Bool × List Observation). HasPing a.1) (probe_ping o x)
  unfolding probe_ping
  probe_ping-HasPing x = Triple-read _ _ _ λ t0.
      Triple-bind (λ _. Unit {0}) _ _ _ (anything (exchange o ("PING" ∷ [])))
        λ reply _. Triple-read _ _ _ λ t1.
          Triple-bind (λ _. Unit {0}) _ _ _ (anything _)
            λ slow _. Triple-pure _ (HasPing-left _ _ (ping_findings-HasPing t1 _ reply))

  session_error-Pinged :
      (found : List Observation) (e : Error) (s : Session o.World)
      → Pinged (session_error o found e s).0
  unfolding session_error ◌>>=◌ string_dec
  session_error-Pinged found e s = elim (Bool-cases (any is_ping found)) [
    | inl pinged ↦ rw pinged pinged
    | inr not_yet ↦ rw not_yet (HasPing-right found _ refl)
  ]

  attempt-Pinged :
      {A : Type 0} (Q : A → Type 0) (found : List Observation) (m : Probe o.World A)
      (next : A → Probe o.World (List Observation)) (s : Session o.World)
      → Triple Anywhere Q m
      → ((a : A) (s' : Session o.World) → Q a → Pinged (next a s').0)
      → Pinged (attempt o found m next s).0
  unfolding attempt
  attempt-Pinged Q found m next s t k = settle_attempt (m s) ((t.at s tt).1)
    where
      settle_attempt :
          (r : Result _ × Session o.World) → Yields Q r.0 → Pinged (recover o found next r).0
      settle_attempt (ok a, s') q = k a s' q
      settle_attempt (err e, s') q = session_error-Pinged found e s'

  close-Pinged :
      (found : List Observation) (s : Session o.World)
      → HasPing found
      → Pinged (close_session o found s).0
  unfolding close_session pure
  close-Pinged found s h = attempt-Pinged (λ _. Unit {0}) found _ _ s (anything _) λ a s' _. h

  after_ping-Pinged :
      (x : Settings) (auth_ok : Bool) (found : List Observation) (answer : Bool × List Observation)
      (s : Session o.World)
      → HasPing answer.1
      → Pinged (after_ping o x auth_ok found answer s).0
  unfolding after_ping
  after_ping-Pinged x auth_ok found (ping_ok, pinged) s h = elim (Bool-cases (auth_ok && ping_ok)) [
    | inl both ↦ rw both (
        attempt-Pinged (λ _. Unit {0}) (found ++ pinged) _ _ s (anything _)
          λ more s' _. close-Pinged _ s' (HasPing-left _ more (HasPing-right found pinged h)))
    | inr refused ↦ rw refused (close-Pinged _ s (HasPing-right found pinged h))
  ]

  run_session-Pinged :
      (x : Settings) (connected : Attempt (Unit {0})) (s : Session o.World)
      → Pinged (run_session o x connected s).0
  unfolding run_session after_auth ◌>>=◌ string_dec
  run_session-Pinged x (failed e) s = refl
  run_session-Pinged x (done u) s =
      attempt-Pinged (λ _. Unit {0}) [] _ _ s (anything _)
        λ (auth_ok, found) s' _.
          attempt-Pinged (λ (a : Bool × List Observation). HasPing a.1) found _ _ s'
            (probe_ping-HasPing x) λ answer s'' h. after_ping-Pinged x auth_ok found answer s'' h

  -- Whatever the server and the network do, the local probes raise nothing and report `redis.ping`.
  pub execute_redis_local-Pinged :
      (x : Settings) (timeout : ℕ) (s : Session o.World)
      → Pinged (execute_redis_local o x timeout s).0
  unfolding execute_redis_local ◌>>=◌
  execute_redis_local-Pinged x timeout s = run_session-Pinged x _ _
