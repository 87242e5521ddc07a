-- ===== src/Probes/Redis/Secrets.antt =====
-- What a remote run does with a password, and how the local probes report a refused one.
use mathlib.Core.Path.{fun_ext}
use evidence_tool.Base.{
  ℕ, String, ◌≡◌, refl, sym, ap, ◌∙◌, true, false, some, List, [], ◌∷◌, ◌++◌, any, nonempty,
  has_infix, ◌==◌, string_dec, Result, ok, err, Yields, ◌<>◌, if◌then◌else◌,
}
use evidence_tool.Models.Observation.{Observation}
use evidence_tool.Capability.{IpAddresses}
use evidence_tool.Diagnose.Collect.{ids_of}
use evidence_tool.Probes.System.{Outside, done}
use evidence_tool.Probes.Session.{Session, Probe, pure, socket_use, ◌>>=◌, try_request, request}
use evidence_tool.Models.Value.{text}
use evidence_tool.Probes.Redis.{Settings, failure}
use evidence_tool.Probes.Redis.Local.{
  exchange, auth_command, auth_answer, probe_auth, ping_findings, probe_ping, is_ping,
  session_error, attempt, close_session, after_ping, after_auth, run_session, execute_redis_local,
  seen, recover, auth_failure, latency_finding,
}
use evidence_tool.Probes.Redis.Remote.{execute_redis_remote, remote_auth_required}
use evidence_tool.Probes.Redis.Collect.{
  check_reachable, execute_redis_probes, run_probes, has_passed, unknown_observation, reach,
  remote_reach, reach_answer,
}

module _ (o : Outside) (ip : IpAddresses) (x : Settings) (host : String)
    (remote : nonempty host ≡ true) where
  abbrev with_password : String → Settings
  with_password p = record x { password = p }

  -- what becomes of a request for the probes, where the password stays here
  abbrev asked : Probe o.World (List Observation)
  asked =
      try_request (request ip "redis_ping" x.target_host (some x.port))
        (λ reason.
          unknown_observation o "redis.ping" "redis_ping" x.target_host "redis_ping" host reason
          >>= λ found. pure (found ∷ []))
        (λ granted. remote_auth_required o x.target_host x.port host)

  chosen :
      (p : String) (timeout : ℕ)
      → nonempty p ≡ true
      → (if nonempty host
          then execute_redis_remote o x.target_host x.port host p timeout
          else execute_redis_local o (with_password p) timeout)
        ≡ remote_auth_required o x.target_host x.port host
  unfolding execute_redis_remote
  chosen p timeout some_p = rw (remote, some_p) refl

  probes_lem :
      (p : String) (s : Session o.World)
      → nonempty p ≡ true
      → execute_redis_probes o ip (with_password p) host s ≡ asked s
  unfolding execute_redis_probes
  probes_lem p s some_p =
      ap
        (λ (m : Probe o.World (List Observation)).
          try_request (request ip "redis_ping" x.target_host (some x.port))
            (λ reason.
              unknown_observation o "redis.ping" "redis_ping" x.target_host "redis_ping" host reason
              >>= λ found. pure (found ∷ []))
            (λ granted. m) s)
        (chosen p _ some_p)

  run_lem :
      (p : String) (s : Session o.World)
      → nonempty p ≡ true
      → run_probes o ip (with_password p) host s
        ≡ (check_reachable o ip x host >>= λ reached.
              if has_passed o ip reached.value
              then (asked >>= λ probes. pure (reached ∷ probes))
              else pure (reached ∷ []))
            s
  unfolding run_probes check_reachable reach remote_reach reach_answer
  run_lem p s some_p =
      ap
        (λ (m : Probe o.World (List Observation)).
          (check_reachable o ip x host >>= λ reached.
          if has_passed o ip reached.value
          then (m >>= λ probes. pure (reached ∷ probes))
          else pure (reached ∷ []))
            s)
        (fun_ext λ s'. probes_lem p s' some_p)

  -- The probes that are run over SSH for a password are the same for any other one, neither of them
  -- empty, and do the same to the outside, so no password reaches the command line of a process.
  pub run_probes-password :
      (p q : String) (s : Session o.World)
      → nonempty p ≡ true
      → nonempty q ≡ true
      → run_probes o ip (record x { password = p }) host s
        ≡ run_probes o ip (record x { password = q }) host s
  run_probes-password p q s some_p some_q = run_lem p s some_p ∙ sym (run_lem q s some_q)

-- What a run observes where a password is refused.
abbrev pub twice : List String
twice = "redis.auth" ∷ "redis.auth" ∷ "redis.ping" ∷ "redis.latency_ms" ∷ []

module _ (o : Outside) where
  abbrev refused_auth : Session o.World → String → Observation
  refused_auth s reply = seen (o.now s.world) "redis.auth" "AUTH" (
    failure (auth_failure o reply) (("error", text reply) ∷ []),
    "Redis authentication failed: " <> reply,
  )

  auth_step :
      (x : Settings) (kind reply : String) (s s' : Session o.World)
      → nonempty x.password ≡ true
      → exchange o (auth_command o x) s ≡ (ok (kind, reply), s')
      → (kind == "+") ≡ false
      → probe_auth o x s ≡ (ok (false, refused_auth s' reply ∷ []), s')
  unfolding probe_auth auth_answer ◌>>=◌
  auth_step x kind reply s s' some_password auth bad = rw some_password (rw auth (rw bad refl))

  abbrev slow_ping : Settings → (s s' : Session o.World) → Observation
  slow_ping x s s' =
      seen (o.now s'.world) "redis.latency_ms" "PING_LATENCY"
        (latency_finding o (o.floats.latency (o.now s.world) (o.now s'.world)) x.max_latency_ms)

  abbrev refused_ping : Session o.World → String → List Observation
  refused_ping s reply =
      seen (o.now s.world) "redis.auth" "AUTH"
        (failure "NOAUTH" [], "Authentication required (NOAUTH)")
      ∷ seen (o.now s.world) "redis.ping" "PING" (
        failure "NOAUTH" (("error", text reply) ∷ []),
        "Redis PING rejected: Authentication required (NOAUTH)",
      )
      ∷ []

  ping_step :
      (x : Settings) (kind reply : String) (s s' : Session o.World)
      → exchange o ("PING" ∷ []) s ≡ (ok (kind, reply), s')
      → (kind == "+") ≡ false
      → has_infix reply "NOAUTH" ≡ true
      → probe_ping o x s ≡ (ok (false, refused_ping s' reply ++ slow_ping x s s' ∷ []), s')
  unfolding probe_ping ping_findings ◌>>=◌
  ping_step x kind reply s s' ping no_pong asks = rw ping (rw (no_pong, asks) refl)

  close_step :
      (found : List Observation) (s : Session o.World)
      → any is_ping found ≡ true
      → (close_session o found s).0 ≡ ok found
  unfolding close_session attempt
  close_step found s pinged = closed_by (socket_use o.close s)
    where
      closed_by :
          (r : Result (Unit {0}) × Session o.World)
          → (recover o found (λ closed. pure found) r).0 ≡ ok found
      closed_by (ok u, s') = unfold pure in refl
      closed_by (err e, s') = unfold session_error pure in rw pinged refl

  -- Where a password is set, and the server answers AUTH by a reply of another type than `+` and then
  -- PING by such a reply that holds NOAUTH, the local probes report `redis.auth` twice.
  pub run_session-twice :
      (x : Settings) (kind reply kind' reply' : String) (s s' s'' : Session o.World)
      → nonempty x.password ≡ true
      → exchange o (auth_command o x) s ≡ (ok (kind, reply), s')
      → (kind == "+") ≡ false
      → exchange o ("PING" ∷ []) s' ≡ (ok (kind', reply'), s'')
      → (kind' == "+") ≡ false
      → has_infix reply' "NOAUTH" ≡ true
      → Yields (λ (found : List Observation). ids_of found ≡ twice) (run_session o x (done tt) s).0
  unfolding run_session after_auth after_ping attempt string_dec
  run_session-twice x kind reply kind' reply' s s' s'' some_password auth bad ping no_pong asks =
      let found = refused_auth s' reply ∷ (refused_ping s'' reply' ++ slow_ping x s' s'' ∷ []) in
      rw (auth_step x kind reply s s' some_password auth bad) (
        rw (ping_step x kind' reply' s' s'' ping no_pong asks)
          (rw (close_step found s'' refl) refl))
