-- ===== src/Probes/Redis/Local.antt =====
-- providers/redis.py: the probes over a connection of our own.
use evidence_tool.Base.{
  ℕ, String, ◌<>◌, ◌==◌, Bool, true, false, ◌&&◌, ◌||◌, none, List, [], ◌∷◌, ◌++◌, if◌then◌else◌,
  nonempty, any, has_infix, Result, ok, err, Error,
}
use evidence_tool.Base.Dict.{lookup}
use evidence_tool.Models.Value.{Value, Float, text, float}
use evidence_tool.Models.Observation.{Observation}
use evidence_tool.Diagnose.Collect.{error_text}
use evidence_tool.Probes.System.{Outside, Attempt, done, failed, socket_text}
use evidence_tool.Probes.Session.{Session, Probe, pure, raise, outside, socket_use, observe, ◌>>=◌}
use evidence_tool.Probes.Redis.{
  Settings, with_status, failure, plain_observation, parse_info, memory_entry, info_or,
  memory_finding, role_finding,
}
use evidence_tool.Probes.Redis.Resp.{encode_resp_command, read_resp_response}

-- an observation of the local session
abbrev pub seen : ℕ → String → String → Value × String → Observation
seen now id method (value, message) = plain_observation now none none none id method value message

abbrev pub is_ping : Observation → Bool
is_ping found = found.id == "redis.ping"

module _ (o : Outside) where
  abbrev pub note : String → String → Value × String → Probe o.World Observation
  note id method finding = observe λ w. seen (o.now w) id method finding

  -- a command and the reply to it
  unfoldable pub exchange : List String → Probe o.World (String × String)
  exchange args = do sent ← socket_use (o.send (encode_resp_command args)); read_resp_response o

  abbrev pub auth_failure : String → String
  auth_failure reply =
      if has_infix reply "WRONGPASS" || has_infix reply "invalid password"
      then "WRONGPASS"
      else "AUTH_FAILED"

  unfoldable pub auth_answer : String × String → Probe o.World (Bool × List Observation)
  auth_answer (kind, reply) =
      if kind == "+"
      then (do
        found ← note "redis.auth" "AUTH" (with_status "PASS" [], "Redis authentication succeeded")
        pure (true, found ∷ []))
      else (do
        found ← note "redis.auth" "AUTH" (
          failure (auth_failure reply) (("error", text reply) ∷ []),
          "Redis authentication failed: " <> reply,
        )
        pure (false, found ∷ []))

  abbrev pub auth_command : Settings → List String
  auth_command x =
      if nonempty x.username
      then "AUTH" ∷ x.username ∷ x.password ∷ []
      else "AUTH" ∷ x.password ∷ []

  -- `_probe_auth`; the list holds the observation if there is one
  unfoldable pub probe_auth : Settings → Probe o.World (Bool × List Observation)
  probe_auth x =
      if nonempty x.password
      then (do reply ← exchange (auth_command x); auth_answer reply)
      else pure (true, [])

  -- the observations that the reply to PING makes, before the one of the latency
  unfoldable pub ping_findings : ℕ → Float → String × String → Bool × List Observation
  ping_findings now latency (kind, reply) =
      if kind == "+" && reply == "PONG"
      then (
        true,
        seen now "redis.ping" "PING" (
          with_status "PASS" (("latency_ms", float latency) ∷ []),
          "Redis PING succeeded (PONG, " <> (o.floats.show_float latency <> "ms)"),
        )
            ∷ [],
      )
      else if has_infix reply "NOAUTH"
      then (
        false,
        seen now "redis.auth" "AUTH" (failure "NOAUTH" [], "Authentication required (NOAUTH)")
            ∷ seen now "redis.ping" "PING" (
              failure "NOAUTH" (("error", text reply) ∷ []),
              "Redis PING rejected: Authentication required (NOAUTH)",
            )
            ∷ [],
      )
      else (
        false,
        seen now "redis.ping" "PING"
              (failure "PING_FAILED" (("error", text reply) ∷ []), "Redis PING failed: " <> reply)
            ∷ [],
      )

  unfoldable pub latency_finding : Float → Float → Value × String
  latency_finding latency max = (
    with_status (if o.floats.greater latency max then "FAIL" else "PASS")
        (("latency_ms", float latency) ∷ ("threshold_ms", float max) ∷ []),
    "Redis latency is "
        <> (o.floats.show_float latency
            <> ("ms (threshold: " <> (o.floats.show_float max <> "ms)"))),
  )

  -- `_probe_ping`
  unfoldable pub probe_ping : Settings → Probe o.World (Bool × List Observation)
  probe_ping x = do
    t0 ← observe o.now
    reply ← exchange ("PING" ∷ [])
    t1 ← observe o.now
    let latency = o.floats.latency t0 t1
    let answer = ping_findings t1 latency reply
    slow ← note "redis.latency_ms" "PING_LATENCY" (latency_finding latency x.max_latency_ms)
    pure (answer.0, answer.1 ++ slow ∷ [])

  abbrev of_result : {A : Type 0} → Result A → Probe o.World A
  of_result (ok a) = pure a
  of_result (err e) = raise e

  -- `_probe_info`
  unfoldable pub probe_info : Settings → Probe o.World (List Observation)
  probe_info x = do
    reply ← exchange ("INFO" ∷ [])
    let info = parse_info reply.1
    used ← of_result (memory_entry "used_memory" (lookup "used_memory" info))
    max ← of_result (memory_entry "maxmemory" (lookup "maxmemory" info))
    memory ←
        note "redis.memory_pressure" "INFO memory"
          (memory_finding o.floats x.max_mem_ratio used max)
    let actual = info_or "master" (lookup "role" info)
    let link = info_or "up" (lookup "master_link_status" info)
    role ← note "redis.role" "INFO replication" (role_finding x.expected_role actual link)
    pure (memory ∷ role ∷ [])

  -- `except Exception as e`: what was observed before stays
  unfoldable pub session_error : List Observation → Error → Probe o.World (List Observation)
  session_error observations e = if any is_ping observations then pure observations else (do
    found ← note "redis.ping" "RESP_SESSION" (
      failure "SESSION_ERROR" (("error", text (error_text e)) ∷ []),
      "Redis session error: " <> error_text e,
    )
    pure (observations ++ found ∷ []))

  abbrev pub recover :
      {A : Type 0}
      → List Observation
      → (A → Probe o.World (List Observation))
      → Result A × Session o.World
      → Result (List Observation) × Session o.World
  recover observations next (ok a, s) = next a s
  recover observations next (err e, s) = session_error observations e s

  -- a step of the `try` block, and the rest of the block
  unfoldable pub attempt :
      {A : Type 0}
      → List Observation
      → Probe o.World A
      → (A → Probe o.World (List Observation))
      → Probe o.World (List Observation)
  attempt observations m next s = recover observations next (m s)

  unfoldable pub close_session : List Observation → Probe o.World (List Observation)
  close_session observations =
      attempt observations (socket_use o.close) (λ closed. pure observations)

  unfoldable pub after_ping :
      Settings
      → Bool
      → List Observation
      → Bool × List Observation
      → Probe o.World (List Observation)
  after_ping x auth_ok observations (ping_ok, found) =
      if auth_ok && ping_ok
      then attempt (observations ++ found) (probe_info x)
          (λ more. close_session ((observations ++ found) ++ more))
      else close_session (observations ++ found)

  unfoldable pub after_auth : Settings → Bool × List Observation → Probe o.World (List Observation)
  after_auth x (auth_ok, found) = attempt found (probe_ping x) (after_ping x auth_ok found)

  unfoldable pub run_session : Settings → Attempt (Unit {0}) → Probe o.World (List Observation)
  run_session x (failed e) = do
    found ← note "redis.ping" "PING" (
      failure "CONNECT_FAILED" (("error", text (socket_text e)) ∷ []),
      "Could not connect to Redis: " <> socket_text e,
    )
    pure (found ∷ [])
  run_session x (done _) = attempt [] (probe_auth x) (after_auth x)

  -- `_execute_redis_local`
  unfoldable pub execute_redis_local : Settings → ℕ → Probe o.World (List Observation)
  execute_redis_local x timeout = do
    connected ← outside (o.open_socket x.target_host x.port timeout)
    run_session x connected
