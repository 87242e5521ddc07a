-- ===== src/Probes/Redis/Remote.antt =====
-- providers/redis.py: the probes over SSH, by redis-cli.
use evidence_tool.Base.{
  ℕ, ◌+◌, String, ◌<>◌, not, ◌&&◌, ◌||◌, none, some, List, [], ◌∷◌, ◌++◌, if◌then◌else◌, nonempty,
  has_infix, Result, ok, err,
}
use evidence_tool.Base.Dict.{Dict, lookup}
use evidence_tool.Base.Int.{ℤ}
use evidence_tool.Base.Decimal.{decimal, strip}
use evidence_tool.Models.Value.{Value, text, float}
use evidence_tool.Models.Observation.{Observation}
use evidence_tool.Probes.System.{Outside}
use evidence_tool.Probes.Session.{Probe, pure, raise, raising_use, observe, ◌>>=◌}
use evidence_tool.Probes.Shell.{CommandResult, whole, succeeded, run_command}
use evidence_tool.Probes.Context.{or_text}
use evidence_tool.Probes.Redis.{
  with_status, failure, plain_observation, parse_info, memory_entry, info_or,
}

module _ (o : Outside) (target_host : String) (port : ℕ) (host : String) where
  -- `_remote_observation`
  abbrev pub remote_seen : ℕ → String → String → Value × String → Observation
  remote_seen now id method (value, message) =
      plain_observation now (some host) (some "remote") (some "executed") id method value message

  abbrev pub remote_note : String → String → Value × String → Probe o.World Observation
  remote_note id method finding = observe λ w. remote_seen (o.now w) id method finding

  abbrev unknown_because : String → Value
  unknown_because kind = with_status "UNKNOWN" (("failure", text kind) ∷ [])

  abbrev no_secret : String
  no_secret =
      "Remote Redis probes requiring authentication are unavailable without exposing the password in a command argument"

  -- `_remote_auth_required_observations`
  unfoldable pub remote_auth_required : Probe o.World (List Observation)
  remote_auth_required = observe λ w.
      remote_seen (o.now w) "redis.auth" "AUTH"
        (unknown_because "SECURE_AUTH_UNAVAILABLE", no_secret)
      ∷ remote_seen (o.now w) "redis.ping" "PING" (unknown_because "AUTH_REQUIRED", no_secret)
      ∷ remote_seen (o.now w) "redis.latency_ms" "PING_LATENCY"
          (with_status "UNKNOWN" [], no_secret)
      ∷ remote_seen (o.now w) "redis.memory_pressure" "INFO memory"
          (unknown_because "AUTH_REQUIRED", no_secret)
      ∷ remote_seen (o.now w) "redis.role" "INFO replication"
          (unknown_because "AUTH_REQUIRED", no_secret)
      ∷ []

  abbrev or_error : CommandResult → String
  or_error res = or_text (elim res.error [ none ↦ "" | some e ↦ e ]) "remote command failed"

  abbrev ping_problem : CommandResult → String
  ping_problem res = or_text (strip res.stderr) (or_text (strip res.stdout) (or_error res))

  unfoldable pub remote_ping : CommandResult → Value × String
  remote_ping res =
      if res.ran && succeeded res && has_infix res.stdout "PONG"
      then (
        with_status "PASS" (("response", text (strip res.stdout)) ∷ []),
        "Redis PING succeeded over SSH (" <> (strip res.stdout <> ")"),
      )
      else if not res.ran
      then (
        unknown_because "PROBE_ERROR",
        "Could not execute remote Redis PING: " <> ping_problem res,
      )
      else (
        failure "PING_FAILED" (("error", text (ping_problem res)) ∷ []),
        "Redis PING failed over SSH: " <> ping_problem res,
      )

  abbrev sizes : ℤ → ℤ → Dict Value
  sizes used max =
      ("used_memory_mb", float (o.floats.megabytes used))
      ∷ ("maxmemory_mb", float (o.floats.megabytes max))
      ∷ []

  abbrev memory_of : Result ℤ → Result ℤ → Probe o.World (Value × String)
  memory_of (ok used) (ok max) =
      pure
        (with_status "PASS" (sizes used max), "Remote Redis memory information collected over SSH")
  memory_of (ok used) (err e) = raise e
  memory_of (err e) max = raise e

  unfoldable pub remote_memory : CommandResult → Probe o.World (Value × String)
  remote_memory res =
      let info = parse_info res.stdout in
      if not res.ran || not (succeeded res)
      then pure
          (unknown_because "INFO_UNAVAILABLE", "Remote Redis memory information is unavailable")
      else memory_of (memory_entry "used_memory" (lookup "used_memory" info))
          (memory_entry "maxmemory" (lookup "maxmemory" info))

  unfoldable pub remote_role : CommandResult → Value × String
  remote_role res =
      let info = parse_info res.stdout in
      if not res.ran || not (succeeded res)
      then (
        unknown_because "INFO_UNAVAILABLE",
        "Remote Redis replication information is unavailable",
      )
      else (
        with_status "PASS" (
            ("role", text (info_or "unknown" (lookup "role" info)))
            ∷ ("link_status", text (info_or "unknown" (lookup "master_link_status" info)))
            ∷ []),
        "Remote Redis replication information collected over SSH",
      )

  abbrev redis_cli : List String → List String
  redis_cli words =
      ("redis-cli" ∷ "-h" ∷ target_host ∷ "-p" ∷ decimal port ∷ "--no-auth-warning" ∷ []) ++ words

  abbrev ask : ℕ → List String → Probe o.World CommandResult
  ask timeout words = raising_use (run_command o (redis_cli words) (whole (timeout + 1)) host none)

  -- the probes without a password
  unfoldable pub remote_probes : ℕ → Probe o.World (List Observation)
  remote_probes timeout = do
    start ← observe o.now
    ping ← ask timeout ("ping" ∷ [])
    end ← observe o.now
    let latency = o.floats.latency start end
    info_memory ← ask timeout ("info" ∷ "memory" ∷ [])
    info_replication ← ask timeout ("info" ∷ "replication" ∷ [])
    pinged ← remote_note "redis.ping" "PING" (remote_ping ping)
    slow ← remote_note "redis.latency_ms" "PING_LATENCY" (
      with_status (if ping.ran then "PASS" else "UNKNOWN") (("latency_ms", float latency) ∷ []),
      "Remote Redis PING latency is " <> (o.floats.show_float latency <> "ms"),
    )
    memory_value ← remote_memory info_memory
    memory ← remote_note "redis.memory_pressure" "INFO memory" memory_value
    role ← remote_note "redis.role" "INFO replication" (remote_role info_replication)
    pure (pinged ∷ slow ∷ memory ∷ role ∷ [])

  -- `_execute_redis_remote`
  unfoldable pub execute_redis_remote : String → ℕ → Probe o.World (List Observation)
  execute_redis_remote password timeout =
      if nonempty password then remote_auth_required else remote_probes timeout
