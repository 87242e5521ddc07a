-- ===== src/Probes/Redis.antt =====
-- providers/redis.py: what a run is asked for, its observations, and the answer to INFO. The rounded
-- floats are parameters.
pub mod Resp
pub mod Local
pub mod Remote
pub mod Collect
pub mod Promises
pub mod Secrets
use Prim.Native.Char.{code}
use evidence_tool.Base.{
  ℕ, String, ◌<>◌, ◌==◌, Bool, true, false, not, ◌&&◌, ◌||◌, Option, none, some, List, [], ◌∷◌,
  if◌then◌else◌, nonempty, nat_beq, leb, starts_with, has_infix, cons_first, Result, ok, err,
  value_error,
}
use evidence_tool.Base.Dict.{Dict, lookup, insert}
use evidence_tool.Base.Int.{ℤ, pos, negsuc}
use evidence_tool.Base.Decimal.{strip, parse_int}
use evidence_tool.Models.Value.{Value, Float, text, int, float, object}
use evidence_tool.Models.Observation.{Observation}
use evidence_tool.Probes.System.{Outside, Floats}
use evidence_tool.Probes.Session.{Probe, observe}
use evidence_tool.Probes.Network.{before_colon, after_colon}

pub record Settings : Type 0 where
  pub target_host : String
  pub port : ℕ
  pub password : String
  pub username : String
  pub expected_role : String
  pub max_mem_ratio : Float
  pub max_latency_ms : Float

abbrev pub with_status : String → Dict Value → Value
with_status status rest = object (("status", text status) ∷ rest)

abbrev pub failure : String → Dict Value → Value
failure kind rest = with_status "FAIL" (("failure", text kind) ∷ rest)

-- an observation that names no target and no capability
abbrev pub plain_observation :
    ℕ
    → Option String
    → Option String
    → Option String
    → String
    → String
    → Value
    → String
    → Observation
plain_observation now host scope transport id method value message = record {
  id = id;
  source = "redis";
  category = "datastore";
  collector = "redis_provider";
  method = method;
  value = value;
  message = message;
  observed_at = now;
  collected_at = now;
  host = host;
  execution_scope = scope;
  target = none;
  capability = none;
  transport_status = transport;
}

-- the characters at which `str.splitlines` ends a line
abbrev is_break : ℕ → Bool
is_break n =
    (leb 10 n && leb n 13)
    || (leb 28 n && leb n 30)
    || nat_beq n 133
    || nat_beq n 8232
    || nat_beq n 8233

-- `s.splitlines()`, but for empty lines, which `_parse_info` passes over
unfoldable pub split_lines : String → List String
unfolding cons_first
split_lines String.[] = "" ∷ []
split_lines (String.◌∷◌ c s) =
    let rest = split_lines s in
    if is_break (code c) then "" ∷ rest else cons_first (String.◌∷◌ c "") rest

abbrev is_entry : String → Bool
is_entry line = nonempty line && not (starts_with line "#") && has_infix line ":"

unfoldable pub parse_lines : List String → Dict String → Dict String
parse_lines [] info = info
parse_lines (raw ∷ rest) info =
    let line = strip raw in
    parse_lines rest (
      if is_entry line
      then insert (strip (before_colon line)) (strip (after_colon line)) info
      else info)

-- `_parse_info`
unfoldable pub parse_info : String → Dict String
unfolding parse_lines split_lines
parse_info raw_info = parse_lines (split_lines raw_info) []

-- `int(info.get(key, 0))`
unfoldable pub memory_entry : String → Option String → Result ℤ
memory_entry key none = ok (pos 0)
memory_entry key (some s) = elim (parse_int s) [
  | none ↦ err (value_error ("invalid literal for int() with base 10: '" <> (s <> "'")))
  | some n ↦ ok n
]

abbrev pub info_or : String → Option String → String
info_or default none = default
info_or default (some v) = v

abbrev pub is_positive : ℤ → Bool
is_positive (pos n) = leb 1 n
is_positive (negsuc n) = false

module _ (f : Floats) where
  -- value and message of `redis.memory_pressure`
  unfoldable pub memory_finding : Float → ℤ → ℤ → Value × String
  memory_finding max_mem_ratio used max =
      let used_mb = f.megabytes used in
      let max_mb = f.megabytes max in
      let ratio = f.ratio used max in
      let share =
        f.show_float used_mb
        <> ("MB / "
            <> (f.show_float max_mb <> ("MB (" <> (f.show_float (f.percent ratio) <> "%)")))) in
      let entries : Dict Value =
        ("used_memory_mb", float used_mb)
        ∷ ("maxmemory_mb", float max_mb)
        ∷ ("ratio", float ratio)
        ∷ [] in
      if is_positive max
      then (if f.at_least ratio max_mem_ratio
          then (failure "OOM_MAXMEMORY" entries, "Redis memory saturation: " <> share)
          else (with_status "PASS" entries, "Redis memory usage: " <> share))
      else (
        with_status "PASS" (("used_memory_mb", float used_mb) ∷ ("maxmemory_mb", int (pos 0)) ∷ []),
        "Redis memory usage: " <> (f.show_float used_mb <> "MB (no maxmemory configured)"),
      )

-- value and message of `redis.role`
unfoldable pub role_finding : String → String → String → Value × String
role_finding expected actual link =
    if actual == "slave" && link == "down"
    then (
      failure "REPLICATION_BROKEN" (("role", text actual) ∷ ("link_status", text link) ∷ []),
      "Redis replica disconnected from master (master_link_status: down)",
    )
    else if nonempty expected && not (actual == expected)
    then (
      failure "ROLE_MISMATCH" (("role", text actual) ∷ ("expected_role", text expected) ∷ []),
      "Redis role is '" <> (actual <> ("' but '" <> (expected <> "' was expected"))),
    )
    else (
      with_status "PASS" (("role", text actual) ∷ ("link_status", text link) ∷ []),
      "Redis role is " <> (actual <> " (nominal)"),
    )
