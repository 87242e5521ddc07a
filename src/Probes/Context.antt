-- ===== src/Probes/Context.antt =====
-- providers/base.py: the context that a provider is given, and what the providers read from it.
use evidence_tool.Base.{
  ℕ, String, ◌<>◌, Bool, Option, none, some, [], ◌∷◌, ◌&&◌, if◌then◌else◌, nonempty, leb, contains,
  Result, ok, err, value_error,
}
use evidence_tool.Base.Dict.{Dict, lookup}
use evidence_tool.Base.Int.{ℤ, pos, negsuc}
use evidence_tool.Base.Decimal.{parse_int}
use evidence_tool.Capability.{CapabilitySet}

-- the values of `kwargs` are texts; of the execution context the providers use the capabilities
pub record ProviderContext : Type 0 where
  pub kwargs : Dict String
  pub capabilities : CapabilitySet

abbrev or_default : String → Option String → String
or_default default none = default
or_default default (some v) = v

-- `context.get(key, default)`
unfoldable pub get_with : String → ProviderContext → String → String
get_with default context key = or_default default (lookup key context.kwargs)

-- `context.get(key)`
abbrev pub get : ProviderContext → String → String
get = get_with ""

-- `context.require(key)`
unfoldable pub require : ProviderContext → String → Result String
require context key = elim (lookup key context.kwargs) [
  | none ↦ err (value_error ("Missing required context variable: " <> key))
  | some v ↦ ok v
]

-- `a or b` of texts
abbrev pub or_text : String → String → String
or_text a b = if nonempty a then a else b

-- `v in ("true", "1", "yes")`
abbrev pub is_yes : String → Bool
is_yes v = contains ("true" ∷ "1" ∷ "yes" ∷ []) v

abbrev bad_port : Result ℕ
bad_port = err (value_error "port must be an integer between 1 and 65535")

abbrev in_port_range : ℤ → Result ℕ
in_port_range (negsuc n) = bad_port
in_port_range (pos n) = if leb 1 n && leb n 65535 then ok n else bad_port

-- the port that is given as a text, or the default
unfoldable pub port_of : String → ℕ → Result ℕ
port_of port_str default =
    if nonempty port_str
    then elim (parse_int port_str) [ none ↦ bad_port | some n ↦ in_port_range n ]
    else ok default
