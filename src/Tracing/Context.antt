-- ===== src/Tracing/Context.antt =====
-- observability/tracing.py: the header of a W3C trace context,
-- `^([0-9a-f]{2})-([0-9a-f]{32})-([0-9a-f]{16})-([0-9a-f]{2})$` in either case.
pub mod Shape
pub mod RoundTrip
use Prim.Native.Char.{Char, code}
use evidence_tool.Base.{
  count_chars, ℕ, zero, suc, ◌+◌, String, ◌<>◌, ◌==◌, Bool, true, false, not, ◌&&◌, ◌||◌, Option,
  none, some, if◌then◌else◌, nat_beq, leb, nonempty,
}
use evidence_tool.Base.Decimal.{strip, is_digit}
use evidence_tool.Base.Utf8.{char_of}
use evidence_tool.Providers.{is_hex}

-- `W3CTraceContext`
pub record TraceContext : Type 0 where
  pub version : String
  pub trace_id : String
  pub parent_id : String
  pub flags : String
  pub raw : String

abbrev pub put_digit : Char → Option (String × String) → Option (String × String)
put_digit c none = none
put_digit c (some (digits, rest)) = some (String.◌∷◌ c digits, rest)

-- so many hexadecimal digits, and the rest
unfoldable pub take_hex : ℕ → String → Option (String × String)
take_hex zero s = some ("", s)
take_hex (suc n) String.[] = none
take_hex (suc n) (String.◌∷◌ c s) =
    let more = take_hex n s in if is_hex (code c) then put_digit c more else none

unfoldable pub take_dash : String → Option String
take_dash String.[] = none
take_dash (String.◌∷◌ c s) = if nat_beq (code c) 45 then some s else none

-- `s.lower()` of hexadecimal digits
unfoldable pub lower_hex : String → String
lower_hex String.[] = ""
lower_hex (String.◌∷◌ c s) =
    String.◌∷◌ (if leb 65 (code c) && leb (code c) 70 then char_of (code c + 32) else c)
      (lower_hex s)

infixl 5 ◌>>=◌
abbrev pub ◌>>=◌ : {A B : Type 0} → Option A → (A → Option B) → Option B
none >>= f = none
some a >>= f = f a

abbrev pub end_of : String → Option (Unit {0})
end_of s = if nonempty s then none else some tt

-- the groups of the regular expression
unfoldable pub groups : String → Option (String × String × String × String)
groups s = do
  (version, s1) ← take_hex 2 s
  s2 ← take_dash s1
  (trace_id, s3) ← take_hex 32 s2
  s4 ← take_dash s3
  (parent_id, s5) ← take_hex 16 s4
  s6 ← take_dash s5
  (flags, s7) ← take_hex 2 s6
  done ← end_of s7
  some (version, trace_id, parent_id, flags)

abbrev pub zeros_32 : String
zeros_32 = "00000000000000000000000000000000"

abbrev pub zeros_16 : String
zeros_16 = "0000000000000000"

unfoldable pub check_context : String → String × String × String × String → Option TraceContext
check_context cleaned (version, trace_id, parent_id, flags) =
    if lower_hex version == "ff"
    then none
    else if lower_hex version == "00" && not (nat_beq (count_chars cleaned) 55)
    then none
    else if lower_hex trace_id == zeros_32
    then none
    else if lower_hex parent_id == zeros_16
    then none
    else some (record {
      version = lower_hex version;
      trace_id = lower_hex trace_id;
      parent_id = lower_hex parent_id;
      flags = lower_hex flags;
      raw = cleaned;
    })

unfoldable pub parse_w3c_traceparent : Option String → Option TraceContext
parse_w3c_traceparent none = none
parse_w3c_traceparent (some raw) =
    if nonempty raw then (groups (strip raw) >>= check_context (strip raw)) else none
