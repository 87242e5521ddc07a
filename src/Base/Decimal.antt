-- ===== src/Base/Decimal.antt =====
-- Python's `str(n)` and `int(s)` for ASCII digits.
pub mod RoundTrip
use Prim.Native.Nat.{ℕ, zero, suc, ◌+◌, ◌-◌, ◌*◌, ◌/◌, ◌%◌}
use Prim.Native.Char.{Char, code}
use Prim.Native.String.{String, ◌++◌ as ◌<>◌}
use mathlib.Core.Bool.{Bool, true, false, ◌&&◌, ◌||◌}
use mathlib.Core.Option
use mathlib.Core.Option.{Option, none, some}
use evidence_tool.Base.Utf8.{char_of}
use evidence_tool.Base.Int.{ℤ, pos, negsuc}
use evidence_tool.Base.Text.{if◌then◌else◌, leb, nat_beq, nonempty}

-- `str.isspace` of a character, given by its code
abbrev pub is_space : ℕ → Bool
is_space n =
    (leb 9 n && leb n 13)
    || (leb 28 n && leb n 32)
    || nat_beq n 133
    || nat_beq n 160
    || nat_beq n 5760
    || (leb 8192 n && leb n 8202)
    || nat_beq n 8232
    || nat_beq n 8233
    || nat_beq n 8239
    || nat_beq n 8287
    || nat_beq n 12288

unfoldable pub strip_left : String → String
strip_left String.[] = ""
strip_left (String.◌∷◌ c s) =
    let rest = strip_left s in if is_space (code c) then rest else String.◌∷◌ c s

-- `not s`
abbrev pub is_empty_text : String → Bool
is_empty_text String.[] = true
is_empty_text (String.◌∷◌ c s) = false

unfoldable pub strip_right : String → String
strip_right String.[] = ""
strip_right (String.◌∷◌ c s) =
    let rest = strip_right s in
    if is_space (code c) && is_empty_text rest then "" else String.◌∷◌ c rest

-- `s.strip()`
unfoldable pub strip : String → String
unfolding strip_left strip_right
strip s = strip_right (strip_left s)

-- the character of a digit
abbrev pub digit_char : ℕ → Char
digit_char d = char_of (48 + d)

-- one round for each digit; the fuel is the number itself
unfoldable pub digits_before : ℕ → ℕ → String → String
digits_before zero n out = out
digits_before (suc fuel) n out =
    let more = digits_before fuel (n / 10) (String.◌∷◌ (digit_char (n % 10)) out) in
    if nat_beq n 0 then out else more

-- `str(n)`
unfoldable pub decimal : ℕ → String
unfolding digits_before char_of
decimal n = if nat_beq n 0 then "0" else digits_before n n ""

unfoldable pub decimal_int : ℤ → String
unfolding decimal
decimal_int (pos n) = decimal n
decimal_int (negsuc n) = "-" <> decimal (suc n)

abbrev pub is_digit : ℕ → Bool
is_digit n = leb 48 n && leb n 57

-- digits with single underscores between them; the flag says that a digit came last
unfoldable pub scan_digits : ℕ → Bool → String → Option ℕ
scan_digits n after_digit String.[] = if after_digit then some n else none
scan_digits n after_digit (String.◌∷◌ c s) =
    let digit = scan_digits (n * 10 + (code c - 48)) true s in
    let underscore = scan_digits n false s in
    if is_digit (code c)
    then digit
    else if nat_beq (code c) 95 && after_digit
    then underscore
    else none

abbrev negate : ℕ → ℤ
negate zero = pos zero
negate (suc n) = negsuc n

unfoldable pub signed : String → Option ℤ
unfolding scan_digits
signed String.[] = none
signed (String.◌∷◌ c s) =
    if nat_beq (code c) 45
    then Option.map negate (scan_digits 0 false s)
    else if nat_beq (code c) 43
    then Option.map pos (scan_digits 0 false s)
    else Option.map pos (scan_digits 0 false (String.◌∷◌ c s))

-- `int(s)`; `none` is a ValueError
unfoldable pub parse_int : String → Option ℤ
unfolding signed strip
parse_int s = signed (strip s)
