-- ===== src/Base/Decimal/RoundTrip.antt =====
-- What `str` prints, `int` reads.
use Prim.Native.Nat.{ℕ, zero, suc, ◌+◌, ◌-◌, ◌*◌, ◌/◌, ◌%◌, ◌≤◌, ◌<◌}
use Prim.Native.Char.{code}
use Prim.Native.String.{String}
use mathlib.Core.Path.{◌≡◌, refl, ap, ◌∙◌}
use mathlib.Core.Logic.{inl, inr}
use mathlib.Core.Bool.{Bool, true, false, not}
use mathlib.Core.Option.{some}
use native.Mathlib.Omega.{arith}
use evidence_tool.Base.Utf8.{code-char_of}
use evidence_tool.Base.Int.{pos}
use evidence_tool.Base.Text.{nat_beq, Bool-cases}
use evidence_tool.Base.Decimal.{
  is_space, is_digit, strip_left, strip_right, strip, digit_char, digits_before, decimal,
  scan_digits, signed, parse_int,
}

-- Every character is a digit.
abbrev pub AllDigits : String → Type 0
AllDigits String.[] = Unit
AllDigits (String.◌∷◌ c s) = (is_digit (code c) ≡ true) × AllDigits s

is_digit-digit_char : (d : ℕ) → d < 10 → is_digit (code (digit_char d)) ≡ true
is_digit-digit_char d h = rw (code-char_of (48 + d) (omega arith)) (ground arith)

scan-digit :
    (m : ℕ) (b : Bool) (d : ℕ) (s : String)
    → d < 10
    → scan_digits m b (String.◌∷◌ (digit_char d) s) ≡ scan_digits (m * 10 + d) true s
unfolding scan_digits
scan-digit m b d s h =
    let shifted : m * 10 + (48 + d - 48) ≡ m * 10 + d = omega arith in
    rw (code-char_of (48 + d) (omega arith))
      (ground (arith, ap (λ (k : ℕ). scan_digits k true s) shifted))

digits_before-AllDigits :
    (fuel n : ℕ) (out : String) → AllDigits out → AllDigits (digits_before fuel n out)
unfolding digits_before
digits_before-AllDigits zero n out h = h
digits_before-AllDigits (suc fuel) n out h = elim (Bool-cases (nat_beq n 0)) [
  | inl none_left ↦ rw none_left h
  | inr more ↦ rw more (
      digits_before-AllDigits fuel (n / 10) (String.◌∷◌ (digit_char (n % 10)) out)
        (is_digit-digit_char (n % 10) (omega arith), h))
]

pub decimal-AllDigits : (n : ℕ) → AllDigits (decimal n)
unfolding decimal
decimal-AllDigits n = elim (Bool-cases (nat_beq n 0)) [
  | inl none_left ↦ rw none_left (refl, tt)
  | inr more ↦ rw more (digits_before-AllDigits n n "" tt)
]

scan-digits_before :
    (fuel n : ℕ) (out : String)
    → n ≤ fuel
    → scan_digits 0 false (digits_before fuel n out) ≡ scan_digits n (not (nat_beq n 0)) out
unfolding digits_before
scan-digits_before zero n out h = ground arith
scan-digits_before (suc fuel) n out h = elim (Bool-cases (nat_beq n 0)) [
  | inl none_left ↦ ground arith
  | inr more ↦ rw more (
      scan-digits_before fuel (n / 10) (String.◌∷◌ (digit_char (n % 10)) out) (ground arith)
      ∙ scan-digit (n / 10) (not (nat_beq (n / 10) 0)) (n % 10) out (omega arith)
      ∙ ap (λ m. scan_digits m true out) (omega arith))
]

-- No character is white space.
abbrev pub NoSpace : String → Type 0
NoSpace String.[] = Unit
NoSpace (String.◌∷◌ c s) = (is_space (code c) ≡ false) × NoSpace s

strip_left-NoSpace : (s : String) → NoSpace s → strip_left s ≡ s
unfolding strip_left
strip_left-NoSpace String.[] h = refl
strip_left-NoSpace (String.◌∷◌ c s) h = ground arith

strip_right-NoSpace : (s : String) → NoSpace s → strip_right s ≡ s
unfolding strip_right
strip_right-NoSpace String.[] h = refl
strip_right-NoSpace (String.◌∷◌ c s) h = ground (arith, strip_right-NoSpace s h.1)

pub strip-NoSpace : (s : String) → NoSpace s → strip s ≡ s
unfolding strip
strip-NoSpace s h = rw (strip_left-NoSpace s h) (strip_right-NoSpace s h)

digits-NoSpace : (s : String) → AllDigits s → NoSpace s
digits-NoSpace String.[] h = tt
digits-NoSpace (String.◌∷◌ c s) h = (ground arith, digits-NoSpace s h.1)

signed-AllDigits :
    (s : String) (n : ℕ) → AllDigits s → scan_digits 0 false s ≡ some n → signed s ≡ some (pos n)
unfolding signed scan_digits
signed-AllDigits String.[] n h e = cc
signed-AllDigits (String.◌∷◌ c s) n h e = ground arith

scan-decimal : (n : ℕ) → scan_digits 0 false (decimal n) ≡ some n
unfolding decimal scan_digits
scan-decimal n = elim (Bool-cases (nat_beq n 0)) [
  | inl none_left ↦ rw none_left (ground arith)
  | inr more ↦ rw more (scan-digits_before n n "" (omega arith) ∙ rw more refl)
]

-- Every number is read back from its decimal print.
pub parse_int-decimal : (n : ℕ) → parse_int (decimal n) ≡ some (pos n)
unfolding parse_int
parse_int-decimal n =
    rw (strip-NoSpace (decimal n) (digits-NoSpace (decimal n) (decimal-AllDigits n)))
      (signed-AllDigits (decimal n) n (decimal-AllDigits n) (scan-decimal n))
