-- ===== src/Base/Utf8.antt =====
-- Python's `str.encode("utf-8")` and `bytes.decode("utf-8", errors="replace")`; bytes are numbers.
pub mod RoundTrip
use Prim.Native.Nat.{ℕ, zero, suc, ◌+◌, ◌-◌, ◌*◌, ◌/◌, ◌%◌, ◌<◌, compare, Ordering}
use Prim.Native.Char.{Char, char, code, IsScalar}
use Prim.Native.String.{String, ◌++◌ as ◌<>◌}
use mathlib.Core.Path.{◌≡◌, refl, ap, ◌∙◌}
use mathlib.Core.Bool.{Bool, true, false, ◌&&◌}
use mathlib.Core.Option.{Option, none, some}
use mathlib.Core.List.{List, [], ◌∷◌, ◌++◌}
use native.Mathlib.Omega.{arith}
use evidence_tool.Base.Text.{if◌then◌else◌, leb, ltb, nat_beq}

-- `IsScalar` of the built-in module, by the outcomes of its comparisons
abbrev BelowEnd : Ordering → Type 0
BelowEnd Ordering.lt = Unit
BelowEnd Ordering.eq = ⊥
BelowEnd Ordering.gt = ⊥

abbrev AboveGap : Ordering → Ordering → Type 0
AboveGap Ordering.lt r = BelowEnd r
AboveGap Ordering.eq r = ⊥
AboveGap Ordering.gt r = ⊥

abbrev Scalar : Ordering → Ordering → Ordering → Type 0
Scalar Ordering.lt q r = Unit
Scalar Ordering.eq q r = AboveGap q r
Scalar Ordering.gt q r = AboveGap q r

in_end : (r : Ordering) → Option (BelowEnd r)
in_end Ordering.lt = some tt
in_end Ordering.eq = none
in_end Ordering.gt = none

over_gap : (q r : Ordering) → Option (AboveGap q r)
over_gap Ordering.lt r = in_end r
over_gap Ordering.eq r = none
over_gap Ordering.gt r = none

decide_scalar : (p q r : Ordering) → Option (Scalar p q r)
decide_scalar Ordering.lt q r = some tt
decide_scalar Ordering.eq q r = over_gap q r
decide_scalar Ordering.gt q r = over_gap q r

to_char : (n : ℕ) → Option (Scalar (compare n 55296) (compare 57343 n) (compare n 1114112)) → Char
to_char n (some h) = char n h
to_char n none = char 65533 tt

-- the character of this code, or U+FFFD
unfoldable pub char_of : ℕ → Char
unfolding decide_scalar over_gap in_end to_char
char_of n = to_char n (decide_scalar (compare n 55296) (compare 57343 n) (compare n 1114112))

in_end_lem : (r : Ordering) (h : BelowEnd r) → in_end r ≡ some h
unfolding in_end
in_end_lem Ordering.lt h = refl
in_end_lem Ordering.eq h = absurd h
in_end_lem Ordering.gt h = absurd h

over_gap_lem : (q r : Ordering) (h : AboveGap q r) → over_gap q r ≡ some h
unfolding over_gap
over_gap_lem Ordering.lt r h = in_end_lem r h
over_gap_lem Ordering.eq r h = absurd h
over_gap_lem Ordering.gt r h = absurd h

decide_scalar_lem : (p q r : Ordering) (h : Scalar p q r) → decide_scalar p q r ≡ some h
unfolding decide_scalar
decide_scalar_lem Ordering.lt q r h = refl
decide_scalar_lem Ordering.eq q r h = over_gap_lem q r h
decide_scalar_lem Ordering.gt q r h = over_gap_lem q r h

pub char_of-code : (c : Char) → char_of (code c) ≡ c
unfolding char_of
char_of-code (char n h) =
    ap (to_char n) (decide_scalar_lem (compare n 55296) (compare 57343 n) (compare n 1114112) h)

scalar_below : (n : ℕ) → n < 55296 → Scalar (compare n 55296) (compare 57343 n) (compare n 1114112)
scalar_below n h = ground arith

pub code-char_of : (n : ℕ) → n < 55296 → code (char_of n) ≡ n
unfolding char_of
code-char_of n h =
    ap (λ o. code (to_char n o))
      (decide_scalar_lem (compare n 55296) (compare 57343 n) (compare n 1114112) (scalar_below n h))

unfoldable pub encode_char : ℕ → List ℕ
encode_char n =
    if ltb n 128
    then n ∷ []
    else if ltb n 2048
    then (192 + n / 64) ∷ (128 + n % 64) ∷ []
    else if ltb n 65536
    then (224 + n / 4096) ∷ (128 + (n / 64) % 64) ∷ (128 + n % 64) ∷ []
    else (240 + n / 262144) ∷ (128 + (n / 4096) % 64) ∷ (128 + (n / 64) % 64) ∷ (128 + n % 64) ∷ []

-- `s.encode("utf-8")`
unfoldable pub encode : String → List ℕ
unfolding encode_char
encode String.[] = []
encode (String.◌∷◌ c s) = encode_char (code c) ++ encode s

-- Between characters, or inside of one: how many bytes are missing, the bits so far, and the least
-- and the greatest byte that may come next.
pub data State : Type 0 where
  start : State
  inside : (missing bits least greatest : ℕ) → State

abbrev pub letter : ℕ → String
letter n = String.◌∷◌ (char_of n) ""

abbrev unreadable : String
unreadable = letter 65533

-- the first byte of a character
unfoldable pub first_byte : ℕ → String × State
first_byte b =
    if ltb b 128
    then (letter b, start)
    else if ltb b 194
    then (unreadable, start)
    else if ltb b 224
    then ("", inside 1 (b - 192) 128 191)
    else if ltb b 240
    then (
      "",
      inside 2 (b - 224) (if nat_beq b 224 then 160 else 128) (if nat_beq b 237 then 159 else 191),
    )
    else if ltb b 245
    then (
      "",
      inside 3 (b - 240) (if nat_beq b 240 then 144 else 128) (if nat_beq b 244 then 143 else 191),
    )
    else (unreadable, start)

unfoldable pub more_bytes : ℕ → ℕ → String × State
more_bytes zero bits = (letter bits, start)
more_bytes (suc missing) bits = ("", inside (suc missing) bits 128 191)

-- where the byte does not fit, what came before it is one U+FFFD, and the byte is read anew
unfoldable pub step : State → ℕ → String × State
unfolding first_byte more_bytes
step start b = first_byte b
step (inside missing bits least greatest) b =
    if leb least b && leb b greatest
    then more_bytes (missing - 1) (bits * 64 + (b - 128))
    else (unreadable <> (first_byte b).0, (first_byte b).1)

unfoldable pub decode_from : State → List ℕ → String
unfolding step
decode_from start [] = ""
decode_from (inside missing bits least greatest) [] = unreadable
decode_from state (b ∷ bytes) = (step state b).0 <> decode_from (step state b).1 bytes

-- `bytes.decode("utf-8", errors="replace")`
abbrev pub decode : List ℕ → String
decode bytes = decode_from start bytes

hello : decode (72 ∷ 195 ∷ 169 ∷ 226 ∷ 130 ∷ 255 ∷ 33 ∷ []) ≡ "Hé��!"
unfolding decode_from char_of
hello = refl
