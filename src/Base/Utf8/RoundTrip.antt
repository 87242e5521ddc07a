-- ===== src/Base/Utf8/RoundTrip.antt =====
-- What `encode` writes, `decode` reads back.
use Prim.Native.Nat.{ℕ, suc, ◌+◌, ◌-◌, ◌*◌, ◌/◌, ◌%◌, ◌≤◌, ◌<◌}
use Prim.Native.Char.{Char, char, code}
use Prim.Native.String.{String, ◌++◌ as ◌<>◌}
use text.Mathlib.TextLemmas.{append-nil, nil-append, cons-append}
use mathlib.Core.Path.{◌≡◌, refl, ap, sym, ◌∙◌}
use mathlib.Core.Logic.{◌⊎◌, inl, inr}
use mathlib.Core.List
use mathlib.Core.List.{List, [], ◌∷◌, ◌++◌}
use native.Mathlib.Omega.{arith}
use evidence_tool.Base.Text.{Bool-cases, ltb, nat_beq, if◌then◌else◌}
use evidence_tool.Base.Utf8.{
  State, start, inside, char_of-code, encode_char, encode, step, decode_from, letter,
}

abbrev IsText : ℕ → Type 0
IsText n = (n < 1114112) × (n < 55296 ⊎ 57343 < n)

IsText-code : (c : Char) → IsText (code c)
IsText-code (char n h) = ground arith

read_byte :
    (state : State) (b : ℕ) (bytes : List ℕ) (out : String) (next : State)
    → step state b ≡ (out, next)
    → decode_from state (b ∷ bytes) ≡ out <> decode_from next bytes
unfolding decode_from
read_byte start b bytes out next h = rw h refl
read_byte (inside m bits l g) b bytes out next h = rw h refl

one_byte : (n : ℕ) → n < 128 → step start n ≡ (letter n, start)
unfolding step
one_byte n h = ground arith

first_of_two :
    (n : ℕ) → 128 ≤ n → n < 2048 → step start (192 + n / 64) ≡ ("", inside 1 (n / 64) 128 191)
unfolding step
first_of_two n h k = ground arith

last_byte :
    (bits b l g : ℕ)
    → l ≤ b
    → b ≤ g
    → step (inside 1 bits l g) b ≡ (letter (bits * 64 + (b - 128)), start)
unfolding step
last_byte bits b l g h k = ground arith

middle_byte :
    (m bits b l g : ℕ)
    → l ≤ b
    → b ≤ g
    → step (inside (suc (suc m)) bits l g) b ≡ ("", inside (suc m) (bits * 64 + (b - 128)) 128 191)
unfolding step
middle_byte m bits b l g h k = ground arith

abbrev least_three : ℕ → ℕ
least_three n = if nat_beq (224 + n / 4096) 224 then 160 else 128

abbrev greatest_three : ℕ → ℕ
greatest_three n = if nat_beq (224 + n / 4096) 237 then 159 else 191

first_of_three :
    (n : ℕ)
    → n < 65536
    → 2048 ≤ n
    → step start (224 + n / 4096) ≡ ("", inside 2 (n / 4096) (least_three n) (greatest_three n))
unfolding step
first_of_three n h k = ground arith

second_of_three :
    (n : ℕ)
    → 2048 ≤ n
    → n < 65536
    → IsText n
    → (least_three n ≤ 128 + (n / 64) % 64) × (128 + (n / 64) % 64 ≤ greatest_three n)
second_of_three n h k t = ground arith

abbrev least_four : ℕ → ℕ
least_four n = if nat_beq (240 + n / 262144) 240 then 144 else 128

abbrev greatest_four : ℕ → ℕ
greatest_four n = if nat_beq (240 + n / 262144) 244 then 143 else 191

first_of_four :
    (n : ℕ)
    → 65536 ≤ n
    → n < 1114112
    → step start (240 + n / 262144) ≡ ("", inside 3 (n / 262144) (least_four n) (greatest_four n))
unfolding step
first_of_four n h k = ground arith

second_of_four :
    (n : ℕ)
    → 65536 ≤ n
    → n < 1114112
    → (least_four n ≤ 128 + (n / 4096) % 64) × (128 + (n / 4096) % 64 ≤ greatest_four n)
second_of_four n h k = ground arith

silent :
    (state : State) (b : ℕ) (bytes : List ℕ) (next : State)
    → step state b ≡ ("", next)
    → decode_from state (b ∷ bytes) ≡ decode_from next bytes
silent state b bytes next h = read_byte state b bytes "" next h ∙ nil-append _

two_bytes :
    (n : ℕ) (rest : List ℕ)
    → 128 ≤ n
    → n < 2048
    → decode_from start ((192 + n / 64) ∷ (128 + n % 64) ∷ rest)
      ≡ letter n <> decode_from start rest
two_bytes n rest h k =
    silent start _ _ _ (first_of_two n h k)
    ∙ read_byte _ (128 + n % 64) rest _ start
        (last_byte (n / 64) (128 + n % 64) 128 191 (omega arith) (omega arith))
    ∙ ap (λ m. letter m <> decode_from start rest) (omega arith)

three_bytes :
    (n : ℕ) (rest : List ℕ)
    → 2048 ≤ n
    → n < 65536
    → IsText n
    → decode_from start ((224 + n / 4096) ∷ (128 + (n / 64) % 64) ∷ (128 + n % 64) ∷ rest)
      ≡ letter n <> decode_from start rest
three_bytes n rest h k t =
    let (low, high) = second_of_three n h k t in
    silent start _ _ _ (first_of_three n k h)
    ∙ silent _ _ _ _ (middle_byte 0 (n / 4096) _ _ _ low high)
    ∙ read_byte _ (128 + n % 64) rest _ start
        (last_byte _ (128 + n % 64) 128 191 (omega arith) (omega arith))
    ∙ ap (λ m. letter m <> decode_from start rest) (omega arith)

four_bytes :
    (n : ℕ) (rest : List ℕ)
    → 65536 ≤ n
    → n < 1114112
    → decode_from start (
        (240 + n / 262144)
        ∷ (128 + (n / 4096) % 64)
        ∷ (128 + (n / 64) % 64)
        ∷ (128 + n % 64)
        ∷ rest)
      ≡ letter n <> decode_from start rest
four_bytes n rest h k =
    let (low, high) = second_of_four n h k in
    silent start _ _ _ (first_of_four n h k)
    ∙ silent _ _ _ _ (middle_byte 1 (n / 262144) _ _ _ low high)
    ∙ silent _ _ _ _ (middle_byte 0 _ (128 + (n / 64) % 64) 128 191 (omega arith) (omega arith))
    ∙ read_byte _ (128 + n % 64) rest _ start
        (last_byte _ (128 + n % 64) 128 191 (omega arith) (omega arith))
    ∙ ap (λ m. letter m <> decode_from start rest) (omega arith)

decode-encode_char :
    (n : ℕ) (rest : List ℕ)
    → IsText n
    → decode_from start (encode_char n ++ rest) ≡ letter n <> decode_from start rest
unfolding encode_char
decode-encode_char n rest t = elim (Bool-cases (ltb n 128)) [
  | inl one ↦ rw one (read_byte start n rest (letter n) start (one_byte n (ground arith)))
  | inr more ↦ elim (Bool-cases (ltb n 2048)) [
    | inl two ↦ rw (more, two) (two_bytes n rest (ground arith) (ground arith))
    | inr many ↦ elim (Bool-cases (ltb n 65536)) [
      | inl three ↦ rw (more, many, three) (three_bytes n rest (ground arith) (ground arith) t)
      | inr four ↦ rw (more, many, four) (four_bytes n rest (ground arith) t.0)
    ]
  ]
]

-- Bytes that a text was encoded to are decoded to the text, whatever comes after them.
pub decode-encode_append :
    (s : String) (rest : List ℕ)
    → decode_from start (encode s ++ rest) ≡ s <> decode_from start rest
unfolding encode
decode-encode_append String.[] rest = rw nil-append refl
decode-encode_append (String.◌∷◌ c s) rest =
    ap (decode_from start) (List.append_assoc (encode_char (code c)) (encode s) rest)
    ∙ decode-encode_char (code c) (encode s ++ rest) (IsText-code c)
    ∙ ap (λ t. letter (code c) <> t) (decode-encode_append s rest)
    ∙ rw (char_of-code c, cons-append, nil-append) (rw cons-append refl)

pub decode-encode : (s : String) → decode_from start (encode s) ≡ s
unfolding decode_from
decode-encode s =
    ap (decode_from start) (sym (List.append-nil (encode s)))
    ∙ decode-encode_append s []
    ∙ append-nil s
