-- ===== src/Tracing/Context/Shape.antt =====
-- What the parser of trace contexts accepts.
use Prim.Native.Char.{Char, code}
use evidence_tool.Base.{
  count_chars, ℕ, zero, suc, ◌+◌, String, ◌==◌, ◌≡◌, refl, subst, Bool, true, false, not, ◌&&◌,
  ◌||◌, Option, none, some, arith, if◌then◌else◌, nat_beq, leb, nonempty, Bool-cases, inl, inr,
}
use evidence_tool.Base.Decimal.{strip}
use evidence_tool.Base.Utf8.{char_of, code-char_of}
use evidence_tool.Providers.{is_hex}
use evidence_tool.Tracing.Context.{
  TraceContext, take_hex, take_dash, lower_hex, groups, zeros_32, zeros_16, check_context,
  parse_w3c_traceparent, end_of, put_digit, ◌>>=◌,
}

-- a digit or one of the letters a to f
abbrev pub is_lower_hex : ℕ → Bool
is_lower_hex n = (leb 48 n && leb n 57) || (leb 97 n && leb n 102)

-- Every character is a hexadecimal digit in lower case.
abbrev pub AllHex : String → Type 0
AllHex String.[] = Unit
AllHex (String.◌∷◌ c s) = (is_lower_hex (code c) ≡ true) × AllHex s

-- The text is so many hexadecimal digits in lower case.
abbrev pub HexOf : ℕ → String → Type 0
HexOf n s = (count_chars s ≡ n) × AllHex s

pub record IsContext (c : TraceContext) : Type 0 where
  pub version : HexOf 2 c.version
  pub known : (c.version == "ff") ≡ false
  pub trace_id : HexOf 32 c.trace_id
  pub some_trace : (c.trace_id == zeros_32) ≡ false
  pub parent_id : HexOf 16 c.parent_id
  pub some_parent : (c.parent_id == zeros_16) ≡ false
  pub flags : HexOf 2 c.flags

-- the digits as they were written, in either case
abbrev AnyHex : String → Type 0
AnyHex String.[] = Unit
AnyHex (String.◌∷◌ c s) = (is_hex (code c) ≡ true) × AnyHex s

abbrev Holds : {A : Type 0} → (A → Type 0) → Option A → Type 0
Holds P none = Unit
Holds P (some a) = P a

Holds-bind :
    {A B : Type 0} (P : A → Type 0) (Q : B → Type 0) (m : Option A) (f : A → Option B)
    → Holds P m
    → ((a : A) → P a → Holds Q (f a))
    → Holds Q (m >>= f)
Holds-bind P Q none f h k = tt
Holds-bind P Q (some a) f h k = k a h

anything : {A : Type 0} (m : Option A) → Holds (λ _. Unit {0}) m
anything none = tt
anything (some a) = tt

abbrev Taken : ℕ → String × String → Type 0
Taken n (digits, rest) = (count_chars digits ≡ n) × AnyHex digits

put_digit-Taken :
    (n : ℕ) (c : Char) (o : Option (String × String))
    → is_hex (code c) ≡ true
    → Holds (Taken n) o
    → Holds (Taken (suc n)) (put_digit c o)
unfolding count_chars
put_digit-Taken n c none h k = tt
put_digit-Taken n c (some (digits, rest)) h k = (omega (arith, k.0), (h, k.1))

take_hex-Taken : (n : ℕ) (s : String) → Holds (Taken n) (take_hex n s)
unfolding take_hex count_chars
take_hex-Taken zero s = (refl, tt)
take_hex-Taken (suc n) String.[] = tt
take_hex-Taken (suc n) (String.◌∷◌ c s) = elim (Bool-cases (is_hex (code c))) [
  | inl hex ↦ rw hex (put_digit-Taken n c (take_hex n s) hex (take_hex-Taken n s))
  | inr other ↦ rw other tt
]

lower_char :
    (c : Char)
    → is_hex (code c) ≡ true
    → is_lower_hex (code (if leb 65 (code c) && leb (code c) 70 then char_of (code c + 32) else c))
      ≡ true
lower_char c h = elim (Bool-cases (leb 65 (code c) && leb (code c) 70)) [
  | inl upper ↦ rw upper (rw (code-char_of (code c + 32) (ground arith)) (ground arith))
  | inr other ↦ rw other (ground arith)
]

lower_hex-HexOf : (n : ℕ) (s : String) → count_chars s ≡ n → AnyHex s → HexOf n (lower_hex s)
unfolding lower_hex count_chars
lower_hex-HexOf n String.[] h k = (h, tt)
lower_hex-HexOf zero (String.◌∷◌ c s) h k = absurd (omega arith)
lower_hex-HexOf (suc n) (String.◌∷◌ c s) h k =
    let (size, hex) = lower_hex-HexOf n s (omega arith) k.1 in
    (omega arith, (lower_char c k.0, hex))

abbrev Grouped : String × String × String × String → Type 0
Grouped (version, trace_id, parent_id, flags) =
    HexOf 2 (lower_hex version)
    × HexOf 32 (lower_hex trace_id)
    × HexOf 16 (lower_hex parent_id)
    × HexOf 2 (lower_hex flags)

groups-Grouped : (s : String) → Holds Grouped (groups s)
unfolding groups
groups-Grouped s = Holds-bind (Taken 2) Grouped _ _ (take_hex-Taken 2 s) λ (version, s1) v.
    Holds-bind (λ _. Unit {0}) Grouped _ _ (anything (take_dash s1))
      λ s2 _. Holds-bind (Taken 32) Grouped _ _ (take_hex-Taken 32 s2) λ (trace_id, s3) t.
        Holds-bind (λ _. Unit {0}) Grouped _ _ (anything (take_dash s3))
          λ s4 _. Holds-bind (Taken 16) Grouped _ _ (take_hex-Taken 16 s4) λ (parent_id, s5) p.
            Holds-bind (λ _. Unit {0}) Grouped _ _ (anything (take_dash s5))
              λ s6 _. Holds-bind (Taken 2) Grouped _ _ (take_hex-Taken 2 s6) λ (flags, s7) f.
                Holds-bind (λ _. Unit {0}) Grouped _ _ (anything (end_of s7))
                  λ _ _. (
                    lower_hex-HexOf 2 version v.0 v.1,
                    lower_hex-HexOf 32 trace_id t.0 t.1,
                    lower_hex-HexOf 16 parent_id p.0 p.1,
                    lower_hex-HexOf 2 flags f.0 f.1,
                  )

check_context-IsContext :
    (cleaned : String) (g : String × String × String × String)
    → Grouped g
    → Holds IsContext (check_context cleaned g)
unfolding check_context
check_context-IsContext cleaned (version, trace_id, parent_id, flags) (v, t, p, f) =
    elim (Bool-cases (lower_hex version == "ff")) [
      | inl invalid ↦ rw invalid tt
      | inr known ↦
          elim (Bool-cases (lower_hex version == "00" && not (nat_beq (count_chars cleaned) 55))) [
            | inl long ↦ rw (known, long) tt
            | inr fits ↦ elim (Bool-cases (lower_hex trace_id == zeros_32)) [
              | inl no_trace ↦ rw (known, fits, no_trace) tt
              | inr some_trace ↦ elim (Bool-cases (lower_hex parent_id == zeros_16)) [
                | inl no_parent ↦ rw (known, fits, some_trace, no_parent) tt
                | inr some_parent ↦
                    rw (known, fits, some_trace, some_parent)
                      (record {
                        version = v;
                        known = known;
                        trace_id = t;
                        some_trace = some_trace;
                        parent_id = p;
                        some_parent = some_parent;
                        flags = f;
                      })
              ]
            ]
          ]
    ]

Holds-of : {A : Type 0} (P : A → Type 0) (m : Option A) {a : A} → Holds P m → m ≡ some a → P a
Holds-of P m h e = subst (Holds P) e h

parse-Holds : (raw : Option String) → Holds IsContext (parse_w3c_traceparent raw)
unfolding parse_w3c_traceparent
parse-Holds none = tt
parse-Holds (some raw) = elim (Bool-cases (nonempty raw)) [
  | inl filled ↦ rw filled (
      Holds-bind Grouped IsContext _ _ (groups-Grouped (strip raw))
        (check_context-IsContext (strip raw)))
  | inr empty ↦ rw empty tt
]

-- What the parser accepts has a version of two hexadecimal digits other than ff, a trace id of 32
-- and a parent id of 16 that are not all zeros, and flags of two, all in lower case.
pub parse_w3c_traceparent-IsContext :
    (raw : Option String) (c : TraceContext) → parse_w3c_traceparent raw ≡ some c → IsContext c
parse_w3c_traceparent-IsContext raw c h = Holds-of IsContext _ (parse-Holds raw) h
