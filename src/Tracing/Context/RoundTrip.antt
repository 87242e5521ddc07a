-- ===== src/Tracing/Context/RoundTrip.antt =====
-- That the parser of trace contexts reads what such a context is printed as.
use Prim.Native.Char.{code}
use text.Mathlib.TextLemmas.{append-nil, nil-append, cons-append}
use evidence_tool.Base.{
  count_chars, ℕ, zero, suc, ◌+◌, String, ◌<>◌, ◌≡◌, refl, ap, sym, ◌∙◌, true, false, ◌&&◌, some,
  arith, leb, nonempty,
}
use evidence_tool.Base.Decimal.RoundTrip.{NoSpace, strip-NoSpace}
use evidence_tool.Base.Utf8.{char_of}
use evidence_tool.Providers.{is_hex}
use evidence_tool.Tracing.Context.{
  TraceContext, take_hex, take_dash, lower_hex, groups, check_context, parse_w3c_traceparent,
}
use evidence_tool.Tracing.Context.Shape.{AllHex, HexOf, IsContext}

take_hex_lem : (n : ℕ) (s rest : String) → HexOf n s → take_hex n (s <> rest) ≡ some (s, rest)
unfolding take_hex count_chars
take_hex_lem zero String.[] rest h = rw nil-append refl
take_hex_lem zero (String.◌∷◌ c s) rest h = absurd (omega arith)
take_hex_lem (suc n) String.[] rest h = absurd (omega arith)
take_hex_lem (suc n) (String.◌∷◌ c s) rest (h, k) =
    let hex : is_hex (code c) ≡ true = ground arith in
    rw cons-append (rw hex (rw (take_hex_lem n s rest (omega arith, k.1)) refl))

lower_hex_self : (s : String) → AllHex s → lower_hex s ≡ s
unfolding lower_hex
lower_hex_self String.[] h = refl
lower_hex_self (String.◌∷◌ c s) h =
    let low : (leb 65 (code c) && leb (code c) 70) ≡ false = ground arith in
    rw (low, lower_hex_self s h.1) refl

abbrev dashed : String → String → String
dashed a b = a <> ("-" <> b)

-- the header that such a context is sent as
unfoldable pub format_traceparent : TraceContext → String
format_traceparent c = dashed c.version (dashed c.trace_id (dashed c.parent_id c.flags))

count_chars-append : (s t : String) → count_chars (s <> t) ≡ count_chars s + count_chars t
unfolding count_chars
count_chars-append String.[] t = rw nil-append (omega arith)
count_chars-append (String.◌∷◌ c s) t = rw (cons-append c s t, count_chars-append s t) (omega arith)

dash-append : (s : String) → "-" <> s ≡ String.◌∷◌ (char_of 45) s
unfolding char_of
dash-append s = cons-append (char_of 45) "" s ∙ ap (String.◌∷◌ (char_of 45)) (nil-append s)

count_chars-dashed :
    (m n : ℕ) (s t : String)
    → count_chars s ≡ m
    → count_chars t ≡ n
    → count_chars (dashed s t) ≡ m + (1 + n)
unfolding count_chars
count_chars-dashed m n s t h k =
    rw (count_chars-append s ("-" <> t), dash-append t) (omega (arith, h, k))

NoSpace-dashed : (s t : String) → AllHex s → NoSpace t → NoSpace (dashed s t)
unfolding char_of
NoSpace-dashed String.[] t h k = rw (nil-append ("-" <> t), dash-append t) (refl, k)
NoSpace-dashed (String.◌∷◌ c s) t h k =
    rw (cons-append c s ("-" <> t)) (ground arith, NoSpace-dashed s t h.1 k)

AllHex-NoSpace : (s : String) → AllHex s → NoSpace s
AllHex-NoSpace String.[] h = tt
AllHex-NoSpace (String.◌∷◌ c s) h = (ground arith, AllHex-NoSpace s h.1)

take_dash_lem : (s : String) → take_dash ("-" <> s) ≡ some s
unfolding take_dash char_of
take_dash_lem s = rw (dash-append s) refl

groups_lem :
    (v t p f : String)
    → HexOf 2 v
    → HexOf 32 t
    → HexOf 16 p
    → HexOf 2 f
    → groups (dashed v (dashed t (dashed p f))) ≡ some (v, t, p, f)
unfolding groups
groups_lem v t p f hv ht hp hf =
    let last : take_hex 2 f ≡ some (f, "") =
      ap (take_hex 2) (sym (append-nil f)) ∙ take_hex_lem 2 f "" hf in
    rw
      (
        take_hex_lem 2 v ("-" <> dashed t (dashed p f)) hv,
        take_dash_lem (dashed t (dashed p f)),
        take_hex_lem 32 t ("-" <> dashed p f) ht,
        take_dash_lem (dashed p f),
        take_hex_lem 16 p ("-" <> f) hp,
        take_dash_lem f,
        last,
      )
      refl

nonempty_of_count : (n : ℕ) (s : String) → count_chars s ≡ suc n → nonempty s ≡ true
unfolding count_chars
nonempty_of_count n String.[] h = absurd (omega arith)
nonempty_of_count n (String.◌∷◌ c s) h = refl

-- A context of the shape that the parser accepts, sent as a header, is parsed to itself, with that
-- header as its raw text.
pub parse-format_traceparent :
    (c : TraceContext)
    → IsContext c
    → parse_w3c_traceparent (some (format_traceparent c))
      ≡ some (record c { raw = format_traceparent c })
unfolding parse_w3c_traceparent check_context format_traceparent
parse-format_traceparent c h =
    let size = count_chars-dashed 2 52 c.version _ h.version.0 (
      count_chars-dashed 32 19 c.trace_id _ h.trace_id.0
        (count_chars-dashed 16 2 c.parent_id c.flags h.parent_id.0 h.flags.0)) in
    let bare = strip-NoSpace (format_traceparent c) (
      NoSpace-dashed c.version _ h.version.1 (
        NoSpace-dashed c.trace_id _ h.trace_id.1
          (NoSpace-dashed c.parent_id c.flags h.parent_id.1 (AllHex-NoSpace c.flags h.flags.1)))) in
    rw
      (
        nonempty_of_count 54 (format_traceparent c) size,
        bare,
        groups_lem c.version c.trace_id c.parent_id c.flags h.version h.trace_id h.parent_id
            h.flags,
        lower_hex_self c.version h.version.1,
        lower_hex_self c.trace_id h.trace_id.1,
        lower_hex_self c.parent_id h.parent_id.1,
        lower_hex_self c.flags h.flags.1,
        h.known,
        h.some_trace,
        h.some_parent,
        size,
      )
      (ground arith)
