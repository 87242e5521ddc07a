-- ===== src/Probes/Redis/Resp/RoundTrip.antt =====
-- The arguments of a command, written by `_encode_resp_command`, are what `_read_resp_response` reads.
use Prim.Native.Char.{code}
use text.Mathlib.TextLemmas.{cons-append, nil-append}
use mathlib.Core.List
use evidence_tool.Base.{
  ℕ, zero, suc, ◌+◌, ◌*◌, ◌/◌, ◌%◌, ◌≤◌, ◌<◌, String, ◌<>◌, ◌≡◌, refl, sym, ap, ◌∙◌, subst, true,
  false, some, List, [], ◌∷◌, ◌++◌, arith, nat_beq, ltb, length, All, Bool-cases, inl, inr, map,
}
use evidence_tool.Base.Int.{pos}
use evidence_tool.Base.Decimal.{decimal, parse_int, digits_before, digit_char}
use evidence_tool.Base.Decimal.RoundTrip.{AllDigits, decimal-AllDigits, parse_int-decimal}
use evidence_tool.Base.Utf8.{encode, encode_char, decode, code-char_of}
use evidence_tool.Base.Utf8.RoundTrip.{decode-encode}
use evidence_tool.Probes.System.{Outside}
use evidence_tool.Probes.Session.{Session, Probe, pure, ◌>>=◌}
use evidence_tool.Probes.Redis.Resp.{
  max_bulk_size, max_line_length, encode_bulk, encode_args, encode_resp_command, read_resp_line,
  read_bulk, read_sized, read_reply, read_resp_response,
}
use evidence_tool.Probes.Redis.Resp.Frames.{
  IsStream, NoLf, Reads, bind_Reads, read_resp_line_lem, read_bulk_lem,
}

encode_char-ascii : (n : ℕ) → n < 128 → encode_char n ≡ n ∷ []
unfolding encode_char
encode_char-ascii n h = ground arith

digits-NoLf : (s : String) → AllDigits s → NoLf (encode s)
unfolding encode
digits-NoLf String.[] h = tt
digits-NoLf (String.◌∷◌ c s) h =
    rw (encode_char-ascii (code c) (ground arith)) (ground arith, digits-NoLf s h.1)

pow_ten : ℕ → ℕ
pow_ten zero = 1
pow_ten (suc k) = 10 * pow_ten k

encode-digit :
    (d : ℕ) (s : String) → d < 10 → encode (String.◌∷◌ (digit_char d) s) ≡ (48 + d) ∷ encode s
unfolding encode
encode-digit d s h =
    rw (code-char_of (48 + d) (omega arith)) (rw (encode_char-ascii (48 + d) (omega arith)) refl)

length-digits_before :
    (k fuel n : ℕ) (out : String)
    → n < pow_ten k
    → length (encode (digits_before fuel n out)) ≤ k + length (encode out)
unfolding digits_before pow_ten
length-digits_before k zero n out h = omega arith
length-digits_before zero (suc fuel) n out h =
    let none_left : nat_beq n 0 ≡ true = ground arith in rw none_left (omega arith)
length-digits_before (suc k) (suc fuel) n out h = elim (Bool-cases (nat_beq n 0)) [
  | inl none_left ↦ rw none_left (omega arith)
  | inr more ↦ rw more (
      omega (
        arith,
        length-digits_before k fuel (n / 10) (String.◌∷◌ (digit_char (n % 10)) out) (omega arith),
        ap length (encode-digit (n % 10) out (omega arith)),
      ))
]

length-decimal : (k n : ℕ) → n < pow_ten k → length (encode (decimal n)) ≤ suc k
unfolding decimal encode encode_char
length-decimal k n h = elim (Bool-cases (nat_beq n 0)) [
  | inl none_left ↦ rw none_left (omega arith)
  | inr more ↦ rw more (omega (arith, length-digits_before k n n "" h))
]

-- the first line of a command or of a bulk string
abbrev header : String → ℕ → List ℕ
header kind n = encode (kind <> decimal n)

header-NoLf :
    (kind : String) (b n : ℕ)
    → header kind n ≡ b ∷ encode (decimal n)
    → nat_beq b 10 ≡ false
    → NoLf (header kind n)
header-NoLf kind b n e h = rw e (h, digits-NoLf (decimal n) (decimal-AllDigits n))

header_fits :
    (kind : String) (b n : ℕ)
    → header kind n ≡ b ∷ encode (decimal n)
    → n ≤ max_bulk_size
    → length (header kind n) + 2 ≤ max_line_length
unfolding pow_ten
header_fits kind b n e h = rw e (omega (arith, length-decimal 8 n (omega arith)))

dollar : (n : ℕ) → header "$" n ≡ 36 ∷ encode (decimal n)
unfolding encode encode_char
dollar n = rw (cons-append, nil-append) refl

star : (n : ℕ) → header "*" n ≡ 42 ∷ encode (decimal n)
unfolding encode encode_char
star n = rw (cons-append, nil-append) refl

bulk_bytes_lem :
    (bytes rest : List ℕ)
    → encode_bulk bytes ++ rest ≡ header "$" (length bytes) ++ 13 ∷ 10 ∷ (bytes ++ 13 ∷ 10 ∷ rest)
unfolding encode_bulk
bulk_bytes_lem bytes rest =
    List.append_assoc (header "$" (length bytes)) _ rest
    ∙ ap (λ t. header "$" (length bytes) ++ 13 ∷ 10 ∷ t)
        (List.append_assoc bytes (13 ∷ 10 ∷ []) rest)

module _ (o : Outside) (pending : o.World → List ℕ) (stream : IsStream o pending) where
  read_header :
      (kind : String) (b n : ℕ) (rest : List ℕ) (s : Session o.World)
      → header kind n ≡ b ∷ encode (decimal n)
      → nat_beq b 10 ≡ false
      → n ≤ max_bulk_size
      → pending s.world ≡ header kind n ++ 13 ∷ 10 ∷ rest
      → Reads o pending stream (read_resp_line o) s (kind <> decimal n) rest
  read_header kind b n rest s e h k waits =
      subst (λ t. Reads o pending stream (read_resp_line o) s t rest)
        (decode-encode (kind <> decimal n))
        (read_resp_line_lem o pending stream (header kind n) rest s waits (header-NoLf kind b n e h)
          (header_fits kind b n e k))

  read_sized_fits :
      (content : String) (n : ℕ)
      → n ≤ max_bulk_size
      → read_sized o content (some (pos n)) ≡ read_bulk o n
  unfolding read_sized
  read_sized_fits content n h =
      let fits : ltb max_bulk_size n ≡ false = ground arith in rw fits refl

  read_reply-dollar :
      (content : String) → read_reply o ("$" <> content) ≡ read_sized o content (parse_int content)
  unfolding read_reply
  read_reply-dollar content = rw (cons-append, nil-append) refl

  sized_lem :
      (bytes rest : List ℕ) (s : Session o.World)
      → length bytes ≤ max_bulk_size
      → pending s.world ≡ bytes ++ 13 ∷ 10 ∷ rest
      → Reads o pending stream
          (read_reply o ("$" <> decimal (length bytes)))
          s
          ("$", decode bytes)
          rest
  sized_lem bytes rest s h waits =
      subst (λ m. Reads o pending stream m s ("$", decode bytes) rest)
        (sym (
          read_reply-dollar (decimal (length bytes))
          ∙ ap (read_sized o (decimal (length bytes))) (parse_int-decimal (length bytes))
          ∙ read_sized_fits (decimal (length bytes)) (length bytes) h))
        (read_bulk_lem o pending stream bytes rest s waits)

  -- one reply
  pub read_resp_response_lem :
      (arg : String) (rest : List ℕ) (s : Session o.World)
      → length (encode arg) ≤ max_bulk_size
      → pending s.world ≡ encode_bulk (encode arg) ++ rest
      → Reads o pending stream (read_resp_response o) s ("$", arg) rest
  unfolding read_resp_response
  read_resp_response_lem arg rest s h waits =
      bind_Reads o pending stream (read_resp_line o) (read_reply o) s
        ("$" <> decimal (length (encode arg))) ("$", arg) (encode arg ++ 13 ∷ 10 ∷ rest) rest
        (read_header "$" 36 (length (encode arg)) _ s (dollar _) refl h
          (waits ∙ bulk_bytes_lem (encode arg) rest))
        λ w left.
          subst
            (λ t.
              Reads o pending stream (read_reply o ("$" <> decimal (length (encode arg))))
                (record s { world = w }) ("$", t) rest)
            (decode-encode arg) (sized_lem (encode arg) rest (record s { world = w }) h left)

  read_reply-star : (content : String) → read_reply o ("*" <> content) ≡ pure ("*", content)
  unfolding read_reply
  read_reply-star content = rw (cons-append, nil-append) refl

  -- as many replies as there are arguments
  unfoldable pub read_each : List String → Probe o.World (List (String × String))
  read_each [] = pure []
  read_each (arg ∷ args) = do
    reply ← read_resp_response o
    replies ← read_each args
    pure (reply ∷ replies)

  -- the reply that the head of a command is, and one for each argument
  unfoldable pub read_command :
      List String → Probe o.World ((String × String) × List (String × String))
  unfolding read_each
  read_command args = do head ← read_resp_response o; replies ← read_each args; pure (head, replies)

  abbrev pub bulk_reply : String → String × String
  bulk_reply arg = ("$", arg)

  read_each_lem :
      (args : List String) (rest : List ℕ) (s : Session o.World)
      → All (λ arg. length (encode arg) ≤ max_bulk_size) args
      → pending s.world ≡ encode_args args ++ rest
      → Reads o pending stream (read_each args) s (map bulk_reply args) rest
  unfolding read_each encode_args pure
  read_each_lem [] rest s h waits = (s.world, refl, waits)
  read_each_lem (arg ∷ args) rest s h waits =
      bind_Reads o pending stream (read_resp_response o) _ s ("$", arg)
        (map bulk_reply (arg ∷ args)) (encode_args args ++ rest) rest
        (read_resp_response_lem arg _ s h.0
          (waits ∙ List.append_assoc (encode_bulk (encode arg)) (encode_args args) rest))
        λ w left.
          bind_Reads o pending stream (read_each args) _ (record s { world = w })
            (map bulk_reply args) (map bulk_reply (arg ∷ args)) rest rest
            (read_each_lem args rest (record s { world = w }) h.1 left)
            λ w' left'. (w', refl, left')

  read_head :
      (n : ℕ) (rest : List ℕ) (s : Session o.World)
      → n ≤ max_bulk_size
      → pending s.world ≡ header "*" n ++ 13 ∷ 10 ∷ rest
      → Reads o pending stream (read_resp_response o) s ("*", decimal n) rest
  unfolding read_resp_response pure
  read_head n rest s h waits =
      bind_Reads o pending stream (read_resp_line o) (read_reply o) s ("*" <> decimal n)
        ("*", decimal n) rest rest (read_header "*" 42 n rest s (star n) refl h waits)
        λ w left. (w, ap (λ m. m (record s { world = w })) (read_reply-star (decimal n)), left)

  -- However a stream is cut into pieces: where it begins with an encoded command, with at most
  -- 16777216 arguments of at most 16777216 bytes, reading replies gives the number of the arguments
  -- and then every argument as it was, and leaves what comes after the command.
  pub read-encode_resp_command :
      (args : List String) (rest : List ℕ) (s : Session o.World)
      → length args ≤ max_bulk_size
      → All (λ arg. length (encode arg) ≤ max_bulk_size) args
      → pending s.world ≡ encode_resp_command args ++ rest
      → Reads o pending stream
          (read_command args)
          s
          (("*", decimal (length args)), map bulk_reply args)
          rest
  unfolding read_command encode_resp_command pure
  read-encode_resp_command args rest s h sizes waits =
      bind_Reads o pending stream (read_resp_response o) _ s ("*", decimal (length args))
        (("*", decimal (length args)), map bulk_reply args) (encode_args args ++ rest) rest
        (read_head (length args) _ s h
          (waits ∙ List.append_assoc (header "*" (length args)) _ rest))
        λ w left.
          bind_Reads o pending stream (read_each args) _ (record s { world = w })
            (map bulk_reply args) (("*", decimal (length args)), map bulk_reply args) rest rest
            (read_each_lem args rest (record s { world = w }) sizes left)
            λ w' left'. (w', refl, left')
