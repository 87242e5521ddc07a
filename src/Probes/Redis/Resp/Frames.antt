-- ===== src/Probes/Redis/Resp/Frames.antt =====
-- A bulk string that was written is read back, however the stream cuts it into pieces.
use mathlib.Core.List
use evidence_tool.Base.{
  ℕ, zero, suc, ◌+◌, ◌-◌, ◌≤◌, ◌<◌, ◌≡◌, ◌≢◌, refl, sym, ap, ◌∙◌, true, false, List, [], ◌∷◌, ◌++◌,
  arith, if◌then◌else◌, nat_beq, ltb, leb, length, length-append, length-pos, All, ok,
}
use evidence_tool.Base.Utf8.{decode}
use evidence_tool.Probes.System.{Outside, done}
use evidence_tool.Probes.Session.{Session, Probe, pure, ◌>>=◌}
use evidence_tool.Probes.Redis.Resp.{
  max_line_length, ends_crlf, drop_crlf, next_byte, line_bytes, read_resp_line, bulk_bytes,
  read_bulk,
}

-- What `recv` gives of the bytes that wait on a connection: the first of them, at least one if there
-- are any, and at most as many as were asked for.
pub record IsStream (o : Outside) (pending : o.World → List ℕ) : Type 0 where
  pub received :
      (n : ℕ) (w : o.World)
      → 0 < n
      → (chunk : List ℕ) × (rest : o.World) × (o.recv n w ≡ (done chunk, rest))
        × (pending w ≡ chunk ++ pending rest)
        × (length chunk ≤ n)
        × (pending w ≢ [] → chunk ≢ [])

ends_crlf-other : (buf : List ℕ) (b : ℕ) → nat_beq b 10 ≡ false → ends_crlf (buf ++ b ∷ []) ≡ false
unfolding ends_crlf
ends_crlf-other [] b h = refl
ends_crlf-other (a ∷ []) b h = ground arith
ends_crlf-other (a ∷ c ∷ []) b h = ends_crlf-other (c ∷ []) b h
ends_crlf-other (a ∷ c ∷ d ∷ r) b h = ends_crlf-other (c ∷ d ∷ r) b h

ends_crlf_lem : (buf : List ℕ) → ends_crlf ((buf ++ 13 ∷ []) ++ 10 ∷ []) ≡ true
unfolding ends_crlf
ends_crlf_lem [] = refl
ends_crlf_lem (a ∷ []) = refl
ends_crlf_lem (a ∷ c ∷ []) = refl
ends_crlf_lem (a ∷ c ∷ d ∷ r) = ends_crlf_lem (c ∷ d ∷ r)

drop_crlf_lem : (buf : List ℕ) → drop_crlf ((buf ++ 13 ∷ []) ++ 10 ∷ []) ≡ buf
unfolding drop_crlf
drop_crlf_lem [] = refl
drop_crlf_lem (a ∷ []) = refl
drop_crlf_lem (a ∷ c ∷ []) = refl
drop_crlf_lem (a ∷ c ∷ d ∷ r) = ap (λ t. a ∷ t) (drop_crlf_lem (c ∷ d ∷ r))

abbrev pub NoLf : List ℕ → Type 0
NoLf = All λ b. nat_beq b 10 ≡ false

module _ (o : Outside) (pending : o.World → List ℕ) (stream : IsStream o pending) where
  one_chunk :
      (b : ℕ) (chunk tail after : List ℕ)
      → b ∷ tail ≡ chunk ++ after
      → length chunk ≤ 1
      → chunk ≢ []
      → (chunk ≡ b ∷ []) × (after ≡ tail)
  one_chunk b [] tail after e h k = absurd (k refl)
  one_chunk b (c ∷ []) tail after e h k = ground arith
  one_chunk b (c ∷ d ∷ r) tail after e h k = absurd (omega arith)

  -- `recv(1)` where a byte waits
  one :
      (b : ℕ) (tail : List ℕ) (w : o.World)
      → pending w ≡ b ∷ tail
      → (rest : o.World) × (o.recv 1 w ≡ (done (b ∷ []), rest)) × (pending rest ≡ tail)
  one b tail w e =
      let (chunk, rest, got, split, fits, some_byte) = stream.received 1 w (omega arith) in
      let (is_b, left) =
        one_chunk b chunk tail (pending rest) (sym e ∙ split) fits
          (some_byte (rw e (List.cons-ne-nil b tail))) in
      (rest, got ∙ ap (λ c. (done c, rest)) is_b, left)

  round :
      (left : ℕ) (buf chunk : List ℕ) (s : Session o.World) (w : o.World)
      → o.recv 1 s.world ≡ (done chunk, w)
      → line_bytes o (suc left) buf s
        ≡ next_byte o (line_bytes o left) left buf chunk (record s { world = w })
  unfolding line_bytes ◌>>=◌
  round left buf chunk s w got = rw got refl

  go_on :
      (left : ℕ) (buf : List ℕ) (b : ℕ) (s : Session o.World)
      → 0 < left
      → ends_crlf (buf ++ b ∷ []) ≡ false
      → next_byte o (line_bytes o left) left buf (b ∷ []) s ≡ line_bytes o left (buf ++ b ∷ []) s
  unfolding next_byte
  go_on left buf b s h e =
      let some_left : nat_beq left 0 ≡ false = ground arith in rw (some_left, e) refl

  finish :
      (left : ℕ) (buf : List ℕ) (s : Session o.World)
      → 0 < left
      → next_byte o (line_bytes o left) left (buf ++ 13 ∷ []) (10 ∷ []) s ≡ (ok buf, s)
  unfolding next_byte pure
  finish left buf s h =
      let some_left : nat_beq left 0 ≡ false = ground arith in
      rw (some_left, ends_crlf_lem buf, drop_crlf_lem buf) refl

  abbrev pub Reads : {A : Type 0} → Probe o.World A → Session o.World → A → List ℕ → Type 0
  Reads m s a rest = (w : o.World) × (m s ≡ (ok a, record s { world = w })) × (pending w ≡ rest)

  -- a line that is not too long
  line_lem :
      (xs : List ℕ) (left : ℕ) (buf rest : List ℕ) (s : Session o.World)
      → pending s.world ≡ xs ++ 13 ∷ 10 ∷ rest
      → NoLf xs
      → length xs + 2 < left
      → Reads (line_bytes o left buf) s (buf ++ xs) rest
  line_lem xs zero buf rest s e n h = absurd (omega arith)
  line_lem [] (suc zero) buf rest s e n h = absurd (omega arith)
  line_lem [] (suc (suc left)) buf rest s e n h =
      let (w, got, left_w) = one 13 (10 ∷ rest) s.world e in
      let (w', got', left_w') = one 10 rest w left_w in
      (
        w',
        round (suc left) buf (13 ∷ []) s w got
            ∙ go_on (suc left) buf 13 (record s { world = w }) (omega arith)
                (ends_crlf-other buf 13 refl)
            ∙ round left (buf ++ 13 ∷ []) (10 ∷ []) (record s { world = w }) w' got'
            ∙ finish left buf (record s { world = w' }) (omega arith)
            ∙ rw List.append-nil refl,
        left_w',
      )
  line_lem (x ∷ xs) (suc left) buf rest s e n h =
      let (w, got, left_w) = one x (xs ++ 13 ∷ 10 ∷ rest) s.world e in
      let (w', reads, left_w') =
        line_lem xs left (buf ++ x ∷ []) rest (record s { world = w }) left_w n.1 (omega arith) in
      (
        w',
        round left buf (x ∷ []) s w got
            ∙ go_on left buf x (record s { world = w }) (omega arith) (ends_crlf-other buf x n.0)
            ∙ reads
            ∙ rw List.append_assoc refl,
        left_w',
      )

  pub bind_Reads :
      {A B : Type 0} (m : Probe o.World A) (next : A → Probe o.World B) (s : Session o.World)
      (a : A) (b : B) (mid rest : List ℕ)
      → Reads m s a mid
      → ((w : o.World) → pending w ≡ mid → Reads (next a) (record s { world = w }) b rest)
      → Reads (m >>= next) s b rest
  unfolding ◌>>=◌
  bind_Reads m next s a b mid rest (w, run, left) k =
      let (w', run', left') = k w left in (w', rw run run', left')

  pub read_resp_line_lem :
      (xs rest : List ℕ) (s : Session o.World)
      → pending s.world ≡ xs ++ 13 ∷ 10 ∷ rest
      → NoLf xs
      → length xs + 2 ≤ max_line_length
      → Reads (read_resp_line o) s (decode xs) rest
  unfolding read_resp_line pure
  read_resp_line_lem xs rest s e n h =
      bind_Reads (line_bytes o (suc max_line_length) []) _ s xs (decode xs) rest rest
        (line_lem xs (suc max_line_length) [] rest s e n (omega arith)) λ w left. (w, refl, left)

  -- a piece of the stream that is no longer than the data begins the data
  piece :
      (chunk after data_left rest : List ℕ)
      → data_left ++ rest ≡ chunk ++ after
      → length chunk ≤ length data_left
      → (others : List ℕ) × (data_left ≡ chunk ++ others) × (after ≡ others ++ rest)
  piece [] after d rest e h = (d, refl, sym e)
  piece (c ∷ chunk) after [] rest e h = absurd (omega arith)
  piece (c ∷ chunk) after (x ∷ d) rest e h =
      let (others, same, left) = piece chunk after d rest (cc) (omega arith) in (others, cc, left)

  abbrev missing_bytes : ℕ → List ℕ → ℕ
  missing_bytes size received =
      let missing = size - length received in if leb missing 4096 then missing else 4096

  bulk_round :
      (rounds size : ℕ) (received chunk : List ℕ) (s : Session o.World) (w : o.World)
      → ltb (length received) size ≡ true
      → o.recv (missing_bytes size received) s.world ≡ (done chunk, w)
      → chunk ≢ []
      → bulk_bytes o (suc rounds) size received s
        ≡ bulk_bytes o rounds size (received ++ chunk) (record s { world = w })
  unfolding bulk_bytes ◌>>=◌
  bulk_round rounds size received [] s w more got some_byte = absurd (some_byte refl)
  bulk_round rounds size received (c ∷ chunk) s w more got some_byte = rw (more, got) refl

  bulk_end :
      (rounds size : ℕ) (received : List ℕ) (s : Session o.World)
      → length received ≡ size
      → bulk_bytes o rounds size received s ≡ (ok received, s)
  unfolding bulk_bytes pure
  bulk_end zero size received s h = refl
  bulk_end (suc rounds) size received s h =
      let full : ltb (length received) size ≡ false = ground arith in rw full refl

  -- the data of a bulk string, in pieces of any size
  bulk_lem :
      (rounds size : ℕ) (received d rest : List ℕ) (s : Session o.World)
      → pending s.world ≡ d ++ rest
      → length received + length d ≡ size
      → length d ≤ rounds
      → Reads (bulk_bytes o rounds size received) s (received ++ d) rest
  bulk_lem zero size received [] rest s e h k =
      (s.world, bulk_end zero size received s (omega arith) ∙ rw List.append-nil refl, e)
  bulk_lem zero size received (b ∷ d) rest s e h k = absurd (omega arith)
  bulk_lem (suc rounds) size received [] rest s e h k =
      (s.world, bulk_end (suc rounds) size received s (omega arith) ∙ rw List.append-nil refl, e)
  bulk_lem (suc rounds) size received (b ∷ d) rest s e h k =
      let (chunk, w, got, split, fits, some_byte) =
        stream.received (missing_bytes size received) s.world (ground arith) in
      let (others, same, left) =
        piece chunk (pending w) (b ∷ d) rest (sym e ∙ split) (ground arith) in
      let a_byte = some_byte (rw e (List.cons-ne-nil b (d ++ rest))) in
      let sizes : suc (length d) ≡ length chunk + length others =
        ap length same ∙ length-append chunk others in
      let grown = length-append received chunk in
      let (w', reads, left') =
        bulk_lem rounds size (received ++ chunk) others rest (record s { world = w }) left
          (omega arith) (omega (arith, length-pos chunk a_byte)) in
      (
        w',
        bulk_round rounds size received chunk s w (ground arith) got a_byte
            ∙ reads
            ∙ ap (λ (t : List ℕ). (ok t, record s { world = w' }))
                (List.append_assoc received chunk others ∙ ap (λ t. received ++ t) (sym same)),
        left',
      )

  pub read_bulk_lem :
      (d rest : List ℕ) (s : Session o.World)
      → pending s.world ≡ d ++ 13 ∷ 10 ∷ rest
      → Reads (read_bulk o (length d)) s ("$", decode d) rest
  unfolding read_bulk pure
  read_bulk_lem d rest s e =
      bind_Reads (bulk_bytes o (length d) (length d) []) _ s d ("$", decode d) (13 ∷ 10 ∷ rest) rest
        (bulk_lem (length d) (length d) [] d (13 ∷ 10 ∷ rest) s e (omega arith) (omega arith))
        λ w left.
          bind_Reads (read_resp_line o) _ (record s { world = w }) (decode []) ("$", decode d) rest
            rest (read_resp_line_lem [] rest (record s { world = w }) left tt (omega arith))
            λ w' left'. (w', refl, left')
