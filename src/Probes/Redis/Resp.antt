-- ===== src/Probes/Redis/Resp.antt =====
-- providers/redis.py: commands and replies of the RESP protocol. Bytes are numbers; a line that is
-- not ended by CRLF ends where the stream ends or where it gets too long.
pub mod Frames
pub mod RoundTrip
use Prim.Native.Char.{code}
use evidence_tool.Base.{
  ℕ, zero, suc, ◌+◌, ◌-◌, String, ◌<>◌, Bool, true, false, ◌&&◌, Option, none, some, List, [], ◌∷◌,
  ◌++◌, if◌then◌else◌, nat_beq, ltb, leb, length,
}
use evidence_tool.Base.Int.{ℤ, pos, negsuc}
use evidence_tool.Base.Decimal.{decimal, parse_int}
use evidence_tool.Base.Utf8.{encode, decode}
use evidence_tool.Probes.System.{Outside}
use evidence_tool.Probes.Session.{Session, Probe, pure, socket_use, ◌>>=◌}

abbrev pub max_bulk_size : ℕ
max_bulk_size = 16777216

abbrev pub max_line_length : ℕ
max_line_length = 65536

-- `f"${len(arg_bytes)}\r\n"` and the bytes of the argument
unfoldable pub encode_bulk : List ℕ → List ℕ
encode_bulk bytes = encode ("$" <> decimal (length bytes)) ++ (13 ∷ 10 ∷ bytes ++ 13 ∷ 10 ∷ [])

unfoldable pub encode_args : List String → List ℕ
unfolding encode_bulk
encode_args [] = []
encode_args (arg ∷ args) = encode_bulk (encode arg) ++ encode_args args

-- `_encode_resp_command`
unfoldable pub encode_resp_command : List String → List ℕ
unfolding encode_args
encode_resp_command args = encode ("*" <> decimal (length args)) ++ (13 ∷ 10 ∷ encode_args args)

-- `buf[-2:] == b"\r\n"`
unfoldable pub ends_crlf : List ℕ → Bool
ends_crlf [] = false
ends_crlf (a ∷ []) = false
ends_crlf (a ∷ b ∷ []) = nat_beq a 13 && nat_beq b 10
ends_crlf (a ∷ b ∷ c ∷ rest) = ends_crlf (b ∷ c ∷ rest)

-- `buf[:-2]`
unfoldable pub drop_crlf : List ℕ → List ℕ
drop_crlf [] = []
drop_crlf (a ∷ []) = []
drop_crlf (a ∷ b ∷ []) = []
drop_crlf (a ∷ b ∷ c ∷ rest) = a ∷ drop_crlf (b ∷ c ∷ rest)

module _ (o : Outside) where
  -- what a round does with `recv(1)`; `left` is how many bytes more the line may have
  unfoldable pub next_byte :
      (List ℕ → Probe o.World (List ℕ)) → ℕ → List ℕ → List ℕ → Probe o.World (List ℕ)
  next_byte again left buf [] = pure buf
  next_byte again left buf (b ∷ more) =
      let extended = buf ++ b ∷ [] in
      if nat_beq left 0
      then pure buf
      else if ends_crlf extended
      then pure (drop_crlf extended)
      else again extended

  -- the loop has a round for every byte that the line may have, and one that is too many
  unfoldable pub line_bytes : ℕ → List ℕ → Probe o.World (List ℕ)
  unfolding next_byte
  line_bytes zero buf = pure buf
  line_bytes (suc left) buf = do
    chunk ← socket_use (o.recv 1)
    next_byte (line_bytes left) left buf chunk

  -- `_read_resp_line`
  unfoldable pub read_resp_line : Probe o.World String
  unfolding line_bytes
  read_resp_line = do buf ← line_bytes (suc max_line_length) []; pure (decode buf)

  unfoldable pub next_chunk :
      (List ℕ → Probe o.World (List ℕ)) → List ℕ → List ℕ → Probe o.World (List ℕ)
  next_chunk again received [] = pure received
  next_chunk again received (b ∷ more) = again (received ++ b ∷ more)

  -- `while len(data) < length`; every chunk is at least one byte, so `length` rounds are enough
  unfoldable pub bulk_bytes : ℕ → ℕ → List ℕ → Probe o.World (List ℕ)
  unfolding next_chunk
  bulk_bytes zero size received = pure received
  bulk_bytes (suc rounds) size received =
      if ltb (length received) size
      then (do
        chunk ← socket_use (
            o.recv
              (let missing = size - length received in if leb missing 4096 then missing else 4096))
        next_chunk (bulk_bytes rounds size) received chunk)
      else pure received

  unfoldable pub read_bulk : ℕ → Probe o.World (String × String)
  read_bulk size = do
    received ← bulk_bytes size size []
    end ← read_resp_line
    pure ("$", decode received)

  -- what stands for a bulk string that is too long
  unfoldable pub truncated : ℕ → String
  truncated n =
      "[TRUNCATED: "
      <> (decimal n <> (" bytes exceeds " <> (decimal max_bulk_size <> " safety limit]")))

  -- after `resp_type == "$"`
  unfoldable pub read_sized : String → Option ℤ → Probe o.World (String × String)
  read_sized content none = pure ("$", content)
  read_sized content (some (negsuc n)) = if nat_beq n 0 then pure ("$", "") else read_bulk 0
  read_sized content (some (pos n)) =
      if ltb max_bulk_size n then pure ("$", truncated n) else read_bulk n

  unfoldable pub read_reply : String → Probe o.World (String × String)
  read_reply String.[] = pure ("", "")
  read_reply (String.◌∷◌ c content) =
      if nat_beq (code c) 36
      then read_sized content (parse_int content)
      else pure (String.◌∷◌ c "", content)

  -- `_read_resp_response`
  unfoldable pub read_resp_response : Probe o.World (String × String)
  read_resp_response = do line ← read_resp_line; read_reply line
