-- ===== src/Tests/Redis.antt =====
-- The Redis provider at concrete inputs.
use evidence_tool.Base.{
  ℕ, ◌≤◌, String, ◌≡◌, refl, true, false, List, [], ◌∷◌, ◌++◌, length, All, map, ok, arith,
  has_infix, Yields, string_dec, ◌==◌, starts_with,
}
use evidence_tool.Base.Decimal.{decimal}
use evidence_tool.Base.Utf8.{encode, decode_from, char_of}
use evidence_tool.Models.Value.{finite}
use evidence_tool.Models.Observation.{Observation}
use evidence_tool.Base.Int.{pos}
use evidence_tool.Diagnose.Collect.{ids_of}
use evidence_tool.Probes.System.{done}
use evidence_tool.Probes.Session.{Session, ◌>>=◌}
use evidence_tool.Probes.Redis.{Settings}
use evidence_tool.Probes.Redis.Resp.{
  max_bulk_size, ends_crlf, drop_crlf, encode_resp_command, read_resp_line, read_reply,
  read_resp_response,
}
use evidence_tool.Probes.Redis.Resp.Frames.{Reads}
use evidence_tool.Probes.Redis.Resp.RoundTrip.{read_command, bulk_reply, read-encode_resp_command}
use evidence_tool.Probes.Redis.Local.{auth_command, exchange, run_session, execute_redis_local}
use evidence_tool.Probes.Redis.Collect.{run_probes}
use evidence_tool.Probes.Redis.Promises.{Pinged, execute_redis_local-Pinged}
use evidence_tool.Probes.Redis.Secrets.{twice, run_probes-password, run_session-twice}
use evidence_tool.Tests.World.{small, waiting, small-IsStream, session_with}
use evidence_tool.Tests.Probes.{ip}

abbrev settings : Settings
settings = record {
  target_host = "10.0.0.1";
  port = 6379;
  password = "secret";
  username = "";
  expected_role = "master";
  max_mem_ratio = finite (pos 900000);
  max_latency_ms = finite (pos 100000000);
}

abbrev words : List String
words = "GET" ∷ "k" ∷ []

abbrev sent : Session (List ℕ)
sent = session_with (encode_resp_command words ++ 43 ∷ [])

word_sizes : All (λ arg. length (encode arg) ≤ max_bulk_size) words
unfolding encode
word_sizes = (omega arith, (omega arith, tt))

read-encode_resp_command_example :
    Reads small waiting small-IsStream
      (read_command small waiting small-IsStream words)
      sent
      (("*", decimal 2), map (bulk_reply small waiting small-IsStream) words)
      (43 ∷ [])
read-encode_resp_command_example =
    read-encode_resp_command small waiting small-IsStream words (43 ∷ []) sent (omega arith)
      word_sizes refl

execute_redis_local-Pinged_example :
    Pinged (execute_redis_local small settings 2 (session_with [])).0
execute_redis_local-Pinged_example = execute_redis_local-Pinged small settings 2 (session_with [])

run_probes-password_example :
    run_probes small ip (record settings { password = "secret" }) "node" (session_with [])
    ≡ run_probes small ip (record settings { password = "public" }) "node" (session_with [])
run_probes-password_example =
    run_probes-password small ip settings "node" refl "secret" "public" (session_with []) refl refl

-- `-WRONGPASS` and then `-NOAUTH`, each with its end of line
abbrev ping_reply : List ℕ
ping_reply = 45 ∷ 78 ∷ 79 ∷ 65 ∷ 85 ∷ 84 ∷ 72 ∷ 13 ∷ 10 ∷ []

abbrev replies : List ℕ
replies = 45 ∷ 87 ∷ 82 ∷ 79 ∷ 78 ∷ 71 ∷ 80 ∷ 65 ∷ 83 ∷ 83 ∷ 13 ∷ 10 ∷ ping_reply

refused :
    exchange small (auth_command small settings) (session_with replies)
    ≡ (ok ("-", "WRONGPASS"), session_with ping_reply)
unfolding exchange read_resp_response read_reply read_resp_line ends_crlf drop_crlf decode_from
    char_of ◌>>=◌
refused = refl

no_ping :
    exchange small ("PING" ∷ []) (session_with ping_reply) ≡ (ok ("-", "NOAUTH"), session_with [])
unfolding exchange read_resp_response read_reply read_resp_line ends_crlf drop_crlf decode_from
    char_of ◌>>=◌
no_ping = refl

asks : has_infix "NOAUTH" "NOAUTH" ≡ true
unfolding has_infix starts_with
asks = refl

no_plus : ("-" == "+") ≡ false
unfolding string_dec
no_plus = refl

run_session-twice_example :
    Yields
      (λ (found : List Observation). ids_of found ≡ twice)
      (run_session small settings (done tt) (session_with replies)).0
run_session-twice_example =
    run_session-twice small settings "-" "WRONGPASS" "-" "NOAUTH" (session_with replies)
      (session_with ping_reply) (session_with []) refl refused no_plus no_ping no_plus asks
