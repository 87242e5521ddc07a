-- ===== src/Tests/World.antt =====
-- A small outside: the bytes that wait on a connection come one at a time, every command is missing,
-- and every connection is refused but that of Redis.
use evidence_tool.Base.{
  ℕ, ◌<◌, ◌≤◌, ◌≡◌, ◌≢◌, refl, true, false, none, some, List, [], ◌∷◌, ◌++◌, arith, ok, length,
  if◌then◌else◌, nat_beq,
}
use evidence_tool.Base.Int.{pos}
use evidence_tool.Models.Value.{finite}
use evidence_tool.Capability.{CapabilitySet, default_network, default_kubernetes, new_tracker}
use evidence_tool.Probes.System.{
  Outside, Floats, Url, Attempt, done, failed, file_not_found, connection_refused,
}
use evidence_tool.Probes.Session.{Session}
use evidence_tool.Probes.Redis.Resp.Frames.{IsStream}

abbrev pub floats : Floats
floats = record {
  parse_float = λ s. ok (finite (pos 1));
  show_float = λ f. "1.0";
  greater = λ a b. false;
  at_least = λ a b. false;
  latency = λ a b. finite (pos 0);
  megabytes = λ n. finite n;
  ratio = λ a b. finite a;
  percent = λ f. f;
}

abbrev pub recv : ℕ → List ℕ → Attempt (List ℕ) × List ℕ
recv n [] = (done [], [])
recv n (b ∷ w) = (done (b ∷ []), w)

abbrev pub connect : ℕ → Attempt (Unit {0})
connect port = if nat_beq port 6379 then done tt else failed (connection_refused "refused")

abbrev pub url : Url
url = record { scheme = "https"; hostname = some "10.0.0.1"; port = ok none; path = "/" }

abbrev pub small : Outside
small = record {
  World = List ℕ;
  now = λ w. 1000;
  subprocess_run = λ args seconds w. (file_not_found, w);
  getaddrinfo = λ host w. (done [], w);
  connect = λ host port seconds w. (connect port, w);
  udp_source = λ host w. (done "10.0.0.9", w);
  tls_session = λ host port seconds w. (done (none, none), w);
  http_get = λ tls host port path seconds w. (done 503, w);
  open_socket = λ host port seconds w. (connect port, w);
  send = λ sent w. (done tt, w);
  recv = recv;
  close = λ w. (done tt, w);
  path_exists = λ path w. (true, w);
  disk_free = λ path w. (ok none, w);
  is_windows = false;
  floats = floats;
  lower = λ s. s;
  milliseconds = λ s. ok (pos 0);
  urlparse = λ s. url;
}

abbrev pub waiting : List ℕ → List ℕ
waiting w = w

recv_lem :
    (n : ℕ) (w : List ℕ)
    → 0 < n
    → (chunk : List ℕ) × (rest : List ℕ) × (recv n w ≡ (done chunk, rest))
      × (w ≡ chunk ++ rest)
      × (length chunk ≤ n)
      × (w ≢ [] → chunk ≢ [])
recv_lem n [] h = ([], [], refl, refl, omega arith, λ some_left. some_left)
recv_lem n (b ∷ w) h = (b ∷ [], w, refl, refl, omega arith, λ some_left. cc)

pub small-IsStream : IsStream small waiting
small-IsStream = record { received = recv_lem }

abbrev pub allowed : CapabilitySet
allowed = record {
  network = record default_network { max_probes = some 3 };
  kubernetes = default_kubernetes;
  allowed_providers = none;
  require_trusted_providers = false;
  policy_fingerprint = none;
  probe_tracker = new_tracker none;
}

abbrev pub session_with : List ℕ → Session (List ℕ)
session_with w = record { capabilities = allowed; probe_count = 0; world = w }
