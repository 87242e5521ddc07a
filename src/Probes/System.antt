-- ===== src/Probes/System.antt =====
-- What the providers use of the operating system: processes, sockets, TLS, HTTP and the clock. The
-- state of the outside is passed through each use, and each use says what came of it.
use evidence_tool.Base.{ℕ, String, Bool, Option, List, Result, Error, os_error}
use evidence_tool.Base.Int.{ℤ}
use evidence_tool.Models.Value.{Float}
use evidence_tool.Diagnose.Collect.{error_text}

-- `subprocess.run`: a process that ended, or the exception that was raised, by the classes that the
-- handlers tell apart; any other one, such as that for output that is not UTF-8, is given as it is
pub data Outcome : Type 0 where
  completed : (returncode : ℤ) (stdout stderr : String) → Outcome
  file_not_found timeout_expired : Outcome
  os_failure : String → Outcome
  other_exception : Error → Outcome

-- an exception of a socket, by the classes that the handlers tell apart
pub data SocketError : Type 0 where
  connection_refused timed_out ssl_error : String → SocketError
  errno_error : (errno : ℕ) → String → SocketError
  raised : Error → SocketError

-- `str(e)`
abbrev pub socket_text : SocketError → String
socket_text (connection_refused t) = t
socket_text (timed_out t) = t
socket_text (ssl_error t) = t
socket_text (errno_error n t) = t
socket_text (raised e) = error_text e

-- the exception where no handler takes it
abbrev pub uncaught : SocketError → Error
uncaught (raised e) = e
uncaught e = os_error (socket_text e)

pub data Attempt (A : Type 0) : Type 0 where
  done : A → Attempt A
  failed : SocketError → Attempt A

-- the parts of a URL that `urlparse` gives; `port` may raise
pub record Url : Type 0 where
  pub scheme : String
  pub hostname : Option String
  pub port : Result (Option ℕ)
  pub path : String

-- What is done with floats. Times are microseconds.
pub record Floats : Type 0 where
  -- `float(s)`
  pub parse_float : String → Result Float
  pub show_float : Float → String
  pub greater : Float → Float → Bool
  pub at_least : Float → Float → Bool
  -- `round((end - start) * 1000.0, 2)`
  pub latency : ℕ → ℕ → Float
  -- `round(n / (1024.0 * 1024.0), 2)`
  pub megabytes : ℤ → Float
  -- `round(a / b, 4)`
  pub ratio : ℤ → ℤ → Float
  -- `round(r * 100, 1)`
  pub percent : Float → Float

pub record Outside : Type 1 where
  pub World : Type 0
  pub now : World → ℕ
  -- the arguments and the seconds before a timeout
  pub subprocess_run : List String → ℕ → World → Outcome × World
  pub getaddrinfo : String → World → Attempt (List String) × World
  -- host, port and seconds; the connection is closed again
  pub connect : String → ℕ → ℕ → World → Attempt (Unit {0}) × World
  -- the own address of a datagram socket that is connected to the host
  pub udp_source : String → World → Attempt String × World
  -- the version and the cipher of a TLS session
  pub tls_session : String → ℕ → ℕ → World → Attempt (Option String × Option String) × World
  -- the status of a GET request: over TLS or not, host, port, path, seconds
  pub http_get : Bool → String → ℕ → String → ℕ → World → Attempt ℕ × World
  -- a connection that stays open: host, port and seconds
  pub open_socket : String → ℕ → ℕ → World → Attempt (Unit {0}) × World
  pub send : List ℕ → World → Attempt (Unit {0}) × World
  -- at most so many bytes; none at the end of the stream
  pub recv : ℕ → World → Attempt (List ℕ) × World
  pub close : World → Attempt (Unit {0}) × World
  pub path_exists : String → World → Bool × World
  -- the free bytes of a disk; `none` is an OSError, and other exceptions are errors
  pub disk_free : String → World → Result (Option ℕ) × World
  pub is_windows : Bool
  pub floats : Floats
  pub lower : String → String
  -- `int(float(s) * 1000)`
  pub milliseconds : String → Result ℤ
  pub urlparse : String → Url
