-- ===== src/Probes/Shell.antt =====
-- providers/_shell.py: `run_command`, and the words that reach a remote shell.
pub mod Words
use Prim.Native.Char.{code}
use mathlib.Core.Option
use evidence_tool.Base.{
  ℕ, String, ◌<>◌, Bool, true, false, ◌&&◌, ◌||◌, Option, none, some, List, [], ◌∷◌, ◌++◌, map,
  if◌then◌else◌, leb, nat_beq, nonempty, join, split, not, Result, ok, err,
}
use evidence_tool.Base.Int.{ℤ, pos, negsuc}
use evidence_tool.Base.Decimal.{strip, decimal, parse_int}
use evidence_tool.Probes.System.{
  Outcome, completed, file_not_found, timeout_expired, os_failure, other_exception, Outside,
}

-- `timeout: float = 5.0`, or a whole number of seconds
pub data Timeout : Type 0 where
  default_timeout : Timeout
  whole : ℕ → Timeout

abbrev pub seconds : Timeout → ℕ
seconds default_timeout = 5
seconds (whole n) = n

abbrev pub timeout_text : Timeout → String
timeout_text default_timeout = "5.0"
timeout_text (whole n) = decimal n

pub record CommandResult : Type 0 where
  pub ran : Bool
  pub returncode : Option ℤ
  pub stdout : String
  pub stderr : String
  pub error : Option String

-- `res.returncode == 0`
abbrev pub succeeded : CommandResult → Bool
succeeded res = elim res.returncode [ some (pos n) ↦ nat_beq n 0 | _ ↦ false ]

-- `[A-Za-z0-9_@%+=:,./-]`, what `shlex.quote` leaves alone
abbrev pub is_safe : ℕ → Bool
is_safe n =
    (leb 97 n && leb n 122)
    || (leb 64 n && leb n 90)
    || (leb 43 n && leb n 58)
    || nat_beq n 95
    || nat_beq n 37
    || nat_beq n 61

unfoldable pub all_safe : String → Bool
all_safe String.[] = true
all_safe (String.◌∷◌ c s) = is_safe (code c) && all_safe s

-- `s.replace("'", "'\"'\"'")`
unfoldable pub escape_quotes : String → String
escape_quotes String.[] = ""
escape_quotes (String.◌∷◌ c s) =
    let rest = escape_quotes s in
    if nat_beq (code c) 39 then "'\"'\"'" <> rest else String.◌∷◌ c rest

-- `shlex.quote`
unfoldable pub quote : String → String
unfolding all_safe escape_quotes
quote String.[] = "''"
quote (String.◌∷◌ c s) =
    let whole_text = String.◌∷◌ c s in
    if all_safe whole_text then whole_text else "'" <> (escape_quotes whole_text <> "'")

-- `max(1, int(timeout))`
abbrev pub at_least_one : ℕ → ℕ
at_least_one n = if leb n 1 then 1 else n

abbrev pub ssh_options : Timeout → List String
ssh_options timeout =
    "ssh"
    ∷ "-o"
    ∷ "BatchMode=yes"
    ∷ "-o"
    ∷ ("ConnectTimeout=" <> decimal (at_least_one (seconds timeout)))
    ∷ "-o"
    ∷ "ControlMaster=auto"
    ∷ "-o"
    ∷ "ControlPath=/tmp/evidencetool_ssh_%h_%p_%r"
    ∷ "-o"
    ∷ "ControlPersist=60s"
    ∷ "-o"
    ∷ "StrictHostKeyChecking=yes"
    ∷ "--"
    ∷ []

-- the arguments of the process; the host is given if it is not empty
unfoldable pub actual_args : List String → Timeout → String → List String
unfolding quote
actual_args args timeout host =
    if nonempty host then ssh_options timeout ++ host ∷ map quote args else args

abbrev pub not_run : String → CommandResult
not_run error = record {
  ran = false;
  returncode = none;
  stdout = "";
  stderr = "";
  error = some error;
}

-- `actual_args[0]`; the lists of arguments are never empty
abbrev pub first_of : List String → String
first_of [] = ""
first_of (a ∷ rest) = a

-- `display_args or actual_args`
abbrev safe_args : Option (List String) → List String → List String
safe_args (some (word ∷ words)) actual = word ∷ words
safe_args _ actual = actual

-- what comes of the process: a result, or the exception that no handler takes
unfoldable pub command_result :
    List String → Timeout → String → Option (List String) → Outcome → Result CommandResult
unfolding strip
command_result args timeout host display (completed returncode stdout stderr) =
    if nonempty host && (elim returncode [ pos n ↦ nat_beq n 255 | negsuc n ↦ false ])
    then ok (record {
      ran = false;
      returncode = some returncode;
      stdout = strip stdout;
      stderr = strip stderr;
      error = some ("SSH Transport Error: " <> strip stderr);
    })
    else ok (record {
      ran = true;
      returncode = some returncode;
      stdout = strip stdout;
      stderr = strip stderr;
      error = none;
    })
command_result args timeout host display file_not_found =
    ok (not_run ("command not found: " <> first_of args))
command_result args timeout host display timeout_expired =
    let words = join " " (safe_args display args) in
    ok (not_run ("command timed out after " <> (timeout_text timeout <> ("s: " <> words))))
command_result args timeout host display (os_failure text) =
    ok (not_run ("failed to run command: " <> text))
command_result args timeout host display (other_exception e) = err e

-- `run_command`
unfoldable pub run_command :
    (o : Outside)
    → List String
    → Timeout
    → String
    → Option (List String)
    → o.World
    → Result CommandResult × o.World
unfolding actual_args command_result
run_command o args timeout host display w =
    let actual = actual_args args timeout host in
    let (outcome, w') = o.subprocess_run actual (seconds timeout) w in
    (command_result actual timeout host display outcome, w')

-- what is computed where nothing was raised
abbrev and_then : {A B : Type 0} → (A → B) → Result A → Result B
and_then f (ok a) = ok (f a)
and_then f (err e) = err e

-- `file_exists`
unfoldable pub file_exists :
    (o : Outside) → String → String → Timeout → o.World → Result Bool × o.World
unfolding run_command
file_exists o path host timeout w =
    if not (nonempty host)
    then (let (found, w') = o.path_exists path w in (ok found, w'))
    else (let (res, w') = run_command o ("test" ∷ "-e" ∷ path ∷ []) timeout host none w in
        (and_then (λ r. r.ran && succeeded r) res, w'))

abbrev second_line : List String → Option ℤ
second_line (header ∷ available ∷ rest) = parse_int (strip available)
second_line _ = none

abbrev free_space : CommandResult → Option ℤ
free_space res =
    if not res.ran || not (succeeded res) then none else second_line (split 10 (strip res.stdout))

-- `get_free_disk_space`
unfoldable pub get_free_disk_space :
    (o : Outside) → String → String → Timeout → o.World → Result (Option ℤ) × o.World
unfolding run_command
get_free_disk_space o path host timeout w =
    if not (nonempty host)
    then (let (free, w') = o.disk_free path w in (and_then (Option.map pos) free, w'))
    else (let (res, w') =
          run_command o ("df" ∷ "-B1" ∷ "--output=avail" ∷ path ∷ []) timeout host none w in
        (and_then free_space res, w'))
