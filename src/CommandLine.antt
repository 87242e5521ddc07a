-- ===== src/CommandLine.antt =====
-- cli/main.py: the context that the options and arguments of `diagnose` give, and the exit status. A
-- stop carries the exit status and the text that is printed.
pub mod Reserved
pub mod Hosts
use Prim.Native.Char.{code}
use evidence_tool.Base.{
  ℕ, String, ◌<>◌, Bool, true, false, not, ◌&&◌, ◌||◌, Option, none, some, List, [], ◌∷◌, contains,
  leb, nat_beq, nonempty, if◌then◌else◌,
}
use evidence_tool.Base.Int.{ℤ, pos, negsuc}
use evidence_tool.Base.Cut.{cut}
use evidence_tool.Base.Decimal.{decimal_int, parse_int}
use evidence_tool.Base.Dict.{Dict, lookup, insert}
use evidence_tool.Models.Decision.{DecisionStatus, allow, block, human_review}
use evidence_tool.Diagnose.{DiagnosisResult}

pub data Step (A : Type 0) : Type 0 where
  go_on : A → Step A
  stop : (status : ℕ) (message : String) → Step A

infixl 5 ◌>>=◌
abbrev pub ◌>>=◌ : {A B : Type 0} → Step A → (A → Step B) → Step B
go_on a >>= next = next a
stop status message >>= next = stop status message

abbrev pub reserved_context_keys : List String
reserved_context_keys = "host" ∷ "target_host" ∷ "domain" ∷ "port" ∷ []

-- `[a-zA-Z0-9_-]`
abbrev pub is_user : ℕ → Bool
is_user n =
    (leb 97 n && leb n 122)
    || (leb 65 n && leb n 90)
    || (leb 48 n && leb n 57)
    || nat_beq n 95
    || nat_beq n 45

-- `[a-fA-F0-9:]`
abbrev pub is_address : ℕ → Bool
is_address n = (leb 97 n && leb n 102) || (leb 65 n && leb n 70) || (leb 48 n && leb n 58)

-- `$`: the end, also before a line feed that is the last character
abbrev pub at_end : String → Bool
at_end String.[] = true
at_end (String.◌∷◌ c s) = nat_beq (code c) 10 && not (nonempty s)

-- the rest of `[a-zA-Z0-9_.-]+$` after some characters
unfoldable pub name_ends : String → Bool
name_ends String.[] = true
name_ends (String.◌∷◌ c s) =
    let rest = name_ends s in
    if is_user (code c) || nat_beq (code c) 46 then rest else at_end (String.◌∷◌ c s)

-- the rest of `[a-fA-F0-9:]+\]$` after some characters
unfoldable pub address_ends : String → Bool
address_ends String.[] = false
address_ends (String.◌∷◌ c s) =
    let rest = address_ends s in
    if is_address (code c) then rest else nat_beq (code c) 93 && at_end s

-- `[a-fA-F0-9:]+\]$`
abbrev pub is_bracketed : String → Bool
is_bracketed String.[] = false
is_bracketed (String.◌∷◌ c s) = is_address (code c) && address_ends s

-- `([a-zA-Z0-9_.-]+|\[[a-fA-F0-9:]+\])$`
unfoldable pub is_machine : String → Bool
unfolding name_ends address_ends
is_machine String.[] = false
is_machine (String.◌∷◌ c s) =
    ((is_user (code c) || nat_beq (code c) 46) && name_ends s)
    || (nat_beq (code c) 91 && is_bracketed s)

-- what stands after `[a-zA-Z0-9_-]*@`
unfoldable pub after_user : String → Option String
after_user String.[] = none
after_user (String.◌∷◌ c s) =
    let rest = after_user s in
    if nat_beq (code c) 64 then some s else if is_user (code c) then rest else none

abbrev pub begins_with : ℕ → String → Bool
begins_with n String.[] = false
begins_with n (String.◌∷◌ c s) = nat_beq (code c) n

-- `re.match(...)` of a host; a user is not empty
unfoldable pub is_host : String → Bool
unfolding is_machine after_user
is_host host = elim (after_user host) [
  | none ↦ is_machine host
  | some machine ↦ not (begins_with 64 host) && is_machine machine
]

abbrev pub bad_port : {A : Type 0} → Step A
bad_port = stop 1 "Error: port must be an integer between 1 and 65535."

abbrev pub in_range : ℤ → Bool
in_range (negsuc n) = false
in_range (pos n) = leb 1 n && leb n 65535

unfoldable pub add_host : Option String → Dict String → Step (Dict String)
unfolding is_host
add_host none context = go_on context
add_host (some host) context =
    if not (nonempty host)
    then go_on context
    else if not (is_host host)
    then stop 1 ("Error: Invalid host format '" <> (host <> "'."))
    else if begins_with 45 host
    then stop 1 "Error: Host cannot start with a hyphen."
    else go_on (insert "host" host context)

unfoldable pub add_target_host : Option String → Dict String → Dict String
add_target_host none context = context
add_target_host (some target_host) context =
    if nonempty target_host then insert "target_host" target_host context else context

unfoldable pub add_port : Option ℤ → Dict String → Step (Dict String)
add_port none context = go_on context
add_port (some port) context =
    if in_range port then go_on (insert "port" (decimal_int port) context) else bad_port

-- one turn of the loop over the arguments
abbrev pub add_pair : Option (String × String) → Dict String → Step (Dict String)
add_pair none context = go_on context
add_pair (some (k, v)) context =
    if contains reserved_context_keys k
    then stop 1 ("Error: '" <> (k <> "' is reserved; use the dedicated CLI option."))
    else go_on (insert k v context)

unfoldable pub add_args : List String → Dict String → Step (Dict String)
add_args [] context = go_on context
add_args (arg ∷ args) context = add_pair (cut 61 arg) context >>= add_args args

abbrev pub checked : Option ℤ → Dict String → Step (Dict String)
checked none context = bad_port
checked (some port) context = if in_range port then go_on context else bad_port

abbrev pub check_given : Option String → Dict String → Step (Dict String)
check_given none context = go_on context
check_given (some port) context = checked (parse_int port) context

unfoldable pub check_port_text : Dict String → Step (Dict String)
check_port_text context = check_given (lookup "port" context) context

-- the context of the options `--host`, `--target-host`, `--port` and of the arguments
unfoldable pub context_of :
    Option String → Option String → Option ℤ → List String → Step (Dict String)
unfolding add_host add_target_host add_port add_args check_port_text
context_of host target_host port args = do
  with_host ← add_host host []
  with_port ← add_port port (add_target_host target_host with_host)
  with_args ← add_args args with_port
  check_port_text with_args

abbrev pub exit_code : DecisionStatus → ℕ
exit_code allow = 0
exit_code block = 1
exit_code human_review = 2

-- `sys.exit`, at the end
unfoldable pub exit_status : DiagnosisResult → ℕ
exit_status result = if not result.success then 3 else exit_code result.decision.status
