-- ===== src/Probes/Shell/Words.antt =====
-- How a POSIX shell reads a line of plain characters and quotes, and what `run_command` makes of it:
-- ssh joins its arguments by blanks, and the remote shell takes the line apart again.
use Prim.Native.Char.{Char, code}
use text.Mathlib.TextLemmas.{append_assoc, append-nil, cons-append, nil-append}
use text.Mathlib.TextEquality.{Char-path}
use evidence_tool.Base.{
  String, ◌<>◌, ◌≡◌, refl, ap, ◌∙◌, Bool, true, false, ◌||◌, Option, none, some, List, [], ◌∷◌,
  ◌++◌, map, arith, if◌then◌else◌, nat_beq, nonempty, join, Bool-cases, inl, inr,
}
use evidence_tool.Probes.Shell.{
  Timeout, is_safe, all_safe, escape_quotes, quote, ssh_options, actual_args,
}

pub data Mode : Type 0 where
  plain single double : Mode

abbrev letter : Char → String
letter c = String.◌∷◌ c ""

abbrev close_word : Bool → String → List String → List String
close_word started word words = if started then word ∷ words else words

abbrev keep_word : Bool → String → Option (List String) → Option (List String)
keep_word started word none = none
keep_word started word (some words) = some (close_word started word words)

-- The words of a line, from inside a word or between words. `none` where a quote is left open or a
-- character is special to the shell.
unfoldable pub shell_words : Mode → Bool → String → String → Option (List String)
shell_words plain started word String.[] = some (close_word started word [])
shell_words plain started word (String.◌∷◌ c s) =
    let after_blank = shell_words plain false "" s in
    let in_single = shell_words single true word s in
    let in_double = shell_words double true word s in
    let more = shell_words plain true (word <> letter c) s in
    if nat_beq (code c) 32
    then keep_word started word after_blank
    else if nat_beq (code c) 39
    then in_single
    else if nat_beq (code c) 34
    then in_double
    else if is_safe (code c)
    then more
    else none
shell_words single started word String.[] = none
shell_words single started word (String.◌∷◌ c s) =
    let out = shell_words plain true word s in
    let more = shell_words single true (word <> letter c) s in
    if nat_beq (code c) 39 then out else more
shell_words double started word String.[] = none
shell_words double started word (String.◌∷◌ c s) =
    let out = shell_words plain true word s in
    let more = shell_words double true (word <> letter c) s in
    if nat_beq (code c) 34
    then out
    else if nat_beq (code c) 36 || nat_beq (code c) 96 || nat_beq (code c) 92
    then none
    else more

-- The words that a shell reads from a line.
abbrev pub words_of : String → Option (List String)
words_of line = shell_words plain false "" line

grown : (word : String) (c : Char) (s : String) → (word <> letter c) <> s ≡ word <> String.◌∷◌ c s
grown word c s =
    append_assoc word (letter c) s
    ∙ ap (λ t. word <> t) (cons-append c "" s ∙ ap (λ t. String.◌∷◌ c t) (nil-append s))

read_safe :
    (c : Char) (started : Bool) (word rest : String)
    → is_safe (code c) ≡ true
    → shell_words plain started word (String.◌∷◌ c rest)
      ≡ shell_words plain true (word <> letter c) rest
unfolding shell_words
read_safe c started word rest safe = ground arith

safe_word :
    (s word rest : String) (started : Bool)
    → all_safe s ≡ true
    → shell_words plain started word (s <> rest)
      ≡ shell_words plain (started || nonempty s) (word <> s) rest
unfolding all_safe
safe_word String.[] word rest started safe = rw (nil-append rest, append-nil word) (ground arith)
safe_word (String.◌∷◌ c s) word rest started safe = rw (cons-append c s rest) (
    read_safe c started word (s <> rest) (ground arith)
    ∙ safe_word s (word <> letter c) rest true (ground arith)
    ∙ rw (grown word c s) (ground arith))

-- a character inside single quotes, and a single quote in its escaped form
read_quoted :
    (c : Char) (word rest : String)
    → nat_beq (code c) 39 ≡ false
    → shell_words single true word (String.◌∷◌ c rest)
      ≡ shell_words single true (word <> letter c) rest
unfolding shell_words
read_quoted c word rest other = ground arith

read_escape :
    (word rest : String)
    → shell_words single true word ("'\"'\"'" <> rest) ≡ shell_words single true (word <> "'") rest
unfolding shell_words
read_escape word rest =
    rw (cons-append, cons-append, cons-append, cons-append, cons-append, nil-append) refl

close_quote :
    (word rest : String)
    → shell_words single true word ("'" <> rest) ≡ shell_words plain true word rest
unfolding shell_words
close_quote word rest = rw (cons-append, nil-append) refl

quoted :
    (s word rest : String)
    → shell_words single true word (escape_quotes s <> ("'" <> rest))
      ≡ shell_words plain true (word <> s) rest
unfolding escape_quotes
quoted String.[] word rest = rw (nil-append ("'" <> rest), append-nil word) (close_quote word rest)
quoted (String.◌∷◌ c s) word rest = elim (Bool-cases (nat_beq (code c) 39)) [
  | inl same ↦
      rw (same, append_assoc)
        (read_escape word (escape_quotes s <> ("'" <> rest))
          ∙ quoted s (word <> "'") rest
          ∙ ap (λ t. shell_words plain true t rest)
              (grown word "'" s
                ∙ ap (λ d. word <> String.◌∷◌ d s) (Char-path "'" c (ground arith))))
  | inr other ↦
      rw (other, cons-append)
        (read_quoted c word (escape_quotes s <> ("'" <> rest)) other
          ∙ quoted s (word <> letter c) rest
          ∙ ap (λ t. shell_words plain true t rest) (grown word c s))
]

open_quote :
    (word rest : String) (started : Bool)
    → shell_words plain started word ("'" <> rest) ≡ shell_words single true word rest
unfolding shell_words
open_quote word rest started = rw (cons-append, nil-append) refl

empty_quotes :
    (rest : String) → shell_words plain false "" ("''" <> rest) ≡ shell_words plain true "" rest
unfolding shell_words
empty_quotes rest = rw (cons-append, cons-append, nil-append) refl

quote_lem :
    (s rest : String) → shell_words plain false "" (quote s <> rest) ≡ shell_words plain true s rest
unfolding quote
quote_lem String.[] rest = empty_quotes rest
quote_lem (String.◌∷◌ c s) rest = elim (Bool-cases (all_safe (String.◌∷◌ c s))) [
  | inl safe ↦ rw safe (safe_word (String.◌∷◌ c s) "" rest false safe ∙ rw nil-append)
  | inr unsafe ↦
      rw (unsafe, append_assoc, append_assoc)
        (open_quote "" _ false ∙ quoted (String.◌∷◌ c s) "" rest ∙ rw nil-append)
]

end_of_line : (word : String) → shell_words plain true word "" ≡ some (word ∷ [])
unfolding shell_words
end_of_line word = refl

blank :
    (word rest : String)
    → shell_words plain true word (" " <> rest)
      ≡ keep_word true word (shell_words plain false "" rest)
unfolding shell_words
blank word rest = rw (cons-append, nil-append) refl

line : (args : List String) → shell_words plain false "" (join " " (map quote args)) ≡ some args
unfolding join shell_words
line [] = refl
line (a ∷ []) = rw (← append-nil (quote a)) (quote_lem a "" ∙ end_of_line a)
line (a ∷ b ∷ args) =
    quote_lem a (" " <> join " " (map quote (b ∷ args)))
    ∙ blank a (join " " (map quote (b ∷ args)))
    ∙ ap (keep_word true a) (line (b ∷ args))

-- Of a command for a host, ssh is given its options, the host, and words that a POSIX shell reads
-- back from the line which ssh makes of them as exactly the arguments of the command.
pub actual_args-words :
    (args : List String) (timeout : Timeout) (host : String)
    → nonempty host ≡ true
    → (sent : List String) × (actual_args args timeout host ≡ ssh_options timeout ++ host ∷ sent)
      × (words_of (join " " sent) ≡ some args)
unfolding actual_args
actual_args-words args timeout host remote = (map quote args, rw remote, line args)
