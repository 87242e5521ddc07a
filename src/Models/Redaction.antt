-- ===== src/Models/Redaction.antt =====
-- models/observation.py and models/evidence.py: what is printed of an observation and of evidence,
-- and what is blotted out first.
pub mod Secrets
use Prim.Native.Char.{Char, code}
use evidence_tool.Base.{
  ℕ, zero, suc, ◌+◌, String, ◌<>◌, Bool, true, false, not, ◌&&◌, ◌||◌, Option, none, some, List, [],
  ◌∷◌, leb, nat_beq, nonempty, count_chars, if◌then◌else◌,
}
use evidence_tool.Base.Decimal.{is_space}
use evidence_tool.Models.Value.{
  Value, null, bool, int, float, list, mapping, Items, nil, cons, Fields, end, field, object,
}
use evidence_tool.Models.Value
use evidence_tool.Models.Observation.{Observation}
use evidence_tool.Models.Evidence.{Evidence, status_text}

-- Whether a character matches a letter in lower case, given by its code, where case does not count;
-- the signs İ, ı, ſ and K are letters i, s and k.
abbrev pub is_letter : ℕ → ℕ → Bool
is_letter c n =
    nat_beq n c
    || (leb 97 c && (leb c 122 && nat_beq (n + 32) c))
    || (nat_beq c 105 && (nat_beq n 304 || nat_beq n 305))
    || (nat_beq c 115 && nat_beq n 383)
    || (nat_beq c 107 && nat_beq n 8490)

abbrev pub put : Char → Option (String × String) → Option (String × String)
put c none = none
put c (some (taken, rest)) = some (String.◌∷◌ c taken, rest)

-- a text that begins with a word: its beginning as it is written, and the rest
unfoldable pub take_word : String → String → Option (String × String)
take_word String.[] s = some ("", s)
take_word (String.◌∷◌ k word) String.[] = none
take_word (String.◌∷◌ k word) (String.◌∷◌ c s) =
    let more = take_word word s in if is_letter (code k) (code c) then put c more else none

abbrev pub or_take : Option (String × String) → Option (String × String) → Option (String × String)
or_take none b = b
or_take (some a) b = some a

abbrev pub join_taken : String × String → Option (String × String) → Option (String × String)
join_taken (taken, rest) none = none
join_taken (taken, rest) (some (more, rest')) = some (taken <> more, rest')

-- `[_-]?`
abbrev pub take_joint : String → String × String
take_joint String.[] = ("", "")
take_joint (String.◌∷◌ c s) =
    if nat_beq (code c) 95 || nat_beq (code c) 45
    then (String.◌∷◌ c "", s)
    else ("", String.◌∷◌ c s)

-- `api[_-]?key`
unfoldable pub take_api_key : String → Option (String × String)
unfolding take_word
take_api_key s = elim (take_word "api" s) [
  | none ↦ none
  | some (taken, rest) ↦
      let (joint, rest') = take_joint rest in
      join_taken (taken <> joint, rest') (take_word "key" rest')
]

-- `(password|passwd|secret|token|api[_-]?key|authorization|cookie)` at the beginning of a text
unfoldable pub take_keyword : String → Option (String × String)
unfolding take_api_key
take_keyword s = or_take (take_word "password" s) (
    or_take (take_word "passwd" s) (
      or_take (take_word "secret" s) (
        or_take (take_word "token" s) (
          or_take (take_api_key s)
            (or_take (take_word "authorization" s) (take_word "cookie" s))))))

abbrev pub is_some : Option (String × String) → Bool
is_some none = false
is_some (some _) = true

-- `_SENSITIVE_KEY_PATTERN.search(key)`
unfoldable pub is_sensitive : String → Bool
unfolding take_keyword
is_sensitive String.[] = false
is_sensitive (String.◌∷◌ c s) = is_some (take_keyword (String.◌∷◌ c s)) || is_sensitive s

-- `\s*`
unfoldable pub take_spaces : String → String × String
take_spaces String.[] = ("", "")
take_spaces (String.◌∷◌ c s) =
    let (taken, rest) = take_spaces s in
    if is_space (code c) then (String.◌∷◌ c taken, rest) else ("", String.◌∷◌ c s)

abbrev pub after_sign : String → Char → String → Option (String × String)
after_sign spaces c s =
    let (more, rest) = take_spaces s in
    if nat_beq (code c) 58 || nat_beq (code c) 61
    then some (spaces <> String.◌∷◌ c more, rest)
    else none

abbrev pub sign_after : String → String → Option (String × String)
sign_after spaces String.[] = none
sign_after spaces (String.◌∷◌ c rest) = after_sign spaces c rest

-- `\s*[:=]\s*`
unfoldable pub take_separator : String → Option (String × String)
unfolding take_spaces
take_separator s = let (spaces, rest) = take_spaces s in sign_after spaces rest

-- how many characters the longest beginning without white space, commas and semicolons has
unfoldable pub secret_size : String → ℕ
secret_size String.[] = 0
secret_size (String.◌∷◌ c s) =
    let more = secret_size s in
    if is_space (code c) || nat_beq (code c) 44 || nat_beq (code c) 59 then 0 else suc more

abbrev pub with_secret : String × String → Option (String × ℕ)
with_secret (kept, rest) =
    if nat_beq (secret_size rest) 0 then none else some (kept, count_chars kept + secret_size rest)

-- a match of `_SENSITIVE_VALUE_PATTERN` at the beginning: what stays, and the size of the match
unfoldable pub labelled_secret : String → Option (String × ℕ)
unfolding take_keyword take_separator secret_size count_chars
labelled_secret s = elim (take_keyword s) [
  | none ↦ none
  | some (keyword, rest) ↦ elim (join_taken (keyword, rest) (take_separator rest)) [
    | none ↦ none
    | some taken ↦ with_secret taken
  ]
]

-- what is left to do after a character that begins no match, or that begins one
abbrev pub blot : (ℕ → String) → Char → Option (String × ℕ) → String
blot next c none = String.◌∷◌ c (next 0)
blot next c (some (kept, zero)) = String.◌∷◌ c (next 0)
blot next c (some (kept, suc n)) = kept <> ("[REDACTED]" <> next n)

-- `_SENSITIVE_VALUE_PATTERN.sub(r"\1\2[REDACTED]", s)`, so many characters of `s` left out first
unfoldable pub redact_from : String → ℕ → String
unfolding labelled_secret
redact_from String.[] skip = ""
redact_from (String.◌∷◌ c s) (suc skip) = redact_from s skip
redact_from (String.◌∷◌ c s) zero = blot (redact_from s) c (labelled_secret (String.◌∷◌ c s))

unfoldable pub redact_text : String → String
unfolding redact_from
redact_text s = redact_from s 0

-- `_redact`; `blotted` says whether the key is sensitive
unfoldable mutual
  unfolding is_sensitive redact_text

  pub redact : Value → Value
  redact null = null
  redact (bool b) = bool b
  redact (int n) = int n
  redact (float x) = float x
  redact (Value.text s) = Value.text (redact_text s)
  redact (list vs) = list (redact_items vs)
  redact (mapping fs) = mapping (redact_fields fs)

  pub redact_items : Items → Items
  redact_items nil = nil
  redact_items (cons v vs) = cons (redact v) (redact_items vs)

  pub redact_fields : Fields → Fields
  redact_fields end = end
  redact_fields (field k v fs) =
      field k (if is_sensitive k then Value.text "[REDACTED]" else redact v) (redact_fields fs)

abbrev pub optional : Option String → Value
optional none = null
optional (some s) = Value.text s

-- `d.isoformat()` is given
module _ (isoformat : ℕ → String) where
  -- `Observation.to_dict`
  unfoldable pub observation_dict : Observation → Value
  unfolding redact redact_text
  observation_dict o = object (
      ("id", Value.text o.id)
      ∷ ("source", Value.text o.source)
      ∷ ("category", Value.text o.category)
      ∷ ("collector", Value.text o.collector)
      ∷ ("method", Value.text (redact_text o.method))
      ∷ ("value", redact o.value)
      ∷ ("message", Value.text (redact_text o.message))
      ∷ ("observed_at", Value.text (isoformat o.observed_at))
      ∷ ("collected_at", Value.text (isoformat o.collected_at))
      ∷ ("host", optional o.host)
      ∷ ("execution_scope", optional o.execution_scope)
      ∷ ("target", optional o.target)
      ∷ ("capability", optional o.capability)
      ∷ ("transport_status", optional o.transport_status)
      ∷ [])

  -- `Evidence.to_dict`
  unfoldable pub evidence_dict : Evidence → Value
  unfolding observation_dict
  evidence_dict e = object (
      ("id", Value.text e.observation.id)
      ∷ ("status", Value.text (status_text e.status))
      ∷ ("message", Value.text e.message)
      ∷ ("observation", observation_dict e.observation)
      ∷ ("is_stale", bool e.is_stale)
      ∷ [])
