-- ===== src/CommandLine/Hosts.antt =====
-- What the command line passes to ssh as a host.
use Prim.Native.Char.{code}
use evidence_tool.Base.{
  ◌∙◌, ◌⊎◌, List, Option, ℕ, String, ◌≡◌, refl, sym, subst, string_dec, Bool, true, false, not,
  ◌&&◌, ◌||◌, none, some, [], nat_beq, nonempty, arith, Bool-cases, Option-cases, inl, inr,
}
use evidence_tool.Base.Dict.{Dict, lookup, insert}
use evidence_tool.Base.Int.{ℤ}
use evidence_tool.CommandLine.Reserved.{given, context_of-HasReserved}
use evidence_tool.CommandLine.{
  go_on, stop, is_user, is_address, at_end, name_ends, address_ends, is_bracketed, is_machine,
  after_user, begins_with, is_host, add_host, Step, context_of,
}

-- a letter or digit of ASCII, or one of _ - . @ [ ] :
abbrev pub is_plain : ℕ → Bool
is_plain n =
    is_user n || nat_beq n 46 || nat_beq n 64 || nat_beq n 91 || nat_beq n 93 || nat_beq n 58

-- Every character is one of these, but that the last may be a line feed.
abbrev pub IsPlain : String → Type 0
IsPlain String.[] = Unit
IsPlain (String.◌∷◌ c s) = ((is_plain (code c) || at_end (String.◌∷◌ c s)) ≡ true) × IsPlain s

both : (a b : Bool) → (a && b) ≡ true → (a ≡ true) × (b ≡ true)
both true b h = (refl, h)
both false b h = absurd (ground arith)

some_inj : {s t : String} → some s ≡ some t → s ≡ t
some_inj h = cc

no_some : {s : String} → none ≡ some s → ⊥
no_some h = cc

no_step : {n : ℕ} {s : String} {a : Dict String} → stop n s ≡ go_on a → ⊥
no_step h = cc

plain_first : (n : ℕ) (b : Bool) → is_plain n ≡ true → (is_plain n || b) ≡ true
plain_first n b h = ground arith

at_end-IsPlain : (s : String) → at_end s ≡ true → IsPlain s
at_end-IsPlain String.[] h = tt
at_end-IsPlain (String.◌∷◌ c String.[]) h = (rw h (ground arith), tt)
at_end-IsPlain (String.◌∷◌ c (String.◌∷◌ d s)) h = absurd (ground arith)

name_ends-IsPlain : (s : String) → name_ends s ≡ true → IsPlain s
unfolding name_ends
name_ends-IsPlain String.[] h = tt
name_ends-IsPlain (String.◌∷◌ c s) h = elim (Bool-cases (is_user (code c) || nat_beq (code c) 46)) [
  | inl name ↦ (plain_first (code c) _ (ground arith), name_ends-IsPlain s (rw name at h))
  | inr other ↦ at_end-IsPlain (String.◌∷◌ c s) (rw other at h)
]

address_plain : (n : ℕ) → is_address n ≡ true → is_plain n ≡ true
address_plain n h = ground arith

address_ends-IsPlain : (s : String) → address_ends s ≡ true → IsPlain s
unfolding address_ends
address_ends-IsPlain String.[] h = tt
address_ends-IsPlain (String.◌∷◌ c s) h = elim (Bool-cases (is_address (code c))) [
  | inl digit ↦ (
    plain_first (code c) _ (address_plain (code c) digit),
    address_ends-IsPlain s (rw digit at h),
  )
  | inr other ↦
      let (bracket, last) = both (nat_beq (code c) 93) (at_end s) (rw other at h) in
      (plain_first (code c) _ (ground arith), at_end-IsPlain s last)
]

is_bracketed-IsPlain : (s : String) → is_bracketed s ≡ true → IsPlain s
is_bracketed-IsPlain String.[] h = tt
is_bracketed-IsPlain (String.◌∷◌ c s) h =
    let (digit, ends) = both (is_address (code c)) (address_ends s) h in
    (plain_first (code c) _ (address_plain (code c) digit), address_ends-IsPlain s ends)

is_machine-IsPlain : (s : String) → is_machine s ≡ true → IsPlain s
unfolding is_machine
is_machine-IsPlain String.[] h = tt
is_machine-IsPlain (String.◌∷◌ c s) h =
    elim (Bool-cases ((is_user (code c) || nat_beq (code c) 46) && name_ends s)) [
      | inl named ↦
          let (name, ends) = both (is_user (code c) || nat_beq (code c) 46) (name_ends s) named in
          (plain_first (code c) _ (ground arith), name_ends-IsPlain s ends)
      | inr other ↦
          let (bracket, ends) = both (nat_beq (code c) 91) (is_bracketed s) (rw other at h) in
          (plain_first (code c) _ (ground arith), is_bracketed-IsPlain s ends)
    ]

after_user-IsPlain :
    (s machine : String) → after_user s ≡ some machine → IsPlain machine → IsPlain s
unfolding after_user
after_user-IsPlain String.[] machine h k = tt
after_user-IsPlain (String.◌∷◌ c s) machine h k = elim (Bool-cases (nat_beq (code c) 64)) [
  | inl sign ↦
      (plain_first (code c) _ (ground arith), subst IsPlain (sym (some_inj (rw sign at h))) k)
  | inr other ↦ elim (Bool-cases (is_user (code c))) [
    | inl name ↦ (
      plain_first (code c) _ (ground arith),
      after_user-IsPlain s machine (rw (other, name) at h) k,
    )
    | inr neither ↦ absurd (no_some (rw (other, neither) at h))
  ]
]

is_host-IsPlain : (s : String) → is_host s ≡ true → IsPlain s
unfolding is_host
is_host-IsPlain s h = elim (Option-cases (after_user s)) [
  | inl no_user ↦ is_machine-IsPlain s (rw (is_host, no_user) at h)
  | inr (machine, user) ↦
      let (named, good) =
        both (not (begins_with 64 s)) (is_machine machine) (rw (is_host, user) at h) in
      after_user-IsPlain s machine user (is_machine-IsPlain machine good)
]

add_host-IsPlain :
    (host : String) (context : Dict String)
    → nonempty host ≡ true
    → add_host (some host) [] ≡ go_on context
    → (begins_with 45 host ≡ false) × IsPlain host
unfolding add_host insert lookup string_dec
add_host-IsPlain host context filled h = elim (Bool-cases (is_host host)) [
  | inr bad ↦ absurd (no_step (rw (filled, bad) at h))
  | inl good ↦ elim (Bool-cases (begins_with 45 host)) [
    | inl hyphen ↦ absurd (no_step (rw (filled, good, hyphen) at h))
    | inr plain ↦ (plain, is_host-IsPlain host good)
  ]
]

Step-cases :
    (m : Step (Dict String))
    → ((c : Dict String) × (m ≡ go_on c)) ⊎ ((n : ℕ) × (s : String) × (m ≡ stop n s))
Step-cases (go_on c) = inl (c, refl)
Step-cases (stop n s) = inr (n, s, refl)

stopped_lem :
    (host target_host : Option String) (port : Option ℤ) (args : List String) (n : ℕ) (s : String)
    → add_host host [] ≡ stop n s
    → context_of host target_host port args ≡ stop n s
unfolding context_of
stopped_lem host target_host port args n s stopped = rw stopped refl

given_of_some :
    (h : String) (bound : String) → given (some h) ≡ some bound → (nonempty h ≡ true) × (h ≡ bound)
given_of_some h bound e = elim (Bool-cases (nonempty h)) [
  | inl filled ↦ (filled, some_inj (rw filled at e))
  | inr empty ↦ absurd (no_some (rw empty at e))
]

given-IsPlain :
    (host : Option String) (bound : String) (context : Dict String)
    → add_host host [] ≡ go_on context
    → given host ≡ some bound
    → (nonempty bound ≡ true) × (begins_with 45 bound ≡ false) × IsPlain bound
given-IsPlain none bound context went e = absurd (no_some e)
given-IsPlain (some h) bound context went e =
    let (filled, same) = given_of_some h bound e in
    let (no_hyphen, plain) = add_host-IsPlain h context filled went in
    subst (λ b. (nonempty b ≡ true) × (begins_with 45 b ≡ false) × IsPlain b) same
      (filled, no_hyphen, plain)

-- The text that a context of the command line binds to `host` is not empty, does not begin with a
-- hyphen, and has letters and digits of ASCII and _ - . @ [ ] : only, but that its last character
-- may be a line feed.
pub context_of-IsPlain :
    (host target_host : Option String) (port : Option ℤ) (args : List String)
    (context : Dict String) (bound : String)
    → context_of host target_host port args ≡ go_on context
    → lookup "host" context ≡ some bound
    → (nonempty bound ≡ true) × (begins_with 45 bound ≡ false) × IsPlain bound
context_of-IsPlain host target_host port args context bound h found =
    elim (Step-cases (add_host host [])) [
      | inl (c, went) ↦
          given-IsPlain host bound c went
            (sym (context_of-HasReserved host target_host port args context h).host ∙ found)
      | inr (n, s, stopped) ↦
          absurd (no_step (sym (stopped_lem host target_host port args n s stopped) ∙ h))
    ]
