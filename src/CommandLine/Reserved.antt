-- ===== src/CommandLine/Reserved.antt =====
-- What the arguments of the command line cannot change: the reserved keys of the context.
use evidence_tool.Base.{
  String, ◌≡◌, refl, ◌∙◌, subst, true, false, Option, none, some, List, [], ◌∷◌, contains, nonempty,
  if◌then◌else◌, string_dec, arith, Bool-cases, inl, inr,
}
use evidence_tool.Base.Int.{ℤ}
use evidence_tool.Base.Cut.{cut}
use evidence_tool.Base.Decimal.{decimal_int, parse_int}
use evidence_tool.Base.Dict.{Dict, lookup, insert, lookup-insert}
use evidence_tool.CommandLine.{
  Step, go_on, stop, ◌>>=◌, reserved_context_keys, in_range, is_host, begins_with, add_host,
  add_target_host, add_port, add_pair, add_args, checked, check_given, check_port_text, context_of,
}

abbrev Goes : {A : Type 0} → (A → Type 0) → Step A → Type 0
Goes P (go_on a) = P a
Goes P (stop status message) = Unit

Goes->>= :
    {A B : Type 0} (P : A → Type 0) (Q : B → Type 0) (m : Step A) (next : A → Step B)
    → Goes P m
    → ((a : A) → P a → Goes Q (next a))
    → Goes Q (m >>= next)
Goes->>= P Q (go_on a) next h k = k a h
Goes->>= P Q (stop status message) next h k = tt

Goes-of : {A : Type 0} (P : A → Type 0) (m : Step A) {a : A} → Goes P m → m ≡ go_on a → P a
Goes-of P m h e = subst (Goes P) e h

-- The text of an option that is given and not empty.
abbrev pub given : Option String → Option String
given none = none
given (some s) = if nonempty s then some s else none

abbrev pub printed : Option ℤ → Option String
printed none = none
printed (some port) = some (decimal_int port)

-- What the reserved keys are bound to.
pub record HasReserved (h t p : Option String) (context : Dict String) : Type 0 where
  pub host : lookup "host" context ≡ h
  pub target_host : lookup "target_host" context ≡ t
  pub port : lookup "port" context ≡ p
  pub domain : lookup "domain" context ≡ none

add_host-HasReserved :
    (host : Option String) → Goes (HasReserved (given host) none none) (add_host host [])
unfolding add_host insert lookup string_dec
add_host-HasReserved none = record { host = refl; target_host = refl; port = refl; domain = refl }
add_host-HasReserved (some host) = elim (Bool-cases (nonempty host)) [
  | inr empty ↦ rw empty (record { host = refl; target_host = refl; port = refl; domain = refl })
  | inl filled ↦ elim (Bool-cases (is_host host)) [
    | inr bad ↦ rw (filled, bad) tt
    | inl good ↦ elim (Bool-cases (begins_with 45 host)) [
      | inl hyphen ↦ rw (filled, good, hyphen) tt
      | inr plain ↦
          rw (filled, good, plain)
            (record { host = refl; target_host = refl; port = refl; domain = refl })
    ]
  ]
]

module _ (h : Option String) where
  add_target_host-HasReserved :
      (target_host : Option String) (context : Dict String)
      → HasReserved h none none context
      → HasReserved h (given target_host) none (add_target_host target_host context)
  unfolding add_target_host string_dec
  add_target_host-HasReserved none context r = r
  add_target_host-HasReserved (some t) context r = elim (Bool-cases (nonempty t)) [
    | inr empty ↦ rw empty r
    | inl filled ↦ rw filled (record {
      host = lookup-insert "host" "target_host" t context ∙ r.host;
      target_host = lookup-insert "target_host" "target_host" t context;
      port = lookup-insert "port" "target_host" t context ∙ r.port;
      domain = lookup-insert "domain" "target_host" t context ∙ r.domain;
    })
  ]

  module _ (t : Option String) where
    add_port-HasReserved :
        (port : Option ℤ) (context : Dict String)
        → HasReserved h t none context
        → Goes (HasReserved h t (printed port)) (add_port port context)
    unfolding add_port string_dec
    add_port-HasReserved none context r = r
    add_port-HasReserved (some n) context r = elim (Bool-cases (in_range n)) [
      | inr bad ↦ rw bad tt
      | inl good ↦ rw good (record {
        host = lookup-insert "host" "port" (decimal_int n) context ∙ r.host;
        target_host = lookup-insert "target_host" "port" (decimal_int n) context ∙ r.target_host;
        port = lookup-insert "port" "port" (decimal_int n) context;
        domain = lookup-insert "domain" "port" (decimal_int n) context ∙ r.domain;
      })
    ]

    module _ (p : Option String) where
      -- a key that is not reserved
      other_key :
          (k j v : String) (context : Dict String)
          → contains reserved_context_keys k ≡ false
          → contains reserved_context_keys j ≡ true
          → lookup j (insert k v context) ≡ lookup j context
      other_key k j v context free taken = lookup-insert j k v context ∙ ground arith

      add_pair-HasReserved :
          (pair : Option (String × String)) (context : Dict String)
          → HasReserved h t p context
          → Goes (HasReserved h t p) (add_pair pair context)
      unfolding string_dec
      add_pair-HasReserved none context r = r
      add_pair-HasReserved (some (k, v)) context r =
          elim (Bool-cases (contains reserved_context_keys k)) [
            | inl taken ↦ rw taken tt
            | inr free ↦ rw free (record {
              host = other_key k "host" v context free refl ∙ r.host;
              target_host = other_key k "target_host" v context free refl ∙ r.target_host;
              port = other_key k "port" v context free refl ∙ r.port;
              domain = other_key k "domain" v context free refl ∙ r.domain;
            })
          ]

      add_args-HasReserved :
          (args : List String) (context : Dict String)
          → HasReserved h t p context
          → Goes (HasReserved h t p) (add_args args context)
      unfolding add_args
      add_args-HasReserved [] context r = r
      add_args-HasReserved (arg ∷ args) context r =
          Goes->>= (HasReserved h t p) (HasReserved h t p) _ (add_args args)
            (add_pair-HasReserved (cut 61 arg) context r) (add_args-HasReserved args)

      checked-HasReserved :
          (o : Option ℤ) (context : Dict String)
          → HasReserved h t p context
          → Goes (HasReserved h t p) (checked o context)
      checked-HasReserved none context r = tt
      checked-HasReserved (some n) context r = elim (Bool-cases (in_range n)) [
        | inl good ↦ rw good r
        | inr bad ↦ rw bad tt
      ]

      check-HasReserved :
          (o : Option String) (context : Dict String)
          → HasReserved h t p context
          → Goes (HasReserved h t p) (check_given o context)
      check-HasReserved none context r = r
      check-HasReserved (some s) context r = checked-HasReserved (parse_int s) context r

reserved_lem :
    (host target_host : Option String) (port : Option ℤ) (args : List String)
    → Goes
        (HasReserved (given host) (given target_host) (printed port))
        (context_of host target_host port args)
unfolding context_of check_port_text
reserved_lem host target_host port args =
    let h = given host in
    let t = given target_host in
    let p = printed port in
    Goes->>= (HasReserved h none none) (HasReserved h t p) _ _ (add_host-HasReserved host)
      λ with_host a.
        Goes->>= (HasReserved h t p) (HasReserved h t p) _ _
          (add_port-HasReserved h t port _ (add_target_host-HasReserved h target_host with_host a))
          λ with_port b.
            Goes->>= (HasReserved h t p) (HasReserved h t p) _ _
              (add_args-HasReserved h t p args with_port b)
              λ with_args c. check-HasReserved h t p (lookup "port" with_args) with_args c

-- Whatever arguments are given, a context that the command line makes binds `host`, `target_host` and
-- `port` to the options of these names where they are given and not empty, and `domain` to nothing.
pub context_of-HasReserved :
    (host target_host : Option String) (port : Option ℤ) (args : List String)
    (context : Dict String)
    → context_of host target_host port args ≡ go_on context
    → HasReserved (given host) (given target_host) (printed port) context
context_of-HasReserved host target_host port args context h =
    Goes-of _ _ (reserved_lem host target_host port args) h
