-- ===== src/Base/Lists.antt =====
-- Lists with native lengths and Boolean tests, and sets of texts as lists without repetition.
use Prim.Native.Nat.{ℕ, suc, ◌+◌, ◌<◌}
use Prim.Native.String.{String}
use mathlib.Core.Path.{◌≡◌, refl}
use mathlib.Core.Logic.{◌≢◌, ◌⊎◌, inl, inr}
use mathlib.Core.Bool.{Bool, true, false, ◌&&◌, ◌||◌}
use mathlib.Core.Option.{Option, none, some}
use mathlib.Core.List.{List, [], ◌∷◌, ◌++◌}
use native.Mathlib.Omega.{arith}
use evidence_tool.Base.Text.{◌==◌, if◌then◌else◌, Bool-cases}

module _ {ℓ} {A : Type ℓ} where
  abbrev pub length : List A → ℕ
  length [] = 0
  length (x ∷ xs) = suc (length xs)

  abbrev pub is_empty : List A → Bool
  is_empty [] = true
  is_empty (x ∷ xs) = false

  -- `[x for x in xs if p(x)]`
  abbrev pub filter : (A → Bool) → List A → List A
  filter p [] = []
  filter p (x ∷ xs) = let rest = filter p xs in if p x then x ∷ rest else rest

  -- `any(p(x) for x in xs)`
  abbrev pub any : (A → Bool) → List A → Bool
  any p [] = false
  any p (x ∷ xs) = p x || any p xs

  -- `all(p(x) for x in xs)`
  abbrev pub all : (A → Bool) → List A → Bool
  all p [] = true
  all p (x ∷ xs) = p x && all p xs

  -- `next((x for x in xs if p(x)), None)`
  abbrev pub find_first : (A → Bool) → List A → Option A
  find_first p [] = none
  find_first p (x ∷ xs) = let rest = find_first p xs in if p x then some x else rest

pub length-append {ℓ} : {A : Type ℓ} (xs ys : List A) → length (xs ++ ys) ≡ length xs + length ys
length-append [] ys = omega arith
length-append (x ∷ xs) ys = omega (arith, length-append xs ys)

pub length-pos {ℓ} : {A : Type ℓ} (xs : List A) → xs ≢ [] → 0 < length xs
length-pos [] h = absurd (h refl)
length-pos (x ∷ xs) h = omega arith

-- A predicate of every item, by recursion, so that tactics read and build it.
abbrev pub All {ℓ κ} : {A : Type ℓ} → (A → Type κ) → List A → Type κ
All P [] = Unit
All P (x ∷ xs) = P x × All P xs

-- Some item satisfies the predicate.
abbrev pub Any {ℓ} : {A : Type ℓ} → (A → Type 0) → List A → Type 0
Any P [] = ⊥
Any P (x ∷ xs) = P x ⊎ Any P xs

-- `a in xs`
abbrev pub contains : List String → String → Bool
contains [] a = false
contains (x ∷ xs) a = a == x || contains xs a

-- `s.add(a)`: sets keep the order in which their items came in.
abbrev pub add : List String → String → List String
add xs a = if contains xs a then xs else xs ++ a ∷ []

-- `s.update(xs)`
abbrev pub update : List String → List String → List String
update s [] = s
update s (x ∷ xs) = update (add s x) xs

-- `set(xs)`
abbrev pub to_set : List String → List String
to_set xs = update [] xs

-- No item occurs twice.
abbrev pub Nodup : List String → Type 0
Nodup [] = Unit
Nodup (x ∷ xs) = (contains xs x ≡ false) × Nodup xs

pub contains-append :
    (xs ys : List String) (a : String) → contains (xs ++ ys) a ≡ (contains xs a || contains ys a)
contains-append [] ys a = refl
contains-append (x ∷ xs) ys a = ground (arith, contains-append xs ys a)

pub contains-add :
    (xs : List String) (b a : String) → contains (add xs b) a ≡ (contains xs a || a == b)
contains-add xs b a = ground (arith, contains-append xs (b ∷ []) a)

pub contains-update :
    (ys xs : List String) (a : String)
    → contains (update xs ys) a ≡ (contains xs a || contains ys a)
contains-update [] xs a = ground arith
contains-update (y ∷ ys) xs a = ground (arith, contains-update ys (add xs y) a, contains-add xs y a)

pub contains-to_set : (xs : List String) (a : String) → contains (to_set xs) a ≡ contains xs a
contains-to_set xs a = contains-update xs [] a

pub contains-filter :
    (p : String → Bool) (xs : List String) (a : String)
    → contains (filter p xs) a ≡ (contains xs a && p a)
contains-filter p [] a = refl
contains-filter p (x ∷ xs) a = ground (arith, contains-filter p xs a)

pub Nodup-snoc :
    (xs : List String) (x : String) → Nodup xs → contains xs x ≡ false → Nodup (xs ++ x ∷ [])
Nodup-snoc [] x u n = (refl, tt)
Nodup-snoc (y ∷ xs) x u n =
    (ground (arith, contains-append xs (x ∷ []) y, u.0), Nodup-snoc xs x u.1 (ground arith))

pub Nodup-add : (xs : List String) (x : String) → Nodup xs → Nodup (add xs x)
Nodup-add xs x u = elim (Bool-cases (contains xs x)) [
  | inl old ↦ rw old u
  | inr new ↦ rw new (Nodup-snoc xs x u new)
]

pub update-Nodup : (xs s : List String) → Nodup s → Nodup (update s xs)
update-Nodup [] s u = u
update-Nodup (x ∷ xs) s u = update-Nodup xs (add s x) (Nodup-add s x u)

pub to_set-Nodup : (xs : List String) → Nodup (to_set xs)
to_set-Nodup xs = update-Nodup xs [] tt
