-- ===== src/Base/Sort.antt =====
-- `sorted` on texts, which Python compares by code points.
pub mod Order
pub mod Unique
use Prim.Native.Nat.{ℕ, compare, Ordering}
use Prim.Native.Char.{code}
use Prim.Native.String.{String}
use mathlib.Core.Path.{◌≡◌, refl}
use mathlib.Core.Bool.{Bool, true, false, ◌||◌}
use mathlib.Core.List.{List, [], ◌∷◌}
use native.Mathlib.Omega.{arith}
use evidence_tool.Base.Text.{◌==◌, if◌then◌else◌}
use evidence_tool.Base.Lists.{is_empty, contains, to_set, contains-to_set}

-- `s <= t`
unfoldable pub text_le : String → String → Bool
text_le String.[] t = true
text_le (String.◌∷◌ c s) String.[] = false
text_le (String.◌∷◌ c s) (String.◌∷◌ d t) =
    let rest = text_le s t in
    elim (compare (code c) (code d)) [
      | Ordering.lt ↦ true
      | Ordering.eq ↦ rest
      | Ordering.gt ↦ false
    ]

unfoldable pub insert_sorted : String → List String → List String
insert_sorted a [] = a ∷ []
insert_sorted a (x ∷ xs) =
    let rest = insert_sorted a xs in if text_le a x then a ∷ x ∷ xs else x ∷ rest

-- `sorted(xs)`
unfoldable pub sorted : List String → List String
unfolding insert_sorted text_le
sorted [] = []
sorted (x ∷ xs) = insert_sorted x (sorted xs)

contains-insert_sorted :
    (b : String) (xs : List String) (a : String)
    → contains (insert_sorted b xs) a ≡ (a == b || contains xs a)
unfolding insert_sorted
contains-insert_sorted b [] a = refl
contains-insert_sorted b (x ∷ xs) a = ground (arith, contains-insert_sorted b xs a)

pub contains-sorted : (xs : List String) (a : String) → contains (sorted xs) a ≡ contains xs a
unfolding sorted
contains-sorted [] a = refl
contains-sorted (x ∷ xs) a =
    ground (arith, contains-insert_sorted x (sorted xs) a, contains-sorted xs a)

pub is_empty-sorted : (xs : List String) → is_empty (sorted xs) ≡ is_empty xs
unfolding sorted
is_empty-sorted [] = refl
is_empty-sorted (x ∷ xs) = go (sorted xs)
  where
    go : (ys : List String) → is_empty (insert_sorted x ys) ≡ false
    go [] = refl
    go (y ∷ ys) = ground arith

-- `sorted(set(xs))`
unfoldable pub sorted_set : List String → List String
unfolding sorted
sorted_set xs = sorted (to_set xs)

pub contains-sorted_set :
    (xs : List String) (a : String) → contains (sorted_set xs) a ≡ contains xs a
unfolding sorted_set
contains-sorted_set xs a = ground (arith, contains-sorted (to_set xs) a, contains-to_set xs a)
