-- ===== src/Base/Sort/Unique.antt =====
-- Sorted sets with the same members.
use Prim.Native.String.{String}
use mathlib.Core.Path.{◌≡◌, refl, sym, ap, ap₂, ◌∙◌}
use mathlib.Core.Logic.{inl, inr}
use mathlib.Core.Bool.{true, false}
use mathlib.Core.List.{List, [], ◌∷◌}
use native.Mathlib.Omega.{arith}
use evidence_tool.Base.Text.{string_dec, Bool-cases}
use evidence_tool.Base.Lists.{contains, to_set, All, Nodup, to_set-Nodup}
use evidence_tool.Base.Sort.{
  text_le, insert_sorted, sorted, sorted_set, contains-insert_sorted, contains-sorted,
  contains-sorted_set,
}
use evidence_tool.Base.Sort.Order.{text_le_refl, text_le_total, text_le_trans, text_le_antisymm}

abbrev Below : String → List String → Type 0
Below x = All (λ y. text_le x y ≡ true)

abbrev pub IsSorted : List String → Type 0
IsSorted [] = Unit
IsSorted (x ∷ xs) = Below x xs × IsSorted xs

Below-trans : (a x : String) (xs : List String) → text_le a x ≡ true → Below x xs → Below a xs
Below-trans a x [] h b = tt
Below-trans a x (y ∷ xs) h b = (text_le_trans a x y h b.0, Below-trans a x xs h b.1)

Below-insert_sorted :
    (x a : String) (xs : List String)
    → text_le x a ≡ true
    → Below x xs
    → Below x (insert_sorted a xs)
unfolding insert_sorted
Below-insert_sorted x a [] h b = (h, tt)
Below-insert_sorted x a (y ∷ xs) h b = elim (Bool-cases (text_le a y)) [
  | inl le ↦ rw le (h, b)
  | inr gt ↦ rw gt (b.0, Below-insert_sorted x a xs h b.1)
]

insert_sorted-IsSorted :
    (a : String) (xs : List String) → IsSorted xs → IsSorted (insert_sorted a xs)
unfolding insert_sorted
insert_sorted-IsSorted a [] s = (tt, tt)
insert_sorted-IsSorted a (x ∷ xs) s = elim (Bool-cases (text_le a x)) [
  | inl le ↦ rw le ((le, Below-trans a x xs le s.0), s)
  | inr gt ↦ rw gt (
    Below-insert_sorted x a xs (ground (arith, text_le_total a x)) s.0,
    insert_sorted-IsSorted a xs s.1,
  )
]

insert_sorted-Nodup :
    (a : String) (xs : List String) → contains xs a ≡ false → Nodup xs → Nodup (insert_sorted a xs)
unfolding insert_sorted
insert_sorted-Nodup a [] n u = (refl, tt)
insert_sorted-Nodup a (x ∷ xs) n u = elim (Bool-cases (text_le a x)) [
  | inl le ↦ rw le (n, u)
  | inr gt ↦ rw gt (
    ground (arith, contains-insert_sorted a xs x, u.0),
    insert_sorted-Nodup a xs (ground arith) u.1,
  )
]

pub sorted-IsSorted : (xs : List String) → IsSorted (sorted xs)
unfolding sorted
sorted-IsSorted [] = tt
sorted-IsSorted (x ∷ xs) = insert_sorted-IsSorted x (sorted xs) (sorted-IsSorted xs)

sorted-Nodup : (xs : List String) → Nodup xs → Nodup (sorted xs)
unfolding sorted
sorted-Nodup [] u = tt
sorted-Nodup (x ∷ xs) u =
    insert_sorted-Nodup x (sorted xs) (rw contains-sorted u.0) (sorted-Nodup xs u.1)

-- Two lists with the same members.
abbrev pub SameMembers : List String → List String → Type 0
SameMembers xs ys = (a : String) → contains xs a ≡ contains ys a

le_of_member :
    (x a : String) (xs : List String) → Below x xs → contains xs a ≡ true → text_le x a ≡ true
le_of_member x a [] b m = cc
le_of_member x a (y ∷ xs) b m = elim (string_dec a y) [
  | yes e ↦ rw e b.0
  | no ne ↦ le_of_member x a xs b.1 (ground arith)
]

-- the first of a sorted list is at most any member
head_le :
    (x a : String) (xs : List String) → Below x xs → contains (x ∷ xs) a ≡ true → text_le x a ≡ true
head_le x a xs b m = elim (string_dec a x) [
  | yes e ↦ rw e (text_le_refl x)
  | no ne ↦ le_of_member x a xs b (ground arith)
]

tail_same :
    (x : String) (xs ys : List String)
    → contains xs x ≡ false
    → contains ys x ≡ false
    → SameMembers (x ∷ xs) (x ∷ ys)
    → SameMembers xs ys
tail_same x xs ys nx ny h a = elim (string_dec a x) [
  | yes e ↦ rw e (nx ∙ sym ny)
  | no ne ↦ ground (arith, h a)
]

unique :
    (xs ys : List String)
    → IsSorted xs
    → IsSorted ys
    → Nodup xs
    → Nodup ys
    → SameMembers xs ys
    → xs ≡ ys
unique [] [] sx sy ux uy h = refl
unique [] (y ∷ ys) sx sy ux uy h = absurd (ground (arith, h y))
unique (x ∷ xs) [] sx sy ux uy h = absurd (ground (arith, h x))
unique (x ∷ xs) (y ∷ ys) sx sy ux uy h =
    let e : x ≡ y =
      text_le_antisymm x y (head_le x y xs sx.0 (h y ∙ ground arith))
        (head_le y x ys sy.0 (sym (h x) ∙ ground arith)) in
    ap₂ (λ (a : String) (l : List String). a ∷ l) e
      (unique xs ys sx.1 sy.1 ux.1 uy.1 (
        tail_same x xs ys ux.0 (rw e uy.0)
          (λ a. h a ∙ ap (λ (z : String). contains (z ∷ ys) a) (sym e))))

-- `sorted(set(xs))` depends on the members of `xs` alone.
pub sorted_set-eq : (xs ys : List String) → SameMembers xs ys → sorted_set xs ≡ sorted_set ys
unfolding sorted_set
sorted_set-eq xs ys h =
    unique (sorted (to_set xs)) (sorted (to_set ys)) (sorted-IsSorted (to_set xs))
      (sorted-IsSorted (to_set ys)) (sorted-Nodup (to_set xs) (to_set-Nodup xs))
      (sorted-Nodup (to_set ys) (to_set-Nodup ys))
      λ a. unfold sorted_set in (contains-sorted_set xs a ∙ h a ∙ sym (contains-sorted_set ys a))
