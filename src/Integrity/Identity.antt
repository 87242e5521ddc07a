-- ===== src/Integrity/Identity.antt =====
-- When the two checks on ids find nothing.
use evidence_tool.Base.{
  ◌≤◌, String, ◌≡◌, ◌↔◌, refl, Bool, true, false, not, ◌&&◌, List, [], ◌∷◌, ◌++◌, arith, ltb,
  is_empty, filter, contains, to_set, contains-to_set, Nodup,
}
use evidence_tool.Base.Sort.{is_empty-sorted}
use evidence_tool.Integrity.{
  flag, occurrences, duplicate_ids, unknown_blocking_ids, identity_violations,
}

pub is_empty-append {ℓ} :
    {A : Type ℓ} (xs ys : List A) → is_empty (xs ++ ys) ≡ (is_empty xs && is_empty ys)
is_empty-append [] ys = refl
is_empty-append (x ∷ xs) ys = refl

pub is_empty-flag : (b : Bool) (t : String) → is_empty (flag b t) ≡ not b
is_empty-flag true t = refl
is_empty-flag false t = refl

module _ (p : String → Bool) where
  is_empty-filter_of :
      (xs : List String)
      → ((a : String) → contains xs a ≡ true → p a ≡ false)
      → is_empty (filter p xs) ≡ true
  is_empty-filter_of [] h = refl
  is_empty-filter_of (x ∷ xs) h =
      ground (arith, h x, is_empty-filter_of xs (λ a m. h a (ground arith)))

  of_is_empty-filter :
      (xs : List String) (a : String)
      → is_empty (filter p xs) ≡ true
      → contains xs a ≡ true
      → p a ≡ false
  of_is_empty-filter [] a h m = cc
  of_is_empty-filter (x ∷ xs) a h m = ground (arith, of_is_empty-filter xs a)

occurrences_absent : (xs : List String) (a : String) → contains xs a ≡ false → occurrences xs a ≡ 0
unfolding occurrences
occurrences_absent [] a h = refl
occurrences_absent (x ∷ xs) a h = ground (arith, occurrences_absent xs a)

absent_of_occurrences :
    (xs : List String) (a : String) → occurrences xs a ≡ 0 → contains xs a ≡ false
unfolding occurrences
absent_of_occurrences [] a h = refl
absent_of_occurrences (x ∷ xs) a h = ground (arith, absent_of_occurrences xs a)

occurrences-le : (xs : List String) (a : String) → Nodup xs → occurrences xs a ≤ 1
unfolding occurrences
occurrences-le [] a u = omega arith
occurrences-le (x ∷ xs) a u = ground (arith, occurrences-le xs a u.1, occurrences_absent xs x)

Nodup-of_occurrences : (xs : List String) → ((a : String) → occurrences xs a ≤ 1) → Nodup xs
Nodup-of_occurrences [] h = tt
Nodup-of_occurrences (x ∷ xs) h = (
  absent_of_occurrences xs x (unfold occurrences in ground (arith, h x)),
  Nodup-of_occurrences xs (λ a. unfold occurrences in ground (arith, h a)),
)

-- The check reports no repeated id exactly when no id occurs twice.
pub duplicate_ids-empty_iff : (xs : List String) → (is_empty (duplicate_ids xs) ≡ true) ↔ Nodup xs
unfolding duplicate_ids
duplicate_ids-empty_iff xs = (
  λ h. Nodup-of_occurrences xs λ a. ground (
    arith,
    is_empty-sorted (filter (λ a. ltb 1 (occurrences xs a)) (to_set xs)),
    of_is_empty-filter (λ a. ltb 1 (occurrences xs a)) (to_set xs) a,
    contains-to_set xs a,
    occurrences_absent xs a,
  ),
  λ u.
      rw is_empty-sorted
        (is_empty-filter_of _ (to_set xs) (λ a m. ground (arith, occurrences-le xs a u))),
)

-- No blocking id is reported exactly when all of them are known.
pub unknown_blocking_ids-empty_iff :
    (blocking known : List String)
    → (is_empty (unknown_blocking_ids blocking known) ≡ true)
      ↔ ((a : String) → contains blocking a ≡ true → contains known a ≡ true)
unfolding unknown_blocking_ids
unknown_blocking_ids-empty_iff blocking known = (
  λ h a m. ground (
    arith,
    is_empty-sorted (filter (λ a. not (contains known a)) (to_set blocking)),
    of_is_empty-filter (λ a. not (contains known a)) (to_set blocking) a,
    contains-to_set blocking a,
  ),
  λ h. rw is_empty-sorted (
      is_empty-filter_of _ (to_set blocking)
        (λ a m. ground (arith, h a, contains-to_set blocking a))),
)

module _ (blocking known : List String) where
  abbrev pub AreKnown : Type 0
  AreKnown = (a : String) → contains blocking a ≡ true → contains known a ≡ true

  pub identity_violations-empty_iff :
      (is_empty (identity_violations blocking known) ≡ true) ↔ (Nodup known × AreKnown)
  identity_violations-empty_iff =
      unfold identity_violations in
      rw (is_empty-append, is_empty-flag, is_empty-flag)
        (ground
          (arith, duplicate_ids-empty_iff known, unknown_blocking_ids-empty_iff blocking known))
