-- ===== src/Base/Results.antt =====
-- What a Python function that may raise gives back: a value, or the exception with its text.
use Prim.Native.String.{String}
use mathlib.Core.Path.{◌≡◌, refl, subst}
use mathlib.Core.Logic.{◌⊎◌, inl, inr}
use mathlib.Core.Bool.{Bool, true, false}

pub data Error : Type 0 where
  value_error type_error capability_denied os_error : String → Error

pub data Result {ℓ} (A : Type ℓ) : Type ℓ where
  ok : (value : A) → Result A
  err : (exception : Error) → Result A

-- What the value satisfies where there is one.
abbrev pub Yields {ℓ κ} : {A : Type ℓ} → (A → Type κ) → Result A → Type κ
Yields P (ok a) = P a
Yields P (err e) = Unit

pub Yields_of_ok {ℓ κ} :
    {A : Type ℓ} (P : A → Type κ) (m : Result A) {a : A} → Yields P m → m ≡ ok a → P a
Yields_of_ok P m p h = subst (Yields P) h p

module _ {ℓ κ} {A : Type ℓ} {B : Type κ} where
  infixl 5 ◌>>=◌
  -- the rest runs only where nothing was raised
  abbrev pub ◌>>=◌ : Result A → (A → Result B) → Result B
  err raised >>= next = err raised
  ok value >>= next = next value

  infixl 5 ◌>>◌
  abbrev pub ◌>>◌ : Result A → Result B → Result B
  first >> second = first >>= (λ done. second)

  pub >>=-eq-ok :
      (outcome : Result A) (next : A → Result B) {given : B}
      → (outcome >>= next) ≡ ok given
      → (value : A) × (outcome ≡ ok value) × (next value ≡ ok given)
  >>=-eq-ok (err raised) next h = cc
  >>=-eq-ok (ok value) next h = (value, refl, h)

  pub Yields->>= {μ ν} :
      (P : A → Type μ) (Q : B → Type ν) (m : Result A) (f : A → Result B)
      → Yields P m
      → ((a : A) → P a → Yields Q (f a))
      → Yields Q (m >>= f)
  Yields->>= P Q (ok value) f p next = next value p
  Yields->>= P Q (err raised) f p next = tt

pub Result-cases {ℓ} :
    {A : Type ℓ} (r : Result A) → ((e : Error) × (r ≡ err e)) ⊎ ((a : A) × (r ≡ ok a))
Result-cases (err e) = inl (e, refl)
Result-cases (ok a) = inr (a, refl)

-- `if not test: raise e`
abbrev pub guard : Bool → Error → Result (Unit {0})
guard false exception = err exception
guard true exception = ok tt

pub Yields-guard {κ} :
    {B : Type κ} (Q : B → Type 0) (b : Bool) (e : Error) (m : Result B)
    → (b ≡ true → Yields Q m)
    → Yields Q (guard b e >> m)
Yields-guard Q true e m next = next refl
Yields-guard Q false e m next = tt
