-- ===== src/Loaders/Policy/Sound.antt =====
-- What a policy that the loader accepts is like.
use evidence_tool.Base.{
  ℕ, suc, ◌+◌, ◌*◌, ◌≤◌, String, ◌≡◌, refl, ap, Bool, true, false, not, Option, none, some, List,
  [], ◌∷◌, ◌++◌, arith, if◌then◌else◌, is_empty, length, contains, filter, contains-filter,
  contains-to_set, contains-add, add, update, to_set, All, Nodup, ok, Error, Yields, Yields->>=,
  Yields-guard, Yields_of_ok, Bool-cases, inl, inr,
}
use evidence_tool.Base.Sort.{is_empty-sorted}
use evidence_tool.Base.Int.{ℤ, pos}
use evidence_tool.Models.Value.{Value, null, int, float, finite, text, mapping, get_key}
use evidence_tool.Models.Policy.{
  OnUnknown, EvidenceRequirement, Policy, PolicySchema, RiskLevel, requirement_ids,
}
use evidence_tool.Loaders.{Printing, is_blank, check_texts}
use evidence_tool.Loaders.Dotted.{is_dotted_id}
use evidence_tool.Loaders.Policy.{
  or_raise, text_that, parse_on_unknown, parse_max_age, parse_mapping, parse_evidence_requirement,
  parse_requirements, conflicts, list_of, situation_list, validate_situational_lists, are_unique,
  require_field, load_header, load_requirements, parse_schema, parse_risk, human_approval_of,
  load_policy,
}

abbrev pub IsNonNegative : Option ℤ → Type 0
IsNonNegative none = Unit
IsNonNegative (some limit) = (n : ℕ) × (limit ≡ pos n)

abbrev pub IsRequirement : EvidenceRequirement → Type 0
IsRequirement req = (is_dotted_id req.id ≡ true) × IsNonNegative req.max_age

abbrev pub Disjoint : List String → List String → Type 0
Disjoint xs ys = (a : String) → contains xs a ≡ true → contains ys a ≡ false

pub record IsWellFormed (p : Policy) : Type 0 where
  pub acts : not (is_blank p.action) ≡ true
  pub requirements : All IsRequirement p.required_evidence
  pub unique : Nodup (requirement_ids p.required_evidence)
  pub disjoint : Disjoint p.allow p.blocked_by
  pub allow_named : All (λ (s : String). not (is_blank s) ≡ true) p.allow
  pub blocked_named : All (λ (s : String). not (is_blank s) ≡ true) p.blocked_by

-- the set of the items has as many as the list only if none occurs twice
length-append : (xs : List String) (x : String) → length (xs ++ x ∷ []) ≡ suc (length xs)
length-append [] x = refl
length-append (y ∷ xs) x = ap suc (length-append xs x)

length-add :
    (s : List String) (x : String)
    → length (add s x) ≡ (if contains s x then length s else suc (length s))
length-add s x = ground (arith, length-append s x)

length-update : (xs s : List String) → length (update s xs) ≤ length s + length xs
length-update [] s = ground arith
length-update (x ∷ xs) s = ground (arith, length-update xs (add s x), length-add s x)

abbrev Apart : List String → List String → Type 0
Apart xs s = Nodup xs × Disjoint xs s

Apart-cons :
    (x : String) (xs s : List String) → contains s x ≡ false → Apart xs (add s x) → Apart (x ∷ xs) s
Apart-cons x xs s new (unique, apart) = (
  (ground (arith, apart x, contains-add s x x), unique),
  λ a m. ground (arith, apart a, contains-add s x a),
)

Apart-of_length : (xs s : List String) → length (update s xs) ≡ length s + length xs → Apart xs s
Apart-of_length [] s h = (tt, λ a m. cc)
Apart-of_length (x ∷ xs) s h = elim (Bool-cases (contains s x)) [
  | inl old ↦ absurd (ground (arith, length-update xs (add s x), length-add s x))
  | inr new ↦ Apart-cons x xs s new (Apart-of_length xs (add s x) (ground (arith, length-add s x)))
]

Nodup-are_unique :
    (printing : Printing) (xs : List String) → are_unique printing xs ≡ true → Nodup xs
Nodup-are_unique printing xs h = (Apart-of_length xs [] (ground arith)).0

check_texts-Yields :
    (good : String → Bool) (e : Error) (vs : List Value)
    → Yields (All (λ (s : String). good s ≡ true)) (check_texts good e vs)
unfolding check_texts
check_texts-Yields good e [] = tt
check_texts-Yields good e (text s ∷ vs) = ground (arith, check_texts-Yields good e vs)
check_texts-Yields good e (_ ∷ vs) = tt

text_that-Yields :
    (good : String → Bool) (o : Option Value) (e : Error)
    → Yields (λ (s : String). good s ≡ true) (or_raise (text_that good o) e)
text_that-Yields good none e = tt
text_that-Yields good (some (text s)) e = ground arith
text_that-Yields good (some _) e = tt

or_raise-Yields {ℓ} :
    {A : Type ℓ} (o : Option A) (e : Error) → Yields (λ _. Unit {0}) (or_raise o e)
or_raise-Yields none e = tt
or_raise-Yields (some a) e = tt

parse_max_age-Yields :
    (o : Option Value) (e : Error) → Yields IsNonNegative (or_raise (parse_max_age o) e)
unfolding parse_max_age
parse_max_age-Yields none e = tt
parse_max_age-Yields (some null) e = tt
parse_max_age-Yields (some (int (pos n))) e = (n * 1000000, refl)
parse_max_age-Yields (some (float (finite (pos n)))) e = (n, refl)
parse_max_age-Yields (some _) e = tt

not_contains_of_is_empty :
    (xs : List String) (a : String) → is_empty xs ≡ true → contains xs a ≡ false
not_contains_of_is_empty [] a h = refl
not_contains_of_is_empty (x ∷ xs) a h = cc

module _ (printing : Printing) where
  parse_mapping-Yields :
      (item : Value) (index : ℕ) → Yields IsRequirement (parse_mapping printing item index)
  unfolding parse_mapping
  parse_mapping-Yields item index =
      Yields->>= (λ (s : String). is_dotted_id s ≡ true) IsRequirement _ _
        (text_that-Yields is_dotted_id (get_key "id" item) _)
        λ id dotted.
          Yields->>= (λ (u : OnUnknown). Unit {0}) IsRequirement _ _
            (or_raise-Yields (parse_on_unknown (get_key "on_unknown" item)) _)
            λ on_unknown _.
              Yields->>= IsNonNegative IsRequirement _ _
                (parse_max_age-Yields (get_key "max_age" item) _)
                λ max_age positive. (dotted, positive)

  parse_evidence_requirement-Yields :
      (item : Value) (index : ℕ)
      → Yields IsRequirement (parse_evidence_requirement printing item index)
  unfolding parse_evidence_requirement
  parse_evidence_requirement-Yields (text s) index = ground arith
  parse_evidence_requirement-Yields (mapping fs) index = parse_mapping-Yields (mapping fs) index
  parse_evidence_requirement-Yields _ index = tt

  parse_requirements-Yields :
      (vs : List Value) (index : ℕ)
      → Yields (All IsRequirement) (parse_requirements printing vs index)
  unfolding parse_requirements
  parse_requirements-Yields [] index = tt
  parse_requirements-Yields (v ∷ vs) index =
      Yields->>= IsRequirement (All IsRequirement) _ _ (parse_evidence_requirement-Yields v index)
        λ req good.
          Yields->>= (All IsRequirement) (All IsRequirement) _ _
            (parse_requirements-Yields vs (suc index)) λ reqs all. (good, all)

  abbrev Anything : Value → Type 0
  Anything v = Unit

  abbrev Named : List String → Type 0
  Named = All λ (s : String). not (is_blank s) ≡ true

  situation_list-Yields :
      (field : String) (raw : Option Value) → Yields Named (situation_list printing field raw)
  unfolding situation_list
  situation_list-Yields field raw =
      Yields->>= (λ _. Unit {0}) Named _ _ (or_raise-Yields (list_of raw) _)
        λ xs _. check_texts-Yields (λ s. not (is_blank s)) _ xs

  Disjoint-of_no_conflict :
      (allow blocked_by : List String)
      → is_empty (conflicts printing allow blocked_by) ≡ true
      → Disjoint allow blocked_by
  Disjoint-of_no_conflict allow blocked_by h a m = ground (
    arith,
    is_empty-sorted (filter (contains blocked_by) (to_set allow)),
    contains-filter (contains blocked_by) (to_set allow) a,
    contains-to_set allow a,
    not_contains_of_is_empty (filter (contains blocked_by) (to_set allow)) a,
  )

  abbrev AreLists : List String × List String → Type 0
  AreLists lists = Named lists.0 × Named lists.1 × Disjoint lists.0 lists.1

  validate_situational_lists-Yields :
      (raw : Value) → Yields AreLists (validate_situational_lists printing raw)
  unfolding validate_situational_lists
  validate_situational_lists-Yields raw =
      Yields->>= Named AreLists _ _ (situation_list-Yields "allow" (get_key "allow" raw))
        λ allow named.
          Yields->>= Named AreLists _ _
            (situation_list-Yields "blocked_by" (get_key "blocked_by" raw))
            λ blocked_by named'.
              Yields-guard AreLists (is_empty (conflicts printing allow blocked_by)) _
                (ok (allow, blocked_by))
                λ h. (named, named', Disjoint-of_no_conflict allow blocked_by h)

  abbrev IsHeader : Value × String → Type 0
  IsHeader header = not (is_blank header.1) ≡ true

  load_header-Yields : (raw : Value) → Yields IsHeader (load_header printing raw)
  unfolding load_header require_field
  load_header-Yields raw =
      Yields->>= Anything IsHeader _ _ (or_raise-Yields (get_key "version" raw) _) λ version _.
        Yields->>= Anything IsHeader _ _ (or_raise-Yields (get_key "action" raw) _) λ _ _.
          Yields->>= Anything IsHeader _ _ (or_raise-Yields (get_key "risk" raw) _) λ _ _.
            Yields->>= (λ (s : String). not (is_blank s) ≡ true) IsHeader _ _
              (text_that-Yields (λ s. not (is_blank s)) (get_key "action" raw) _)
              λ action acts. acts

  abbrev AreRequirements : List EvidenceRequirement → Type 0
  AreRequirements reqs = All IsRequirement reqs × Nodup (requirement_ids reqs)

  load_requirements-Yields : (raw : Value) → Yields AreRequirements (load_requirements printing raw)
  unfolding load_requirements
  load_requirements-Yields raw =
      Yields->>= (λ (vs : List Value). Unit {0}) AreRequirements _ _
        (or_raise-Yields (list_of (get_key "required_evidence" raw)) _)
        λ listed _.
          Yields->>= (All IsRequirement) AreRequirements _ _ (parse_requirements-Yields listed 0)
            λ reqs good.
              Yields-guard AreRequirements (are_unique printing (requirement_ids reqs)) _ (ok reqs)
                λ h. (good, Nodup-are_unique printing (requirement_ids reqs) h)

  load_policy-Yields : (raw : Value) → Yields IsWellFormed (load_policy printing raw)
  unfolding load_policy
  load_policy-Yields (mapping fs) =
      let raw = mapping fs in
      Yields->>= IsHeader IsWellFormed _ _ (load_header-Yields raw) λ header acts.
        Yields->>= AreRequirements IsWellFormed _ _ (load_requirements-Yields raw) λ reqs good.
          Yields->>= (λ (s : PolicySchema). Unit {0}) IsWellFormed _ _
            (or_raise-Yields (parse_schema (get_key "schema" raw)) _)
            λ schema _.
              Yields->>= (λ (r : RiskLevel). Unit {0}) IsWellFormed _ _
                (or_raise-Yields (parse_risk (get_key "risk" raw)) _)
                λ risk _.
                  Yields->>= AreLists IsWellFormed _ _ (validate_situational_lists-Yields raw)
                    λ lists named.
                      Yields->>= (λ (b : Bool). Unit {0}) IsWellFormed _ _
                        (or_raise-Yields (human_approval_of (get_key "human_approval" raw)) _)
                        λ approval _. record {
                          acts = acts;
                          requirements = good.0;
                          unique = good.1;
                          disjoint = named.2;
                          allow_named = named.0;
                          blocked_named = named.1;
                        }
  load_policy-Yields _ = tt

  -- A policy that the loader accepts has an action that is not blank, required evidence with
  -- distinct dotted ids and no negative age, and situations that are not blank, none of which is
  -- both allowed and blocked.
  pub load_policy-IsWellFormed :
      (raw : Value) (p : Policy) → load_policy printing raw ≡ ok p → IsWellFormed p
  load_policy-IsWellFormed raw p h =
      Yields_of_ok IsWellFormed (load_policy printing raw) (load_policy-Yields raw) h
