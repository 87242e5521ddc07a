-- ===== src/Diagnose/Needed.antt =====
-- The ids that a policy needs and the namespaces that are run for them.
use Prim.Native.Char.{Char, code}
use text.Mathlib.TextLemmas.{cons-append, nil-append}
use evidence_tool.Base.{
  String, ◌<>◌, ◌≡◌, refl, ◌⊎◌, inl, inr, Bool, true, false, Option, none, some, List, [], ◌∷◌,
  ◌++◌, arith, ◌==◌, if◌then◌else◌, contains, contains-add, Any, split, starts_with, cons_first,
  nat_beq,
}
use evidence_tool.Base.Dict.{keys}
use evidence_tool.Base.Sort.{contains-sorted}
use evidence_tool.Models.Policy.{Policy, requirement_ids}
use evidence_tool.Models.Correlation.{Situation}
use evidence_tool.Diagnose.Namespaces.{
  first_of, namespace_of, add_part, add_namespaces, add_of_situations, add_of_policy,
  needed_namespaces, in_namespace,
}

-- The id stands in the signature of a situation that the policy lists.
abbrev pub IsListed : Policy → String → Situation → Type 0
IsListed policy id sit =
    (contains (policy.allow ++ policy.blocked_by) sit.id ≡ true)
    × (contains (keys sit.signature) id ≡ true)

abbrev pub IsNeeded : Policy → List Situation → String → Type 0
IsNeeded policy catalog id =
    (contains (requirement_ids policy.required_evidence) id ≡ true)
    ⊎ Any (IsListed policy id) catalog

-- The first of several parts, with the dot, is what the text starts with.
abbrev Heads : String → List String → Type 0
Heads s [] = ⊥
Heads s (part ∷ []) = Unit
Heads s (part ∷ _ ∷ _) = starts_with s (part <> ".") ≡ true

starts_with_cons :
    (d : Char) (s p : String)
    → starts_with s p ≡ true
    → starts_with (String.◌∷◌ d s) (String.◌∷◌ d p) ≡ true
unfolding starts_with
starts_with_cons d s p h = ground arith

Heads-cons :
    (d : Char) (s : String) (parts : List String) (is_dot : Bool)
    → nat_beq (code d) 46 ≡ is_dot
    → Heads s parts
    → Heads (String.◌∷◌ d s) (if is_dot then "" ∷ parts else cons_first (String.◌∷◌ d "") parts)
unfolding starts_with cons_first
Heads-cons d s [] is_dot e h = absurd h
Heads-cons d s (part ∷ []) true e h = ground arith
Heads-cons d s (part ∷ []) false e h = tt
Heads-cons d s (part ∷ next ∷ rest) true e h = ground arith
Heads-cons d s (part ∷ next ∷ rest) false e h =
    rw (cons-append d "" part, nil-append part, cons-append d part ".")
      (starts_with_cons d s (part <> ".") h)

Heads-split : (s : String) → Heads s (split 46 s)
unfolding split
Heads-split String.[] = tt
Heads-split (String.◌∷◌ d s) =
    Heads-cons d s (split 46 s) (nat_beq (code d) 46) refl (Heads-split s)

in_namespace-first_of :
    (id namespace : String) (parts : List String)
    → Heads id parts
    → first_of parts ≡ some namespace
    → in_namespace namespace id ≡ true
unfolding first_of
in_namespace-first_of id namespace [] h e = cc
in_namespace-first_of id namespace (part ∷ []) h e = cc
in_namespace-first_of id namespace (part ∷ _ ∷ _) h e = cc

pub in_namespace-namespace_of :
    (id namespace : String) → namespace_of id ≡ some namespace → in_namespace namespace id ≡ true
unfolding namespace_of
in_namespace-namespace_of id namespace e =
    in_namespace-first_of id namespace (split 46 id) (Heads-split id) e

add_part-keeps :
    (part : Option String) (found : List String) (a : String)
    → contains found a ≡ true
    → contains (add_part part found) a ≡ true
unfolding add_part
add_part-keeps none found a h = h
add_part-keeps (some part) found a h = ground (arith, contains-add found part a)

add_namespaces-keeps :
    (xs found : List String) (a : String)
    → contains found a ≡ true
    → contains (add_namespaces xs found) a ≡ true
unfolding add_namespaces
add_namespaces-keeps [] found a h = h
add_namespaces-keeps (x ∷ xs) found a h =
    add_namespaces-keeps xs (add_part (namespace_of x) found) a
      (add_part-keeps (namespace_of x) found a h)

add_part-covers :
    (part : Option String) (found : List String) (namespace : String)
    → part ≡ some namespace
    → contains (add_part part found) namespace ≡ true
unfolding add_part
add_part-covers none found namespace h = cc
add_part-covers (some part) found namespace h = ground (arith, contains-add found part namespace)

add_namespaces-covers :
    (xs found : List String) (id namespace : String)
    → contains xs id ≡ true
    → namespace_of id ≡ some namespace
    → contains (add_namespaces xs found) namespace ≡ true
unfolding add_namespaces
add_namespaces-covers [] found id namespace m h = cc
add_namespaces-covers (x ∷ xs) found id namespace m h = ground (
  arith,
  add_namespaces-covers xs (add_part (namespace_of x) found) id namespace,
  add_namespaces-keeps xs (add_part (namespace_of x) found) namespace,
  add_part-covers (namespace_of x) found namespace,
)

add_of_situations-keeps :
    (sit_id : String) (catalog : List Situation) (found : List String) (a : String)
    → contains found a ≡ true
    → contains (add_of_situations sit_id catalog found) a ≡ true
unfolding add_of_situations
add_of_situations-keeps sit_id [] found a h = h
add_of_situations-keeps sit_id (sit ∷ rest) found a h =
    add_of_situations-keeps sit_id rest
      (if sit.id == sit_id then add_namespaces (keys sit.signature) found else found) a
      (ground (arith, add_namespaces-keeps (keys sit.signature) found a h))

add_of_policy-keeps :
    (sit_ids : List String) (catalog : List Situation) (found : List String) (a : String)
    → contains found a ≡ true
    → contains (add_of_policy sit_ids catalog found) a ≡ true
unfolding add_of_policy
add_of_policy-keeps [] catalog found a h = h
add_of_policy-keeps (s ∷ rest) catalog found a h =
    add_of_policy-keeps rest catalog (add_of_situations s catalog found) a
      (add_of_situations-keeps s catalog found a h)

add_of_situations-covers :
    (sit_id id namespace : String) (catalog : List Situation) (found : List String)
    → Any
        (λ (sit : Situation). (sit.id ≡ sit_id) × (contains (keys sit.signature) id ≡ true))
        catalog
    → namespace_of id ≡ some namespace
    → contains (add_of_situations sit_id catalog found) namespace ≡ true
unfolding add_of_situations
add_of_situations-covers sit_id id namespace [] found h e = absurd h
add_of_situations-covers sit_id id namespace (sit ∷ rest) found h e =
    let next = if sit.id == sit_id then add_namespaces (keys sit.signature) found else found in
    ground (
      arith,
      add_of_situations-covers sit_id id namespace rest next,
      add_of_situations-keeps sit_id rest next namespace,
      add_namespaces-covers (keys sit.signature) found id namespace,
    )

abbrev IsNamed : String → String → Situation → Type 0
IsNamed sit_id id sit = (sit.id ≡ sit_id) × (contains (keys sit.signature) id ≡ true)

add_of_policy-covers :
    (sit_ids : List String) (catalog : List Situation) (found : List String) (sit : Situation)
    (id namespace : String)
    → contains sit_ids sit.id ≡ true
    → Any (IsNamed sit.id id) catalog
    → namespace_of id ≡ some namespace
    → contains (add_of_policy sit_ids catalog found) namespace ≡ true
unfolding add_of_policy
add_of_policy-covers [] catalog found sit id namespace m h e = cc
add_of_policy-covers (s ∷ rest) catalog found sit id namespace m h e =
    let next = add_of_situations s catalog found in
    ground (
      arith,
      add_of_policy-covers rest catalog next sit id namespace,
      add_of_policy-keeps rest catalog next namespace,
      add_of_situations-covers sit.id id namespace catalog found,
    )

-- a listed situation is one of the catalog that bears its own id
Any-IsNamed :
    (policy : Policy) (id : String) (catalog : List Situation)
    → Any (IsListed policy id) catalog
    → (sit : Situation) × (contains (policy.allow ++ policy.blocked_by) sit.id ≡ true)
      × Any (IsNamed sit.id id) catalog
Any-IsNamed policy id [] h = absurd h
Any-IsNamed policy id (sit ∷ rest) (inl h) = (sit, h.0, inl (refl, h.1))
Any-IsNamed policy id (sit ∷ rest) (inr h) =
    let (found, listed, named) = Any-IsNamed policy id rest h in (found, listed, inr named)

pub needed_namespaces-covers :
    (policy : Policy) (catalog : List Situation) (id namespace : String)
    → IsNeeded policy catalog id
    → namespace_of id ≡ some namespace
    → contains (needed_namespaces policy catalog) namespace ≡ true
unfolding needed_namespaces
needed_namespaces-covers policy catalog id namespace (inl h) e = rw contains-sorted (
    add_of_policy-keeps (policy.allow ++ policy.blocked_by) catalog
      (add_namespaces (requirement_ids policy.required_evidence) []) namespace
      (add_namespaces-covers (requirement_ids policy.required_evidence) [] id namespace h e))
needed_namespaces-covers policy catalog id namespace (inr h) e =
    let (sit, listed, named) = Any-IsNamed policy id catalog h in
    rw contains-sorted (
      add_of_policy-covers (policy.allow ++ policy.blocked_by) catalog
        (add_namespaces (requirement_ids policy.required_evidence) []) sit id namespace listed named
        e)
