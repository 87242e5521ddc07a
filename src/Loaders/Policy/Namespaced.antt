-- ===== src/Loaders/Policy/Namespaced.antt =====
-- The provider namespaces of the ids that a loaded policy requires.
use evidence_tool.Base.{
  String, ◌≡◌, ◌≢◌, refl, true, false, none, List, [], ◌∷◌, arith, contains, All, split, cons_first,
  is_empty, ok,
}
use evidence_tool.Models.Value.{Value}
use evidence_tool.Models.Policy.{EvidenceRequirement, Policy, requirement_ids}
use evidence_tool.Loaders.{Printing}
use evidence_tool.Loaders.Dotted.{is_dotted_id, before_dot}
use evidence_tool.Loaders.Policy.{load_policy}
use evidence_tool.Loaders.Policy.Sound.{IsRequirement, load_policy-IsWellFormed}
use evidence_tool.Diagnose.Namespaces.{namespace_of, first_of}

is_empty-cons_first : (c : String) (parts : List String) → is_empty (cons_first c parts) ≡ false
unfolding cons_first
is_empty-cons_first c [] = refl
is_empty-cons_first c (s ∷ rest) = refl

is_empty-split : (s : String) → is_empty (split 46 s) ≡ false
unfolding split
is_empty-split String.[] = refl
is_empty-split (String.◌∷◌ d s) = ground (arith, is_empty-cons_first (String.◌∷◌ d "") (split 46 s))

first_of_cons :
    (part : String) (parts : List String) → is_empty parts ≡ false → first_of (part ∷ parts) ≢ none
unfolding first_of
first_of_cons part [] h = cc
first_of_cons part (next ∷ rest) h = cc

first_of-cons_first :
    (c : String) (parts : List String)
    → first_of parts ≢ none
    → first_of (cons_first c parts) ≢ none
unfolding first_of cons_first
first_of-cons_first c [] h = absurd (h refl)
first_of-cons_first c (part ∷ []) h = h
first_of-cons_first c (part ∷ next ∷ rest) h = cc

split_of_before_dot : (s : String) → before_dot s ≡ true → first_of (split 46 s) ≢ none
unfolding before_dot split
split_of_before_dot String.[] h = cc
split_of_before_dot (String.◌∷◌ d s) h = ground (
  arith,
  split_of_before_dot s,
  first_of-cons_first (String.◌∷◌ d "") (split 46 s),
  first_of_cons "" (split 46 s) (is_empty-split s),
)

namespace_of_dotted : (s : String) → is_dotted_id s ≡ true → namespace_of s ≢ none
unfolding is_dotted_id namespace_of split
namespace_of_dotted String.[] h = cc
namespace_of_dotted (String.◌∷◌ d s) h = ground (
  arith,
  split_of_before_dot s,
  first_of-cons_first (String.◌∷◌ d "") (split 46 s),
  first_of_cons "" (split 46 s) (is_empty-split s),
)

dotted_of_requirement :
    (reqs : List EvidenceRequirement) (id : String)
    → All IsRequirement reqs
    → contains (requirement_ids reqs) id ≡ true
    → is_dotted_id id ≡ true
dotted_of_requirement [] id h m = cc
dotted_of_requirement (req ∷ rest) id h m = ground (arith, dotted_of_requirement rest id h.1)

-- Every id of evidence that a loaded policy requires has a provider namespace.
pub load_policy-namespaced :
    (printing : Printing) (raw : Value) (p : Policy)
    → load_policy printing raw ≡ ok p
    → (id : String) → contains (requirement_ids p.required_evidence) id ≡ true
    → namespace_of id ≢ none
load_policy-namespaced printing raw p h id m = namespace_of_dotted id (
    dotted_of_requirement p.required_evidence id
      (load_policy-IsWellFormed printing raw p h).requirements m)
