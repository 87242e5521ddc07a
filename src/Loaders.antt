-- ===== src/Loaders.antt =====
-- The YAML loaders, and what they share. The policy and the catalog start from the value that
-- `yaml.safe_load` gives.
pub mod Dotted
pub mod Policy
pub mod Catalog
pub mod Capability
use evidence_tool.Base.{
  ℕ, String, Bool, true, false, not, ◌&&◌, ◌||◌, Option, none, some, List, [], ◌∷◌, leb, Result, ok,
  err, Error, if◌then◌else◌, nat_beq,
}
use Prim.Native.Char.{code}
use evidence_tool.Base.Decimal.{is_space}
use evidence_tool.Models.Value.{Value, text}

-- How Python prints: `str(n)` of a number, `str(v)` of a value of YAML, `str(xs)` of a list of texts.
pub record Printing : Type 0 where
  pub number : ℕ → String
  pub value : Value → String
  pub texts : List String → String

-- `not s.strip()`
unfoldable pub is_blank : String → Bool
is_blank String.[] = true
is_blank (String.◌∷◌ c s) = is_space (code c) && is_blank s

-- `raw.get(key, default)`
abbrev pub get_or : Value → Option Value → Value
get_or default none = default
get_or default (some v) = v

-- a list of texts that satisfy a test
unfoldable pub check_texts : (String → Bool) → Error → List Value → Result (List String)
check_texts good e [] = ok []
check_texts good e (text s ∷ rest) = elim (good s) [
  | false ↦ err e
  | true ↦ elim (check_texts good e rest) [ err e' ↦ err e' | ok xs ↦ ok (s ∷ xs) ]
]
check_texts good e (_ ∷ rest) = err e
