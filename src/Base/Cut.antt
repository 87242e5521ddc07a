-- ===== src/Base/Cut.antt =====
-- Python's `s.split(c, 1)`.
use Prim.Native.Nat.{ℕ}
use Prim.Native.Char.{Char, code}
use Prim.Native.String.{String, ◌++◌ as ◌<>◌}
use mathlib.Core.Path.{◌≡◌, refl, ap, ◌∙◌}
use mathlib.Core.Bool.{false}
use mathlib.Core.Option.{Option, none, some}
use text.Mathlib.TextLemmas.{nil-append, cons-append}
use evidence_tool.Base.Text.{if◌then◌else◌, nat_beq}
use evidence_tool.Base.Utf8.{char_of}

abbrev put_first : Char → Option (String × String) → Option (String × String)
put_first d none = none
put_first d (some (before, after)) = some (String.◌∷◌ d before, after)

-- the two parts, where the character occurs in the text
unfoldable pub cut : ℕ → String → Option (String × String)
cut c String.[] = none
cut c (String.◌∷◌ d s) =
    let rest = cut c s in if nat_beq (code d) c then some ("", s) else put_first d rest

-- The character, given by its code, does not occur.
abbrev pub Lacks : ℕ → String → Type 0
Lacks n String.[] = Unit
Lacks n (String.◌∷◌ c s) = (nat_beq (code c) n ≡ false) × Lacks n s

equals-append : (s : String) → "=" <> s ≡ String.◌∷◌ (char_of 61) s
unfolding char_of
equals-append s = cons-append (char_of 61) "" s ∙ ap (String.◌∷◌ (char_of 61)) (nil-append s)

-- A text without an equals sign, an equals sign and a text are cut at that sign.
pub cut_lem : (k v : String) → Lacks 61 k → cut 61 (k <> ("=" <> v)) ≡ some (k, v)
unfolding cut char_of
cut_lem String.[] v h = rw (nil-append ("=" <> v), equals-append v) refl
cut_lem (String.◌∷◌ c k) v h = rw (cons-append c k ("=" <> v), h.0, cut_lem k v h.1) refl
