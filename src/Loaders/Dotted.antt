-- ===== src/Loaders/Dotted.antt =====
-- policy/loader.py: the regular expression of the ids of evidence,
-- `[a-z][a-z0-9_-]*\.[a-z][a-z0-9_.-]*` on the whole text.
use Prim.Native.Char.{code}
use evidence_tool.Base.{ℕ, String, Bool, true, false, ◌&&◌, ◌||◌, leb, nat_beq, if◌then◌else◌}

abbrev pub is_lower : ℕ → Bool
is_lower n = leb 97 n && leb n 122

-- `[a-z0-9_-]`
abbrev pub is_word : ℕ → Bool
is_word n = is_lower n || (leb 48 n && leb n 57) || nat_beq n 95 || nat_beq n 45

unfoldable pub after_first : String → Bool
after_first String.[] = true
after_first (String.◌∷◌ c s) = (is_word (code c) || nat_beq (code c) 46) && after_first s

unfoldable pub after_dot : String → Bool
after_dot String.[] = false
after_dot (String.◌∷◌ c s) = is_lower (code c) && after_first s

unfoldable pub before_dot : String → Bool
before_dot String.[] = false
before_dot (String.◌∷◌ c s) =
    let rest = before_dot s in if nat_beq (code c) 46 then after_dot s else is_word (code c) && rest

unfoldable pub is_dotted_id : String → Bool
unfolding before_dot after_dot after_first
is_dotted_id String.[] = false
is_dotted_id (String.◌∷◌ c s) = is_lower (code c) && before_dot s
