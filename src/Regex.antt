-- ===== src/Regex.antt =====
-- Python's regular expressions as far as the program writes them: classes of characters, one or
-- more of a class, sequences, alternatives and optional parts, between `^` and `$`. A text is the
-- list of its code points.
pub mod Classes
use Prim.Native.Char.{code}
use Prim.Native.String.{String}
use mathlib.Core.List.{flat_map}
use meshtastic_things.Prelude.{
  ℕ, Bool, true, false, ◌||◌, List, [], ◌∷◌, ◌++◌, ◌==◌, any, if◌then◌else◌,
}

abbrev pub Text : Type 0
Text = List ℕ

-- The code points of a literal.
abbrev pub codes : String → Text
codes String.[] = []
codes (String.◌∷◌ c s) = code c ∷ codes s

pub data Re : Type 0 where
  one many : (ℕ → Bool) → Re
  seq alt : Re → Re → Re
  opt : Re → Re

abbrev pub literal : ℕ → Re
literal c = one (λ d. d == c)

-- `re.match(r"^...$", s)`: the rests that the expression can leave, in the order of the search.
unfoldable pub many_rests : (ℕ → Bool) → Text → List Text
many_rests p [] = []
many_rests p (c ∷ s) = let rests = many_rests p s in if p c then rests ++ s ∷ [] else []

unfoldable pub one_rests : (ℕ → Bool) → Text → List Text
one_rests p [] = []
one_rests p (c ∷ s) = if p c then s ∷ [] else []

unfoldable pub rests : Re → Text → List Text
unfolding many_rests one_rests flat_map
rests (one p) s = one_rests p s
rests (many p) s = many_rests p s
rests (seq a b) s = flat_map (rests b) (rests a s)
rests (alt a b) s = rests a s ++ rests b s
rests (opt a) s = rests a s ++ s ∷ []

-- `$` is at the end of the text, or before a newline that ends it.
abbrev pub at_end : Text → Bool
at_end [] = true
at_end (c ∷ []) = c == 10
at_end (c ∷ d ∷ s) = false

unfoldable pub matches : Re → Text → Bool
unfolding rests
matches r s = any at_end (rests r s)
