-- ===== src/Prelude/Text.antt =====
-- Texts: Python's f-strings, `str` and hexadecimal formatting of a number, and `split(":", 1)`.
use Prim.Native.Nat.{ℕ, zero, suc, ◌-◌, ◌/◌, ◌%◌}
use Prim.Native.Char.{Char, code}
use Prim.Native.String
use Prim.Native.String.{String}
use mathlib.Core.Option.{Option, none, some}
use mathlib.Core.List.{List, [], ◌∷◌, ◌++◌}
use meshtastic_things.Prelude.Tests.{◌==◌, if◌then◌else◌}
use meshtastic_things.Prelude.Lists.{get_or, length}

-- An f-string, in its parts.
abbrev pub fstring : List String → String
fstring [] = ""
fstring (s ∷ []) = s
fstring (s ∷ t ∷ parts) = String.◌++◌ s (fstring (t ∷ parts))

-- The digits of a number, the highest first. The fuel `n + 1` is enough for every base from 2.
unfoldable pub digits_from : ℕ → ℕ → ℕ → List ℕ → List ℕ
digits_from base zero n acc = acc
digits_from base (suc fuel) n acc =
    let rest = digits_from base fuel (n / base) (n % base ∷ acc) in
    if n / base == 0 then n % base ∷ acc else rest

unfoldable pub digits : ℕ → ℕ → List ℕ
unfolding digits_from
digits base n = digits_from base (suc n) n []

abbrev pub digit_char : ℕ → Char
digit_char d =
    get_or
      ("0" ∷ "1" ∷ "2" ∷ "3" ∷ "4" ∷ "5" ∷ "6" ∷ "7" ∷ "8" ∷ "9" ∷ "a" ∷ "b" ∷ "c" ∷ "d" ∷ "e" ∷ "f"
        ∷ [])
      d "?"

abbrev pub render : List ℕ → String
render [] = String.[]
render (d ∷ ds) = String.◌∷◌ (digit_char d) (render ds)

-- `str(n)`
unfoldable pub show : ℕ → String
unfolding digits
show n = render (digits 10 n)

abbrev pub zeros : ℕ → List ℕ
zeros zero = []
zeros (suc n) = 0 ∷ zeros n

-- `f"{n:08x}"`
unfoldable pub hex8 : ℕ → String
unfolding digits
hex8 n = render (zeros (8 - length (digits 16 n)) ++ digits 16 n)

-- `s.split(":", 1)`: the part before the first colon, and the part after it.
unfoldable pub split_colon : String → String × Option String
split_colon String.[] = (String.[], none)
split_colon (String.◌∷◌ c s) =
    let (head, tail) = split_colon s in
    if code c == b':' then (String.[], some s) else (String.◌∷◌ c head, tail)
