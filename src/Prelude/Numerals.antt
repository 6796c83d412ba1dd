-- ===== src/Prelude/Numerals.antt =====
-- `str(n)` and `f"{n:08x}"` determine the number, and the part of a text before its first colon.
use Prim.Native.Char.{code}
use meshtastic_things.Prelude.Tests.{◌==◌, if◌then◌else◌, leb, Bool-cases, ==_iff}
use meshtastic_things.Prelude.Lists.{length, All, All-append}
use meshtastic_things.Prelude.Text.{
  fstring, digits_from, digits, digit_char, render, show, zeros, hex8, split_colon,
}
use Prim.Native.Nat.{ℕ, zero, suc, ◌+◌, ◌-◌, ◌*◌, ◌/◌, ◌%◌, ◌≤◌, ◌<◌}
use Prim.Native.String.{String}
use mathlib.Core.Path.{◌≡◌, refl, sym, ap, ◌∙◌}
use mathlib.Core.Bool.{Bool, true, false}
use mathlib.Core.Logic.{inl, inr}
use mathlib.Core.Option.{some}
use mathlib.Core.List.{List, [], ◌∷◌, ◌++◌}
use native.Mathlib.Nat.{div-add-mod', div-lt_self, mod-lt}
use text.Mathlib.TextLemmas.{nil-append, cons-append}
use native.Mathlib.Omega.{arith}

-- The number that digits in a base stand for, read from the left.
unfoldable pub value : ℕ → ℕ → List ℕ → ℕ
value base acc [] = acc
value base acc (d ∷ ds) = value base (acc * base + d) ds

fewer : (base fuel n : ℕ) → 1 < base → n < suc fuel → 0 < n / base → n / base < fuel
fewer base fuel zero h k p = grind arith
fewer base fuel (suc n) h k p =
    let q = div-lt_self {n = suc n} {k = base} (omega arith) h in omega arith

value-digits_from :
    (base fuel n : ℕ) (ds : List ℕ)
    → 1 < base
    → n < fuel
    → value base 0 (digits_from base fuel n ds) ≡ value base n ds
unfolding value digits_from
value-digits_from base zero n ds h k = absurd (omega arith)
value-digits_from base (suc fuel) n ds h k = elim (Bool-cases (n / base == 0)) [
  | inl done ↦ rw done (ap (λ m. value base m ds) (ground (arith, div-add-mod' n base)))
  | inr more ↦ rw more (
      value-digits_from base fuel (n / base) (n % base ∷ ds) h
        (fewer base fuel n h k (ground arith))
      ∙ ap (λ m. value base m ds) (div-add-mod' n base))
]

-- The character of a digit, read back.
undigit : ℕ → ℕ
undigit c = if leb c b'9' then c - b'0' else c - b'a' + 10

unrender : String → List ℕ
unrender String.[] = []
unrender (String.◌∷◌ c s) = undigit (code c) ∷ unrender s

differ : false ≡ true → ⊥
differ e = cc

is_read_back : ℕ → Bool
unfolding undigit
is_read_back d = undigit (code (digit_char d)) == d

-- Whether all digits under a bound are read back.
round_trips : ℕ → Bool
round_trips zero = true
round_trips (suc d) = if is_read_back d then round_trips d else false

round_trips-below : (bound d : ℕ) → d < bound → round_trips bound ≡ true → is_read_back d ≡ true
unfolding round_trips
round_trips-below zero d lt fine = absurd (omega arith)
round_trips-below (suc bound) d lt fine = elim (Bool-cases (is_read_back bound)) [
  | inl good ↦
      let rest : round_trips bound ≡ true = simp good at fine in
      elim (Bool-cases (d == bound)) [
        | inl last ↦ rw ((==_iff d bound).0 last) good
        | inr earlier ↦ round_trips-below bound d (ground arith) rest
      ]
  | inr bad ↦ absurd (differ (simp bad at fine))
]

hexadecimal : round_trips 16 ≡ true
unfolding round_trips is_read_back undigit
hexadecimal = refl

undigit-digit_char : (d : ℕ) → d < 16 → undigit (code (digit_char d)) ≡ d
unfolding is_read_back
undigit-digit_char d h = (==_iff _ d).0 (round_trips-below 16 d h hexadecimal)

unrender-render : (ds : List ℕ) → All (λ d. d < 16) ds → unrender (render ds) ≡ ds
unfolding unrender
unrender-render [] h = refl
unrender-render (d ∷ ds) (h, hs) = cc (undigit-digit_char d h, unrender-render ds hs)

pub digits_from_bounded :
    (base fuel n : ℕ) (ds : List ℕ)
    → 1 < base
    → base ≤ 16
    → All (λ d. d < 16) ds
    → All (λ d. d < 16) (digits_from base fuel n ds)
unfolding digits_from
digits_from_bounded base zero n ds h k a = a
digits_from_bounded base (suc fuel) n ds h k a =
    let c1 : n % base < 16 = omega (arith, mod-lt n {m = base} (omega arith)) in
    let b : (n % base < 16) × All (λ d. d < 16) ds = (c1, a) in
    elim (Bool-cases (n / base == 0)) [
      | inl done ↦ rw done b
      | inr more ↦ rw more (digits_from_bounded base fuel (n / base) (n % base ∷ ds) h k b)
    ]

unrender-digits :
    (base n : ℕ) → 1 < base → base ≤ 16 → unrender (render (digits base n)) ≡ digits base n
unfolding digits
unrender-digits base n h k =
    unrender-render (digits base n) (digits_from_bounded base (suc n) n [] h k tt)

pub value-digits : (base n : ℕ) → 1 < base → value base 0 (digits base n) ≡ n
unfolding digits value
value-digits base n h = value-digits_from base (suc n) n [] h (omega arith)

-- Two numbers that `str` prints alike are equal.
pub show_inj : (a b : ℕ) → show a ≡ show b → a ≡ b
unfolding show
show_inj a b e =
    sym (value-digits 10 a (omega arith))
    ∙ ap (value 10 0) (
        sym (unrender-digits 10 a (omega arith) (omega arith))
        ∙ ap unrender e
        ∙ unrender-digits 10 b (omega arith) (omega arith))
    ∙ value-digits 10 b (omega arith)

zeros_bounded : (n : ℕ) → All (λ d. d < 16) (zeros n)
zeros_bounded zero = tt
zeros_bounded (suc n) = (omega arith, zeros_bounded n)

value-zeros : (n : ℕ) (ds : List ℕ) → value 16 0 (zeros n ++ ds) ≡ value 16 0 ds
unfolding value
value-zeros zero ds = refl
value-zeros (suc n) ds = value-zeros n ds

value-hex8 : (n : ℕ) → value 16 0 (unrender (hex8 n)) ≡ n
unfolding hex8
value-hex8 n =
    ap (value 16 0) (
      unrender-render (zeros (8 - length (digits 16 n)) ++ digits 16 n) (
        All-append (λ d. d < 16) (zeros (8 - length (digits 16 n))) (digits 16 n) (zeros_bounded _)
          (unfold digits in digits_from_bounded 16 (suc n) n [] (omega arith) (omega arith) tt)))
    ∙ value-zeros (8 - length (digits 16 n)) (digits 16 n)
    ∙ value-digits 16 n (omega arith)

-- Two numbers that `:08x` prints alike are equal.
pub hex8_inj : (a b : ℕ) → hex8 a ≡ hex8 b → a ≡ b
hex8_inj a b e = sym (value-hex8 a) ∙ ap (λ s. value 16 0 (unrender s)) e ∙ value-hex8 b

-- No character of the text is a colon.
abbrev pub NoColon : String → Type 0
NoColon String.[] = Unit
NoColon (String.◌∷◌ c s) = ((code c == b':') ≡ false) × NoColon s

-- A text whose first colon is the one written.
pub split_colon-append :
    (s t : String) → NoColon s → split_colon (fstring (s ∷ ":" ∷ t ∷ [])) ≡ (s, some t)
unfolding split_colon
split_colon-append String.[] t h = rw (nil-append, cons-append, nil-append)
split_colon-append (String.◌∷◌ c s) t (h, hs) = rw cons-append (rw (h, split_colon-append s t hs))
