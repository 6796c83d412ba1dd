-- ===== src/Query/Durations.antt =====
-- Durations: what `duration_seconds` makes of a number and a unit.
use Prim.Native.Char.{code}
use mathlib.Core.List.{flat_map}
use meshtastic_things.Prelude.{
  ℕ, zero, suc, ◌+◌, ◌*◌, ◌/◌, ◌%◌, ◌<◌, Bool, true, ◌≡◌, ◌≢◌, refl, ap, inl, inr, none, some, List,
  [], ◌∷◌, ◌++◌, arith, ◌==◌, any, show, digits, digits_from, render, digit_char, Bool-cases, All,
}
use meshtastic_things.Prelude.Numerals.{value, value-digits}
use meshtastic_things.Prelude.Members.{In, In-append_left, In-append_right}
use meshtastic_things.Regex.{
  Text, codes, many, seq, opt, literal, many_rests, one_rests, rests, at_end, matches,
}
use meshtastic_things.Query.{
  Platform, is_digit, unit_re, duration_re, validate_duration, number_from, times_unit,
  duration_seconds,
}

-- The units that are a whole number of seconds.
pub data TimeUnit : Type 0 where
  second minute hour day week month year : TimeUnit

abbrev pub symbol : TimeUnit → Text
symbol second = codes "s"
symbol minute = codes "m"
symbol hour = codes "h"
symbol day = codes "d"
symbol week = codes "w"
symbol month = codes "mo"
symbol year = codes "y"

abbrev pub seconds : TimeUnit → ℕ
seconds second = 1
seconds minute = 60
seconds hour = 60 * 60
seconds day = 24 * 3600
seconds week = 7 * 86400
seconds month = 30 * 86400
seconds year = 365 * 86400

-- Unicode's decimal digits, as far as ASCII has them.
pub record IsUnicode (py : Platform) : Type 0 where
  pub digit : (d : ℕ) → d < 10 → py.decimal (b'0' + d) ≡ some d
  pub letter : (u : TimeUnit) → (c : ℕ) → (s : Text) → symbol u ≡ c ∷ s → py.decimal c ≡ none

digits_from-decimal :
    (fuel n : ℕ) (ds : List ℕ) → All (λ d. d < 10) ds → All (λ d. d < 10) (digits_from 10 fuel n ds)
unfolding digits_from
digits_from-decimal zero n ds a = a
digits_from-decimal (suc fuel) n ds a =
    let b : (n % 10 < 10) × All (λ d. d < 10) ds = (omega arith, a) in
    elim (Bool-cases (n / 10 == 0)) [
      | inl done ↦ rw done b
      | inr more ↦ rw more (digits_from-decimal fuel (n / 10) (n % 10 ∷ ds) b)
    ]

digits_from-nonempty : (fuel n : ℕ) (ds : List ℕ) → ds ≢ [] → digits_from 10 fuel n ds ≢ []
unfolding digits_from
digits_from-nonempty zero n ds h = h
digits_from-nonempty (suc fuel) n ds h = elim (Bool-cases (n / 10 == 0)) [
  | inl done ↦ rw done (λ e. cc)
  | inr more ↦ rw more (digits_from-nonempty fuel (n / 10) (n % 10 ∷ ds) (λ e. cc))
]

digits-nonempty : (n : ℕ) → digits 10 n ≢ []
unfolding digits digits_from
digits-nonempty n = elim (Bool-cases (n / 10 == 0)) [
  | inl done ↦ rw done (λ e. cc)
  | inr more ↦ rw more (digits_from-nonempty n (n / 10) (n % 10 ∷ []) (λ e. cc))
]

small_digit : (d : ℕ) → d < 10 → code (digit_char d) ≡ b'0' + d
small_digit zero h = refl
small_digit (suc zero) h = refl
small_digit (suc (suc zero)) h = refl
small_digit (suc (suc (suc zero))) h = refl
small_digit (suc (suc (suc (suc zero)))) h = refl
small_digit (suc (suc (suc (suc (suc zero))))) h = refl
small_digit (suc (suc (suc (suc (suc (suc zero)))))) h = refl
small_digit (suc (suc (suc (suc (suc (suc (suc zero))))))) h = refl
small_digit (suc (suc (suc (suc (suc (suc (suc (suc zero)))))))) h = refl
small_digit (suc (suc (suc (suc (suc (suc (suc (suc (suc zero))))))))) h = refl
small_digit (suc (suc (suc (suc (suc (suc (suc (suc (suc (suc d)))))))))) h = absurd (omega arith)

module _ (py : Platform) (unicode : IsUnicode py) where
  digit_decimal : (d : ℕ) → d < 10 → py.decimal (code (digit_char d)) ≡ some d
  digit_decimal d h = rw (small_digit d h) (unicode.digit d h)

  stops : (u : TimeUnit) (acc : ℕ) → number_from py acc (symbol u) ≡ (acc, symbol u)
  unfolding number_from
  stops second acc = rw (unicode.letter second _ _ refl, number_from) refl
  stops minute acc = rw (unicode.letter minute _ _ refl, number_from) refl
  stops hour acc = rw (unicode.letter hour _ _ refl, number_from) refl
  stops day acc = rw (unicode.letter day _ _ refl, number_from) refl
  stops week acc = rw (unicode.letter week _ _ refl, number_from) refl
  stops month acc = rw (unicode.letter month _ _ refl, number_from) refl
  stops year acc = rw (unicode.letter year _ _ refl, number_from) refl

  number-render :
      (ds : List ℕ) (acc : ℕ) (u : TimeUnit)
      → All (λ d. d < 10) ds
      → number_from py acc (codes (render ds) ++ symbol u) ≡ (value 10 acc ds, symbol u)
  unfolding number_from value
  number-render [] acc u h = stops u acc
  number-render (d ∷ ds) acc u (h, hs) =
      rw (digit_decimal d h, number_from) (number-render ds (acc * 10 + d) u hs)

  many-render :
      (ds : List ℕ) (rest : Text)
      → ds ≢ []
      → All (λ d. d < 10) ds
      → In rest (many_rests (is_digit py) (codes (render ds) ++ rest))
  unfolding many_rests
  many-render [] rest n h = absurd (n refl)
  many-render (d ∷ []) rest n (h, hs) =
      rw (digit_decimal d h, many_rests)
        (In-append_right rest (many_rests (is_digit py) rest) (rest ∷ []) (inl refl))
  many-render (d ∷ e ∷ ds) rest n (h, hs) =
      rw (digit_decimal d h, many_rests)
        (In-append_left rest _ _ (many-render (e ∷ ds) rest (λ x. cc) hs))

  In-flat_map_of :
      {A B : Type 0} (f : A → List B) (x : A) (y : B) (xs : List A)
      → In x xs
      → In y (f x)
      → In y (flat_map f xs)
  unfolding flat_map
  In-flat_map_of f x y [] i j = absurd i
  In-flat_map_of f x y (z ∷ xs) (inl e) j = In-append_left y (f z) (flat_map f xs) (rw (← e) j)
  In-flat_map_of f x y (z ∷ xs) (inr i) j =
      In-append_right y (f z) (flat_map f xs) (In-flat_map_of f x y xs i j)

  any-In :
      {A : Type 0} (p : A → Bool) (x : A) (xs : List A) → In x xs → p x ≡ true → any p xs ≡ true
  any-In p x [] i h = absurd i
  any-In p x (y ∷ xs) (inl e) h = let h' : p y ≡ true = rw e at h in rw h' refl
  any-In p x (y ∷ xs) (inr i) h = ground (arith, any-In p x xs i h)

  unit-ends : (u : TimeUnit) → In [] (rests (unit_re py) (symbol u))
  unfolding rests one_rests flat_map
  unit-ends second = inl refl
  unit-ends minute = inl refl
  unit-ends hour = inl refl
  unit-ends day = inl refl
  unit-ends week = inl refl
  unit-ends month = inr (inl refl)
  unit-ends year = inl refl

  written : ℕ → TimeUnit → Text
  written n u = b'-' ∷ (codes (show n) ++ symbol u)

  written-matches : (n : ℕ) (u : TimeUnit) → matches (duration_re py) (written n u) ≡ true
  unfolding matches rests written show one_rests
  written-matches n u =
      any-In at_end [] (rests (duration_re py) (written n u))
        (In-flat_map_of (rests (seq (many (is_digit py)) (unit_re py)))
          (codes (render (digits 10 n)) ++ symbol u) [] (rests (opt (literal b'-')) (written n u))
          (inl refl)
          (In-flat_map_of (rests (unit_re py)) (symbol u) [] _
            (many-render (digits 10 n) (symbol u) (digits-nonempty n)
              (unfold digits in digits_from-decimal (suc n) n [] tt))
            (unit-ends u)))
        refl

  times : (u : TimeUnit) (n : ℕ) → times_unit py n (symbol u) ≡ n * seconds u
  times second n = omega arith
  times minute n = refl
  times hour n = refl
  times day n = refl
  times week n = refl
  times month n = refl
  times year n = refl

  -- Where Python reads the digits 0 to 9 as numbers and no letter of a unit as a digit: a number
  -- written in decimal after a minus sign, with a unit that is a whole number of seconds, is
  -- read as that number of the unit, in seconds; a month has thirty days and a year 365.
  pub duration_seconds-show :
      (n : ℕ) (u : TimeUnit)
      → duration_seconds py (b'-' ∷ (codes (show n) ++ symbol u)) ≡ some (n * seconds u)
  unfolding duration_seconds validate_duration written show
  duration_seconds-show n u =
      let m : matches (duration_re py) (b'-' ∷ (codes (render (digits 10 n)) ++ symbol u)) ≡ true =
        written-matches n u in
      let e =
        number-render (digits 10 n) 0 u (unfold digits in digits_from-decimal (suc n) n [] tt) in
      rw (m, duration_seconds, validate_duration)
        (rw e (ap some (rw (value-digits 10 n (omega arith)) (times u n))))
