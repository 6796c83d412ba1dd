-- ===== src/Quality/Detectors.antt =====
-- meshtastic_things/common/detectors.py: the decisions of the pattern detection job. Values are of any type
-- with the comparison of Python's floats.
use meshtastic_things.Prelude.{
  ℕ, zero, suc, ◌-◌, ◌*◌, ◌/◌, ◌≤◌, leb, ltb, Bool, true, false, ◌≡◌, refl, sym, ap, inl, inr,
  Option, none, some, List, [], ◌∷◌, ◌++◌, arith, length, length-append, if◌then◌else◌, all, drop,
  length-drop,
}
use mathlib.Core.Path.{subst}
use meshtastic_things.Prelude.Members.{In}

abbrev pub default_flat_window : ℕ
default_flat_window = 5

abbrev pub min_flat_window : ℕ
min_flat_window = 3

abbrev pub max_flat_window : ℕ
max_flat_window = 240

-- `int(hours * 3600 / interval_seconds)`, for the default of three hours and a whole number of seconds.
unfoldable pub flat_window_for : Option ℕ → ℕ
flat_window_for none = default_flat_window
flat_window_for (some zero) = default_flat_window
flat_window_for (some (suc n)) =
    let window = 3 * 3600 / suc n in
    let capped = if leb max_flat_window window then max_flat_window else window in
    if leb capped min_flat_window then min_flat_window else capped

module _ {V : Type 0} (equal : V → V → Bool) where
  -- `len(set(values)) == 1`
  abbrev pub all_equal : List V → Bool
  all_equal [] = false
  all_equal (v ∷ values) = all (equal v) values

  -- `recent_values[-window:]` is the whole list for a window of 0.
  abbrev pub last_values : ℕ → List V → List V
  last_values zero values = values
  last_values (suc window) values = drop (length values - suc window) values

  unfoldable pub stuck_value_triggered : ℕ → List V → Bool
  stuck_value_triggered window values =
      if ltb (length values) window then false else all_equal (last_values window values)

module _ {V : Type 0} (less : V → V → Bool) where
  abbrev is_below : V → Option V → Bool
  is_below value none = false
  is_below value (some low) = less value low

  abbrev is_above : V → Option V → Bool
  is_above value none = false
  is_above value (some high) = less high value

  unfoldable pub range_check_triggered : V → Option V → Option V → Bool
  range_check_triggered value min_value max_value =
      if is_below value min_value then true else if is_above value max_value then true else false

-- The number of equal readings that an alarm takes is between 3 and 240, whatever the reading interval.
pub flat_window_for-bounds :
    (interval : Option ℕ) → (3 ≤ flat_window_for interval) × (flat_window_for interval ≤ 240)
unfolding flat_window_for
flat_window_for-bounds none = (omega arith, omega arith)
flat_window_for-bounds (some zero) = (omega arith, omega arith)
flat_window_for-bounds (some (suc n)) = (ground arith, ground arith)

module _ {A : Type 0} where
  all-In : (p : A → Bool) (x : A) (xs : List A) → all p xs ≡ true → In x xs → p x ≡ true
  all-In p x [] h i = absurd i
  all-In p x (y ∷ xs) h (inl e) = rw e (ground arith)
  all-In p x (y ∷ xs) h (inr i) = all-In p x xs (ground arith) i

  In-all : (p : A → Bool) (xs : List A) → ((x : A) → In x xs → p x ≡ true) → all p xs ≡ true
  In-all p [] h = refl
  In-all p (y ∷ xs) h = simp (h y (inl refl), In-all p xs (λ x i. h x (inr i))) refl

  before-drop : (n : ℕ) (xs : List A) → (before : List A) × (xs ≡ before ++ drop n xs)
  before-drop zero xs = ([], refl)
  before-drop (suc n) [] = ([], refl)
  before-drop (suc n) (x ∷ xs) =
      let (before, e) = before-drop n xs in (x ∷ before, ap (λ l. x ∷ l) e)

  drop-append : (before xs : List A) → drop (length before) (before ++ xs) ≡ xs
  drop-append [] xs = refl
  drop-append (b ∷ before) xs = drop-append before xs

module _ {V : Type 0} (equal : V → V → Bool) where
  -- The readings end with as many readings as the number says, all of which equal the first of these.
  abbrev pub EndsEqual : ℕ → List V → Type 0
  EndsEqual n values =
      (before : List V) × (v : V) × (rest : List V) × (values ≡ before ++ v ∷ rest)
      × (length (v ∷ rest) ≡ n)
      × ((x : V) → In x rest → equal v x ≡ true)

  split-EndsEqual :
      (window : ℕ) (before last : List V)
      → length last ≡ suc window
      → all_equal equal last ≡ true
      → EndsEqual (suc window) (before ++ last)
  split-EndsEqual window before [] n h = cc
  split-EndsEqual window before (v ∷ rest) n h =
      (before, v, rest, refl, n, λ x i. all-In (equal v) x rest h i)

  stuck-EndsEqual :
      (window : ℕ) (values : List V)
      → stuck_value_triggered equal (suc window) values ≡ true
      → EndsEqual (suc window) values
  unfolding stuck_value_triggered
  stuck-EndsEqual window values h =
      let full : suc window ≤ length values = ground arith in
      let (before, e) = before-drop (length values - suc window) values in
      subst (EndsEqual (suc window)) (sym e) (
        split-EndsEqual window before (last_values equal (suc window) values)
          (omega (arith, length-drop (length values - suc window) values)) (ground arith))

  EndsEqual-stuck :
      (window : ℕ) (before : List V) (v : V) (rest : List V)
      → length (v ∷ rest) ≡ suc window
      → ((x : V) → In x rest → equal v x ≡ true)
      → stuck_value_triggered equal (suc window) (before ++ v ∷ rest) ≡ true
  unfolding stuck_value_triggered
  EndsEqual-stuck window before v rest n same =
      let l = length-append before (v ∷ rest) in
      let full : ltb (length (before ++ v ∷ rest)) (suc window) ≡ false = ground arith in
      let k : length (before ++ v ∷ rest) - suc window ≡ length before = omega arith in
      rw (full, k, drop-append before (v ∷ rest)) (In-all (equal v) rest same)

  -- For any list of readings and any window of one or more: a stuck value is reported exactly where the
  -- readings end with as many readings as the window has, each of which equals the first of these.
  pub stuck_value_triggered-EndsEqual :
      (window : ℕ) (values : List V)
      → (stuck_value_triggered equal (suc window) values ≡ true → EndsEqual (suc window) values)
        × (EndsEqual (suc window) values → stuck_value_triggered equal (suc window) values ≡ true)
  stuck_value_triggered-EndsEqual window values = (
    stuck-EndsEqual window values,
    λ (before, v, rest, e, n, same). rw e (EndsEqual-stuck window before v rest n same),
  )
