-- ===== src/Query.antt =====
-- meshtastic_things/common/influx_query.py: the validation of what is interpolated into a query. A text is
-- the list of its code points; `none` is a ValueError.
pub mod Flux
pub mod Safety
pub mod Templates
pub mod Durations
pub mod Introspection
use meshtastic_things.Prelude.{
  ℕ, ◌+◌, ◌*◌, Bool, true, false, not, ◌&&◌, ◌||◌, leb, ◌==◌, Option, none, some, List, [], ◌∷◌,
  ◌++◌, any, is_some, if◌then◌else◌,
}
use meshtastic_things.Regex.{Text, codes, Re, one, many, seq, alt, opt, literal, matches}

-- What the code asks of Python: the value of a decimal digit and whether a character is white space
-- (Unicode's tables), uuid.UUID to text, datetime.fromisoformat to a UTC timestamp, and the integer
-- part of a thousandth, in floating point.
pub record Platform : Type 0 where
  pub decimal : ℕ → Option ℕ
  pub is_space : ℕ → Bool
  pub canonical_uuid : Text → Option Text
  pub canonical_instant : Text → Option Text
  pub thousandth : ℕ → ℕ

abbrev pub eq_text : Text → Text → Bool
eq_text [] [] = true
eq_text (c ∷ s) (d ∷ t) = (c == d) && eq_text s t
eq_text _ _ = false

abbrev between : ℕ → ℕ → ℕ → Bool
between low high c = leb low c && leb c high

-- [A-Za-z0-9_:.\-]
unfoldable pub is_ident : ℕ → Bool
is_ident c =
    between b'A' b'Z' c
    || (between b'a' b'z' c
        || (between b'0' b'9' c || (c == b'_' || (c == b':' || (c == b'.' || c == b'-')))))

-- `_IDENT_RE`
abbrev pub ident_re : Re
ident_re = many is_ident

-- ALLOWED_AGG
abbrev pub allowed_agg : List Text
allowed_agg =
    codes "mean"
    ∷ codes "max"
    ∷ codes "min"
    ∷ codes "last"
    ∷ codes "first"
    ∷ codes "sum"
    ∷ codes "count"
    ∷ []

unfoldable pub validate_ident : Text → Option Text
unfolding matches is_ident
validate_ident value = if matches ident_re value then some value else none

unfoldable pub validate_agg : Text → Option Text
validate_agg value = if any (eq_text value) allowed_agg then some value else none

-- `partition(".")`: before and after the first dot, if there is one.
unfoldable pub partition_dot : Text → Text × Option Text
partition_dot [] = ([], none)
partition_dot (c ∷ s) =
    let (head, tail) = partition_dot s in if c == b'.' then ([], some s) else (c ∷ head, tail)

abbrev both : Option Text → Option Text → Option (Text × Text)
both (some s) (some t) = some (s, t)
both _ _ = none

abbrev pub split_parts : Text → Option Text → Option (Text × Text)
split_parts [] tail = none
split_parts (c ∷ s) none = none
split_parts (c ∷ s) (some []) = none
split_parts (c ∷ s) (some (d ∷ t)) = both (validate_ident (c ∷ s)) (validate_ident (d ∷ t))

unfoldable pub split_channel : Text → Option (Text × Text)
unfolding partition_dot validate_ident
split_channel channel =
    let (measurement, field) = partition_dot channel in split_parts measurement field

module _ (py : Platform) where
  open py use {decimal, is_space, canonical_uuid, canonical_instant, thousandth}

  -- \d
  abbrev pub is_digit : ℕ → Bool
  is_digit c = is_some (decimal c)

  -- (ms|s|m|h|d|w|mo|y)
  abbrev pub unit_re : Re
  unit_re = alt (seq (literal b'm') (literal b's')) (
      alt (literal b's') (
        alt (literal b'm') (
          alt (literal b'h') (
            alt (literal b'd')
              (alt (literal b'w') (alt (seq (literal b'm') (literal b'o')) (literal b'y')))))))

  -- `_DURATION_RE`
  abbrev pub duration_re : Re
  duration_re = seq (opt (literal b'-')) (seq (many is_digit) unit_re)

  abbrev two : Re
  two = seq (one is_digit) (one is_digit)

  -- -\d{2}, :\d{2}
  abbrev after : ℕ → Re
  after c = seq (literal c) two

  -- (?:Z|[+-]\d{2}:?\d{2})
  abbrev offset_re : Re
  offset_re =
      alt (literal b'Z')
        (seq (one (λ c. (c == b'+') || (c == b'-'))) (seq two (seq (opt (literal b':')) two)))

  -- (?:[T ]\d{2}:\d{2}(?::\d{2})?(?:\.\d+)?(...)?)
  abbrev time_re : Re
  time_re = seq (one (λ c. (c == b'T') || (c == b' '))) (
      seq two (
        seq (after b':') (
          seq (opt (after b':')) (seq (opt (seq (literal b'.') (many is_digit))) (opt offset_re)))))

  -- `_ABSOLUTE_RE`
  abbrev pub absolute_re : Re
  absolute_re = seq two (seq two (seq (after b'-') (seq (after b'-') (opt time_re))))

  unfoldable pub validate_mesh_id : Text → Option Text
  validate_mesh_id value = canonical_uuid value

  -- The text with a final Z as an offset of zero.
  abbrev pub normalized : Text → Text
  normalized [] = []
  normalized (c ∷ []) = if c == b'Z' then codes "+00:00" else c ∷ []
  normalized (c ∷ d ∷ s) = c ∷ normalized (d ∷ s)

  -- `_absolute_bound`
  unfoldable pub absolute_bound : Text → Option Text
  unfolding matches
  absolute_bound value =
      if matches absolute_re value then canonical_instant (normalized value) else none

  abbrev drop_space : Text → Text
  drop_space [] = []
  drop_space (c ∷ s) = let rest = drop_space s in if is_space c then rest else c ∷ s

  -- The text without the white space at its end.
  abbrev add_front : ℕ → Text → Text
  add_front c [] = if is_space c then [] else c ∷ []
  add_front c (d ∷ s) = c ∷ d ∷ s

  abbrev drop_space_end : Text → Text
  drop_space_end [] = []
  drop_space_end (c ∷ s) = add_front c (drop_space_end s)

  -- `value.strip()`
  unfoldable pub strip : Text → Text
  strip value = drop_space_end (drop_space value)

  unfoldable pub validate_range_bound : Text → Option Text
  unfolding strip absolute_bound matches
  validate_range_bound value =
      let v = strip value in
      if eq_text v (codes "now()") || matches duration_re v then some v else absolute_bound v

  unfoldable pub validate_duration : Text → Option Text
  unfolding matches
  validate_duration value = if matches duration_re value then some value else none

  -- The number at the start of a text, and the rest.
  unfoldable pub number_from : ℕ → Text → ℕ × Text
  number_from acc [] = (acc, [])
  number_from acc (c ∷ s) = elim (decimal c) [
    | none ↦ (acc, c ∷ s)
    | some d ↦ number_from (acc * 10 + d) s
  ]

  abbrev unsigned : Text → Text
  unsigned [] = []
  unsigned (c ∷ s) = if c == b'-' then s else c ∷ s

  -- The unit at the end: a final newline is not part of the group.
  abbrev pub is_unit : Text → Text → Bool
  is_unit unit rest = eq_text rest unit || eq_text rest (unit ++ 10 ∷ [])

  abbrev pub times_unit : ℕ → Text → ℕ
  times_unit n rest =
      if is_unit (codes "ms") rest
      then thousandth n
      else if is_unit (codes "s") rest
      then n
      else if is_unit (codes "m") rest
      then n * 60
      else if is_unit (codes "h") rest
      then n * 3600
      else if is_unit (codes "d") rest
      then n * 86400
      else if is_unit (codes "w") rest
      then n * 604800
      else if is_unit (codes "mo") rest
      then n * 2592000
      else n * 31536000

  unfoldable pub duration_seconds : Text → Option ℕ
  unfolding validate_duration number_from
  duration_seconds value = elim (validate_duration value) [
    | none ↦ none
    | some v ↦ let (n, rest) = number_from 0 (unsigned v) in some (times_unit n rest)
  ]
