-- ===== src/Quality/Alignment.antt =====
-- `align_series` of quality_worker/executor.py: independently sampled channels on the timestamps of the
-- first. A time is a number of seconds, and so is the interval; a series is a list in the order given.
pub mod Cursors
pub mod Nearest
use meshtastic_things.Prelude.{
  ℕ, ◌+◌, ◌-◌, ◌*◌, leb, String, Bool, true, false, Option, none, some, List, [], ◌∷◌, map,
  if◌then◌else◌,
}

abbrev pub dist : ℕ → ℕ → ℕ
dist a b = (a - b) + (b - a)

-- Whether a sample is within DEFAULT_ALIGNMENT_TOLERANCE, half of the interval.
abbrev pub in_range : ℕ → ℕ → ℕ → Bool
in_range interval t sampled = leb (2 * dist sampled t) interval

-- A row: the timestamp and the value of the base channel, and the values of the others.
pub record Row (V : Type 0) : Type 0 where
  pub time : ℕ
  pub base : V
  pub others : List (String × V)

module _ {V : Type 0} where
  -- The rest of the series from the cursor on, once it is as near to the timestamp as the next sample
  -- lets it be.
  unfoldable pub advance : ℕ → List (ℕ × V) → List (ℕ × V)
  advance t [] = []
  advance t (s ∷ []) = s ∷ []
  advance t (s ∷ next ∷ series) =
      let rest = advance t (next ∷ series) in
      if leb (dist next.0 t) (dist s.0 t) then rest else s ∷ next ∷ series

  abbrev pub with_value : String → V → Option (List (String × V)) → Option (List (String × V))
  with_value channel v none = none
  with_value channel v (some row) = some ((channel, v) ∷ row)

  -- A channel's part in a row: the sample at its moved cursor, before what the later channels add.
  abbrev pub place :
      ℕ
      → ℕ
      → String
      → Option (List (String × V)) × List (String × List (ℕ × V))
      → List (String × List (ℕ × V))
      → List (ℕ × V)
      → Option (List (String × V)) × List (String × List (ℕ × V))
  place interval t channel (row, moved) cursors [] = (none, (channel, []) ∷ cursors)
  place interval t channel (row, moved) cursors (s ∷ later) =
      if in_range interval t s.0
      then (with_value channel s.1 row, (channel, s ∷ later) ∷ moved)
      else (none, (channel, s ∷ later) ∷ cursors)

  -- One timestamp: the values of the channels, if all have a sample in range, and the cursors after
  -- it; after a channel that has none the other cursors stay.
  unfoldable pub match_channels :
      ℕ
      → ℕ
      → List (String × List (ℕ × V))
      → Option (List (String × V)) × List (String × List (ℕ × V))
  match_channels interval t [] = (some [], [])
  match_channels interval t ((channel, series) ∷ cursors) =
      let (row, moved) = match_channels interval t cursors in
      place interval t channel (row, moved) cursors (advance t series)

  unfoldable pub align_from : ℕ → List (ℕ × V) → List (String × List (ℕ × V)) → List (Row V)
  align_from interval [] cursors = []
  align_from interval ((t, v) ∷ base) cursors =
      let (row, moved) = match_channels interval t cursors in
      let rest = align_from interval base moved in
      elim row [ none ↦ rest | some others ↦ record { time = t; base = v; others = others } ∷ rest ]

  -- `align_series`: the one-channel case and the empty ones are those of `align_from`.
  unfoldable pub align_series : List (String × List (ℕ × V)) → ℕ → List (Row V)
  unfolding align_from
  align_series [] interval = []
  align_series ((base_channel, base) ∷ channels) interval = align_from interval base channels
