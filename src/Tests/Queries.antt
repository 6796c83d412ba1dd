-- ===== src/Tests/Queries.antt =====
-- The theorems on queries and durations, for a Platform of ASCII alone.
use meshtastic_things.Prelude.{
  ℕ, ◌-◌, ◌/◌, leb, ◌&&◌, Bool, true, false, ◌≡◌, refl, Option, none, some, [], ◌∷◌, ◌++◌, show,
  arith, if◌then◌else◌, ◌==◌,
}
use mathlib.Core.List.{flat_map}
use meshtastic_things.Regex.{Text, codes, matches, rests, many_rests, one_rests}
use meshtastic_things.Regex.Classes.{count}
use meshtastic_things.Query.{
  Platform, eq_text, is_ident, validate_ident, validate_mesh_id, validate_range_bound,
  validate_duration, validate_agg, strip, absolute_bound, duration_seconds,
}
use meshtastic_things.Query.Flux.{timeseries, timeseries_text}
use meshtastic_things.Query.Safety.{IsForeign}
use meshtastic_things.Query.Templates.{timeseries-count, blank_field, blank_window}
use meshtastic_things.Query.Durations.{
  IsUnicode, TimeUnit, second, minute, hour, day, week, month, year, symbol, duration_seconds-show,
}

abbrev ascii_digit : ℕ → Option ℕ
ascii_digit c = if leb b'0' c && leb c b'9' then some (c - b'0') else none

-- One mesh, and no timestamps.
abbrev mesh_text : Text
mesh_text = codes "9b2e4c1a-0000-4000-8000-000000000001"

abbrev pub py : Platform
py = record {
  decimal = ascii_digit;
  is_space = λ c. c == b' ';
  canonical_uuid = λ s. if eq_text s mesh_text then some mesh_text else none;
  canonical_instant = λ s. none;
  thousandth = λ n. n / 1000;
}

quote_is_foreign : IsForeign py b'"'
unfolding is_ident
quote_is_foreign = record {
  ident = refl;
  line_end = refl;
  now = refl;
  decimal = refl;
  uuid = λ s t e. known s t (eq_text s mesh_text) e;
  instant = λ s t e. cc;
}
  where
    known :
        (s t : Text) (b : Bool) → (if b then some mesh_text else none) ≡ some t → count b'"' t ≡ 0
    known s t true e = let same : mesh_text ≡ t = ground arith in rw (← same) refl
    known s t false e = cc

-- A field by which a caller would end the filter.
refused :
    timeseries py
      (codes "mesh")
      mesh_text
      255
      (codes "environment_metrics")
      (some (codes "temperature\" or true"))
      (codes "-1h")
      (codes "now()")
      (some (codes "5m"))
      (codes "mean")
    ≡ none
unfolding timeseries validate_mesh_id validate_ident matches rests many_rests one_rests is_ident
    flat_map
refused = refl

abbrev flux : Text
flux =
    timeseries_text py (codes "mesh") mesh_text 255 (codes "environment_metrics")
      (some (codes "temperature")) (codes "-1h") (codes "now()") (some (codes "5m")) (codes "mean")

accepted :
    timeseries py
      (codes "mesh")
      mesh_text
      255
      (codes "environment_metrics")
      (some (codes "temperature"))
      (codes "-1h")
      (codes "now()")
      (some (codes "5m"))
      (codes "mean")
    ≡ some flux
unfolding timeseries validate_mesh_id validate_ident validate_range_bound validate_duration
    validate_agg matches rests many_rests one_rests is_ident flat_map strip absolute_bound
accepted = refl

timeseries-count_example :
    count b'"' flux
    ≡ count b'"' (
        timeseries_text py
          (codes "mesh")
          []
          0
          []
          (blank_field py b'"' quote_is_foreign (some (codes "temperature")))
          []
          []
          (blank_window py b'"' quote_is_foreign (some (codes "5m")))
          [])
timeseries-count_example =
    timeseries-count py b'"' quote_is_foreign (codes "mesh") mesh_text 255
      (codes "environment_metrics") (some (codes "temperature")) (codes "-1h") (codes "now()")
      (some (codes "5m")) (codes "mean") flux accepted

-- `$` lets a newline pass at the end of a name.
with_newline : validate_ident (codes "temperature\n") ≡ some (codes "temperature\n")
unfolding validate_ident matches rests many_rests is_ident
with_newline = refl

pub ascii-IsUnicode : IsUnicode py
ascii-IsUnicode = record { digit = λ d h. ground arith; letter = first }
  where
    first : (u : TimeUnit) (c : ℕ) (s : Text) → symbol u ≡ c ∷ s → ascii_digit c ≡ none
    first second c s e = let h : b's' ≡ c = ground arith in rw (← h) refl
    first minute c s e = let h : b'm' ≡ c = ground arith in rw (← h) refl
    first hour c s e = let h : b'h' ≡ c = ground arith in rw (← h) refl
    first day c s e = let h : b'd' ≡ c = ground arith in rw (← h) refl
    first week c s e = let h : b'w' ≡ c = ground arith in rw (← h) refl
    first month c s e = let h : b'm' ≡ c = ground arith in rw (← h) refl
    first year c s e = let h : b'y' ≡ c = ground arith in rw (← h) refl

duration_seconds-show_example :
    duration_seconds py (b'-' ∷ (codes (show 7) ++ codes "d")) ≡ some 604800
duration_seconds-show_example = duration_seconds-show py ascii-IsUnicode 7 day
