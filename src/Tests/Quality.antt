-- ===== src/Tests/Quality.antt =====
-- The theorems on derived series, completeness, detectors and channels, on small series.
use meshtastic_things.Prelude.{
  ℕ, ◌+◌, ◌≤◌, ◌==◌, String, true, ◌≡◌, ◌⊎◌, refl, ap, inl, inr, Option, none, some, List, [], ◌∷◌,
  arith, map, str_eq, eq_iff, false, if◌then◌else◌,
}
use meshtastic_things.Prelude.Members.{In}
use meshtastic_things.Quality.Alignment.{Row, align_series, align_from, match_channels, advance}
use meshtastic_things.Quality.Alignment.Nearest.{Aligned, align_series-nearest}
use meshtastic_things.Quality.Steps.{
  Step, Algorithm, Sampled, run_steps, run_in_order, run_step, run_rows, run_row, write_outputs,
}
use meshtastic_things.Quality.Steps.Declared.{Timeless, Declares, run_steps-Declared}
use meshtastic_things.Quality.Completeness.{analyse_completeness, gaps, analyse_completeness-bounds}
use meshtastic_things.Quality.Detectors.{
  stuck_value_triggered, EndsEqual, stuck_value_triggered-EndsEqual,
}

abbrev base : List (ℕ × ℕ)
base = (100, 1) ∷ (160, 2) ∷ []

-- The second channel is sampled at other times; its value 8 is nearest to 160.
abbrev others : List (String × List (ℕ × ℕ))
others = ("temperature", (95, 7) ∷ (150, 8) ∷ (300, 9) ∷ []) ∷ []

abbrev row : Row ℕ
row = record { time = 160; base = 2; others = ("temperature", 8) ∷ [] }

second_row : In row (align_series (("adc", base) ∷ others) 60)
unfolding align_series align_from match_channels advance
second_row = inr (inl refl)

align_series-nearest_example : In (160, 2) base × Aligned 60 160 others (("temperature", 8) ∷ [])
align_series-nearest_example =
    align_series-nearest "adc" base others 60 row (omega arith) (omega arith) second_row

-- An algorithm that doubles its input.
abbrev double : List (String × ℕ) → ℕ → Option (List (String × ℕ))
double ((arg, v) ∷ []) params = some (("doubled", v + v) ∷ [])
double _ params = none

abbrev algorithms : String → Option (Algorithm ℕ ℕ)
algorithms name =
    if str_eq name "double"
    then some (record { is_pointwise = true; call = double; unit_for = λ output units. none })
    else none

abbrev step : Step ℕ
step = record {
  order = 1;
  function_name = "double";
  inputs = ("value", "adc") ∷ [];
  params = 0;
  outputs = ("doubled", "derived.twice") ∷ [];
}

abbrev rows : List (Sampled ℕ)
rows = record { time = 100; values = λ channel. if str_eq channel "adc" then some 4 else none } ∷ []

derived_value : In ("derived.twice", 100, 8) (run_steps algorithms (step ∷ []) rows)
unfolding run_steps run_in_order run_step run_rows run_row write_outputs
derived_value = inl refl

no_time : (s : Step ℕ) → In s (step ∷ []) → Timeless s
no_time s (inl e) (output, i) =
    let j : In (output, "time") step.outputs = rw e at i in
    elim j [
      | inl same ↦
          let e : "time" ≡ "derived.twice" = ap (λ (x : String × String). x.1) same in
          let differs : str_eq "time" "derived.twice" ≡ false = refl in
          cc ((eq_iff _ _).1 e, differs)
      | inr k ↦ absurd k
    ]
no_time s (inr i) d = absurd i

run_steps-Declared_example :
    (s : Step ℕ) × In s (step ∷ [])
    × Declares s "derived.twice"
    × In 100 (map (λ (r : Sampled ℕ). r.time) rows)
run_steps-Declared_example =
    run_steps-Declared algorithms (step ∷ []) rows "derived.twice" 100 8 no_time derived_value

analyse_completeness-bounds_example :
    let c = analyse_completeness base 3600 60 in
    (1 ≤ c.expected)
    × (c.ratio.0 ≤ c.ratio.1)
    × (c.expected ≤ c.observed → c.ratio.0 ≡ c.ratio.1)
    × ((g : ℕ) → In g (gaps base) → g ≤ c.largest_gap_seconds)
    × ((c.largest_gap_seconds ≡ 0) ⊎ In c.largest_gap_seconds (gaps base))
analyse_completeness-bounds_example = analyse_completeness-bounds base 3600 60

stuck : stuck_value_triggered ◌==◌ 3 (5 ∷ 7 ∷ 7 ∷ 7 ∷ []) ≡ true
unfolding stuck_value_triggered
stuck = refl

stuck_value_triggered-EndsEqual_example :
    (stuck_value_triggered ◌==◌ 3 (5 ∷ 7 ∷ 7 ∷ 7 ∷ []) ≡ true
      → EndsEqual ◌==◌ 3 (5 ∷ 7 ∷ 7 ∷ 7 ∷ []))
    × (EndsEqual ◌==◌ 3 (5 ∷ 7 ∷ 7 ∷ 7 ∷ [])
        → stuck_value_triggered ◌==◌ 3 (5 ∷ 7 ∷ 7 ∷ 7 ∷ []) ≡ true)
stuck_value_triggered-EndsEqual_example =
    stuck_value_triggered-EndsEqual ◌==◌ 2 (5 ∷ 7 ∷ 7 ∷ 7 ∷ [])
