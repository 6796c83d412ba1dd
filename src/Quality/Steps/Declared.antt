-- ===== src/Quality/Steps/Declared.antt =====
-- What the steps of a blueprint write: declared channels, at the times of the rows.
use meshtastic_things.Prelude.{
  String, ◌≡◌, refl, sym, ap, ◌∙◌, inl, inr, Option, none, some, List, [], ◌∷◌, map, Bool-cases,
  Option-cases, str_eq, eq_iff, leb, if◌then◌else◌,
}
use meshtastic_things.Prelude.Members.{In, In-append}
use meshtastic_things.Quality.Steps.{
  Step, Algorithm, Sampled, sorted_steps, insert_step, value_of, bound_inputs, write_cell,
  write_outputs, run_row, run_rows, run_step, run_in_order, run_steps,
}

-- The step declares the channel as one of its outputs.
abbrev pub Declares : {P : Type 0} → Step P → String → Type 0
Declares step channel = (output : String) × In (output, channel) step.outputs

-- No output of the step is called "time".
abbrev pub Timeless : {P : Type 0} → Step P → Type 0
Timeless step = Declares step "time" → ⊥

module _ {V : Type 0} where
  -- What a row's outputs come to: the row has its time, and each entry has it, on a declared channel.
  record IsWritten (bindings : List (String × String)) (row : Sampled V)
      (end : Sampled V × List (String × V × V)) : Type 0 where
    kept : end.0.time ≡ row.time
    at :
        (channel : String) (time v : V)
        → In (channel, time, v) end.1
        → ((output : String) × In (output, channel) bindings) × (time ≡ row.time)

  nothing-IsWritten :
      (bindings : List (String × String)) (row : Sampled V) → IsWritten bindings row (row, [])
  nothing-IsWritten bindings row = record { kept = refl; at = λ channel time v i. absurd i }

  skip-IsWritten :
      (binding : String × String) (bindings : List (String × String)) (row : Sampled V)
      (end : Sampled V × List (String × V × V))
      → IsWritten bindings row end
      → IsWritten (binding ∷ bindings) row end
  skip-IsWritten binding bindings row end w = record {
    kept = w.kept;
    at = λ channel time v i. let ((output, j), e) = w.at channel time v i in ((output, inr j), e);
  }

  cons-IsWritten :
      (output channel : String) (bindings : List (String × String)) (row row' : Sampled V) (v : V)
      (end : Sampled V × List (String × V × V))
      → row'.time ≡ row.time
      → IsWritten bindings row' end
      → IsWritten ((output, channel) ∷ bindings) row (end.0, (channel, row'.time, v) ∷ end.1)
  cons-IsWritten output channel bindings row row' v end same w = record {
    kept = w.kept ∙ same;
    at = λ c time x i. elim i [
      | inl e ↦ (
        (output, inl (ap (λ (y : String × V × V). (output, y.0)) e)),
        ap (λ (y : String × V × V). y.1) e ∙ same,
      )
      | inr j ↦ let ((name, k), e) = w.at c time x j in ((name, inr k), e ∙ same)
    ];
  }

  write_outputs-IsWritten :
      (bindings : List (String × String)) (result : List (String × V)) (row : Sampled V)
      → ((output : String) → In (output, "time") bindings → ⊥)
      → IsWritten bindings row (write_outputs bindings result row)
  unfolding write_outputs
  write_outputs-IsWritten [] result row timeless = nothing-IsWritten [] row
  write_outputs-IsWritten ((output, channel) ∷ bindings) result row timeless =
      elim (Option-cases (value_of output result)) [
        | inl missing ↦
            rw (missing, write_outputs)
              (skip-IsWritten (output, channel) bindings row _
                (write_outputs-IsWritten bindings result row (λ o i. timeless o (inr i))))
        | inr (v, found) ↦
            rw (found, write_outputs)
              (cons-IsWritten output channel bindings row (write_cell channel v row) v _ (same v) (
                write_outputs-IsWritten bindings result (write_cell channel v row)
                  (λ o i. timeless o (inr i))))
      ]
    where
      same : (v : V) → (write_cell channel v row).time ≡ row.time
      same v = elim (Bool-cases (str_eq channel "time")) [
        | inl clash ↦
            let e : channel ≡ "time" = (eq_iff channel "time").0 clash in
            absurd (timeless output (inl (ap (λ (c : String). (output, c)) (sym e))))
        | inr other ↦ rw other refl
      ]

module _ {V P : Type 0} (get_algorithm : String → Option (Algorithm V P)) where
  -- An entry that a step may write on rows at the given times.
  abbrev Written : Step P → List V → String × V × V → Type 0
  Written step times (channel, time, v) = Declares step channel × In time times

  abbrev times_of : List (Sampled V) → List V
  times_of rows = map (λ (r : Sampled V). r.time) rows

  run_row-IsWritten :
      (spec : Algorithm V P) (step : Step P) (row : Sampled V)
      → Timeless step
      → IsWritten step.outputs row (run_row get_algorithm spec step row)
  unfolding run_row
  run_row-IsWritten spec step row timeless = elim (Option-cases (bound_inputs step.inputs row)) [
    | inl missing ↦ rw (missing, run_row) (nothing-IsWritten step.outputs row)
    | inr (inputs, bound) ↦ elim (Option-cases (spec.call inputs step.params)) [
      | inl raised ↦ rw (bound, raised, run_row) (nothing-IsWritten step.outputs row)
      | inr (result, called) ↦
          rw (bound, called, run_row)
            (write_outputs-IsWritten step.outputs result row (λ output i. timeless (output, i)))
    ]
  ]

  run_rows-Written :
      (spec : Algorithm V P) (step : Step P) (rows : List (Sampled V)) (channel : String)
      (time v : V)
      → Timeless step
      → (times_of (run_rows get_algorithm spec step rows).0 ≡ times_of rows)
        × (In (channel, time, v) (run_rows get_algorithm spec step rows).1
            → Written step (times_of rows) (channel, time, v))
  unfolding run_rows
  run_rows-Written spec step [] channel time v timeless = (refl, λ i. absurd i)
  run_rows-Written spec step (row ∷ rows) channel time v timeless =
      let first = run_row-IsWritten spec step row timeless in
      let (kept_rest, there) = run_rows-Written spec step rows channel time v timeless in
      (
        rw (first.kept, kept_rest) refl,
        λ i.
            elim (In-append (channel, time, v) (run_row get_algorithm spec step row).1
              (run_rows get_algorithm spec step rows).1 i) [
                | inl j ↦ let (d, e) = first.at channel time v j in (d, inl e)
                | inr j ↦ let (d, e) = there j in (d, inr e)
              ],
      )

  run_step-Written :
      (step : Step P) (rows : List (Sampled V)) (channel : String) (time v : V)
      → Timeless step
      → (times_of (run_step get_algorithm step rows).0 ≡ times_of rows)
        × (In (channel, time, v) (run_step get_algorithm step rows).1
            → Written step (times_of rows) (channel, time, v))
  unfolding run_step
  run_step-Written step rows channel time v timeless = go (get_algorithm step.function_name)
    where
      go :
          (o : Option (Algorithm V P))
          → (let end : List (Sampled V) × List (String × V × V) = elim o [
            | none ↦ (rows, [])
            | some spec ↦
                if spec.is_pointwise then run_rows get_algorithm spec step rows else (rows, [])
          ] in
              (times_of end.0 ≡ times_of rows)
              × (In (channel, time, v) end.1 → Written step (times_of rows) (channel, time, v)))
      go none = (refl, λ i. absurd i)
      go (some spec) = elim (Bool-cases spec.is_pointwise) [
        | inl pointwise ↦ simp pointwise (run_rows-Written spec step rows channel time v timeless)
        | inr windowed ↦ simp windowed (refl, λ i. absurd i)
      ]

  run_in_order-Written :
      (steps : List (Step P)) (rows : List (Sampled V)) (channel : String) (time v : V)
      → ((step : Step P) → In step steps → Timeless step)
      → In (channel, time, v) (run_in_order get_algorithm steps rows).1
      → (step : Step P) × In step steps × Declares step channel × In time (times_of rows)
  unfolding run_in_order
  run_in_order-Written [] rows channel time v timeless i = absurd i
  run_in_order-Written (step ∷ steps) rows channel time v timeless i =
      let (kept, here) = run_step-Written step rows channel time v (timeless step (inl refl)) in
      elim (In-append (channel, time, v) (run_step get_algorithm step rows).1
        (run_in_order get_algorithm steps (run_step get_algorithm step rows).0).1 i) [
          | inl j ↦ let (d, e) = here j in (step, inl refl, d, e)
          | inr j ↦
              let (s, k, d, e) =
                run_in_order-Written steps (run_step get_algorithm step rows).0 channel time v
                  (λ t l. timeless t (inr l)) j in
              (s, inr k, d, rw kept at e)
        ]

insert_step-In :
    {P : Type 0} (s t : Step P) (steps : List (Step P))
    → In t (insert_step s steps)
    → In t (s ∷ steps)
insert_step-In s t [] i = i
insert_step-In s t (u ∷ steps) i = elim (Bool-cases (leb s.order u.order)) [
  | inl first ↦ rw first at i
  | inr later ↦
      let j : In t (u ∷ insert_step s steps) = rw later at i in
      elim j [
        | inl e ↦ inr (inl e)
        | inr k ↦ elim (insert_step-In s t steps k) [ inl e ↦ inl e | inr l ↦ inr (inr l) ]
      ]
]

sorted_steps-In :
    {P : Type 0} (t : Step P) (steps : List (Step P)) → In t (sorted_steps steps) → In t steps
sorted_steps-In t [] i = i
sorted_steps-In t (s ∷ steps) i = elim (insert_step-In s t (sorted_steps steps) i) [
  | inl e ↦ inl e
  | inr j ↦ inr (sorted_steps-In t steps j)
]

-- Where no step of a blueprint has an output channel called "time": every value that the blueprint
-- derives is at the time of a row, on a channel that one of its steps declares as an output, whatever
-- the algorithms compute and on whichever rows they raise.
pub run_steps-Declared :
    {V P : Type 0} (get_algorithm : String → Option (Algorithm V P)) (steps : List (Step P))
    (rows : List (Sampled V)) (channel : String) (time v : V)
    → ((step : Step P) → In step steps → Timeless step)
    → In (channel, time, v) (run_steps get_algorithm steps rows)
    → (step : Step P) × In step steps
      × Declares step channel
      × In time (map (λ (r : Sampled V). r.time) rows)
unfolding run_steps
run_steps-Declared get_algorithm steps rows channel time v timeless i =
    let (step, j, d, e) =
      run_in_order-Written get_algorithm (sorted_steps steps) rows channel time v
        (λ t k. timeless t (sorted_steps-In t steps k)) i in
    (step, sorted_steps-In step steps j, d, e)
