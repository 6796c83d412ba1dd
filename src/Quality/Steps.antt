-- ===== src/Quality/Steps.antt =====
-- `run_steps` and `resolve_output_units` of quality_worker/executor.py. The algorithms of
-- common/algorithms are outside of the repository: `Algorithms` has what the executor uses of them.
pub mod Declared
use meshtastic_things.Prelude.{
  ℕ, leb, String, Bool, true, false, Option, none, some, List, [], ◌∷◌, ◌++◌, str_eq, or_default,
  if◌then◌else◌,
}
use meshtastic_things.Dict.{Dict, put}

-- A step: the inputs are (argument, channel) pairs, the outputs (output, channel) pairs.
pub record Step (P : Type 0) : Type 0 where
  pub order : ℕ
  pub function_name : String
  pub inputs : List (String × String)
  pub params : P
  pub outputs : List (String × String)

-- A registered algorithm. `call` is `none` where it raises.
pub record Algorithm (V P : Type 0) : Type 0 where
  pub is_pointwise : Bool
  pub call : List (String × V) → P → Option (List (String × V))
  pub unit_for : String → List (String × Option String) → Option String

-- A row: a dictionary that `align_series` builds with a "time", and which is never without one. Its
-- values are what Python puts there: readings, results and times.
pub record Sampled (V : Type 0) : Type 0 where
  pub time : V
  pub values : Dict V

-- `sorted(steps, key=order)`, which is stable.
abbrev insert_step : {P : Type 0} → Step P → List (Step P) → List (Step P)
insert_step s [] = s ∷ []
insert_step s (t ∷ steps) =
    let rest = insert_step s steps in if leb s.order t.order then s ∷ t ∷ steps else t ∷ rest

abbrev pub sorted_steps : {P : Type 0} → List (Step P) → List (Step P)
sorted_steps [] = []
sorted_steps (s ∷ steps) = insert_step s (sorted_steps steps)

module _ {V : Type 0} where
  abbrev pub value_of : String → List (String × V) → Option V
  value_of name [] = none
  value_of name ((n, v) ∷ result) = if str_eq n name then some v else value_of name result

  -- `row[channel]`, and `row[channel] = v`: a channel may be called "time".
  abbrev pub read_cell : String → Sampled V → Option V
  read_cell channel row = if str_eq channel "time" then some row.time else row.values channel

  abbrev pub write_cell : String → V → Sampled V → Sampled V
  write_cell channel v row =
      if str_eq channel "time"
      then record row { time = v }
      else record row { values = put channel v row.values }

  abbrev with_input : String → Option V → Option (List (String × V)) → Option (List (String × V))
  with_input arg (some v) (some inputs) = some ((arg, v) ∷ inputs)
  with_input arg _ _ = none

  -- The inputs of a step, or the KeyError of a channel that the row has not.
  abbrev pub bound_inputs : List (String × String) → Sampled V → Option (List (String × V))
  bound_inputs [] row = some []
  bound_inputs ((arg, channel) ∷ bindings) row =
      with_input arg (read_cell channel row) (bound_inputs bindings row)

  abbrev cons_entry :
      String × V × V → Sampled V × List (String × V × V) → Sampled V × List (String × V × V)
  cons_entry entry (row, entries) = (row, entry ∷ entries)

  -- The loop over the outputs of a step: each value is put into the row, and then appended to the
  -- channel's series with the time that the row has by now. An output that the result has not is
  -- skipped. An entry is the channel, the time and the value, in the order of appending.
  unfoldable pub write_outputs :
      List (String × String) → List (String × V) → Sampled V → Sampled V × List (String × V × V)
  write_outputs [] result row = (row, [])
  write_outputs ((output, channel) ∷ bindings) result row = elim (value_of output result) [
    | none ↦ write_outputs bindings result row
    | some v ↦
        let row' = write_cell channel v row in
        cons_entry (channel, row'.time, v) (write_outputs bindings result row')
  ]

module _ {V P : Type 0} (get_algorithm : String → Option (Algorithm V P)) where
  -- A step on one row: a missing input or a raising algorithm leaves the row as it is.
  unfoldable pub run_row : Algorithm V P → Step P → Sampled V → Sampled V × List (String × V × V)
  unfolding write_outputs
  run_row spec step row = elim (bound_inputs step.inputs row) [
    | none ↦ (row, [])
    | some inputs ↦ elim (spec.call inputs step.params) [
      | none ↦ (row, [])
      | some result ↦ write_outputs step.outputs result row
    ]
  ]

  unfoldable pub run_rows :
      Algorithm V P → Step P → List (Sampled V) → List (Sampled V) × List (String × V × V)
  unfolding run_row
  run_rows spec step [] = ([], [])
  run_rows spec step (row ∷ rows) =
      let (row', out) = run_row spec step row in
      let (rows', outs) = run_rows spec step rows in (row' ∷ rows', out ++ outs)

  -- An unknown algorithm, and one that is not pointwise, is skipped.
  unfoldable pub run_step : Step P → List (Sampled V) → List (Sampled V) × List (String × V × V)
  unfolding run_rows
  run_step step rows = elim (get_algorithm step.function_name) [
    | none ↦ (rows, [])
    | some spec ↦ if spec.is_pointwise then run_rows spec step rows else (rows, [])
  ]

  unfoldable pub run_in_order :
      List (Step P) → List (Sampled V) → List (Sampled V) × List (String × V × V)
  unfolding run_step
  run_in_order [] rows = (rows, [])
  run_in_order (step ∷ steps) rows =
      let (rows', out) = run_step step rows in
      let (rows'', outs) = run_in_order steps rows' in (rows'', out ++ outs)

  -- The series of the outputs, in the order in which the steps appended to them.
  unfoldable pub run_steps : List (Step P) → List (Sampled V) → List (String × V × V)
  unfolding run_in_order
  run_steps steps rows = (run_in_order (sorted_steps steps) rows).1

  abbrev input_units : List (String × String) → Dict (Option String) → List (String × Option String)
  input_units [] known = []
  input_units ((arg, channel) ∷ bindings) known =
      (arg, or_default (known channel) none) ∷ input_units bindings known

  abbrev know : String → Option String → Dict (Option String) → Dict (Option String)
  know channel none known = known
  know channel (some unit) known = if str_eq unit "" then known else put channel (some unit) known

  -- The inner loop of `resolve_output_units`, over the outputs of a step.
  abbrev resolve_outputs :
      Algorithm V P
      → List (String × Option String)
      → List (String × String)
      → Dict (Option String) × Dict (Option String)
      → Dict (Option String) × Dict (Option String)
  resolve_outputs spec inputs [] (known, resolved) = (known, resolved)
  resolve_outputs spec inputs ((output, channel) ∷ bindings) (known, resolved) =
      let unit = spec.unit_for output inputs in
      resolve_outputs spec inputs bindings (know channel unit known, put channel unit resolved)

  unfoldable pub resolve_in_order :
      List (Step P)
      → Dict (Option String) × Dict (Option String)
      → Dict (Option String) × Dict (Option String)
  resolve_in_order [] units = units
  resolve_in_order (step ∷ steps) (known, resolved) = elim (get_algorithm step.function_name) [
    | none ↦ resolve_in_order steps (known, resolved)
    | some spec ↦
        resolve_in_order steps
          (resolve_outputs spec (input_units step.inputs known) step.outputs (known, resolved))
  ]

  -- The units of the derived channels, from those of the channels that are known.
  unfoldable pub resolve_output_units : List (Step P) → Dict (Option String) → Dict (Option String)
  unfolding resolve_in_order
  resolve_output_units steps channel_units =
      (resolve_in_order (sorted_steps steps) (channel_units, λ k. none)).1
