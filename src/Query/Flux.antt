-- ===== src/Query/Flux.antt =====
-- queryapi/telemetry/influx_client.py: the queries that the client writes. `none` is a ValueError,
-- raised before anything is sent. The sorting of what comes back is left out.
use meshtastic_things.Prelude.{ℕ, Option, none, some, List, [], ◌∷◌, ◌++◌, show, ◌>>=◌}
use meshtastic_things.Regex.{Text, codes}
use meshtastic_things.Query.{
  Platform, validate_ident, validate_mesh_id, validate_range_bound, validate_duration, validate_agg,
}

-- An f-string, in its parts.
abbrev pub joined : List Text → Text
joined [] = []
joined (s ∷ parts) = s ++ joined parts

-- The parts of several pieces.
abbrev pub parts : List (List Text) → List Text
parts [] = []
parts (p ∷ pieces) = p ++ parts pieces

abbrev pub newline : Text
newline = 10 ∷ []

abbrev pub quoted : Text → List Text
quoted s = (b'"' ∷ []) ∷ s ∷ (b'"' ∷ []) ∷ []

abbrev pub from_bucket : Text → List Text
from_bucket bucket = newline ∷ codes "from(bucket: " ∷ (quoted bucket ++ codes ")" ∷ newline ∷ [])

abbrev pub device_filter : Text → ℕ → List Text
device_filter mesh_id node_id =
    codes "r.mesh_id == "
    ∷ (quoted mesh_id ++ codes " and r.node_id == " ∷ quoted (codes (show node_id)))

abbrev pub measurement_filter : Text → Text → ℕ → List Text
measurement_filter measurement mesh_id node_id =
    codes "r._measurement == "
    ∷ (quoted measurement ++ codes " and " ∷ device_filter mesh_id node_id)

abbrev pub range_from : Text → List Text
range_from start = codes "  |> range(start: " ∷ start ∷ codes ")" ∷ newline ∷ []

abbrev pub range_between : Text → Text → List Text
range_between start stop =
    codes "  |> range(start: " ∷ start ∷ codes ", stop: " ∷ stop ∷ codes ")" ∷ newline ∷ []

abbrev pub filtered : List Text → List Text
filtered condition = codes "  |> filter(fn: (r) => " ∷ (condition ++ codes ")" ∷ newline ∷ [])

abbrev pub line : Text → List Text
line s = s ∷ newline ∷ []

module _ (py : Platform) (bucket : Text) where
  -- The query of `latest`.
  unfoldable pub latest : Text → ℕ → Text → Text → Option Text
  latest mesh_id node_id measurement lookback = do
    mesh ← validate_mesh_id py mesh_id
    m ← validate_ident measurement
    start ← validate_range_bound py lookback
    some (
        joined (
          from_bucket bucket
          ++ range_from start
          ++ filtered (measurement_filter m mesh node_id)
          ++ line (codes "  |> last()")))

  -- The query of `latest_all`.
  unfoldable pub latest_all : Text → ℕ → Text → Option Text
  latest_all mesh_id node_id lookback = do
    mesh ← validate_mesh_id py mesh_id
    start ← validate_range_bound py lookback
    some (
        joined (
          from_bucket bucket
          ++ range_from start
          ++ filtered (device_filter mesh node_id)
          ++ line (codes "  |> group(columns: [\"_measurement\", \"_field\"])")
          ++ line (codes "  |> last()")))

  -- The two queries of `device_metrics`.
  unfoldable pub device_metrics : Text → ℕ → Text → Text → Option (Text × Text)
  device_metrics mesh_id node_id start stop = do
    mesh ← validate_mesh_id py mesh_id
    from ← validate_range_bound py start
    to ← validate_range_bound py stop
    let source = from_bucket bucket ++ range_between from to
    some (
      joined (
          source
          ++ filtered (measurement_filter (codes "quality") mesh node_id)
          ++ line (codes "  |> group(columns: [\"channel\", \"_field\"])")
          ++ line (codes "  |> last()")),
      joined (
          source
          ++ filtered (measurement_filter (codes "alarms") mesh node_id)
          ++ line (codes "  |> group(columns: [\"detector\"])")
          ++ line (codes "  |> count()")),
    )

  abbrev pub validate_field : Option Text → Option (Option Text)
  validate_field none = some none
  validate_field (some field) = elim (validate_ident field) [ none ↦ none | some f ↦ some (some f) ]

  -- `if field:` and `if window:`, after their validation: an empty text is as none.
  abbrev pub field_filter : Option Text → List Text
  field_filter none = []
  field_filter (some []) = []
  field_filter (some (c ∷ s)) = codes " and r._field == " ∷ quoted (c ∷ s)

  abbrev pub validate_window : Option Text → Option (Option Text)
  validate_window none = some none
  validate_window (some []) = some none
  validate_window (some (c ∷ s)) = elim (validate_duration py (c ∷ s)) [
    | none ↦ none
    | some w ↦ some (some w)
  ]

  abbrev pub imports : Option Text → List Text
  imports none = []
  imports (some w) = line (codes "import \"types\"")

  abbrev pub numeric_only : Option Text → List Text
  numeric_only none = []
  numeric_only (some w) =
      codes "|> filter(fn: (r) => types.isType(v: r._value, type: \"float\") "
      ∷ codes "or types.isType(v: r._value, type: \"int\"))"
      ∷ []

  abbrev pub agg_stage : Option Text → Text → List Text
  agg_stage none agg = []
  agg_stage (some w) agg =
      codes "|> aggregateWindow(every: "
      ∷ w
      ∷ codes ", fn: "
      ∷ agg
      ∷ codes ", createEmpty: false)"
      ∷ []

  -- The text of the query of `timeseries`, from the validated values.
  abbrev pub timeseries_text :
      Text → ℕ → Text → Option Text → Text → Text → Option Text → Text → Text
  timeseries_text mesh_id node_id measurement field start stop window agg = joined (
      parts (
        imports window
        ∷ from_bucket bucket
        ∷ range_between start stop
        ∷ filtered
            (parts (measurement_filter measurement mesh_id node_id ∷ field_filter field ∷ []))
        ∷ (codes "  " ∷ [])
        ∷ numeric_only window
        ∷ (newline ∷ codes "  " ∷ [])
        ∷ agg_stage window agg
        ∷ (newline ∷ codes "  |> sort(columns: [\"_time\"])" ∷ newline ∷ [])
        ∷ []))

  -- The query of `timeseries`.
  unfoldable pub timeseries :
      Text → ℕ → Text → Option Text → Text → Text → Option Text → Text → Option Text
  timeseries mesh_id node_id measurement field start stop window agg = do
    mesh ← validate_mesh_id py mesh_id
    m ← validate_ident measurement
    f ← validate_field field
    from ← validate_range_bound py start
    to ← validate_range_bound py stop
    fn ← validate_agg agg
    w ← validate_window window
    some (timeseries_text mesh node_id m f from to w fn)
