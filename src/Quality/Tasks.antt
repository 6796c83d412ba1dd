-- ===== src/Quality/Tasks.antt =====
-- quality_worker/tasks.py, the check of a device's completeness, and the alarms of quality_worker/alarms.py.
-- The answers of keyapi and the stored series are inputs; what is written to InfluxDB and sent to
-- Kafka is one log of effects, of which any may fail. The text and the time of an alarm are left out.

pub mod Faults
pub mod Warranted
use meshtastic_things.Prelude.{
  ℕ, zero, suc, ◌*◌, ltb, String, Bool, true, false, not, Option, none, some, List, [], ◌∷◌, ◌++◌,
  map, str_eq, or_default, if◌then◌else◌,
}
use meshtastic_things.Dict.{Dict}
use meshtastic_things.Kafka.{Delivery, Producer, send_all}
use meshtastic_things.Regex.{Text}
use meshtastic_things.Query.{Platform, duration_seconds}
use meshtastic_things.Channels.{origin_measured, quality}
use meshtastic_things.Quality.Completeness.{Completeness, analyse_completeness}

-- COMPLETENESS_THRESHOLD and GAP_INTERVALS_THRESHOLD, as fractions.
pub record Thresholds : Type 0 where
  pub completeness : ℕ × ℕ
  pub gap_intervals : ℕ × ℕ

pub record Device : Type 0 where
  pub mesh_id : String
  pub device_id : ℕ
  pub reading_interval_seconds : Option ℕ

-- An entry of GET /devices/{id}/measurements.
pub record MeasurementRow : Type 0 where
  pub origin : String
  pub channel : String
  pub payload_kind : String

pub record Alarm : Type 0 where
  pub mesh_id : String
  pub device_id : ℕ
  pub channel : String
  pub detector : String
  pub source : String
  pub value : ℕ × ℕ

pub data Effect : Type 0 where
  metric : String → Completeness → Effect
  alarm : Alarm → Effect
  discovery : String → ℕ → String → List String → Effect

pub data Status : Type 0 where
  device_not_found no_mesh_id : Status
  ok : List (String × Completeness) → Status

-- QUALITY_FIELDS
abbrev pub quality_fields : List String
quality_fields = "completeness_ratio" ∷ "observed" ∷ "expected" ∷ "largest_gap_seconds" ∷ []

-- `if interval:`
abbrev positive : Option ℕ → Option ℕ
positive none = none
positive (some zero) = none
positive (some (suc n)) = some (suc n)

-- Of two variants of one payload kind the last counts.
unfoldable pub variant_intervals : List (String × Option ℕ) → Dict (Option ℕ)
variant_intervals [] key = none
variant_intervals ((kind, interval) ∷ variants) key =
    let rest = variant_intervals variants key in
    elim rest [ some i ↦ some i | none ↦ if str_eq kind key then some interval else none ]

unfoldable pub reading_interval_for : Device → String → Dict (Option ℕ) → Option ℕ
reading_interval_for d payload_kind intervals = elim (positive d.reading_interval_seconds) [
  | some interval ↦ some interval
  | none ↦ if str_eq payload_kind "" then none else or_default (intervals payload_kind) none
]

unfoldable pub build_alarm : String → ℕ → String → String → ℕ × ℕ → Alarm
build_alarm mesh_id device_id channel detector value = record {
  mesh_id = mesh_id;
  device_id = device_id;
  channel = channel;
  detector = detector;
  source = "batch";
  value = value;
}

abbrev pub below_threshold : Thresholds → Completeness → Bool
below_threshold limits stats =
    ltb (stats.ratio.0 * limits.completeness.1) (limits.completeness.0 * stats.ratio.1)

abbrev pub exceeds_gap : Thresholds → ℕ → ℕ → Bool
exceeds_gap limits interval gap =
    ltb (interval * limits.gap_intervals.0) (gap * limits.gap_intervals.1)

-- The alarm of a channel: for its ratio, or else for its largest gap.
unfoldable pub alarms_for : Thresholds → Device → String → ℕ → Completeness → List Alarm
unfolding build_alarm
alarms_for limits d channel interval stats =
    if below_threshold limits stats
    then build_alarm d.mesh_id d.device_id channel "completeness" stats.ratio ∷ []
    else if exceeds_gap limits interval stats.largest_gap_seconds
    then build_alarm d.mesh_id d.device_id channel "completeness" (stats.largest_gap_seconds, 1)
      ∷ []
    else []

module _ {V : Type 0} (py : Platform) (net : ℕ → Delivery) (limits : Thresholds) where
  -- `read_channel`, `none` where it raises a ValueError.
  module _ (read : String → Option (List (ℕ × V))) (window : ℕ) where
    abbrev pub stats_with :
        MeasurementRow → Option ℕ → Option (List (ℕ × V)) → Option (ℕ × Completeness)
    stats_with row (some interval) (some series) =
        some (interval, analyse_completeness series window interval)
    stats_with row _ _ = none

    -- The interval and the completeness of a channel; `none` where the loop continues.
    unfoldable pub stats_of : Device → Dict (Option ℕ) → MeasurementRow → Option (ℕ × Completeness)
    unfolding analyse_completeness reading_interval_for
    stats_of d intervals row =
        if str_eq row.origin origin_measured
        then stats_with row (positive (reading_interval_for d row.payload_kind intervals))
            (read row.channel)
        else none

    abbrev pub effects_of : Device → MeasurementRow → ℕ → Completeness → List Effect
    effects_of d row interval stats =
        metric row.channel stats ∷ map alarm (alarms_for limits d row.channel interval stats)

    -- The loop over the measurements: `none` where something raises.
    unfoldable pub check_rows :
        Device
        → Dict (Option ℕ)
        → List MeasurementRow
        → List (String × Completeness)
        → Producer Effect
        → Producer Effect × Option (List (String × Completeness))
    unfolding stats_of alarms_for
    check_rows d intervals [] results p = (p, some results)
    check_rows d intervals (row ∷ rows) results p = elim (stats_of d intervals row) [
      | none ↦ check_rows d intervals rows results p
      | some (interval, stats) ↦
          let (p', sent) = send_all net (effects_of d row interval stats) p in
          elim sent [
            | true ↦ check_rows d intervals rows (results ++ (row.channel, stats) ∷ []) p'
            | false ↦ (p', none)
          ]
    ]

    abbrev pub status_of :
        List (String × Completeness) → Producer Effect × Bool → Producer Effect × Option Status
    status_of results (p, true) = (p, some (ok results))
    status_of results (p, false) = (p, none)

    -- What is left after the loop: the fields of the quality measurement are registered.
    abbrev pub registered :
        Device
        → Producer Effect × Option (List (String × Completeness))
        → Producer Effect × Option Status
    registered d (p, none) = (p, none)
    registered d (p, some []) = (p, some (ok []))
    registered d (p, some (r ∷ results)) =
        status_of (r ∷ results)
          (send_all net (discovery d.mesh_id d.device_id quality quality_fields ∷ []) p)

  abbrev check_device :
      (String → Option (List (ℕ × V)))
      → Text
      → Dict (Option ℕ)
      → List MeasurementRow
      → Device
      → Producer Effect
      → Producer Effect × Option Status
  check_device read lookback intervals rows d p =
      if str_eq d.mesh_id "" then (p, some no_mesh_id) else (elim (duration_seconds py lookback) [
        | none ↦ (p, none)
        | some window ↦ registered read window d (check_rows read window d intervals rows [] p)
      ])

  -- `check_completeness`, with keyapi's device of the id. The result is `none` where it raises.
  unfoldable pub check_completeness :
      (String → Option (List (ℕ × V)))
      → Text
      → List (String × Option ℕ)
      → List MeasurementRow
      → Option Device
      → Producer Effect
      → Producer Effect × Option Status
  unfolding check_rows variant_intervals duration_seconds
  check_completeness read lookback variants rows none p = (p, some device_not_found)
  check_completeness read lookback variants rows (some d) p =
      check_device read lookback (variant_intervals variants) rows d p
