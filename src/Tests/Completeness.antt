-- ===== src/Tests/Completeness.antt =====
-- The check of completeness on a device with one measured and one derived channel.
use meshtastic_things.Prelude.{
  ℕ, ◌*◌, String, ◌≡◌, refl, ◌⊎◌, inl, inr, Option, none, some, List, [], ◌∷◌, ◌++◌, show, str_eq,
  if◌then◌else◌,
}
use meshtastic_things.Prelude.Members.{In}
use meshtastic_things.Kafka.{Delivery, acked, Producer, send, send_all}
use meshtastic_things.Regex.{Text, codes}
use meshtastic_things.Query.{duration_seconds}
use meshtastic_things.Query.Durations.{hour, symbol, seconds, duration_seconds-show}
use meshtastic_things.Quality.Completeness.{analyse_completeness}
use meshtastic_things.Quality.Tasks.{
  Thresholds, Device, MeasurementRow, Alarm, Effect, alarm, build_alarm, alarms_for,
  variant_intervals, check_rows, check_completeness,
}
use meshtastic_things.Quality.Tasks.Warranted.{IsWarranted, check_completeness-IsWarranted}
use meshtastic_things.Tests.Queries.{py, ascii-IsUnicode}

abbrev always_acked : ℕ → Delivery
always_acked n = acked

-- The defaults: 0.8 and 3.
abbrev limits : Thresholds
limits = record { completeness = (8, 10); gap_intervals = (3, 1) }

-- Three readings, of the sixty that an hour should have.
abbrev stored_series : String → Option (List (ℕ × ℕ))
stored_series channel =
    if str_eq channel "environment_metrics.lux"
    then some ((0, 5) ∷ (60, 6) ∷ (600, 7) ∷ [])
    else none

abbrev last_hour : Text
last_hour = b'-' ∷ (codes (show 1) ++ symbol hour)

one_hour : duration_seconds py last_hour ≡ some (1 * seconds hour)
one_hour = duration_seconds-show py ascii-IsUnicode 1 hour

abbrev variants : List (String × Option ℕ)
variants = ("telemetry:environment_metrics", some 60) ∷ []

abbrev measurements : List MeasurementRow
measurements =
    record { origin = "derived"; channel = "derived.index"; payload_kind = "derived:index" }
    ∷ record {
      origin = "measured";
      channel = "environment_metrics.lux";
      payload_kind = "telemetry:environment_metrics";
    }
    ∷ []

abbrev device : Device
device = record { mesh_id = "m1"; device_id = 7; reading_interval_seconds = none }

abbrev start : Producer Effect
start = record { log = []; attempts = 0 }

abbrev gaps_alarm : Alarm
gaps_alarm = record {
  mesh_id = "m1";
  device_id = 7;
  channel = "environment_metrics.lux";
  detector = "completeness";
  source = "batch";
  value = (3, 60);
}

gaps_alarm-sent :
    In
      (alarm gaps_alarm)
      (check_completeness py always_acked limits stored_series last_hour variants measurements
        (some device)
        start).0.log
unfolding check_completeness check_rows send_all send alarms_for build_alarm analyse_completeness
gaps_alarm-sent = rw one_hour (inr (inl refl))

check_completeness-IsWarranted_example :
    In (alarm gaps_alarm) start.log
    ⊎ IsWarranted limits stored_series
        (1 * seconds hour)
        (variant_intervals variants)
        device
        py
        always_acked
        measurements
        gaps_alarm
check_completeness-IsWarranted_example =
    check_completeness-IsWarranted py always_acked limits stored_series last_hour (1 * seconds hour)
      variants measurements device start gaps_alarm one_hour gaps_alarm-sent
