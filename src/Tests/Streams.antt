-- ===== src/Tests/Streams.antt =====
-- Pattern detection on the readings of two fields, and the writer to InfluxDB on a poll with a bad message.
use meshtastic_things.Prelude.{
  fstring, inl, ℕ, zero, suc, ◌/◌, ltb, ◌==◌, String, Bool, true, false, ◌≡◌, refl, Option, none,
  some, List, [], ◌∷◌, show,
}
use meshtastic_things.Json.{Value, null, boolean, number, text, dict, Fields, end, field, get}
use meshtastic_things.Kafka.{Delivery, acked, lost}
use meshtastic_things.Quality.Detectors.{stuck_value_triggered, range_check_triggered}
use meshtastic_things.Patterns.{
  Arithmetic, Alarm, Input, observed, ruled, run, start, process_element, process_broadcast_element,
  get_key, rule_triggered,
}
use meshtastic_things.Patterns.History.{expected, run-expected}
use meshtastic_things.Influx.{
  Python, Point, get_points, build_telemetry_points, telemetry_points, base_point_dict, add_floats,
  set_item, resolve_timestamp,
}
use meshtastic_things.Channels.{channel_name, origin_of, origin_of_measurement, origin_measured}
use meshtastic_things.Channels.Agreement.{variant_kind}
use meshtastic_things.Influx.Variants.{get_points-channel_name}
use meshtastic_things.Influx.Tags.{AllFiled, get_points-Filed}
use meshtastic_things.Influx.Writer.{
  Turn, points_in, write_turn, write_kafka_influx, start as writer_start,
}
use meshtastic_things.Influx.Writer.Batches.{
  joined, records_of, joined-write_kafka_influx, failed_write_is_skipped,
}

abbrev text_of_value : Value ℕ → String
text_of_value (number n) = show n
text_of_value (text s) = s
text_of_value _ = "None"

abbrev number_of_bool : Bool → ℕ
number_of_bool true = 1
number_of_bool false = 0

abbrev naturals : Arithmetic ℕ
naturals = record {
  equal = ◌==◌;
  less = ltb;
  is_zero = λ n. n == 0;
  to_float = λ n. n;
  of_bool = number_of_bool;
  shown = text_of_value;
}

abbrev reading : String → ℕ → Input naturals
reading name n = observed (record { node_id = number 7; field = name; value = n; time = null })

abbrev limit : Input naturals
limit = ruled (record {
  key = some "7:lux";
  op = none;
  detector_name = none;
  params = some (dict (field "min" (number 2) (field "max" (number 9) end)));
})

abbrev readings_and_rules : List (Input naturals)
readings_and_rules =
    reading "lux" 4
    ∷ reading "lux" 4
    ∷ reading "volt" 3
    ∷ reading "lux" 4
    ∷ reading "lux" 4
    ∷ limit
    ∷ reading "lux" 4
    ∷ reading "lux" 12
    ∷ reading "volt" 12
    ∷ []

run-expected_example :
    run naturals readings_and_rules start ≡ expected naturals [] readings_and_rules
run-expected_example = run-expected naturals readings_and_rules

abbrev alarm : String → String → ℕ → Alarm ℕ
alarm name detector n = record { node_id = number 7; field = name; detector = detector; value = n }

-- The fifth equal reading is stuck, whatever came in between; the limit holds of its own field.
stuck_then_out_of_range :
    run naturals readings_and_rules start
    ≡ (alarm "lux" "stuck_value" 4 ∷ alarm "lux" "range_check" 12 ∷ [], true)
unfolding run process_element process_broadcast_element get_key rule_triggered get show
    stuck_value_triggered range_check_triggered start
stuck_then_out_of_range = refl

abbrev date_of : Value ℕ → Option String
date_of (number n) = some (show n)
date_of _ = none

abbrev float_of : Value ℕ → Option ℕ
float_of (number n) = some n
float_of (boolean b) = some (number_of_bool b)
float_of _ = none

abbrev scaled_of : Value ℕ → Option ℕ
scaled_of (number n) = some (n / 10000000)
scaled_of _ = none

abbrev conversions : Python ℕ
conversions = record {
  is_zero = λ n. n == 0;
  exceeds = λ n m. ltb m n;
  convert_date = date_of;
  to_float = float_of;
  scaled = scaled_of;
  shown = text_of_value;
}

abbrev weather : Fields ℕ
weather = field "mesh_id" (text "m1") (
    field "node_id" (number 7) (
      field "packet_id" (number 3) (
        field "rx_time" (number 1700000000) (
          field "payload_kind" (text "telemetry:environment_metrics") (
            field "payload"
              (dict (
                field "time" (number 5) (
                  field "environment_metrics"
                    (dict (field "temperature" (number 21) (field "note" (text "warm") end))) end)))
              end)))))

abbrev weather_point : Point ℕ
weather_point = record {
  measurement = "environment_metrics";
  tags = field "node_id" (number 7) (field "mesh_id" (text "m1") end);
  fields =
      field "packet_id" (number 3)
        (field "timestamp_quality" (text "rx_time") (field "temperature" (number 21) end));
  time = "1700000000";
}

-- The clock of the payload is not set, and the text is no number.
weather-points : get_points conversions (dict weather) ≡ some (weather_point ∷ [])
unfolding get_points build_telemetry_points telemetry_points base_point_dict add_floats set_item
    resolve_timestamp get show
weather-points = refl

no_detector : get "detector" weather ≡ none
unfolding get
no_detector = refl

abbrev weather_payload : Fields ℕ
weather_payload = field "time" (number 5) (
    field "environment_metrics"
      (dict (field "temperature" (number 21) (field "note" (text "warm") end))) end)

weather_kind : get "payload_kind" weather ≡ some (text (variant_kind "environment_metrics"))
unfolding get
weather_kind = refl

weather_is_payload : get "payload" weather ≡ some (dict weather_payload)
unfolding get
weather_is_payload = refl

get_points-channel_name_example :
    (channel_name (variant_kind "environment_metrics") "temperature"
      ≡ fstring ("environment_metrics" ∷ "." ∷ "temperature" ∷ []))
    × (origin_of (variant_kind "environment_metrics") ≡ origin_measured)
    × (origin_of_measurement "environment_metrics" ≡ origin_measured)
get_points-channel_name_example =
    get_points-channel_name conversions weather "environment_metrics" "temperature" weather_payload
      (weather_point ∷ []) weather_point no_detector weather_kind weather_is_payload (refl, tt) refl
      refl weather-points (inl refl)

get_points-Filed_example : AllFiled conversions weather (weather_point ∷ [])
get_points-Filed_example =
    get_points-Filed conversions weather (weather_point ∷ []) no_detector weather-points

abbrev polls : List (Turn ℕ)
polls =
    record { polled = some (dict weather) ∷ none ∷ []; commit = lost }
    ∷ record { polled = some null ∷ some (text "?") ∷ []; commit = acked }
    ∷ record { polled = some (dict weather) ∷ []; commit = acked }
    ∷ []

abbrev always_acked : ℕ → Delivery
always_acked n = acked

joined-write_kafka_influx_example :
    joined (write_kafka_influx conversions always_acked polls writer_start).bucket.log
    ≡ points_in conversions (records_of polls)
joined-write_kafka_influx_example =
    joined-write_kafka_influx conversions always_acked (λ n. refl) polls

abbrev first_lost : ℕ → Delivery
first_lost zero = lost
first_lost (suc n) = acked

abbrev poll : Turn ℕ
poll = record { polled = some (dict weather) ∷ []; commit = acked }

poll-points : points_in conversions poll.polled ≡ weather_point ∷ []
unfolding points_in get_points build_telemetry_points telemetry_points base_point_dict add_floats
    set_item resolve_timestamp get show
poll-points = refl

failed_write_is_skipped_example :
    let end =
      write_turn conversions first_lost poll
        (write_turn conversions first_lost poll writer_start) in
    (end.committed ≡ some (dict weather) ∷ some (dict weather) ∷ [])
    × (end.pending ≡ [])
    × (end.bucket.log ≡ (weather_point ∷ []) ∷ [])
unfolding writer_start
failed_write_is_skipped_example =
    failed_write_is_skipped conversions first_lost poll poll writer_start weather_point
      weather_point [] [] poll-points poll-points refl refl refl
