-- ===== src/Influx.antt =====
-- writer/point_builders.py: the points of InfluxDB that a decoded message or an alarm becomes. `none` is
-- an exception, on which the writer skips the message. Python's conversions of values (`float`, `str`,
-- division, datetime) are a parameter; numbers are in the range of floats. A key stands once in a
-- dictionary, and the client's `Point.from_dict` takes the dictionary as it is.
mod Base
pub mod Items
pub mod Filed
pub mod Tags
pub mod Variants
pub mod Writer
unfoldable pub use Base.*
use package.text.Mathlib.Text.{starts_with}
use meshtastic_things.Prelude.{
  ℕ, zero, suc, String, Bool, true, false, not, ◌&&◌, ◌||◌, Option, none, some, List, [], ◌∷◌,
  fstring, str_eq, or_default, is_some, if◌then◌else◌, leb, ◌>>=◌,
}
use meshtastic_things.Json.{
  Value, null, boolean, number, text, array, dict, Fields, end, field, get, truthy,
}

module _ {N : Type 0} (py : Python N) where
  -- The fields of a metric that `float` takes.
  unfoldable pub add_floats : Fields N → Fields N → Fields N
  unfolding set_item
  add_floats end fields = fields
  add_floats (field key v rest) fields = elim (py.to_float v) [
    | none ↦ add_floats rest fields
    | some n ↦ add_floats rest (set_item key (number n) fields)
  ]

  abbrev pub telemetry_point : Fields N → String → Fields N → Option (Point N)
  telemetry_point event key metric = do
    p ← base_point_dict py event key
    some (record p { fields = add_floats metric p.fields })

  abbrev pub cons_point : Option (Point N) → Option (List (Point N)) → Option (List (Point N))
  cons_point p points = do first ← p; rest ← points; some (first ∷ rest)

  -- The loop over the items of the payload.
  unfoldable pub telemetry_points : Fields N → Fields N → Option (List (Point N))
  unfolding add_floats base_point_dict
  telemetry_points event end = some []
  telemetry_points event (field key (dict metric) rest) =
      let others = telemetry_points event rest in
      if str_eq key "time" then others else cons_point (telemetry_point event key metric) others
  telemetry_points event (field key v rest) = telemetry_points event rest

  unfoldable pub build_telemetry_points : Fields N → Option (List (Point N))
  unfolding telemetry_points
  build_telemetry_points event = do payload ← payload_of py event; telemetry_points event payload

  -- `if len(fields) <= 2: return []`
  abbrev pub unless_bare : Point N → List (Point N)
  unless_bare p = if leb (size p.fields) 2 then [] else p ∷ []

  abbrev pub scaled_field : String → String → Fields N → Fields N → Option (Fields N)
  scaled_field key name payload fields = elim (get key payload) [
    | none ↦ some fields
    | some v ↦ elim (py.scaled v) [ none ↦ none | some n ↦ some (set_item name (number n) fields) ]
  ]

  abbrev float_field : String → Fields N → Fields N → Fields N
  float_field key payload fields = elim (get key payload) [
    | none ↦ fields
    | some v ↦ elim (py.to_float v) [ none ↦ fields | some n ↦ set_item key (number n) fields ]
  ]

  unfoldable pub build_position_points : Fields N → Option (List (Point N))
  unfolding base_point_dict set_item get
  build_position_points event = do
    payload ← payload_of py event
    p ← base_point_dict py event "position"
    fields ← scaled_field "latitude_i" "latitude" payload p.fields
    fields ← scaled_field "longitude_i" "longitude" payload fields
    some (unless_bare (record p { fields = float_field "altitude" payload fields }))

  -- `if payload.get(key): d[name] = str(payload[key])`
  abbrev pub text_item : String → String → Fields N → Fields N → Fields N
  text_item key name payload d =
      let v = or_default (get key payload) null in
      if truth py v then set_item name (text (py.shown v)) d else d

  abbrev pub node_tags : Fields N → Fields N → Fields N
  node_tags payload tags = text_item "role" "role" payload (
      text_item "hw_model" "hw_model" payload (
        text_item "short_name" "short_name" payload
          (text_item "long_name" "long_name" payload tags)))

  unfoldable pub build_nodeinfo_points : Fields N → Option (List (Point N))
  unfolding base_point_dict set_item get
  build_nodeinfo_points event = do
    payload ← payload_of py event
    p ← base_point_dict py event "nodeinfo"
    some (
        record p {
          tags = node_tags payload p.tags;
          fields = text_item "id" "user_id" payload p.fields;
        }
        ∷ [])

  abbrev is_plain : Value N → Bool
  is_plain (boolean b) = true
  is_plain (number n) = true
  is_plain _ = false

  -- The booleans and numbers of a payload.
  unfoldable pub add_plain : Fields N → Fields N → Fields N
  unfolding set_item
  add_plain end fields = fields
  add_plain (field key v rest) fields =
      add_plain rest (if is_plain v then set_item key v fields else fields)

  unfoldable pub build_generic_points : Fields N → Option (List (Point N))
  unfolding base_point_dict add_plain get
  build_generic_points event = do
    payload ← payload_of py event
    let portnum = or_default (get "portnum" event) (text "unknown")
    p ← base_point_dict py event (fstring ("portnum_" ∷ py.shown portnum ∷ []))
    some (unless_bare (record p { fields = add_plain payload p.fields }))

  -- `event.get(key, event.get(other))`
  abbrev get_or : String → String → Fields N → Value N
  get_or key other event = or_default (get key event) (or_default (get other event) null)

  abbrev tag_unless_none : String → Value N → Fields N → Fields N
  tag_unless_none name null tags = tags
  tag_unless_none name v tags = set_item name (text (py.shown v)) tags

  abbrev tag_if : String → Value N → Fields N → Fields N
  tag_if name v tags = if truth py v then set_item name v tags else tags

  abbrev value_field : Value N → Fields N → Option (Fields N)
  value_field null fields = some fields
  value_field v fields = elim (py.to_float v) [
    | none ↦ none
    | some n ↦ some (set_item "value" (number n) fields)
  ]

  abbrev text_of : Value N → Option String
  text_of (text s) = some s
  text_of _ = none

  -- The time of an alarm is a text.
  unfoldable pub build_alarm_points : Fields N → Option (List (Point N))
  unfolding set_item get
  build_alarm_points event = do
    detector ← get "detector" event
    let tags = tag_of py "source" event (
        tag_if "channel" (get_or "channel" "field" event) (
          tag_of py "mesh_id" event (
            tag_unless_none "node_id" (get_or "device_id" "node_id" event)
              (field "detector" detector end))))
    fields ←
        value_field (or_default (get "value" event) null)
          (field "message" (text (py.shown (or_default (get "message" event) (text "")))) end)
    triggered_at ← get "triggered_at" event
    time ← text_of triggered_at
    some (record { measurement = "alarms"; tags = tags; fields = fields; time = time } ∷ [])

  -- `event.get("payload_kind", "") or ""`, of which a text is wanted.
  abbrev pub kind_of : Value N → Option String
  kind_of (text s) = some s
  kind_of v = if truth py v then none else some ""

  -- SKIP_PAYLOAD_KINDS
  abbrev pub is_skipped : String → Bool
  is_skipped kind = str_eq kind "portnum:1" || str_eq kind "portnum:5"

  abbrev pub points_of_kind : Fields N → String → Option (List (Point N))
  points_of_kind event kind =
      if is_skipped kind
      then some []
      else if starts_with kind "telemetry"
      then build_telemetry_points event
      else if str_eq kind "position"
      then build_position_points event
      else if str_eq kind "nodeinfo"
      then build_nodeinfo_points event
      else build_generic_points event

  abbrev pub decoded_points : Fields N → Option (List (Point N))
  decoded_points event = do
    kind ← kind_of (or_default (get "payload_kind" event) null)
    points_of_kind event kind

  -- `get_points`
  unfoldable pub get_points : Value N → Option (List (Point N))
  unfolding get build_telemetry_points build_position_points build_nodeinfo_points
      build_generic_points build_alarm_points
  get_points (dict event) =
      if is_some (get "detector" event) then build_alarm_points event else decoded_points event
  get_points _ = none
