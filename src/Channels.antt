-- ===== src/Channels.antt =====
-- meshtastic_things/common/channels.py and common/units.py: the names of the timeseries, the kinds of payload
-- that they come from, and the quantity kinds that units imply.
pub mod Agreement
use meshtastic_things.Prelude.{
  ℕ, String, Bool, true, false, ◌||◌, Option, none, some, List, [], ◌∷◌, ◌++◌, fstring, split_colon,
  str_eq, or_default, any, if◌then◌else◌,
}
use meshtastic_things.Json.{Value, dict, Fields, end, field, as_number}

abbrev pub derived : String
derived = "derived"

abbrev pub quality : String
quality = "quality"

abbrev pub telemetry : String
telemetry = "telemetry"

abbrev pub origin_measured : String
origin_measured = "measured"

abbrev pub origin_derived : String
origin_derived = "derived"

abbrev pub origin_quality : String
origin_quality = "quality"

abbrev pub origin_other : String
origin_other = "other"

abbrev or_text : String → String → String
or_text s default = if str_eq s "" then default else s

-- `(payload_kind or "unknown").split(":", 1)[-1]`
unfoldable pub measurement_of : String → String
measurement_of payload_kind =
    let (head, tail) = split_colon (or_text payload_kind "unknown") in or_default tail head

unfoldable pub channel_name : String → String → String
unfolding measurement_of
channel_name payload_kind field_name = fstring (measurement_of payload_kind ∷ "." ∷ field_name ∷ [])

-- `split(":", 1)[0]`
unfoldable pub namespace_of : String → String
namespace_of payload_kind = (split_colon payload_kind).0

unfoldable pub origin_of : String → String
unfolding namespace_of
origin_of payload_kind =
    let namespace = namespace_of payload_kind in
    if str_eq namespace telemetry
    then origin_measured
    else if str_eq namespace derived
    then origin_derived
    else if str_eq namespace quality
    then origin_quality
    else origin_other

unfoldable pub origin_of_measurement : String → String
unfolding origin_of
origin_of_measurement measurement =
    if str_eq measurement derived || str_eq measurement quality
    then origin_of measurement
    else origin_measured

module _ {N : Type 0} where
  -- `numeric_leaves`: the walk of nested dictionaries.
  unfoldable pub numeric_leaves : Fields N → List (String × N)
  numeric_leaves end = []
  numeric_leaves (field key (dict fields) rest) = numeric_leaves fields ++ numeric_leaves rest
  numeric_leaves (field key v rest) = elim (as_number v) [
    | some n ↦ (key, n) ∷ numeric_leaves rest
    | none ↦ numeric_leaves rest
  ]

  abbrev pub prefixed : String → List (String × N) → List (String × N)
  prefixed key [] = []
  prefixed key ((f, n) ∷ leaves) = (fstring (key ∷ "." ∷ f ∷ []), n) ∷ prefixed key leaves

  abbrev channels_of_value : String → String → Value N → List (String × N)
  channels_of_value fallback key (dict fields) = prefixed key (numeric_leaves fields)
  channels_of_value fallback key v = elim (as_number v) [
    | some n ↦ (fstring (fallback ∷ "." ∷ key ∷ []), n) ∷ []
    | none ↦ []
  ]

  abbrev channels_from : String → Fields N → List (String × N)
  channels_from fallback end = []
  channels_from fallback (field key v rest) =
      let others = channels_from fallback rest in
      if str_eq key "time" then others else channels_of_value fallback key v ++ others

  -- `channels_in`
  unfoldable pub channels_in : String → Fields N → List (String × N)
  unfolding measurement_of numeric_leaves
  channels_in payload_kind payload = channels_from (measurement_of payload_kind) payload

-- QUANTITY_KIND_BY_UNIT
abbrev pub quantity_kind_by_unit : List (String × String)
quantity_kind_by_unit =
    ("%", "ratio")
    ∷ ("ratio", "ratio")
    ∷ ("1/100", "other")
    ∷ ("count", "count")
    ∷ ("#/0.1L", "count")
    ∷ ("bytes", "other")
    ∷ ("ppb", "concentration")
    ∷ ("ppm", "concentration")
    ∷ ("ug/m3", "concentration")
    ∷ ("A", "physical_property")
    ∷ ("V", "physical_property")
    ∷ ("MOhm", "physical_property")
    ∷ ("bpm", "physical_property")
    ∷ ("dBm", "physical_property")
    ∷ ("deg", "physical_property")
    ∷ ("degC", "physical_property")
    ∷ ("g/m3", "physical_property")
    ∷ ("hPa", "physical_property")
    ∷ ("kg", "physical_property")
    ∷ ("lux", "physical_property")
    ∷ ("m/s", "physical_property")
    ∷ ("mm", "physical_property")
    ∷ ("s", "physical_property")
    ∷ ("uR/h", "physical_property")
    ∷ ("um", "physical_property")
    ∷ []

abbrev kind_in : String → List (String × String) → Option String
kind_in unit [] = none
kind_in unit ((u, kind) ∷ units) = if str_eq u unit then some kind else kind_in unit units

unfoldable pub quantity_kind_for : Option String → Option String
quantity_kind_for none = none
quantity_kind_for (some unit) = if str_eq unit "" then none else kind_in unit quantity_kind_by_unit
