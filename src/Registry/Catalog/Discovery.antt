-- ===== src/Registry/Catalog/Discovery.antt =====
-- management/commands/consume_sensor_discovery.py: the fields that a device has been seen to report
-- become rows of the catalog.
use meshtastic_things.Prelude.{
  ℕ, String, Bool, true, false, not, Option, none, some, List, [], ◌∷◌, str_eq, if◌then◌else◌,
}
use meshtastic_things.Channels.{quantity_kind_for}
use meshtastic_things.Registry.Models.{Device}
use meshtastic_things.Registry.Requests.{Handler, respond, abort, gets, server_error, ◌>>=◌, ◌>>◌}
use meshtastic_things.Registry.Sightings.{registrations}
use meshtastic_things.Registry.Catalog.{
  MeasurementType, TelemetryVariant, DeviceTelemetryVariant, Catalog, type_table, variant_table,
  device_variant_table, measurement_table, new_id, save, get_or_create,
}

-- A parsed event: `none` for an absent key. `field_units` is empty where it is absent or null.
pub record SensorEvent : Type 0 where
  pub op : Option String
  pub mesh_id : Option String
  pub device_id : Option ℕ
  pub payload_kind : Option String
  pub fields : Option (List String)
  pub field_units : List (String × Option String)

abbrev pub is_blank : Option String → Bool
is_blank none = true
is_blank (some s) = str_eq s ""

-- `field_units.get(field)`
abbrev pub unit_of : String → List (String × Option String) → Option String
unit_of field [] = none
unit_of field ((f, unit) ∷ units) = if str_eq f field then unit else unit_of field units

-- What `_apply_unit` saves.
unfoldable pub with_unit : Option String → MeasurementType → MeasurementType
unfolding quantity_kind_for
with_unit unit t = record t {
  native_unit = unit;
  quantity_kind = if is_blank t.quantity_kind then quantity_kind_for unit else t.quantity_kind;
}

-- `_apply_unit`
unfoldable pub apply_unit : MeasurementType → Option String → Handler Catalog (Unit {0})
unfolding with_unit
apply_unit t unit =
    if is_blank unit
    then respond tt
    else if not (is_blank t.native_unit)
    then respond tt
    else save type_table (with_unit unit t)

abbrev pub new_type : String → String → String → MeasurementType
new_type id payload_kind field = record {
  id = id;
  payload_kind = payload_kind;
  field_name = field;
  display_name = none;
  description = none;
  native_unit = none;
  quantity_kind = none;
  vocabulary_uri = none;
}

abbrev pub new_variant : String → String → TelemetryVariant
new_variant id payload_kind = record {
  id = id;
  payload_kind = payload_kind;
  name = none;
  model = none;
  datasheet_url = none;
  description = none;
  default_reading_interval_seconds = none;
}

-- The registration that is meant: none, or several, and nothing is written.
abbrev pub registered : List Device → Handler Catalog Device
registered (d ∷ []) = respond d
registered _ = abort server_error

-- `event[key]`
abbrev pub required : {A : Type 0} → Option A → Handler Catalog A
required none = abort server_error
required (some a) = respond a

module _ (uuid : ℕ → String) (now : ℕ) where
  -- One field of an event.
  unfoldable pub discover_field :
      String
      → List (String × Option String)
      → DeviceTelemetryVariant
      → String
      → Handler Catalog (Unit {0})
  unfolding apply_unit
  discover_field payload_kind units seen field = do
    type_id ← new_id uuid
    t ← get_or_create type_table (new_type type_id payload_kind field)
    apply_unit t (unit_of field units)
    id ← new_id uuid
    m ← get_or_create measurement_table (record {
      id = id;
      device_telemetry_variant_id = seen.id;
      measurement_type_id = t.id;
      last_seen = none;
    })
    save measurement_table (record m { last_seen = some now })

  unfoldable pub discover_fields :
      String
      → List (String × Option String)
      → DeviceTelemetryVariant
      → List String
      → Handler Catalog (Unit {0})
  unfolding discover_field
  discover_fields payload_kind units seen [] = respond tt
  discover_fields payload_kind units seen (field ∷ fields) =
      discover_field payload_kind units seen field >> discover_fields payload_kind units seen fields

  -- `_upsert`; what it wrote before raising stays written.
  unfoldable pub upsert_discovery : SensorEvent → Handler Catalog (Unit {0})
  unfolding discover_fields
  upsert_discovery e = do
    mesh_id ← required e.mesh_id
    device_id ← required e.device_id
    found ← gets (λ c. registrations mesh_id device_id c.registry.devices)
    device ← registered found
    payload_kind ← required e.payload_kind
    variant_id ← new_id uuid
    variant ← get_or_create variant_table (new_variant variant_id payload_kind)
    id ← new_id uuid
    made ← get_or_create device_variant_table (record {
      id = id;
      device_id = device.id;
      telemetry_variant_id = variant.id;
      last_seen = none;
    })
    let seen : DeviceTelemetryVariant = record made { last_seen = some now }
    save device_variant_table seen
    fields ← required e.fields
    discover_fields payload_kind e.field_units seen fields

abbrev pub is_upsert : Option String → Bool
is_upsert none = false
is_upsert (some op) = str_eq op "upsert"

-- The events of the topic, each at its time: an exception is logged, and the next one is read.
unfoldable pub consume_discoveries : (ℕ → String) → List (ℕ × SensorEvent) → Catalog → Catalog
unfolding upsert_discovery
consume_discoveries uuid [] c = c
consume_discoveries uuid ((now, e) ∷ events) c =
    consume_discoveries uuid events
      (if is_upsert e.op then (upsert_discovery uuid now e c).1 else c)
