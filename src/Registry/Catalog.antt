-- ===== src/Registry/Catalog.antt =====
-- The measurement catalog (keyapi/registry/models.py): what a variant of telemetry measures and in
-- which unit, and what each device has been seen to measure. Ids and floats are texts, as in
-- Registry.Models. That these rows go with a device that is deleted is not followed.
pub mod Views
pub mod Listing
pub mod Cascades
pub mod Discovery
pub mod Constraints
pub mod Kept
pub mod Discovering
pub mod Units
pub mod Curation
use meshtastic_things.Prelude.{
  ℕ, suc, ◌+◌, String, Bool, true, false, not, ◌&&◌, Option, none, some, List, [], ◌∷◌, ◌++◌, find,
  any, select, str_eq, if◌then◌else◌,
}
use meshtastic_things.Table.{save_row, delete_row, pk_taken}
use meshtastic_things.Registry.Models.{Owner, World}
use meshtastic_things.Registry.Requests.{
  Handler, Result, respond, gets, ensure, write, server_error, ◌>>=◌, ◌>>◌,
}

pub record MeasurementType : Type 0 where
  pub id : String
  pub payload_kind : String
  pub field_name : String
  pub display_name : Option String
  pub description : Option String
  pub native_unit : Option String
  pub quantity_kind : Option String
  pub vocabulary_uri : Option String

pub record TelemetryVariant : Type 0 where
  pub id : String
  pub payload_kind : String
  pub name : Option String
  pub model : Option String
  pub datasheet_url : Option String
  pub description : Option String
  pub default_reading_interval_seconds : Option ℕ

pub record TelemetryVariantMeasurement : Type 0 where
  pub id : String
  pub telemetry_variant_id : String
  pub measurement_type_id : String
  pub valid_min : Option String
  pub valid_max : Option String

pub record DeviceTelemetryVariant : Type 0 where
  pub id : String
  pub device_id : String
  pub telemetry_variant_id : String
  pub last_seen : Option ℕ

pub record Measurement : Type 0 where
  pub id : String
  pub device_telemetry_variant_id : String
  pub measurement_type_id : String
  pub last_seen : Option ℕ

-- The tables, those of Registry.Models, and the number of UUIDs made so far.
pub record Catalog : Type 0 where
  pub types : List MeasurementType
  pub variants : List TelemetryVariant
  pub links : List TelemetryVariantMeasurement
  pub device_variants : List DeviceTelemetryVariant
  pub measurements : List Measurement
  pub registry : World
  pub issued : ℕ

abbrev pub type_pk : MeasurementType → String
type_pk t = t.id

abbrev pub variant_pk : TelemetryVariant → String
variant_pk v = v.id

abbrev pub link_pk : TelemetryVariantMeasurement → String
link_pk l = l.id

abbrev pub device_variant_pk : DeviceTelemetryVariant → String
device_variant_pk v = v.id

abbrev pub measurement_pk : Measurement → String
measurement_pk m = m.id

-- uq_measurement_type, the variant's unique payload_kind, uq_device_telemetry_variant and
-- uq_measurement_device_telemetry_variant_type.
abbrev pub same_type : MeasurementType → MeasurementType → Bool
same_type s t = str_eq s.payload_kind t.payload_kind && str_eq s.field_name t.field_name

abbrev pub same_variant : TelemetryVariant → TelemetryVariant → Bool
same_variant v w = str_eq v.payload_kind w.payload_kind

abbrev pub same_device_variant : DeviceTelemetryVariant → DeviceTelemetryVariant → Bool
same_device_variant v w =
    str_eq v.device_id w.device_id && str_eq v.telemetry_variant_id w.telemetry_variant_id

abbrev pub same_measurement : Measurement → Measurement → Bool
same_measurement m n =
    str_eq m.device_telemetry_variant_id n.device_telemetry_variant_id
    && str_eq m.measurement_type_id n.measurement_type_id

-- A handler of the registry's own tables.
unfoldable pub in_registry : {A : Type 0} → Handler World A → Handler Catalog A
in_registry m c = let (r, w) = m c.registry in (r, record c { registry = w })

-- A table of the catalog: how it is read and written.
pub record TableOf (A : Type 0) : Type 0 where
  pub rows : Catalog → List A
  pub set_rows : List A → Catalog → Catalog
  pub pk : A → String
  pub same : A → A → Bool

abbrev pub type_table : TableOf MeasurementType
type_table = record {
  rows = λ c. c.types;
  set_rows = λ rows c. record c { types = rows };
  pk = type_pk;
  same = same_type;
}

abbrev pub variant_table : TableOf TelemetryVariant
variant_table = record {
  rows = λ c. c.variants;
  set_rows = λ rows c. record c { variants = rows };
  pk = variant_pk;
  same = same_variant;
}

abbrev pub device_variant_table : TableOf DeviceTelemetryVariant
device_variant_table = record {
  rows = λ c. c.device_variants;
  set_rows = λ rows c. record c { device_variants = rows };
  pk = device_variant_pk;
  same = same_device_variant;
}

abbrev pub measurement_table : TableOf Measurement
measurement_table = record {
  rows = λ c. c.measurements;
  set_rows = λ rows c. record c { measurements = rows };
  pk = measurement_pk;
  same = same_measurement;
}

-- A new UUID.
unfoldable pub new_id : (ℕ → String) → Handler Catalog String
new_id uuid = do
  n ← gets (λ c. c.issued)
  write (λ c. record c { issued = suc c.issued })
  respond (uuid n)

module _ {A : Type 0} (table : TableOf A) where
  open table use {rows, set_rows, pk, same}

  -- `row.save()` of a row that exists.
  unfoldable pub save : A → Handler Catalog (Unit {0})
  save r = write (λ c. set_rows (save_row pk r (rows c)) c)

  abbrev pub insert : A → Handler Catalog A
  insert r = do
    taken ← gets (λ c. pk_taken pk r (rows c))
    ensure (not taken) server_error
    write (λ c. set_rows (rows c ++ r ∷ []) c)
    respond r

  abbrev pub found_or_insert : Option A → A → Handler Catalog A
  found_or_insert (some s) r = respond s
  found_or_insert none r = insert r

  -- `objects.get_or_create`, by the fields of the table's constraint.
  unfoldable pub get_or_create : A → Handler Catalog A
  get_or_create r = do
    existing ← gets (λ c. find (λ s. same r s) (rows c))
    found_or_insert existing r
