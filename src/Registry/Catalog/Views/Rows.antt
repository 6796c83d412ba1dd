-- ===== src/Registry/Catalog/Views/Rows.antt =====
-- What the views of the catalog show, change, delete and publish of its rows
-- (keyapi/registry/serializers.py, models.py and views.py).
use text.Mathlib.Text.{starts_with}
use meshtastic_things.Prelude.{
  ℕ, String, Bool, true, not, ◌&&◌, ◌||◌, Option, none, some, List, [], ◌∷◌, ◌++◌, any, select,
  fstring, str_eq, or_default,
}
use meshtastic_things.Kafka.{Delivery}
use meshtastic_things.Channels.{channel_name, origin_of}
use meshtastic_things.Table.{delete_row, row_by_pk}
use meshtastic_things.Registry.Models.{Message, variant_config, World}
use meshtastic_things.Registry.Requests.{Handler, respond, ◌>>◌}
use meshtastic_things.Registry.Publisher.{publish_best_effort}
use meshtastic_things.Registry.Catalog.{
  MeasurementType, TelemetryVariant, TelemetryVariantMeasurement, DeviceTelemetryVariant,
  Measurement, Catalog, type_pk, variant_pk,
}

-- MeasurementTypeReadSerializer
pub record MeasurementTypeView : Type 0 where
  pub row : MeasurementType
  pub channel : String
  pub origin : String

unfoldable pub measurement_type_view : MeasurementType → MeasurementTypeView
unfolding channel_name origin_of
measurement_type_view t = record {
  row = t;
  channel = channel_name t.payload_kind t.field_name;
  origin = origin_of t.payload_kind;
}

-- A validated body of POST /measurement-types.
pub record TypeCreate : Type 0 where
  pub payload_kind : String
  pub field_name : String
  pub display_name : Option String
  pub description : Option String
  pub native_unit : Option String
  pub quantity_kind : Option String
  pub vocabulary_uri : Option String

-- Of the PUTs: `none` for an absent field.
pub record TypeUpdate : Type 0 where
  pub display_name : Option (Option String)
  pub description : Option (Option String)
  pub native_unit : Option (Option String)
  pub quantity_kind : Option (Option String)
  pub vocabulary_uri : Option (Option String)

pub record VariantUpdate : Type 0 where
  pub name : Option (Option String)
  pub model : Option (Option String)
  pub datasheet_url : Option (Option String)
  pub description : Option (Option String)
  pub default_reading_interval_seconds : Option (Option ℕ)

pub record LinkUpdate : Type 0 where
  pub valid_min : Option (Option String)
  pub valid_max : Option (Option String)

unfoldable pub updated_type : TypeUpdate → MeasurementType → MeasurementType
updated_type u t = record t {
  display_name = or_default u.display_name t.display_name;
  description = or_default u.description t.description;
  native_unit = or_default u.native_unit t.native_unit;
  quantity_kind = or_default u.quantity_kind t.quantity_kind;
  vocabulary_uri = or_default u.vocabulary_uri t.vocabulary_uri;
}

unfoldable pub updated_variant : VariantUpdate → TelemetryVariant → TelemetryVariant
updated_variant u v = record v {
  name = or_default u.name v.name;
  model = or_default u.model v.model;
  datasheet_url = or_default u.datasheet_url v.datasheet_url;
  description = or_default u.description v.description;
  default_reading_interval_seconds =
      or_default u.default_reading_interval_seconds v.default_reading_interval_seconds;
}

unfoldable pub updated_link : LinkUpdate → TelemetryVariantMeasurement → TelemetryVariantMeasurement
updated_link u l = record l {
  valid_min = or_default u.valid_min l.valid_min;
  valid_max = or_default u.valid_max l.valid_max;
}

-- The query parameters of the list; an empty text is no restriction.
pub record TypeFilter : Type 0 where
  pub kind : Option String
  pub payload_kind : Option String
  pub field_name : Option String

abbrev text_is : Option String → String → Bool
text_is none s = true
text_is (some wanted) s = str_eq wanted "" || str_eq s wanted

abbrev kind_is : Option String → String → Bool
kind_is none s = true
kind_is (some kind) s =
    str_eq kind "" || (str_eq s kind || starts_with s (fstring (kind ∷ ":" ∷ [])))

unfoldable pub filter_measurement_types : TypeFilter → List MeasurementType → List MeasurementType
filter_measurement_types f = select (λ (t : MeasurementType).
    kind_is f.kind t.payload_kind
    && (text_is f.payload_kind t.payload_kind && text_is f.field_name t.field_name))

-- The rows that go with a type, a variant or a device's variant: on_delete=CASCADE.
unfoldable pub delete_type : String → Catalog → Catalog
delete_type id c = record c {
  types = delete_row type_pk id c.types;
  links =
      select (λ (l : TelemetryVariantMeasurement). not (str_eq l.measurement_type_id id)) c.links;
  measurements = select (λ (m : Measurement). not (str_eq m.measurement_type_id id)) c.measurements;
}

abbrev is_of_variant : String → List DeviceTelemetryVariant → Measurement → Bool
is_of_variant id device_variants m =
    any
      (λ (v : DeviceTelemetryVariant).
        str_eq v.id m.device_telemetry_variant_id && str_eq v.telemetry_variant_id id)
      device_variants

unfoldable pub delete_variant : String → Catalog → Catalog
delete_variant id c = record c {
  variants = delete_row variant_pk id c.variants;
  links =
      select (λ (l : TelemetryVariantMeasurement). not (str_eq l.telemetry_variant_id id)) c.links;
  device_variants =
      select (λ (v : DeviceTelemetryVariant). not (str_eq v.telemetry_variant_id id))
        c.device_variants;
  measurements = select (λ m. not (is_of_variant id c.device_variants m)) c.measurements;
}

-- publish_variant_measurement_config, of a link with its two rows.
unfoldable pub variant_measurement_config :
    TelemetryVariantMeasurement → TelemetryVariant → MeasurementType → Message
unfolding channel_name
variant_measurement_config l v t = variant_config (record {
  key = channel_name t.payload_kind t.field_name;
  payload_kind = t.payload_kind;
  field_name = t.field_name;
  default_reading_interval_seconds = v.default_reading_interval_seconds;
  valid_min = l.valid_min;
  valid_max = l.valid_max;
})

-- `link.telemetry_variant` and `link.measurement_type`; where a row is not there the publication
-- raises, and is passed over.
abbrev config_of :
    TelemetryVariantMeasurement → Option TelemetryVariant → Option MeasurementType → List Message
config_of l (some v) (some t) = variant_measurement_config l v t ∷ []
config_of l _ _ = []

unfoldable pub quality_configs : List TelemetryVariantMeasurement → Catalog → List Message
quality_configs [] c = []
quality_configs (l ∷ links) c =
    config_of l (row_by_pk variant_pk l.telemetry_variant_id c.variants)
      (row_by_pk type_pk l.measurement_type_id c.types)
    ++ quality_configs links c

-- `_publish_quality_config`
unfoldable pub publish_quality_config : (ℕ → Delivery) → List Message → Handler World (Unit {0})
publish_quality_config net [] = respond tt
publish_quality_config net (m ∷ ms) = publish_best_effort net m >> publish_quality_config net ms
