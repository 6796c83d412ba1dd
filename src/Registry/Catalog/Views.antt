-- ===== src/Registry/Catalog/Views.antt =====
-- The views of measurement types, telemetry variants and their measurements
-- (keyapi/registry/views.py).
mod Rows
unfoldable pub use Rows.*
use text.Mathlib.Text.{starts_with}
use meshtastic_things.Prelude.{
  ℕ, String, Bool, true, not, ◌&&◌, ◌||◌, Option, none, some, List, [], ◌∷◌, ◌++◌, any, select,
  fstring, str_eq, or_default,
}
use meshtastic_things.Kafka.{Delivery}
use meshtastic_things.Channels.{channel_name, origin_of}
use meshtastic_things.Table.{save_row, delete_row, clashes_with, pk_taken, row_by_pk}
use meshtastic_things.Registry.Models.{Owner, Message, variant_config, World}
use meshtastic_things.Registry.Requests.{
  Handler, respond, lookup_or, gets, ensure, write, not_found, conflict, ◌>>=◌, ◌>>◌,
}
use meshtastic_things.Registry.Publisher.{publish_best_effort}
use meshtastic_things.Registry.Access.{
  require_verified, require_superuser, get_device_or_404, mesh_of, require_mesh_ownership,
}
use meshtastic_things.Registry.Catalog.{
  MeasurementType, TelemetryVariant, TelemetryVariantMeasurement, DeviceTelemetryVariant,
  Measurement, Catalog, type_pk, variant_pk, link_pk, same_type, in_registry,
}

module _ (net : ℕ → Delivery) (caller : Option Owner) where
  abbrev pub verified : Handler Catalog Owner
  verified = in_registry (require_verified caller)

  abbrev pub superuser : Handler Catalog (Unit {0})
  superuser = do user ← verified; in_registry (require_superuser user)

  abbrev get_measurement_type_or_404 : String → Handler Catalog MeasurementType
  get_measurement_type_or_404 id = lookup_or not_found (λ c. row_by_pk type_pk id c.types)

  abbrev get_telemetry_variant_or_404 : String → Handler Catalog TelemetryVariant
  get_telemetry_variant_or_404 id = lookup_or not_found (λ c. row_by_pk variant_pk id c.variants)

  abbrev get_telemetry_variant_measurement_or_404 :
      String → Handler Catalog TelemetryVariantMeasurement
  get_telemetry_variant_measurement_or_404 id =
      lookup_or not_found (λ c. row_by_pk link_pk id c.links)

  unfoldable pub measurement_type_list : TypeFilter → Handler Catalog (List MeasurementType)
  measurement_type_list f = do user ← verified; gets (λ c. filter_measurement_types f c.types)

  -- The id is the new row's UUID.
  unfoldable pub measurement_type_create : String → TypeCreate → Handler Catalog MeasurementType
  measurement_type_create id request = do
    superuser
    let t : MeasurementType = record {
      id = id;
      payload_kind = request.payload_kind;
      field_name = request.field_name;
      display_name = request.display_name;
      description = request.description;
      native_unit = request.native_unit;
      quantity_kind = request.quantity_kind;
      vocabulary_uri = request.vocabulary_uri;
    }
    types ← gets (λ c. c.types)
    ensure (not (clashes_with type_pk same_type t types)) conflict
    ensure (not (pk_taken type_pk t types)) conflict
    write (λ c. record c { types = c.types ++ t ∷ [] })
    respond t

  unfoldable pub measurement_type_get : String → Handler Catalog MeasurementTypeView
  measurement_type_get id = do
    user ← verified
    t ← get_measurement_type_or_404 id
    respond (measurement_type_view t)

  unfoldable pub measurement_type_put : String → TypeUpdate → Handler Catalog MeasurementType
  measurement_type_put id u = do
    superuser
    t ← get_measurement_type_or_404 id
    write (λ c. record c { types = save_row type_pk (updated_type u t) c.types })
    respond (updated_type u t)

  unfoldable pub measurement_type_delete : String → Handler Catalog (Unit {0})
  measurement_type_delete id = do
    superuser
    t ← get_measurement_type_or_404 id
    write (delete_type t.id)

  unfoldable pub telemetry_variant_list : Handler Catalog (List TelemetryVariant)
  telemetry_variant_list = do user ← verified; gets (λ c. c.variants)

  unfoldable pub telemetry_variant_get : String → Handler Catalog TelemetryVariant
  telemetry_variant_get id = do user ← verified; get_telemetry_variant_or_404 id

  unfoldable pub telemetry_variant_put : String → VariantUpdate → Handler Catalog TelemetryVariant
  telemetry_variant_put id u = do
    superuser
    v ← get_telemetry_variant_or_404 id
    let updated = updated_variant u v
    write (λ c. record c { variants = save_row variant_pk updated c.variants })
    configs ← gets (λ c.
        quality_configs
          (select (λ (l : TelemetryVariantMeasurement). str_eq l.telemetry_variant_id updated.id)
            c.links)
          c)
    in_registry (publish_quality_config net configs)
    respond updated

  unfoldable pub telemetry_variant_delete : String → Handler Catalog (Unit {0})
  telemetry_variant_delete id = do
    superuser
    v ← get_telemetry_variant_or_404 id
    write (delete_variant v.id)

  unfoldable pub telemetry_variant_measurements :
      String → Handler Catalog (List TelemetryVariantMeasurement)
  telemetry_variant_measurements id = do
    user ← verified
    v ← get_telemetry_variant_or_404 id
    gets (λ c.
        select (λ (l : TelemetryVariantMeasurement). str_eq l.telemetry_variant_id v.id) c.links)

  unfoldable pub telemetry_variant_measurement_get :
      String → Handler Catalog TelemetryVariantMeasurement
  telemetry_variant_measurement_get id = do
    user ← verified
    get_telemetry_variant_measurement_or_404 id

  unfoldable pub telemetry_variant_measurement_put :
      String → LinkUpdate → Handler Catalog TelemetryVariantMeasurement
  telemetry_variant_measurement_put id u = do
    superuser
    l ← get_telemetry_variant_measurement_or_404 id
    let updated = updated_link u l
    write (λ c. record c { links = save_row link_pk updated c.links })
    configs ← gets (quality_configs (updated ∷ []))
    in_registry (publish_quality_config net configs)
    respond updated

  -- DeviceTelemetryVariantsView
  unfoldable pub device_telemetry_variants : String → Handler Catalog (List DeviceTelemetryVariant)
  device_telemetry_variants id = do
    user ← verified
    device ← in_registry (get_device_or_404 id)
    mesh ← in_registry (mesh_of device)
    in_registry (require_mesh_ownership mesh user)
    gets (λ c.
        select (λ (v : DeviceTelemetryVariant). str_eq v.device_id device.id) c.device_variants)

-- The requests that change the catalog.
pub data CatalogRequest : Type 0 where
  post_type : String → TypeCreate → CatalogRequest
  put_type : String → TypeUpdate → CatalogRequest
  drop_type : String → CatalogRequest
  put_variant : String → VariantUpdate → CatalogRequest
  drop_variant : String → CatalogRequest
  put_link : String → LinkUpdate → CatalogRequest

-- The catalog after a request, whether it was answered or raised.
unfoldable pub handle_catalog : (ℕ → Delivery) → Option Owner → CatalogRequest → Catalog → Catalog
handle_catalog net caller (post_type id request) c =
    (measurement_type_create net caller id request c).1
handle_catalog net caller (put_type id u) c = (measurement_type_put net caller id u c).1
handle_catalog net caller (drop_type id) c = (measurement_type_delete net caller id c).1
handle_catalog net caller (put_variant id u) c = (telemetry_variant_put net caller id u c).1
handle_catalog net caller (drop_variant id) c = (telemetry_variant_delete net caller id c).1
handle_catalog net caller (put_link id u) c =
    (telemetry_variant_measurement_put net caller id u c).1
