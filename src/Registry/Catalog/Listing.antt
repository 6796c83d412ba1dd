-- ===== src/Registry/Catalog/Listing.antt =====
-- The list of a device's measurement channels (DeviceMeasurementsView of keyapi/registry/views.py). The
-- order of the database on (payload_kind, field_name) is a parameter.
use meshtastic_things.Prelude.{
  String, Bool, Option, some, List, [], ◌∷◌, ◌++◌, str_eq, if◌then◌else◌,
}
use meshtastic_things.Table.{row_by_pk}
use meshtastic_things.Registry.Models.{Owner}
use meshtastic_things.Registry.Requests.{Handler, gets, ◌>>=◌, ◌>>◌}
use meshtastic_things.Registry.Access.{
  require_verified, get_device_or_404, mesh_of, require_mesh_ownership,
}
use meshtastic_things.Registry.Catalog.{
  MeasurementType, DeviceTelemetryVariant, Measurement, Catalog, type_pk, device_variant_pk,
  in_registry,
}
use meshtastic_things.Registry.Catalog.Views.{MeasurementTypeView, measurement_type_view}

-- DeviceMeasurementSerializer; the payload kind, channel and origin stand in the view of the type.
pub record DeviceMeasurementView : Type 0 where
  pub row : Measurement
  pub measurement_type : MeasurementTypeView
  pub telemetry_variant_id : String

-- A measurement with its related rows, where it is of the device.
abbrev device_measurement_view :
    String
    → Measurement
    → Option DeviceTelemetryVariant
    → Option MeasurementType
    → List DeviceMeasurementView
device_measurement_view device_id m (some v) (some t) =
    if str_eq v.device_id device_id
    then record {
      row = m;
      measurement_type = measurement_type_view t;
      telemetry_variant_id = v.telemetry_variant_id;
    }
      ∷ []
    else []
device_measurement_view device_id m _ _ = []

unfoldable pub measurements_of : String → Catalog → List Measurement → List DeviceMeasurementView
unfolding measurement_type_view
measurements_of device_id c [] = []
measurements_of device_id c (m ∷ measurements) =
    device_measurement_view device_id m
      (row_by_pk device_variant_pk m.device_telemetry_variant_id c.device_variants)
      (row_by_pk type_pk m.measurement_type_id c.types)
    ++ measurements_of device_id c measurements

module _ (in_order : String × String → String × String → Bool) where
  abbrev sort_key : DeviceMeasurementView → String × String
  sort_key v = (v.measurement_type.row.payload_kind, v.measurement_type.row.field_name)

  abbrev insert_view :
      DeviceMeasurementView → List DeviceMeasurementView → List DeviceMeasurementView
  insert_view v [] = v ∷ []
  insert_view v (w ∷ views) =
      let rest = insert_view v views in
      if in_order (sort_key v) (sort_key w) then v ∷ w ∷ views else w ∷ rest

  -- `order_by`
  unfoldable pub ordered : List DeviceMeasurementView → List DeviceMeasurementView
  ordered [] = []
  ordered (v ∷ views) = insert_view v (ordered views)

  -- DeviceMeasurementsView
  unfoldable pub device_measurements :
      Option Owner → String → Handler Catalog (List DeviceMeasurementView)
  unfolding measurements_of ordered
  device_measurements caller id = do
    user ← in_registry (require_verified caller)
    device ← in_registry (get_device_or_404 id)
    mesh ← in_registry (mesh_of device)
    in_registry (require_mesh_ownership mesh user)
    gets (λ c. ordered (measurements_of device.id c c.measurements))
