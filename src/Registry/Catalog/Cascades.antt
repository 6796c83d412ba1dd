-- ===== src/Registry/Catalog/Cascades.antt =====
-- The rows of the catalog that the database deletes with a device (on_delete=CASCADE in
-- keyapi/registry/models.py), also where the device goes with its mesh or its owner.
use meshtastic_things.Prelude.{String, Bool, List, any, select, str_eq}
use meshtastic_things.Registry.Models.{Device, World}
use meshtastic_things.Registry.Requests.{Handler}
use meshtastic_things.Registry.Catalog.{DeviceTelemetryVariant, Measurement, Catalog}

abbrev is_device : List Device → String → Bool
is_device devices id = any (λ (d : Device). str_eq d.id id) devices

abbrev is_of : List DeviceTelemetryVariant → Measurement → Bool
is_of device_variants m =
    any (λ (v : DeviceTelemetryVariant). str_eq v.id m.device_telemetry_variant_id) device_variants

-- What is left, given the devices that are left.
unfoldable pub without_devices : Catalog → Catalog
without_devices c =
    let left =
      select (λ (v : DeviceTelemetryVariant). is_device c.registry.devices v.device_id)
        c.device_variants in
    record c { device_variants = left; measurements = select (is_of left) c.measurements }

-- A view of the registry that deletes devices, such as device_delete, mesh_delete or owner_me_delete, on
-- the tables of the catalog too.
unfoldable pub cascading : {A : Type 0} → Handler World A → Handler Catalog A
unfolding without_devices
cascading h c =
    let (answer, w) = h c.registry in (answer, without_devices (record c { registry = w }))
