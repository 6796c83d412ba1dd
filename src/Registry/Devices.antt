-- ===== src/Registry/Devices.antt =====
-- The device views: DeviceListCreateView and DeviceDetailView.
mod Rows
unfoldable pub use Rows.*
use meshtastic_things.Prelude.{
  ℕ, String, Bool, true, false, not, ◌&&◌, ◌||◌, Option, none, some, List, [], ◌∷◌, ◌++◌, map,
  select, is_some, str_eq, or_default, if◌then◌else◌,
}
use meshtastic_things.Kafka.{Delivery}
use meshtastic_things.Registry.Models.{
  Owner, Mesh, Device, Message, World, max_three_admin_keys, violates_allowed, save_device,
  mesh_by_pk, blueprint_by_pk, device_by_pk, is_live_gateway, is_rejected_node,
}
use meshtastic_things.Registry.Requests.{
  Handler, respond, ensure, gets, write, lookup_or, validation_error, permission_denied, conflict,
  ◌>>=◌, ◌>>◌,
}
use meshtastic_things.Registry.Publisher.{
  gateway_upsert, gateway_delete, node_reject, node_unreject, device_intervals, publish_or_rollback,
  publish_best_effort,
}
use meshtastic_things.Registry.Access.{
  require_verified, get_mesh_or_404, get_device_or_404, mesh_of, require_mesh_ownership,
}

module _ (net : ℕ → Delivery) (caller : Option Owner) where
  unfoldable pub device_list : DeviceFilter → Handler World (List DeviceView)
  device_list f = do
    user ← require_verified caller
    gets (λ w.
        map (λ d. device_view user.id (device_owner w d) d)
          (select (passes f) (
            if user.is_superuser
            then w.devices
            else select (λ d. str_eq (device_owner w d) user.id) w.devices)))

  unfoldable pub device_create : String → DeviceCreate → Handler World DeviceView
  device_create id request = do
    user ← require_verified caller
    ensure (max_three_admin_keys request.admin_keys_b64) validation_error
    ensure (location_pair request.latitude request.longitude) validation_error
    mesh ← get_mesh_or_404 request.mesh_id
    require_mesh_ownership mesh user
    let device = new_device id request mesh
    devices ← gets (λ w. w.devices)
    ensure (not (violates_allowed device devices) && not (is_some (device_by_pk id devices)))
        conflict
    write (λ w. record w { devices = w.devices ++ device ∷ [] })
    publish_or_rollback net (if device.is_gateway then gateway_upsert device mesh ∷ [] else [])
        (delete_device id)
    respond (device_view user.id mesh.owner_id device)

  unfoldable pub device_get : String → Handler World DeviceView
  device_get id = do
    user ← require_verified caller
    device ← get_device_or_404 id
    mesh ← mesh_of device
    require_mesh_ownership mesh user
    respond (device_view user.id mesh.owner_id device)

  abbrev pub publish_intervals : DeviceUpdate → Device → Handler World (Unit {0})
  publish_intervals u d =
      if is_some u.reading_interval_seconds || is_some u.publish_interval_seconds
      then publish_best_effort net (device_intervals d)
      else respond tt

  unfoldable pub device_put : String → DeviceUpdate → Handler World DeviceView
  device_put id u = do
    user ← require_verified caller
    device ← get_device_or_404 id
    mesh ← mesh_of device
    require_mesh_ownership mesh user
    ensure (checked_keys u.admin_keys_b64) validation_error
    ensure (location_pair u.latitude u.longitude) validation_error
    check_blueprint u.postprocessing_blueprint_id mesh user
    devices ← gets (λ w. w.devices)
    ensure (not (violates_allowed (apply_update u device) devices)) conflict
    let updated = apply_overrides u (apply_update u device)
    write (λ w. record w { devices = save_device updated w.devices })
    publish_intervals u updated
    publish_or_rollback net (allowance_change device updated mesh) (restore_allowed device updated)
    respond (device_view user.id mesh.owner_id updated)

  unfoldable pub device_delete : String → Handler World (Unit {0})
  device_delete id = do
    user ← require_verified caller
    device ← get_device_or_404 id
    mesh ← mesh_of device
    require_mesh_ownership mesh user
    publish_or_rollback net (deregistration device) (λ w. w)
    write (delete_device device.id)
