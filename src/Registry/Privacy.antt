-- ===== src/Registry/Privacy.antt =====
-- What the list views of meshes and devices show of secrets, and to whom.
use meshtastic_things.Prelude.{ℕ, String, ◌≡◌, ◌≢◌, refl, none, some, List, map, arith, eq_iff}
use meshtastic_things.Prelude.Members.{In, In-map}
use meshtastic_things.Kafka.{Delivery}
use meshtastic_things.Registry.Models.{Owner, Mesh, Device, World, mesh_by_pk}
use meshtastic_things.Registry.Requests.{ok}
use meshtastic_things.Registry.Requests.Ends.{Ends-ok, Ends-get}
use meshtastic_things.Registry.Access.Rules.{Ends-verified}
use meshtastic_things.Registry.Meshes.{MeshView, mesh_view, mesh_list}
use meshtastic_things.Registry.Devices.{
  DeviceView, device_view, device_list, device_owner, owner_of_mesh, DeviceFilter,
}

mesh_view-psk :
    (viewer_id : String) (mesh : Mesh)
    → (mesh_view viewer_id mesh).psk_b64 ≢ none
    → (mesh_view viewer_id mesh).owner_id ≡ viewer_id
unfolding mesh_view
mesh_view-psk viewer_id mesh shown = ground (arith, eq_iff viewer_id mesh.owner_id)

device_view-admin_keys :
    (viewer_id owner_id : String) (d : Device)
    → (device_view viewer_id owner_id d).admin_keys_b64 ≢ none
    → owner_id ≡ viewer_id
unfolding device_view
device_view-admin_keys viewer_id owner_id d shown = ground (arith, eq_iff viewer_id owner_id)

device_view-mesh :
    (viewer_id owner_id : String) (d : Device)
    → (device_view viewer_id owner_id d).mesh_id ≡ d.mesh_id
unfolding device_view
device_view-mesh viewer_id owner_id d = refl

module _ (user : Owner) where
  all_mine :
      (meshes : List Mesh) (v : MeshView)
      → In v (map (mesh_view user.id) meshes)
      → v.psk_b64 ≢ none
      → v.owner_id ≡ user.id
  all_mine meshes v i shown =
      let (mesh, e, _) = In-map (mesh_view user.id) v meshes i in
      rw e (mesh_view-psk user.id mesh (rw e at shown))

  all_theirs :
      (w : World) (devices : List Device) (v : DeviceView)
      → In v (map (λ d. device_view user.id (device_owner w d) d) devices)
      → v.admin_keys_b64 ≢ none
      → owner_of_mesh (mesh_by_pk v.mesh_id w.meshes) ≡ user.id
  all_theirs w devices v i shown =
      let (d, e, _) = In-map (λ d. device_view user.id (device_owner w d) d) v devices i in
      rw (e, device_view-mesh user.id (device_owner w d) d)
        (device_view-admin_keys user.id (device_owner w d) d (rw e at shown))

  itself : {u : Owner} → some user ≡ some u → user ≡ u
  itself e = ground arith

  -- The list of meshes shows the key of a mesh to its owner alone, to a superuser too only of their own.
  pub mesh_list-psk :
      (net : ℕ → Delivery) (w : World) (views : List MeshView) (v : MeshView)
      → (mesh_list net (some user) w).0 ≡ ok views
      → In v views
      → v.psk_b64 ≢ none
      → v.owner_id ≡ user.id
  unfolding mesh_list
  mesh_list-psk net w views v answered i shown =
      Ends-ok {E = λ _. Unit {0}}
        {Q = λ views _. (v : MeshView) → In v views → v.psk_b64 ≢ none → v.owner_id ≡ user.id} _
        views
        (Ends-verified (some user) _ w tt λ u who _. Ends-get _ w (rw (← itself who) (all_mine _)))
        answered v i shown

  -- The list of devices shows the admin keys of a device to the owner of its mesh alone.
  pub device_list-admin_keys :
      (net : ℕ → Delivery) (w : World) (f : DeviceFilter) (views : List DeviceView) (v : DeviceView)
      → (device_list net (some user) f w).0 ≡ ok views
      → In v views
      → v.admin_keys_b64 ≢ none
      → owner_of_mesh (mesh_by_pk v.mesh_id w.meshes) ≡ user.id
  unfolding device_list
  device_list-admin_keys net w f views v answered i shown =
      Ends-ok {E = λ _. Unit {0}}
        {Q = λ views _.
          (v : DeviceView)
          → In v views
          → v.admin_keys_b64 ≢ none
          → owner_of_mesh (mesh_by_pk v.mesh_id w.meshes) ≡ user.id}
        _ views
        (Ends-verified (some user) _ w tt
          λ u who _. Ends-get _ w (rw (← itself who) (all_theirs w _)))
        answered v i shown
