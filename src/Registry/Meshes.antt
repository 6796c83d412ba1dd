-- ===== src/Registry/Meshes.antt =====
-- The mesh views: MeshListCreateView, MeshDetailView and MeshDevicesView, and MeshSerializer.
pub mod Rollback
use meshtastic_things.Prelude.{
  ℕ, String, Bool, true, false, not, Option, none, some, List, [], ◌∷◌, ◌++◌, map, select, is_some,
  str_eq, or_default, if◌then◌else◌,
}
use meshtastic_things.Kafka.{Delivery}
use meshtastic_things.Registry.Models.{
  Owner, Mesh, Device, Message, World, save_mesh, devices_of, mesh_by_pk, is_live_gateway,
  is_rejected_node,
}
use meshtastic_things.Registry.Requests.{
  Handler, respond, gets, write, ensure, server_error, ◌>>=◌, ◌>>◌,
}
use meshtastic_things.Registry.Publisher.{
  gateway_upsert, gateway_delete, node_unreject, publish_or_rollback,
}
use meshtastic_things.Registry.Access.{
  require_verified, get_mesh_or_404, require_mesh_ownership, owns_mesh,
}

pub record MeshView : Type 0 where
  pub id : String
  pub channel_id : String
  pub psk_b64 : Option String
  pub label : Option String
  pub owner_id : String

-- `to_representation`: the key is shown to the mesh's owner alone.
unfoldable pub mesh_view : String → Mesh → MeshView
mesh_view viewer_id mesh = record {
  id = mesh.id;
  channel_id = mesh.channel_id;
  psk_b64 = if not (str_eq viewer_id mesh.owner_id) then none else some mesh.psk_b64;
  label = mesh.label;
  owner_id = mesh.owner_id;
}

-- The fields of a validated MeshUpdateSerializer: `none` for a field that is absent.
pub record MeshUpdate : Type 0 where
  pub psk_b64 : Option String
  pub label : Option (Option String)

abbrev pub apply_update : MeshUpdate → Mesh → Mesh
apply_update u mesh = record mesh {
  psk_b64 = or_default u.psk_b64 mesh.psk_b64;
  label = or_default u.label mesh.label;
}

abbrev pub live_gateways : String → List Device → List Device
live_gateways mesh_id devices = select is_live_gateway (devices_of mesh_id devices)

abbrev pub rejected_nodes : String → List Device → List Device
rejected_nodes mesh_id devices = select is_rejected_node (devices_of mesh_id devices)

-- The deletions that deregister a list of devices from the decoders.
abbrev pub deregistrations : List Device → List Device → List Message
deregistrations gateways nodes = map gateway_delete gateways ++ map node_unreject nodes

-- `mesh.delete()`, with the devices that go with it.
unfoldable pub delete_mesh : String → World → World
delete_mesh mesh_id w = record w {
  meshes = select (λ (m : Mesh). not (str_eq m.id mesh_id)) w.meshes;
  devices = select (λ (d : Device). not (str_eq d.mesh_id mesh_id)) w.devices;
}

abbrev pub key_changes : MeshUpdate → Mesh → World → List Message
key_changes u updated w =
    if is_some u.psk_b64
    then map (λ gateway. gateway_upsert gateway updated) (live_gateways updated.id w.devices)
    else []

-- The rollback writes the previous key, and nothing else, back.
abbrev pub restore_psk : Mesh → Mesh → World → World
restore_psk previous updated w = record w {
  meshes = save_mesh (record updated { psk_b64 = previous.psk_b64 }) w.meshes;
}

module _ (net : ℕ → Delivery) (caller : Option Owner) where
  unfoldable pub mesh_list : Handler World (List MeshView)
  mesh_list = do
    user ← require_verified caller
    gets (λ w.
        map (mesh_view user.id) (
          if user.is_superuser then w.meshes else select (λ m. str_eq m.owner_id user.id) w.meshes))

  -- The id is the new row's UUID, which the primary key's constraint checks.
  unfoldable pub mesh_create : String → String → String → Option String → Handler World MeshView
  mesh_create id channel_id psk_b64 label = do
    user ← require_verified caller
    meshes ← gets (λ w. w.meshes)
    ensure (not (is_some (mesh_by_pk id meshes))) server_error
    let mesh : Mesh = record {
      id = id;
      channel_id = channel_id;
      psk_b64 = psk_b64;
      label = label;
      owner_id = user.id;
    }
    write (λ w. record w { meshes = w.meshes ++ mesh ∷ [] })
    respond (mesh_view user.id mesh)

  unfoldable pub mesh_get : String → Handler World MeshView
  mesh_get mesh_id = do
    user ← require_verified caller
    mesh ← get_mesh_or_404 mesh_id
    require_mesh_ownership mesh user
    respond (mesh_view user.id mesh)

  unfoldable pub mesh_put : String → MeshUpdate → Handler World MeshView
  mesh_put mesh_id u = do
    user ← require_verified caller
    mesh ← get_mesh_or_404 mesh_id
    require_mesh_ownership mesh user
    let updated = apply_update u mesh
    write (λ w. record w { meshes = save_mesh updated w.meshes })
    changes ← gets (key_changes u updated)
    publish_or_rollback net changes (restore_psk mesh updated)
    respond (mesh_view user.id updated)

  unfoldable pub mesh_delete : String → Handler World (Unit {0})
  mesh_delete mesh_id = do
    user ← require_verified caller
    mesh ← get_mesh_or_404 mesh_id
    require_mesh_ownership mesh user
    messages ←
        gets (λ w.
          deregistrations (live_gateways mesh.id w.devices) (rejected_nodes mesh.id w.devices))
    publish_or_rollback net messages (λ w. w)
    write (delete_mesh mesh.id)
