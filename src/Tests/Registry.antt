-- ===== src/Tests/Registry.antt =====
-- The theorems on the registry, on a small world.
use meshtastic_things.Prelude.{
  true, false, ◌≡◌, ◌≢◌, refl, inl, none, some, List, [], ◌∷◌, ◌++◌, show, hex8,
}
use meshtastic_things.Kafka.{send}
use meshtastic_things.Codec.{passed}
use meshtastic_things.Decode.{decode_packet}
use meshtastic_things.Config.{lite_replay}
use meshtastic_things.Registry.Models.{Message, World, mesh_by_pk, save_mesh}
use meshtastic_things.Registry.Requests.{ok, ◌>>=◌}
use meshtastic_things.Registry.Publisher.{
  gateway_upsert, gateway_kafka_key, node_reject, node_rejection_kafka_key, publish, publish_each,
}
use meshtastic_things.Registry.Publisher.Sending.{IsReliable}
use meshtastic_things.Registry.Access.{require_verified}
use meshtastic_things.Registry.Meshes.{
  MeshView, MeshUpdate, mesh_view, mesh_list, mesh_put, apply_update, key_changes,
}
use meshtastic_things.Registry.Meshes.Rollback.{mesh_put-stale_key, row_key, decoder_key}
use meshtastic_things.Registry.Devices.{
  DeviceCreate, DeviceView, DeviceFilter, device_view, device_list, owner_of_mesh,
}
use meshtastic_things.Registry.Decoders.{decoder, gateways}
use meshtastic_things.Registry.Decoders.Rejection.{node_reject-dropped}
use meshtastic_things.Registry.Soundness.{Sound}
use meshtastic_things.Registry.Privacy.{mesh_list-psk, device_list-admin_keys}
use meshtastic_things.Registry.Service.{
  post_mesh, post_device, delete_mesh, handle, Reachable, start, step,
}
use meshtastic_things.Registry.Service.Invariant.{handle-Sound, Reachable-Sound}
use meshtastic_things.Registry.Service.Permissions.{is_permitted, handle-refused}
use meshtastic_things.Tests.Data.{
  events, library, envelope, always_acked, one_acked, ann, bob, home, gateway, second_gateway, node,
  empty_world, world, home_state,
}

reliable : IsReliable always_acked
reliable n = cc

abbrev request : DeviceCreate
request = record {
  device_id = 255;
  mesh_id = "mesh-1";
  is_gateway = true;
  label = none;
  admin_keys_b64 = [];
  latitude = none;
  longitude = none;
  name = none;
  short_name = none;
  hardware_type = none;
  role = none;
}

-- The mesh is created, and its gateway.
abbrev with_mesh : World
with_mesh = handle always_acked (some ann) (post_mesh "mesh-1" "LongFast" "AQ==" none) empty_world

Reachable-with_mesh : Reachable always_acked with_mesh
Reachable-with_mesh =
    step (some ann) (post_mesh "mesh-1" "LongFast" "AQ==" none) empty_world
      (start empty_world refl refl)

Reachable-Sound_example :
    Sound (handle always_acked (some ann) (post_device "device-1" request) with_mesh)
Reachable-Sound_example =
    Reachable-Sound always_acked
      (handle always_acked (some ann) (post_device "device-1" request) with_mesh) reliable
      (step (some ann) (post_device "device-1" request) with_mesh Reachable-with_mesh)

handle-Sound_example :
    Sound (handle always_acked (some ann) (post_device "device-1" request) with_mesh)
handle-Sound_example =
    handle-Sound always_acked (some ann) (post_device "device-1" request) with_mesh reliable
      (Reachable-Sound always_acked with_mesh reliable Reachable-with_mesh)

not_permitted : is_permitted (some bob) (delete_mesh "mesh-1") world ≡ false
unfolding is_permitted
not_permitted = refl

handle-refused_example : handle always_acked (some bob) (delete_mesh "mesh-1") world ≡ world
handle-refused_example =
    handle-refused always_acked (some bob) (delete_mesh "mesh-1") world not_permitted

abbrev published : List Message
published = gateway_upsert gateway home ∷ []

known_gateway :
    (decoder (published ++ node_reject node ∷ [])).gateway_state "!000000ff" ≡ some home_state
unfolding decoder lite_replay gateway_upsert gateway_kafka_key node_reject node_rejection_kafka_key
    hex8 show
known_gateway = refl

-- The rejected node 9 sends through the gateway of its mesh.
node_reject-dropped_example :
    decode_packet library
      (9 ∷ [])
      (decoder (published ++ node_reject node ∷ [])).gateway_state
      (decoder (published ++ node_reject node ∷ [])).rejected_nodes
    ≢ passed events
node_reject-dropped_example =
    node_reject-dropped library published node (9 ∷ []) (envelope 9) home_state events refl
      known_gateway refl refl refl

abbrev update : MeshUpdate
update = record { psk_b64 = some "Ag=="; label = none }

half_published :
    (publish_each one_acked
      (key_changes update
        (apply_update update home)
        (record world { meshes = save_mesh (apply_update update home) world.meshes }))
      (record world { meshes = save_mesh (apply_update update home) world.meshes })).1
    ≡ false
unfolding publish_each publish send save_mesh
half_published = refl

mesh_put-stale_key_example :
    let w' = (mesh_put one_acked (some ann) "mesh-1" update world).1 in
    (row_key (mesh_by_pk "mesh-1" w'.meshes) ≡ some "AQ==")
    × (decoder_key (gateways w'.producer.log (gateway_kafka_key gateway)) ≡ some "Ag==")
mesh_put-stale_key_example =
    mesh_put-stale_key one_acked ann home "mesh-1" "Ag==" update gateway (second_gateway ∷ []) world
      refl refl refl refl refl refl half_published

abbrev home_view : MeshView
home_view = record {
  id = "mesh-1";
  channel_id = "LongFast";
  psk_b64 = some "AQ==";
  label = none;
  owner_id = "owner-1";
}

listed_meshes : (mesh_list always_acked (some ann) world).0 ≡ ok (home_view ∷ [])
unfolding mesh_list mesh_view require_verified ◌>>=◌
listed_meshes = refl

mesh_list-psk_example : home_view.owner_id ≡ "owner-1"
mesh_list-psk_example =
    mesh_list-psk ann always_acked world (home_view ∷ []) home_view listed_meshes (inl refl) cc

abbrev nodes_only : DeviceFilter
nodes_only = record {
  mesh_id = none;
  is_gateway = some false;
  is_allowed = none;
  has_postprocessing = none;
}

abbrev node_view : DeviceView
node_view = record {
  id = "device-3";
  device_id = 9;
  mesh_id = "mesh-1";
  label = none;
  is_gateway = false;
  is_allowed = false;
  admin_keys_b64 = some ("YWRtaW4=" ∷ []);
  latitude = none;
  longitude = none;
  location_overridden = false;
  name = none;
  short_name = none;
  hardware_type = none;
  role = none;
  nodeinfo_overridden = false;
  postprocessing_blueprint_id = none;
  reading_interval_seconds = none;
  publish_interval_seconds = none;
  last_seen = none;
}

listed_devices : (device_list always_acked (some ann) nodes_only world).0 ≡ ok (node_view ∷ [])
unfolding device_list device_view require_verified ◌>>=◌
listed_devices = refl

device_list-admin_keys_example : owner_of_mesh (mesh_by_pk "mesh-1" world.meshes) ≡ "owner-1"
device_list-admin_keys_example =
    device_list-admin_keys ann always_acked world nodes_only (node_view ∷ []) node_view
      listed_devices (inl refl) cc
