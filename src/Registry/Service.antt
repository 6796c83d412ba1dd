-- ===== src/Registry/Service.antt =====
-- The registry as a whole: the requests on meshes and devices, each with its caller, and the worlds
-- that a sequence of them reaches. Read requests change nothing and are left out.
pub mod Invariant
pub mod Permissions
use meshtastic_things.Prelude.{ℕ, ◌≡◌, String, Option, List, [], ◌∷◌}
use meshtastic_things.Kafka.{Delivery, Producer}
use meshtastic_things.Registry.Models.{Owner, Blueprint, Message, World}
use meshtastic_things.Registry.Meshes.{MeshUpdate, mesh_create, mesh_put, mesh_delete}
use meshtastic_things.Registry.Owners.{owner_me_delete}
use meshtastic_things.Registry.Sightings.{SightingEvent, consume_sighting}
use meshtastic_things.Registry.Devices.{
  DeviceCreate, DeviceUpdate, device_create, device_put, device_delete,
}

pub data Request : Type 0 where
  post_mesh : String → String → String → Option String → Request
  put_mesh : String → MeshUpdate → Request
  delete_mesh : String → Request
  post_device : String → DeviceCreate → Request
  put_device : String → DeviceUpdate → Request
  delete_device : String → Request
  delete_me : Request

-- The world after a request, whether it was answered or raised.
unfoldable pub handle : (ℕ → Delivery) → Option Owner → Request → World → World
handle net caller (post_mesh id channel_id psk_b64 label) w =
    (mesh_create net caller id channel_id psk_b64 label w).1
handle net caller (put_mesh id u) w = (mesh_put net caller id u w).1
handle net caller (delete_mesh id) w = (mesh_delete net caller id w).1
handle net caller (post_device id request) w = (device_create net caller id request w).1
handle net caller (put_device id u) w = (device_put net caller id u w).1
handle net caller (delete_device id) w = (device_delete net caller id w).1
handle net caller delete_me w = (owner_me_delete net caller w).1

-- The worlds reached from a registry with no device and no event, by requests of any callers, by
-- the sightings of nodes, and by other changes of the owners and the blueprints.
pub data Reachable (net : ℕ → Delivery) : World → Type 0 where
  start : (w : World) → w.devices ≡ [] → w.producer.log ≡ [] → Reachable net w
  step :
      (caller : Option Owner) (request : Request) (w : World)
      → Reachable net w
      → Reachable net (handle net caller request w)
  sighted :
      (id : String) (now : ℕ) (e : SightingEvent) (w : World)
      → Reachable net w
      → Reachable net (consume_sighting id now e w)
  others :
      (owners : List Owner) (blueprints : List Blueprint) (w : World)
      → Reachable net w
      → Reachable net (record w { owners = owners; blueprints = blueprints })
