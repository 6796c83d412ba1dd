-- ===== src/Registry/Service/Invariant.antt =====
-- What holds of every world that the registry reaches.
use meshtastic_things.Prelude.{ℕ, arith, String, ◌≡◌, Option, some, []}
use meshtastic_things.Kafka.{Delivery}
use meshtastic_things.Registry.Models.{Owner, World}
use meshtastic_things.Registry.Requests.Ends.{Ends-either}
use meshtastic_things.Registry.Publisher.Sending.{IsReliable}
use meshtastic_things.Decode.{GatewayState}
use meshtastic_things.Config.{lite_replay}
use meshtastic_things.Registry.Decoders.{gateways, decoder}
use meshtastic_things.Registry.Soundness.{Sound}
use meshtastic_things.Registry.Soundness.Meshes.{
  mesh_create-Sound, mesh_put-Sound, mesh_delete-Sound,
}
use meshtastic_things.Registry.Soundness.Devices.{device_create-Sound}
use meshtastic_things.Registry.Soundness.Devices.Updating.{device_put-Sound}
use meshtastic_things.Registry.Soundness.Devices.Deleting.{device_delete-Sound}
use meshtastic_things.Registry.Soundness.Owners.{owner_me_delete-Sound}
use meshtastic_things.Registry.Soundness.Sightings.{consume_sighting-Sound}
use meshtastic_things.Registry.Service.{
  Request, post_mesh, put_mesh, delete_mesh, post_device, put_device, delete_device, delete_me,
  handle, Reachable, start, step, sighted, others,
}

-- Every request keeps the table's constraints, and keeps every gateway that the decoders accept an allowed gateway of
-- the table on its mesh, whether the request is answered or raises and whichever events are lost, where no event
-- whose loss is reported has been delivered.
pub handle-Sound :
    (net : ℕ → Delivery) (caller : Option Owner) (request : Request) (w : World)
    → IsReliable net
    → Sound w
    → Sound (handle net caller request w)
unfolding handle
handle-Sound net caller (post_mesh id channel_id psk_b64 label) w reliable s =
    Ends-either _ (mesh_create-Sound net caller id channel_id psk_b64 label w s)
handle-Sound net caller (put_mesh id u) w reliable s =
    Ends-either _ (mesh_put-Sound net caller id u w s)
handle-Sound net caller (delete_mesh id) w reliable s =
    Ends-either _ (mesh_delete-Sound net caller id w s)
handle-Sound net caller (post_device id request) w reliable s =
    Ends-either _ (device_create-Sound net caller reliable id request w s)
handle-Sound net caller (put_device id u) w reliable s =
    Ends-either _ (device_put-Sound net caller reliable id u w s)
handle-Sound net caller (delete_device id) w reliable s =
    Ends-either _ (device_delete-Sound net caller id w s)
handle-Sound net caller delete_me w reliable s =
    Ends-either _ (owner_me_delete-Sound net caller w s)

nothing : (k : String) (st : GatewayState) → gateways [] k ≡ some st → ⊥
unfolding decoder lite_replay
nothing k st e = ground arith

-- Provided that a send that raises has delivered nothing (no event arrives whose loss was reported
-- to the sender): in every world that a registry without devices and events reaches by requests and
-- sightings, each gateway that the decoders accept is an allowed gateway of the table, on the mesh
-- that they file its packets under, and no two rows are allowed registrations of the same device.
pub Reachable-Sound : (net : ℕ → Delivery) (w : World) → IsReliable net → Reachable net w → Sound w
Reachable-Sound net w reliable (start _ no_devices no_events) = record {
  consistent = rw no_devices (record { pk = λ d e i j. absurd i; allowed = λ d e i j. absurd i });
  covers = rw (no_devices, no_events) (record { at = λ k st e. absurd (nothing k st e) });
}
Reachable-Sound net _ reliable (step caller request w r) =
    handle-Sound net caller request w reliable (Reachable-Sound net w reliable r)
Reachable-Sound net _ reliable (sighted id now e w r) =
    consume_sighting-Sound id now e w (Reachable-Sound net w reliable r)
Reachable-Sound net _ reliable (others owners blueprints w r) =
    let s = Reachable-Sound net w reliable r in
    record { consistent = s.consistent; covers = s.covers }
