-- ===== src/Registry/Publisher.antt =====
-- keyapi/registry/kafka_publisher.py: the events for the decoders, and their keys. Of an event the
-- fields that a consumer reads are kept; `updated_at` and the copies of the key are left out.
pub mod Sending
use meshtastic_things.Prelude.{
  ℕ, String, Bool, true, false, not, ◌&&◌, Option, none, some, List, [], ◌∷◌, fstring, show, hex8,
  is_some, if◌then◌else◌,
}
use meshtastic_things.Kafka.{Delivery, send}
use meshtastic_things.Config.{Event}
use meshtastic_things.Registry.Requests.{Handler, ok, raise, bad_gateway}
use meshtastic_things.Registry.Models.{
  Mesh, Device, IntervalsEvent, Message, keys, node_rejections, owner_auth_revocations,
  quality_config, World,
}

-- e.g. 0xaabbccdd -> "!aabbccdd", as ServiceEnvelope.gateway_id
unfoldable pub gateway_kafka_key : Device → String
gateway_kafka_key device = fstring ("!" ∷ hex8 device.device_id ∷ [])

unfoldable pub node_rejection_kafka_key : Device → String
node_rejection_kafka_key device = fstring (device.mesh_id ∷ ":" ∷ show device.device_id ∷ [])

unfoldable pub device_intervals_kafka_key : Device → String
device_intervals_kafka_key device = fstring (device.mesh_id ∷ ":" ∷ show device.device_id ∷ [])

-- The psk comes from the mesh that is passed, the mesh id from the device.
unfoldable pub gateway_upsert : Device → Mesh → Message
gateway_upsert device mesh = keys (record {
  kind = some "gateway_key";
  key = some (gateway_kafka_key device);
  op = some "upsert";
  psk_b64 = some mesh.psk_b64;
  mesh_id = some device.mesh_id;
})

unfoldable pub gateway_delete : Device → Message
gateway_delete device = keys (record {
  kind = some "gateway_key";
  key = some (gateway_kafka_key device);
  op = some "delete";
  psk_b64 = none;
  mesh_id = some device.mesh_id;
})

abbrev rejection_event : String → Device → Message
rejection_event op device = node_rejections (record {
  kind = some "node_rejection";
  key = some (node_rejection_kafka_key device);
  op = some op;
  psk_b64 = none;
  mesh_id = some device.mesh_id;
})

unfoldable pub node_reject : Device → Message
node_reject device = rejection_event "upsert" device

unfoldable pub node_unreject : Device → Message
node_unreject device = rejection_event "delete" device

unfoldable pub device_intervals : Device → Message
unfolding device_intervals_kafka_key
device_intervals device = quality_config (record {
  key = device_intervals_kafka_key device;
  mesh_id = device.mesh_id;
  device_id = device.device_id;
  reading_interval_seconds = device.reading_interval_seconds;
  publish_interval_seconds = device.publish_interval_seconds;
  op =
      if not (is_some device.reading_interval_seconds)
        && not (is_some device.publish_interval_seconds)
      then "delete"
      else "upsert";
})

-- One publication: the new state, and whether it returned.
unfoldable pub publish : (ℕ → Delivery) → Message → World → World × Bool
publish net m w = let (p, sent) = send net m w.producer in (record w { producer = p }, sent)

-- Publications in order, up to the first that raises.
unfoldable pub publish_each : (ℕ → Delivery) → List Message → World → World × Bool
publish_each net [] w = (w, true)
publish_each net (m ∷ ms) w =
    let (w', sent) = publish net m w in
    elim sent [ true ↦ publish_each net ms w' | false ↦ (w', false) ]

-- Publications in order; the first that raises ends the request, after `rollback`.
unfoldable pub publish_or_rollback :
    (ℕ → Delivery) → List Message → (World → World) → Handler World (Unit {0})
publish_or_rollback net ms rollback w =
    let (w', sent) = publish_each net ms w in
    if sent then (ok tt, w') else (raise bad_gateway, rollback w')

-- A publication whose failure is logged and goes no further.
unfoldable pub publish_best_effort : (ℕ → Delivery) → Message → Handler World (Unit {0})
publish_best_effort net m w = (ok tt, (publish net m w).0)
