-- ===== src/Tests/Data.antt =====
-- A small library of third-party code, packets for it, and a registry with one owner and one mesh.
use meshtastic_things.Prelude.{
  ℕ, ◌/◌, true, false, Option, none, some, [], ◌∷◌, ◌==◌, str_eq, if◌then◌else◌,
}
use meshtastic_things.Json.{Fields, end, field, number}
use meshtastic_things.Kafka.{Delivery, acked, lost}
use meshtastic_things.Codec.{Bytes, Library, ServiceEnvelope, decoded}
use meshtastic_things.Decode.{GatewayState, Events}
use meshtastic_things.Config.{LiteState}
use meshtastic_things.Registry.Models.{Owner, Mesh, Device, World}

-- A packet of one byte is its sender's; the sender 1 sends a portnum that has no schema.
abbrev pub envelope : ℕ → ServiceEnvelope
envelope n = record {
  packet = record {
    sender = n;
    id = 7;
    rx_time = 100;
    hop_start = 3;
    variant = decoded (record { portnum = if n == 1 then 1 else 3; payload = [] });
  };
  channel_id = "LongFast";
  gateway_id = "!000000ff";
}

abbrev pub parse : Bytes → Option ServiceEnvelope
parse (n ∷ []) = some (envelope n)
parse _ = none

abbrev pub position : Fields ℕ
position = field "latitude_i" (number 10000000) (field "longitude_i" (number 20000000) end)

abbrev pub library : Library
library = record {
  Number = ℕ;
  is_zero = λ n. n == 0;
  div_1e7 = λ n. n / 10000000;
  parse_envelope = parse;
  aes_ctr = λ key nonce cipher. some cipher;
  parse_data = λ plain. some (record { portnum = 3; payload = plain });
  Message = Bytes;
  handler = λ portnum. if portnum == 3 then some (λ payload. some payload) else none;
  message_to_dict = λ message. position;
  which_oneof = λ message. none;
  position_app = 3;
  nodeinfo_app = 4;
  telemetry_app = 67;
}

abbrev pub always_acked : ℕ → Delivery
always_acked n = acked

-- The first attempt succeeds, the others are lost.
abbrev pub one_acked : ℕ → Delivery
one_acked n = if n == 0 then acked else lost

abbrev pub always_lost : ℕ → Delivery
always_lost n = lost

abbrev pub ann : Owner
ann = record {
  id = "owner-1";
  email = "ann@example.org";
  name = "Ann";
  password = some "secret";
  api_key_hash = some "key-1";
  is_staff = false;
  is_superuser = false;
  is_active = true;
  email_verified_at = some 1;
  email_verification_token_hash = none;
  email_verification_sent_at = none;
  password_reset_token_hash = some "reset-1";
  password_reset_sent_at = some 100;
}

-- Another owner, who has no mesh.
abbrev pub bob : Owner
bob = record ann {
  id = "owner-2";
  email = "bob@example.org";
  name = "Bob";
  api_key_hash = some "key-2";
  password_reset_token_hash = none;
}

abbrev pub home : Mesh
home = record {
  id = "mesh-1";
  channel_id = "LongFast";
  psk_b64 = "AQ==";
  label = none;
  owner_id = "owner-1";
}

abbrev pub gateway : Device
gateway = record {
  id = "device-1";
  device_id = 255;
  mesh_id = "mesh-1";
  label = none;
  is_gateway = true;
  is_allowed = true;
  admin_keys_b64 = "YWRtaW4=" ∷ [];
  postprocessing_blueprint_id = none;
  reading_interval_seconds = none;
  publish_interval_seconds = none;
  latitude = none;
  longitude = none;
  location_overridden = false;
  name = none;
  short_name = none;
  hardware_type = none;
  role = none;
  nodeinfo_overridden = false;
  last_seen = none;
}

abbrev pub second_gateway : Device
second_gateway = record gateway { id = "device-2"; device_id = 254 }

-- A node that is rejected.
abbrev pub node : Device
node = record gateway { id = "device-3"; device_id = 9; is_gateway = false; is_allowed = false }

abbrev pub empty_world : World
empty_world = record {
  owners = ann ∷ bob ∷ [];
  meshes = [];
  devices = [];
  blueprints = [];
  producer = record { log = []; attempts = 0 };
}

abbrev pub world : World
world = record empty_world { meshes = home ∷ []; devices = gateway ∷ second_gateway ∷ node ∷ [] }

abbrev pub home_state : GatewayState
home_state = record { psk_b64 = "AQ=="; mesh_id = some "mesh-1" }

abbrev pub config : LiteState
config = record {
  gateway_state = λ k. if str_eq k "!000000ff" then some home_state else none;
  rejected_nodes = λ k. str_eq k "mesh-1:9";
}

-- The events of the packet of node 5.
abbrev pub events : Events ℕ
events = record {
  decoded = record {
    node_id = 5;
    packet_id = 7;
    portnum = 3;
    rx_time = 100;
    hop_start = 3;
    channel_id = "LongFast";
    gateway_id = "!000000ff";
    payload_kind = "position";
    payload = position;
    mesh_id = some "mesh-1";
  };
  sighting = some (record {
    key = "mesh-1:5";
    mesh_id = "mesh-1";
    device_id = 5;
    latitude = some 1;
    longitude = some 2;
    name = none;
    short_name = none;
    hardware_type = none;
    role = none;
  });
  discovery = none;
}
