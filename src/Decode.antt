-- ===== src/Decode.antt =====
-- meshtastic_things/common/decode.py: one raw envelope to its decoded event, the sighting of the
-- node and the discovery of its fields, or the reason for which the packet is dropped.
pub mod Authorization
use text.Mathlib.Text.{starts_with}
use meshtastic_things.Prelude.{
  ℕ, String, Bool, true, false, not, ◌&&◌, Option, none, some, List, [], ◌∷◌, fstring, show,
  split_colon, str_eq, or_default, if◌then◌else◌,
}
use meshtastic_things.Json.{
  Value, dict, Fields, end, field, get, as_number, is_number, truthy, truthy_text,
}
use meshtastic_things.Dict.{Dict}
use meshtastic_things.Codec.{
  Bytes, Library, MeshPacket, ServiceEnvelope, Variant, Step, raised, dropped, passed, ◌>>=◌,
  or_raise, DecodedMessage, decode_psk, open_variant, decode_payload, build_decoded_message,
}

-- What the decoder knows of a registered gateway: {"psk_b64", "mesh_id"}.
pub record GatewayState : Type 0 where
  pub psk_b64 : String
  pub mesh_id : Option String

pub record Sighting (N : Type 0) : Type 0 where
  pub key : String
  pub mesh_id : String
  pub device_id : ℕ
  pub latitude : Option N
  pub longitude : Option N
  pub name : Option (Value N)
  pub short_name : Option (Value N)
  pub hardware_type : Option (Value N)
  pub role : Option (Value N)

pub record Discovery : Type 0 where
  pub mesh_id : String
  pub device_id : ℕ
  pub payload_kind : String
  pub fields : List String

-- The dictionary that `decode_packet` returns.
pub record Events (N : Type 0) : Type 0 where
  pub decoded : DecodedMessage N
  pub sighting : Option (Sighting N)
  pub discovery : Option Discovery

-- `[k for k, v in sub.items() if v is a number]`
pub numeric_keys : {N : Type 0} → Fields N → List String
numeric_keys end = []
numeric_keys (field k v fs) = let rest = numeric_keys fs in if is_number v then k ∷ rest else rest

numeric_keys_of : {N : Type 0} → Option (Value N) → List String
unfolding numeric_keys
numeric_keys_of (some (dict sub)) = numeric_keys sub
numeric_keys_of _ = []

-- `_discovered_fields`
unfoldable pub discovered_fields : {N : Type 0} → String → Fields N → List String
unfolding numeric_keys_of split_colon get
discovered_fields payload_kind payload =
    if starts_with payload_kind "telemetry:"
    then numeric_keys_of (get (or_default (split_colon payload_kind).1 "") payload)
    else []

-- Compound mesh_id:node_id key of the rejection list and of a sighting.
abbrev pub node_key : String → ℕ → String
node_key mesh_id node_id = fstring (mesh_id ∷ ":" ∷ show node_id ∷ [])

abbrev blank_sighting : {N : Type 0} → String → ℕ → Sighting N
blank_sighting mesh_id node_id = record {
  key = node_key mesh_id node_id;
  mesh_id = mesh_id;
  device_id = node_id;
  latitude = none;
  longitude = none;
  name = none;
  short_name = none;
  hardware_type = none;
  role = none;
}

module _ (lib : Library) where
  open lib use {Number, is_zero, div_1e7, parse_envelope}

  -- `lat_i / 1e7`, which raises on what is not a number (the field is a protobuf integer: never a bool).
  scaled : Option (Value Number) → Step Number
  scaled none = raised
  scaled (some v) = elim (as_number v) [ none ↦ raised | some n ↦ passed (div_1e7 n) ]

  abbrev is_present : Option (Value Number) → Bool
  is_present none = false
  is_present (some Value.null) = false
  is_present (some v) = true

  abbrev if_truthy : Option (Value Number) → Option (Value Number)
  if_truthy none = none
  if_truthy (some v) = if truthy is_zero v then some v else none

  -- `_build_sighting`
  unfoldable pub build_sighting : String → DecodedMessage Number → Step (Sighting Number)
  unfolding scaled get
  build_sighting mesh_id decoded =
      let blank = blank_sighting mesh_id decoded.node_id in
      let payload = decoded.payload in
      let positioned = scaled (get "latitude_i" payload) >>= λ lat.
      scaled (get "longitude_i" payload) >>= λ lon.
      passed (record blank { latitude = some lat; longitude = some lon }) in
      if str_eq decoded.payload_kind "position"
      then (if is_present (get "latitude_i" payload) && is_present (get "longitude_i" payload)
          then positioned
          else passed blank)
      else if str_eq decoded.payload_kind "nodeinfo"
      then passed (record blank {
        name = if_truthy (get "long_name" payload);
        short_name = if_truthy (get "short_name" payload);
        hardware_type = if_truthy (get "hw_model" payload);
        role = if_truthy (get "role" payload);
      })
      else passed blank

  -- `_build_discovery`, where there are fields.
  unfoldable pub build_discovery : String → DecodedMessage Number → List String → Option Discovery
  build_discovery mesh_id decoded [] = none
  build_discovery mesh_id decoded (f ∷ fields) = some (record {
    mesh_id = mesh_id;
    device_id = decoded.node_id;
    payload_kind = decoded.payload_kind;
    fields = f ∷ fields;
  })

  -- The events of a decoded message, with the mesh of its gateway where that is known.
  unfoldable pub build_events : Option String → DecodedMessage Number → Step (Events Number)
  unfolding build_sighting discovered_fields build_discovery
  build_events none decoded =
      passed (record { decoded = decoded; sighting = none; discovery = none })
  build_events (some mesh_id) decoded =
      let stamped = record decoded { mesh_id = some mesh_id } in
      if str_eq mesh_id ""
      then passed (record { decoded = decoded; sighting = none; discovery = none })
      else build_sighting mesh_id stamped >>= λ sighting. passed (record {
        decoded = stamped;
        sighting = some sighting;
        discovery =
            build_discovery mesh_id stamped
              (discovered_fields decoded.payload_kind decoded.payload);
      })

  abbrev pub gateway_id_of : ServiceEnvelope → String
  gateway_id_of se = if str_eq se.gateway_id "" then "unparseable" else se.gateway_id

  abbrev drop_if : Bool → String → Step (Unit {0})
  drop_if true reason = dropped reason
  drop_if false reason = passed tt

  abbrev registered : String → Option GatewayState → Step GatewayState
  registered gateway_id none = dropped (fstring ("unregistered gateway " ∷ gateway_id ∷ []))
  registered gateway_id (some state) = passed state

  -- Whether the node of the packet is on the rejection list of the gateway's mesh.
  abbrev pub is_rejected : Option String → ℕ → (String → Bool) → Bool
  is_rejected none node_id rejected = false
  is_rejected (some mesh_id) node_id rejected =
      if str_eq mesh_id "" then false else rejected (node_key mesh_id node_id)

  abbrev admitted : Option String → ℕ → (String → Bool) → Step (Unit {0})
  admitted mesh_id node_id rejected =
      drop_if (is_rejected mesh_id node_id rejected)
        (fstring ("rejected node " ∷ node_key (or_default mesh_id "") node_id ∷ []))

  abbrev undecryptable : ℕ → String → String
  undecryptable node_id gateway_id = fstring (
      "could not decrypt packet from node "
      ∷ show node_id
      ∷ " via gateway "
      ∷ gateway_id
      ∷ "; the mesh key does not match what the channel is transmitting with"
      ∷ [])

  -- `decode_packet`: `gateways` is `gateway_state`, and `rejected` the membership test.
  unfoldable pub decode_packet : Bytes → Dict GatewayState → (String → Bool) → Step (Events Number)
  unfolding build_events open_variant decode_payload build_decoded_message decode_psk
  decode_packet raw gateways rejected = do
    se ← or_raise (parse_envelope raw)
    state ← registered (gateway_id_of se) (gateways (gateway_id_of se))
    key ← or_raise (decode_psk state.psk_b64)
    ok ← admitted state.mesh_id se.packet.sender rejected
    variant ←
        open_variant lib se.packet key (undecryptable se.packet.sender (gateway_id_of se))
          se.packet.variant
    result ← decode_payload lib variant
    build_events state.mesh_id (build_decoded_message lib se result.0 result.1 result.2)
