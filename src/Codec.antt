-- ===== src/Codec.antt =====
-- meshtastic_things/common/codec.py and common/portnum_registry.py: the service envelope, the
-- nonce, the channel key, and the shape of a decoded message. The protobuf classes, AES-CTR and the
-- table of port numbers are third-party: `Library` has them.
pub mod Base64
unfoldable pub use Base64.{b64decode}
use meshtastic_things.Json.{Fields}
use meshtastic_things.Prelude.{
  ℕ, zero, suc, ◌+◌, ◌-◌, ◌/◌, ◌%◌, String, Bool, true, false, not, ◌&&◌, Option, none, some, List,
  [], ◌∷◌, ◌++◌, length, fstring, show, str_eq, ◌==◌, if◌then◌else◌,
}

abbrev pub Bytes : Type 0
Bytes = List ℕ

-- mesh_pb2.Data
pub record Data : Type 0 where
  pub portnum : ℕ
  pub payload : Bytes

-- The `payload_variant` of a MeshPacket: one field of the two, or none.
pub data Variant : Type 0 where
  unset : Variant
  encrypted : Bytes → Variant
  decoded : Data → Variant

pub record MeshPacket : Type 0 where
  pub sender : ℕ
  pub id : ℕ
  pub rx_time : ℕ
  pub hop_start : ℕ
  pub variant : Variant

pub record ServiceEnvelope : Type 0 where
  pub packet : MeshPacket
  pub channel_id : String
  pub gateway_id : String

-- The third-party code: `none` is a raised exception, but for `handler`, the lookup in
-- meshtastic's `protocols` of a port number with a protobuf factory.
pub record Library : Type 1 where
  pub Number : Type 0
  pub is_zero : Number → Bool
  pub div_1e7 : Number → Number
  pub parse_envelope : Bytes → Option ServiceEnvelope
  pub aes_ctr : Bytes → Bytes → Bytes → Option Bytes
  pub parse_data : Bytes → Option Data
  pub Message : Type 0
  pub handler : ℕ → Option (Bytes → Option Message)
  pub message_to_dict : Message → Fields Number
  pub which_oneof : Message → Option String
  pub position_app : ℕ
  pub nodeinfo_app : ℕ
  pub telemetry_app : ℕ

-- What a step of the decoder does: it raises, it drops the packet with a reason, or it passes on.
pub data Step {ℓ} (A : Type ℓ) : Type ℓ where
  raised : Step A
  dropped : String → Step A
  passed : A → Step A

infixl 5 ◌>>=◌
abbrev pub ◌>>=◌ {ℓ κ} : {A : Type ℓ} {B : Type κ} → Step A → (A → Step B) → Step B
raised >>= f = raised
dropped reason >>= f = dropped reason
passed a >>= f = f a

abbrev pub or_raise {ℓ} : {A : Type ℓ} → Option A → Step A
or_raise none = raised
or_raise (some a) = passed a

-- _DEFAULT_CHANNEL_KEY, without its last byte.
abbrev pub default_channel_key_init : Bytes
default_channel_key_init =
    0xD4 ∷ 0xF1 ∷ 0xBB ∷ 0x3A ∷ 0x20 ∷ 0x29 ∷ 0x07 ∷ 0x59 ∷ 0xF0 ∷ 0xBC ∷ 0xFF ∷ 0xAB ∷ 0xCF ∷ 0x4E
    ∷ 0x69 ∷ []

-- `decode_psk`, once the text is decoded.
expand_psk : Bytes → Option Bytes
expand_psk (index ∷ []) =
    if index == 0 then none else some (default_channel_key_init ++ ((0x01 + index - 1) % 256) ∷ [])
expand_psk raw = some raw

-- The outer `none` is an exception of `b64decode`.
unfoldable pub decode_psk : String → Option (Option Bytes)
unfolding expand_psk
decode_psk key_b64 =
    if str_eq key_b64 ""
    then some none
    else elim (b64decode key_b64) [ none ↦ none | some raw ↦ some (expand_psk raw) ]

-- `n.to_bytes(width, "little")`, for an `n` that fits.
unfoldable pub to_bytes : ℕ → ℕ → Bytes
to_bytes zero n = []
to_bytes (suc width) n = n % 256 ∷ to_bytes width (n / 256)

unfoldable pub nonce : MeshPacket → Bytes
unfolding to_bytes
nonce mp = to_bytes 8 mp.id ++ to_bytes 8 mp.sender

pub record DecodedMessage (N : Type 0) : Type 0 where
  pub node_id : ℕ
  pub packet_id : ℕ
  pub portnum : ℕ
  pub rx_time : ℕ
  pub hop_start : ℕ
  pub channel_id : String
  pub gateway_id : String
  pub payload_kind : String
  pub payload : Fields N
  pub mesh_id : Option String

module _ (lib : Library) where
  open lib use {Number, aes_ctr, parse_data, Message, handler, message_to_dict, which_oneof}
  open lib use {position_app, nodeinfo_app, telemetry_app, parse_envelope}

  -- Any exception is a None.
  unfoldable pub decrypt_packet : MeshPacket → Bytes → Option Bytes → Option Data
  unfolding nonce
  decrypt_packet mp cipher none = none
  decrypt_packet mp cipher (some []) = none
  decrypt_packet mp cipher (some (b ∷ key)) = elim (aes_ctr (b ∷ key) (nonce mp) cipher) [
    | none ↦ none
    | some plain ↦ parse_data plain
  ]

  -- portnum_registry.classify
  unfoldable pub classify : ℕ → Message → String
  classify portnum pb =
      if portnum == telemetry_app
      then (elim (which_oneof pb) [
        | none ↦ "telemetry"
        | some variant ↦
            if str_eq variant "" then "telemetry" else fstring ("telemetry:" ∷ variant ∷ [])
      ])
      else if portnum == nodeinfo_app
      then "nodeinfo"
      else if portnum == position_app
      then "position"
      else fstring ("portnum:" ∷ show portnum ∷ [])

  abbrev protobuf_handler : ℕ → Option (Bytes → Option Message)
  protobuf_handler portnum = if portnum == 0 then none else handler portnum

  abbrev no_schema : ℕ → String
  no_schema portnum =
      fstring ("portnum " ∷ show portnum ∷ " has no protobuf schema, nothing to store" ∷ [])

  -- `decode_payload`, with the drop of a None result that both callers make.
  unfoldable pub decode_payload : Variant → Step (ℕ × Fields Number × String)
  unfolding classify
  decode_payload (decoded data') = elim (protobuf_handler data'.portnum) [
    | none ↦ dropped (no_schema data'.portnum)
    | some factory ↦ elim (factory data'.payload) [
      | none ↦ raised
      | some pb ↦ passed (data'.portnum, message_to_dict pb, classify data'.portnum pb)
    ]
  ]
  decode_payload _ = dropped (no_schema 0)

  unfoldable pub build_decoded_message :
      ServiceEnvelope → ℕ → Fields Number → String → DecodedMessage Number
  build_decoded_message se portnum pb_dict payload_kind = record {
    node_id = se.packet.sender;
    packet_id = se.packet.id;
    portnum = portnum;
    rx_time = se.packet.rx_time;
    hop_start = se.packet.hop_start;
    channel_id = se.channel_id;
    gateway_id = se.gateway_id;
    payload_kind = payload_kind;
    payload = pb_dict;
    mesh_id = none;
  }

  -- The decryption in place: `mp.decoded.CopyFrom(...)` clears the encrypted bytes.
  unfoldable pub open_variant : MeshPacket → Option Bytes → String → Variant → Step Variant
  unfolding decrypt_packet
  open_variant mp key reason (encrypted cipher) = elim (decrypt_packet mp cipher key) [
    | none ↦ dropped reason
    | some data' ↦ passed (decoded data')
  ]
  open_variant mp key reason variant = passed variant

  -- `decode_message`, where a None result is a drop.
  unfoldable pub decode_message : Bytes → Option Bytes → Step (DecodedMessage Number)
  unfolding open_variant decode_payload build_decoded_message
  decode_message raw key = do
    se ← or_raise (parse_envelope raw)
    variant ← open_variant se.packet key "" se.packet.variant
    result ← decode_payload variant
    passed (build_decoded_message se result.0 result.1 result.2)
