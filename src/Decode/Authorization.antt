-- ===== src/Decode/Authorization.antt =====
-- A packet is decoded only through a registered gateway and from a node that is not rejected.
use meshtastic_things.Prelude.{
  ◌≡◌, refl, inl, inr, String, Bool, true, false, Option, none, some, arith, str_eq, if◌then◌else◌,
  Bool-cases,
}
use meshtastic_things.Dict.{Dict}
use meshtastic_things.Codec.{
  Bytes, Library, ServiceEnvelope, Step, raised, dropped, passed, ◌>>=◌, or_raise, DecodedMessage,
  decode_psk, open_variant, decode_payload, build_decoded_message,
}
use meshtastic_things.Decode.{
  GatewayState, Events, build_events, gateway_id_of, registered, is_rejected, admitted, drop_if,
  undecryptable, decode_packet,
}

bind-eq-passed {ℓ κ} :
    {A : Type ℓ} {B : Type κ} (m : Step A) (f : A → Step B) {b : B}
    → (m >>= f) ≡ passed b
    → (a : A) × (m ≡ passed a) × (f a ≡ passed b)
bind-eq-passed raised f e = cc
bind-eq-passed (dropped reason) f e = cc
bind-eq-passed (passed a) f e = (a, refl, e)

-- The mesh of a gateway, where one is named.
abbrev pub named : Option String → Option String
named none = none
named (some mesh_id) = if str_eq mesh_id "" then none else some mesh_id

module _ (lib : Library) where
  open lib use {Number, parse_envelope}

  -- What is known of a packet that was decoded.
  pub record IsAuthorized (raw : Bytes) (gateways : Dict GatewayState) (rejected : String → Bool)
      (events : Events Number) : Type 0 where
    pub se : ServiceEnvelope
    pub state : GatewayState
    pub parsed : parse_envelope raw ≡ some se
    pub known : gateways (gateway_id_of lib se) ≡ some state
    pub accepted : is_rejected lib state.mesh_id se.packet.sender rejected ≡ false
    pub node : events.decoded.node_id ≡ se.packet.sender
    pub gateway : events.decoded.gateway_id ≡ se.gateway_id
    pub mesh : events.decoded.mesh_id ≡ named state.mesh_id

  build_events-decoded :
      (mesh_id : Option String) (d : DecodedMessage Number) (events : Events Number)
      → d.mesh_id ≡ none
      → build_events lib mesh_id d ≡ passed events
      → (events.decoded.node_id ≡ d.node_id)
        × (events.decoded.gateway_id ≡ d.gateway_id)
        × (events.decoded.mesh_id ≡ named mesh_id)
  unfolding build_events
  build_events-decoded none d events bare e = ground arith
  build_events-decoded (some mesh_id) d events bare e = elim (Bool-cases (str_eq mesh_id "")) [
    | inl blank ↦ ground arith
    | inr named ↦ ground arith
  ]

  registered_lem :
      (gateway_id : String) (found : Option GatewayState) (state : GatewayState)
      → registered lib gateway_id found ≡ passed state
      → found ≡ some state
  registered_lem gateway_id found state e = ground arith

  drop_if_lem :
      (b : Bool) (reason : String) (u : Unit {0}) → drop_if lib b reason ≡ passed u → b ≡ false
  drop_if_lem true reason u e = cc
  drop_if_lem false reason u e = refl

  or_raise_lem : {A : Type 0} (o : Option A) (a : A) → or_raise o ≡ passed a → o ≡ some a
  or_raise_lem o a e = ground arith

  -- A packet that is decoded came through a registered gateway, from a node that is not on the
  -- rejection list of the gateway's mesh; the decoded event names this node, this gateway and the
  -- gateway's mesh, or no mesh where the gateway has none.
  pub decode_packet-IsAuthorized :
      (raw : Bytes) (gateways : Dict GatewayState) (rejected : String → Bool)
      (events : Events Number)
      → decode_packet lib raw gateways rejected ≡ passed events
      → IsAuthorized raw gateways rejected events
  unfolding decode_packet build_decoded_message
  decode_packet-IsAuthorized raw gateways rejected events e =
      let (se, parsed, e1) = bind-eq-passed (or_raise (parse_envelope raw)) _ e in
      let (state, found, e2) =
        bind-eq-passed (registered lib (gateway_id_of lib se) (gateways (gateway_id_of lib se))) _
          e1 in
      let (key, _, e3) = bind-eq-passed (or_raise (decode_psk state.psk_b64)) _ e2 in
      let (u, passed_on, e4) =
        bind-eq-passed (admitted lib state.mesh_id se.packet.sender rejected) _ e3 in
      let (variant, _, e5) =
        bind-eq-passed
          (open_variant lib se.packet key
            (undecryptable lib se.packet.sender (gateway_id_of lib se)) se.packet.variant)
          _ e4 in
      let (result, _, e6) = bind-eq-passed (decode_payload lib variant) _ e5 in
      let (node, gateway, mesh) =
        build_events-decoded state.mesh_id (build_decoded_message lib se result.0 result.1 result.2)
          events refl e6 in
      record {
        se = se;
        state = state;
        parsed = or_raise_lem _ se parsed;
        known = registered_lem _ _ state found;
        accepted = drop_if_lem _ _ u passed_on;
        node = node;
        gateway = gateway;
        mesh = mesh;
      }
