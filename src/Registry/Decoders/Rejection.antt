-- ===== src/Registry/Decoders/Rejection.antt =====
-- From the registry's rejection of a node to the packets that a decoder drops, and what a change
-- of a mesh's key that is not completed leaves with the decoders.
use text.Mathlib.TextLemmas.{cons-append, nil-append, cons≢nil}
use meshtastic_things.Prelude.{
  ℕ, String, true, false, ◌≡◌, ◌≢◌, sym, ap, ◌∙◌, some, List, [], ◌∷◌, ◌++◌, arith, str_eq, eq_iff,
  eq_refl, fstring, show, Bool-cases, inl, inr,
}
use meshtastic_things.Codec.{Bytes, Library, ServiceEnvelope, passed}
use meshtastic_things.Decode.{
  GatewayState, Events, node_key, decode_packet, gateway_id_of, is_rejected,
}
use meshtastic_things.Decode.Authorization.{decode_packet-IsAuthorized}
use meshtastic_things.Config.{LiteState, lite_replay}
use meshtastic_things.Registry.Models.{Device, Message}
use meshtastic_things.Registry.Publisher.{node_reject, node_unreject, node_rejection_kafka_key}
use meshtastic_things.Registry.Decoders.{decoder}
use meshtastic_things.Registry.Decoders.Steps.{decoder-append}

node_key-nonempty : (mesh_id : String) (n : ℕ) → str_eq (node_key mesh_id n) "" ≡ false
node_key-nonempty mesh_id n = elim (Bool-cases (str_eq (node_key mesh_id n) "")) [
  | inl same ↦ absurd (never mesh_id (show n) ((eq_iff _ "").0 same))
  | inr other ↦ other
]
  where
    never : (s t : String) → fstring (s ∷ ":" ∷ t ∷ []) ≢ ""
    never String.[] t e = cons≢nil (sym (cons-append ":" "" t) ∙ sym (nil-append _) ∙ e)
    never (String.◌∷◌ c s) t e = cons≢nil (sym (cons-append c s _) ∙ e)

pub node_reject-rejected :
    (log : List Message) (d : Device)
    → (decoder (log ++ node_reject d ∷ [])).rejected_nodes (node_key d.mesh_id d.device_id) ≡ true
unfolding node_reject node_rejection_kafka_key lite_replay
node_reject-rejected log d =
    ap (λ (s : LiteState). s.rejected_nodes (node_key d.mesh_id d.device_id))
      (decoder-append log (node_reject d ∷ []))
    ∙ ground
        (arith, node_key-nonempty d.mesh_id d.device_id, eq_refl (node_key d.mesh_id d.device_id))

pub node_unreject-accepted :
    (log : List Message) (d : Device)
    → (decoder (log ++ node_unreject d ∷ [])).rejected_nodes (node_key d.mesh_id d.device_id)
      ≡ false
unfolding node_unreject node_rejection_kafka_key lite_replay
node_unreject-accepted log d =
    ap (λ (s : LiteState). s.rejected_nodes (node_key d.mesh_id d.device_id))
      (decoder-append log (node_unreject d ∷ []))
    ∙ ground
        (arith, node_key-nonempty d.mesh_id d.device_id, eq_refl (node_key d.mesh_id d.device_id))

module _ (lib : Library) where
  open lib use {Number, parse_envelope}

  -- Once a decoder has read the registry's rejection of a node, no packet of the node is decoded
  -- that comes through a gateway of the node's mesh, whatever else the packet and the gateway's entry hold.
  pub node_reject-dropped :
      (log : List Message) (d : Device) (raw : Bytes) (se : ServiceEnvelope) (state : GatewayState)
      (events : Events Number)
      → parse_envelope raw ≡ some se
      → (decoder (log ++ node_reject d ∷ [])).gateway_state (gateway_id_of lib se) ≡ some state
      → state.mesh_id ≡ some d.mesh_id
      → str_eq d.mesh_id "" ≡ false
      → se.packet.sender ≡ d.device_id
      → decode_packet lib raw
          (decoder (log ++ node_reject d ∷ [])).gateway_state
          (decoder (log ++ node_reject d ∷ [])).rejected_nodes
        ≢ passed events
  node_reject-dropped log d raw se state events parsed known of_mesh named_mesh sent e =
      let now = decoder (log ++ node_reject d ∷ []) in
      let a = decode_packet-IsAuthorized lib raw now.gateway_state now.rejected_nodes events e in
      let same_envelope : a.se ≡ se = ground (arith, a.parsed) in
      let same_state : a.state ≡ state =
        ground (arith, a.known, ap (gateway_id_of lib) same_envelope) in
      let accepted : is_rejected lib (some d.mesh_id) d.device_id now.rejected_nodes ≡ false =
        ap (λ m. is_rejected lib m d.device_id now.rejected_nodes)
          (sym (ap (λ (s : GatewayState). s.mesh_id) same_state ∙ of_mesh))
        ∙ ap (λ n. is_rejected lib a.state.mesh_id n now.rejected_nodes)
            (sym (ap (λ (x : ServiceEnvelope). x.packet.sender) same_envelope ∙ sent))
        ∙ a.accepted in
      ground (arith, node_reject-rejected log d)
