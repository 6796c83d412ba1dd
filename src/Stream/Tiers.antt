-- ===== src/Stream/Tiers.antt =====
-- The lite consumer and the stream job send the same messages for the same packet.
use meshtastic_things.Prelude.{String, Bool, ◌≡◌, none, List, [], Option-cases, inl, inr, sym}
use mathlib.Core.Path.{fun_ext, ap₂}
use meshtastic_things.Dict.{Dict}
use meshtastic_things.Codec.{Bytes, Library, Step, raised, dropped, passed}
use meshtastic_things.Decode.{GatewayState, Events, decode_packet, gateway_id_of}
use meshtastic_things.Config.{LiteState, FlinkState}
use meshtastic_things.Config.Tiers.{Agree}
use meshtastic_things.Stream.{Message, messages_of, get_key, process_element}

module _ (lib : Library) where
  open lib use {Number, parse_envelope}

  abbrev pub sent : Step (Events Number) → List (Message Number)
  sent raised = []
  sent (dropped reason) = []
  sent (passed events) = messages_of events

  -- What the lite consumer hands to its producer for a packet.
  abbrev pub outputs : Bytes → LiteState → List (Message Number)
  outputs raw config = sent (decode_packet lib raw config.gateway_state config.rejected_nodes)

  unregistered :
      (raw : Bytes) (gateways : Dict GatewayState) (rejected : String → Bool)
      → gateways (get_key lib raw) ≡ none
      → sent (decode_packet lib raw gateways rejected) ≡ []
  unfolding decode_packet get_key
  unregistered raw gateways rejected h = elim (Option-cases (parse_envelope raw)) [
    | inl bad ↦ rw bad
    | inr (se, parsed) ↦
        let missing : gateways (gateway_id_of lib se) ≡ none = rw (parsed, get_key) at h in
        rw parsed (rw missing)
  ]

  -- Where the two tiers hold the same configuration, the stream job, keyed by the packet's gateway,
  -- emits for every packet the messages that the lite consumer sends, in the same order.
  pub process_element-outputs :
      (raw : Bytes) (l : LiteState) (f : FlinkState)
      → Agree l f
      → process_element lib (get_key lib raw) raw f ≡ outputs raw l
  unfolding process_element
  process_element-outputs raw l f h =
      let same = ap₂ (decode_packet lib raw) (fun_ext h.gateways) (fun_ext h.nodes) in
      elim (Option-cases (f.gateway_keys (get_key lib raw))) [
        | inl missing ↦ rw (missing, same) (sym (unregistered raw _ _ missing))
        | inr (state, found) ↦ rw (found, same)
      ]
