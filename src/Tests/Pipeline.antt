-- ===== src/Tests/Pipeline.antt =====
-- The theorems on decoding, configuration and streams, on concrete packets.
use meshtastic_things.Prelude.{
  ℕ, ◌+◌, true, false, ◌≡◌, ◌⊎◌, refl, none, some, List, [], ◌∷◌, ◌++◌, show,
}
use meshtastic_things.Kafka.{Producer}
use meshtastic_things.Codec.{
  passed, dropped, decode_psk, default_channel_key_init, b64decode, decode_payload, open_variant,
  build_decoded_message,
}
use meshtastic_things.Decode.{decode_packet, build_events}
use meshtastic_things.Decode.Authorization.{IsAuthorized, decode_packet-IsAuthorized}
use meshtastic_things.Config.{Event, Record, lite_start, flink_start, lite_replay, flink_replay}
use meshtastic_things.Config.Tiers.{Agree, replay-Agree}
use meshtastic_things.Config.Latest.{lite_replay-latest, latest, effect}
use meshtastic_things.Stream.{Message, Offsets, consume_poll, process_element, get_key}
use meshtastic_things.Stream.Tiers.{outputs, process_element-outputs}
use meshtastic_things.Stream.Commit.{
  all_outputs, consume_poll-commit, consume_poll-acked, failed_publish_is_skipped,
}
use meshtastic_things.Tests.Data.{events, library, config, always_acked, always_lost}

decoded_5 :
    decode_packet library (5 ∷ []) config.gateway_state config.rejected_nodes ≡ passed events
unfolding decode_packet b64decode decode_psk build_events open_variant decode_payload
    build_decoded_message show
decoded_5 = refl

-- The packet of node 1 has a portnum with no schema.
dropped_1 :
    decode_packet library (1 ∷ []) config.gateway_state config.rejected_nodes
    ≡ dropped "portnum 1 has no protobuf schema, nothing to store"
unfolding decode_packet b64decode decode_psk build_events open_variant decode_payload
    build_decoded_message show
dropped_1 = refl

decode_packet-IsAuthorized_example :
    IsAuthorized library (5 ∷ []) config.gateway_state config.rejected_nodes events
decode_packet-IsAuthorized_example =
    decode_packet-IsAuthorized library (5 ∷ []) config.gateway_state config.rejected_nodes events
      decoded_5

-- The registration of a gateway, the rejection of a node, and the gateway's removal.
abbrev upsert : Event
upsert = record {
  kind = some "gateway_key";
  key = some "!000000ff";
  op = some "upsert";
  psk_b64 = some "AQ==";
  mesh_id = some "mesh-1";
}

abbrev history : List Record
history =
    (false, upsert)
    ∷ (
      true,
      record {
        kind = some "node_rejection";
        key = some "mesh-1:9";
        op = some "upsert";
        psk_b64 = none;
        mesh_id = some "mesh-1";
      },
    )
    ∷ (
      false,
      record {
        kind = some "gateway_key";
        key = some "!000000fe";
        op = some "delete";
        psk_b64 = none;
        mesh_id = some "mesh-1";
      },
    )
    ∷ []

start_Agree : Agree lite_start flink_start
start_Agree = record { gateways = λ k. refl; nodes = λ k. refl }

replay-Agree_example : Agree (lite_replay history lite_start) (flink_replay history flink_start)
replay-Agree_example =
    replay-Agree history lite_start flink_start (refl, (refl, (refl, tt))) start_Agree

lite_replay-latest_example :
    (lite_replay history lite_start).gateway_state "!000000ff" ≡ elim (latest "!000000ff" history) [
      | none ↦ lite_start.gateway_state "!000000ff"
      | some e ↦ effect e
    ]
lite_replay-latest_example = lite_replay-latest "!000000ff" history lite_start

process_element-outputs_example :
    process_element library (get_key library (5 ∷ [])) (5 ∷ []) (flink_replay history flink_start)
    ≡ outputs library (5 ∷ []) (lite_replay history lite_start)
process_element-outputs_example =
    process_element-outputs library (5 ∷ []) (lite_replay history lite_start)
      (flink_replay history flink_start)
      (replay-Agree history lite_start flink_start (refl, (refl, (refl, tt))) start_Agree)

abbrev nothing_sent : Producer (Message ℕ)
nothing_sent = record { log = []; attempts = 0 }

abbrev offsets : Offsets
offsets = record { polled = 4; committed = 4 }

consume_poll-commit_example :
    let next =
      consume_poll library always_lost config ((5 ∷ []) ∷ (1 ∷ []) ∷ []) (nothing_sent, offsets) in
    (next.1.polled ≡ 4 + 2)
    × (((next.1.committed ≡ next.1.polled)
          × (next.0.log ≡ [] ++ all_outputs library always_lost config ((5 ∷ []) ∷ (1 ∷ []) ∷ [])))
        ⊎ (next.1.committed ≡ 4))
consume_poll-commit_example =
    consume_poll-commit library always_lost config (5 ∷ []) ((1 ∷ []) ∷ []) nothing_sent offsets

consume_poll-acked_example :
    (consume_poll library always_acked config
      ((5 ∷ []) ∷ (1 ∷ []) ∷ [])
      (nothing_sent, offsets)).1.committed
    ≡ 4 + 2
consume_poll-acked_example =
    consume_poll-acked library always_acked config (5 ∷ []) ((1 ∷ []) ∷ []) nothing_sent offsets
      (λ n. refl)

failed_publish_is_skipped_example :
    let next =
      consume_poll library always_lost config
        ((1 ∷ []) ∷ [])
        (consume_poll library always_lost config ((5 ∷ []) ∷ []) (nothing_sent, offsets)) in
    (next.1.committed ≡ 4 + 2) × (next.0.log ≡ [])
failed_publish_is_skipped_example =
    failed_publish_is_skipped library always_lost config (5 ∷ []) (1 ∷ []) events
      "portnum 1 has no protobuf schema, nothing to store" nothing_sent offsets decoded_5 dropped_1
      refl

decoded_key : decode_psk "AQ==" ≡ some (some (default_channel_key_init ++ 1 ∷ []))
unfolding decode_psk b64decode
decoded_key = refl
