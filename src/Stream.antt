-- ===== src/Stream.antt =====
-- The two decode runtimes over `decode_packet`: the polling consumer of the lite tier
-- (pipeline/decode_consumer.py) and the keyed process function of the stream job
-- (flink/decode_job.py).
pub mod Tiers
pub mod Commit
use meshtastic_things.Prelude.{
  ℕ, ◌+◌, String, Bool, true, false, ◌&&◌, Option, none, some, List, [], ◌∷◌, ◌++◌, length, is_some,
  if◌then◌else◌,
}
use meshtastic_things.Dict.{Dict}
use meshtastic_things.Kafka.{Delivery, Producer, send_all}
use meshtastic_things.Codec.{Bytes, Library, Step, raised, dropped, passed, DecodedMessage}
use meshtastic_things.Decode.{Sighting, Discovery, Events, decode_packet, gateway_id_of}
use meshtastic_things.Config.{LiteState, FlinkState}

-- A message for one of the three topics: decoded events, device sightings, sensor discoveries.
pub data Message (N : Type 0) : Type 0 where
  decoded : DecodedMessage N → Message N
  sighting : Sighting N → Message N
  discovery : Discovery → Message N

-- The messages of a packet's events, in the order in which both runtimes send them.
abbrev pub messages_of : {N : Type 0} → Events N → List (Message N)
messages_of events =
    decoded events.decoded
    ∷ (elim events.sighting [ none ↦ [] | some s ↦ sighting s ∷ [] ]
        ++ elim events.discovery [ none ↦ [] | some d ↦ discovery d ∷ [] ])

-- A consumer's offsets: the records that `poll` has returned, and those that are committed. The
-- client's `commit` commits all that `poll` has returned.
pub record Offsets : Type 0 where
  pub polled : ℕ
  pub committed : ℕ

module _ (lib : Library) where
  open lib use {Number, parse_envelope}

  module _ (net : ℕ → Delivery) (config : LiteState) where
    -- `_publish`
    unfoldable pub publish :
        Events Number → Producer (Message Number) → Producer (Message Number) × Bool
    publish events p = send_all net (messages_of events) p

    -- One record of a batch: the producer, and whether nothing failed to be published.
    unfoldable pub consume_record :
        Bytes → Producer (Message Number) → Producer (Message Number) × Bool
    unfolding publish
    consume_record raw p = elim (decode_packet lib raw config.gateway_state config.rejected_nodes) [
      | raised ↦ (p, true)
      | dropped reason ↦ (p, true)
      | passed events ↦ publish events p
    ]

    -- The loop over the records of a poll; the last component is `commit_ok`.
    unfoldable pub consume_records :
        List Bytes → Producer (Message Number) × Bool → Producer (Message Number) × Bool
    unfolding consume_record
    consume_records [] state = state
    consume_records (raw ∷ records) (p, commit_ok) =
        let (p', sent) = consume_record raw p in consume_records records (p', commit_ok && sent)

    abbrev commit_if : Bool → Offsets → Offsets
    commit_if true o = record o { committed = o.polled }
    commit_if false o = o

    -- One turn of the loop of `consume_decode`.
    unfoldable pub consume_poll :
        List Bytes → Producer (Message Number) × Offsets → Producer (Message Number) × Offsets
    unfolding consume_records
    consume_poll [] state = state
    consume_poll (raw ∷ records) (p, o) =
        let (p', commit_ok) = consume_records (raw ∷ records) (p, true) in
        (p', commit_if commit_ok (record o { polled = o.polled + length (raw ∷ records) }))

  -- PacketKeySelector.get_key
  unfoldable pub get_key : Bytes → String
  get_key raw = elim (parse_envelope raw) [ none ↦ "unparseable" | some se ↦ gateway_id_of lib se ]

  -- DecodeWithBroadcastKey.process_element
  unfoldable pub process_element : String → Bytes → FlinkState → List (Message Number)
  process_element current_key raw state =
      if is_some (state.gateway_keys current_key)
      then (elim (decode_packet lib raw state.gateway_keys
          (λ k. is_some (state.node_rejections k))) [
            | raised ↦ []
            | dropped reason ↦ []
            | passed events ↦ messages_of events
          ])
      else []
