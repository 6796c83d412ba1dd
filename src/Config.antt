-- ===== src/Config.antt =====
-- The configuration that the key registry broadcasts, and the two decoders that apply it: the
-- consumer of the lite tier (pipeline/decode_consumer.py) and the stream job of the full tier
-- (flink/decode_job.py).
pub mod Tiers
pub mod Latest
use meshtastic_things.Prelude.{
  ℕ, String, Bool, true, false, Option, none, some, List, [], ◌∷◌, str_eq, or_default,
  if◌then◌else◌,
}
use meshtastic_things.Json.{truthy_text}
use meshtastic_things.Dict.{Dict, empty, put, remove}
use meshtastic_things.Decode.{GatewayState}

-- A parsed event: the values of the keys that the decoders read, with `none` for a key that is
-- absent or null.
pub record Event : Type 0 where
  pub kind : Option String
  pub key : Option String
  pub op : Option String
  pub psk_b64 : Option String
  pub mesh_id : Option String

abbrev pub is_delete : Event → Bool
is_delete e = str_eq (or_default e.op "") "delete"

abbrev pub gateway_state_of : Event → GatewayState
gateway_state_of e = record { psk_b64 = or_default e.psk_b64 ""; mesh_id = e.mesh_id }

-- `gateway_state` and `rejected_nodes` of a DecodeConsumer.
pub record LiteState : Type 0 where
  pub gateway_state : Dict GatewayState
  pub rejected_nodes : String → Bool

abbrev pub lite_start : LiteState
lite_start = record { gateway_state = empty; rejected_nodes = λ k. false }

abbrev add_node : String → (String → Bool) → String → Bool
add_node key nodes k = if str_eq key k then true else nodes k

abbrev discard_node : String → (String → Bool) → String → Bool
discard_node key nodes k = if str_eq key k then false else nodes k

-- `_apply_config_event`, with the rejections topic's name given by whether the record is from it.
unfoldable pub apply_config_event : Bool → Event → LiteState → LiteState
apply_config_event from_rejections e s = elim e.key [
  | none ↦ s
  | some key ↦
      if str_eq key ""
      then s
      else if from_rejections
      then (if is_delete e
          then record s { rejected_nodes = discard_node key s.rejected_nodes }
          else record s { rejected_nodes = add_node key s.rejected_nodes })
      else if is_delete e
      then record s { gateway_state = remove key s.gateway_state }
      else record s { gateway_state = put key (gateway_state_of e) s.gateway_state }
]

-- The broadcast state of the stream job: GATEWAY_KEY_STATE and NODE_REJECTED_STATE.
pub record FlinkState : Type 0 where
  pub gateway_keys : Dict GatewayState
  pub node_rejections : Dict String

abbrev pub flink_start : FlinkState
flink_start = record { gateway_keys = empty; node_rejections = empty }

abbrev pub is_node_rejection : Event → Bool
is_node_rejection e = str_eq (or_default e.kind "") "node_rejection"

-- `process_broadcast_element`: the event's kind, not its topic, says which state it is for.
unfoldable pub process_broadcast_element : Event → FlinkState → FlinkState
process_broadcast_element e s = elim e.key [
  | none ↦ s
  | some key ↦
      if str_eq key ""
      then s
      else if is_node_rejection e
      then (if is_delete e
          then record s { node_rejections = remove key s.node_rejections }
          else record s { node_rejections = put key "1" s.node_rejections })
      else if is_delete e
      then record s { gateway_keys = remove key s.gateway_keys }
      else record s { gateway_keys = put key (gateway_state_of e) s.gateway_keys }
]

-- A record of one of the two topics: whether it is the rejections topic, and the event.
abbrev pub Record : Type 0
Record = Bool × Event

unfoldable pub lite_replay : List Record → LiteState → LiteState
unfolding apply_config_event
lite_replay [] s = s
lite_replay ((from_rejections, e) ∷ records) s =
    lite_replay records (apply_config_event from_rejections e s)

unfoldable pub flink_replay : List Record → FlinkState → FlinkState
unfolding process_broadcast_element
flink_replay [] s = s
flink_replay ((from_rejections, e) ∷ records) s =
    flink_replay records (process_broadcast_element e s)
