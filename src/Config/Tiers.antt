-- ===== src/Config/Tiers.antt =====
-- The lite consumer and the stream job hold the same configuration.
use meshtastic_things.Prelude.{String, Bool, ◌≡◌, List, [], ◌∷◌, arith, All, is_some}
use meshtastic_things.Config.{
  Event, LiteState, apply_config_event, FlinkState, is_node_rejection, process_broadcast_element,
  Record, lite_replay, flink_replay,
}

-- The two states agree on every gateway and on every node.
pub record Agree (l : LiteState) (f : FlinkState) : Type 0 where
  pub gateways : (k : String) → l.gateway_state k ≡ f.gateway_keys k
  pub nodes : (k : String) → l.rejected_nodes k ≡ is_some (f.node_rejections k)

-- The topic and the kind of a record say the same, as for all that the registry publishes.
abbrev pub IsRouted : Record → Type 0
IsRouted (from_rejections, e) = is_node_rejection e ≡ from_rejections

Agree-step :
    (from_rejections : Bool) (e : Event) (l : LiteState) (f : FlinkState)
    → IsRouted (from_rejections, e)
    → Agree l f
    → Agree (apply_config_event from_rejections e l) (process_broadcast_element e f)
unfolding apply_config_event process_broadcast_element
Agree-step from_rejections e l f routed h = record {
  gateways = λ k. ground (arith, h.gateways k);
  nodes = λ k. ground (arith, h.nodes k);
}

-- From states that agree, the two tiers still agree after any sequence of routed records.
pub replay-Agree :
    (records : List Record) (l : LiteState) (f : FlinkState)
    → All IsRouted records
    → Agree l f
    → Agree (lite_replay records l) (flink_replay records f)
unfolding lite_replay flink_replay
replay-Agree [] l f routed h = h
replay-Agree ((from_rejections, e) ∷ records) l f (r, routed) h =
    replay-Agree records _ _ routed (Agree-step from_rejections e l f r h)
