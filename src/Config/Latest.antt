-- ===== src/Config/Latest.antt =====
-- The configuration that a topic's history leaves: for each key, the last record counts.
use meshtastic_things.Prelude.{
  String, Bool, false, not, ◌&&◌, ◌≡◌, refl, Option, none, some, List, [], ◌∷◌, arith, str_eq,
  if◌then◌else◌,
}
use meshtastic_things.Decode.{GatewayState}
use meshtastic_things.Config.{
  Event, LiteState, is_delete, gateway_state_of, apply_config_event, Record, lite_replay,
}

-- The record is about the gateway `k`.
abbrev is_about : String → Record → Bool
is_about k (from_rejections, e) =
    not from_rejections
    && elim e.key [ none ↦ false | some key ↦ not (str_eq key "") && str_eq key k ]

-- The last event about the gateway.
pub latest : String → List Record → Option Event
latest k [] = none
latest k (r ∷ records) = elim (latest k records) [
  | some e ↦ some e
  | none ↦ if is_about k r then some r.1 else none
]

-- What an event makes of the gateway's entry.
abbrev pub effect : Event → Option GatewayState
effect e = if is_delete e then none else some (gateway_state_of e)

one_event :
    (k : String) (r : Record) (s : LiteState)
    → (apply_config_event r.0 r.1 s).gateway_state k
      ≡ (if is_about k r then effect r.1 else s.gateway_state k)
unfolding apply_config_event
one_event k (from_rejections, e) s = ground (arith)

-- After a history of records, a gateway's entry is what the last event about it says: none if that
-- event is a deletion, its key and mesh if it is not; with no such event it is what it was.
pub lite_replay-latest :
    (k : String) (records : List Record) (s : LiteState)
    → (lite_replay records s).gateway_state k
      ≡ elim (latest k records) [ none ↦ s.gateway_state k | some e ↦ effect e ]
unfolding lite_replay latest
lite_replay-latest k [] s = refl
lite_replay-latest k (r ∷ records) s =
    ground (arith, lite_replay-latest k records (apply_config_event r.0 r.1 s), one_event k r s)
