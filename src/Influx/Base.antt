-- ===== src/Influx/Base.antt =====
-- The point that every builder of writer/point_builders.py starts from.
use meshtastic_things.Prelude.{
  ℕ, zero, suc, String, Bool, false, not, ◌&&◌, Option, none, some, str_eq, or_default,
  if◌then◌else◌, ◌>>=◌,
}
use meshtastic_things.Json.{
  Value, null, boolean, number, text, dict, Fields, end, field, get, truthy,
}

-- MIN_FEASIBLE_TIME, the start of 2020.
abbrev pub min_feasible_time : ℕ
min_feasible_time = 1577836800

pub record Python (N : Type 0) : Type 0 where
  pub is_zero : N → Bool
  -- `n > m`
  pub exceeds : N → ℕ → Bool
  -- `_convert_date`
  pub convert_date : Value N → Option String
  -- `float`, where it does not raise.
  pub to_float : Value N → Option N
  -- `v / 1e7`
  pub scaled : Value N → Option N
  -- `str`
  pub shown : Value N → String

pub record Point (N : Type 0) : Type 0 where
  pub measurement : String
  pub tags : Fields N
  pub fields : Fields N
  pub time : String

-- `d[key] = v`: in its place, or at the end.
unfoldable pub set_item : {N : Type 0} → String → Value N → Fields N → Fields N
set_item key v end = field key v end
set_item key v (field k old fs) =
    let rest = set_item key v fs in if str_eq k key then field k v fs else field k old rest

abbrev pub size : {N : Type 0} → Fields N → ℕ
size end = zero
size (field k v fs) = suc (size fs)

module _ {N : Type 0} (py : Python N) where
  abbrev pub truth : Value N → Bool
  truth = truthy py.is_zero

  -- `event.get(key) or {}`, of which a dictionary is wanted.
  abbrev pub as_dict : Value N → Option (Fields N)
  as_dict (dict fs) = some fs
  as_dict v = if truth v then none else some end

  abbrev pub payload_of : Fields N → Option (Fields N)
  payload_of event = as_dict (or_default (get "payload" event) null)

  -- Whether the payload's time is taken: `none` where the comparison raises.
  abbrev takes_time : Value N → Option Bool
  takes_time (number n) = some (not (py.is_zero n) && py.exceeds n min_feasible_time)
  takes_time (boolean b) = some false
  takes_time v = if truth v then none else some false

  -- `_resolve_timestamp`
  unfoldable pub resolve_timestamp : Fields N → Option (Value N × String)
  unfolding get
  resolve_timestamp event = do
    rx_time ← get "rx_time" event
    payload ← payload_of event
    let payload_time = or_default (get "time" payload) null
    taken ← takes_time payload_time
    some (if taken then (payload_time, "payload") else (rx_time, "rx_time"))

  -- `if event.get(key): tags[key] = event[key]`
  abbrev pub tag_of : String → Fields N → Fields N → Fields N
  tag_of key event tags =
      let v = or_default (get key event) null in if truth v then set_item key v tags else tags

  -- `_base_point_dict`
  unfoldable pub base_point_dict : Fields N → String → Option (Point N)
  unfolding get set_item resolve_timestamp
  base_point_dict event measurement = do
    (timestamp, quality) ← resolve_timestamp event
    node_id ← get "node_id" event
    packet_id ← get "packet_id" event
    time ← py.convert_date timestamp
    some (record {
      measurement = measurement;
      tags =
          tag_of "gateway_id" event
            (tag_of "channel_id" event (tag_of "mesh_id" event (field "node_id" node_id end)));
      fields = field "packet_id" packet_id (field "timestamp_quality" (text quality) end);
      time = time;
    })
