-- ===== src/Archive.antt =====
-- writer/s3_writer.py: the decoded messages, put into one object per node and flush. What json.loads makes of
-- a record, the equality of dictionary keys and the outcome of each call of S3 and of
-- Kafka's commit are parameters; the name of an object and its Parquet encoding are left out, and
-- an encoding that raises counts as an object that is not put.
pub mod Keeping
pub mod Blocking
use meshtastic_things.Prelude.{
  ℕ, ◌+◌, leb, Bool, true, false, not, ◌&&◌, ◌||◌, Option, none, some, List, [], ◌∷◌, ◌++◌, length,
  if◌then◌else◌,
}
use meshtastic_things.Json.{Value, null, boolean, number, text, array, dict, get}
use meshtastic_things.Kafka.{Delivery, acked, lost, unconfirmed, Producer, send_all}

-- What json.loads makes of the records of the polls: `none` where it raises.
abbrev pub Parsed : Type 0 → Type 0
Parsed N = Option (Value N)

-- (mesh_id, node_id)
abbrev pub Group : Type 0 → Type 0
Group N = Option (Value N) × Option (Value N)

-- A file: its group, and its records in order.
pub record Object (N : Type 0) : Type 0 where
  pub group : Group N
  pub records : List (Value N)

-- The writer between two polls. The records of the topic up to here are `committed ++ pending`: the
-- offset of the consumer group stands after the committed ones. `store` has the bucket.
pub record Writer (N : Type 0) : Type 0 where
  pub buffer : List (Value N)
  pub last_flush : ℕ
  pub committed : List (Parsed N)
  pub pending : List (Parsed N)
  pub store : Producer (Object N)

-- One turn of the loop: what the poll returns, the time, and what becomes of the commit.
pub record Turn (N : Type 0) : Type 0 where
  pub polled : List (Parsed N)
  pub now : ℕ
  pub commit : Delivery

module _ {N : Type 0} where
  abbrev pub event_of : Parsed N → List (Value N)
  event_of none = []
  event_of (some null) = []
  event_of (some event) = event ∷ []

  -- The events that the loop over the records of a poll appends to the buffer.
  unfoldable pub events_of : List (Parsed N) → List (Value N)
  events_of [] = []
  events_of (r ∷ rs) = event_of r ++ events_of rs

  -- Whether a value can stand in the key of a dictionary.
  abbrev is_hashable : Option (Value N) → Bool
  is_hashable (some (array vs)) = false
  is_hashable (some (dict fs)) = false
  is_hashable _ = true

  -- The group of an event; `none` where it is not a dictionary, or its group is no key.
  unfoldable pub group_of : Value N → Option (Group N)
  unfolding get
  group_of (dict fs) =
      if is_hashable (get "mesh_id" fs) && is_hashable (get "node_id" fs)
      then some (get "mesh_id" fs, get "node_id" fs)
      else none
  group_of _ = none

  module _ (same : Group N → Group N → Bool) where
    -- `groups.setdefault(group, []).append(r)`
    unfoldable pub add_record : Group N → Value N → List (Object N) → List (Object N)
    add_record g r [] = record { group = g; records = r ∷ [] } ∷ []
    add_record g r (o ∷ os) =
        let rest = add_record g r os in
        if same o.group g then record o { records = o.records ++ r ∷ [] } ∷ os else o ∷ rest

    -- The loop over the records; `none` where it raises.
    unfoldable pub grouped : List (Value N) → List (Object N) → Option (List (Object N))
    unfolding add_record group_of
    grouped [] os = some os
    grouped (r ∷ rs) os = elim (group_of r) [
      | none ↦ none
      | some g ↦ grouped rs (add_record g r os)
    ]

    module _ (net : ℕ → Delivery) (batch_size flush_interval : ℕ) where
      abbrev put_all : Option (List (Object N)) → Producer (Object N) → Producer (Object N) × Bool
      put_all none store = (store, false)
      put_all (some os) store = send_all net os store

      -- `flush`: the bucket, and whether the call returned.
      unfoldable pub flush : List (Value N) → Producer (Object N) → Producer (Object N) × Bool
      unfolding grouped
      flush rs store = put_all (grouped rs []) store

      abbrev commit_pending : Writer N → Writer N
      commit_pending w = record w { committed = w.committed ++ w.pending; pending = [] }

      abbrev pub after_commit : Delivery → ℕ → Writer N → Writer N
      after_commit acked now w = record (commit_pending w) { buffer = []; last_flush = now }
      after_commit lost now w = w
      after_commit unconfirmed now w = commit_pending w

      abbrev pub after_flush : Bool → Delivery → ℕ → Writer N → Writer N
      after_flush true commit now w = after_commit commit now w
      after_flush false commit now w = w

      abbrev pub polled_into : Turn N → Writer N → Writer N
      polled_into t w = record w {
        buffer = w.buffer ++ events_of t.polled;
        pending = w.pending ++ t.polled;
      }

      abbrev is_empty : List (Value N) → Bool
      is_empty [] = true
      is_empty (r ∷ rs) = false

      abbrev pub should_flush : ℕ → Writer N → Bool
      should_flush now w =
          leb batch_size (length w.buffer)
          || (not (is_empty w.buffer) && leb (w.last_flush + flush_interval) now)

      abbrev pub flush_and_commit : Delivery → ℕ → Writer N → Writer N
      flush_and_commit commit now w =
          let (store, returned) = flush w.buffer w.store in
          after_flush returned commit now (record w { store = store })

      -- One turn of the loop of `write_kafka_s3`.
      unfoldable pub write_turn : Turn N → Writer N → Writer N
      unfolding flush events_of
      write_turn t w =
          let w' = polled_into t w in
          if should_flush t.now w' then flush_and_commit t.commit t.now w' else w'

      -- The loop.
      unfoldable pub write_kafka_s3 : List (Turn N) → Writer N → Writer N
      unfolding write_turn
      write_kafka_s3 [] w = w
      write_kafka_s3 (t ∷ ts) w = write_kafka_s3 ts (write_turn t w)

-- The writer at its start.
unfoldable pub new_writer : {N : Type 0} → ℕ → Writer N
new_writer now = record {
  buffer = [];
  last_flush = now;
  committed = [];
  pending = [];
  store = record { log = []; attempts = 0 };
}
