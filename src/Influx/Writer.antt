-- ===== src/Influx/Writer.antt =====
-- writer/influx_writer.py: the loop that polls messages and writes their points in one batch. What
-- json.loads makes of a record is an input (`none` where it raises), the outcome of each write and of
-- each commit are parameters. One write of a batch succeeds or fails as a whole.
pub mod Batches
use meshtastic_things.Prelude.{
  ℕ, Bool, true, false, Option, none, some, List, [], ◌∷◌, ◌++◌, if◌then◌else◌,
}
use meshtastic_things.Json.{Value, null}
use meshtastic_things.Kafka.{Delivery, acked, lost, unconfirmed, Producer, send}
use meshtastic_things.Influx.{Python, Point, get_points}

abbrev pub Parsed : Type 0 → Type 0
Parsed N = Option (Value N)

-- The consumer between two polls: the records up to here are `committed ++ pending`, and the offset of
-- the group stands after the committed ones. `bucket` has the batches that were written.
pub record State (N : Type 0) : Type 0 where
  pub committed : List (Parsed N)
  pub pending : List (Parsed N)
  pub bucket : Producer (List (Point N))

-- One turn of the loop: what the poll returns, and what becomes of the commit.
pub record Turn (N : Type 0) : Type 0 where
  pub polled : List (Parsed N)
  pub commit : Delivery

unfoldable pub start : {N : Type 0} → State N
start = record { committed = []; pending = []; bucket = record { log = []; attempts = 0 } }

module _ {N : Type 0} (py : Python N) where
  -- The points of one record; a bad message has none.
  abbrev pub points_of : Parsed N → List (Point N)
  points_of none = []
  points_of (some null) = []
  points_of (some event) = elim (get_points py event) [ none ↦ [] | some points ↦ points ]

  -- The loop over the records of a poll.
  unfoldable pub points_in : List (Parsed N) → List (Point N)
  points_in [] = []
  points_in (r ∷ records) = points_of r ++ points_in records

  module _ (net : ℕ → Delivery) where
    -- `commit()` commits all that the consumer has polled.
    abbrev pub after_commit : Delivery → State N → State N
    after_commit lost s = s
    after_commit _ s = record s { committed = s.committed ++ s.pending; pending = [] }

    abbrev pub after_write : Delivery → State N → Producer (List (Point N)) × Bool → State N
    after_write commit s (bucket, true) = after_commit commit (record s { bucket = bucket })
    after_write commit s (bucket, false) = record s { bucket = bucket }

    abbrev pub write_points : Delivery → List (Point N) → State N → State N
    write_points commit [] s = s
    write_points commit (p ∷ points) s = after_write commit s (send net (p ∷ points) s.bucket)

    -- One turn of the loop of `write_kafka_influx`.
    unfoldable pub write_turn : Turn N → State N → State N
    unfolding points_in send
    write_turn t s =
        write_points t.commit (points_in t.polled) (record s { pending = s.pending ++ t.polled })

    unfoldable pub write_kafka_influx : List (Turn N) → State N → State N
    unfolding write_turn
    write_kafka_influx [] s = s
    write_kafka_influx (t ∷ turns) s = write_kafka_influx turns (write_turn t s)
