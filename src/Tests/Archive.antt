-- ===== src/Tests/Archive.antt =====
-- The theorems on the S3 writer, on two messages of two nodes.
use meshtastic_things.Prelude.{
  ℕ, ◌==◌, Bool, true, false, ◌≡◌, refl, Option, none, some, List, [], ◌∷◌, ◌++◌, inl, str_eq,
}
use meshtastic_things.Json.{Value, dict, number, text, field, end, get}
use meshtastic_things.Kafka.{Delivery, acked, lost, send, send_all}
use meshtastic_things.Archive.{
  Group, Writer, Turn, events_of, group_of, grouped, add_record, flush, write_turn, write_kafka_s3,
  new_writer,
}
use meshtastic_things.Archive.Keeping.{IsKept, all_polled, write_kafka_s3-IsKept}
use meshtastic_things.Archive.Blocking.{write_kafka_s3-blocked}

abbrev message : ℕ → Value ℕ
message node_id = dict (field "node_id" (number node_id) (field "packet_id" (number 1) end))

abbrev same_value : Option (Value ℕ) → Option (Value ℕ) → Bool
same_value none none = true
same_value (some (number m)) (some (number n)) = m == n
same_value (some (text s)) (some (text t)) = str_eq s t
same_value _ _ = false

abbrev same : Group ℕ → Group ℕ → Bool
same (mesh_a, node_a) (mesh_b, node_b) = elim (same_value mesh_a mesh_b) [
  | true ↦ same_value node_a node_b
  | false ↦ false
]

-- The second object of the first flush is lost.
abbrev net : ℕ → Delivery
net n = elim (n == 1) [ true ↦ lost | false ↦ acked ]

abbrev turns : List (Turn ℕ)
turns =
    record { polled = some (message 7) ∷ none ∷ some (message 9) ∷ []; now = 5; commit = acked }
    ∷ record { polled = some (message 7) ∷ []; now = 6; commit = acked }
    ∷ []

-- The second turn puts what the first has put once more, and commits.
turns-committed :
    (write_kafka_s3 same net 2 60 turns (new_writer 0)).committed
    ≡ some (message 7) ∷ none ∷ some (message 9) ∷ some (message 7) ∷ []
unfolding write_kafka_s3 write_turn flush grouped add_record group_of get events_of new_writer
    send_all send
turns-committed = refl

write_kafka_s3-IsKept_example :
    let w = write_kafka_s3 same net 2 60 turns (new_writer 0) in
    IsKept same net 2 60 w × (w.committed ++ w.pending ≡ all_polled same net 2 60 turns)
write_kafka_s3-IsKept_example = write_kafka_s3-IsKept same net 2 60 0 turns

-- A number has been read from the topic.
abbrev stuck : Writer ℕ
stuck = record {
  buffer = number 3 ∷ [];
  last_flush = 0;
  committed = [];
  pending = some (number 3) ∷ [];
  store = record { log = []; attempts = 0 };
}

number_is_no_group : group_of {N = ℕ} (number 3) ≡ none
unfolding group_of
number_is_no_group = refl

write_kafka_s3-blocked_example :
    let w = write_kafka_s3 same net 2 60 turns stuck in (w.committed ≡ []) × (w.store ≡ stuck.store)
write_kafka_s3-blocked_example =
    write_kafka_s3-blocked same net 2 60 turns stuck (number 3) number_is_no_group (inl refl)
