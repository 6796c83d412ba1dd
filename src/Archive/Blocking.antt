-- ===== src/Archive/Blocking.antt =====
-- The S3 writer with a record in its buffer that is JSON and not a decoded message.
use meshtastic_things.Prelude.{
  ℕ, Bool, false, ◌≡◌, refl, ◌∙◌, none, List, [], ◌∷◌, inl, inr, Bool-cases, Option-cases,
}
use meshtastic_things.Prelude.Members.{In, In-append_left}
use meshtastic_things.Json.{Value}
use meshtastic_things.Kafka.{Delivery, Producer}
use meshtastic_things.Archive.{
  Group, Object, Writer, Turn, events_of, group_of, add_record, grouped, flush, polled_into,
  should_flush, write_turn, write_kafka_s3,
}

module _ {N : Type 0} (same : Group N → Group N → Bool) where
  -- A batch with a value that is not a message.
  grouped-none :
      (rs : List (Value N)) (os : List (Object N)) (e : Value N)
      → group_of e ≡ none
      → In e rs
      → grouped same rs os ≡ none
  unfolding grouped
  grouped-none [] os e bad i = absurd i
  grouped-none (r ∷ rs) os e bad (inl x) =
      let bad' : group_of r ≡ none = rw x at bad in rw (bad', grouped) refl
  grouped-none (r ∷ rs) os e bad (inr i) = elim (Option-cases (group_of r)) [
    | inl unknown ↦ rw (unknown, grouped) refl
    | inr (g, known) ↦ rw (known, grouped) (grouped-none rs (add_record same g r os) e bad i)
  ]

  module _ (net : ℕ → Delivery) (batch_size flush_interval : ℕ) where
    flush-refused :
        (rs : List (Value N)) (p : Producer (Object N)) (e : Value N)
        → group_of e ≡ none
        → In e rs
        → flush same net batch_size flush_interval rs p ≡ (p, false)
    unfolding flush
    flush-refused rs p e bad i = rw (grouped-none rs [] e bad i, flush) refl

    write_turn-stuck :
        (t : Turn N) (w : Writer N) (e : Value N)
        → group_of e ≡ none
        → In e w.buffer
        → let w' = write_turn same net batch_size flush_interval t w in
          (w'.committed ≡ w.committed) × (w'.store ≡ w.store) × In e w'.buffer
    unfolding write_turn
    write_turn-stuck t w e bad i =
        elim (Bool-cases (should_flush same net batch_size flush_interval t.now u)) [
          | inl due ↦
              rw (due, write_turn, flush-refused u.buffer u.store e bad stays) (refl, refl, stays)
          | inr wait ↦ rw (wait, write_turn) (refl, refl, stays)
        ]
      where
        u : Writer N
        u = polled_into same net batch_size flush_interval t w

        stays : In e u.buffer
        stays = In-append_left e w.buffer (events_of t.polled) i

    -- Once the buffer holds a value with no group, because it is JSON and no dictionary, or because
    -- one of its two ids is a list or a dictionary, no turn commits a record or puts an object.
    pub write_kafka_s3-blocked :
        (ts : List (Turn N)) (w : Writer N) (e : Value N)
        → group_of e ≡ none
        → In e w.buffer
        → let w' = write_kafka_s3 same net batch_size flush_interval ts w in
          (w'.committed ≡ w.committed) × (w'.store ≡ w.store)
    unfolding write_kafka_s3
    write_kafka_s3-blocked [] w e bad i = (refl, refl)
    write_kafka_s3-blocked (t ∷ ts) w e bad i =
        let (c, s, i') = write_turn-stuck t w e bad i in
        let (c', s') = write_kafka_s3-blocked ts _ e bad i' in (c' ∙ c, s' ∙ s)
