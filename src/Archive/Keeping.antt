-- ===== src/Archive/Keeping.antt =====
-- What the S3 writer keeps of the records that it has committed.
use meshtastic_things.Prelude.{
  ℕ, Bool, true, false, ◌≡◌, refl, sym, ap, ◌∙◌, Option, none, some, List, [], ◌∷◌, ◌++◌, ◌⊎◌, inl,
  inr, arith, Bool-cases, Option-cases,
}
use mathlib.Core.List.{append_assoc, append-nil}
use meshtastic_things.Prelude.Members.{In, In-append, In-append_left, In-append_right}
use meshtastic_things.Json.{Value}
use meshtastic_things.Kafka.{Delivery, acked, lost, unconfirmed, Producer, send_all}
use meshtastic_things.Kafka.Sends.{send_all-log, send_all-keeps}
use meshtastic_things.Archive.{
  Parsed, Group, Object, Writer, Turn, events_of, event_of, group_of, add_record, grouped, flush,
  after_commit, after_flush, polled_into, should_flush, flush_and_commit, write_turn,
  write_kafka_s3, new_writer,
}

module _ {N : Type 0} where
  -- An event stands in one of the objects.
  abbrev pub Stored : Value N → List (Object N) → Type 0
  Stored e os = (o : Object N) × In o os × In e o.records

  pub In-events :
      (e : Value N) (rs ss : List (Parsed N))
      → In e (events_of (rs ++ ss))
      → In e (events_of rs) ⊎ In e (events_of ss)
  unfolding events_of
  In-events e [] ss h = inr h
  In-events e (r ∷ rs) ss h = elim (In-append e (event_of r) (events_of (rs ++ ss)) h) [
    | inl a ↦ inl (In-append_left e (event_of r) (events_of rs) a)
    | inr b ↦ elim (In-events e rs ss b) [
      | inl c ↦ inl (In-append_right e (event_of r) (events_of rs) c)
      | inr d ↦ inr d
    ]
  ]

  module _ (same : Group N → Group N → Bool) where
    add_record-keeps :
        (g : Group N) (r e : Value N) (os : List (Object N))
        → Stored e os
        → Stored e (add_record same g r os)
    unfolding add_record
    add_record-keeps g r e [] (o, i, h) = absurd i
    add_record-keeps g r e (x ∷ os) (o, i, h) = elim (Bool-cases (same x.group g)) [
      | inl hit ↦ rw hit (here i)
      | inr miss ↦ rw miss (there i (λ later. add_record-keeps g r e os (o, later, h)))
    ]
      where
        x' : Object N
        x' = record x { records = x.records ++ r ∷ [] }

        here : In o (x ∷ os) → Stored e (x' ∷ os)
        here (inl same') = (x', inl refl, In-append_left e x.records (r ∷ []) (rw (← same') h))
        here (inr later) = (o, inr later, h)

        there :
            In o (x ∷ os)
            → (In o os → Stored e (add_record same g r os))
            → Stored e (x ∷ add_record same g r os)
        there (inl same') rest = (o, inl same', h)
        there (inr later) rest = let (o', i', h') = rest later in (o', inr i', h')

    add_record-adds :
        (g : Group N) (r : Value N) (os : List (Object N)) → Stored r (add_record same g r os)
    unfolding add_record
    add_record-adds g r [] = (_, inl refl, inl refl)
    add_record-adds g r (x ∷ os) = elim (Bool-cases (same x.group g)) [
      | inl hit ↦ rw hit (_, inl refl, In-append_right r x.records (r ∷ []) (inl refl))
      | inr miss ↦ rw miss (let (o, i, h) = add_record-adds g r os in (o, inr i, h))
    ]

    grouped-Stored :
        (rs : List (Value N)) (os os' : List (Object N)) (e : Value N)
        → grouped same rs os ≡ some os'
        → In e rs ⊎ Stored e os
        → Stored e os'
    unfolding grouped
    grouped-Stored [] os os' e made (inl i) = absurd i
    grouped-Stored [] os os' e made (inr s) = let same' : os ≡ os' = ground arith in rw (← same') s
    grouped-Stored (r ∷ rs) os os' e made h = elim (Option-cases (group_of r)) [
      | inl unknown ↦ cc
      | inr (g, known) ↦ grouped-Stored rs (add_record same g r os) os' e (ground arith) (next g h)
    ]
      where
        next :
            (g : Group N)
            → In e (r ∷ rs) ⊎ Stored e os
            → In e rs ⊎ Stored e (add_record same g r os)
        next g (inl (inl x)) = inr (rw x (add_record-adds g r os))
        next g (inl (inr i)) = inl i
        next g (inr s) = inr (add_record-keeps g r e os s)

    Stored-grow :
        (net : ℕ → Delivery) (os : List (Object N)) (p : Producer (Object N)) (e : Value N)
        → Stored e p.log
        → Stored e (send_all net os p).0.log
    Stored-grow net os p e (o, i, h) = (o, send_all-keeps net os p o i, h)

    module _ (net : ℕ → Delivery) (batch_size flush_interval : ℕ) where
      flush-keeps :
          (rs : List (Value N)) (p : Producer (Object N)) (e : Value N)
          → Stored e p.log
          → Stored e (flush same net batch_size flush_interval rs p).0.log
      unfolding flush
      flush-keeps rs p e s = go (grouped same rs []) refl
        where
          go :
              (g : Option (List (Object N)))
              → grouped same rs [] ≡ g
              → Stored e (flush same net batch_size flush_interval rs p).0.log
          go none made = rw (made, flush) s
          go (some os) made = rw (made, flush) (Stored-grow net os p e s)

      flush-Stored :
          (rs : List (Value N)) (p : Producer (Object N)) (e : Value N)
          → (flush same net batch_size flush_interval rs p).1 ≡ true
          → In e rs
          → Stored e (flush same net batch_size flush_interval rs p).0.log
      unfolding flush
      flush-Stored rs p e returned i = go (grouped same rs []) refl
        where
          go :
              (g : Option (List (Object N)))
              → grouped same rs [] ≡ g
              → Stored e (flush same net batch_size flush_interval rs p).0.log
          go none made = cc (rw (made, flush) at returned)
          go (some os) made =
              let all_sent : (send_all net os p).1 ≡ true = rw (made, flush) at returned in
              let (o, i', h) = grouped-Stored rs [] os e made (inl i) in
              rw (made, flush)
                (o, rw (send_all-log net os p all_sent) (In-append_right o p.log os i'), h)

      -- The events of the committed records are in the bucket, and those of the pending ones are
      -- in the buffer.
      pub record IsKept (w : Writer N) : Type 0 where
        pub committed-Stored : (e : Value N) → In e (events_of w.committed) → Stored e w.store.log
        pub pending-In : (e : Value N) → In e (events_of w.pending) → In e w.buffer

      polled_into-IsKept :
          (t : Turn N) (w : Writer N)
          → IsKept w
          → IsKept (polled_into same net batch_size flush_interval t w)
      polled_into-IsKept t w k = record {
        committed-Stored = k.committed-Stored;
        pending-In = λ e i. elim (In-events e w.pending t.polled i) [
          | inl old ↦ In-append_left e w.buffer (events_of t.polled) (k.pending-In e old)
          | inr new ↦ In-append_right e w.buffer (events_of t.polled) new
        ];
      }

      after_commit-IsKept :
          (commit : Delivery) (now : ℕ) (w : Writer N)
          → IsKept w
          → ((e : Value N) → In e w.buffer → Stored e w.store.log)
          → IsKept (after_commit same net batch_size flush_interval commit now w)
      unfolding events_of
      after_commit-IsKept acked now w k full = record {
        committed-Stored = λ e i. elim (In-events e w.committed w.pending i) [
          | inl old ↦ k.committed-Stored e old
          | inr new ↦ full e (k.pending-In e new)
        ];
        pending-In = λ e i. absurd i;
      }
      after_commit-IsKept lost now w k full = k
      after_commit-IsKept unconfirmed now w k full = record {
        committed-Stored = λ e i. elim (In-events e w.committed w.pending i) [
          | inl old ↦ k.committed-Stored e old
          | inr new ↦ full e (k.pending-In e new)
        ];
        pending-In = λ e i. absurd i;
      }

      flush_and_commit-IsKept :
          (commit : Delivery) (now : ℕ) (w : Writer N)
          → IsKept w
          → IsKept (flush_and_commit same net batch_size flush_interval commit now w)
      flush_and_commit-IsKept commit now w k =
          go (flush same net batch_size flush_interval w.buffer w.store).1 refl
        where
          w' : Writer N
          w' = record w { store = (flush same net batch_size flush_interval w.buffer w.store).0 }

          kept : IsKept w'
          kept = record {
            committed-Stored = λ e i. flush-keeps w.buffer w.store e (k.committed-Stored e i);
            pending-In = k.pending-In;
          }

          go :
              (returned : Bool)
              → (flush same net batch_size flush_interval w.buffer w.store).1 ≡ returned
              → IsKept (after_flush same net batch_size flush_interval returned commit now w')
          go true done =
              after_commit-IsKept commit now w' kept (λ e i. flush-Stored w.buffer w.store e done i)
          go false failed = kept

      write_turn-IsKept :
          (t : Turn N) (w : Writer N)
          → IsKept w
          → IsKept (write_turn same net batch_size flush_interval t w)
      unfolding write_turn
      write_turn-IsKept t w k =
          let k' = polled_into-IsKept t w k in
          elim (Bool-cases (
            should_flush same net batch_size flush_interval t.now
              (polled_into same net batch_size flush_interval t w))) [
                | inl yes' ↦ rw (yes', write_turn) (flush_and_commit-IsKept t.commit t.now _ k')
                | inr wait ↦ rw (wait, write_turn) k'
              ]

      loop-IsKept :
          (ts : List (Turn N)) (w : Writer N)
          → IsKept w
          → IsKept (write_kafka_s3 same net batch_size flush_interval ts w)
      unfolding write_kafka_s3
      loop-IsKept [] w k = k
      loop-IsKept (t ∷ ts) w k = loop-IsKept ts _ (write_turn-IsKept t w k)

      -- Every record polled is accounted for.
      write_turn-records :
          (t : Turn N) (w : Writer N)
          → let w' = write_turn same net batch_size flush_interval t w in
            w'.committed ++ w'.pending ≡ (w.committed ++ w.pending) ++ t.polled
      unfolding write_turn
      write_turn-records t w =
          elim (Bool-cases (should_flush same net batch_size flush_interval t.now u)) [
            | inl due ↦
                rw (due, write_turn)
                  (flushed (flush same net batch_size flush_interval u.buffer u.store).1 t.commit)
            | inr wait ↦ rw (wait, write_turn) polled
          ]
        where
          u : Writer N
          u = polled_into same net batch_size flush_interval t w

          polled : w.committed ++ (w.pending ++ t.polled) ≡ (w.committed ++ w.pending) ++ t.polled
          polled = sym (append_assoc w.committed w.pending t.polled)

          u' : Writer N
          u' = record u { store = (flush same net batch_size flush_interval u.buffer u.store).0 }

          flushed :
              (returned : Bool) (commit : Delivery)
              → let v = after_flush same net batch_size flush_interval returned commit t.now u' in
                v.committed ++ v.pending ≡ (w.committed ++ w.pending) ++ t.polled
          flushed true acked = append-nil (w.committed ++ (w.pending ++ t.polled)) ∙ polled
          flushed true lost = polled
          flushed true unconfirmed = append-nil (w.committed ++ (w.pending ++ t.polled)) ∙ polled
          flushed false commit = polled

      abbrev pub all_polled : List (Turn N) → List (Parsed N)
      all_polled [] = []
      all_polled (t ∷ ts) = t.polled ++ all_polled ts

      loop-records :
          (ts : List (Turn N)) (w : Writer N)
          → let w' = write_kafka_s3 same net batch_size flush_interval ts w in
            w'.committed ++ w'.pending ≡ (w.committed ++ w.pending) ++ all_polled ts
      unfolding write_kafka_s3
      loop-records [] w = sym (append-nil (w.committed ++ w.pending))
      loop-records (t ∷ ts) w =
          loop-records ts (write_turn same net batch_size flush_interval t w)
          ∙ ap (λ l. l ++ all_polled ts) (write_turn-records t w)
          ∙ append_assoc (w.committed ++ w.pending) t.polled (all_polled ts)

      -- Whatever the polls return, whichever puts and commits fail, and however they fail: after any
      -- number of turns of a new writer the committed records and those pending are the polled ones
      -- in their order, each event of a committed record is in the bucket, and each event of a
      -- pending one is in the buffer.
      pub write_kafka_s3-IsKept :
          (start : ℕ) (ts : List (Turn N))
          → let w = write_kafka_s3 same net batch_size flush_interval ts (new_writer start) in
            IsKept w × (w.committed ++ w.pending ≡ all_polled ts)
      unfolding new_writer events_of
      write_kafka_s3-IsKept start ts = (
        loop-IsKept ts (new_writer start)
            (record { committed-Stored = λ e i. absurd i; pending-In = λ e i. absurd i }),
        loop-records ts (new_writer start),
      )
