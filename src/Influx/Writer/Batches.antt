-- ===== src/Influx/Writer/Batches.antt =====
-- What the loop of the writer to InfluxDB writes, and what it commits.
use meshtastic_things.Prelude.{ℕ, suc, ◌≡◌, refl, sym, ap, ◌∙◌, List, [], ◌∷◌, ◌++◌}
use mathlib.Core.List.{append_assoc, append-nil}
use meshtastic_things.Kafka.{Delivery, acked, lost, unconfirmed, send}
use meshtastic_things.Influx.{Python, Point}
use meshtastic_things.Influx.Writer.{
  Parsed, State, Turn, start, points_of, points_in, write_points, write_turn, write_kafka_influx,
}

abbrev pub joined : {A : Type 0} → List (List A) → List A
joined [] = []
joined (l ∷ ls) = l ++ joined ls

abbrev pub records_of : {N : Type 0} → List (Turn N) → List (Parsed N)
records_of [] = []
records_of (t ∷ turns) = t.polled ++ records_of turns

module _ {A : Type 0} where
  joined-append : (ls : List (List A)) (l : List A) → joined (ls ++ l ∷ []) ≡ joined ls ++ l
  joined-append [] l = append-nil l
  joined-append (m ∷ ls) l =
      ap (λ r. m ++ r) (joined-append ls l) ∙ sym (append_assoc m (joined ls) l)

module _ {N : Type 0} (py : Python N) where
  points_in-append :
      (rs qs : List (Parsed N)) → points_in py (rs ++ qs) ≡ points_in py rs ++ points_in py qs
  unfolding points_in
  points_in-append [] qs = refl
  points_in-append (r ∷ rs) qs =
      ap (λ l. points_of py r ++ l) (points_in-append rs qs)
      ∙ sym (append_assoc (points_of py r) (points_in py rs) (points_in py qs))

  module _ (net : ℕ → Delivery) where
    module _ (reliable : (n : ℕ) → net n ≡ acked) where
      write_points-log :
          (commit : Delivery) (points : List (Point N)) (s : State N)
          → joined (write_points py net commit points s).bucket.log ≡ joined s.bucket.log ++ points
      unfolding send
      write_points-log commit [] s = sym (append-nil (joined s.bucket.log))
      write_points-log acked (p ∷ points) s =
          rw (reliable s.bucket.attempts) (joined-append s.bucket.log (p ∷ points))
      write_points-log lost (p ∷ points) s =
          rw (reliable s.bucket.attempts) (joined-append s.bucket.log (p ∷ points))
      write_points-log unconfirmed (p ∷ points) s =
          rw (reliable s.bucket.attempts) (joined-append s.bucket.log (p ∷ points))

      run-log :
          (turns : List (Turn N)) (s : State N)
          → joined (write_kafka_influx py net turns s).bucket.log
            ≡ joined s.bucket.log ++ points_in py (records_of turns)
      unfolding write_kafka_influx write_turn points_in
      run-log [] s = sym (append-nil (joined s.bucket.log))
      run-log (t ∷ turns) s =
          run-log turns (write_turn py net t s)
          ∙ ap (λ r. r ++ points_in py (records_of turns))
              (write_points-log t.commit (points_in py t.polled) _)
          ∙ append_assoc (joined s.bucket.log) (points_in py t.polled) _
          ∙ ap (λ r. joined s.bucket.log ++ r) (sym (points_in-append t.polled (records_of turns)))

      -- While every write is confirmed, and whichever commits fail, the batches in the bucket hold the
      -- points of all polled messages: each once, in the order of the messages, and none of a bad one.
      pub joined-write_kafka_influx :
          (turns : List (Turn N))
          → joined (write_kafka_influx py net turns start).bucket.log
            ≡ points_in py (records_of turns)
      unfolding start
      joined-write_kafka_influx turns = run-log turns start

    -- A poll whose points could not be written, followed by one whose points are written and
    -- committed: the offset then stands after both, and of the first no point is in the bucket.
    pub failed_write_is_skipped :
        (first second : Turn N) (s : State N) (p q : Point N) (ps qs : List (Point N))
        → points_in py first.polled ≡ p ∷ ps
        → points_in py second.polled ≡ q ∷ qs
        → net s.bucket.attempts ≡ lost
        → net (suc s.bucket.attempts) ≡ acked
        → second.commit ≡ acked
        → let end = write_turn py net second (write_turn py net first s) in
          (end.committed ≡ s.committed ++ (s.pending ++ first.polled ++ second.polled))
          × (end.pending ≡ [])
          × (end.bucket.log ≡ s.bucket.log ++ (q ∷ qs) ∷ [])
    unfolding write_turn send
    failed_write_is_skipped first second s p q ps qs e1 e2 failed written committed =
        rw (e1, failed, e2, written, committed) (refl, refl, refl)
