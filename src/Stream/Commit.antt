-- ===== src/Stream/Commit.antt =====
-- When the lite consumer commits, and what the committed records have sent.
use meshtastic_things.Prelude.{
  ℕ, ◌+◌, Bool, true, false, ◌≡◌, refl, ap, sym, ◌∙◌, String, List, [], ◌∷◌, ◌++◌, arith, length,
  Bool-cases, inl, inr, ◌⊎◌,
}
use mathlib.Core.List.{append_assoc, append-nil}
use meshtastic_things.Kafka.{Delivery, acked, lost, Producer, send, send_all}
use meshtastic_things.Kafka.Sends.{send_all-log, send_all-acked}
use meshtastic_things.Codec.{Bytes, Library, Step, raised, dropped, passed}
use meshtastic_things.Decode.{Events, decode_packet}
use meshtastic_things.Config.{LiteState}
use meshtastic_things.Stream.{
  Message, messages_of, Offsets, publish, consume_record, consume_records, consume_poll,
}
use meshtastic_things.Stream.Tiers.{outputs}

module _ (lib : Library) (net : ℕ → Delivery) (config : LiteState) where
  open lib use {Number}

  -- What all records of a batch send.
  abbrev pub all_outputs : List Bytes → List (Message Number)
  all_outputs [] = []
  all_outputs (raw ∷ records) = outputs lib raw config ++ all_outputs records

  consume_record-log :
      (raw : Bytes) (p : Producer (Message Number))
      → (consume_record lib net config raw p).1 ≡ true
      → (consume_record lib net config raw p).0.log ≡ p.log ++ outputs lib raw config
  unfolding consume_record
  consume_record-log raw p h =
      go (decode_packet lib raw config.gateway_state config.rejected_nodes) refl h
    where
      go :
          (d : Step (Events Number))
          → decode_packet lib raw config.gateway_state config.rejected_nodes ≡ d
          → (consume_record lib net config raw p).1 ≡ true
          → (consume_record lib net config raw p).0.log ≡ p.log ++ outputs lib raw config
      go raised e h = rw (e, consume_record) (sym (append-nil p.log))
      go (dropped reason) e h = rw (e, consume_record) (sym (append-nil p.log))
      go (passed events) e h =
          rw (e, consume_record)
            (send_all-log net (messages_of events) p (rw (e, consume_record) at h))

  -- A failure once seen is not forgotten.
  consume_records-failed :
      (records : List Bytes) (p : Producer (Message Number))
      → (consume_records lib net config records (p, false)).1 ≡ false
  unfolding consume_records
  consume_records-failed [] p = refl
  consume_records-failed (raw ∷ records) p =
      consume_records-failed records (consume_record lib net config raw p).0

  consume_records-log :
      (records : List Bytes) (p : Producer (Message Number))
      → (consume_records lib net config records (p, true)).1 ≡ true
      → (consume_records lib net config records (p, true)).0.log ≡ p.log ++ all_outputs records
  unfolding consume_records
  consume_records-log [] p h = sym (append-nil p.log)
  consume_records-log (raw ∷ records) p h =
      go (consume_record lib net config raw p).1 refl h
        (consume_records-log records (consume_record lib net config raw p).0)
    where
      go :
          (sent : Bool)
          → (consume_record lib net config raw p).1 ≡ sent
          → (consume_records lib net config records
              ((consume_record lib net config raw p).0, sent)).1
            ≡ true
          → ((consume_records lib net config records
                  ((consume_record lib net config raw p).0, true)).1
                ≡ true
              → (consume_records lib net config records
                  ((consume_record lib net config raw p).0, true)).0.log
                ≡ (consume_record lib net config raw p).0.log ++ all_outputs records)
          → (consume_records lib net config records
              ((consume_record lib net config raw p).0, sent)).0.log
            ≡ p.log ++ (outputs lib raw config ++ all_outputs records)
      go true e h ih =
          ih h
          ∙ ap (λ l. l ++ all_outputs records) (consume_record-log raw p e)
          ∙ append_assoc p.log (outputs lib raw config) (all_outputs records)
      go false e h ih = cc (consume_records-failed records (consume_record lib net config raw p).0)

  -- A poll either commits or not. If it commits, every message of each of its records is on the
  -- topics, after those that were there, once each and in the order of the records, and the commit
  -- covers all that was polled; if it does not, the committed offset stays.
  pub consume_poll-commit :
      (raw : Bytes) (records : List Bytes) (p : Producer (Message Number)) (o : Offsets)
      → let next = consume_poll lib net config (raw ∷ records) (p, o) in
        (next.1.polled ≡ o.polled + length (raw ∷ records))
        × (((next.1.committed ≡ next.1.polled)
              × (next.0.log ≡ p.log ++ all_outputs (raw ∷ records)))
            ⊎ (next.1.committed ≡ o.committed))
  unfolding consume_poll
  consume_poll-commit raw records p o =
      elim (Bool-cases (consume_records lib net config (raw ∷ records) (p, true)).1) [
        | inl fine ↦ ground (arith, consume_records-log (raw ∷ records) p fine)
        | inr failed ↦ ground arith
      ]

  consume_record-acked :
      (raw : Bytes) (p : Producer (Message Number))
      → ((n : ℕ) → net n ≡ acked)
      → (consume_record lib net config raw p).1 ≡ true
  unfolding consume_record
  consume_record-acked raw p healthy =
      elim (decode_packet lib raw config.gateway_state config.rejected_nodes)
        as (λ d.
          (elim d as (λ _. Producer (Message Number) × Bool) [
            | raised ↦ (p, true)
            | dropped reason ↦ (p, true)
            | passed events ↦ publish lib net config events p
          ]).1
          ≡ true) [
            | raised ↦ refl
            | dropped reason ↦ refl
            | passed events ↦ send_all-acked net (messages_of events) p healthy
          ]

  consume_records-acked :
      (records : List Bytes) (p : Producer (Message Number))
      → ((n : ℕ) → net n ≡ acked)
      → (consume_records lib net config records (p, true)).1 ≡ true
  unfolding consume_records
  consume_records-acked [] p healthy = refl
  consume_records-acked (raw ∷ records) p healthy =
      ap
        (λ sent.
          (consume_records lib net config records
            ((consume_record lib net config raw p).0, sent)).1)
        (consume_record-acked raw p healthy)
      ∙ consume_records-acked records (consume_record lib net config raw p).0 healthy

  -- With a broker that confirms every message, every poll commits.
  pub consume_poll-acked :
      (raw : Bytes) (records : List Bytes) (p : Producer (Message Number)) (o : Offsets)
      → ((n : ℕ) → net n ≡ acked)
      → (consume_poll lib net config (raw ∷ records) (p, o)).1.committed
        ≡ o.polled + length (raw ∷ records)
  unfolding consume_poll
  consume_poll-acked raw records p o healthy =
      ground (arith, consume_records-acked (raw ∷ records) p healthy)

  -- The client's position moves on although nothing was committed: a poll whose event could not be
  -- sent, followed by one that sends nothing, commits past the lost event.
  pub failed_publish_is_skipped :
      (raw raw' : Bytes) (events : Events Number) (reason : String) (p : Producer (Message Number))
      (o : Offsets)
      → decode_packet lib raw config.gateway_state config.rejected_nodes ≡ passed events
      → decode_packet lib raw' config.gateway_state config.rejected_nodes ≡ dropped reason
      → net p.attempts ≡ lost
      → let next =
          consume_poll lib net config (raw' ∷ []) (consume_poll lib net config (raw ∷ []) (p, o)) in
        (next.1.committed ≡ o.polled + 2) × (next.0.log ≡ p.log)
  unfolding consume_poll send_all send
  failed_publish_is_skipped raw raw' events reason p o e e' l = ground arith
