-- ===== src/Kafka.antt =====
-- A Kafka producer as its callers see it: `producer.send(topic, ...).get(timeout=...)` returns or
-- raises, and where it raises the message may have reached the topic all the same. The broker is
-- not code of this repository: what it does at each attempt is a parameter.
pub mod Sends
use meshtastic_things.Prelude.{ℕ, suc, Bool, true, false, List, [], ◌∷◌, ◌++◌}

-- What becomes of one attempt: confirmed, not delivered, or delivered with no confirmation.
pub data Delivery : Type 0 where
  acked lost unconfirmed : Delivery

-- The messages that reached the topics, the oldest first, and the number of attempts so far.
pub record Producer (M : Type 0) : Type 0 where
  pub log : List M
  pub attempts : ℕ

module _ {M : Type 0} (net : ℕ → Delivery) where
  abbrev attempt : Delivery → M → Producer M → Producer M × Bool
  attempt acked m p = (record { log = p.log ++ m ∷ []; attempts = suc p.attempts }, true)
  attempt lost m p = (record { log = p.log; attempts = suc p.attempts }, false)
  attempt unconfirmed m p = (record { log = p.log ++ m ∷ []; attempts = suc p.attempts }, false)

  -- The new state, and whether the call returned.
  unfoldable pub send : M → Producer M → Producer M × Bool
  send m p = attempt (net p.attempts) m p

  -- Sends in order, up to the first that raises.
  unfoldable pub send_all : List M → Producer M → Producer M × Bool
  send_all [] p = (p, true)
  send_all (m ∷ ms) p =
      let (p', sent) = send m p in elim sent [ true ↦ send_all ms p' | false ↦ (p', false) ]
