-- ===== src/Registry/Publisher/Sending.antt =====
-- What a sequence of publications leaves of the world: the tables, and the topics.
use mathlib.Core.List.{append_assoc, append-nil}
use meshtastic_things.Prelude.{
  ℕ, Bool, true, false, ◌≡◌, ◌≢◌, refl, sym, ◌⊎◌, inl, inr, List, [], ◌∷◌, ◌++◌, arith, Bool-cases,
  if◌then◌else◌,
}
use meshtastic_things.Prelude.Members.{In}
use meshtastic_things.Kafka.{Delivery, unconfirmed, send}
use meshtastic_things.Registry.Models.{Message, World}
use meshtastic_things.Registry.Publisher.{publish, publish_each}

-- A broker of which a failed send has not delivered.
abbrev pub IsReliable : (ℕ → Delivery) → Type 0
IsReliable net = (n : ℕ) → net n ≢ unconfirmed

pub publish-tables :
    (net : ℕ → Delivery) (m : Message) (w : World)
    → ((publish net m w).0.devices ≡ w.devices)
      × ((publish net m w).0.meshes ≡ w.meshes)
      × ((publish net m w).0.owners ≡ w.owners)
unfolding publish
publish-tables net m w = (refl, refl, refl)

pub publish-log :
    (net : ℕ → Delivery) (m : Message) (w : World)
    → (((publish net m w).0.producer.log ≡ w.producer.log ++ m ∷ [])
        ⊎ ((publish net m w).0.producer.log ≡ w.producer.log))
      × ((publish net m w).1 ≡ true → (publish net m w).0.producer.log ≡ w.producer.log ++ m ∷ [])
unfolding publish send
publish-log net m w = ground arith

-- No table changes.
pub publish_each-tables :
    (net : ℕ → Delivery) (ms : List Message) (w : World)
    → ((publish_each net ms w).0.devices ≡ w.devices)
      × ((publish_each net ms w).0.meshes ≡ w.meshes)
      × ((publish_each net ms w).0.owners ≡ w.owners)
unfolding publish_each
publish_each-tables net [] w = (refl, refl, refl)
publish_each-tables net (m ∷ ms) w =
    ground (arith, publish_each-tables net ms (publish net m w).0, publish-tables net m w)

-- Where all returned, the topics have gained the messages, in order.
pub publish_each-log :
    (net : ℕ → Delivery) (ms : List Message) (w : World)
    → (publish_each net ms w).1 ≡ true
    → (publish_each net ms w).0.producer.log ≡ w.producer.log ++ ms
unfolding publish_each
publish_each-log net [] w h = sym (append-nil w.producer.log)
publish_each-log net (m ∷ ms) w h = ground (
  arith,
  publish_each-log net ms (publish net m w).0,
  publish-log net m w,
  append_assoc w.producer.log (m ∷ []) ms,
)

-- What each message of the list keeps, the whole keeps, whether or not it is completed.
pub publish_each-keeps :
    (P : List Message → Type 0) (net : ℕ → Delivery) (ms : List Message) (w : World)
    → ((m : Message) → In m ms → (log : List Message) → P log → P (log ++ m ∷ []))
    → P w.producer.log
    → P (publish_each net ms w).0.producer.log
unfolding publish_each
publish_each-keeps P net [] w keep h = h
publish_each-keeps P net (m ∷ ms) w keep h = elim (Bool-cases (publish net m w).1) [
  | inl sent ↦
      rw (sent, publish_each)
        (publish_each-keeps P net ms (publish net m w).0 (λ n i. keep n (inr i)) one)
  | inr failed ↦ rw (failed, publish_each) one
]
  where
    one : P (publish net m w).0.producer.log
    one = elim (publish-log net m w).0 [
      | inl more ↦ rw more (keep m (inl refl) w.producer.log h)
      | inr same ↦ rw same h
    ]

-- A single message that a reliable broker has not confirmed is not on the topics.
pub publish_each-lost :
    (net : ℕ → Delivery) (b : Bool) (m : Message) (w : World)
    → IsReliable net
    → (publish_each net (if b then m ∷ [] else []) w).1 ≡ false
    → (publish_each net (if b then m ∷ [] else []) w).0.producer.log ≡ w.producer.log
unfolding publish_each publish send
publish_each-lost net true m w reliable h = ground (arith, reliable w.producer.attempts)
publish_each-lost net false m w reliable h = refl
