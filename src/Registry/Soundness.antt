-- ===== src/Registry/Soundness.antt =====
-- The registry's tables and what the decoders hold agree: every view of keyapi/registry/views.py
-- that changes a row or publishes keeps this.
pub mod Meshes
pub mod Devices
pub mod Owners
pub mod Sightings
use meshtastic_things.Prelude.{ℕ, Bool, true, false, ◌≡◌, List, [], ◌∷◌, ◌++◌}
use meshtastic_things.Prelude.Members.{In}
use meshtastic_things.Kafka.{Delivery}
use meshtastic_things.Registry.Models.{Device, Message, World}
use meshtastic_things.Registry.Models.Tables.{IsConsistent}
use meshtastic_things.Registry.Publisher.{publish_each}
use meshtastic_things.Registry.Publisher.Sending.{publish_each-tables, publish_each-keeps}
use meshtastic_things.Registry.Decoders.Invariant.{Covers}

-- The table satisfies its constraints, and every gateway that the decoders accept is an allowed
-- gateway of the table, on the mesh that they file its packets under.
pub record Sound (w : World) : Type 0 where
  pub consistent : IsConsistent w.devices
  pub covers : Covers w.devices w.producer.log

-- Whether all or the first few of a list of messages that keep the agreement were published.
pub publish_each-Sound :
    (net : ℕ → Delivery) (ms : List Message) (w : World)
    → ((m : Message)
        → In m ms
        → (log : List Message) → Covers w.devices log
        → Covers w.devices (log ++ m ∷ []))
    → Sound w
    → Sound (publish_each net ms w).0
publish_each-Sound net ms w keep s = record {
  consistent = rw (publish_each-tables net ms w).0 s.consistent;
  covers =
      rw (publish_each-tables net ms w).0
        (publish_each-keeps (Covers w.devices) net ms w keep s.covers);
}
