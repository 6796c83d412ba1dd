-- ===== src/Registry/Soundness/Devices/Deleting.antt =====
-- The removal of a device, and the event that deregisters it.
use meshtastic_things.Prelude.{
  ℕ, String, true, false, not, ◌≡◌, refl, ◌⊎◌, inl, inr, Option, List, [], ◌∷◌, ◌++◌, arith,
  Bool-cases, select, str_eq, eq_iff,
}
use meshtastic_things.Prelude.Members.{In, In-select_of, In-find}
use meshtastic_things.Kafka.{Delivery}
use meshtastic_things.Registry.Models.{
  Owner, Device, Message, World, is_live_gateway, is_rejected_node,
}
use meshtastic_things.Registry.Models.Tables.{IsConsistent, IsConsistent-select}
use meshtastic_things.Registry.Requests.Ends.{Ends, Ends-write}
use meshtastic_things.Registry.Publisher.{gateway_delete, node_unreject, publish_each}
use meshtastic_things.Registry.Publisher.Sending.{publish_each-tables, publish_each-log}
use meshtastic_things.Registry.Access.Rules.{
  Ends-verified, Ends-device, Ends-mesh_of, Ends-mesh_ownership, Ends-publish,
}
use meshtastic_things.Registry.Devices.{device_delete, deregistration, delete_device}
use meshtastic_things.Registry.Decoders.Invariant.{
  Covers, Covers-delete, Covers-unreject, Covers-deregistered,
}
use meshtastic_things.Registry.Soundness.{Sound, publish_each-Sound}

only : {x y : Message} → In x (y ∷ []) → x ≡ y
only (inl e) = e
only (inr i) = absurd i

module _ (net : ℕ → Delivery) (caller : Option Owner) where
  deregistration-Covers :
      (d : Device) (devices : List Device) (log : List Message)
      → IsConsistent devices
      → In d devices
      → Covers devices log
      → Covers (select (λ (e : Device). not (str_eq e.id d.id)) devices) (log ++ deregistration d)
  deregistration-Covers d devices log c i h =
      go (Bool-cases (is_live_gateway d)) (Bool-cases (is_rejected_node d))
    where
      stays :
          (e : Device)
          → In e devices
          → str_eq e.id d.id ≡ false
          → In e (select (λ (e : Device). not (str_eq e.id d.id)) devices)
      stays e j other =
          In-select_of (λ (e : Device). not (str_eq e.id d.id)) e devices j (rw other refl)

      is_row : (e : Device) → In e devices → str_eq e.id d.id ≡ true → e ≡ d
      is_row e j same = c.pk e d j i ((eq_iff e.id d.id).0 same)

      leave :
          (gs : List Device)
          → (is_live_gateway d ≡ true → In d gs)
          → (e : Device) → In e devices
          → is_live_gateway e ≡ true
          → In e gs ⊎ In e (select (λ (e : Device). not (str_eq e.id d.id)) devices)
      leave gs gone e j live = elim (Bool-cases (str_eq e.id d.id)) [
        | inl same ↦ let q = is_row e j same in inl (rw q (gone (rw q at live)))
        | inr other ↦ inr (stays e j other)
      ]

      go :
          (is_live_gateway d ≡ true) ⊎ (is_live_gateway d ≡ false)
          → (is_rejected_node d ≡ true) ⊎ (is_rejected_node d ≡ false)
          → Covers
              (select (λ (e : Device). not (str_eq e.id d.id)) devices)
              (log ++ deregistration d)
      go (inl live) r =
          simp live (Covers-deregistered (d ∷ []) [] (leave (d ∷ []) (λ l. inl refl)) h)
      go (inr dead) (inl rejected) =
          simp (dead, rejected) (Covers-deregistered [] (d ∷ []) (leave [] (λ l. ground arith)) h)
      go (inr dead) (inr other) =
          simp (dead, other) (Covers-deregistered [] [] (leave [] (λ l. ground arith)) h)

  deregistration-keep :
      (d : Device) (devices : List Device) (m : Message)
      → In m (deregistration d)
      → (log : List Message) → Covers devices log
      → Covers devices (log ++ m ∷ [])
  deregistration-keep d devices m i log h =
      go (Bool-cases (is_live_gateway d)) (Bool-cases (is_rejected_node d)) i
    where
      go :
          (is_live_gateway d ≡ true) ⊎ (is_live_gateway d ≡ false)
          → (is_rejected_node d ≡ true) ⊎ (is_rejected_node d ≡ false)
          → In m (deregistration d)
          → Covers devices (log ++ m ∷ [])
      go (inl live) r i =
          let j : In m (gateway_delete d ∷ []) = simp live at i in rw (only j) (Covers-delete d h)
      go (inr dead) (inl rejected) i =
          let j : In m (node_unreject d ∷ []) = simp (dead, rejected) at i in
          rw (only j) (Covers-unreject d h)
      go (inr dead) (inr other) i = absurd (simp (dead, other) at i)

  deleted-Sound :
      (d : Device) (w : World)
      → In d w.devices
      → Sound w
      → (publish_each net (deregistration d) w).1 ≡ true
      → Sound (delete_device d.id (publish_each net (deregistration d) w).0)
  unfolding delete_device
  deleted-Sound d w i s sent = record {
    consistent =
        IsConsistent-select (λ (e : Device). not (str_eq e.id d.id))
          (publish_each net (deregistration d) w).0.devices
          (rw (publish_each-tables net (deregistration d) w).0 s.consistent);
    covers =
        rw
          (
            (publish_each-tables net (deregistration d) w).0,
            publish_each-log net (deregistration d) w sent,
          )
          (deregistration-Covers d w.devices w.producer.log s.consistent i s.covers);
  }

  pub device_delete-Sound :
      (id : String) (w : World) → Sound w → Ends Sound (λ _. Sound) (device_delete net caller id w)
  unfolding device_delete
  device_delete-Sound id w s = Ends-verified caller _ w s λ user _ _.
      Ends-device _ _ w s λ device found. Ends-mesh_of device _ w s λ mesh _.
        Ends-mesh_ownership mesh user _ w s λ _.
          Ends-publish net _ _ _ _
            (λ sent.
              Ends-write _ _ (deleted-Sound device w (In-find _ device w.devices found).0 s sent))
            λ failed. publish_each-Sound net _ w (deregistration-keep device w.devices) s
