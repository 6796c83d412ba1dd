-- ===== src/Registry/Soundness/Devices/Replacing.antt =====
-- A row of the table of devices that is saved with a new `is_allowed`, and the event for it.
use mathlib.Core.List.{append-nil}
use meshtastic_things.Prelude.{
  true, false, ◌≡◌, refl, sym, ap, ◌∙◌, ◌⊎◌, inl, inr, some, List, [], ◌∷◌, ◌++◌, arith, Bool-cases,
  str_eq, eq_iff,
}
use meshtastic_things.Prelude.Members.{In}
use meshtastic_things.Registry.Models.{Mesh, Device, Message, is_live_gateway, save_device}
use meshtastic_things.Registry.Models.Tables.{IsConsistent, save_device-In}
use meshtastic_things.Registry.Publisher.{gateway_kafka_key, gateway_delete}
use meshtastic_things.Registry.Devices.{allowance_event, allowance_change}
use meshtastic_things.Registry.Decoders.Invariant.{
  Registration, Covers, Covers-rows, Covers-upsert, Covers-reject, Covers-unreject,
  Covers-deregistered,
}

-- A row with the identity of another.
pub record Amends (u d : Device) : Type 0 where
  pub id : u.id ≡ d.id
  pub device_id : u.device_id ≡ d.device_id
  pub mesh_id : u.mesh_id ≡ d.mesh_id
  pub is_gateway : u.is_gateway ≡ d.is_gateway

module _ {device u : Device} {devices : List Device} (a : Amends u device)
    (c : IsConsistent devices) (i : In device devices) where
  same_key : gateway_kafka_key u ≡ gateway_kafka_key device
  unfolding gateway_kafka_key
  same_key = rw a.device_id refl

  same_delete : gateway_delete u ≡ gateway_delete device
  unfolding gateway_delete
  same_delete = rw (same_key, a.mesh_id) refl

  is_row : (d : Device) → In d devices → str_eq d.id u.id ≡ true → d ≡ device
  is_row d j e = c.pk d device j i ((eq_iff d.id u.id).0 e ∙ a.id)

  pub Covers-save :
      {log : List Message}
      → (is_live_gateway device ≡ true → is_live_gateway u ≡ true)
      → Covers devices log
      → Covers (save_device u devices) log
  Covers-save lives h = Covers-rows keep h
    where
      keep :
          (d : Device)
          → In d devices
          → is_live_gateway d ≡ true
          → Registration (save_device u devices) (gateway_kafka_key d) (some d.mesh_id)
      keep d j live = elim (Bool-cases (str_eq d.id u.id)) [
        | inl same ↦
            let e : d ≡ device = is_row d j same in
            record {
              device = u;
              listed = (save_device-In d u devices j).0 same;
              live = lives (rw e at live);
              key = same_key ∙ ap gateway_kafka_key (sym e);
              mesh = ap (λ (x : Device). some x.mesh_id) e ∙ ap some (sym a.mesh_id);
            }
        | inr other ↦ record {
          device = d;
          listed = (save_device-In d u devices j).1 other;
          live = live;
          key = refl;
          mesh = refl;
        }
      ]

  -- A gateway that is no longer allowed, once its deregistration is published.
  Covers-disallowed :
      {log : List Message}
      → Covers devices log
      → Covers (save_device u devices) (log ++ gateway_delete u ∷ [])
  Covers-disallowed h = rw same_delete (Covers-deregistered (device ∷ []) [] keep h)
    where
      keep :
          (d : Device)
          → In d devices
          → is_live_gateway d ≡ true
          → In d (device ∷ []) ⊎ In d (save_device u devices)
      keep d j live = elim (Bool-cases (str_eq d.id u.id)) [
        | inl same ↦ inl (inl (is_row d j same))
        | inr other ↦ inr ((save_device-In d u devices j).1 other)
      ]

  pub allowance_change-Covers :
      (mesh : Mesh) {log : List Message}
      → Covers devices log
      → Covers (save_device u devices) (log ++ allowance_change device u mesh)
  unfolding allowance_event
  allowance_change-Covers mesh {log} h =
      go (Bool-cases device.is_allowed) (Bool-cases u.is_allowed) (Bool-cases u.is_gateway)
    where
      go :
          (device.is_allowed ≡ true) ⊎ (device.is_allowed ≡ false)
          → (u.is_allowed ≡ true) ⊎ (u.is_allowed ≡ false)
          → (u.is_gateway ≡ true) ⊎ (u.is_gateway ≡ false)
          → Covers (save_device u devices) (log ++ allowance_change device u mesh)
      go (inl was) (inl now) g =
          simp (was, now, append-nil log) (Covers-save (λ live. ground (arith, a.is_gateway)) h)
      go (inl was) (inr now) (inl gw) = simp (was, now, gw) (Covers-disallowed h)
      go (inl was) (inr now) (inr node) =
          simp (was, now, node)
            (Covers-reject u (Covers-save (λ live. ground (arith, a.is_gateway)) h))
      go (inr was) (inl now) (inl gw) =
          simp (was, now, gw)
            (Covers-upsert u mesh
              ((save_device-In device u devices i).0 ((eq_iff device.id u.id).1 (sym a.id)))
              (ground arith) (Covers-save (λ live. ground (arith, a.is_gateway)) h))
      go (inr was) (inl now) (inr node) =
          simp (was, now, node)
            (Covers-unreject u (Covers-save (λ live. ground (arith, a.is_gateway)) h))
      go (inr was) (inr now) g =
          simp (was, now, append-nil log) (Covers-save (λ live. ground (arith, a.is_gateway)) h)
