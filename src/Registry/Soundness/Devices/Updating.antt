-- ===== src/Registry/Soundness/Devices/Updating.antt =====
-- A change of a device, its events, and the rollback of `is_allowed` where an event is lost.
use meshtastic_things.Prelude.{
  ◌||◌, ℕ, String, Bool, true, false, not, ◌≡◌, refl, ◌∙◌, inl, inr, Option, none, some, List,
  arith, Bool-cases, is_some, str_eq,
}
use meshtastic_things.Prelude.Members.{In, In-find}
use meshtastic_things.Kafka.{Delivery}
use meshtastic_things.Registry.Models.{
  Blueprint, blueprint_by_pk, Owner, Mesh, Device, World, save_device, violates_allowed,
}
use meshtastic_things.Registry.Models.Tables.{
  save_device-save_device, violates_allowed-Fits, IsConsistent-save, Fits,
}
use meshtastic_things.Registry.Requests.{
  ensure, validation_error, permission_denied, Handler, ◌>>=◌, respond,
}
use meshtastic_things.Registry.Requests.Ends.{
  Ends-lookup, Ends-ensures, Ends-bind, Ends, Ends-respond, Ends-ensure, Ends-gets, Ends-bind_write,
}
use meshtastic_things.Registry.Publisher.{device_intervals, publish_each, publish_best_effort}
use meshtastic_things.Registry.Publisher.Sending.{
  publish-tables, publish-log, IsReliable, publish_each-tables, publish_each-log, publish_each-lost,
}
use meshtastic_things.Registry.Access.Rules.{
  Ends-verified, Ends-device, Ends-mesh_of, Ends-mesh_ownership, Ends-publish,
}
use meshtastic_things.Registry.Devices.{
  restore_allowed, changed, allowance_event, DeviceUpdate, device_put, apply_update,
  apply_overrides, allowance_change, check_blueprint, publish_intervals,
}
use meshtastic_things.Registry.Decoders.Invariant.{Covers, Covers-intervals}
use meshtastic_things.Registry.Soundness.{Sound}
use meshtastic_things.Registry.Soundness.Devices.Replacing.{
  Amends, Covers-save, allowance_change-Covers,
}

free_of : (b : Bool) → not b ≡ true → b ≡ false
free_of false h = refl
free_of true h = ground arith

module _ (net : ℕ → Delivery) (caller : Option Owner) where
  -- `w'` is `w` with the row replaced, when only messages that keep the agreement were published.
  record Saved (u : Device) (w w' : World) : Type 0 where
    devices : w'.devices ≡ save_device u w.devices
    covers : Covers w.devices w'.producer.log

  Ends-check_blueprint :
      {B : Type 0} {E : World → Type 0} {Q : B → World → Type 0} (value : Option (Option String))
      (mesh : Mesh) (user : Owner) (f : Unit {0} → Handler World B) (w : World)
      → E w
      → Ends E Q (f tt w)
      → Ends E Q ((check_blueprint value mesh user >>= f) w)
  unfolding ◌>>=◌
  Ends-check_blueprint none mesh user f w h k = k
  Ends-check_blueprint (some none) mesh user f w h k = k
  Ends-check_blueprint {B} {E} {Q} (some (some id)) mesh user f w h k =
      Ends-bind f w (check_blueprint (some (some id)) mesh user) (λ _ w'. w' ≡ w)
        (Ends-lookup {A = Blueprint}
          (λ b. ensure (user.is_superuser || str_eq b.owner_id mesh.owner_id) permission_denied) w
          validation_error (λ v. blueprint_by_pk id v.blueprints) h
          λ b found.
            Ends-ensures w (user.is_superuser || str_eq b.owner_id mesh.owner_id) permission_denied
              h λ _. refl)
        λ _ w' same. rw same k

  Ends-best_effort :
      (d : Device) (w w' : World)
      → Saved d w w'
      → Ends Sound (λ _. Saved d w) (publish_best_effort net (device_intervals d) w')
  unfolding publish_best_effort
  Ends-best_effort d w w' s = record {
    at = record {
      devices = (publish-tables net (device_intervals d) w').0 ∙ s.devices;
      covers = elim (publish-log net (device_intervals d) w').0 [
        | inl more ↦ rw more (Covers-intervals d s.covers)
        | inr same ↦ rw same s.covers
      ];
    };
  }

  publish_intervals-Saved :
      (u : DeviceUpdate) (d : Device) (w w' : World)
      → Saved d w w'
      → Ends Sound (λ _. Saved d w) (publish_intervals net caller u d w')
  unfolding respond
  publish_intervals-Saved u d w w' s =
      elim (Bool-cases (is_some u.reading_interval_seconds || is_some u.publish_interval_seconds)) [
        | inl given ↦ simp given (Ends-best_effort d w w' s)
        | inr absent ↦ simp absent (record { at = s })
      ]

  amended : (u : DeviceUpdate) (d : Device) → Amends (apply_overrides u (apply_update u d)) d
  unfolding apply_overrides apply_update
  amended u d = record { id = refl; device_id = refl; mesh_id = refl; is_gateway = refl }

  put-Fits :
      (u : DeviceUpdate) (d : Device) (devices : List Device)
      → violates_allowed (apply_update u d) devices ≡ false
      → Fits (apply_overrides u (apply_update u d)) devices
  unfolding apply_overrides
  put-Fits u d devices free = violates_allowed-Fits (apply_update u d) devices free

  -- All events published.
  put-Sound :
      (device u : Device) (mesh : Mesh) (w w' : World)
      → Amends u device
      → In device w.devices
      → Fits u w.devices
      → Sound w
      → Saved u w w'
      → (publish_each net (allowance_change device u mesh) w').1 ≡ true
      → Sound (publish_each net (allowance_change device u mesh) w').0
  put-Sound device u mesh w w' a i fits s saved sent = record {
    consistent =
        rw ((publish_each-tables net (allowance_change device u mesh) w').0, saved.devices)
          (IsConsistent-save u w.devices s.consistent fits);
    covers =
        rw
          (
            publish_each-log net (allowance_change device u mesh) w' sent,
            (publish_each-tables net (allowance_change device u mesh) w').0,
            saved.devices,
          )
          (allowance_change-Covers a s.consistent i mesh saved.covers);
  }

  restored-Sound :
      IsReliable net
      → (device u : Device) (mesh : Mesh) (w w' : World) → Amends u device
      → In device w.devices
      → Sound w
      → Saved u w w'
      → (publish_each net (allowance_change device u mesh) w').1 ≡ false
      → Sound (restore_allowed device u (publish_each net (allowance_change device u mesh) w').0)
  restored-Sound reliable device u mesh w w' a i s saved lost =
      let r : Device = record u { is_allowed = device.is_allowed } in
      let b : Amends r device = record {
        id = a.id;
        device_id = a.device_id;
        mesh_id = a.mesh_id;
        is_gateway = a.is_gateway;
      } in
      let rows : save_device r (publish_each net (allowance_change device u mesh) w').0.devices
          ≡ save_device r w.devices =
        rw ((publish_each-tables net (allowance_change device u mesh) w').0, saved.devices)
          (save_device-save_device r u w.devices refl) in
      record {
        consistent = rw rows (
            IsConsistent-save r w.devices s.consistent (λ e j p q same.
              rw a.id (s.consistent.allowed e device j i q p (same ∙ a.device_id))));
        covers =
            rw
              (
                rows,
                publish_each-lost net (changed device.is_allowed u.is_allowed)
                    (allowance_event u mesh) w' reliable lost,
              )
              (Covers-save b s.consistent i (λ live. ground (arith, a.is_gateway)) saved.covers);
      }

  pub device_put-Sound :
      IsReliable net
      → (id : String) (u : DeviceUpdate) (w : World) → Sound w
      → Ends Sound (λ _. Sound) (device_put net caller id u w)
  unfolding device_put
  device_put-Sound reliable id u w s = Ends-verified caller _ w s λ user _ _.
      Ends-device _ _ w s λ device found. Ends-mesh_of device _ w s λ mesh _.
        Ends-mesh_ownership mesh user _ w s λ _. Ends-ensure _ w _ _ s λ _.
          Ends-ensure _ w _ _ s λ _. Ends-check_blueprint _ mesh user _ w s (
            Ends-gets _ w _ (
              Ends-ensure _ w _ _ s λ free. Ends-bind_write _ w _ (
                Ends-bind _ _ _ _
                  (publish_intervals-Saved u _ w _ (record { devices = refl; covers = s.covers }))
                  λ _ w' saved.
                    Ends-publish net _ _ _ _
                      (λ sent. Ends-respond _ _ (
                        put-Sound device (apply_overrides u (apply_update u device)) mesh w w'
                          (amended u device) (In-find _ device w.devices found).0
                          (put-Fits u device w.devices (free_of _ free)) s saved sent))
                      λ lost.
                        restored-Sound reliable device (apply_overrides u (apply_update u device))
                          mesh w w' (amended u device) (In-find _ device w.devices found).0 s saved
                          lost)))
