-- ===== src/Registry/Soundness/Devices.antt =====
-- The device views keep the tables and the decoders in agreement.
pub mod Replacing
pub mod Updating
pub mod Deleting
use mathlib.Core.List.{append-nil}
use meshtastic_things.Prelude.{
  ℕ, String, Bool, true, false, not, ◌&&◌, ◌≡◌, refl, sym, ap, ◌∙◌, ◌⊎◌, inl, inr, Option, none,
  some, List, [], ◌∷◌, ◌++◌, map, arith, Bool-cases, select, is_some, str_eq, eq_iff, if◌then◌else◌,
}
use meshtastic_things.Prelude.Members.{
  In, In-append, In-append_left, In-append_right, In-select, In-select_of, In-find, find-none,
}
use meshtastic_things.Kafka.{Delivery}
use meshtastic_things.Registry.Models.{
  Owner, Mesh, Device, Message, World, is_live_gateway, save_device, violates_allowed, device_by_pk,
}
use meshtastic_things.Registry.Models.Tables.{
  IsConsistent, IsConsistent-append, IsConsistent-select,
}
use meshtastic_things.Registry.Requests.Ends.{
  Ends, Ends-respond, Ends-write, Ends-ensure, Ends-gets, Ends-bind_write,
}
use meshtastic_things.Registry.Publisher.{
  gateway_upsert, gateway_delete, node_unreject, publish_each,
}
use meshtastic_things.Registry.Publisher.Sending.{
  IsReliable, publish_each-tables, publish_each-log, publish_each-lost,
}
use meshtastic_things.Registry.Access.Rules.{
  Ends-verified, Ends-mesh, Ends-device, Ends-mesh_of, Ends-mesh_ownership, Ends-publish,
}
use meshtastic_things.Registry.Devices.{
  DeviceCreate, DeviceUpdate, new_device, device_create, device_put, device_delete, deregistration,
  delete_device, apply_update, apply_overrides, allowance_change, check_blueprint,
  publish_intervals, location_pair, checked_keys,
}
use meshtastic_things.Registry.Decoders.Invariant.{
  Covers, Covers-rows, Covers-upsert, Covers-delete, Covers-unreject, Covers-deregistered,
  Covers-intervals,
}
use meshtastic_things.Registry.Soundness.{Sound, publish_each-Sound}

abbrev registration_event : Device → Mesh → List Message
registration_event d mesh = if d.is_gateway then gateway_upsert d mesh ∷ [] else []

registration_event-Covers :
    (d : Device) (mesh : Mesh) (devices : List Device) (log : List Message)
    → d.is_allowed ≡ true
    → Covers devices log
    → Covers (devices ++ d ∷ []) (log ++ (if d.is_gateway then gateway_upsert d mesh ∷ [] else []))
registration_event-Covers d mesh devices log allowed h = go (Bool-cases d.is_gateway)
  where
    more : Covers (devices ++ d ∷ []) log
    more =
        Covers-rows
          (λ e i live. record {
            device = e;
            listed = In-append_left e devices (d ∷ []) i;
            live = live;
            key = refl;
            mesh = refl;
          })
          h

    go :
        (d.is_gateway ≡ true) ⊎ (d.is_gateway ≡ false)
        → Covers
            (devices ++ d ∷ [])
            (log ++ (if d.is_gateway then gateway_upsert d mesh ∷ [] else []))
    go (inl gateway) =
        simp gateway
          (Covers-upsert d mesh (In-append_right d devices (d ∷ []) (inl refl)) (ground arith) more)
    go (inr node) = simp (node, append-nil log) more

unrivalled : (a b : Bool) → not a && not b ≡ true → a ≡ false
unrivalled false b h = refl
unrivalled true b h = ground arith

unused : {A : Type 0} (a : Bool) (o : Option A) → not a && not (is_some o) ≡ true → o ≡ none
unused a none h = refl
unused a (some x) h = ground arith

module _ (net : ℕ → Delivery) (caller : Option Owner) where
  abbrev created : Device → World → World
  created d w = record w { devices = w.devices ++ d ∷ [] }

  -- A new row, and its event.
  created-Sound :
      (d : Device) (mesh : Mesh) (w : World)
      → d.is_allowed ≡ true
      → violates_allowed d w.devices ≡ false
      → device_by_pk d.id w.devices ≡ none
      → Sound w
      → (let ms = registration_event d mesh in
          (publish_each net ms (created d w)).1 ≡ true
          → Sound (publish_each net ms (created d w)).0)
  created-Sound d mesh w allowed free fresh s sent =
      let ms = registration_event d mesh in
      record {
        consistent =
            rw (publish_each-tables net ms (created d w)).0
              (IsConsistent-append d w.devices s.consistent free fresh);
        covers =
            rw
              (
                (publish_each-tables net ms (created d w)).0,
                publish_each-log net ms (created d w) sent,
              )
              (registration_event-Covers d mesh w.devices w.producer.log allowed s.covers);
      }

  -- The row is removed again where its event was lost.
  uncreated-Sound :
      IsReliable net
      → (d : Device) (mesh : Mesh) (w : World) → violates_allowed d w.devices ≡ false
      → device_by_pk d.id w.devices ≡ none
      → Sound w
      → (let ms = registration_event d mesh in
          (publish_each net ms (created d w)).1 ≡ false
          → Sound (delete_device d.id (publish_each net ms (created d w)).0))
  unfolding delete_device
  uncreated-Sound reliable d mesh w free fresh s lost =
      let ms = registration_event d mesh in
      record {
        consistent =
            IsConsistent-select (λ (e : Device). not (str_eq e.id d.id))
              (publish_each net ms (created d w)).0.devices
              (rw (publish_each-tables net ms (created d w)).0
                (IsConsistent-append d w.devices s.consistent free fresh));
        covers =
            rw
              (
                (publish_each-tables net ms (created d w)).0,
                publish_each-lost net d.is_gateway (gateway_upsert d mesh) (created d w) reliable
                    lost,
              )
              (Covers-rows
                (λ e i live. record {
                  device = e;
                  listed =
                      In-select_of (λ (e : Device). not (str_eq e.id d.id)) e (w.devices ++ d ∷ [])
                        (In-append_left e w.devices (d ∷ []) i)
                        (rw (find-none (λ (e : Device). str_eq e.id d.id) e w.devices fresh i)
                          refl);
                  live = live;
                  key = refl;
                  mesh = refl;
                })
                s.covers);
      }

  pub device_create-Sound :
      IsReliable net
      → (id : String) (request : DeviceCreate) (w : World) → Sound w
      → Ends Sound (λ _. Sound) (device_create net caller id request w)
  unfolding device_create new_device
  device_create-Sound reliable id request w s = Ends-verified caller _ w s λ user _ _.
      Ends-ensure _ w _ _ s λ _. Ends-ensure _ w _ _ s λ _. Ends-mesh _ _ w s λ mesh _.
        Ends-mesh_ownership mesh user _ w s λ _. Ends-gets _ w _ (
          Ends-ensure _ w _ _ s λ free. Ends-bind_write _ w _ (
            Ends-publish net _ _ _ _
              (λ sent. Ends-respond _ _ (
                created-Sound (new_device id request mesh) mesh w refl (unrivalled _ _ free)
                  (unused _ _ free) s sent))
              λ lost.
                uncreated-Sound reliable (new_device id request mesh) mesh w (unrivalled _ _ free)
                  (unused _ _ free) s lost))
