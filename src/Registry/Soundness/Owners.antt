-- ===== src/Registry/Soundness/Owners.antt =====
-- The deletion of an owner keeps the tables and the decoders in agreement.
use meshtastic_things.Prelude.{
  ℕ, String, true, not, ◌≡◌, refl, sym, ap, ◌∙◌, ◌⊎◌, inl, inr, Option, none, some, List, [], ◌∷◌,
  ◌++◌, map, Bool-cases, select, str_eq,
}
use meshtastic_things.Prelude.Members.{In, In-select_of, In-map_of}
use meshtastic_things.Kafka.{Delivery}
use meshtastic_things.Config.{lite_replay}
use meshtastic_things.Registry.Models.{
  Owner, Device, Blueprint, Message, owner_auth_revocations, World, is_live_gateway,
  is_rejected_node, mesh_by_pk,
}
use meshtastic_things.Registry.Models.Tables.{IsConsistent-select, IsConsistent-map}
use meshtastic_things.Registry.Requests.{respond}
use meshtastic_things.Registry.Requests.Ends.{Ends, Ends-gets, Ends-bind_write}
use meshtastic_things.Registry.Publisher.{
  gateway_kafka_key, publish, publish_each, publish_best_effort,
}
use meshtastic_things.Registry.Publisher.Sending.{
  publish_each-tables, publish_each-log, publish-tables, publish-log,
}
use meshtastic_things.Registry.Access.Rules.{Ends-authenticated, Ends-publish}
use meshtastic_things.Registry.Meshes.{deregistrations}
use meshtastic_things.Registry.Devices.{device_owner, owner_of_mesh}
use meshtastic_things.Registry.Owners.{
  detach, devices_of_owner, delete_owner, owner_me_delete, revoke,
}
use meshtastic_things.Registry.Decoders.Steps.{decoder-append}
use meshtastic_things.Registry.Decoders.Invariant.{
  Registration, Covers, Covers-rows, Covers-deregistered,
}
use meshtastic_things.Registry.Soundness.{Sound, publish_each-Sound}
use meshtastic_things.Registry.Soundness.Meshes.{deregistrations-keep}

Covers-revoked :
    (hash : String) {devices : List Device} {log : List Message}
    → Covers devices log
    → Covers devices (log ++ owner_auth_revocations hash ∷ [])
unfolding lite_replay
Covers-revoked hash {devices} {log} h = record {
  at = λ k st e. h.at k st (
      ap (λ s. s.gateway_state k) (sym (decoder-append log (owner_auth_revocations hash ∷ [])))
      ∙ e);
}

module _ (net : ℕ → Delivery) where
  revoke-Sound :
      (hash : Option String) (w : World) → Sound w → Ends Sound (λ _. Sound) (revoke net hash w)
  unfolding respond publish_best_effort
  revoke-Sound none w s = record { at = s }
  revoke-Sound (some hash) w s = elim (Bool-cases (str_eq hash "")) [
    | inl blank ↦ simp blank (record { at = s })
    | inr named ↦ simp named (record {
      at = record {
        consistent = rw (publish-tables net (owner_auth_revocations hash) w).0 s.consistent;
        covers = rw (publish-tables net (owner_auth_revocations hash) w).0 (sent hash w s);
      };
    })
  ]
    where
      sent :
          (hash : String) (w : World)
          → Sound w
          → Covers w.devices (publish net (owner_auth_revocations hash) w).0.producer.log
      sent hash w s = elim (publish-log net (owner_auth_revocations hash) w).0 [
        | inl more ↦ rw more (Covers-revoked hash s.covers)
        | inr same ↦ rw same s.covers
      ]

  gone_or_stays :
      (id : String) (w : World) (d : Device)
      → In d w.devices
      → is_live_gateway d ≡ true
      → In d (select is_live_gateway (devices_of_owner id w))
        ⊎ In d (select (λ d. not (str_eq (device_owner w d) id)) w.devices)
  gone_or_stays id w d i live = elim (Bool-cases (str_eq (device_owner w d) id)) [
    | inl same ↦ inl (
        In-select_of is_live_gateway d _
          (In-select_of (λ d. str_eq (device_owner w d) id) d w.devices i same) live)
    | inr other ↦
        inr (In-select_of (λ d. not (str_eq (device_owner w d) id)) d w.devices i (simp other refl))
  ]

  detached :
      (id : String) (blueprints : List Blueprint) (devices : List Device) (d : Device)
      → In d devices
      → is_live_gateway d ≡ true
      → Registration (map (detach id blueprints) devices) (gateway_kafka_key d) (some d.mesh_id)
  unfolding gateway_kafka_key
  detached id blueprints devices d i live = record {
    device = detach id blueprints d;
    listed = In-map_of (detach id blueprints) d devices i;
    live = live;
    key = refl;
    mesh = refl;
  }

  deleted-Sound :
      (id : String) (w : World)
      → Sound w
      → (let ms =
            deregistrations
              (select is_live_gateway (devices_of_owner id w))
              (select is_rejected_node (devices_of_owner id w)) in
          (publish_each net ms w).1 ≡ true → Sound (delete_owner id (publish_each net ms w).0))
  unfolding delete_owner
  deleted-Sound id w s sent =
      let gs = select is_live_gateway (devices_of_owner id w) in
      let ns = select is_rejected_node (devices_of_owner id w) in
      let ms = deregistrations gs ns in
      let blueprints = (publish_each net ms w).0.blueprints in
      let rows =
        ap
          (λ meshes.
            select (λ (d : Device). not (str_eq (owner_of_mesh (mesh_by_pk d.mesh_id meshes)) id))
              w.devices)
          (publish_each-tables net ms w).1 in
      record {
        consistent =
            IsConsistent-map (detach id blueprints) _ (λ d. refl) (λ d. refl) (λ d. refl)
              (IsConsistent-select (λ d. not (str_eq (device_owner (publish_each net ms w).0 d) id))
                (publish_each net ms w).0.devices
                (rw (publish_each-tables net ms w).0 s.consistent));
        covers = Covers-rows (detached id blueprints _) (
            rw (publish_each-log net ms w sent, (publish_each-tables net ms w).0, rows)
              (Covers-deregistered gs ns (gone_or_stays id w) s.covers));
      }

  pub owner_me_delete-Sound :
      (caller : Option Owner) (w : World)
      → Sound w
      → Ends Sound (λ _. Sound) (owner_me_delete net caller w)
  unfolding owner_me_delete
  owner_me_delete-Sound caller w s = Ends-authenticated caller _ w s λ user _. Ends-gets _ w _ (
      Ends-publish net _ _ _ _
        (λ sent.
          Ends-bind_write _ _ _ (revoke-Sound user.api_key_hash _ (deleted-Sound user.id w s sent)))
        λ failed. publish_each-Sound net _ w (deregistrations-keep net (some user) _ _ w.devices) s)
