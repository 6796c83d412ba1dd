-- ===== src/Registry/Soundness/Meshes.antt =====
-- The mesh views keep the tables and the decoders in agreement.
use meshtastic_things.Prelude.{
  ℕ, String, true, not, ◌≡◌, refl, ◌⊎◌, inl, inr, Option, List, [], ◌∷◌, ◌++◌, map, Bool-cases,
  select, is_some, str_eq,
}
use meshtastic_things.Prelude.Members.{In, In-append, In-select, In-select_of, In-map}
use meshtastic_things.Kafka.{Delivery}
use meshtastic_things.Registry.Models.{
  Owner, Mesh, Device, Message, World, save_mesh, devices_of, is_live_gateway,
}
use meshtastic_things.Registry.Models.Tables.{IsConsistent-select}
use meshtastic_things.Registry.Requests.Ends.{
  Ends, Ends-respond, Ends-write, Ends-ensure, Ends-gets, Ends-bind_write,
}
use meshtastic_things.Registry.Publisher.{
  gateway_upsert, gateway_delete, node_unreject, publish_each,
}
use meshtastic_things.Registry.Publisher.Sending.{publish_each-tables, publish_each-log}
use meshtastic_things.Registry.Access.Rules.{
  Ends-verified, Ends-mesh, Ends-mesh_ownership, Ends-publish,
}
use meshtastic_things.Registry.Meshes.{
  MeshUpdate, mesh_create, mesh_put, mesh_delete, live_gateways, rejected_nodes, deregistrations,
  delete_mesh, key_changes, apply_update,
}
use meshtastic_things.Registry.Decoders.Invariant.{
  Covers, Covers-upsert, Covers-delete, Covers-unreject, Covers-deregistered,
}
use meshtastic_things.Registry.Soundness.{Sound, publish_each-Sound}

module _ (net : ℕ → Delivery) (caller : Option Owner) where
  pub mesh_create-Sound :
      (id channel_id psk_b64 : String) (label : Option String) (w : World)
      → Sound w
      → Ends Sound (λ _. Sound) (mesh_create net caller id channel_id psk_b64 label w)
  unfolding mesh_create
  mesh_create-Sound id channel_id psk_b64 label w s = Ends-verified caller _ w s λ user _ _.
      Ends-gets _ w _ (
        Ends-ensure _ w _ _ s λ _.
          Ends-bind_write _ w _
            (Ends-respond _ _ (record { consistent = s.consistent; covers = s.covers })))

  key_changes-keep :
      (u : MeshUpdate) (updated : Mesh) (w : World) (m : Message)
      → In m (key_changes u updated w)
      → (log : List Message) → Covers w.devices log
      → Covers w.devices (log ++ m ∷ [])
  key_changes-keep u updated w m i log h = elim (Bool-cases (is_some u.psk_b64)) [
    | inl given ↦
        let (d, e, j) =
          In-map (λ d. gateway_upsert d updated) m (live_gateways updated.id w.devices)
            (simp given at i) in
        let (k, live) = In-select is_live_gateway d (devices_of updated.id w.devices) j in
        rw e (
          Covers-upsert d updated (In-select (λ d. str_eq d.mesh_id updated.id) d w.devices k).0
            live h)
    | inr absent ↦ absurd (simp absent at i)
  ]

  pub mesh_put-Sound :
      (mesh_id : String) (u : MeshUpdate) (w : World)
      → Sound w
      → Ends Sound (λ _. Sound) (mesh_put net caller mesh_id u w)
  unfolding mesh_put
  mesh_put-Sound mesh_id u w s = Ends-verified caller _ w s λ user _ _. Ends-mesh _ _ w s λ mesh _.
      Ends-mesh_ownership mesh user _ w s λ _. Ends-bind_write _ w _ (
        Ends-gets _ _ _ (
          Ends-publish net _ _ _ _ (λ sent. Ends-respond _ _ (kept (apply_update u mesh) s))
            λ failed.
              let t = kept (apply_update u mesh) s in
              record { consistent = t.consistent; covers = t.covers }))
    where
      kept :
          (updated : Mesh)
          → Sound w
          → Sound
              (publish_each net
                (key_changes u updated (record w { meshes = save_mesh updated w.meshes }))
                (record w { meshes = save_mesh updated w.meshes })).0
      kept updated s =
          let w' : World = record w { meshes = save_mesh updated w.meshes } in
          publish_each-Sound net (key_changes u updated w') w' (key_changes-keep u updated w')
            (record { consistent = s.consistent; covers = s.covers })

  pub deregistrations-keep :
      (gs ns devices : List Device) (m : Message)
      → In m (deregistrations gs ns)
      → (log : List Message) → Covers devices log
      → Covers devices (log ++ m ∷ [])
  deregistrations-keep gs ns devices m i log h =
      elim (In-append m (map gateway_delete gs) (map node_unreject ns) i) [
        | inl j ↦ let (d, e, k) = In-map gateway_delete m gs j in rw e (Covers-delete d h)
        | inr j ↦ let (d, e, k) = In-map node_unreject m ns j in rw e (Covers-unreject d h)
      ]

  -- A live gateway is deregistered with its mesh, or is another mesh's.
  gone_or_stays :
      (mesh_id : String) (devices : List Device) (d : Device)
      → In d devices
      → is_live_gateway d ≡ true
      → In d (live_gateways mesh_id devices)
        ⊎ In d (select (λ (e : Device). not (str_eq e.mesh_id mesh_id)) devices)
  gone_or_stays mesh_id devices d i live = elim (Bool-cases (str_eq d.mesh_id mesh_id)) [
    | inl same ↦ inl (
        In-select_of is_live_gateway d _
          (In-select_of (λ (e : Device). str_eq e.mesh_id mesh_id) d devices i same) live)
    | inr other ↦
        inr (
          In-select_of (λ (e : Device). not (str_eq e.mesh_id mesh_id)) d devices i (rw other refl))
  ]

  deleted-Sound :
      (mesh : Mesh) (w : World)
      → Sound w
      → (let ms =
            deregistrations (live_gateways mesh.id w.devices) (rejected_nodes mesh.id w.devices) in
          (publish_each net ms w).1 ≡ true → Sound (delete_mesh mesh.id (publish_each net ms w).0))
  unfolding delete_mesh
  deleted-Sound mesh w s sent =
      let gs = live_gateways mesh.id w.devices in
      let ns = rejected_nodes mesh.id w.devices in
      let ms = deregistrations gs ns in
      record {
        consistent =
            IsConsistent-select (λ (e : Device). not (str_eq e.mesh_id mesh.id))
              (publish_each net ms w).0.devices (rw (publish_each-tables net ms w).0 s.consistent);
        covers =
            rw ((publish_each-tables net ms w).0, publish_each-log net ms w sent)
              (Covers-deregistered gs ns (gone_or_stays mesh.id w.devices) s.covers);
      }

  pub mesh_delete-Sound :
      (mesh_id : String) (w : World)
      → Sound w
      → Ends Sound (λ _. Sound) (mesh_delete net caller mesh_id w)
  unfolding mesh_delete
  mesh_delete-Sound mesh_id w s = Ends-verified caller _ w s λ user _ _. Ends-mesh _ _ w s λ mesh _.
      Ends-mesh_ownership mesh user _ w s λ _. Ends-gets _ w _ (
        Ends-publish net _ _ _ _ (λ sent. Ends-write _ _ (deleted-Sound mesh w s sent))
          λ failed. publish_each-Sound net _ w (deregistrations-keep _ _ w.devices) s)
