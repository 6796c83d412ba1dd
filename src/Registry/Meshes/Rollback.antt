-- ===== src/Registry/Meshes/Rollback.antt =====
-- A change of a mesh's key of which a publication fails: what the table holds afterwards, and what
-- the decoders hold.
use meshtastic_things.Prelude.{
  ℕ, String, true, false, ◌≡◌, refl, ap, ◌∙◌, Option, none, some, List, [], ◌∷◌, ◌++◌, map, arith,
  str_eq, eq_iff, eq_refl, is_some,
}
use meshtastic_things.Kafka.{Delivery, acked, send}
use meshtastic_things.Decode.{GatewayState}
use meshtastic_things.Registry.Models.{Owner, Mesh, Device, Message, World, mesh_by_pk, save_mesh}
use meshtastic_things.Registry.Requests.{raise, bad_gateway}
use meshtastic_things.Registry.Publisher.{gateway_kafka_key, gateway_upsert, publish, publish_each}
use meshtastic_things.Registry.Publisher.Sending.{publish_each-tables, publish_each-keeps}
use meshtastic_things.Prelude.Members.{In, In-map, In-find}
use meshtastic_things.Registry.Access.{owns_mesh}
use meshtastic_things.Registry.Access.Runs.{
  run-verified, run-mesh, run-mesh_ownership, run-write, run-gets, run-lost,
}
use meshtastic_things.Registry.Decoders.{gateways}
use meshtastic_things.Registry.Decoders.Steps.{gateways-upsert}
use meshtastic_things.Registry.Meshes.{
  MeshUpdate, mesh_put, apply_update, live_gateways, restore_psk, key_changes,
}

-- The run of an update that is permitted, and of which a publication fails.
mesh_put-lost :
    (net : ℕ → Delivery) (user : Owner) (mesh : Mesh) (id : String) (u : MeshUpdate) (w : World)
    → user.is_active ≡ true
    → mesh_by_pk id w.meshes ≡ some mesh
    → owns_mesh mesh user ≡ true
    → (let updated = apply_update u mesh in
        let w1 = record w { meshes = save_mesh updated w.meshes } in
        (publish_each net (key_changes u updated w1) w1).1 ≡ false
        → mesh_put net (some user) id u w ≡ (
          raise bad_gateway,
          restore_psk mesh updated (publish_each net (key_changes u updated w1) w1).0,
        ))
unfolding mesh_put
mesh_put-lost net user mesh id u w active found owns lost =
    let updated = apply_update u mesh in
    let w1 : World = record w { meshes = save_mesh updated w.meshes } in
    run-verified w user _ active
    ∙ run-mesh w id mesh _ found
    ∙ run-mesh_ownership w mesh user _ owns
    ∙ run-write w _ _
    ∙ run-gets w1 (key_changes u updated) _
    ∙ run-lost w1 net (key_changes u updated w1) (restore_psk mesh updated) _ lost

abbrev pub decoder_key : Option GatewayState → Option String
decoder_key none = none
decoder_key (some st) = some st.psk_b64

abbrev pub row_key : Option Mesh → Option String
row_key none = none
row_key (some m) = some m.psk_b64

mesh_by_pk-save_mesh :
    (id : String) (m n : Mesh) (meshes : List Mesh)
    → mesh_by_pk id meshes ≡ some n
    → m.id ≡ n.id
    → mesh_by_pk id (save_mesh m meshes) ≡ some m
unfolding save_mesh
mesh_by_pk-save_mesh id m n [] found same = cc
mesh_by_pk-save_mesh id m n (x ∷ meshes) found same =
    ground
      (arith, mesh_by_pk-save_mesh id m n meshes, eq_iff x.id id, eq_iff x.id m.id, eq_iff m.id id)

publish-acked :
    (net : ℕ → Delivery) (m : Message) (w : World)
    → net w.producer.attempts ≡ acked
    → ((publish net m w).0.producer.log ≡ w.producer.log ++ m ∷ []) × ((publish net m w).1 ≡ true)
unfolding publish send
publish-acked net m w first = ground arith

upserts-key :
    (net : ℕ → Delivery) (g : Device) (gs : List Device) (updated : Mesh) (w : World)
    → net w.producer.attempts ≡ acked
    → (let ms = map (λ d. gateway_upsert d updated) (g ∷ gs) in
        decoder_key (gateways (publish_each net ms w).0.producer.log (gateway_kafka_key g))
        ≡ some updated.psk_b64)
unfolding publish_each
upserts-key net g gs updated w first =
    rw (first_sent, publish_each)
      (publish_each-keeps P net (map (λ d. gateway_upsert d updated) gs)
        (publish net (gateway_upsert g updated) w).0 keep one)
  where
    P : List Message → Type 0
    P log = decoder_key (gateways log (gateway_kafka_key g)) ≡ some updated.psk_b64

    first_sent : (publish net (gateway_upsert g updated) w).1 ≡ true
    first_sent = (publish-acked net (gateway_upsert g updated) w first).1

    one : P (publish net (gateway_upsert g updated) w).0.producer.log
    one = rw (publish-acked net (gateway_upsert g updated) w first).0 (
        ground (
          arith,
          gateways-upsert w.producer.log g updated (gateway_kafka_key g),
          eq_refl (gateway_kafka_key g),
        ))

    keep :
        (m : Message)
        → In m (map (λ d. gateway_upsert d updated) gs)
        → (log : List Message) → P log
        → P (log ++ m ∷ [])
    keep m i log h =
        let (d, e, _) = In-map (λ d. gateway_upsert d updated) m gs i in
        rw e (ground (arith, gateways-upsert log d updated (gateway_kafka_key g)))

-- A change of a mesh's key that a publication fails after the first gateway's event was delivered
-- leaves the previous key in the table, and the new key with the decoders for this gateway.
pub mesh_put-stale_key :
    (net : ℕ → Delivery) (user : Owner) (mesh : Mesh) (id key : String) (u : MeshUpdate)
    (g : Device) (gs : List Device) (w : World)
    → user.is_active ≡ true
    → mesh_by_pk id w.meshes ≡ some mesh
    → owns_mesh mesh user ≡ true
    → u.psk_b64 ≡ some key
    → live_gateways mesh.id w.devices ≡ g ∷ gs
    → net w.producer.attempts ≡ acked
    → (let updated = apply_update u mesh in
        let w1 = record w { meshes = save_mesh updated w.meshes } in
        (publish_each net (key_changes u updated w1) w1).1 ≡ false
        → (let w' = (mesh_put net (some user) id u w).1 in
            (row_key (mesh_by_pk id w'.meshes) ≡ some mesh.psk_b64)
            × (decoder_key (gateways w'.producer.log (gateway_kafka_key g)) ≡ some key)))
mesh_put-stale_key net user mesh id key u g gs w active found owns given listed first lost =
    let run = mesh_put-lost net user mesh id u w active found owns lost in
    let updated = apply_update u mesh in
    let w1 : World = record w { meshes = save_mesh updated w.meshes } in
    let same_id : str_eq mesh.id id ≡ true =
      (In-find (λ (m : Mesh). str_eq m.id id) mesh w.meshes found).1 in
    let changes : key_changes u updated w1 ≡ map (λ d. gateway_upsert d updated) (g ∷ gs) =
      let is_given : is_some u.psk_b64 ≡ true = simp given refl in
      simp is_given (ap (map (λ d. gateway_upsert d updated)) listed) in
    let new_key : updated.psk_b64 ≡ key = simp given refl in
    let restored : Mesh = record updated { psk_b64 = mesh.psk_b64 } in
    let row : mesh_by_pk id
          (save_mesh restored (publish_each net (key_changes u updated w1) w1).0.meshes)
        ≡ some restored =
      (rw (publish_each-tables net (key_changes u updated w1) w1).1 (
        mesh_by_pk-save_mesh id restored updated (save_mesh updated w.meshes)
          (mesh_by_pk-save_mesh id updated mesh w.meshes found refl) refl)) in
    rw run (ap row_key row, rw changes (upserts-key net g gs updated w1 first) ∙ ap some new_key)
