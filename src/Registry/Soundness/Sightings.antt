-- ===== src/Registry/Soundness/Sightings.antt =====
-- A sighting keeps the tables and the decoders in agreement: it makes no gateway, and no allowed
-- registration of a device beside another.
use meshtastic_things.Prelude.{
  ℕ, String, false, ◌&&◌, ◌||◌, ◌≡◌, refl, sym, ◌∙◌, inl, inr, Option, none, some, List, [], ◌∷◌,
  ◌++◌, arith, Bool-cases, is_some, str_eq, or_default, if◌then◌else◌,
}
use meshtastic_things.Prelude.Members.{In, In-append_left, In-select}
use meshtastic_things.Registry.Models.{
  Device, World, save_device, violates_allowed, device_by_pk, mesh_by_pk,
}
use meshtastic_things.Registry.Models.Tables.{IsConsistent-append, IsConsistent-save}
use meshtastic_things.Registry.Decoders.Invariant.{Covers-rows}
use meshtastic_things.Registry.Soundness.{Sound}
use meshtastic_things.Registry.Soundness.Devices.Replacing.{Amends, Covers-save}
use meshtastic_things.Registry.Sightings.{
  SightingEvent, registrations, sighted_device, seen, upsert_sighting, consume_sighting,
}

seen-Amends : (e : SightingEvent) (now : ℕ) (d : Device) → Amends (seen e now d) d
unfolding seen
seen-Amends e now d = record { id = refl; device_id = refl; mesh_id = refl; is_gateway = refl }

seen-is_allowed :
    (e : SightingEvent) (now : ℕ) (d : Device) → (seen e now d).is_allowed ≡ d.is_allowed
unfolding seen
seen-is_allowed e now d = refl

found_save :
    (e : SightingEvent) (now : ℕ) (d : Device) (w : World)
    → In d w.devices
    → Sound w
    → Sound (record w { devices = save_device (seen e now d) w.devices })
found_save e now d w i s =
    let a = seen-Amends e now d in
    let same = seen-is_allowed e now d in
    record {
      consistent = IsConsistent-save (seen e now d) w.devices s.consistent (λ f j p q eq.
          rw a.id (s.consistent.allowed f d j i q (sym same ∙ p) (eq ∙ a.device_id)));
      covers = Covers-save a s.consistent i (λ live. ground (arith, a.is_gateway, same)) s.covers;
    }

new_row :
    (id : String) (now : ℕ) (e : SightingEvent) (mesh_id : String) (device_id : ℕ) (w : World)
    → violates_allowed (sighted_device id mesh_id device_id) w.devices ≡ false
    → device_by_pk id w.devices ≡ none
    → Sound w
    → Sound
        (record w { devices = w.devices ++ seen e now (sighted_device id mesh_id device_id) ∷ [] })
unfolding seen sighted_device violates_allowed
new_row id now e mesh_id device_id w free fresh s = record {
  consistent =
      IsConsistent-append (seen e now (sighted_device id mesh_id device_id)) w.devices s.consistent
        free fresh;
  covers =
      Covers-rows
        (λ d i live. record {
          device = d;
          listed = In-append_left d w.devices _ i;
          live = live;
          key = refl;
          mesh = refl;
        })
        s.covers;
}

upsert_sighting-Sound :
    (id : String) (now : ℕ) (e : SightingEvent) (mesh_id : String) (device_id : ℕ)
    (found : List Device) (w : World)
    → ((d : Device) → In d found → In d w.devices)
    → Sound w
    → Sound (upsert_sighting id now e mesh_id device_id found w)
unfolding upsert_sighting
upsert_sighting-Sound id now e mesh_id device_id [] w listed s =
    elim (Bool-cases (
      violates_allowed (sighted_device id mesh_id device_id) w.devices
      || is_some (device_by_pk id w.devices))) [
        | inl refused ↦ rw refused s
        | inr accepted ↦
            rw accepted (new_row id now e mesh_id device_id w (ground arith) (ground arith) s)
      ]
upsert_sighting-Sound id now e mesh_id device_id (d ∷ []) w listed s =
    found_save e now d w (listed d (inl refl)) s
upsert_sighting-Sound id now e mesh_id device_id (d ∷ f ∷ found) w listed s = s

pub consume_sighting-Sound :
    (id : String) (now : ℕ) (e : SightingEvent) (w : World)
    → Sound w
    → Sound (consume_sighting id now e w)
unfolding consume_sighting
consume_sighting-Sound id now e w s = go e.mesh_id e.device_id
  where
    upserted :
        (mesh_id : String) (device_id : ℕ)
        → Sound (
            if str_eq (or_default e.op "") "upsert" && is_some (mesh_by_pk mesh_id w.meshes)
            then upsert_sighting id now e mesh_id device_id
                (registrations mesh_id device_id w.devices)
                w
            else w)
    upserted mesh_id device_id =
        elim (Bool-cases
          (str_eq (or_default e.op "") "upsert" && is_some (mesh_by_pk mesh_id w.meshes))) [
            | inl known ↦ rw known (
                upsert_sighting-Sound id now e mesh_id device_id
                  (registrations mesh_id device_id w.devices) w
                  (λ d i. (In-select _ d w.devices i).0) s)
            | inr other ↦ rw other s
          ]

    go :
        (m : Option String) (n : Option ℕ)
        → Sound (elim m [
          | none ↦ w
          | some mesh_id ↦ elim n [
            | none ↦ w
            | some device_id ↦
                if str_eq (or_default e.op "") "upsert" && is_some (mesh_by_pk mesh_id w.meshes)
                then upsert_sighting id now e mesh_id device_id
                    (registrations mesh_id device_id w.devices)
                    w
                else w
          ]
        ])
    go none n = s
    go (some m) none = s
    go (some m) (some n) = upserted m n
