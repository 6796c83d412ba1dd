-- ===== src/Registry/Access/Rules.antt =====
-- The rules of `Registry.Requests.Ends` for the checks that the views share, and for publications.
use meshtastic_things.Prelude.{
  ℕ, true, false, ◌≡◌, refl, Option, none, some, List, Bool-cases, inl, inr, String,
}
use meshtastic_things.Kafka.{Delivery}
use meshtastic_things.Registry.Models.{
  Owner, Mesh, Device, Message, World, mesh_by_pk, device_by_pk,
}
use meshtastic_things.Registry.Requests.{Handler, ◌>>=◌, not_found, server_error, permission_denied}
use meshtastic_things.Registry.Requests.Ends.{Ends, Ends-lookup, Ends-ensure}
use meshtastic_things.Registry.Publisher.{publish_each, publish_or_rollback}
use meshtastic_things.Registry.Access.{
  require_verified, require_authenticated, get_mesh_or_404, get_device_or_404, mesh_of,
  require_mesh_ownership, owns_mesh,
}

module _ {B : Type 0} {E : World → Type 0} {Q : B → World → Type 0} where
  pub Ends-verified :
      (caller : Option Owner) (f : Owner → Handler World B) (w : World)
      → E w
      → ((user : Owner) → caller ≡ some user → user.is_active ≡ true → Ends E Q (f user w))
      → Ends E Q ((require_verified caller >>= f) w)
  unfolding require_verified ◌>>=◌
  Ends-verified none f w h k = record { at = h }
  Ends-verified (some user) f w h k = elim (Bool-cases user.is_active) [
    | inl active ↦ simp active (k user refl active)
    | inr inactive ↦ simp inactive (record { at = h })
  ]

  pub Ends-authenticated :
      (caller : Option Owner) (f : Owner → Handler World B) (w : World)
      → E w
      → ((user : Owner) → caller ≡ some user → Ends E Q (f user w))
      → Ends E Q ((require_authenticated caller >>= f) w)
  unfolding require_authenticated ◌>>=◌
  Ends-authenticated none f w h k = record { at = h }
  Ends-authenticated (some user) f w h k = k user refl

  pub Ends-mesh :
      (mesh_id : String) (f : Mesh → Handler World B) (w : World)
      → E w
      → ((mesh : Mesh) → mesh_by_pk mesh_id w.meshes ≡ some mesh → Ends E Q (f mesh w))
      → Ends E Q ((get_mesh_or_404 mesh_id >>= f) w)
  unfolding get_mesh_or_404
  Ends-mesh mesh_id f w h k = Ends-lookup f w not_found (λ v. mesh_by_pk mesh_id v.meshes) h k

  pub Ends-device :
      (id : String) (f : Device → Handler World B) (w : World)
      → E w
      → ((d : Device) → device_by_pk id w.devices ≡ some d → Ends E Q (f d w))
      → Ends E Q ((get_device_or_404 id >>= f) w)
  unfolding get_device_or_404
  Ends-device id f w h k = Ends-lookup f w not_found (λ v. device_by_pk id v.devices) h k

  pub Ends-mesh_of :
      (d : Device) (f : Mesh → Handler World B) (w : World)
      → E w
      → ((mesh : Mesh) → mesh_by_pk d.mesh_id w.meshes ≡ some mesh → Ends E Q (f mesh w))
      → Ends E Q ((mesh_of d >>= f) w)
  unfolding mesh_of
  Ends-mesh_of d f w h k = Ends-lookup f w server_error (λ v. mesh_by_pk d.mesh_id v.meshes) h k

  pub Ends-mesh_ownership :
      (mesh : Mesh) (user : Owner) (f : Unit {0} → Handler World B) (w : World)
      → E w
      → (owns_mesh mesh user ≡ true → Ends E Q (f tt w))
      → Ends E Q ((require_mesh_ownership mesh user >>= f) w)
  unfolding require_mesh_ownership
  Ends-mesh_ownership mesh user f w h k =
      Ends-ensure f w (owns_mesh mesh user) permission_denied h k

  pub Ends-publish :
      (net : ℕ → Delivery) (ms : List Message) (rollback : World → World)
      (f : Unit {0} → Handler World B) (w : World)
      → ((publish_each net ms w).1 ≡ true → Ends E Q (f tt (publish_each net ms w).0))
      → ((publish_each net ms w).1 ≡ false → E (rollback (publish_each net ms w).0))
      → Ends E Q ((publish_or_rollback net ms rollback >>= f) w)
  unfolding publish_or_rollback ◌>>=◌
  Ends-publish net ms rollback f w good bad = elim (Bool-cases (publish_each net ms w).1) [
    | inl sent ↦ rw sent (good sent)
    | inr failed ↦ rw failed (record { at = bad failed })
  ]
