-- ===== src/Registry/Access/Runs.antt =====
-- How a handler runs where its checks succeed, and where a publication fails.
use meshtastic_things.Prelude.{ℕ, String, true, false, ◌≡◌, refl, Option, some, List}
use meshtastic_things.Kafka.{Delivery}
use meshtastic_things.Registry.Models.{Owner, Mesh, Message, World, mesh_by_pk}
use meshtastic_things.Registry.Requests.{
  Fault, Handler, raise, bad_gateway, not_found, lookup_or, write, gets, ◌>>=◌,
}
use meshtastic_things.Registry.Publisher.{publish_each, publish_or_rollback}
use meshtastic_things.Registry.Access.{
  require_verified, get_mesh_or_404, require_mesh_ownership, owns_mesh,
}

module _ {B : Type 0} (w : World) where
  pub run-verified :
      (user : Owner) (f : Owner → Handler World B)
      → user.is_active ≡ true
      → (require_verified (some user) >>= f) w ≡ f user w
  unfolding require_verified ◌>>=◌
  run-verified user f active = simp active refl

  pub run-lookup :
      {A : Type 0} (e : Fault) (query : World → Option A) (a : A) (f : A → Handler World B)
      → query w ≡ some a
      → (lookup_or e query >>= f) w ≡ f a w
  unfolding ◌>>=◌
  run-lookup e query a f found = rw found refl

  pub run-write :
      (change : World → World) (f : Unit {0} → Handler World B)
      → (write change >>= f) w ≡ f tt (change w)
  unfolding ◌>>=◌
  run-write change f = refl

  pub run-gets :
      {A : Type 0} (query : World → A) (f : A → Handler World B)
      → (gets query >>= f) w ≡ f (query w) w
  unfolding ◌>>=◌
  run-gets query f = refl

  pub run-mesh :
      (id : String) (mesh : Mesh) (f : Mesh → Handler World B)
      → mesh_by_pk id w.meshes ≡ some mesh
      → (get_mesh_or_404 id >>= f) w ≡ f mesh w
  unfolding get_mesh_or_404
  run-mesh id mesh f found = run-lookup not_found (λ v. mesh_by_pk id v.meshes) mesh f found

  pub run-mesh_ownership :
      (mesh : Mesh) (user : Owner) (f : Unit {0} → Handler World B)
      → owns_mesh mesh user ≡ true
      → (require_mesh_ownership mesh user >>= f) w ≡ f tt w
  unfolding require_mesh_ownership ◌>>=◌
  run-mesh_ownership mesh user f owns = rw owns refl

  pub run-lost :
      (net : ℕ → Delivery) (ms : List Message) (rollback : World → World)
      (f : Unit {0} → Handler World B)
      → (publish_each net ms w).1 ≡ false
      → (publish_or_rollback net ms rollback >>= f) w
        ≡ (raise bad_gateway, rollback (publish_each net ms w).0)
  unfolding publish_or_rollback ◌>>=◌
  run-lost net ms rollback f lost = rw lost refl
