-- ===== src/Registry/Catalog/Curation.antt =====
-- Who may edit the catalog.
use meshtastic_things.Prelude.{ℕ, false, ◌&&◌, ◌≡◌, refl, inl, inr, Option, none, some, Bool-cases}
use meshtastic_things.Kafka.{Delivery}
use meshtastic_things.Registry.Models.{Owner}
use meshtastic_things.Registry.Requests.{Handler, ◌>>=◌}
use meshtastic_things.Registry.Access.{require_verified, require_superuser}
use meshtastic_things.Registry.Catalog.{Catalog, in_registry}
use meshtastic_things.Registry.Catalog.Views.{
  superuser, measurement_type_create, measurement_type_put, measurement_type_delete,
  telemetry_variant_put, telemetry_variant_delete, telemetry_variant_measurement_put,
  CatalogRequest, post_type, put_type, drop_type, put_variant, drop_variant, put_link,
  handle_catalog,
}

module _ (net : ℕ → Delivery) (caller : Option Owner)
    (plain : (user : Owner)
      → caller ≡ some user
      → (user.is_active && user.is_superuser) ≡ false) where
  not_superuser :
      {B : Type 0} (f : Unit {0} → Handler Catalog B) (c : Catalog)
      → ((superuser net caller >>= f) c).1 ≡ c
  unfolding ◌>>=◌ in_registry require_verified require_superuser
  not_superuser f c = go caller plain
    where
      go :
          (who : Option Owner)
          → ((user : Owner) → who ≡ some user → (user.is_active && user.is_superuser) ≡ false)
          → ((superuser net who >>= f) c).1 ≡ c
      go none h = refl
      go (some user) h = elim (Bool-cases user.is_active) [
        | inl active ↦
            let ordinary : user.is_superuser ≡ false = rw active at (h user refl) in
            simp (active, ordinary) refl
        | inr inactive ↦ simp inactive refl
      ]

  -- A request on the catalog by anyone who is not both active, that is verified, and a superuser
  -- leaves the catalog and the registry as they are, and publishes nothing: the caller may be
  -- anonymous, a verified owner, or a superuser who is not active.
  pub handle_catalog-refused :
      (request : CatalogRequest) (c : Catalog) → handle_catalog net caller request c ≡ c
  unfolding handle_catalog measurement_type_create measurement_type_put measurement_type_delete
      telemetry_variant_put telemetry_variant_delete telemetry_variant_measurement_put
  handle_catalog-refused (post_type id request) c = not_superuser _ c
  handle_catalog-refused (put_type id u) c = not_superuser _ c
  handle_catalog-refused (drop_type id) c = not_superuser _ c
  handle_catalog-refused (put_variant id u) c = not_superuser _ c
  handle_catalog-refused (drop_variant id) c = not_superuser _ c
  handle_catalog-refused (put_link id u) c = not_superuser _ c
