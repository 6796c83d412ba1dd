-- ===== src/Registry/Blueprints/Rules.antt =====
-- A blueprint that a view looks up, and the check of its owner.
use meshtastic_things.Prelude.{
  String, true, ◌||◌, ◌≡◌, ◌⊎◌, inl, inr, arith, str_eq, eq_iff, Bool-cases,
}
use meshtastic_things.Prelude.Members.{In, In-find}
use meshtastic_things.Registry.Models.{Owner, Blueprint, World, blueprint_by_pk}
use meshtastic_things.Registry.Requests.{Handler, not_found, permission_denied, ◌>>=◌}
use meshtastic_things.Registry.Requests.Ends.{Ends, Ends-ensure, Ends-lookup}
use meshtastic_things.Registry.Access.{get_blueprint_or_404, require_blueprint_ownership}

module _ {B : Type 0} {E : World → Type 0} {Q : B → World → Type 0} where
  pub Ends-blueprint :
      (id : String) (f : Blueprint → Handler World B) (w : World)
      → E w
      → ((b : Blueprint) → In b w.blueprints → b.id ≡ id → Ends E Q (f b w))
      → Ends E Q ((get_blueprint_or_404 id >>= f) w)
  unfolding get_blueprint_or_404
  Ends-blueprint id f w h k =
      Ends-lookup f w not_found (λ v. blueprint_by_pk id v.blueprints) h
        λ b found.
          let (i, e) = In-find (λ (x : Blueprint). str_eq x.id id) b w.blueprints found in
          k b i ((eq_iff b.id id).0 e)

  pub Ends-blueprint_ownership :
      (b : Blueprint) (user : Owner) (f : Unit {0} → Handler World B) (w : World)
      → E w
      → ((user.is_superuser ≡ true) ⊎ (b.owner_id ≡ user.id) → Ends E Q (f tt w))
      → Ends E Q ((require_blueprint_ownership b user >>= f) w)
  unfolding require_blueprint_ownership
  Ends-blueprint_ownership b user f w h k =
      Ends-ensure f w (user.is_superuser || str_eq b.owner_id user.id) permission_denied h λ owns.
        elim (Bool-cases user.is_superuser) [
          | inl super ↦ k (inl super)
          | inr plain ↦ k (inr (ground (arith, eq_iff b.owner_id user.id)))
        ]
