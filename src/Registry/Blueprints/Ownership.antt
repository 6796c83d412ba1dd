-- ===== src/Registry/Blueprints/Ownership.antt =====
-- What the blueprint views leave of other owners' blueprints.
use meshtastic_things.Prelude.{
  Bool, true, false, not, ◌≡◌, ◌≢◌, refl, ◌⊎◌, inl, inr, Option, some, str_eq, eq_iff, Bool-cases,
}
use meshtastic_things.Prelude.Members.{In, In-append_left, In-select_of}
use meshtastic_things.Table.{delete_row}
use meshtastic_things.Table.Laws.{IsKeyed, save_row-keeps}
use meshtastic_things.Registry.Models.{Owner, Step, Blueprint, World}
use meshtastic_things.Registry.Requests.Ends.{
  Ends-respond, Ends-ensure, Ends-gets, Ends-write, Ends-bind_write, Ends-either,
}
use meshtastic_things.Registry.Access.Rules.{Ends-verified}
use meshtastic_things.Registry.Blueprints.{
  blueprint_pk, updated_blueprint, delete_blueprint, blueprint_create, blueprint_put,
  blueprint_delete, BlueprintRequest, post_blueprint, put_blueprint, drop_blueprint,
  handle_blueprint,
}
use meshtastic_things.Registry.Blueprints.Rules.{Ends-blueprint, Ends-blueprint_ownership}

module _ (validate_step : Step → Bool) (caller : Option Owner) where
  module _ (theirs : Blueprint) (w : World) (keys : IsKeyed blueprint_pk w.blueprints)
      (stands : In theirs w.blueprints)
      (foreign : (user : Owner)
        → caller ≡ some user
        → (user.is_superuser ≡ false) × (theirs.owner_id ≢ user.id)) where
    abbrev Stands : World → Type 0
    Stands v = In theirs v.blueprints

    other_key :
        (user : Owner) (b : Blueprint)
        → caller ≡ some user
        → In b w.blueprints
        → (user.is_superuser ≡ true) ⊎ (b.owner_id ≡ user.id)
        → str_eq theirs.id b.id ≡ false
    other_key user b who i owns = elim (Bool-cases (str_eq theirs.id b.id)) [
      | inr differs ↦ differs
      | inl same ↦
          let e : theirs ≡ b = keys theirs b stands i ((eq_iff theirs.id b.id).0 same) in
          let (plain, not_theirs) = foreign user who in
          elim owns [ inl super ↦ cc | inr own ↦ absurd (not_theirs (rw e own)) ]
    ]

    -- In tables that have each key of a blueprint once: a caller who is not a superuser changes no blueprint of another owner, and deletes none,
    -- whatever the request; nor does an anonymous caller.
    pub handle_blueprint-others :
        (request : BlueprintRequest)
        → In theirs (handle_blueprint validate_step caller request w).blueprints
    unfolding handle_blueprint blueprint_create blueprint_put blueprint_delete delete_blueprint
        delete_row updated_blueprint
    handle_blueprint-others (post_blueprint id request) = Ends-either {E = Stands} _ (
        Ends-verified caller _ w stands λ user _ _. Ends-ensure _ w _ _ stands λ _.
          Ends-gets _ w _ (
            Ends-ensure _ w _ _ stands λ _. Ends-ensure _ w _ _ stands λ _.
              Ends-bind_write _ w _
                (Ends-respond _ _ (In-append_left theirs w.blueprints _ stands))))
    handle_blueprint-others (put_blueprint id u) = Ends-either {E = Stands} _ (
        Ends-verified caller _ w stands λ user who _. Ends-blueprint id _ w stands λ b i _.
          Ends-blueprint_ownership b user _ w stands λ owns. Ends-ensure _ w _ _ stands λ _.
            Ends-gets _ w _ (
              Ends-ensure _ w _ _ stands λ _. Ends-bind_write _ w _ (
                Ends-respond _ _ (
                  save_row-keeps blueprint_pk theirs (updated_blueprint u b) w.blueprints stands
                    (other_key user b who i owns)))))
    handle_blueprint-others (drop_blueprint id) = Ends-either {E = Stands} _ (
        Ends-verified caller _ w stands λ user who _. Ends-blueprint id _ w stands λ b i _.
          Ends-blueprint_ownership b user _ w stands λ owns. Ends-write _ _ (
            In-select_of (λ (x : Blueprint). not (str_eq x.id b.id)) theirs w.blueprints stands
              (rw (other_key user b who i owns) refl)))
