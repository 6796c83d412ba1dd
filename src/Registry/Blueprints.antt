-- ===== src/Registry/Blueprints.antt =====
-- The blueprint views (keyapi/registry/views.py) with PostprocessingBlueprintSerializer. Whether one
-- step fits its algorithm is decided by common/algorithms, which is not in the repository.
pub mod Rules
pub mod Validity
pub mod Ownership
use meshtastic_things.Prelude.{
  ℕ, String, Bool, true, false, not, ◌&&◌, ◌||◌, Option, none, some, List, [], ◌∷◌, ◌++◌, map,
  select, any, all, str_eq, ◌==◌, or_default, if◌then◌else◌,
}
use meshtastic_things.Table.{save_row, delete_row, clashes_with, pk_taken}
use meshtastic_things.Registry.Models.{Owner, Device, Step, Blueprint, World}
use meshtastic_things.Registry.Requests.{
  Handler, respond, ensure, gets, write, validation_error, conflict, ◌>>=◌, ◌>>◌,
}
use meshtastic_things.Registry.Access.{
  require_verified, get_blueprint_or_404, require_blueprint_ownership,
}

abbrev pub blueprint_pk : Blueprint → String
blueprint_pk b = b.id

-- uq_blueprint_owner_name
abbrev pub same_name : Blueprint → Blueprint → Bool
same_name b c = str_eq b.owner_id c.owner_id && str_eq b.name c.name

-- A validated body of a POST, and of a PUT, whose absent fields are `none`.
pub record BlueprintCreate : Type 0 where
  pub name : String
  pub description : Option String
  pub steps : List Step

pub record BlueprintUpdate : Type 0 where
  pub name : Option String
  pub description : Option (Option String)
  pub steps : Option (List Step)

-- `len(set(orders)) == len(orders)`
abbrev pub orders_differ : List Step → Bool
orders_differ [] = true
orders_differ (s ∷ steps) =
    not (any (λ (t : Step). t.order == s.order) steps) && orders_differ steps

abbrev pub is_nonempty : List Step → Bool
is_nonempty [] = false
is_nonempty (s ∷ steps) = true

module _ (validate_step : Step → Bool) where
  -- The steps' own validation, and `validate_steps`.
  unfoldable pub validate_steps : List Step → Bool
  validate_steps steps = all validate_step steps && (is_nonempty steps && orders_differ steps)

  abbrev pub validate_given : Option (List Step) → Bool
  validate_given none = true
  validate_given (some steps) = validate_steps steps

-- `update`, with `_replace_steps`.
unfoldable pub updated_blueprint : BlueprintUpdate → Blueprint → Blueprint
updated_blueprint u b = record b {
  name = or_default u.name b.name;
  description = or_default u.description b.description;
  steps = or_default u.steps b.steps;
}

abbrev pub without_blueprint : String → Option String → Option String
without_blueprint id none = none
without_blueprint id (some b) = if str_eq b id then none else some b

-- `blueprint.delete()`, and SET_NULL of the devices that use it.
unfoldable pub delete_blueprint : String → World → World
delete_blueprint id w = record w {
  blueprints = delete_row blueprint_pk id w.blueprints;
  devices =
      map
        (λ (d : Device). record d {
          postprocessing_blueprint_id = without_blueprint id d.postprocessing_blueprint_id;
        })
        w.devices;
}

module _ (validate_step : Step → Bool) (caller : Option Owner) where
  unfoldable pub blueprint_list : Handler World (List Blueprint)
  blueprint_list = do
    user ← require_verified caller
    gets (λ w.
        if user.is_superuser
        then w.blueprints
        else select (λ (b : Blueprint). str_eq b.owner_id user.id) w.blueprints)

  -- The id is the new row's UUID.
  unfoldable pub blueprint_create : String → BlueprintCreate → Handler World Blueprint
  blueprint_create id request = do
    user ← require_verified caller
    ensure (validate_steps validate_step request.steps) validation_error
    let blueprint : Blueprint = record {
      id = id;
      name = request.name;
      description = request.description;
      owner_id = user.id;
      steps = request.steps;
    }
    blueprints ← gets (λ w. w.blueprints)
    ensure (not (clashes_with blueprint_pk same_name blueprint blueprints)) conflict
    ensure (not (pk_taken blueprint_pk blueprint blueprints)) conflict
    write (λ w. record w { blueprints = w.blueprints ++ blueprint ∷ [] })
    respond blueprint

  unfoldable pub blueprint_get : String → Handler World Blueprint
  blueprint_get id = do
    user ← require_verified caller
    blueprint ← get_blueprint_or_404 id
    require_blueprint_ownership blueprint user
    respond blueprint

  unfoldable pub blueprint_put : String → BlueprintUpdate → Handler World Blueprint
  blueprint_put id u = do
    user ← require_verified caller
    blueprint ← get_blueprint_or_404 id
    require_blueprint_ownership blueprint user
    ensure (validate_given validate_step u.steps) validation_error
    let updated = updated_blueprint u blueprint
    blueprints ← gets (λ w. w.blueprints)
    ensure (not (clashes_with blueprint_pk same_name updated blueprints)) conflict
    write (λ w. record w { blueprints = save_row blueprint_pk updated w.blueprints })
    respond updated

  unfoldable pub blueprint_delete : String → Handler World (Unit {0})
  blueprint_delete id = do
    user ← require_verified caller
    blueprint ← get_blueprint_or_404 id
    require_blueprint_ownership blueprint user
    write (delete_blueprint blueprint.id)

-- The requests that change blueprints.
pub data BlueprintRequest : Type 0 where
  post_blueprint : String → BlueprintCreate → BlueprintRequest
  put_blueprint : String → BlueprintUpdate → BlueprintRequest
  drop_blueprint : String → BlueprintRequest

-- The world after a request, whether it was answered or raised.
unfoldable pub handle_blueprint : (Step → Bool) → Option Owner → BlueprintRequest → World → World
handle_blueprint validate_step caller (post_blueprint id request) w =
    (blueprint_create validate_step caller id request w).1
handle_blueprint validate_step caller (put_blueprint id u) w =
    (blueprint_put validate_step caller id u w).1
handle_blueprint validate_step caller (drop_blueprint id) w =
    (blueprint_delete validate_step caller id w).1
