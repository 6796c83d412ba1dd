-- ===== src/Tests/Catalog.antt =====
-- The theorems on blueprints and on the measurement catalog, on small tables.
use meshtastic_things.Prelude.{
  ℕ, String, Bool, true, false, ◌&&◌, ◌≡◌, ◌≢◌, refl, Option, none, some, List, [], ◌∷◌, inl, inr,
  show, fstring, arith, map, eq_iff, str_eq,
}
use meshtastic_things.Prelude.Members.{In}
use meshtastic_things.Channels.{quantity_kind_for}
use meshtastic_things.Table.{save_row, pk_taken}
use meshtastic_things.Registry.Requests.{respond, ◌>>=◌}
use meshtastic_things.Registry.Models.{Owner, Device, Step, Blueprint, World}
use meshtastic_things.Registry.Blueprints.{
  BlueprintUpdate, put_blueprint, drop_blueprint, handle_blueprint, validate_steps,
}
use meshtastic_things.Registry.Blueprints.Ownership.{handle_blueprint-others}
use meshtastic_things.Registry.Blueprints.Validity.{BlueprintsAreValid, handle_blueprint-Valid}
use meshtastic_things.Registry.Catalog.{get_or_create, new_id, save, MeasurementType, Catalog}
use meshtastic_things.Registry.Catalog.Discovery.{
  SensorEvent, consume_discoveries, upsert_discovery, discover_fields, discover_field, apply_unit,
  with_unit,
}
use meshtastic_things.Registry.Catalog.Constraints.{CatalogIsValid}
use meshtastic_things.Registry.Catalog.Kept.{Keeps}
use meshtastic_things.Registry.Catalog.Units.{consume_discoveries-Keeps}
use meshtastic_things.Registry.Catalog.Views.{drop_type, handle_catalog}
use meshtastic_things.Registry.Catalog.Curation.{handle_catalog-refused}
use meshtastic_things.Tests.Data.{always_acked, ann, bob, world}

abbrev step : Step
step = record {
  order = 1;
  function_name = "double";
  inputs = ("value", "adc") ∷ [];
  params = "{}";
  outputs = ("doubled", "derived.twice") ∷ [];
}

abbrev recipe : Blueprint
recipe = record {
  id = "blueprint-1";
  name = "twice";
  description = none;
  owner_id = "owner-1";
  steps = step ∷ [];
}

abbrev fits : Step → Bool
fits s = true

abbrev with_recipe : World
with_recipe = record world { blueprints = recipe ∷ [] }

with_recipe-Valid : BlueprintsAreValid fits with_recipe
unfolding validate_steps
with_recipe-Valid = record {
  steps = λ b i. only b i;
  keys = λ b c i j e. same b c i j;
  names = λ b c i j e. let s : b ≡ c = same b c i j in rw s refl;
  references = none_refers;
}
  where
    only : (b : Blueprint) → In b (recipe ∷ []) → validate_steps fits b.steps ≡ true
    only b (inl e) = rw e refl
    only b (inr n) = absurd n

    same : (b c : Blueprint) → In b (recipe ∷ []) → In c (recipe ∷ []) → b ≡ c
    same b c (inl e) (inl f) = rw (e, f) refl
    same b c (inr n) j = absurd n
    same b c i (inr n) = absurd n

    none_refers :
        (d : Device)
        → In d with_recipe.devices
        → (id : String) → d.postprocessing_blueprint_id ≡ some id
        → (b : Blueprint) × In b (recipe ∷ []) × (b.id ≡ id)
    none_refers d (inl e) id r = cc (rw e at r)
    none_refers d (inr (inl e)) id r = cc (rw e at r)
    none_refers d (inr (inr (inl e))) id r = cc (rw e at r)
    none_refers d (inr (inr (inr n))) id r = absurd n

abbrev renamed : BlueprintUpdate
renamed = record { name = some "double"; description = none; steps = none }

handle_blueprint-Valid_example :
    BlueprintsAreValid fits
      (handle_blueprint fits (some ann) (put_blueprint "blueprint-1" renamed) with_recipe)
handle_blueprint-Valid_example =
    handle_blueprint-Valid fits (some ann) (put_blueprint "blueprint-1" renamed) with_recipe
      with_recipe-Valid

not_bobs :
    (user : Owner)
    → some bob ≡ some user
    → (user.is_superuser ≡ false) × (recipe.owner_id ≢ user.id)
not_bobs user e =
    let same : bob ≡ user = ground arith in
    rw (← same) (refl, λ o. cc ((eq_iff "owner-1" "owner-2").1 o, differ))
  where
    differ : str_eq "owner-1" "owner-2" ≡ false
    differ = refl

handle_blueprint-others_example :
    In recipe
      (handle_blueprint fits (some bob) (drop_blueprint "blueprint-1") with_recipe).blueprints
handle_blueprint-others_example =
    handle_blueprint-others fits (some bob) recipe with_recipe with_recipe-Valid.keys (inl refl)
      not_bobs (drop_blueprint "blueprint-1")

-- A type with a unit that a superuser has set, and a device that reports it and another.
abbrev temperature : MeasurementType
temperature = record {
  id = "type-1";
  payload_kind = "telemetry:environment_metrics";
  field_name = "temperature";
  display_name = some "Air temperature";
  description = none;
  native_unit = some "degC";
  quantity_kind = none;
  vocabulary_uri = none;
}

abbrev catalog : Catalog
catalog = record {
  types = temperature ∷ [];
  variants = [];
  links = [];
  device_variants = [];
  measurements = [];
  registry = world;
  issued = 0;
}

catalog-Valid : CatalogIsValid catalog
catalog-Valid = record {
  types = record {
    keyed = λ s t i j e. same s t i j;
    unique = λ s t i j e. let r : s ≡ t = same s t i j in rw r refl;
  };
  variants = record { keyed = λ s t i j e. absurd i; unique = λ s t i j e. absurd i };
  device_variants = record { keyed = λ s t i j e. absurd i; unique = λ s t i j e. absurd i };
  measurements = record { keyed = λ s t i j e. absurd i; unique = λ s t i j e. absurd i };
}
  where
    same : (s t : MeasurementType) → In s (temperature ∷ []) → In t (temperature ∷ []) → s ≡ t
    same s t (inl e) (inl f) = rw (e, f) refl
    same s t (inr n) j = absurd n
    same s t i (inr n) = absurd n

abbrev uuid : ℕ → String
uuid n = fstring ("uuid-" ∷ show n ∷ [])

abbrev discovered : List (ℕ × SensorEvent)
discovered =
    (
      500,
      record {
        op = some "upsert";
        mesh_id = some "mesh-1";
        device_id = some 255;
        payload_kind = some "telemetry:environment_metrics";
        fields = some ("temperature" ∷ "lux" ∷ []);
        field_units = ("temperature", some "K") ∷ ("lux", some "lux") ∷ [];
      },
    )
    ∷ []

consume_discoveries-Keeps_example :
    CatalogIsValid (consume_discoveries uuid discovered catalog)
    × Keeps catalog.types (consume_discoveries uuid discovered catalog).types
consume_discoveries-Keeps_example = consume_discoveries-Keeps uuid discovered catalog catalog-Valid

-- The second type is new, with its unit and the kind that the unit implies.
lux_is_new :
    map {B = String × Option String × Option String}
      (λ (t : MeasurementType). (t.field_name, t.native_unit, t.quantity_kind))
      (consume_discoveries uuid discovered catalog).types
    ≡ ("temperature", some "degC", none) ∷ ("lux", some "lux", some "physical_property") ∷ []
unfolding consume_discoveries upsert_discovery discover_fields discover_field apply_unit with_unit
    get_or_create new_id save quantity_kind_for save_row pk_taken respond ◌>>=◌ show
lux_is_new = refl

ann_is_plain : (user : Owner) → some ann ≡ some user → (user.is_active && user.is_superuser) ≡ false
ann_is_plain user e = let same : ann ≡ user = ground arith in rw (← same) refl

handle_catalog-refused_example :
    handle_catalog always_acked (some ann) (drop_type "type-1") catalog ≡ catalog
handle_catalog-refused_example =
    handle_catalog-refused always_acked (some ann) ann_is_plain (drop_type "type-1") catalog
