-- ===== src/Registry/Catalog/Units.antt =====
-- What the consumer of discoveries leaves of the catalog's constraints, and of its curated units.
use meshtastic_things.Prelude.{
  ℕ, String, Bool, true, false, refl, inl, Option, none, some, List, [], ◌∷◌, if◌then◌else◌,
}
use meshtastic_things.Prelude.Members.{In, In-append_right}
use meshtastic_things.Table.{save_row}
use meshtastic_things.Registry.Models.{Device}
use meshtastic_things.Registry.Requests.Ends.{
  Ends, Ends-respond, Ends-abort, Ends-bind, Ends-gets, Ends-either,
}
use meshtastic_things.Registry.Sightings.{registrations}
use meshtastic_things.Registry.Catalog.{
  MeasurementType, DeviceTelemetryVariant, Catalog, variant_table, device_variant_table,
  measurement_table, get_or_create,
}
use meshtastic_things.Registry.Catalog.Discovery.{
  SensorEvent, unit_of, new_type, new_variant, registered, required, discover_field,
  discover_fields, upsert_discovery, is_upsert, consume_discoveries,
}
use meshtastic_things.Registry.Catalog.Constraints.{
  same_variant_sym, same_device_variant_sym, same_measurement_sym, Holds-append, Holds-save,
  Ends-get_or_create, Ends-save, Ends-new_id, CatalogIsValid,
}
use meshtastic_things.Registry.Catalog.Kept.{Keeps, Kept_refl}
use meshtastic_things.Registry.Catalog.Discovering.{
  Discovers, apply_unit-Discovers, new_type-Discovers, new_measurement-Discovers, issued-Discovers,
}

module _ (before : List MeasurementType) where
  module _ (uuid : ℕ → String) (now : ℕ) where
    discover_field-Discovers :
        (payload_kind : String) (units : List (String × Option String))
        (seen : DeviceTelemetryVariant) (field : String) (c : Catalog)
        → (Discovers before) c
        → Ends
            (Discovers before)
            (λ _. (Discovers before))
            (discover_field uuid now payload_kind units seen field c)
    unfolding discover_field
    discover_field-Discovers payload_kind units seen field c d = Ends-new_id uuid _ c λ type_id.
        Ends-bind _ _ _ _
          (new_type-Discovers before (new_type type_id payload_kind field) _
            (issued-Discovers before _ c d))
          λ t c1 (d1, stands).
            Ends-bind _ _ _ _ (apply_unit-Discovers before t (unit_of field units) c1 d1 stands)
              λ _ c2 d2. Ends-new_id uuid _ c2 λ id.
                Ends-bind _ _ _ _
                  (new_measurement-Discovers before _ _ (issued-Discovers before _ c2 d2))
                  λ m c3 (d3, there). Ends-save measurement_table _ c3 (record {
                    valid = record {
                      types = d3.valid.types;
                      variants = d3.valid.variants;
                      device_variants = d3.valid.device_variants;
                      measurements =
                          Holds-save measurement_table m (record m { last_seen = some now })
                            c3.measurements same_measurement_sym d3.valid.measurements there refl
                            (λ s. refl);
                    };
                    keeps = d3.keeps;
                  })

    discover_fields-Discovers :
        (payload_kind : String) (units : List (String × Option String))
        (seen : DeviceTelemetryVariant) (fields : List String) (c : Catalog)
        → (Discovers before) c
        → Ends
            (Discovers before)
            (λ _. (Discovers before))
            (discover_fields uuid now payload_kind units seen fields c)
    unfolding discover_fields
    discover_fields-Discovers payload_kind units seen [] c d = Ends-respond _ c d
    discover_fields-Discovers payload_kind units seen (field ∷ fields) c d =
        Ends-bind _ _ _ _ (discover_field-Discovers payload_kind units seen field c d)
          λ _ c' d'. discover_fields-Discovers payload_kind units seen fields c' d'

    required-Discovers :
        {A : Type 0} (a : Option A) (c : Catalog)
        → (Discovers before) c
        → Ends (Discovers before) (λ _ c'. (Discovers before) c') (required a c)
    required-Discovers none c d = Ends-abort _ c d
    required-Discovers (some a) c d = Ends-respond _ c d

    registered-Discovers :
        (found : List Device) (c : Catalog)
        → (Discovers before) c
        → Ends (Discovers before) (λ _ c'. (Discovers before) c') (registered found c)
    registered-Discovers [] c d = Ends-abort _ c d
    registered-Discovers (x ∷ []) c d = Ends-respond _ c d
    registered-Discovers (x ∷ y ∷ found) c d = Ends-abort _ c d

    new_variant-Discovers :
        (id payload_kind : String) (c : Catalog)
        → (Discovers before) c
        → Ends
            (Discovers before)
            (λ _ c'. (Discovers before) c')
            (get_or_create variant_table (new_variant id payload_kind) c)
    new_variant-Discovers id payload_kind c d =
        Ends-get_or_create variant_table (new_variant id payload_kind) c d (λ s i hit. d)
          λ missing free. record {
            valid = record {
              types = d.valid.types;
              variants =
                  Holds-append variant_table (new_variant id payload_kind) c.variants
                    same_variant_sym d.valid.variants missing free;
              device_variants = d.valid.device_variants;
              measurements = d.valid.measurements;
            };
            keeps = d.keeps;
          }

    new_device_variant-Discovers :
        (v : DeviceTelemetryVariant) (c : Catalog)
        → (Discovers before) c
        → Ends
            (Discovers before)
            (λ u c'. (Discovers before) c' × In u c'.device_variants)
            (get_or_create device_variant_table v c)
    new_device_variant-Discovers v c d =
        Ends-get_or_create device_variant_table v c d (λ s i hit. (d, i))
          λ missing free. (
            record {
              valid = record {
                types = d.valid.types;
                variants = d.valid.variants;
                device_variants =
                    Holds-append device_variant_table v c.device_variants same_device_variant_sym
                      d.valid.device_variants missing free;
                measurements = d.valid.measurements;
              };
              keeps = d.keeps;
            },
            In-append_right v c.device_variants (v ∷ []) (inl refl),
          )

    upsert-Discovers :
        (e : SensorEvent) (c : Catalog)
        → (Discovers before) c
        → Ends (Discovers before) (λ _. (Discovers before)) (upsert_discovery uuid now e c)
    unfolding upsert_discovery
    upsert-Discovers e c d = Ends-bind _ _ _ _ (required-Discovers e.mesh_id c d) λ mesh_id c1 d1.
        Ends-bind _ _ _ _ (required-Discovers e.device_id c1 d1) λ device_id c2 d2.
          Ends-gets _ c2 _ (
            Ends-bind _ _ _ _
              (registered-Discovers (registrations mesh_id device_id c2.registry.devices) c2 d2)
              λ device c3 d3.
                Ends-bind _ _ _ _ (required-Discovers e.payload_kind c3 d3) λ payload_kind c4 d4.
                  Ends-new_id uuid _ c4 λ variant_id.
                    Ends-bind _ _ _ _
                      (new_variant-Discovers variant_id payload_kind _
                        (issued-Discovers before _ c4 d4))
                      λ variant c5 d5. Ends-new_id uuid _ c5 λ id.
                        Ends-bind _ _ _ _
                          (new_device_variant-Discovers _ _ (issued-Discovers before _ c5 d5))
                          λ made c6 (d6, there).
                            Ends-bind _ _ _ _
                              (Ends-save device_variant_table (record made { last_seen = some now })
                                c6 (saved made c6 d6 there))
                              λ _ c7 d7.
                                Ends-bind _ _ _ _ (required-Discovers e.fields c7 d7)
                                  λ fields c8 d8.
                                    discover_fields-Discovers payload_kind e.field_units
                                      (record made { last_seen = some now }) fields c8 d8)
      where
        saved :
            (v : DeviceTelemetryVariant) (c : Catalog)
            → (Discovers before) c
            → In v c.device_variants
            → (Discovers before) (record c {
              device_variants =
                  save_row device_variant_table.pk
                    (record v { last_seen = some now })
                    c.device_variants;
            })
        saved v c d there = record {
          valid = record {
            types = d.valid.types;
            variants = d.valid.variants;
            device_variants =
                Holds-save device_variant_table v (record v { last_seen = some now })
                  c.device_variants same_device_variant_sym d.valid.device_variants there refl
                  (λ s. refl);
            measurements = d.valid.measurements;
          };
          keeps = d.keeps;
        }

  loop-Discovers :
      (uuid : ℕ → String) (events : List (ℕ × SensorEvent)) (c : Catalog)
      → (Discovers before) c
      → (Discovers before) (consume_discoveries uuid events c)
  unfolding consume_discoveries
  loop-Discovers uuid [] c d = d
  loop-Discovers uuid ((now, e) ∷ events) c d = loop-Discovers uuid events _ (go (is_upsert e.op))
    where
      go : (b : Bool) → (Discovers before) (if b then (upsert_discovery uuid now e c).1 else c)
      go true = Ends-either _ (upsert-Discovers uuid now e c d)
      go false = d

-- Whatever events the consumer of discoveries reads, and whichever of them raise halfway: the
-- catalog keeps its constraints (no two types of one payload kind and field, no two variants of one
-- payload kind, no device twice with one variant, no measurement twice, and no key twice), and every
-- type that was there is still there with its names, its descriptions and its URI. Its unit and its
-- quantity kind are as they were where it had a unit, and the kind is as it was where it had one.
pub consume_discoveries-Keeps :
    (uuid : ℕ → String) (events : List (ℕ × SensorEvent)) (c : Catalog)
    → CatalogIsValid c
    → CatalogIsValid (consume_discoveries uuid events c)
      × Keeps c.types (consume_discoveries uuid events c).types
consume_discoveries-Keeps uuid events c v =
    let d =
      loop-Discovers c.types uuid events c
        (record { valid = v; keeps = λ t i. (t, i, Kept_refl t) }) in
    (d.valid, d.keeps)
