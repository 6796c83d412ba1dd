-- ===== src/Registry/Catalog/Discovering.antt =====
-- What each write of the consumer of discoveries keeps of the catalog.
use meshtastic_things.Prelude.{ℕ, String, refl, inl, inr, Option, List, [], ◌∷◌, Bool-cases}
use meshtastic_things.Prelude.Members.{In, In-append_left, In-append_right}
use meshtastic_things.Registry.Requests.Ends.{Ends, Ends-respond}
use meshtastic_things.Registry.Catalog.{
  MeasurementType, Measurement, Catalog, type_table, measurement_table, get_or_create,
}
use meshtastic_things.Registry.Catalog.Discovery.{is_blank, with_unit, apply_unit}
use meshtastic_things.Registry.Catalog.Constraints.{
  same_type_sym, same_measurement_sym, Holds-append, Holds-save, Ends-get_or_create, Ends-save,
  CatalogIsValid,
}
use meshtastic_things.Registry.Catalog.Kept.{Keeps, with_unit-Kept, save-Keeps}

module _ (before : List MeasurementType) where
  pub record Discovers (c : Catalog) : Type 0 where
    pub valid : CatalogIsValid c
    pub keeps : Keeps before c.types

  pub apply_unit-Discovers :
      (t : MeasurementType) (unit : Option String) (c : Catalog)
      → Discovers c
      → In t c.types
      → Ends Discovers (λ _. Discovers) (apply_unit t unit c)
  unfolding apply_unit with_unit
  apply_unit-Discovers t unit c d stands = elim (Bool-cases (is_blank unit)) [
    | inl no_unit ↦ rw (no_unit, apply_unit) (Ends-respond _ c d)
    | inr given ↦ elim (Bool-cases (is_blank t.native_unit)) [
      | inr has ↦ rw (given, has, apply_unit) (Ends-respond _ c d)
      | inl blank ↦
          rw (given, blank, apply_unit)
            (Ends-save type_table (with_unit unit t) c (record {
              valid = record {
                types =
                    Holds-save type_table t (with_unit unit t) c.types same_type_sym d.valid.types
                      stands refl (λ s. refl);
                variants = d.valid.variants;
                device_variants = d.valid.device_variants;
                measurements = d.valid.measurements;
              };
              keeps =
                  save-Keeps t (with_unit unit t) before c.types d.valid.types.keyed stands
                    (with_unit-Kept unit t blank) d.keeps;
            }))
    ]
  ]

  pub new_type-Discovers :
      (t : MeasurementType) (c : Catalog)
      → Discovers c
      → Ends Discovers (λ u c'. Discovers c' × In u c'.types) (get_or_create type_table t c)
  new_type-Discovers t c d =
      Ends-get_or_create type_table t c d (λ s i hit. (d, i))
        λ missing free. (
          record {
            valid = record {
              types = Holds-append type_table t c.types same_type_sym d.valid.types missing free;
              variants = d.valid.variants;
              device_variants = d.valid.device_variants;
              measurements = d.valid.measurements;
            };
            keeps =
                λ r i. let (s, j, k) = d.keeps r i in (s, In-append_left s c.types (t ∷ []) j, k);
          },
          In-append_right t c.types (t ∷ []) (inl refl),
        )

  pub new_measurement-Discovers :
      (m : Measurement) (c : Catalog)
      → Discovers c
      → Ends Discovers
          (λ n c'. Discovers c' × In n c'.measurements)
          (get_or_create measurement_table m c)
  new_measurement-Discovers m c d =
      Ends-get_or_create measurement_table m c d (λ s i hit. (d, i))
        λ missing free. (
          record {
            valid = record {
              types = d.valid.types;
              variants = d.valid.variants;
              device_variants = d.valid.device_variants;
              measurements =
                  Holds-append measurement_table m c.measurements same_measurement_sym
                    d.valid.measurements missing free;
            };
            keeps = d.keeps;
          },
          In-append_right m c.measurements (m ∷ []) (inl refl),
        )

  pub issued-Discovers : (n : ℕ) (c : Catalog) → Discovers c → Discovers (record c { issued = n })
  issued-Discovers n c d = record {
    valid = record {
      types = d.valid.types;
      variants = d.valid.variants;
      device_variants = d.valid.device_variants;
      measurements = d.valid.measurements;
    };
    keeps = d.keeps;
  }
