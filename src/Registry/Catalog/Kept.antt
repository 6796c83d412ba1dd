-- ===== src/Registry/Catalog/Kept.antt =====
-- The rows of measurement types that a change leaves, but for what was blank in them.
use meshtastic_things.Prelude.{
  String, true, false, ◌≡◌, refl, ◌∙◌, inl, inr, Option, List, str_eq, Bool-cases,
}
use meshtastic_things.Prelude.Members.{In}
use meshtastic_things.Table.{save_row}
use meshtastic_things.Table.Laws.{save_row-keeps, save_row-saved, IsKeyed}
use meshtastic_things.Registry.Catalog.{MeasurementType, type_pk}
use meshtastic_things.Registry.Catalog.Discovery.{is_blank, with_unit}

-- A measurement type later: only what was blank is filled in.
pub record Kept (t u : MeasurementType) : Type 0 where
  pub id : u.id ≡ t.id
  pub payload_kind : u.payload_kind ≡ t.payload_kind
  pub field_name : u.field_name ≡ t.field_name
  pub display_name : u.display_name ≡ t.display_name
  pub description : u.description ≡ t.description
  pub vocabulary_uri : u.vocabulary_uri ≡ t.vocabulary_uri
  pub native_unit :
      is_blank t.native_unit ≡ false
      → (u.native_unit ≡ t.native_unit) × (u.quantity_kind ≡ t.quantity_kind)
  pub quantity_kind : is_blank t.quantity_kind ≡ false → u.quantity_kind ≡ t.quantity_kind

pub Kept_refl : (t : MeasurementType) → Kept t t
Kept_refl t = record {
  id = refl;
  payload_kind = refl;
  field_name = refl;
  display_name = refl;
  description = refl;
  vocabulary_uri = refl;
  native_unit = λ _. (refl, refl);
  quantity_kind = λ _. refl;
}

pub Kept_trans : {t u v : MeasurementType} → Kept t u → Kept u v → Kept t v
Kept_trans {t} {u} {v} k l = record {
  id = l.id ∙ k.id;
  payload_kind = l.payload_kind ∙ k.payload_kind;
  field_name = l.field_name ∙ k.field_name;
  display_name = l.display_name ∙ k.display_name;
  description = l.description ∙ k.description;
  vocabulary_uri = l.vocabulary_uri ∙ k.vocabulary_uri;
  native_unit = λ b.
      let (e, f) = k.native_unit b in let (e', f') = l.native_unit (rw e b) in (e' ∙ e, f' ∙ f);
  quantity_kind = λ b. let e = k.quantity_kind b in l.quantity_kind (rw e b) ∙ e;
}

-- Each type is still there, with nothing overwritten.
abbrev pub Keeps : List MeasurementType → List MeasurementType → Type 0
Keeps before after =
    (t : MeasurementType) → In t before → (u : MeasurementType) × In u after × Kept t u

pub with_unit-Kept :
    (unit : Option String) (t : MeasurementType)
    → is_blank t.native_unit ≡ true
    → Kept t (with_unit unit t)
unfolding with_unit
with_unit-Kept unit t blank = record {
  id = refl;
  payload_kind = refl;
  field_name = refl;
  display_name = refl;
  description = refl;
  vocabulary_uri = refl;
  native_unit = λ b. cc;
  quantity_kind = λ b. rw b refl;
}

pub save-Keeps :
    (t u : MeasurementType) (before rows : List MeasurementType)
    → IsKeyed type_pk rows
    → In t rows
    → Kept t u
    → Keeps before rows
    → Keeps before (save_row type_pk u rows)
save-Keeps t u before rows keyed stands kept keeps r i =
    let (s, j, k) = keeps r i in
    elim (Bool-cases (str_eq s.id u.id)) [
      | inr other ↦ (s, save_row-keeps type_pk s u rows j other, k)
      | inl same ↦
          let (here, e) = save_row-saved type_pk s u rows j same in
          let same_row : s ≡ t = keyed s t j stands (e ∙ kept.id) in
          (u, here, Kept_trans k (rw same_row kept))
    ]
