-- ===== src/Registry/Catalog/Constraints.antt =====
-- The constraints of the catalog's tables, and what the consumer of discoveries keeps of them.
use meshtastic_things.Prelude.{
  ℕ, suc, String, true, false, ◌≡◌, refl, sym, ◌∙◌, inl, inr, Option, none, some, List, [], ◌∷◌,
  ◌++◌, arith, find, eq_iff, Bool-cases,
}
use meshtastic_things.Prelude.Members.{In, In-find}
use meshtastic_things.Table.{save_row, clashes_with, pk_taken}
use meshtastic_things.Table.Laws.{
  IsUnique, IsKeyed, IsUnique-save_row, IsKeyed-save_row, IsUnique-append, IsKeyed-append,
}
use meshtastic_things.Registry.Requests.{Handler, ◌>>=◌}
use meshtastic_things.Registry.Requests.Ends.{
  Ends, Ends-respond, Ends-ensure, Ends-gets, Ends-write, Ends-bind_write,
}
use meshtastic_things.Registry.Catalog.{
  Catalog, TableOf, type_table, variant_table, device_variant_table, measurement_table, new_id,
  save, found_or_insert, get_or_create,
}

-- The primary key and the uniqueness constraint of a table.
pub record Holds {A : Type 0} (table : TableOf A) (rows : List A) : Type 0 where
  pub keyed : IsKeyed table.pk rows
  pub unique : IsUnique table.pk table.same rows

abbrev pub IsSymmetric : {A : Type 0} → TableOf A → Type 0
IsSymmetric {A} table = (r s : A) → table.same r s ≡ table.same s r

pub same_type_sym : IsSymmetric type_table
same_type_sym s t = ground (
  arith,
  eq_iff s.payload_kind t.payload_kind,
  eq_iff t.payload_kind s.payload_kind,
  eq_iff s.field_name t.field_name,
  eq_iff t.field_name s.field_name,
)

pub same_variant_sym : IsSymmetric variant_table
same_variant_sym v w =
    ground (arith, eq_iff v.payload_kind w.payload_kind, eq_iff w.payload_kind v.payload_kind)

pub same_device_variant_sym : IsSymmetric device_variant_table
same_device_variant_sym v w = ground (
  arith,
  eq_iff v.device_id w.device_id,
  eq_iff w.device_id v.device_id,
  eq_iff v.telemetry_variant_id w.telemetry_variant_id,
  eq_iff w.telemetry_variant_id v.telemetry_variant_id,
)

pub same_measurement_sym : IsSymmetric measurement_table
same_measurement_sym m n = ground (
  arith,
  eq_iff m.device_telemetry_variant_id n.device_telemetry_variant_id,
  eq_iff n.device_telemetry_variant_id m.device_telemetry_variant_id,
  eq_iff m.measurement_type_id n.measurement_type_id,
  eq_iff n.measurement_type_id m.measurement_type_id,
)

module _ {A : Type 0} (table : TableOf A) where
  -- No row of the same fields, no clash.
  missing-clashes :
      (r : A) (rows : List A)
      → find (λ s. table.same r s) rows ≡ none
      → clashes_with table.pk table.same r rows ≡ false
  unfolding clashes_with
  missing-clashes r [] h = refl
  missing-clashes r (s ∷ rows) h = ground (arith, missing-clashes r rows)

  pub Holds-append :
      (r : A) (rows : List A)
      → IsSymmetric table
      → Holds table rows
      → find (λ s. table.same r s) rows ≡ none
      → pk_taken table.pk r rows ≡ false
      → Holds table (rows ++ r ∷ [])
  Holds-append r rows symmetric holds missing new = record {
    keyed = IsKeyed-append table.pk r rows holds.keyed new;
    unique =
        IsUnique-append table.pk table.same r rows symmetric holds.unique
          (missing-clashes r rows missing) new;
  }

  -- A changed row with the key and the constraint's fields of one that stands.
  changed-clashes :
      (r u : A) (rows : List A)
      → ((s : A) → In s rows → table.same r s ≡ true → table.pk r ≡ table.pk s)
      → table.pk u ≡ table.pk r
      → ((s : A) → table.same u s ≡ table.same r s)
      → clashes_with table.pk table.same u rows ≡ false
  unfolding clashes_with
  changed-clashes r u [] alone key alike = refl
  changed-clashes r u (s ∷ rows) alone key alike =
      let ih = changed-clashes r u rows (λ t i. alone t (inr i)) key alike in
      elim (Bool-cases (table.same u s)) [
        | inl hit ↦
            let e : table.pk s ≡ table.pk u =
              sym (alone s (inl refl) (sym (alike s) ∙ hit)) ∙ sym key in
            ground (arith, eq_iff (table.pk s) (table.pk u))
        | inr miss ↦ ground arith
      ]

  pub Holds-save :
      (r u : A) (rows : List A)
      → IsSymmetric table
      → Holds table rows
      → In r rows
      → table.pk u ≡ table.pk r
      → ((s : A) → table.same u s ≡ table.same r s)
      → Holds table (save_row table.pk u rows)
  Holds-save r u rows symmetric holds stands key alike = record {
    keyed = IsKeyed-save_row table.pk u rows holds.keyed;
    unique =
        IsUnique-save_row table.pk table.same u rows symmetric holds.unique
          (changed-clashes r u rows (λ s i e. holds.unique r s stands i e) key alike);
  }

  module _ {E : Catalog → Type 0} {Q : A → Catalog → Type 0} where
    -- A row that was there, or a new one.
    pub Ends-get_or_create :
        (r : A) (c : Catalog)
        → E c
        → ((s : A) → In s (table.rows c) → table.same r s ≡ true → Q s c)
        → (find (λ s. table.same r s) (table.rows c) ≡ none
            → pk_taken table.pk r (table.rows c) ≡ false
            → Q r (table.set_rows (table.rows c ++ r ∷ []) c))
        → Ends E Q (get_or_create table r c)
    unfolding get_or_create
    Ends-get_or_create r c e old new =
        Ends-gets _ c _ (go (find (λ s. table.same r s) (table.rows c)) refl)
      where
        go :
            (existing : Option A)
            → find (λ s. table.same r s) (table.rows c) ≡ existing
            → Ends E Q (found_or_insert table existing r c)
        go none missing = Ends-gets _ c _ (
            Ends-ensure _ c _ _ e
              λ free. Ends-bind_write _ c _ (Ends-respond _ _ (new missing (ground arith))))
        go (some s) found =
            let (i, hit) = In-find (λ s. table.same r s) s (table.rows c) found in
            Ends-respond _ _ (old s i hit)

  pub Ends-save :
      {E : Catalog → Type 0} {Q : Unit {0} → Catalog → Type 0} (r : A) (c : Catalog)
      → Q tt (table.set_rows (save_row table.pk r (table.rows c)) c)
      → Ends E Q (save table r c)
  unfolding save
  Ends-save r c h = Ends-write _ c h

module _ {B : Type 0} {E : Catalog → Type 0} {Q : B → Catalog → Type 0} where
  pub Ends-new_id :
      (uuid : ℕ → String) (f : String → Handler Catalog B) (c : Catalog)
      → ((id : String) → Ends E Q (f id (record c { issued = suc c.issued })))
      → Ends E Q ((new_id uuid >>= f) c)
  unfolding new_id ◌>>=◌
  Ends-new_id uuid f c k = k (uuid c.issued)

-- The keys and the constraints of the four tables that discoveries fill.
pub record CatalogIsValid (c : Catalog) : Type 0 where
  pub types : Holds type_table c.types
  pub variants : Holds variant_table c.variants
  pub device_variants : Holds device_variant_table c.device_variants
  pub measurements : Holds measurement_table c.measurements
