-- ===== src/Table.antt =====
-- A table of the registry's database as Django's ORM reads and writes it: rows with a primary key,
-- which is a text, and a uniqueness constraint as a Boolean relation of two rows. The tables of
-- owners, meshes and devices have their own functions in Registry.Models.
pub mod Laws
use meshtastic_things.Prelude.{
  String, Bool, not, ◌&&◌, Option, List, [], ◌∷◌, find, any, select, str_eq, if◌then◌else◌,
}

module _ {A : Type 0} (pk : A → String) where
  -- `.get(pk=...)`
  abbrev pub row_by_pk : String → List A → Option A
  row_by_pk id = find (λ r. str_eq (pk r) id)

  -- Saving a row that exists.
  unfoldable pub save_row : A → List A → List A
  save_row r [] = []
  save_row r (s ∷ rows) =
      let rest = save_row r rows in if str_eq (pk s) (pk r) then r ∷ rest else s ∷ rest

  -- `.delete()`, of the row alone.
  unfoldable pub delete_row : String → List A → List A
  delete_row id rows = select (λ r. not (str_eq (pk r) id)) rows

  -- Whether another row stands in a constraint's relation to this one, which raises IntegrityError.
  unfoldable pub clashes_with : (A → A → Bool) → A → List A → Bool
  clashes_with same r rows = any (λ s. same r s && not (str_eq (pk s) (pk r))) rows

  -- Whether a new row's key is taken.
  unfoldable pub pk_taken : A → List A → Bool
  pk_taken r rows = any (λ s. str_eq (pk s) (pk r)) rows
