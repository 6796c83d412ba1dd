-- ===== src/Influx/Items.antt =====
-- Writing one key of a dictionary leaves the others.
use meshtastic_things.Prelude.{
  String, false, ◌≡◌, refl, ap, ◌∙◌, inl, inr, some, str_eq, eq_iff, or_default, if◌then◌else◌,
  Bool-cases,
}
use meshtastic_things.Json.{Value, null, Fields, end, field, get, truthy}
use meshtastic_things.Influx.{Python, set_item, tag_of, text_item, node_tags}

module _ {N : Type 0} where
  pub get-set_item :
      (k key : String) (v : Value N) (fs : Fields N)
      → str_eq key k ≡ false
      → get k (set_item key v fs) ≡ get k fs
  unfolding get set_item
  get-set_item k key v end other = rw other refl
  get-set_item k key v (field j old fs) other = elim (Bool-cases (str_eq j key)) [
    | inl same ↦
        let e : j ≡ key = (eq_iff j key).0 same in
        let other' : str_eq j k ≡ false = rw e other in rw (same, other') refl
    | inr differs ↦
        rw differs
          (ap (λ rest. if str_eq j k then some old else rest) (get-set_item k key v fs other))
  ]

module _ {N : Type 0} (py : Python N) where
  pub get-tag_of :
      (k key : String) (event tags : Fields N)
      → str_eq key k ≡ false
      → get k (tag_of py key event tags) ≡ get k tags
  get-tag_of k key event tags other =
      elim (Bool-cases (truthy py.is_zero (or_default (get key event) null))) [
        | inl there ↦ rw there (get-set_item k key _ tags other)
        | inr blank ↦ rw blank refl
      ]

  pub get-text_item :
      (k key name : String) (payload d : Fields N)
      → str_eq name k ≡ false
      → get k (text_item py key name payload d) ≡ get k d
  get-text_item k key name payload d other =
      elim (Bool-cases (truthy py.is_zero (or_default (get key payload) null))) [
        | inl there ↦ rw there (get-set_item k name _ d other)
        | inr blank ↦ rw blank refl
      ]

  pub get-node_tags :
      (k : String) (payload tags : Fields N)
      → str_eq "long_name" k ≡ false
      → str_eq "short_name" k ≡ false
      → str_eq "hw_model" k ≡ false
      → str_eq "role" k ≡ false
      → get k (node_tags py payload tags) ≡ get k tags
  get-node_tags k payload tags l s h r =
      get-text_item k "role" "role" payload _ r
      ∙ get-text_item k "hw_model" "hw_model" payload _ h
      ∙ get-text_item k "short_name" "short_name" payload _ s
      ∙ get-text_item k "long_name" "long_name" payload _ l
