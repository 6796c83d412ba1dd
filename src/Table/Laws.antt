-- ===== src/Table/Laws.antt =====
-- What appending, saving and deleting rows keeps of a table's constraints.
use meshtastic_things.Prelude.{
  String, Bool, true, false, not, ◌&&◌, ◌≡◌, refl, sym, ◌∙◌, ◌⊎◌, inl, inr, List, [], ◌∷◌, ◌++◌,
  arith, str_eq, eq_iff, Bool-cases,
}
use meshtastic_things.Prelude.Members.{In, In-append, In-select, any-false}
use meshtastic_things.Table.{save_row, delete_row, clashes_with, pk_taken}

-- Rows that are the same to a constraint have one primary key.
abbrev pub IsUnique : {A : Type 0} → (A → String) → (A → A → Bool) → List A → Type 0
IsUnique {A} pk same rows = (r s : A) → In r rows → In s rows → same r s ≡ true → pk r ≡ pk s

-- Rows with one primary key are one row.
abbrev pub IsKeyed : {A : Type 0} → (A → String) → List A → Type 0
IsKeyed {A} pk rows = (r s : A) → In r rows → In s rows → pk r ≡ pk s → r ≡ s

module _ {A : Type 0} (pk : A → String) where
  pub In-save_row :
      (r u : A) (rows : List A)
      → In r (save_row pk u rows)
      → (r ≡ u) ⊎ (In r rows × (str_eq (pk r) (pk u) ≡ false))
  unfolding save_row
  In-save_row r u [] h = absurd h
  In-save_row r u (s ∷ rows) h = go (Bool-cases (str_eq (pk s) (pk u))) (In-save_row r u rows)
    where
      later :
          (r ≡ u) ⊎ (In r rows × (str_eq (pk r) (pk u) ≡ false))
          → (r ≡ u) ⊎ (In r (s ∷ rows) × (str_eq (pk r) (pk u) ≡ false))
      later (inl e) = inl e
      later (inr (i, n)) = inr (inr i, n)

      go :
          (str_eq (pk s) (pk u) ≡ true) ⊎ (str_eq (pk s) (pk u) ≡ false)
          → (In r (save_row pk u rows) → (r ≡ u) ⊎ (In r rows × (str_eq (pk r) (pk u) ≡ false)))
          → (r ≡ u) ⊎ (In r (s ∷ rows) × (str_eq (pk r) (pk u) ≡ false))
      go (inl hit) ih =
          let h' : In r (u ∷ save_row pk u rows) = rw hit at h in
          elim h' [ inl e ↦ inl e | inr i ↦ later (ih i) ]
      go (inr miss) ih =
          let h' : In r (s ∷ save_row pk u rows) = rw miss at h in
          elim h' [ inl e ↦ inr (inl e, rw e miss) | inr i ↦ later (ih i) ]

  pub IsUnique-save_row :
      (same : A → A → Bool) (u : A) (rows : List A)
      → ((r s : A) → same r s ≡ same s r)
      → IsUnique pk same rows
      → clashes_with pk same u rows ≡ false
      → IsUnique pk same (save_row pk u rows)
  unfolding clashes_with
  IsUnique-save_row same u rows symmetric unique no_clash r s i j e =
      go (In-save_row r u rows i) (In-save_row s u rows j)
    where
      apart : (t : A) → In t rows → same u t ≡ true → str_eq (pk t) (pk u) ≡ true
      apart t k h =
          let n = any-false (λ x. same u x && not (str_eq (pk x) (pk u))) t rows no_clash k in
          ground arith

      go :
          (r ≡ u) ⊎ (In r rows × (str_eq (pk r) (pk u) ≡ false))
          → (s ≡ u) ⊎ (In s rows × (str_eq (pk s) (pk u) ≡ false))
          → pk r ≡ pk s
      go (inl a) (inl b) = rw (a, b)
      go (inl a) (inr (k, n)) = cc (apart s k (rw a at e), n)
      go (inr (k, n)) (inl b) =
          let e' : same r u ≡ true = rw b at e in cc (apart r k (symmetric u r ∙ e'), n)
      go (inr (k, n)) (inr (l, m)) = unique r s k l e

  pub IsKeyed-save_row : (u : A) (rows : List A) → IsKeyed pk rows → IsKeyed pk (save_row pk u rows)
  IsKeyed-save_row u rows keyed r s i j e = go (In-save_row r u rows i) (In-save_row s u rows j)
    where
      go :
          (r ≡ u) ⊎ (In r rows × (str_eq (pk r) (pk u) ≡ false))
          → (s ≡ u) ⊎ (In s rows × (str_eq (pk s) (pk u) ≡ false))
          → r ≡ s
      go (inl a) (inl b) = a ∙ sym b
      go (inl a) (inr (k, n)) =
          let e' : pk s ≡ pk u = sym (rw a at e) in cc ((eq_iff (pk s) (pk u)).1 e', n)
      go (inr (k, n)) (inl b) =
          let e' : pk r ≡ pk u = rw b at e in cc ((eq_iff (pk r) (pk u)).1 e', n)
      go (inr (k, n)) (inr (l, m)) = keyed r s k l e

  pub IsUnique-append :
      (same : A → A → Bool) (u : A) (rows : List A)
      → ((r s : A) → same r s ≡ same s r)
      → IsUnique pk same rows
      → clashes_with pk same u rows ≡ false
      → pk_taken pk u rows ≡ false
      → IsUnique pk same (rows ++ u ∷ [])
  unfolding clashes_with pk_taken
  IsUnique-append same u rows symmetric unique no_clash new r s i j e =
      go (In-append r rows (u ∷ []) i) (In-append s rows (u ∷ []) j)
    where
      apart : (t : A) → In t rows → same u t ≡ true → ⊥
      apart t k h =
          let n = any-false (λ x. same u x && not (str_eq (pk x) (pk u))) t rows no_clash k in
          let m = any-false (λ x. str_eq (pk x) (pk u)) t rows new k in ground arith

      go : In r rows ⊎ In r (u ∷ []) → In s rows ⊎ In s (u ∷ []) → pk r ≡ pk s
      go (inl k) (inl l) = unique r s k l e
      go (inl k) (inr (inl b)) =
          let e' : same r u ≡ true = rw b at e in absurd (apart r k (symmetric u r ∙ e'))
      go (inr (inl a)) (inl l) = absurd (apart s l (rw a at e))
      go (inr (inl a)) (inr (inl b)) = rw (a, b)
      go _ (inr (inr b)) = absurd b
      go (inr (inr a)) _ = absurd a

  pub IsKeyed-append :
      (u : A) (rows : List A)
      → IsKeyed pk rows
      → pk_taken pk u rows ≡ false
      → IsKeyed pk (rows ++ u ∷ [])
  unfolding pk_taken
  IsKeyed-append u rows keyed new r s i j e =
      go (In-append r rows (u ∷ []) i) (In-append s rows (u ∷ []) j)
    where
      apart : (t : A) → In t rows → pk t ≡ pk u → ⊥
      apart t k h =
          let m = any-false (λ x. str_eq (pk x) (pk u)) t rows new k in
          cc ((eq_iff (pk t) (pk u)).1 h, m)

      go : In r rows ⊎ In r (u ∷ []) → In s rows ⊎ In s (u ∷ []) → r ≡ s
      go (inl k) (inl l) = keyed r s k l e
      go (inl k) (inr (inl b)) = let e' : pk r ≡ pk u = rw b at e in absurd (apart r k e')
      go (inr (inl a)) (inl l) = let e' : pk s ≡ pk u = sym (rw a at e) in absurd (apart s l e')
      go (inr (inl a)) (inr (inl b)) = a ∙ sym b
      go _ (inr (inr b)) = absurd b
      go (inr (inr a)) _ = absurd a

  pub In-delete_row :
      (id : String) (r : A) (rows : List A)
      → In r (delete_row pk id rows)
      → In r rows × (str_eq (pk r) id ≡ false)
  unfolding delete_row
  In-delete_row id r rows i =
      let (j, kept) = In-select (λ s. not (str_eq (pk s) id)) r rows i in (j, ground arith)

  -- A row stays, or the saved row with its key has its place.
  pub save_row-In :
      (r u : A) (rows : List A) → In r rows → (r' : A) × In r' (save_row pk u rows) × (pk r' ≡ pk r)
  unfolding save_row
  save_row-In r u [] i = absurd i
  save_row-In r u (s ∷ rows) i = go (Bool-cases (str_eq (pk s) (pk u))) i (save_row-In r u rows)
    where
      go :
          (str_eq (pk s) (pk u) ≡ true) ⊎ (str_eq (pk s) (pk u) ≡ false)
          → In r (s ∷ rows)
          → (In r rows → (r' : A) × In r' (save_row pk u rows) × (pk r' ≡ pk r))
          → (r' : A) × In r' (save_row pk u (s ∷ rows)) × (pk r' ≡ pk r)
      go (inl hit) (inl e) ih = (u, rw hit (inl refl), rw e (sym ((eq_iff (pk s) (pk u)).0 hit)))
      go (inr miss) (inl e) ih = (s, rw miss (inl refl), rw e)
      go (inl hit) (inr j) ih = let (r', k, e) = ih j in (r', rw hit (inr k), e)
      go (inr miss) (inr j) ih = let (r', k, e) = ih j in (r', rw miss (inr k), e)

  -- A row with another key stays.
  pub save_row-keeps :
      (r u : A) (rows : List A)
      → In r rows
      → str_eq (pk r) (pk u) ≡ false
      → In r (save_row pk u rows)
  unfolding save_row
  save_row-keeps r u [] i n = absurd i
  save_row-keeps r u (s ∷ rows) (inl e) n =
      let n' : str_eq (pk s) (pk u) ≡ false = rw e at n in rw n' (inl e)
  save_row-keeps r u (s ∷ rows) (inr i) n = elim (Bool-cases (str_eq (pk s) (pk u))) [
    | inl hit ↦ rw hit (inr (save_row-keeps r u rows i n))
    | inr miss ↦ rw miss (inr (save_row-keeps r u rows i n))
  ]

  -- A row with the saved row's key makes room for it.
  pub save_row-saved :
      (r u : A) (rows : List A)
      → In r rows
      → str_eq (pk r) (pk u) ≡ true
      → In u (save_row pk u rows) × (pk r ≡ pk u)
  unfolding save_row
  save_row-saved r u [] i h = absurd i
  save_row-saved r u (s ∷ rows) (inl e) h =
      let h' : str_eq (pk s) (pk u) ≡ true = rw e at h in
      (rw h' (inl refl), (eq_iff (pk r) (pk u)).0 h)
  save_row-saved r u (s ∷ rows) (inr i) h =
      let (j, e) = save_row-saved r u rows i h in
      elim (Bool-cases (str_eq (pk s) (pk u))) [
        | inl hit ↦ (rw hit (inl refl), e)
        | inr miss ↦ (rw miss (inr j), e)
      ]
