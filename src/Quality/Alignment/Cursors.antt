-- ===== src/Quality/Alignment/Cursors.antt =====
-- What the cursor of one channel holds as the timestamps go on, and that it finds the nearest sample.
use meshtastic_things.Prelude.{
  ℕ, ◌≤◌, ◌<◌, leb, refl, inl, inr, List, [], ◌∷◌, arith, All, Bool-cases,
}
use meshtastic_things.Prelude.Members.{In}
use meshtastic_things.Quality.Alignment.{dist, advance}

-- The later of two samples that was as near stays as near.
closer :
    (s next t u y : ℕ)
    → s ≤ next
    → dist next t ≤ dist s t
    → t ≤ u
    → dist y u ≤ dist next u
    → dist y u ≤ dist s u
closer s next t u y = omega arith

-- After a farther sample all are farther.
past : (a next t y : ℕ) → dist a t < dist next t → next ≤ y → a ≤ next → dist a t ≤ dist y t
past a next t y = omega arith

module _ {V : Type 0} where
  -- No sample is before an earlier one.
  abbrev pub IsSorted : List (ℕ × V) → Type 0
  IsSorted [] = Unit
  IsSorted (s ∷ series) = All (λ (x : ℕ × V). s.0 ≤ x.0) series × IsSorted series

  -- For every time from `t` on, each sample of the series has one in the rest that is as near.
  unfoldable pub StillNear : ℕ → List (ℕ × V) → List (ℕ × V) → Type 0
  StillNear t series rest =
      (u : ℕ)
      → t ≤ u
      → (x : ℕ × V) → In x series
      → (y : ℕ × V) × In y rest × (dist y.0 u ≤ dist x.0 u)

  All-In : (P : ℕ × V → Type 0) (x : ℕ × V) (xs : List (ℕ × V)) → All P xs → In x xs → P x
  All-In P x [] h i = absurd i
  All-In P x (y ∷ xs) (p, h) (inl e) = rw e p
  All-In P x (y ∷ xs) (p, h) (inr i) = All-In P x xs h i

  advance-In : (t : ℕ) (series : List (ℕ × V)) (x : ℕ × V) → In x (advance t series) → In x series
  unfolding advance
  advance-In t [] x i = i
  advance-In t (s ∷ []) x i = i
  advance-In t (s ∷ next ∷ series) x i = elim (Bool-cases (leb (dist next.0 t) (dist s.0 t))) [
    | inl nearer ↦ inr (advance-In t (next ∷ series) x (rw nearer at i))
    | inr farther ↦ rw farther at i
  ]

  advance-IsSorted : (t : ℕ) (series : List (ℕ × V)) → IsSorted series → IsSorted (advance t series)
  unfolding advance
  advance-IsSorted t [] h = h
  advance-IsSorted t (s ∷ []) h = h
  advance-IsSorted t (s ∷ next ∷ series) h = elim (Bool-cases (leb (dist next.0 t) (dist s.0 t))) [
    | inl nearer ↦ rw nearer (advance-IsSorted t (next ∷ series) h.1)
    | inr farther ↦ rw farther h
  ]

  advance-StillNear :
      (t : ℕ) (series : List (ℕ × V)) → IsSorted series → StillNear t series (advance t series)
  unfolding advance StillNear
  advance-StillNear t [] h u later x i = absurd i
  advance-StillNear t (s ∷ []) h u later x i = (x, i, omega arith)
  advance-StillNear t (s ∷ next ∷ series) h u later x i =
      elim (Bool-cases (leb (dist next.0 t) (dist s.0 t))) [
        | inl nearer ↦ rw nearer (elim i [
          | inl here ↦
              let (y, j, d) = advance-StillNear t (next ∷ series) h.1 u later next (inl refl) in
              (y, j, rw here (closer s.0 next.0 t u y.0 h.0.0 (ground arith) later d))
          | inr there ↦ advance-StillNear t (next ∷ series) h.1 u later x there
        ])
        | inr farther ↦ rw farther (x, i, omega arith)
      ]

  -- The head is the nearest.
  abbrev pub Leads : ℕ → List (ℕ × V) → Type 0
  Leads t [] = Unit
  Leads t (s ∷ later) = (y : ℕ × V) → In y (s ∷ later) → dist s.0 t ≤ dist y.0 t

  pub advance-Leads : (t : ℕ) (series : List (ℕ × V)) → IsSorted series → Leads t (advance t series)
  unfolding advance
  advance-Leads t [] h = tt
  advance-Leads t (a ∷ []) h = λ y i. elim i [ inl e ↦ rw e (omega arith) | inr j ↦ absurd j ]
  advance-Leads t (a ∷ next ∷ series) h = elim (Bool-cases (leb (dist next.0 t) (dist a.0 t))) [
    | inl nearer ↦ rw nearer (advance-Leads t (next ∷ series) h.1)
    | inr farther ↦ rw farther (λ y i. elim i [
      | inl e ↦ rw e (omega arith)
      | inr j ↦ past a.0 next.0 t y.0 (ground arith) (from_next y j) h.0.0
    ])
  ]
    where
      from_next : (y : ℕ × V) → In y (next ∷ series) → next.0 ≤ y.0
      from_next y (inl e) = rw e (omega arith)
      from_next y (inr j) = All-In (λ (x : ℕ × V). next.0 ≤ x.0) y series h.1.0 j

  -- What a cursor holds of a channel's series, for the timestamps from `t` on.
  pub record Follows (t : ℕ) (series rest : List (ℕ × V)) : Type 0 where
    pub inside : (x : ℕ × V) → In x rest → In x series
    pub sorted : IsSorted rest
    pub near : StillNear t series rest

  pub Follows-advance :
      (t u : ℕ) (series rest : List (ℕ × V))
      → t ≤ u
      → Follows t series rest
      → Follows u series (advance u rest)
  unfolding StillNear
  Follows-advance t u series rest later f = record {
    inside = λ x i. f.inside x (advance-In u rest x i);
    sorted = advance-IsSorted u rest f.sorted;
    near = λ v after x i.
        let (y, j, d) = f.near v (omega arith) x i in
        let (z, k, d') = advance-StillNear u rest f.sorted v after y j in (z, k, omega arith);
  }

  pub Follows-later :
      (t u : ℕ) (series rest : List (ℕ × V)) → t ≤ u → Follows t series rest → Follows u series rest
  unfolding StillNear
  Follows-later t u series rest later f = record {
    inside = f.inside;
    sorted = f.sorted;
    near = λ v after x i. f.near v (omega arith) x i;
  }

  -- The sample at an advanced cursor is nearest of its channel's whole series.
  pub nearest :
      (t : ℕ) (series : List (ℕ × V)) (s : ℕ × V) (later : List (ℕ × V))
      → Follows t series (s ∷ later)
      → Leads t (s ∷ later)
      → (x : ℕ × V) → In x series
      → dist s.0 t ≤ dist x.0 t
  unfolding StillNear
  nearest t series s later f leads x i =
      let (y, j, d) = f.near t (omega arith) x i in let d' = leads y j in omega arith
