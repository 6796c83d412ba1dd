-- ===== src/Quality/Completeness.antt =====
-- `analyse_completeness` of quality_worker/executor.py. Times are numbers of seconds, in order; the ratio
-- is the fraction of two counts, of which the code takes the quotient as a float.
use meshtastic_things.Prelude.{
  ℕ, ◌-◌, ◌/◌, ◌≤◌, leb, ◌≡◌, refl, ◌⊎◌, inl, inr, List, [], ◌∷◌, length, arith, if◌then◌else◌,
  Bool-cases,
}
use meshtastic_things.Prelude.Members.{In}

abbrev pub max : ℕ → ℕ → ℕ
max a b = if leb a b then b else a

abbrev pub min : ℕ → ℕ → ℕ
min a b = if leb a b then a else b

pub record Completeness : Type 0 where
  pub observed : ℕ
  pub expected : ℕ
  pub ratio : ℕ × ℕ
  pub largest_gap_seconds : ℕ

attained : (gap d m : ℕ) (ds : List ℕ) → m ≡ max gap d → (m ≡ gap) ⊎ In m (d ∷ ds)
attained gap d m ds e = elim (Bool-cases (leb gap d)) [
  | inl bigger ↦ inr (inl (ground arith))
  | inr smaller ↦ inl (ground arith)
]

module _ {V : Type 0} where
  -- The loop over consecutive pairs, from a largest gap so far.
  unfoldable pub largest_gap_from : ℕ → List (ℕ × V) → ℕ
  largest_gap_from gap [] = gap
  largest_gap_from gap (a ∷ []) = gap
  largest_gap_from gap (a ∷ b ∷ series) = largest_gap_from (max gap (b.0 - a.0)) (b ∷ series)

  unfoldable pub analyse_completeness : List (ℕ × V) → ℕ → ℕ → Completeness
  unfolding largest_gap_from
  analyse_completeness series window_seconds reading_interval_seconds =
      let expected = max 1 (window_seconds / max 1 reading_interval_seconds) in
      record {
        observed = length series;
        expected = expected;
        ratio = (min expected (length series), expected);
        largest_gap_seconds = largest_gap_from 0 series;
      }

  -- The gaps between consecutive readings.
  abbrev pub gaps : List (ℕ × V) → List ℕ
  gaps [] = []
  gaps (a ∷ []) = []
  gaps (a ∷ b ∷ series) = (b.0 - a.0) ∷ gaps (b ∷ series)

  largest_gap_from-bounds :
      (gap : ℕ) (series : List (ℕ × V))
      → (gap ≤ largest_gap_from gap series)
        × ((g : ℕ) → In g (gaps series) → g ≤ largest_gap_from gap series)
        × ((largest_gap_from gap series ≡ gap) ⊎ In (largest_gap_from gap series) (gaps series))
  unfolding largest_gap_from
  largest_gap_from-bounds gap [] = (omega arith, λ g i. absurd i, inl refl)
  largest_gap_from-bounds gap (a ∷ []) = (omega arith, λ g i. absurd i, inl refl)
  largest_gap_from-bounds gap (a ∷ b ∷ series) =
      let (low, all, one) = largest_gap_from-bounds (max gap (b.0 - a.0)) (b ∷ series) in
      (
        ground arith,
        λ g i. elim i [ inl e ↦ rw e (ground arith) | inr j ↦ all g j ],
        elim one [
          | inl e ↦
              attained gap (b.0 - a.0) (largest_gap_from (max gap (b.0 - a.0)) (b ∷ series))
                (gaps (b ∷ series)) e
          | inr i ↦ inr (inr i)
        ],
      )

  -- The completeness of a window: at least one reading is expected; the ratio is at most one, and is one
  -- where as many readings are there as are expected; the largest gap is no less than any gap between
  -- consecutive readings, and is one of them or 0.
  pub analyse_completeness-bounds :
      (series : List (ℕ × V)) (window reading_interval : ℕ)
      → (let c = analyse_completeness series window reading_interval in
          (1 ≤ c.expected)
          × (c.ratio.0 ≤ c.ratio.1)
          × (c.expected ≤ c.observed → c.ratio.0 ≡ c.ratio.1)
          × ((g : ℕ) → In g (gaps series) → g ≤ c.largest_gap_seconds)
          × ((c.largest_gap_seconds ≡ 0) ⊎ In c.largest_gap_seconds (gaps series)))
  unfolding analyse_completeness
  analyse_completeness-bounds series window reading_interval =
      let (low, all, one) = largest_gap_from-bounds 0 series in
      let e = window / max 1 reading_interval in
      (ground arith, ground arith, λ many. ground arith, all, one)
