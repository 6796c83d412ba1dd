-- ===== src/Quality/Alignment/Nearest.antt =====
-- The rows of an alignment have the nearest sample of each channel.
use meshtastic_things.Prelude.{
  ℕ, ◌*◌, ◌≤◌, String, ◌≡◌, refl, inl, inr, Option, none, some, List, [], ◌∷◌, arith, All,
  Bool-cases,
}
use meshtastic_things.Prelude.Members.{In}
use meshtastic_things.Quality.Alignment.{
  dist, advance, in_range, place, match_channels, align_from, align_series, Row,
}
use meshtastic_things.Quality.Alignment.Cursors.{
  IsSorted, StillNear, Leads, advance-Leads, Follows, Follows-advance, Follows-later, nearest,
}

module _ {V : Type 0} where
  -- A row's value for each channel: the nearest sample of the channel, within half an interval.
  pub record Picked (interval t : ℕ) (series : List (ℕ × V)) (v : V) : Type 0 where
    pub sample : ℕ × V
    pub listed : In sample series
    pub value : sample.1 ≡ v
    pub nearest : (x : ℕ × V) → In x series → dist sample.0 t ≤ dist x.0 t
    pub in_range : 2 * dist sample.0 t ≤ interval

  abbrev pub Aligned : ℕ → ℕ → List (String × List (ℕ × V)) → List (String × V) → Type 0
  Aligned interval t [] [] = Unit
  Aligned interval t ((channel, series) ∷ channels) ((name, v) ∷ row) =
      (name ≡ channel) × Picked interval t series v × Aligned interval t channels row
  Aligned interval t _ _ = ⊥

  -- The cursors of all channels.
  AllFollow : ℕ → List (String × List (ℕ × V)) → List (String × List (ℕ × V)) → Type 0
  AllFollow t [] [] = Unit
  AllFollow t ((channel, series) ∷ channels) ((name, rest) ∷ cursors) =
      (name ≡ channel) × Follows t series rest × AllFollow t channels cursors
  AllFollow t _ _ = ⊥

  AllFollow-later :
      (t u : ℕ) (channels cursors : List (String × List (ℕ × V)))
      → t ≤ u
      → AllFollow t channels cursors
      → AllFollow u channels cursors
  unfolding AllFollow
  AllFollow-later t u [] [] later f = tt
  AllFollow-later t u [] (_ ∷ cursors) later f = elim f [ ]
  AllFollow-later t u ((c, series) ∷ channels) [] later f = elim f [ ]
  AllFollow-later t u ((c, series) ∷ channels) ((n, rest) ∷ cursors) later (e, f, fs) =
      (e, Follows-later t u series rest later f, AllFollow-later t u channels cursors later fs)

  place-AllFollow :
      (interval u : ℕ) (c n : String) (series a : List (ℕ × V))
      (channels moved cursors : List (String × List (ℕ × V))) (row : Option (List (String × V)))
      → n ≡ c
      → Follows u series a
      → AllFollow u channels moved
      → AllFollow u channels cursors
      → AllFollow u ((c, series) ∷ channels) (place interval u n (row, moved) cursors a).1
  unfolding AllFollow
  place-AllFollow interval u c n series [] channels moved cursors row e f m fs = (e, f, fs)
  place-AllFollow interval u c n series (s ∷ later) channels moved cursors row e f m fs =
      elim (Bool-cases (in_range interval u s.0)) [
        | inl near ↦ rw near (e, f, m)
        | inr far ↦ rw far (e, f, fs)
      ]

  match_channels-AllFollow :
      (interval t u : ℕ) (channels cursors : List (String × List (ℕ × V)))
      → t ≤ u
      → AllFollow t channels cursors
      → AllFollow u channels (match_channels interval u cursors).1
  unfolding AllFollow match_channels
  match_channels-AllFollow interval t u [] [] later f = tt
  match_channels-AllFollow interval t u [] (_ ∷ cursors) later f = elim f [ ]
  match_channels-AllFollow interval t u ((c, series) ∷ channels) [] later f = elim f [ ]
  match_channels-AllFollow interval t u ((c, series) ∷ channels) ((n, rest) ∷ cursors) later
        (e, f, fs) =
      place-AllFollow interval u c n series (advance u rest) channels
        (match_channels interval u cursors).1 cursors (match_channels interval u cursors).0 e
        (Follows-advance t u series rest later f)
        (match_channels-AllFollow interval t u channels cursors later fs)
        (AllFollow-later t u channels cursors later fs)

  place-Aligned :
      (interval u : ℕ) (c n : String) (series a : List (ℕ × V))
      (channels moved cursors : List (String × List (ℕ × V))) (others : Option (List (String × V)))
      (row : List (String × V))
      → n ≡ c
      → Follows u series a
      → Leads u a
      → ((r : List (String × V)) → others ≡ some r → Aligned interval u channels r)
      → (place interval u n (others, moved) cursors a).0 ≡ some row
      → Aligned interval u ((c, series) ∷ channels) row
  place-Aligned interval u c n series [] channels moved cursors others row e f leads rest found = cc
  place-Aligned interval u c n series (s ∷ later) channels moved cursors none row e f leads rest
        found =
      ground arith
  place-Aligned interval u c n series (s ∷ later) channels moved cursors (some r) row e f leads rest
        found =
      elim (Bool-cases (in_range interval u s.0)) [
        | inl near ↦
            let same : (n, s.1) ∷ r ≡ row = ground arith in
            rw (← same) (
              e,
              record {
                sample = s;
                listed = f.inside s (inl refl);
                value = refl;
                nearest = nearest u series s later f leads;
                in_range = ground arith;
              },
              rest r refl,
            )
        | inr far ↦ ground arith
      ]

  match_channels-Aligned :
      (interval t u : ℕ) (channels cursors : List (String × List (ℕ × V))) (row : List (String × V))
      → t ≤ u
      → AllFollow t channels cursors
      → (match_channels interval u cursors).0 ≡ some row
      → Aligned interval u channels row
  unfolding AllFollow match_channels
  match_channels-Aligned interval t u [] [] row later f found =
      let none_left : [] ≡ row = ground arith in rw (← none_left) tt
  match_channels-Aligned interval t u [] (_ ∷ cursors) row later f e = elim f [ ]
  match_channels-Aligned interval t u ((c, series) ∷ channels) [] row later f found = elim f [ ]
  match_channels-Aligned interval t u ((c, series) ∷ channels) ((n, rest) ∷ cursors) row later
        (e, f, fs) found =
      let g = Follows-advance t u series rest later f in
      place-Aligned interval u c n series (advance u rest) channels
        (match_channels interval u cursors).1 cursors (match_channels interval u cursors).0 row e g
        (advance-Leads u rest f.sorted)
        (λ r found_rest. match_channels-Aligned interval t u channels cursors r later fs found_rest)
        found

  align_from-Aligned :
      (interval t : ℕ) (base : List (ℕ × V)) (channels cursors : List (String × List (ℕ × V)))
      (row : Row V)
      → All (λ (x : ℕ × V). t ≤ x.0) base
      → IsSorted base
      → AllFollow t channels cursors
      → In row (align_from interval base cursors)
      → In (row.time, row.base) base × Aligned interval row.time channels row.others
  unfolding align_from
  align_from-Aligned interval t [] channels cursors row after sorted f i = absurd i
  align_from-Aligned interval t ((u, v) ∷ base) channels cursors row (now, after) (ordered, sorted)
        f i =
      go (match_channels interval u cursors).0 refl i (
        align_from-Aligned interval u base channels (match_channels interval u cursors).1 row
          ordered sorted (match_channels-AllFollow interval t u channels cursors now f))
    where
      go :
          (o : Option (List (String × V)))
          → (match_channels interval u cursors).0 ≡ o
          → In row (elim o [
            | none ↦ align_from interval base (match_channels interval u cursors).1
            | some others ↦
                record { time = u; base = v; others = others }
                ∷ align_from interval base (match_channels interval u cursors).1
          ])
          → (In row (align_from interval base (match_channels interval u cursors).1)
              → In (row.time, row.base) base × Aligned interval row.time channels row.others)
          → In (row.time, row.base) ((u, v) ∷ base) × Aligned interval row.time channels row.others
      go none e i rest = let (a, b) = rest i in (inr a, b)
      go (some others) e (inl same) rest =
          rw same (inl refl, match_channels-Aligned interval t u channels cursors others now f e)
      go (some others) e (inr i) rest = let (a, b) = rest i in (inr a, b)

  start :
      (channels : List (String × List (ℕ × V)))
      → All (λ (c : String × List (ℕ × V)). IsSorted c.1) channels
      → AllFollow 0 channels channels
  unfolding AllFollow StillNear
  start [] sorted = tt
  start ((c, series) ∷ channels) (h, sorted) = (
    refl,
    record { inside = λ x i. i; sorted = h; near = λ u later x i. (x, i, omega arith) },
    start channels sorted,
  )

  not_before : (base : List (ℕ × V)) → All (λ (x : ℕ × V). 0 ≤ x.0) base
  not_before [] = tt
  not_before (x ∷ base) = (omega arith, not_before base)

  -- Where every series is in order of time, each row of an alignment is at a sample of the base channel,
  -- and has for every other channel, in their order, the value of a sample that is nearest to this time
  -- of all samples of the channel and no more than half an interval away.
  pub align_series-nearest :
      (base_channel : String) (base : List (ℕ × V)) (channels : List (String × List (ℕ × V)))
      (interval : ℕ) (row : Row V)
      → IsSorted base
      → All (λ (c : String × List (ℕ × V)). IsSorted c.1) channels
      → In row (align_series ((base_channel, base) ∷ channels) interval)
      → In (row.time, row.base) base × Aligned interval row.time channels row.others
  unfolding align_series
  align_series-nearest base_channel base channels interval row sorted all_sorted =
      align_from-Aligned interval 0 base channels channels row (not_before base) sorted
        (start channels all_sorted)
