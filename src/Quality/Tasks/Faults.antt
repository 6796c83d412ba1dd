-- ===== src/Quality/Tasks/Faults.antt =====
-- Which fault of its series an alarm of the completeness check is for.
use meshtastic_things.Prelude.{
  ℕ, ◌*◌, ◌<◌, ltb, String, true, ◌≡◌, refl, ◌⊎◌, inl, inr, List, [], ◌∷◌, arith, Bool-cases,
}
use meshtastic_things.Prelude.Members.{In}
use meshtastic_things.Quality.Completeness.{analyse_completeness, gaps, analyse_completeness-bounds}
use meshtastic_things.Quality.Tasks.{
  Thresholds, Device, Alarm, build_alarm, below_threshold, exceeds_gap, alarms_for,
}

never_below : (n : ℕ) → ltb n 0 ≡ true → ⊥
never_below n h = ground arith

module _ {V : Type 0} (limits : Thresholds) (window : ℕ) (d : Device) where
  gap-attained :
      (interval : ℕ) (series : List (ℕ × V))
      → exceeds_gap limits interval
          (analyse_completeness series window interval).largest_gap_seconds
        ≡ true
      → (gap : ℕ) × In gap (gaps series)
        × (interval * limits.gap_intervals.0 < gap * limits.gap_intervals.1)
  gap-attained interval series hole =
      let (_, _, _, _, one) = analyse_completeness-bounds series window interval in
      let largest = (analyse_completeness series window interval).largest_gap_seconds in
      elim one [
        | inl none_there ↦
            let never : ltb (interval * limits.gap_intervals.0) (0 * limits.gap_intervals.1)
                ≡ true =
              rw none_there at hole in
            let nothing : 0 * limits.gap_intervals.1 ≡ 0 = omega arith in
            absurd (never_below (interval * limits.gap_intervals.0) (rw nothing at never))
        | inr i ↦ (largest, i, ground arith)
      ]

  pub alarms_for-fault :
      (channel : String) (interval : ℕ) (series : List (ℕ × V)) (a : Alarm)
      → In a (alarms_for limits d channel interval (analyse_completeness series window interval))
      → ((a.mesh_id ≡ d.mesh_id) × (a.device_id ≡ d.device_id) × (a.channel ≡ channel))
        × ((let c = analyse_completeness series window interval in
              c.ratio.0 * limits.completeness.1 < limits.completeness.0 * c.ratio.1)
            ⊎ ((gap : ℕ) × In gap (gaps series)
                × (interval * limits.gap_intervals.0 < gap * limits.gap_intervals.1)))
  unfolding alarms_for build_alarm
  alarms_for-fault channel interval series a i =
      let stats = analyse_completeness series window interval in
      elim (Bool-cases (below_threshold limits stats)) [
        | inl below ↦
            let j : In a
                (build_alarm d.mesh_id d.device_id channel "completeness" stats.ratio ∷ []) =
              rw below at i in
            elim j [ inl e ↦ (rw e (refl, refl, refl), inl (ground arith)) | inr n ↦ absurd n ]
        | inr fine ↦ elim (Bool-cases (exceeds_gap limits interval stats.largest_gap_seconds)) [
          | inl hole ↦
              let j : In a (
                  build_alarm d.mesh_id d.device_id channel "completeness"
                    (stats.largest_gap_seconds, 1)
                  ∷ []) =
                rw (fine, hole) at i in
              elim j [
                | inl e ↦ (rw e (refl, refl, refl), inr (gap-attained interval series hole))
                | inr n ↦ absurd n
              ]
          | inr short ↦ absurd (rw (fine, short) at i)
        ]
      ]
