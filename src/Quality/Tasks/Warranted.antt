-- ===== src/Quality/Tasks/Warranted.antt =====
-- What an alarm of the completeness check says of the series that it is about.
use meshtastic_things.Prelude.{
  some_inj, none_apart, ℕ, ◌*◌, ◌<◌, String, Bool, true, false, ◌≡◌, refl, sym, ◌⊎◌, inl, inr,
  Option, none, some, List, [], ◌∷◌, ◌++◌, str_eq, eq_iff, Bool-cases, Option-cases,
}
use mathlib.Core.Path.{subst}
use meshtastic_things.Prelude.Members.{In, In-map}
use meshtastic_things.Dict.{Dict}
use meshtastic_things.Kafka.{Delivery, Producer, send_all}
use meshtastic_things.Kafka.Sends.{send_all-In}
use meshtastic_things.Regex.{Text}
use meshtastic_things.Query.{Platform, duration_seconds}
use meshtastic_things.Channels.{origin_measured, quality}
use meshtastic_things.Quality.Completeness.{Completeness, analyse_completeness, gaps}
use meshtastic_things.Quality.Tasks.Faults.{alarms_for-fault}
use meshtastic_things.Quality.Tasks.{
  Thresholds, Device, MeasurementRow, Alarm, Effect, metric, alarm, discovery, Status, positive,
  variant_intervals, reading_interval_for, alarms_for, stats_of, effects_of, check_rows, registered,
  status_of, quality_fields, no_mesh_id, check_completeness,
}

alarm-metric : (a : Alarm) (channel : String) (c : Completeness) → alarm a ≡ metric channel c → ⊥
alarm-metric a channel c h = cc

alarm-discovery :
    {a : Alarm} {mesh kind : String} {n : ℕ} {fields : List String}
    → alarm a ≡ discovery mesh n kind fields
    → ⊥
alarm-discovery h = cc

alarm-inj : (a b : Alarm) → alarm a ≡ alarm b → a ≡ b
alarm-inj a b h = cc

module _ {V : Type 0} (limits : Thresholds) (read : String → Option (List (ℕ × V))) (window : ℕ)
    (intervals : Dict (Option ℕ)) (d : Device) (py : Platform) (net : ℕ → Delivery) where
  -- The alarm is about a channel that the device measures, and that has an interval and a series; and
  -- of that series too few readings are there, or two consecutive ones are too far apart.
  pub record IsWarranted (rows : List MeasurementRow) (a : Alarm) : Type 0 where
    pub row : MeasurementRow
    pub listed : In row rows
    pub measured : row.origin ≡ origin_measured
    pub interval : ℕ
    pub configured : positive (reading_interval_for d row.payload_kind intervals) ≡ some interval
    pub series : List (ℕ × V)
    pub stored : read row.channel ≡ some series
    pub about : (a.mesh_id ≡ d.mesh_id) × (a.device_id ≡ d.device_id) × (a.channel ≡ row.channel)
    pub fault :
        (let c = analyse_completeness series window interval in
          c.ratio.0 * limits.completeness.1 < limits.completeness.0 * c.ratio.1)
        ⊎ ((gap : ℕ) × In gap (gaps series)
            × (interval * limits.gap_intervals.0 < gap * limits.gap_intervals.1))

  -- A channel of which the loop has an interval and its completeness, and an alarm of it.
  row-IsWarranted :
      (rows : List MeasurementRow) (row : MeasurementRow) (interval : ℕ) (stats : Completeness)
      (a : Alarm)
      → In row rows
      → stats_of py net limits read window d intervals row ≡ some (interval, stats)
      → In a (alarms_for limits d row.channel interval stats)
      → IsWarranted rows a
  unfolding stats_of
  row-IsWarranted rows row interval stats a listed h i =
      elim (Bool-cases (str_eq row.origin origin_measured)) [
        | inr other ↦ absurd (none_apart (rw other at h))
        | inl same ↦
            elim (Option-cases (positive (reading_interval_for d row.payload_kind intervals))) [
              | inl absent ↦ absurd (none_apart (rw (same, absent) at h))
              | inr (n, configured) ↦ elim (Option-cases (read row.channel)) [
                | inl unread ↦ absurd (none_apart (rw (same, configured, unread) at h))
                | inr (series, stored) ↦
                    let e : some (n, analyse_completeness series window n)
                        ≡ some (interval, stats) =
                      rw (same, configured, stored) at h in
                    let j : In a
                        (alarms_for limits d row.channel n (analyse_completeness series window n)) =
                      subst
                        (λ (x : ℕ × Completeness). In a (alarms_for limits d row.channel x.0 x.1))
                        (sym (some_inj e)) i in
                    let (about, fault) =
                      alarms_for-fault limits window d row.channel n series a j in
                    record {
                      row = row;
                      listed = listed;
                      measured = (eq_iff row.origin origin_measured).0 same;
                      interval = n;
                      configured = configured;
                      series = series;
                      stored = stored;
                      about = about;
                      fault = fault;
                    }
              ]
            ]
      ]

  effects-IsWarranted :
      (rows : List MeasurementRow) (row : MeasurementRow) (interval : ℕ) (stats : Completeness)
      (a : Alarm)
      → In row rows
      → stats_of py net limits read window d intervals row ≡ some (interval, stats)
      → In (alarm a) (effects_of py net limits read window d row interval stats)
      → IsWarranted rows a
  effects-IsWarranted rows row interval stats a listed h (inl e) = absurd (alarm-metric _ _ _ e)
  effects-IsWarranted rows row interval stats a listed h (inr i) =
      let (b, e, j) = In-map alarm (alarm a) (alarms_for limits d row.channel interval stats) i in
      row-IsWarranted rows row interval stats a listed h (rw (alarm-inj a b e) j)

  check_rows-IsWarranted :
      (all rows : List MeasurementRow) (results : List (String × Completeness))
      (p : Producer Effect) (a : Alarm)
      → ((row : MeasurementRow) → In row rows → In row all)
      → In (alarm a) (check_rows py net limits read window d intervals rows results p).0.log
      → In (alarm a) p.log ⊎ IsWarranted all a
  unfolding check_rows
  check_rows-IsWarranted all [] results p a within i = inl i
  check_rows-IsWarranted all (row ∷ rows) results p a within i =
      let check = check_rows py net limits read window d intervals in
      elim (Option-cases (stats_of py net limits read window d intervals row)) [
        | inl skipped ↦
            let step : check (row ∷ rows) results p ≡ check rows results p =
              rw (check_rows, skipped) refl in
            check_rows-IsWarranted all rows results p a (λ r j. within r (inr j))
              (subst (λ s. In (alarm a) s.0.log) step i)
        | inr ((interval, stats), checked) ↦
            let effects = effects_of py net limits read window d row interval stats in
            let here : In (alarm a) (send_all net effects p).0.log
                → In (alarm a) p.log ⊎ IsWarranted all a =
              λ j. elim (send_all-In net (alarm a) effects p j) [
                | inl k ↦ inl k
                | inr k ↦
                    inr (
                      effects-IsWarranted all row interval stats a (within row (inl refl)) checked
                        k)
              ] in
            elim (Bool-cases (send_all net effects p).1) [
              | inl sent ↦
                  let results' = results ++ (row.channel, stats) ∷ [] in
                  let step : check (row ∷ rows) results p
                      ≡ check rows results' (send_all net effects p).0 =
                    rw (check_rows, checked, sent) refl in
                  elim (check_rows-IsWarranted all rows results' (send_all net effects p).0 a
                    (λ r j. within r (inr j)) (subst (λ s. In (alarm a) s.0.log) step i)) [
                      | inl j ↦ here j
                      | inr w ↦ inr w
                    ]
              | inr failed ↦
                  let step : check (row ∷ rows) results p ≡ ((send_all net effects p).0, none) =
                    rw (check_rows, checked, failed) refl in
                  here (subst (λ s. In (alarm a) s.0.log) step i)
            ]
      ]

  status_of-log :
      (results : List (String × Completeness)) (x : Producer Effect × Bool)
      → (status_of py net limits read window results x).0 ≡ x.0
  status_of-log results (p, true) = refl
  status_of-log results (p, false) = refl

  registered-alarm :
      (a : Alarm) (p : Producer Effect) (r : Option (List (String × Completeness)))
      → In (alarm a) (registered py net limits read window d (p, r)).0.log
      → In (alarm a) p.log
  registered-alarm a p none i = i
  registered-alarm a p (some []) i = i
  registered-alarm a p (some (r ∷ results)) i =
      let fields = discovery d.mesh_id d.device_id quality quality_fields in
      let j =
        subst (λ (q : Producer Effect). In (alarm a) q.log)
          (status_of-log (r ∷ results) (send_all net (fields ∷ []) p)) i in
      elim (send_all-In net (alarm a) (fields ∷ []) p j) [
        | inl k ↦ k
        | inr k ↦ elim k [ inl e ↦ absurd (alarm-discovery e) | inr n ↦ absurd n ]
      ]

-- Whatever may fail on the way: an alarm that a check over a duration adds is about the device and a
-- channel that the device measures, with a reading interval and a stored series; and of that series
-- fewer readings than the threshold are there, or two consecutive readings are further apart than the
-- limit allows.
pub check_completeness-IsWarranted :
    {V : Type 0} (py : Platform) (net : ℕ → Delivery) (limits : Thresholds)
    (read : String → Option (List (ℕ × V))) (lookback : Text) (window : ℕ)
    (variants : List (String × Option ℕ)) (rows : List MeasurementRow) (d : Device)
    (p : Producer Effect) (a : Alarm)
    → duration_seconds py lookback ≡ some window
    → In (alarm a) (check_completeness py net limits read lookback variants rows (some d) p).0.log
    → In (alarm a) p.log
      ⊎ IsWarranted limits read window (variant_intervals variants) d py net rows a
unfolding check_completeness
check_completeness-IsWarranted py net limits read lookback window variants rows d p a known i =
    let check = check_completeness py net limits read lookback variants rows (some d) p in
    let intervals = variant_intervals variants in
    elim (Bool-cases (str_eq d.mesh_id "")) [
      | inl blank ↦
          let step : check ≡ (p, some no_mesh_id) = rw blank refl in
          inl (subst (λ (s : Producer Effect × Option Status). In (alarm a) s.0.log) step i)
      | inr meshed ↦
          let checked = check_rows py net limits read window d intervals rows [] p in
          let step : check ≡ registered py net limits read window d checked =
            rw (meshed, known) refl in
          let j = subst (λ (s : Producer Effect × Option Status). In (alarm a) s.0.log) step i in
          check_rows-IsWarranted limits read window intervals d py net rows rows [] p a (λ r l. l)
            (registered-alarm limits read window intervals d py net a checked.0 checked.1 j)
    ]
