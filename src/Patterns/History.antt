-- ===== src/Patterns/History.antt =====
-- What a run of the pattern detection job alarms about, by the whole history of each node's field.
use meshtastic_things.Prelude.{
  ℕ, zero, suc, ◌-◌, ◌≤◌, ◌<◌, ltb, String, Bool, true, false, not, ◌&&◌, ◌≡◌, refl, sym, ap, ◌∙◌,
  ◌⊎◌, inl, inr, Option, none, some, List, [], ◌∷◌, ◌++◌, arith, length, length-append, length-drop,
  drop, str_eq, eq_iff, eq_refl, if◌then◌else◌, Bool-cases,
}
use meshtastic_things.Dict.{Dict}
use meshtastic_things.Quality.Detectors.{last_values, all_equal, stuck_value_triggered}
use meshtastic_things.Patterns.{
  Arithmetic, Observation, Alarm, RuleEvent, Rule, State, start, get_key, rule_of, is_delete,
  with_rule, recent_with, recent_values_window, rule_triggered, alarms_of, alarms_with,
  process_element, process_broadcast_element, Input, observed, ruled, then_run, run,
}

module _ {V : Type 0} (equal : V → V → Bool) (n : ℕ) where
  abbrev last : List V → List V
  last = last_values equal (suc n)

  short-or-long : (m : ℕ) → (m < suc n) ⊎ (suc n ≤ m)
  short-or-long m = elim (Bool-cases (ltb m (suc n))) [
    | inl short ↦ inl (ground arith)
    | inr long ↦ inr (ground arith)
  ]

  drop_none : (k : ℕ) → drop {A = V} k [] ≡ []
  drop_none zero = refl
  drop_none (suc k) = refl

  last-last : (xs : List V) → last (last xs) ≡ last xs
  last-last xs =
      let e : length (last xs) - suc n ≡ 0 = omega (arith, length-drop (length xs - suc n) xs) in
      ap (λ k. drop k (last xs)) e

  -- A window that is cut before a reading is added is as good as the whole list.
  last-append : (xs : List V) (x : V) → last (last xs ++ x ∷ []) ≡ last (xs ++ x ∷ [])
  last-append [] x = ap (λ l. last (l ++ x ∷ [])) (drop_none (0 - suc n))
  last-append (a ∷ xs) x = elim (short-or-long (length xs)) [
    | inl short ↦
        let e : length (a ∷ xs) - suc n ≡ 0 = omega arith in
        ap (λ k. last (drop k (a ∷ xs) ++ x ∷ [])) e
    | inr long ↦
        let e : length (a ∷ xs) - suc n ≡ suc (length xs - suc n) = omega arith in
        let e' : length (a ∷ xs ++ x ∷ []) - suc n ≡ suc (length (xs ++ x ∷ []) - suc n) =
          omega (arith, length-append xs (x ∷ [])) in
        ap (λ k. last (drop k (a ∷ xs) ++ x ∷ [])) e
        ∙ last-append xs x
        ∙ sym (ap (λ k. drop k (a ∷ xs ++ x ∷ [])) e')
  ]

  stuck-last :
      (xs : List V)
      → stuck_value_triggered equal (suc n) (last xs) ≡ stuck_value_triggered equal (suc n) xs
  unfolding stuck_value_triggered
  stuck-last xs = elim (short-or-long (length xs)) [
    | inl short ↦
        let e : length xs - suc n ≡ 0 = omega arith in
        ap (λ k. stuck_value_triggered equal (suc n) (drop k xs)) e
    | inr long ↦
        let full : ltb (length xs) (suc n) ≡ false = ground arith in
        let full' : ltb (length (last xs)) (suc n) ≡ false =
          let e = length-drop (length xs - suc n) xs in
          let m : suc n ≤ length (last xs) = omega (arith, e) in ground arith in
        rw (full, full') (ap (all_equal equal) (last-last xs))
  ]

module _ {N : Type 0} (py : Arithmetic N) where
  -- All readings of a key, the oldest first, from the inputs so far, the newest first.
  unfoldable pub readings : String → List (Input py) → List N
  readings key [] = []
  readings key (observed o ∷ seen) =
      let before = readings key seen in
      if str_eq (get_key py o) key then before ++ py.to_float o.value ∷ [] else before
  readings key (ruled e ∷ seen) = readings key seen

  abbrev is_about : String → Option String → Bool
  is_about key none = false
  is_about key (some k) = not (str_eq k "") && str_eq k key

  -- What the newest rule about a key says.
  unfoldable pub rule_in_force : String → List (Input py) → Option (Rule N)
  rule_in_force key [] = none
  rule_in_force key (observed o ∷ seen) = rule_in_force key seen
  rule_in_force key (ruled e ∷ seen) =
      let before = rule_in_force key seen in
      if is_about key e.key then (if is_delete py e then none else some (rule_of py e)) else before

  -- The alarms of a run whose detectors look at all readings so far.
  unfoldable pub expected : List (Input py) → List (Input py) → List (Alarm N) × Bool
  unfolding readings rule_in_force rule_triggered stuck_value_triggered get_key
  expected seen [] = ([], true)
  expected seen (observed o ∷ inputs) =
      let now =
        alarms_of py (readings (get_key py o) (observed o ∷ seen))
          (rule_in_force (get_key py o) seen) o in
      then_run py now (expected (observed o ∷ seen) inputs)
  expected seen (ruled e ∷ inputs) = expected (ruled e ∷ seen) inputs

  record Follows (seen : List (Input py)) (s : State N) : Type 0 where
    recent_values :
        (key : String)
        → s.recent_values key ≡ last_values py.equal recent_values_window (readings key seen)
    rules : (key : String) → s.rules key ≡ rule_in_force key seen

  start-Follows : Follows [] start
  unfolding start readings rule_in_force
  start-Follows = record { recent_values = λ key. refl; rules = λ key. refl }

  -- The window with the new reading, as the last readings of the history.
  recent-last :
      (seen : List (Input py)) (s : State N) (o : Observation N)
      → Follows seen s
      → recent_with py o s
        ≡ last_values py.equal recent_values_window (readings (get_key py o) (observed o ∷ seen))
  unfolding readings
  recent-last seen s o f =
      let same : str_eq (get_key py o) (get_key py o) ≡ true = eq_refl (get_key py o) in
      rw (same, f.recent_values (get_key py o))
        (last-append py.equal 4 (readings (get_key py o) seen) (py.to_float o.value))

  element-Follows :
      (seen : List (Input py)) (s : State N) (o : Observation N)
      → Follows seen s
      → Follows (observed o ∷ seen) (process_element py o s).0
  unfolding process_element readings rule_in_force
  element-Follows seen s o f = record {
    recent_values = λ key. elim (Bool-cases (str_eq (get_key py o) key)) [
      | inl same ↦
          let e : get_key py o ≡ key = (eq_iff (get_key py o) key).0 same in
          rw same (
            recent-last seen s o f
            ∙ ap (λ k. last_values py.equal recent_values_window (readings k (observed o ∷ seen))) e
            ∙ rw same refl)
      | inr other ↦ rw other (f.recent_values key)
    ];
    rules = f.rules;
  }

  with_rule-latest :
      (e : RuleEvent N) (key : String) (named : Option String) (rules : Dict (Rule N))
      (before : Option (Rule N))
      → rules key ≡ before
      → with_rule py named e rules key ≡ (
          if is_about key named
          then (if is_delete py e then none else some (rule_of py e))
          else before)
  with_rule-latest e key none rules before h = h
  with_rule-latest e key (some k) rules before h = elim (Bool-cases (str_eq k "")) [
    | inl blank ↦ rw blank h
    | inr named ↦ elim (Bool-cases (str_eq k key)) [
      | inl same ↦ elim (Bool-cases (is_delete py e)) [
        | inl gone ↦ rw (named, gone, same) refl
        | inr put ↦ rw (named, put, same) refl
      ]
      | inr other ↦ elim (Bool-cases (is_delete py e)) [
        | inl gone ↦ rw (named, gone, other) h
        | inr put ↦ rw (named, put, other) h
      ]
    ]
  ]

  rule-Follows :
      (seen : List (Input py)) (s : State N) (e : RuleEvent N)
      → Follows seen s
      → Follows (ruled e ∷ seen) (process_broadcast_element py e s)
  unfolding process_broadcast_element readings rule_in_force
  rule-Follows seen s e f = record {
    recent_values = f.recent_values;
    rules = λ key. with_rule-latest e key e.key s.rules (rule_in_force key seen) (f.rules key);
  }

  alarms-last :
      (values : List N) (rule : Option (Rule N)) (o : Observation N)
      → alarms_of py (last_values py.equal recent_values_window values) rule o
        ≡ alarms_of py values rule o
  alarms-last values rule o = ap (λ b. alarms_with py b rule o) (stuck-last py.equal 4 values)

  alarms-Follows :
      (seen : List (Input py)) (s : State N) (o : Observation N)
      → Follows seen s
      → alarms_of py (recent_with py o s) (s.rules (get_key py o)) o
        ≡ alarms_of py
            (readings (get_key py o) (observed o ∷ seen))
            (rule_in_force (get_key py o) seen)
            o
  alarms-Follows seen s o f =
      ap (λ l. alarms_of py l (s.rules (get_key py o)) o) (recent-last seen s o f)
      ∙ alarms-last (readings (get_key py o) (observed o ∷ seen)) (s.rules (get_key py o)) o
      ∙ ap (λ r. alarms_of py (readings (get_key py o) (observed o ∷ seen)) r o)
          (f.rules (get_key py o))

  run-Follows :
      (seen inputs : List (Input py)) (s : State N)
      → Follows seen s
      → run py inputs s ≡ expected seen inputs
  unfolding run expected
  run-Follows seen [] s f = refl
  run-Follows seen (observed o ∷ inputs) s f =
      ap (λ now. then_run py now (run py inputs (process_element py o s).0))
        (alarms-Follows seen s o f)
      ∙ ap
          (then_run py (
            alarms_of py (readings (get_key py o) (observed o ∷ seen))
              (rule_in_force (get_key py o) seen) o))
          (run-Follows (observed o ∷ seen) inputs _ (element-Follows seen s o f))
  run-Follows seen (ruled e ∷ inputs) s f =
      run-Follows (ruled e ∷ seen) inputs _ (rule-Follows seen s e f)

  -- The job keeps the last five readings of each node's field and one rule for it. Over any order of
  -- observations and rules it raises the same alarms, and fails at the same observation if at one, as
  -- detectors that are run on all readings of the field since the start, with the rule that the newest
  -- event about the field gives: an observation of another field changes nothing.
  pub run-expected : (inputs : List (Input py)) → run py inputs start ≡ expected [] inputs
  run-expected inputs = run-Follows [] inputs start start-Follows
