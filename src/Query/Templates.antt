-- ===== src/Query/Templates.antt =====
-- The query of a time series, by what stands where in it.
use meshtastic_things.Prelude.{
  some_inj, bind-some, ◌≢◌, ℕ, ◌≡◌, refl, sym, ◌∙◌, inl, inr, Option, none, some, List, [], ◌∷◌,
  ◌++◌, arith, show, Bool-cases, Option-cases,
}
use meshtastic_things.Regex.{Text, codes, matches}
use meshtastic_things.Regex.Classes.{count, count-append}
use meshtastic_things.Query.{
  Platform, is_ident, duration_re, validate_ident, validate_mesh_id, validate_range_bound,
  validate_duration, validate_agg,
}
use meshtastic_things.Query.Flux.{
  joined, parts, newline, quoted, from_bucket, device_filter, measurement_filter, range_between,
  filtered, field_filter, imports, numeric_only, agg_stage, timeseries, timeseries_text,
  validate_field, validate_window,
}
use meshtastic_things.Query.Safety.{
  IsForeign, ident-count, bound-count, agg-count, number-count, duration-count, all_ident,
  ident-nonempty,
}

module _ (py : Platform) (c : ℕ) (foreign : IsForeign py c) where
  -- Parts in which the character stands equally often.
  abbrev SameAll : List Text → List Text → Type 0
  SameAll [] [] = Unit
  SameAll (s ∷ ps) (t ∷ qs) = (count c s ≡ count c t) × SameAll ps qs
  SameAll _ _ = ⊥

  SameAll-refl : (ps : List Text) → SameAll ps ps
  SameAll-refl [] = tt
  SameAll-refl (s ∷ ps) = (refl, SameAll-refl ps)

  SameAll-append :
      (ps qs ps' qs' : List Text)
      → SameAll ps qs
      → SameAll ps' qs'
      → SameAll (ps ++ ps') (qs ++ qs')
  SameAll-append [] [] ps' qs' h k = k
  SameAll-append [] (t ∷ qs) ps' qs' h k = absurd h
  SameAll-append (s ∷ ps) [] ps' qs' h k = absurd h
  SameAll-append (s ∷ ps) (t ∷ qs) ps' qs' (e, h) k = (e, SameAll-append ps qs ps' qs' h k)

  abbrev SameEach : List (List Text) → List (List Text) → Type 0
  SameEach [] [] = Unit
  SameEach (p ∷ pss) (q ∷ qss) = SameAll p q × SameEach pss qss
  SameEach _ _ = ⊥

  SameAll-parts : (pss qss : List (List Text)) → SameEach pss qss → SameAll (parts pss) (parts qss)
  SameAll-parts [] [] h = tt
  SameAll-parts [] (q ∷ qss) h = absurd h
  SameAll-parts (p ∷ pss) [] h = absurd h
  SameAll-parts (p ∷ pss) (q ∷ qss) (e, h) =
      SameAll-append p q (parts pss) (parts qss) e (SameAll-parts pss qss h)

  SameAll-joined : (ps qs : List Text) → SameAll ps qs → count c (joined ps) ≡ count c (joined qs)
  SameAll-joined [] [] h = refl
  SameAll-joined [] (t ∷ qs) h = absurd h
  SameAll-joined (s ∷ ps) [] h = absurd h
  SameAll-joined (s ∷ ps) (t ∷ qs) (e, h) =
      count-append c s (joined ps)
      ∙ rw (e, SameAll-joined ps qs h) refl
      ∙ sym (count-append c t (joined qs))

  -- A field and a window that are given alike.
  abbrev SameField : Option Text → Option Text → Type 0
  SameField none none = Unit
  SameField (some (d ∷ s)) (some (e ∷ t)) = count c (d ∷ s) ≡ count c (e ∷ t)
  SameField _ _ = ⊥

  abbrev SameWindow : Option Text → Option Text → Type 0
  SameWindow none none = Unit
  SameWindow (some s) (some t) = count c s ≡ count c t
  SameWindow _ _ = ⊥

  field-SameAll :
      (bucket : Text) (f f' : Option Text)
      → SameField f f'
      → SameAll (field_filter py bucket f) (field_filter py bucket f')
  field-SameAll bucket none none h = tt
  field-SameAll bucket none (some t) h = absurd h
  field-SameAll bucket (some []) f' h = absurd h
  field-SameAll bucket (some (d ∷ s)) none h = absurd h
  field-SameAll bucket (some (d ∷ s)) (some []) h = absurd h
  field-SameAll bucket (some (d ∷ s)) (some (e ∷ t)) h = (refl, (refl, (h, (refl, tt))))

  window-SameAll :
      (bucket : Text) (w w' : Option Text) (fn : Text)
      → SameWindow w w'
      → count c fn ≡ 0
      → SameAll (imports py bucket w) (imports py bucket w')
        × SameAll (numeric_only py bucket w) (numeric_only py bucket w')
        × SameAll (agg_stage py bucket w fn) (agg_stage py bucket w' [])
  window-SameAll bucket none none fn h z = (tt, tt, tt)
  window-SameAll bucket none (some t) fn h z = absurd h
  window-SameAll bucket (some s) none fn h z = absurd h
  window-SameAll bucket (some s) (some t) fn h z = (
    SameAll-refl (imports py bucket (some s)),
    SameAll-refl (numeric_only py bucket (some s)),
    (refl, (h, (refl, (z, (refl, tt))))),
  )

  text-count :
      (bucket mesh m from to fn : Text) (node : ℕ) (f f' w w' : Option Text)
      → count c mesh ≡ 0
      → count c m ≡ 0
      → count c from ≡ 0
      → count c to ≡ 0
      → count c fn ≡ 0
      → SameField f f'
      → SameWindow w w'
      → count c (timeseries_text py bucket mesh node m f from to w fn)
        ≡ count c (timeseries_text py bucket [] 0 [] f' [] [] w' [])
  text-count bucket mesh m from to fn node f f' w w' z1 z2 z3 z4 z5 sf sw =
      let (wi, wn, wa) = window-SameAll bucket w w' fn sw z5 in
      let n : SameAll (quoted (codes (show node))) (quoted (codes (show 0))) =
        (refl, (number-count py c foreign node ∙ sym (number-count py c foreign 0), (refl, tt))) in
      let device : SameAll (device_filter mesh node) (device_filter [] 0) =
        (refl, (refl, (z1, (refl, (refl, n))))) in
      let condition : SameAll (measurement_filter m mesh node) (measurement_filter [] [] 0) =
        (refl, (refl, (z2, (refl, (refl, device))))) in
      let filter : SameAll
          (filtered (parts (measurement_filter m mesh node ∷ field_filter py bucket f ∷ [])))
          (filtered (parts (measurement_filter [] [] 0 ∷ field_filter py bucket f' ∷ []))) =
        (
          refl,
          SameAll-append (parts (measurement_filter m mesh node ∷ field_filter py bucket f ∷ []))
              (parts (measurement_filter [] [] 0 ∷ field_filter py bucket f' ∷ []))
              (codes ")" ∷ newline ∷ []) (codes ")" ∷ newline ∷ [])
              (SameAll-parts (measurement_filter m mesh node ∷ field_filter py bucket f ∷ [])
                (measurement_filter [] [] 0 ∷ field_filter py bucket f' ∷ [])
                (condition, (field-SameAll bucket f f' sf, tt)))
              (refl, (refl, tt)),
        ) in
      let range : SameAll (range_between from to) (range_between [] []) =
        (refl, (z3, (refl, (z4, (refl, (refl, tt)))))) in
      SameAll-joined _ _ (
        SameAll-parts (pieces mesh m from to fn node f w) (pieces [] [] [] [] [] 0 f' w') (
          wi,
          (
            SameAll-refl (from_bucket bucket),
            (
              range,
              (
                filter,
                ((refl, tt), (wn, ((refl, (refl, tt)), (wa, ((refl, (refl, (refl, tt))), tt))))),
              ),
            ),
          ),
        ))
    where
      pieces : Text → Text → Text → Text → Text → ℕ → Option Text → Option Text → List (List Text)
      pieces mesh m from to fn node f w =
          imports py bucket w
          ∷ from_bucket bucket
          ∷ range_between from to
          ∷ filtered (parts (measurement_filter m mesh node ∷ field_filter py bucket f ∷ []))
          ∷ (codes "  " ∷ [])
          ∷ numeric_only py bucket w
          ∷ (newline ∷ codes "  " ∷ [])
          ∷ agg_stage py bucket w fn
          ∷ (newline ∷ codes "  |> sort(columns: [\"_time\"])" ∷ newline ∷ [])
          ∷ []

  -- What stands for a field or a window that is given, and not empty.
  abbrev pub blank_field : Option Text → Option Text
  blank_field none = none
  blank_field (some s) = some (b'x' ∷ [])

  abbrev pub blank_window : Option Text → Option Text
  blank_window none = none
  blank_window (some []) = none
  blank_window (some (d ∷ s)) = some []

  x_is_blank : count c (b'x' ∷ []) ≡ 0
  x_is_blank = all_ident py c foreign (b'x' ∷ []) (unfold is_ident in (refl, tt))

  field-Same :
      (bucket : Text) (field f : Option Text)
      → validate_field py bucket field ≡ some f
      → SameField f (blank_field field)
  field-Same bucket none f h = let e : none ≡ f = ground arith in rw (← e) tt
  field-Same bucket (some s) f h = elim (Option-cases (validate_ident s)) [
    | inl bad ↦ cc (rw (bad, validate_field) at h)
    | inr (t, good) ↦
        let e : some t ≡ f = ground arith in
        rw (← e) (given_field t (ident-count py c foreign s t good) (ident-nonempty s t good))
  ]
    where
      given_field : (t : Text) → count c t ≡ 0 → t ≢ [] → SameField (some t) (some (b'x' ∷ []))
      given_field [] z n = absurd (n refl)
      given_field (d ∷ t) z n = z ∙ sym x_is_blank

  window-Same :
      (bucket : Text) (window w : Option Text)
      → validate_window py bucket window ≡ some w
      → SameWindow w (blank_window window)
  unfolding validate_duration
  window-Same bucket none w h = let e : none ≡ w = ground arith in rw (← e) tt
  window-Same bucket (some []) w h = let e : none ≡ w = ground arith in rw (← e) tt
  window-Same bucket (some (d ∷ s)) w h = elim (Bool-cases (matches (duration_re py) (d ∷ s))) [
    | inl good ↦
        let e : some (d ∷ s) ≡ w = ground arith in
        rw (← e) (duration-count py c foreign (d ∷ s) good)
    | inr bad ↦ cc (rw (bad, validate_window, validate_duration) at h)
  ]

  -- Take a character that is no identifier character (a letter, a digit, or one of _ : . -), no newline,
  -- not in `now()`, nothing that Python reads as a decimal digit, and not in what UUIDs and timestamps
  -- are printed as: a quotation mark, a pipe or a brace, say, but not a parenthesis. If a time series
  -- has a query, the character is in it as often as in the query where the field, if one is given, is x,
  -- the window, if one is given that is not empty, is empty, the node is 0, and the mesh, the
  -- measurement, the times and the aggregate are empty: no text that a caller gives for one of these
  -- adds one.
  pub timeseries-count :
      (bucket mesh_id : Text) (node_id : ℕ) (measurement : Text) (field : Option Text)
      (start stop : Text) (window : Option Text) (agg flux : Text)
      → timeseries py bucket mesh_id node_id measurement field start stop window agg ≡ some flux
      → count c flux
        ≡ count c
            (timeseries_text py bucket [] 0 [] (blank_field field) [] [] (blank_window window) [])
  unfolding timeseries validate_mesh_id
  timeseries-count bucket mesh_id node_id measurement field start stop window agg flux h =
      let (mesh, e1, h1) = bind-some (py.canonical_uuid mesh_id) _ flux h in
      let (m, e2, h2) = bind-some (validate_ident measurement) _ flux h1 in
      let (f, e3, h3) = bind-some (validate_field py bucket field) _ flux h2 in
      let (from, e4, h4) = bind-some (validate_range_bound py start) _ flux h3 in
      let (to, e5, h5) = bind-some (validate_range_bound py stop) _ flux h4 in
      let (fn, e6, h6) = bind-some (validate_agg agg) _ flux h5 in
      let (w, e7, h7) = bind-some (validate_window py bucket window) _ flux h6 in
      let e : timeseries_text py bucket mesh node_id m f from to w fn ≡ flux = some_inj h7 in
      rw (← e) (
        text-count bucket mesh m from to fn node_id f (blank_field field) w (blank_window window)
          (foreign.uuid mesh_id mesh e1) (ident-count py c foreign measurement m e2)
          (bound-count py c foreign start from e4) (bound-count py c foreign stop to e5)
          (agg-count py c foreign agg fn e6) (field-Same bucket field f e3)
          (window-Same bucket window w e7))
