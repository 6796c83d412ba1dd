-- ===== src/Influx/Variants.antt =====
-- The points of a telemetry message, and the names and origins that common/channels.py gives its
-- channels.
use meshtastic_things.Prelude.{
  String, true, false, ◌≡◌, sym, ◌∙◌, inl, inr, none, some, List, [], ◌∷◌, fstring, str_eq, arith,
  Bool-cases, bind-some,
}
use package.text.Mathlib.Text.{starts_with}
use package.text.Mathlib.TextPositions.{starts_with-append}
use mathlib.Core.Path.{subst}
use meshtastic_things.Prelude.Members.{In}
use meshtastic_things.Json.{null, boolean, number, text, array, dict, Fields, end, field, get}
use meshtastic_things.Channels.{
  channel_name, origin_of, origin_of_measurement, derived, quality, origin_measured,
}
use meshtastic_things.Channels.Agreement.{
  variant_kind, channel_name-variant, origin_of-variant, origin_of_measurement-measured,
}
use meshtastic_things.Influx.{
  Python, Point, base_point_dict, resolve_timestamp, telemetry_points, telemetry_point, cons_point,
  build_telemetry_points, add_floats, points_of_kind, decoded_points, get_points, is_skipped,
}

-- The only dictionaries of a telemetry payload are the metrics of the variant.
abbrev pub OnlyVariant : {N : Type 0} → String → Fields N → Type 0
OnlyVariant variant end = Unit
OnlyVariant variant (field key (dict metric) rest) = (key ≡ variant) × OnlyVariant variant rest
OnlyVariant variant (field key v rest) = OnlyVariant variant rest

module _ {N : Type 0} (py : Python N) (event : Fields N) where
  base-measurement :
      (measurement : String) (p : Point N)
      → base_point_dict py event measurement ≡ some p
      → p.measurement ≡ measurement
  unfolding base_point_dict
  base-measurement measurement p h =
      let (at, e1, h1) = bind-some (resolve_timestamp py event) _ p h in
      let (node, e2, h2) = bind-some (get "node_id" event) _ p h1 in
      let (packet, e3, h3) = bind-some (get "packet_id" event) _ p h2 in
      let (time, e4, h4) = bind-some (py.convert_date at.0) _ p h3 in ground arith

  metric-measurement :
      (key : String) (metric : Fields N) (p : Point N)
      → telemetry_point py event key metric ≡ some p
      → p.measurement ≡ key
  metric-measurement key metric p h =
      let (base, e1, h1) = bind-some (base_point_dict py event key) _ p h in
      let m = base-measurement key base e1 in
      let e : record base { fields = add_floats py metric base.fields } ≡ p = ground arith in
      subst (λ (q : Point N). q.measurement ≡ key) e m

  abbrev AllMeasure : String → List (Point N) → Type 0
  AllMeasure variant points = (p : Point N) → In p points → p.measurement ≡ variant

  none-measurement :
      (variant : String) (points : List (Point N))
      → some [] ≡ some points
      → AllMeasure variant points
  none-measurement variant points h =
      let e : [] ≡ points = ground arith in subst (AllMeasure variant) e (λ p i. absurd i)

  telemetry-measurement :
      (variant : String) (payload : Fields N) (points : List (Point N))
      → OnlyVariant variant payload
      → telemetry_points py event payload ≡ some points
      → AllMeasure variant points
  unfolding telemetry_points
  telemetry-measurement variant end points only h = none-measurement variant points h
  telemetry-measurement variant (field key (dict metric) rest) points (same, only) h =
      elim (Bool-cases (str_eq key "time")) [
        | inl time ↦ telemetry-measurement variant rest points only (rw time at h)
        | inr other ↦
            let h' : cons_point py (telemetry_point py event key metric)
                  (telemetry_points py event rest)
                ≡ some points =
              rw other at h in
            let (q, e1, h1) = bind-some (telemetry_point py event key metric) _ points h' in
            let (qs, e2, h2) = bind-some (telemetry_points py event rest) _ points h1 in
            let e : q ∷ qs ≡ points = ground arith in
            subst (AllMeasure variant) e (λ p i. elim i [
              | inl first ↦
                  subst (λ (r : Point N). r.measurement ≡ variant) (sym first)
                    (metric-measurement key metric q e1 ∙ same)
              | inr later ↦ telemetry-measurement variant rest qs only e2 p later
            ])
      ]
  telemetry-measurement variant (field key null rest) points only h =
      telemetry-measurement variant rest points only h
  telemetry-measurement variant (field key (boolean b) rest) points only h =
      telemetry-measurement variant rest points only h
  telemetry-measurement variant (field key (number n) rest) points only h =
      telemetry-measurement variant rest points only h
  telemetry-measurement variant (field key (text s) rest) points only h =
      telemetry-measurement variant rest points only h
  telemetry-measurement variant (field key (array vs) rest) points only h =
      telemetry-measurement variant rest points only h

  build-measurement :
      (variant : String) (payload : Fields N) (points : List (Point N))
      → get "payload" event ≡ some (dict payload)
      → OnlyVariant variant payload
      → build_telemetry_points py event ≡ some points
      → AllMeasure variant points
  unfolding build_telemetry_points
  build-measurement variant payload points there only h =
      telemetry-measurement variant payload points only (rw there at h)

  starts_with-variant : (variant : String) → starts_with (variant_kind variant) "telemetry" ≡ true
  starts_with-variant variant = starts_with-append "telemetry" (fstring (":" ∷ variant ∷ []))

  kind-measurement :
      (variant : String) (payload : Fields N) (points : List (Point N))
      → get "payload" event ≡ some (dict payload)
      → OnlyVariant variant payload
      → points_of_kind py event (variant_kind variant) ≡ some points
      → AllMeasure variant points
  kind-measurement variant payload points there only h =
      elim (Bool-cases (is_skipped py (variant_kind variant))) [
        | inl skipped ↦ none-measurement variant points (rw skipped at h)
        | inr kept ↦
            build-measurement variant payload points there only
              (rw (kept, starts_with-variant variant) at h)
      ]

  -- A decoded telemetry message, whose payload has no dictionary but the metrics of the variant that its
  -- kind names, the variant not being called like the derived or the quality channels: the writer
  -- stores each of its points under a measurement by which `channel_name` names the kind's channels,
  -- and these channels are measured ones, by the kind as well as by the stored measurement.
  pub get_points-channel_name :
      (variant field_name : String) (payload : Fields N) (points : List (Point N)) (p : Point N)
      → get "detector" event ≡ none
      → get "payload_kind" event ≡ some (text (variant_kind variant))
      → get "payload" event ≡ some (dict payload)
      → OnlyVariant variant payload
      → str_eq variant derived ≡ false
      → str_eq variant quality ≡ false
      → get_points py (dict event) ≡ some points
      → In p points
      → (channel_name (variant_kind variant) field_name
          ≡ fstring (p.measurement ∷ "." ∷ field_name ∷ []))
        × (origin_of (variant_kind variant) ≡ origin_measured)
        × (origin_of_measurement p.measurement ≡ origin_measured)
  unfolding get_points
  get_points-channel_name variant field_name payload points p decoded kind there only d q h i =
      let h' : decoded_points py event ≡ some points = rw decoded at h in
      let h'' : points_of_kind py event (variant_kind variant) ≡ some points = rw kind at h' in
      let m = kind-measurement variant payload points there only h'' p i in
      (
        rw m (channel_name-variant variant field_name),
        origin_of-variant variant,
        rw m (origin_of_measurement-measured variant d q),
      )
