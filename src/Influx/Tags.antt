-- ===== src/Influx/Tags.antt =====
-- Under which node, mesh and time the points of a decoded message are filed.
use meshtastic_things.Prelude.{
  String, ◌≡◌, refl, sym, ◌∙◌, inl, inr, Option, none, some, List, [], ◌∷◌, str_eq, or_default,
  arith, Bool-cases, bind-some, leb,
}
use package.text.Mathlib.Text.{starts_with}
use mathlib.Core.Path.{subst}
use meshtastic_things.Prelude.Members.{In}
use meshtastic_things.Json.{null, boolean, number, text, array, dict, Fields, end, field, get}
use meshtastic_things.Influx.Items.{get-node_tags}
use meshtastic_things.Influx.{
  Python, Point, base_point_dict, telemetry_points, telemetry_point, cons_point,
  build_telemetry_points, build_position_points, build_nodeinfo_points, build_generic_points,
  unless_bare, points_of_kind, decoded_points, get_points, payload_of, add_floats, size,
  scaled_field, is_skipped, kind_of,
}
use meshtastic_things.Influx.Filed.{Filed, base-Filed}

module _ {N : Type 0} (py : Python N) where
  abbrev pub AllFiled : Fields N → List (Point N) → Type 0
  AllFiled event points = (p : Point N) → In p points → Filed py event p

  none-Filed :
      (event : Fields N) (points : List (Point N)) → some [] ≡ some points → AllFiled event points
  none-Filed event points h =
      let e : [] ≡ points = ground arith in subst (AllFiled event) e (λ p i. absurd i)

  one-Filed :
      (event : Fields N) (q : Point N) (points : List (Point N))
      → Filed py event q
      → some (q ∷ []) ≡ some points
      → AllFiled event points
  one-Filed event q points f h =
      let e : q ∷ [] ≡ points = ground arith in
      subst (AllFiled event) e (λ p i. elim i [
        | inl same ↦ subst (Filed py event) (sym same) f
        | inr none_left ↦ absurd none_left
      ])

  bare-Filed :
      (event : Fields N) (q : Point N) (points : List (Point N))
      → Filed py event q
      → some (unless_bare py q) ≡ some points
      → AllFiled event points
  bare-Filed event q points f h = elim (Bool-cases (leb (size q.fields) 2)) [
    | inl bare ↦ none-Filed event points (rw bare at h)
    | inr full ↦ one-Filed event q points f (rw full at h)
  ]

  metric-Filed :
      (event : Fields N) (key : String) (metric : Fields N) (p : Point N)
      → telemetry_point py event key metric ≡ some p
      → Filed py event p
  metric-Filed event key metric p h =
      let (base, e1, h1) = bind-some (base_point_dict py event key) _ p h in
      let f = base-Filed py event key base e1 in
      let e : record base { fields = add_floats py metric base.fields } ≡ p = ground arith in
      subst (Filed py event) e (record { node = f.node; mesh = f.mesh; time = f.time })

  cons-Filed :
      (event : Fields N) (first : Option (Point N)) (others : Option (List (Point N)))
      (points : List (Point N))
      → ((p : Point N) → first ≡ some p → Filed py event p)
      → ((rest : List (Point N)) → others ≡ some rest → AllFiled event rest)
      → cons_point py first others ≡ some points
      → AllFiled event points
  cons-Filed event first others points now later h =
      let (p, e1, h1) = bind-some first _ points h in
      let (rest, e2, h2) = bind-some others _ points h1 in
      let e : p ∷ rest ≡ points = ground arith in
      subst (AllFiled event) e (λ q i. elim i [
        | inl same ↦ subst (Filed py event) (sym same) (now p e1)
        | inr j ↦ later rest e2 q j
      ])

  telemetry-Filed :
      (event payload : Fields N) (points : List (Point N))
      → telemetry_points py event payload ≡ some points
      → AllFiled event points
  unfolding telemetry_points
  telemetry-Filed event end points h = none-Filed event points h
  telemetry-Filed event (field key (dict metric) rest) points h =
      elim (Bool-cases (str_eq key "time")) [
        | inl time ↦ telemetry-Filed event rest points (rw time at h)
        | inr other ↦
            cons-Filed event (telemetry_point py event key metric) (telemetry_points py event rest)
              points (metric-Filed event key metric) (λ l e. telemetry-Filed event rest l e)
              (rw other at h)
      ]
  telemetry-Filed event (field key null rest) points h = telemetry-Filed event rest points h
  telemetry-Filed event (field key (boolean b) rest) points h = telemetry-Filed event rest points h
  telemetry-Filed event (field key (number n) rest) points h = telemetry-Filed event rest points h
  telemetry-Filed event (field key (text s) rest) points h = telemetry-Filed event rest points h
  telemetry-Filed event (field key (array vs) rest) points h = telemetry-Filed event rest points h

  build_telemetry-Filed :
      (event : Fields N) (points : List (Point N))
      → build_telemetry_points py event ≡ some points
      → AllFiled event points
  unfolding build_telemetry_points
  build_telemetry-Filed event points h =
      let (payload, e, h') = bind-some (payload_of py event) _ points h in
      telemetry-Filed event payload points h'

  position-Filed :
      (event : Fields N) (points : List (Point N))
      → build_position_points py event ≡ some points
      → AllFiled event points
  unfolding build_position_points
  position-Filed event points h =
      let (payload, e1, h1) = bind-some (payload_of py event) _ points h in
      let (q, e2, h2) = bind-some (base_point_dict py event "position") _ points h1 in
      let (latitude, e3, h3) =
        bind-some (scaled_field py "latitude_i" "latitude" payload q.fields) _ points h2 in
      let (longitude, e4, h4) =
        bind-some (scaled_field py "longitude_i" "longitude" payload latitude) _ points h3 in
      let f = base-Filed py event "position" q e2 in
      bare-Filed event _ points (record { node = f.node; mesh = f.mesh; time = f.time }) h4

  nodeinfo-Filed :
      (event : Fields N) (points : List (Point N))
      → build_nodeinfo_points py event ≡ some points
      → AllFiled event points
  unfolding build_nodeinfo_points
  nodeinfo-Filed event points h =
      let (payload, e1, h1) = bind-some (payload_of py event) _ points h in
      let (q, e2, h2) = bind-some (base_point_dict py event "nodeinfo") _ points h1 in
      let f = base-Filed py event "nodeinfo" q e2 in
      one-Filed event _ points
        (record {
          node = get-node_tags py "node_id" payload q.tags refl refl refl refl ∙ f.node;
          mesh = get-node_tags py "mesh_id" payload q.tags refl refl refl refl ∙ f.mesh;
          time = f.time;
        })
        h2

  generic-Filed :
      (event : Fields N) (points : List (Point N))
      → build_generic_points py event ≡ some points
      → AllFiled event points
  unfolding build_generic_points
  generic-Filed event points h =
      let (payload, e1, h1) = bind-some (payload_of py event) _ points h in
      let (q, e2, h2) = bind-some (base_point_dict py event _) _ points h1 in
      let f = base-Filed py event _ q e2 in
      bare-Filed event _ points (record { node = f.node; mesh = f.mesh; time = f.time }) h2

  kind-Filed :
      (event : Fields N) (kind : String) (points : List (Point N))
      → points_of_kind py event kind ≡ some points
      → AllFiled event points
  kind-Filed event kind points h = elim (Bool-cases (is_skipped py kind)) [
    | inl skipped ↦ none-Filed event points (rw skipped at h)
    | inr kept ↦ elim (Bool-cases (starts_with kind "telemetry")) [
      | inl telemetry ↦
          let h' : build_telemetry_points py event ≡ some points = rw (kept, telemetry) at h in
          build_telemetry-Filed event points h'
      | inr other ↦ elim (Bool-cases (str_eq kind "position")) [
        | inl position ↦ position-Filed event points (rw (kept, other, position) at h)
        | inr moving ↦ elim (Bool-cases (str_eq kind "nodeinfo")) [
          | inl info ↦ nodeinfo-Filed event points (rw (kept, other, moving, info) at h)
          | inr generic ↦ generic-Filed event points (rw (kept, other, moving, generic) at h)
        ]
      ]
    ]
  ]

  -- Every point that is written of a decoded message, of whatever kind, has the tag of the node that
  -- the message is from and, where the message names a mesh, the tag of that mesh and of no other; and
  -- its time is the one that the code chooses between the payload's own and that of the reception.
  pub get_points-Filed :
      (event : Fields N) (points : List (Point N))
      → get "detector" event ≡ none
      → get_points py (dict event) ≡ some points
      → AllFiled event points
  unfolding get_points
  get_points-Filed event points decoded h =
      let h' : decoded_points py event ≡ some points = rw decoded at h in
      let (kind, e1, h1) =
        bind-some (kind_of py (or_default (get "payload_kind" event) null)) _ points h' in
      kind-Filed event kind points h1
