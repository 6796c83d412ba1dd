-- ===== src/Influx/Filed.antt =====
-- The node, the mesh and the time of the point that every builder starts from.
use meshtastic_things.Prelude.{
  String, false, ◌≡◌, refl, sym, ◌∙◌, inl, inr, Option, none, some, str_eq, or_default,
  if◌then◌else◌, arith, Bool-cases, bind-some,
}
use mathlib.Core.Path.{subst}
use meshtastic_things.Json.{Value, null, text, Fields, end, field, get, truthy}
use meshtastic_things.Influx.Items.{get-tag_of}
use meshtastic_things.Influx.{Python, Point, set_item, tag_of, resolve_timestamp, base_point_dict}

module _ {N : Type 0} (py : Python N) where
  -- The value of a key, where it is not empty.
  abbrev pub filled : String → Fields N → Option (Value N)
  filled key event =
      if truthy py.is_zero (or_default (get key event) null) then get key event else none

  pub record Filed (event : Fields N) (p : Point N) : Type 0 where
    pub node : get "node_id" p.tags ≡ get "node_id" event
    pub mesh : get "mesh_id" p.tags ≡ filled "mesh_id" event
    pub time :
        (t : Value N) × (q : String) × (resolve_timestamp py event ≡ some (t, q))
        × (py.convert_date t ≡ some p.time)

  get-filled :
      (event : Fields N) (node : Value N)
      → get "mesh_id" (tag_of py "mesh_id" event (field "node_id" node end))
        ≡ filled "mesh_id" event
  unfolding get set_item
  get-filled event node = go (get "mesh_id" event)
    where
      go :
          (o : Option (Value N))
          → let v = or_default o null in
            get "mesh_id" (
              if truthy py.is_zero v
              then set_item "mesh_id" v (field "node_id" node end)
              else field "node_id" node end)
            ≡ (if truthy py.is_zero v then o else none)
      go none = refl
      go (some v) = elim (Bool-cases (truthy py.is_zero v)) [
        | inl there ↦ rw there refl
        | inr blank ↦ rw blank refl
      ]

  abbrev based : Fields N → String → Value N → Value N → String → String → Point N
  based event measurement node packet quality time = record {
    measurement = measurement;
    tags =
        tag_of py "gateway_id" event
          (tag_of py "channel_id" event (tag_of py "mesh_id" event (field "node_id" node end)));
    fields = field "packet_id" packet (field "timestamp_quality" (text quality) end);
    time = time;
  }

  get-based :
      (k : String) (event : Fields N) (measurement : String) (node packet : Value N)
      (quality time : String)
      → str_eq "gateway_id" k ≡ false
      → str_eq "channel_id" k ≡ false
      → get k (based event measurement node packet quality time).tags
        ≡ get k (tag_of py "mesh_id" event (field "node_id" node end))
  get-based k event measurement node packet quality time g c =
      get-tag_of py k "gateway_id" event _ g ∙ get-tag_of py k "channel_id" event _ c

  based-Filed :
      (event : Fields N) (measurement : String) (t node packet : Value N) (quality time : String)
      → resolve_timestamp py event ≡ some (t, quality)
      → get "node_id" event ≡ some node
      → py.convert_date t ≡ some time
      → Filed event (based event measurement node packet quality time)
  unfolding get
  based-Filed event measurement t node packet quality time resolved there date = record {
    node =
        get-based "node_id" event measurement node packet quality time refl refl
        ∙ get-tag_of py "node_id" "mesh_id" event _ refl
        ∙ sym there;
    mesh =
        get-based "mesh_id" event measurement node packet quality time refl refl
        ∙ get-filled event node;
    time = (t, quality, resolved, date);
  }

  pub base-Filed :
      (event : Fields N) (measurement : String) (p : Point N)
      → base_point_dict py event measurement ≡ some p
      → Filed event p
  unfolding base_point_dict
  base-Filed event measurement p h =
      let (at, e1, h1) = bind-some (resolve_timestamp py event) _ p h in
      let (node, e2, h2) = bind-some (get "node_id" event) _ p h1 in
      let (packet, e3, h3) = bind-some (get "packet_id" event) _ p h2 in
      let (time, e4, h4) = bind-some (py.convert_date at.0) _ p h3 in
      let e : based event measurement node packet at.1 time ≡ p = ground arith in
      subst (Filed event) e (based-Filed event measurement at.0 node packet at.1 time e1 e2 e4)
