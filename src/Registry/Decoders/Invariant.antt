-- ===== src/Registry/Decoders/Invariant.antt =====
-- Every gateway that the decoders accept is an allowed gateway of the registry, on that mesh: what
-- publications and changes of the rows keep of this.
use meshtastic_things.Prelude.{
  String, true, false, ◌≡◌, sym, ap, ◌∙◌, ◌⊎◌, inl, inr, Option, some, List, [], ◌∷◌, ◌++◌, map,
  arith, str_eq, eq_iff, Bool-cases,
}
use mathlib.Core.List.{append_assoc, append-nil}
use meshtastic_things.Prelude.Members.{In}
use meshtastic_things.Decode.{GatewayState}
use meshtastic_things.Registry.Models.{Mesh, Device, Message, is_live_gateway}
use meshtastic_things.Registry.Publisher.{
  gateway_kafka_key, gateway_upsert, gateway_delete, node_reject, node_unreject, device_intervals,
}
use meshtastic_things.Registry.Decoders.{gateways}
use meshtastic_things.Registry.Decoders.Steps.{
  gateways-upsert, gateways-delete, gateways-reject, gateways-unreject, gateways-intervals,
}

-- The registration that lets a gateway be decoded.
pub record Registration (devices : List Device) (k : String) (mesh_id : Option String)
    : Type 0 where
  pub device : Device
  pub listed : In device devices
  pub live : is_live_gateway device ≡ true
  pub key : gateway_kafka_key device ≡ k
  pub mesh : mesh_id ≡ some device.mesh_id

-- Every gateway that a decoder accepts after reading the log is registered.
pub record Covers (devices : List Device) (log : List Message) : Type 0 where
  pub at :
      (k : String) (st : GatewayState)
      → gateways log k ≡ some st
      → Registration devices k st.mesh_id

pub Covers-upsert :
    {devices : List Device} {log : List Message} (d : Device) (mesh : Mesh)
    → In d devices
    → is_live_gateway d ≡ true
    → Covers devices log
    → Covers devices (log ++ gateway_upsert d mesh ∷ [])
Covers-upsert {devices} {log} d mesh i live h = record {
  at = λ k st e. elim (Bool-cases (str_eq (gateway_kafka_key d) k)) [
    | inl same ↦ record {
      device = d;
      listed = i;
      live = live;
      key = (eq_iff _ k).0 same;
      mesh = ground (arith, gateways-upsert log d mesh k);
    }
    | inr other ↦ h.at k st (ground (arith, gateways-upsert log d mesh k))
  ];
}

pub Covers-delete :
    {devices : List Device} {log : List Message} (d : Device)
    → Covers devices log
    → Covers devices (log ++ gateway_delete d ∷ [])
Covers-delete {devices} {log} d h = record {
  at = λ k st e. h.at k st (ground (arith, gateways-delete log d k));
}

pub Covers-reject :
    {devices : List Device} {log : List Message} (d : Device)
    → Covers devices log
    → Covers devices (log ++ node_reject d ∷ [])
Covers-reject {devices} {log} d h = record {
  at = λ k st e. h.at k st (sym (gateways-reject log d k) ∙ e);
}

pub Covers-unreject :
    {devices : List Device} {log : List Message} (d : Device)
    → Covers devices log
    → Covers devices (log ++ node_unreject d ∷ [])
Covers-unreject {devices} {log} d h = record {
  at = λ k st e. h.at k st (sym (gateways-unreject log d k) ∙ e);
}

pub Covers-intervals :
    {devices : List Device} {log : List Message} (d : Device)
    → Covers devices log
    → Covers devices (log ++ device_intervals d ∷ [])
Covers-intervals {devices} {log} d h = record {
  at = λ k st e. h.at k st (sym (gateways-intervals log d k) ∙ e);
}

-- A change of the rows that keeps, for each live gateway, a live gateway of its key and mesh.
pub Covers-rows :
    {devices rows : List Device} {log : List Message}
    → ((d : Device)
        → In d devices
        → is_live_gateway d ≡ true
        → Registration rows (gateway_kafka_key d) (some d.mesh_id))
    → Covers devices log
    → Covers rows log
Covers-rows keep h = record {
  at = λ k st e.
      let r = h.at k st e in
      let s = keep r.device r.listed r.live in
      record {
        device = s.device;
        listed = s.listed;
        live = s.live;
        key = s.key ∙ r.key;
        mesh = r.mesh ∙ s.mesh;
      };
}

-- After the deregistration of gateways `gs` and nodes `ns` no key of `gs` is accepted, and nothing
-- is that was not before.
pub gateways-unrejects :
    (ns : List Device) (log : List Message) (k : String)
    → gateways (log ++ map node_unreject ns) k ≡ gateways log k
gateways-unrejects [] log k = rw append-nil
gateways-unrejects (d ∷ ns) log k =
    ap (λ l. gateways l k) (sym (append_assoc log (node_unreject d ∷ []) (map node_unreject ns)))
    ∙ gateways-unrejects ns (log ++ node_unreject d ∷ []) k
    ∙ gateways-unreject log d k

pub gateways-deletes :
    (gs : List Device) (log : List Message) (k : String) (st : GatewayState)
    → gateways (log ++ map gateway_delete gs) k ≡ some st
    → (gateways log k ≡ some st) × ((d : Device) → In d gs → str_eq (gateway_kafka_key d) k ≡ false)
gateways-deletes [] log k st e = (rw append-nil at e, λ d i. absurd i)
gateways-deletes (g ∷ gs) log k st e =
    let e' : gateways ((log ++ gateway_delete g ∷ []) ++ map gateway_delete gs) k ≡ some st =
      ap (λ l. gateways l k) (append_assoc log (gateway_delete g ∷ []) (map gateway_delete gs))
      ∙ e in
    let (before, others) = gateways-deletes gs (log ++ gateway_delete g ∷ []) k st e' in
    (
      ground (arith, gateways-delete log g k),
      λ d i. elim i [
        | inl same ↦ rw same (ground (arith, gateways-delete log g k))
        | inr rest ↦ others d rest
      ],
    )

mismatch : (s t : String) → s ≡ t → str_eq s t ≡ false → ⊥
mismatch s t e n = ground (arith, eq_iff s t)

-- Rows may go once the deregistration of every live gateway among them has been published.
pub Covers-deregistered :
    {devices rows : List Device} {log : List Message} (gs ns : List Device)
    → ((d : Device) → In d devices → is_live_gateway d ≡ true → In d gs ⊎ In d rows)
    → Covers devices log
    → Covers rows (log ++ (map gateway_delete gs ++ map node_unreject ns))
Covers-deregistered {log} gs ns keep h = record {
  at = λ k st e.
      let e1 : gateways (log ++ map gateway_delete gs) k ≡ some st =
        sym (gateways-unrejects ns (log ++ map gateway_delete gs) k)
        ∙ ap (λ l. gateways l k) (append_assoc log (map gateway_delete gs) (map node_unreject ns))
        ∙ e in
      let (before, others) = gateways-deletes gs log k st e1 in
      let r = h.at k st before in
      elim (keep r.device r.listed r.live) [
        | inl gone ↦ absurd (mismatch _ _ r.key (others r.device gone))
        | inr stays ↦ record {
          device = r.device;
          listed = stays;
          live = r.live;
          key = r.key;
          mesh = r.mesh;
        }
      ];
}
