-- ===== src/Registry/Decoders/Steps.antt =====
-- What one more publication changes for the decoders.
use text.Mathlib.TextLemmas.{cons-append, cons≢nil}
use meshtastic_things.Prelude.{
  String, true, false, ◌≡◌, refl, sym, ap, ◌∙◌, none, some, List, [], ◌∷◌, ◌++◌, arith, str_eq,
  eq_iff, fstring, hex8, if◌then◌else◌, Bool-cases, inl, inr,
}
use meshtastic_things.Config.{Record, LiteState, lite_start, lite_replay, apply_config_event}
use meshtastic_things.Registry.Models.{
  Mesh, Device, Message, keys, node_rejections, owner_auth_revocations, quality_config,
  variant_config,
}
use meshtastic_things.Registry.Publisher.{
  gateway_kafka_key, gateway_upsert, gateway_delete, node_reject, node_unreject, device_intervals,
}
use meshtastic_things.Registry.Decoders.{config_records, decoder, gateways}

lite_replay-append :
    (a b : List Record) (s : LiteState) → lite_replay (a ++ b) s ≡ lite_replay b (lite_replay a s)
unfolding lite_replay
lite_replay-append [] b s = refl
lite_replay-append ((from_rejections, e) ∷ a) b s =
    lite_replay-append a b (apply_config_event from_rejections e s)

config_records-append :
    (a b : List Message) → config_records (a ++ b) ≡ config_records a ++ config_records b
config_records-append [] b = refl
config_records-append (keys e ∷ a) b = ap (λ l. (false, e) ∷ l) (config_records-append a b)
config_records-append (node_rejections e ∷ a) b =
    ap (λ l. (true, e) ∷ l) (config_records-append a b)
config_records-append (owner_auth_revocations h ∷ a) b = config_records-append a b
config_records-append (quality_config e ∷ a) b = config_records-append a b
config_records-append (variant_config e ∷ a) b = config_records-append a b

pub decoder-append :
    (a b : List Message) → decoder (a ++ b) ≡ lite_replay (config_records b) (decoder a)
unfolding decoder
decoder-append a b =
    rw config_records-append (lite_replay-append (config_records a) (config_records b) lite_start)

pub gateway_kafka_key-nonempty : (d : Device) → str_eq (gateway_kafka_key d) "" ≡ false
unfolding gateway_kafka_key
gateway_kafka_key-nonempty d =
    elim (Bool-cases (str_eq (fstring ("!" ∷ hex8 d.device_id ∷ [])) "")) [
      | inl same ↦
          let e : fstring ("!" ∷ hex8 d.device_id ∷ []) ≡ "" = (eq_iff _ "").0 same in
          absurd (cons≢nil (sym (cons-append "!" "" (hex8 d.device_id)) ∙ e))
      | inr other ↦ other
    ]

-- The entry of a gateway after one more message.
after :
    (log : List Message) (m : Message) (k : String)
    → gateways (log ++ m ∷ []) k
      ≡ (lite_replay (config_records (m ∷ [])) (decoder log)).gateway_state k
after log m k = ap (λ (s : LiteState). s.gateway_state k) (decoder-append log (m ∷ []))

-- After an upsert the decoders accept the gateway, with the key and mesh of the event.
pub gateways-upsert :
    (log : List Message) (d : Device) (mesh : Mesh) (k : String)
    → gateways (log ++ gateway_upsert d mesh ∷ []) k ≡ (
        if str_eq (gateway_kafka_key d) k
        then some (record { psk_b64 = mesh.psk_b64; mesh_id = some d.mesh_id })
        else gateways log k)
unfolding gateway_upsert lite_replay
gateways-upsert log d mesh k =
    after log (gateway_upsert d mesh) k ∙ (ground (arith, gateway_kafka_key-nonempty d))

pub gateways-delete :
    (log : List Message) (d : Device) (k : String)
    → gateways (log ++ gateway_delete d ∷ []) k
      ≡ (if str_eq (gateway_kafka_key d) k then none else gateways log k)
unfolding gateway_delete lite_replay
gateways-delete log d k =
    after log (gateway_delete d) k ∙ (ground (arith, gateway_kafka_key-nonempty d))

pub gateways-reject :
    (log : List Message) (d : Device) (k : String)
    → gateways (log ++ node_reject d ∷ []) k ≡ gateways log k
unfolding node_reject lite_replay
gateways-reject log d k = after log (node_reject d) k ∙ (ground arith)

pub gateways-unreject :
    (log : List Message) (d : Device) (k : String)
    → gateways (log ++ node_unreject d ∷ []) k ≡ gateways log k
unfolding node_unreject lite_replay
gateways-unreject log d k = after log (node_unreject d) k ∙ (ground arith)

pub gateways-intervals :
    (log : List Message) (d : Device) (k : String)
    → gateways (log ++ device_intervals d ∷ []) k ≡ gateways log k
unfolding device_intervals lite_replay
gateways-intervals log d k = after log (device_intervals d) k ∙ refl
