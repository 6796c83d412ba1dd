-- ===== src/Registry/Models.antt =====
-- keyapi/registry/models.py: the rows, the tables and the constraints. A UUID is its text, a
-- time a number of seconds, a stored float its decimal text (it is copied and compared with None).
-- The automatic `created_at` and `updated_at` are left out.
pub mod Tables
use meshtastic_things.Prelude.{
  ℕ, leb, String, Bool, true, false, not, ◌&&◌, Option, none, some, List, [], ◌∷◌, length, find,
  any, select, str_eq, ◌==◌, if◌then◌else◌,
}
use meshtastic_things.Kafka.{Producer}
use meshtastic_things.Config.{Event}

pub record Owner : Type 0 where
  pub id : String
  pub email : String
  pub name : String
  pub password : Option String
  pub api_key_hash : Option String
  pub is_staff : Bool
  pub is_superuser : Bool
  pub is_active : Bool
  pub email_verified_at : Option ℕ
  pub email_verification_token_hash : Option String
  pub email_verification_sent_at : Option ℕ
  pub password_reset_token_hash : Option String
  pub password_reset_sent_at : Option ℕ

pub record Mesh : Type 0 where
  pub id : String
  pub channel_id : String
  pub psk_b64 : String
  pub label : Option String
  pub owner_id : String

pub record Device : Type 0 where
  pub id : String
  pub device_id : ℕ
  pub mesh_id : String
  pub label : Option String
  pub is_gateway : Bool
  pub is_allowed : Bool
  pub admin_keys_b64 : List String
  pub postprocessing_blueprint_id : Option String
  pub reading_interval_seconds : Option ℕ
  pub publish_interval_seconds : Option ℕ
  pub latitude : Option String
  pub longitude : Option String
  pub location_overridden : Bool
  pub name : Option String
  pub short_name : Option String
  pub hardware_type : Option String
  pub role : Option String
  pub nodeinfo_overridden : Bool
  pub last_seen : Option ℕ

pub record Step : Type 0 where
  pub order : ℕ
  pub function_name : String
  pub inputs : List (String × String)
  pub params : String
  pub outputs : List (String × String)

pub record Blueprint : Type 0 where
  pub id : String
  pub name : String
  pub description : Option String
  pub owner_id : String
  pub steps : List Step

-- An event of mesh.quality_config.v1 for a device's own intervals.
pub record IntervalsEvent : Type 0 where
  pub key : String
  pub mesh_id : String
  pub device_id : ℕ
  pub reading_interval_seconds : Option ℕ
  pub publish_interval_seconds : Option ℕ
  pub op : String

-- An event of mesh.quality_config.v1 for one channel of a variant.
pub record VariantConfigEvent : Type 0 where
  pub key : String
  pub payload_kind : String
  pub field_name : String
  pub default_reading_interval_seconds : Option ℕ
  pub valid_min : Option String
  pub valid_max : Option String

-- The messages of the registry's topics.
pub data Message : Type 0 where
  keys : Event → Message
  node_rejections : Event → Message
  owner_auth_revocations : String → Message
  quality_config : IntervalsEvent → Message
  variant_config : VariantConfigEvent → Message

pub record World : Type 0 where
  pub owners : List Owner
  pub meshes : List Mesh
  pub devices : List Device
  pub blueprints : List Blueprint
  pub producer : Producer Message

-- `_max_three_admin_keys`
abbrev pub max_three_admin_keys : List String → Bool
max_three_admin_keys value = leb (length value) 3

-- Whether the row is another allowed registration of the same device.
abbrev pub is_rival : Device → Device → Bool
is_rival d e = e.is_allowed && (e.device_id == d.device_id) && not (str_eq e.id d.id)

-- uq_devices_device_id_allowed, as the database checks it when the row is saved.
unfoldable pub violates_allowed : Device → List Device → Bool
violates_allowed d devices = d.is_allowed && any (is_rival d) devices

-- Saving a row that exists.
unfoldable pub save_device : Device → List Device → List Device
save_device d [] = []
save_device d (e ∷ devices) =
    let rest = save_device d devices in if str_eq e.id d.id then d ∷ rest else e ∷ rest

unfoldable pub save_mesh : Mesh → List Mesh → List Mesh
save_mesh m [] = []
save_mesh m (n ∷ meshes) =
    let rest = save_mesh m meshes in if str_eq n.id m.id then m ∷ rest else n ∷ rest

unfoldable pub save_owner : Owner → List Owner → List Owner
save_owner o [] = []
save_owner o (p ∷ owners) =
    let rest = save_owner o owners in if str_eq p.id o.id then o ∷ rest else p ∷ rest

abbrev pub device_by_pk : String → List Device → Option Device
device_by_pk pk = find (λ d. str_eq d.id pk)

abbrev pub mesh_by_pk : String → List Mesh → Option Mesh
mesh_by_pk pk = find (λ m. str_eq m.id pk)

abbrev pub owner_by_pk : String → List Owner → Option Owner
owner_by_pk pk = find (λ o. str_eq o.id pk)

abbrev pub blueprint_by_pk : String → List Blueprint → Option Blueprint
blueprint_by_pk pk = find (λ b. str_eq b.id pk)

-- `mesh.devices`
abbrev pub devices_of : String → List Device → List Device
devices_of mesh_id = select (λ d. str_eq d.mesh_id mesh_id)

-- The two kinds of registration that the decoders hold state for.
abbrev pub is_live_gateway : Device → Bool
is_live_gateway d = d.is_gateway && d.is_allowed

abbrev pub is_rejected_node : Device → Bool
is_rejected_node d = not d.is_gateway && not d.is_allowed
