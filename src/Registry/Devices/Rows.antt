-- ===== src/Registry/Devices/Rows.antt =====
-- The rows of devices behind the views: DeviceReadSerializer, DeviceCreateSerializer and
-- DeviceUpdateSerializer, the overrides and the events of a change, and the filters of the list.
use meshtastic_things.Prelude.{
  ℕ, String, Bool, true, false, not, ◌&&◌, ◌||◌, Option, none, some, List, [], ◌∷◌, select, is_some,
  str_eq, or_default, if◌then◌else◌,
}
use meshtastic_things.Registry.Models.{
  Owner, Mesh, Device, Message, World, max_three_admin_keys, save_device, mesh_by_pk,
  blueprint_by_pk, is_live_gateway, is_rejected_node,
}
use meshtastic_things.Registry.Requests.{
  Handler, respond, ensure, lookup_or, validation_error, permission_denied, ◌>>=◌,
}
use meshtastic_things.Registry.Publisher.{
  gateway_upsert, gateway_delete, node_reject, node_unreject,
}

pub record DeviceView : Type 0 where
  pub id : String
  pub device_id : ℕ
  pub mesh_id : String
  pub label : Option String
  pub is_gateway : Bool
  pub is_allowed : Bool
  pub admin_keys_b64 : Option (List String)
  pub latitude : Option String
  pub longitude : Option String
  pub location_overridden : Bool
  pub name : Option String
  pub short_name : Option String
  pub hardware_type : Option String
  pub role : Option String
  pub nodeinfo_overridden : Bool
  pub postprocessing_blueprint_id : Option String
  pub reading_interval_seconds : Option ℕ
  pub publish_interval_seconds : Option ℕ
  pub last_seen : Option ℕ

-- DeviceReadSerializer.to_representation: the admin keys are shown to the mesh's owner alone.
unfoldable pub device_view : String → String → Device → DeviceView
device_view viewer_id mesh_owner_id d = record {
  id = d.id;
  device_id = d.device_id;
  mesh_id = d.mesh_id;
  label = d.label;
  is_gateway = d.is_gateway;
  is_allowed = d.is_allowed;
  admin_keys_b64 = if not (str_eq viewer_id mesh_owner_id) then none else some d.admin_keys_b64;
  latitude = d.latitude;
  longitude = d.longitude;
  location_overridden = d.location_overridden;
  name = d.name;
  short_name = d.short_name;
  hardware_type = d.hardware_type;
  role = d.role;
  nodeinfo_overridden = d.nodeinfo_overridden;
  postprocessing_blueprint_id = d.postprocessing_blueprint_id;
  reading_interval_seconds = d.reading_interval_seconds;
  publish_interval_seconds = d.publish_interval_seconds;
  last_seen = d.last_seen;
}

-- DeviceCreateSerializer's fields; an absent optional field has its default, None or the empty
-- list, but of the position it is also known whether the key was present.
pub record DeviceCreate : Type 0 where
  pub device_id : ℕ
  pub mesh_id : String
  pub is_gateway : Bool
  pub label : Option String
  pub admin_keys_b64 : List String
  pub latitude : Option (Option String)
  pub longitude : Option (Option String)
  pub name : Option String
  pub short_name : Option String
  pub hardware_type : Option String
  pub role : Option String

-- DeviceUpdateSerializer's fields: `none` for an absent key, `some none` for a null.
pub record DeviceUpdate : Type 0 where
  pub label : Option (Option String)
  pub admin_keys_b64 : Option (List String)
  pub is_allowed : Option Bool
  pub latitude : Option (Option String)
  pub longitude : Option (Option String)
  pub name : Option (Option String)
  pub short_name : Option (Option String)
  pub hardware_type : Option (Option String)
  pub role : Option (Option String)
  pub postprocessing_blueprint_id : Option (Option String)
  pub reading_interval_seconds : Option (Option ℕ)
  pub publish_interval_seconds : Option (Option ℕ)

-- `_validate_location_pair`
abbrev pub location_pair : Option (Option String) → Option (Option String) → Bool
location_pair none none = true
location_pair (some lat) (some lon) = true
location_pair _ _ = false

abbrev truthy : Option String → Bool
truthy none = false
truthy (some s) = not (str_eq s "")

-- The row that `Device.objects.create` makes, with the model's defaults.
unfoldable pub new_device : String → DeviceCreate → Mesh → Device
new_device id request mesh = record {
  id = id;
  device_id = request.device_id;
  mesh_id = mesh.id;
  label = request.label;
  is_gateway = request.is_gateway;
  is_allowed = true;
  admin_keys_b64 = request.admin_keys_b64;
  postprocessing_blueprint_id = none;
  reading_interval_seconds = none;
  publish_interval_seconds = none;
  latitude = or_default request.latitude none;
  longitude = or_default request.longitude none;
  location_overridden = is_some (or_default request.latitude none);
  name = request.name;
  short_name = request.short_name;
  hardware_type = request.hardware_type;
  role = request.role;
  nodeinfo_overridden =
      truthy request.name
      || truthy request.short_name
      || truthy request.hardware_type
      || truthy request.role;
  last_seen = none;
}

-- `serializer.save()`, before the overrides.
unfoldable pub apply_update : DeviceUpdate → Device → Device
apply_update u d = record d {
  label = or_default u.label d.label;
  admin_keys_b64 = or_default u.admin_keys_b64 d.admin_keys_b64;
  is_allowed = or_default u.is_allowed d.is_allowed;
  latitude = or_default u.latitude d.latitude;
  longitude = or_default u.longitude d.longitude;
  name = or_default u.name d.name;
  short_name = or_default u.short_name d.short_name;
  hardware_type = or_default u.hardware_type d.hardware_type;
  role = or_default u.role d.role;
  postprocessing_blueprint_id =
      or_default u.postprocessing_blueprint_id d.postprocessing_blueprint_id;
  reading_interval_seconds = or_default u.reading_interval_seconds d.reading_interval_seconds;
  publish_interval_seconds = or_default u.publish_interval_seconds d.publish_interval_seconds;
}

abbrev nodeinfo_keys_present : DeviceUpdate → Bool
nodeinfo_keys_present u =
    is_some u.name || is_some u.short_name || is_some u.hardware_type || is_some u.role

abbrev nodeinfo_keys_all_present : DeviceUpdate → Bool
nodeinfo_keys_all_present u =
    is_some u.name && (is_some u.short_name && (is_some u.hardware_type && is_some u.role))

abbrev nodeinfo_is_blank : Device → Bool
nodeinfo_is_blank d =
    not (is_some d.name)
    && (not (is_some d.short_name) && (not (is_some d.hardware_type) && not (is_some d.role)))

-- The overrides that the request pins or clears, on the updated row.
unfoldable pub apply_overrides : DeviceUpdate → Device → Device
apply_overrides u d = record d {
  location_overridden =
      if is_some u.latitude && is_some u.longitude
      then is_some d.latitude || is_some d.longitude
      else d.location_overridden;
  nodeinfo_overridden =
      if nodeinfo_keys_present u
      then not (nodeinfo_keys_all_present u && nodeinfo_is_blank d)
      else d.nodeinfo_overridden;
}

-- The event for a change of `is_allowed`.
unfoldable pub allowance_event : Device → Mesh → Message
allowance_event d mesh =
    if d.is_gateway
    then (if d.is_allowed then gateway_upsert d mesh else gateway_delete d)
    else (if d.is_allowed then node_unreject d else node_reject d)

abbrev pub changed : Bool → Bool → Bool
changed true b = not b
changed false b = b

abbrev pub allowance_change : Device → Device → Mesh → List Message
allowance_change device updated mesh =
    if changed device.is_allowed updated.is_allowed then allowance_event updated mesh ∷ [] else []

-- The rollback writes the previous `is_allowed`, and nothing else, back.
abbrev pub restore_allowed : Device → Device → World → World
restore_allowed device updated w = record w {
  devices = save_device (record updated { is_allowed = device.is_allowed }) w.devices;
}

unfoldable pub delete_device : String → World → World
delete_device id w = record w { devices = select (λ (d : Device). not (str_eq d.id id)) w.devices }

-- The query parameters of the list: the two flags, and whether a blueprint is attached.
pub record DeviceFilter : Type 0 where
  pub mesh_id : Option String
  pub is_gateway : Option Bool
  pub is_allowed : Option Bool
  pub has_postprocessing : Option Bool

abbrev flag_is : Option Bool → Bool → Bool
flag_is none b = true
flag_is (some v) b = not (changed v b)

abbrev mesh_is : Option String → String → Bool
mesh_is none mesh_id = true
mesh_is (some wanted) mesh_id = str_eq wanted "" || str_eq mesh_id wanted

abbrev pub passes : DeviceFilter → Device → Bool
passes f d =
    mesh_is f.mesh_id d.mesh_id
    && (flag_is f.is_gateway d.is_gateway
        && (flag_is f.is_allowed d.is_allowed
            && flag_is f.has_postprocessing (is_some d.postprocessing_blueprint_id)))

abbrev pub owner_of_mesh : Option Mesh → String
owner_of_mesh none = ""
owner_of_mesh (some mesh) = mesh.owner_id

-- `mesh__owner`
abbrev pub device_owner : World → Device → String
device_owner w d = owner_of_mesh (mesh_by_pk d.mesh_id w.meshes)

-- The blueprint must exist, and be the mesh owner's unless a superuser asks.
abbrev pub check_blueprint : Option (Option String) → Mesh → Owner → Handler World (Unit {0})
check_blueprint none mesh user = respond tt
check_blueprint (some none) mesh user = respond tt
check_blueprint (some (some id)) mesh user = do
  blueprint ← lookup_or validation_error (λ w. blueprint_by_pk id w.blueprints)
  ensure (user.is_superuser || str_eq blueprint.owner_id mesh.owner_id) permission_denied

abbrev pub checked_keys : Option (List String) → Bool
checked_keys none = true
checked_keys (some value) = max_three_admin_keys value

abbrev pub deregistration : Device → List Message
deregistration d =
    if is_live_gateway d
    then gateway_delete d ∷ []
    else if is_rejected_node d
    then node_unreject d ∷ []
    else []
