-- ===== src/Registry/Sightings.antt =====
-- The consumer of device sightings (management/commands/consume_device_sightings.py): a node that
-- the decoders have seen becomes a device of its mesh, and fills the fields that nobody has pinned.
use meshtastic_things.Prelude.{
  ℕ, String, true, false, not, ◌&&◌, ◌||◌, Option, none, some, List, [], ◌∷◌, ◌++◌, select, is_some,
  str_eq, ◌==◌, or_default, if◌then◌else◌,
}
use meshtastic_things.Registry.Models.{
  Device, World, mesh_by_pk, save_device, violates_allowed, device_by_pk,
}

-- A parsed event: an outer `none` is an absent key, an inner one a null.
pub record SightingEvent : Type 0 where
  pub op : Option String
  pub mesh_id : Option String
  pub device_id : Option ℕ
  pub latitude : Option (Option String)
  pub longitude : Option (Option String)
  pub name : Option (Option String)
  pub short_name : Option (Option String)
  pub hardware_type : Option (Option String)
  pub role : Option (Option String)

abbrev pub registrations : String → ℕ → List Device → List Device
registrations mesh_id device_id =
    select (λ (d : Device). str_eq d.mesh_id mesh_id && d.device_id == device_id)

-- The row that `get_or_create` makes: an auto-discovered sighting is always a node.
unfoldable pub sighted_device : String → String → ℕ → Device
sighted_device id mesh_id device_id = record {
  id = id;
  device_id = device_id;
  mesh_id = mesh_id;
  label = none;
  is_gateway = false;
  is_allowed = true;
  admin_keys_b64 = [];
  postprocessing_blueprint_id = none;
  reading_interval_seconds = none;
  publish_interval_seconds = none;
  latitude = none;
  longitude = none;
  location_overridden = false;
  name = none;
  short_name = none;
  hardware_type = none;
  role = none;
  nodeinfo_overridden = false;
  last_seen = none;
}

-- The fields of an event that are not overridden.
unfoldable pub seen : SightingEvent → ℕ → Device → Device
seen e now d =
    let located = is_some e.latitude && is_some e.longitude && not d.location_overridden in
    record d {
      last_seen = some now;
      latitude = if located then or_default e.latitude d.latitude else d.latitude;
      longitude = if located then or_default e.longitude d.longitude else d.longitude;
      name = if d.nodeinfo_overridden then d.name else or_default e.name d.name;
      short_name =
          if d.nodeinfo_overridden then d.short_name else or_default e.short_name d.short_name;
      hardware_type =
          if d.nodeinfo_overridden
          then d.hardware_type
          else or_default e.hardware_type d.hardware_type;
      role = if d.nodeinfo_overridden then d.role else or_default e.role d.role;
    }

-- `_upsert`, for the registrations found: several raise, and nothing is written.
unfoldable pub upsert_sighting :
    String → ℕ → SightingEvent → String → ℕ → List Device → World → World
upsert_sighting id now e mesh_id device_id [] w =
    let d = sighted_device id mesh_id device_id in
    if violates_allowed d w.devices || is_some (device_by_pk id w.devices)
    then w
    else record w { devices = w.devices ++ seen e now d ∷ [] }
upsert_sighting id now e mesh_id device_id (d ∷ []) w = record w {
  devices = save_device (seen e now d) w.devices;
}
upsert_sighting id now e mesh_id device_id (d ∷ f ∷ found) w = w

-- One record of the topic; an exception is logged, and the record is skipped.
unfoldable pub consume_sighting : String → ℕ → SightingEvent → World → World
consume_sighting id now e w = elim e.mesh_id [
  | none ↦ w
  | some mesh_id ↦ elim e.device_id [
    | none ↦ w
    | some device_id ↦
        if str_eq (or_default e.op "") "upsert" && is_some (mesh_by_pk mesh_id w.meshes)
        then upsert_sighting id now e mesh_id device_id (registrations mesh_id device_id w.devices)
            w
        else w
  ]
]
