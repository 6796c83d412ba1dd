-- ===== src/Registry/Owners/Rows.antt =====
-- The rows of owners: their constraints, the look-ups by a token, the reads and the deletion
-- (keyapi/registry/models.py, serializers.py and views.py).
use meshtastic_things.Prelude.{
  ℕ, ◌+◌, ltb, String, Bool, true, false, not, ◌&&◌, ◌||◌, Option, none, some, List, map, find, any,
  select, length, str_eq, if◌then◌else◌,
}
use meshtastic_things.Registry.Models.{
  Owner, Mesh, Device, Blueprint, World, owner_by_pk, is_live_gateway,
}
use meshtastic_things.Registry.Requests.{Handler, respond, gets, lookup_or, not_found, ◌>>=◌}
use meshtastic_things.Registry.Devices.{device_owner}

-- hashlib, Django's password hashing and its password validators (of the new password, the email
-- and the name).
pub record Hashing : Type 0 where
  pub hash_api_key : String → String
  pub make_password : String → String
  pub check_password : String → Option String → Bool
  pub validate_password : String → String → String → Bool
  pub normalize_email : String → String

abbrev pub holds : Option String → String → Bool
holds none hash = false
holds (some h) hash = str_eq h hash

-- A link sent at a time, or never, is expired.
abbrev pub is_expired : ℕ → ℕ → Option ℕ → Bool
is_expired ttl now none = true
is_expired ttl now (some sent_at) = ltb (sent_at + ttl) now

abbrev pub by_verification_token : String → List Owner → Option Owner
by_verification_token hash = find (λ (o : Owner). holds o.email_verification_token_hash hash)

abbrev pub by_reset_token : String → List Owner → Option Owner
by_reset_token hash = find (λ (o : Owner). holds o.password_reset_token_hash hash)

abbrev pub owner_by_email : String → List Owner → Option Owner
owner_by_email email = find (λ (o : Owner). str_eq o.email email)

-- OwnerPublicSerializer
pub record PublicOwner : Type 0 where
  pub id : String
  pub name : String
  pub is_superuser : Bool

abbrev pub public_owner : Owner → PublicOwner
public_owner o = record { id = o.id; name = o.name; is_superuser = o.is_superuser }

-- MetricsView
pub record Metrics : Type 0 where
  pub devices : ℕ
  pub owners : ℕ
  pub meshes : ℕ
  pub active_gateways : ℕ

unfoldable pub metrics : Handler World Metrics
metrics = gets (λ w. record {
  devices = length w.devices;
  owners = length w.owners;
  meshes = length w.meshes;
  active_gateways = length (select is_live_gateway w.devices);
})

unfoldable pub owner_list : Handler World (List PublicOwner)
owner_list = gets (λ w. map public_owner w.owners)

unfoldable pub owner_get : String → Handler World PublicOwner
owner_get id = do
  owner ← lookup_or not_found (λ w. owner_by_pk id w.owners)
  respond (public_owner owner)

-- OwnerUpdateSerializer's fields, and the address as it stands in the request, with its white space.
pub record OwnerUpdate : Type 0 where
  pub name : Option String
  pub email : Option String
  pub raw_email : Option String

-- The unique columns of the table.
abbrev pub clashes : Owner → Owner → Bool
clashes o p =
    not (str_eq p.id o.id)
    && (str_eq p.email o.email
        || (same o.api_key_hash p.api_key_hash
            || (same o.email_verification_token_hash p.email_verification_token_hash
                || same o.password_reset_token_hash p.password_reset_token_hash)))
  where
    same : Option String → Option String → Bool
    same none h = false
    same (some g) h = holds h g

-- An owner's devices, and the deletion that cascades to their meshes, devices and blueprints.
abbrev pub devices_of_owner : String → World → List Device
devices_of_owner id w = select (λ d. str_eq (device_owner w d) id) w.devices

-- The blueprint of a device, where its owner is deleted with it: SET_NULL.
abbrev kept_blueprint : String → List Blueprint → Option String → Option String
kept_blueprint id blueprints none = none
kept_blueprint id blueprints (some b) =
    if any (λ (x : Blueprint). str_eq x.id b && str_eq x.owner_id id) blueprints
    then none
    else some b

abbrev pub detach : String → List Blueprint → Device → Device
detach id blueprints d = record d {
  postprocessing_blueprint_id = kept_blueprint id blueprints d.postprocessing_blueprint_id;
}

unfoldable pub delete_owner : String → World → World
delete_owner id w = record w {
  owners = select (λ (o : Owner). not (str_eq o.id id)) w.owners;
  meshes = select (λ (m : Mesh). not (str_eq m.owner_id id)) w.meshes;
  devices =
      map (detach id w.blueprints) (select (λ d. not (str_eq (device_owner w d) id)) w.devices);
  blueprints = select (λ (b : Blueprint). not (str_eq b.owner_id id)) w.blueprints;
}
