-- ===== src/Registry/Access.antt =====
-- Permissions and lookups shared by the views: permissions.py and the `_get_..._or_404` and
-- `_require_..._ownership` helpers of views.py.
pub mod Rules
pub mod Runs
use meshtastic_things.Prelude.{String, Bool, true, false, ◌||◌, Option, none, some, str_eq}
use meshtastic_things.Registry.Models.{
  Owner, Mesh, Device, Blueprint, World, mesh_by_pk, device_by_pk, blueprint_by_pk,
}
use meshtastic_things.Registry.Requests.{
  Handler, respond, abort, ensure, lookup_or, not_authenticated, permission_denied, not_found,
  server_error, ◌>>=◌, ◌>>◌,
}

-- IsAuthenticated
unfoldable pub require_authenticated : Option Owner → Handler World Owner
require_authenticated none = abort not_authenticated
require_authenticated (some user) = respond user

-- IsVerifiedOwner, for the caller of a request, who may be anonymous.
unfoldable pub require_verified : Option Owner → Handler World Owner
require_verified none = abort not_authenticated
require_verified (some user) = do ensure user.is_active permission_denied; respond user

-- IsSuperuser, as `_require_superuser` applies it.
unfoldable pub require_superuser : Owner → Handler World (Unit {0})
require_superuser user = ensure user.is_superuser permission_denied

unfoldable pub get_mesh_or_404 : String → Handler World Mesh
get_mesh_or_404 mesh_id = lookup_or not_found (λ w. mesh_by_pk mesh_id w.meshes)

unfoldable pub get_device_or_404 : String → Handler World Device
get_device_or_404 id = lookup_or not_found (λ w. device_by_pk id w.devices)

unfoldable pub get_blueprint_or_404 : String → Handler World Blueprint
get_blueprint_or_404 id = lookup_or not_found (λ w. blueprint_by_pk id w.blueprints)

abbrev pub owns_mesh : Mesh → Owner → Bool
owns_mesh mesh owner = owner.is_superuser || str_eq mesh.owner_id owner.id

unfoldable pub require_mesh_ownership : Mesh → Owner → Handler World (Unit {0})
require_mesh_ownership mesh owner = ensure (owns_mesh mesh owner) permission_denied

unfoldable pub require_blueprint_ownership : Blueprint → Owner → Handler World (Unit {0})
require_blueprint_ownership blueprint owner =
    ensure (owner.is_superuser || str_eq blueprint.owner_id owner.id) permission_denied

-- `device.mesh`, by the foreign key.
unfoldable pub mesh_of : Device → Handler World Mesh
mesh_of device = lookup_or server_error (λ w. mesh_by_pk device.mesh_id w.meshes)
