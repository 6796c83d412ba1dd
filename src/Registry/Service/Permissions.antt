-- ===== src/Registry/Service/Permissions.antt =====
-- Who may change what: the checks at the start of the views, for the service as a whole.
use meshtastic_things.Prelude.{
  ℕ, String, Bool, true, false, ◌≡◌, refl, Option, none, some, ◌&&◌, arith,
}
use meshtastic_things.Kafka.{Delivery}
use meshtastic_things.Registry.Models.{Owner, Mesh, Device, World, mesh_by_pk, device_by_pk}
use meshtastic_things.Registry.Requests.{Result, ok, raise}
use meshtastic_things.Registry.Requests.Ends.{Ends, Ends-either, Ends-ensure}
use meshtastic_things.Registry.Access.{owns_mesh}
use meshtastic_things.Registry.Access.Rules.{
  Ends-authenticated, Ends-verified, Ends-mesh, Ends-device, Ends-mesh_of, Ends-mesh_ownership,
}
use meshtastic_things.Registry.Meshes.{MeshUpdate, mesh_create, mesh_put, mesh_delete}
use meshtastic_things.Registry.Owners.{owner_me_delete}
use meshtastic_things.Registry.Devices.{
  DeviceCreate, DeviceUpdate, device_create, device_put, device_delete,
}
use meshtastic_things.Registry.Service.{
  Request, post_mesh, put_mesh, delete_mesh, post_device, put_device, delete_device, delete_me,
  handle,
}

-- The mesh is there, and it is the caller's or they are a superuser.
abbrev controls : Owner → Option Mesh → Bool
controls user none = false
controls user (some mesh) = owns_mesh mesh user

abbrev mesh_of_device : Option Device → World → Option Mesh
mesh_of_device none w = none
mesh_of_device (some d) w = mesh_by_pk d.mesh_id w.meshes

-- The caller may make the request.
abbrev may_change : Owner → Request → World → Bool
may_change user (post_mesh id channel_id psk_b64 label) w = true
may_change user (put_mesh id u) w = controls user (mesh_by_pk id w.meshes)
may_change user (delete_mesh id) w = controls user (mesh_by_pk id w.meshes)
may_change user (post_device id request) w = controls user (mesh_by_pk request.mesh_id w.meshes)
may_change user (put_device id u) w = controls user (mesh_of_device (device_by_pk id w.devices) w)
may_change user (delete_device id) w = controls user (mesh_of_device (device_by_pk id w.devices) w)
may_change user delete_me w = true

-- Only the deletion of one's own account is open to an unverified owner.
abbrev is_eligible : Owner → Request → Bool
is_eligible user delete_me = true
is_eligible user request = user.is_active

unfoldable pub is_permitted : Option Owner → Request → World → Bool
is_permitted none request w = false
is_permitted (some user) request w = is_eligible user request && may_change user request w

-- A world that is as before, or a request that is permitted.
abbrev Guarded : Bool → World → World → Type 0
Guarded permitted w w' = permitted ≡ false → w' ≡ w

module _ (net : ℕ → Delivery) (caller : Option Owner) (w : World) where
  granted :
      {A : Type 0} (request : Request) (user : Owner) (end : Result A × World)
      → caller ≡ some user
      → is_eligible user request ≡ true
      → may_change user request w ≡ true
      → Ends
          (Guarded (is_permitted caller request w) w)
          (λ _. Guarded (is_permitted caller request w) w)
          end
  unfolding is_permitted
  granted request user end who active may = go end
    where
      yes : is_permitted caller request w ≡ true
      yes = rw who (simp (active, may) refl)

      go :
          {A : Type 0} (end : Result A × World)
          → Ends
              (Guarded (is_permitted caller request w) w)
              (λ _. Guarded (is_permitted caller request w) w)
              end
      go (ok a, w') = record { at = λ refused. ground arith }
      go (raise f, w') = record { at = λ refused. ground arith }

  abbrev Guards : {A : Type 0} → Request → Result A × World → Type 0
  Guards request =
      Ends (Guarded (is_permitted caller request w) w)
        (λ _. Guarded (is_permitted caller request w) w)

  put_mesh-Guards :
      (id : String) (u : MeshUpdate) → Guards (put_mesh id u) (mesh_put net caller id u w)
  unfolding mesh_put
  put_mesh-Guards id u =
      Ends-verified caller _ w (λ _. refl)
        λ user who active.
          Ends-mesh _ _ w (λ _. refl)
            λ mesh found.
              Ends-mesh_ownership mesh user _ w (λ _. refl)
                λ owns. granted (put_mesh id u) user _ who active (rw found owns)

  delete_mesh-Guards : (id : String) → Guards (delete_mesh id) (mesh_delete net caller id w)
  unfolding mesh_delete
  delete_mesh-Guards id =
      Ends-verified caller _ w (λ _. refl)
        λ user who active.
          Ends-mesh _ _ w (λ _. refl)
            λ mesh found.
              Ends-mesh_ownership mesh user _ w (λ _. refl)
                λ owns. granted (delete_mesh id) user _ who active (rw found owns)

  post_mesh-Guards :
      (id channel_id psk_b64 : String) (label : Option String)
      → Guards
          (post_mesh id channel_id psk_b64 label)
          (mesh_create net caller id channel_id psk_b64 label w)
  unfolding mesh_create
  post_mesh-Guards id channel_id psk_b64 label =
      Ends-verified caller _ w (λ _. refl)
        λ user who active. granted (post_mesh id channel_id psk_b64 label) user _ who active refl

  post_device-Guards :
      (id : String) (request : DeviceCreate)
      → Guards (post_device id request) (device_create net caller id request w)
  unfolding device_create
  post_device-Guards id request =
      Ends-verified caller _ w (λ _. refl)
        λ user who active.
          Ends-ensure _ w _ _ (λ _. refl)
            λ _.
              Ends-ensure _ w _ _ (λ _. refl)
                λ _.
                  Ends-mesh _ _ w (λ _. refl)
                    λ mesh found.
                      Ends-mesh_ownership mesh user _ w (λ _. refl)
                        λ owns. granted (post_device id request) user _ who active (rw found owns)

  put_device-Guards :
      (id : String) (u : DeviceUpdate) → Guards (put_device id u) (device_put net caller id u w)
  unfolding device_put
  put_device-Guards id u =
      Ends-verified caller _ w (λ _. refl)
        λ user who active.
          Ends-device _ _ w (λ _. refl)
            λ d found.
              Ends-mesh_of d _ w (λ _. refl)
                λ mesh of_device.
                  Ends-mesh_ownership mesh user _ w (λ _. refl)
                    λ owns. granted (put_device id u) user _ who active (rw (found, of_device) owns)

  delete_device-Guards : (id : String) → Guards (delete_device id) (device_delete net caller id w)
  unfolding device_delete
  delete_device-Guards id =
      Ends-verified caller _ w (λ _. refl)
        λ user who active.
          Ends-device _ _ w (λ _. refl)
            λ d found.
              Ends-mesh_of d _ w (λ _. refl)
                λ mesh of_device.
                  Ends-mesh_ownership mesh user _ w (λ _. refl)
                    λ owns.
                      granted (delete_device id) user _ who active (rw (found, of_device) owns)

  delete_me-Guards : Guards delete_me (owner_me_delete net caller w)
  unfolding owner_me_delete
  delete_me-Guards =
      Ends-authenticated caller _ w (λ _. refl) λ user who. granted delete_me user _ who refl refl

-- A request that its caller may not make changes no table and publishes nothing. To delete one's
-- own account one has to be signed in, verified or not. Every other request is refused where the
-- caller is anonymous or has no verified account, and, unless it creates a mesh, also where the caller
-- does not control the mesh that it acts on: it has to be there, and those who control it are its
-- owner and superusers. The mesh of a request on a device is that of the device.
pub handle-refused :
    (net : ℕ → Delivery) (caller : Option Owner) (request : Request) (w : World)
    → is_permitted caller request w ≡ false
    → handle net caller request w ≡ w
unfolding handle
handle-refused net caller (post_mesh id channel_id psk_b64 label) w =
    Ends-either _ (post_mesh-Guards net caller w id channel_id psk_b64 label)
handle-refused net caller (put_mesh id u) w = Ends-either _ (put_mesh-Guards net caller w id u)
handle-refused net caller (delete_mesh id) w = Ends-either _ (delete_mesh-Guards net caller w id)
handle-refused net caller (post_device id request) w =
    Ends-either _ (post_device-Guards net caller w id request)
handle-refused net caller (put_device id u) w = Ends-either _ (put_device-Guards net caller w id u)
handle-refused net caller (delete_device id) w =
    Ends-either _ (delete_device-Guards net caller w id)
handle-refused net caller delete_me w = Ends-either _ (delete_me-Guards net caller w)
