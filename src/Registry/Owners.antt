-- ===== src/Registry/Owners.antt =====
-- The owner views (keyapi/registry/views.py): signup, verification, password reset, and the owner's
-- own account. The generated tokens, the new row's id and the time are arguments. A mail whose
-- failure is only logged is left out.
mod Rows
pub mod Tokens
unfoldable pub use Rows.*
use meshtastic_things.Prelude.{
  ℕ, ◌+◌, ltb, String, Bool, true, false, not, ◌&&◌, ◌||◌, Option, none, some, List, [], ◌∷◌, ◌++◌,
  map, find, any, select, is_some, length, str_eq, or_default, if◌then◌else◌,
}
use meshtastic_things.Kafka.{Delivery}
use meshtastic_things.Registry.Models.{
  Owner, Mesh, Device, Blueprint, Message, owner_auth_revocations, World, save_owner, owner_by_pk,
  mesh_by_pk, is_live_gateway, is_rejected_node,
}
use meshtastic_things.Registry.Requests.{
  Handler, respond, abort, ensure, gets, write, lookup_or, validation_error, not_authenticated,
  not_found, conflict, parse_error, bad_gateway, ◌>>=◌, ◌>>◌,
}
use meshtastic_things.Registry.Publisher.{publish_or_rollback, publish_best_effort}
use meshtastic_things.Registry.Access.{require_verified, require_authenticated}
use meshtastic_things.Registry.Meshes.{deregistrations}
use meshtastic_things.Registry.Devices.{device_owner}

module _ (net : ℕ → Delivery) where
  -- The revocation of a key, for the query API's cache.
  abbrev pub revoke : Option String → Handler World (Unit {0})
  revoke none = respond tt
  revoke (some hash) =
      if str_eq hash "" then respond tt else publish_best_effort net (owner_auth_revocations hash)

  unfoldable pub owner_me_delete : Option Owner → Handler World (Unit {0})
  owner_me_delete caller = do
    user ← require_authenticated caller
    messages ← gets (λ w.
        deregistrations (select is_live_gateway (devices_of_owner user.id w))
          (select is_rejected_node (devices_of_owner user.id w)))
    publish_or_rollback net messages (λ w. w)
    write (delete_owner user.id)
    revoke user.api_key_hash

module _ (lib : Hashing) where
  open lib use {hash_api_key, make_password, check_password, validate_password, normalize_email}

  -- The row of a new owner, who is inactive until the email address is verified.
  unfoldable pub new_owner : String → String → String → String → String → String → ℕ → Owner
  new_owner id email name password api_key token now = record {
    id = id;
    email = normalize_email email;
    name = name;
    password = some (make_password password);
    api_key_hash = some (hash_api_key api_key);
    is_staff = false;
    is_superuser = false;
    is_active = false;
    email_verified_at = none;
    email_verification_token_hash = some (hash_api_key token);
    email_verification_sent_at = some now;
    password_reset_token_hash = none;
    password_reset_sent_at = none;
  }

  unfoldable pub owner_create :
      String → String → String → String → String → String → ℕ → Handler World (Owner × String)
  owner_create id email name password api_key token now = do
    ensure (validate_password password email name) validation_error
    let owner = new_owner id email name password api_key token now
    owners ← gets (λ w. w.owners)
    ensure (not (any (clashes owner) owners) && not (is_some (owner_by_pk id owners))) conflict
    write (λ w. record w { owners = w.owners ++ owner ∷ [] })
    respond (owner, api_key)

  abbrev pub verified : ℕ → Owner → Owner
  verified now o = record o { is_active = true; email_verified_at = some now }

  -- The owner of an unexpired token, unless already active.
  unfoldable pub verify_owner : ℕ → ℕ → Option Owner → Handler World (Unit {0})
  verify_owner ttl now none = abort parse_error
  verify_owner ttl now (some owner) =
      if owner.is_active
      then respond tt
      else if is_expired ttl now owner.email_verification_sent_at
      then abort parse_error
      else write (λ w. record w { owners = save_owner (verified now owner) w.owners })

  unfoldable pub owner_verify_email : ℕ → String → ℕ → Handler World (Unit {0})
  owner_verify_email ttl token now = do
    ensure (not (str_eq token "")) parse_error
    owner ← gets (λ w. by_verification_token (hash_api_key token) w.owners)
    verify_owner ttl now owner

  abbrev pub awaiting : String → ℕ → Owner → Owner
  awaiting token now o = record o {
    email_verification_token_hash = some (hash_api_key token);
    email_verification_sent_at = some now;
  }

  -- `mailed` is whether the mail was sent.
  abbrev send_again : String → ℕ → Bool → Owner → Handler World (Unit {0})
  send_again token now mailed owner = do
    write (λ w. record w { owners = save_owner (awaiting token now owner) w.owners })
    ensure mailed bad_gateway

  unfoldable pub owner_resend_verification :
      Option Owner → String → ℕ → Bool → Handler World (Unit {0})
  owner_resend_verification caller token now mailed = do
    owner ← require_authenticated caller
    if owner.is_active then respond tt else send_again token now mailed owner

  abbrev pub resettable : String → ℕ → Owner → Owner
  resettable token now o = record o {
    password_reset_token_hash = some (hash_api_key token);
    password_reset_sent_at = some now;
  }

  abbrev request_reset : String → ℕ → Option Owner → Handler World (Unit {0})
  request_reset token now none = respond tt
  request_reset token now (some owner) =
      write (λ w. record w { owners = save_owner (resettable token now owner) w.owners })

  unfoldable pub owner_request_password_reset : String → String → ℕ → Handler World (Unit {0})
  owner_request_password_reset email token now = do
    owner ← gets (λ w. owner_by_email email w.owners)
    request_reset token now owner

  abbrev pub reset : String → Owner → Owner
  reset new_password o = record o {
    password = some (make_password new_password);
    password_reset_token_hash = none;
    password_reset_sent_at = none;
  }

  unfoldable pub reset_owner : ℕ → String → ℕ → Option Owner → Handler World (Unit {0})
  reset_owner ttl new_password now none = abort parse_error
  reset_owner ttl new_password now (some owner) = do
    ensure (not (is_expired ttl now owner.password_reset_sent_at)) parse_error
    ensure (validate_password new_password owner.email owner.name) validation_error
    write (λ w. record w { owners = save_owner (reset new_password owner) w.owners })

  unfoldable pub owner_reset_password : ℕ → String → String → ℕ → Handler World (Unit {0})
  owner_reset_password ttl token new_password now = do
    owner ← gets (λ w. by_reset_token (hash_api_key token) w.owners)
    reset_owner ttl new_password now owner

  abbrev pub email_changing : OwnerUpdate → Owner → Bool
  email_changing u o = elim u.raw_email [ none ↦ false | some email ↦ not (str_eq email o.email) ]

  abbrev pub renamed : OwnerUpdate → Owner → Owner
  renamed u o = record o { name = or_default u.name o.name; email = or_default u.email o.email }

  -- A changed address is to be verified anew.
  abbrev pub unverified : String → ℕ → Owner → Owner
  unverified token now o = record o {
    is_active = false;
    email_verified_at = none;
    email_verification_token_hash = some (hash_api_key token);
    email_verification_sent_at = some now;
  }

  abbrev pub deactivate : String → ℕ → Owner → Handler World Owner
  deactivate token now o = do
    write (λ w. record w { owners = save_owner (unverified token now o) w.owners })
    respond (unverified token now o)

  unfoldable pub owner_me_put : Option Owner → OwnerUpdate → String → ℕ → Handler World Owner
  owner_me_put caller u token now = do
    user ← require_authenticated caller
    owners ← gets (λ w. w.owners)
    ensure (not (any (clashes (renamed u user)) owners)) conflict
    write (λ w. record w { owners = save_owner (renamed u user) w.owners })
    if email_changing u user
        then deactivate token now (renamed u user)
        else respond (renamed u user)

  unfoldable pub owner_change_password : Option Owner → String → String → Handler World (Unit {0})
  owner_change_password caller current_password new_password = do
    owner ← require_verified caller
    ensure (check_password current_password owner.password) validation_error
    ensure (validate_password new_password owner.email owner.name) validation_error
    write (λ w. record w {
      owners = save_owner (record owner { password = some (make_password new_password) }) w.owners;
    })

  module _ (net : ℕ → Delivery) where
    unfoldable pub owner_rotate_key : Option Owner → String → Handler World (Owner × String)
    owner_rotate_key caller new_api_key = do
      user ← require_verified caller
      let rotated : Owner = record user { api_key_hash = some (hash_api_key new_api_key) }
      write (λ w. record w { owners = save_owner rotated w.owners })
      revoke net user.api_key_hash
      respond (rotated, new_api_key)
