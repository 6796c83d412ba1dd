-- ===== src/Registry/Logins.antt =====
-- Signing in: the login view (keyapi/registry/views.py) and the authentication of an API key
-- (keyapi/registry/authentication.py). Both count the failed attempts of an address in Django's
-- cache, which is third-party code: `FailureCache` has its operations.
pub mod Counting
pub mod Limits
use meshtastic_things.Prelude.{
  ℕ, suc, ◌+◌, leb, String, Bool, true, false, not, ◌||◌, Option, none, some, List, [], ◌∷◌, find,
  fstring, str_eq, or_default, if◌then◌else◌,
}
use meshtastic_things.Registry.Models.{Owner}
use meshtastic_things.Registry.Requests.{
  Handler, Result, ok, raise, throttled, authentication_failed, permission_denied,
}
use meshtastic_things.Registry.Owners.{Hashing, holds, owner_by_email}

-- `get`, `incr` and `set` at a time: `incr` is `none` where it raises ValueError, the key being missing.
pub record FailureCache : Type 1 where
  pub Cache : Type 0
  pub get : ℕ → String → Cache → Option ℕ
  pub incr : ℕ → String → Cache → Option Cache
  pub set : ℕ → String → ℕ → ℕ → Cache → Cache

abbrev pub login_failed_rate_limit : ℕ
login_failed_rate_limit = 10

abbrev pub login_failed_rate_window_seconds : ℕ
login_failed_rate_window_seconds = 300

abbrev pub failed_auth_rate_limit : ℕ
failed_auth_rate_limit = 30

abbrev pub failed_auth_rate_window_seconds : ℕ
failed_auth_rate_window_seconds = 60

abbrev pub login_key : String → String
login_key address = fstring ("keyapi:failed-login:" ∷ address ∷ [])

abbrev pub auth_key : String → String
auth_key address = fstring ("keyapi:failed-auth:" ∷ address ∷ [])

-- A request's credentials, and when and from where they come.
pub record Login : Type 0 where
  pub time : ℕ
  pub email : String
  pub password : String

module _ (cache : FailureCache) where
  open cache use {Cache, get, incr, set}

  -- `_record_failed_attempt`
  unfoldable pub record_failed_attempt : ℕ → ℕ → String → Cache → Cache
  record_failed_attempt window now key c = elim (incr now key c) [
    | some c' ↦ c'
    | none ↦ set now key 1 window c
  ]

  abbrev pub is_throttled : ℕ → ℕ → String → Cache → Bool
  is_throttled limit now key c = leb limit (or_default (get now key c) 0)

  module _ (lib : Hashing) (owners : List Owner) where
    open lib use {hash_api_key, check_password}

    abbrev pub password_matches : String → Option Owner → Bool
    password_matches password none = false
    password_matches password (some owner) = check_password password owner.password

    abbrev signed_in : Option Owner → Result Owner
    signed_in none = raise authentication_failed
    signed_in (some owner) = if owner.is_active then ok owner else raise permission_denied

    -- OwnerLoginView.post
    unfoldable pub owner_login : String → Login → Handler Cache Owner
    unfolding record_failed_attempt
    owner_login address l c =
        let found = owner_by_email l.email owners in
        if is_throttled login_failed_rate_limit l.time (login_key address) c
        then (raise throttled, c)
        else if not (password_matches l.password found)
        then (
          raise authentication_failed,
          record_failed_attempt login_failed_rate_window_seconds l.time (login_key address) c,
        )
        else (signed_in found, c)

    abbrev by_api_key : String → Option Owner
    by_api_key token = find (λ (o : Owner). holds o.api_key_hash (hash_api_key token)) owners

    -- OwnerBearerAuthentication.authenticate, with the token of the header or of the query.
    unfoldable pub authenticate : String → ℕ → Option String → Handler Cache (Option Owner)
    unfolding record_failed_attempt
    authenticate address now none c = (ok none, c)
    authenticate address now (some token) c =
        if str_eq token ""
        then (ok none, c)
        else if is_throttled failed_auth_rate_limit now (auth_key address) c
        then (raise throttled, c)
        else elim (by_api_key token) [
          | none ↦ (
            raise authentication_failed,
            record_failed_attempt failed_auth_rate_window_seconds now (auth_key address) c,
          )
          | some owner ↦ (ok (some owner), c)
        ]

    abbrev failure : {A : Type 0} → Result A → ℕ
    failure (raise authentication_failed) = 1
    failure _ = 0

    -- The credentials that are tried and found wrong among the requests of one address.
    unfoldable pub failed_logins : String → List Login → Cache → ℕ
    failed_logins address [] c = 0
    failed_logins address (l ∷ rest) c =
        let (r, c') = owner_login address l c in failure r + failed_logins address rest c'

    unfoldable pub failed_tokens : String → List (ℕ × String) → Cache → ℕ
    failed_tokens address [] c = 0
    failed_tokens address ((now, token) ∷ rest) c =
        let (r, c') = authenticate address now (some token) c in
        failure r + failed_tokens address rest c'
