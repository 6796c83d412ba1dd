-- ===== src/Query/Introspection.antt =====
-- queryapi/telemetry/authentication.py, and management/commands/consume_owner_auth_revocations.py:
-- the query API asks the key management API whose key a token is, keeps the answer for a minute,
-- and drops it when the key is revoked.
pub mod Freshness
use meshtastic_things.Prelude.{
  ℕ, suc, ltb, String, Bool, true, false, not, ◌||◌, Option, none, some, List, [], ◌∷◌, fstring,
  str_eq, ◌==◌, if◌then◌else◌,
}
use meshtastic_things.Cache.{CacheOf}
use meshtastic_things.Registry.Requests.{
  Result, ok, raise, throttled, authentication_failed, bad_gateway,
}
use meshtastic_things.Registry.Logins.{FailureCache}

abbrev pub cache_ttl_seconds : ℕ
cache_ttl_seconds = 60

abbrev pub introspect_rate_limit : ℕ
introspect_rate_limit = 30

abbrev pub introspect_rate_window_seconds : ℕ
introspect_rate_window_seconds = 60

-- The part of GET /owners/me that is kept: a device is its row's id, its mesh and its number.
pub record OwnerData : Type 0 where
  pub id : String
  pub email : String
  pub is_superuser : Bool
  pub devices : List (String × String × ℕ)

-- What is cached for a key.
pub data Answer : Type 0 where
  invalid : Answer
  owner : OwnerData → Answer

-- What requests.get gives: an exception, or a status and, if it is 200, the body.
pub data Reply : Type 0 where
  unreachable : Reply
  status : ℕ → OwnerData → Reply

-- The calls to the key management API, each with its time, the token that it sent and the reply, and
-- the hashes of the revocations read, the last first.
pub data Entry : Type 0 where
  asked : ℕ → String → Reply → Entry
  revoked : String → Entry

abbrev pub owner_key : String → String
owner_key hash = fstring ("queryapi:owner:" ∷ hash ∷ [])

abbrev pub attempts_key : String → String
attempts_key address = fstring ("queryapi:introspect-attempts:" ∷ address ∷ [])

module _ (cache : CacheOf Answer) (counts : FailureCache) (sha256 : String → String) where
  -- Django's cache holds answers and counts under different keys.
  pub record Service : Type 0 where
    pub answers : cache.Cache
    pub attempts : counts.Cache
    pub log : List Entry

  -- The count after `incr`, or after `set` where there was none.
  abbrev pub count_of : Option ℕ → ℕ
  count_of none = 1
  count_of (some n) = n

  abbrev pub counted : ℕ → String → Option counts.Cache → Service → ℕ × Service
  counted now key (some c) s = (count_of (counts.get now key c), record s { attempts = c })
  counted now key none s =
      (1, record s { attempts = counts.set now key 1 introspect_rate_window_seconds s.attempts })

  -- `_guard_introspection_rate`: whether the call may go on.
  unfoldable pub guard_introspection_rate : String → ℕ → Service → Bool × Service
  guard_introspection_rate address now s =
      let key = attempts_key address in
      let (count, s') = counted now key (counts.incr now key s.attempts) s in
      (not (ltb introspect_rate_limit count), s')

  abbrev pub keep : ℕ → String → Answer → Service → Service
  keep now key answer s = record s {
    answers = cache.set now key answer cache_ttl_seconds s.answers;
  }

  -- What is made of the reply; a service that cannot be asked is a 503, here `bad_gateway`.
  abbrev pub accept : ℕ → String → Reply → Service → Result (Option OwnerData) × Service
  accept now key unreachable s = (raise bad_gateway, s)
  accept now key (status code body) s =
      if (code == 401) || (code == 403)
      then (raise authentication_failed, keep now key invalid s)
      else if code == 200
      then (ok (some body), keep now key (owner body) s)
      else (raise bad_gateway, s)

  -- The key under which the answer about a token is kept.
  abbrev pub token_key : String → String
  token_key token = owner_key (sha256 token)

  abbrev pub ask : ℕ → String → Reply → Bool × Service → Result (Option OwnerData) × Service
  ask now token reply (false, s) = (raise throttled, s)
  ask now token reply (true, s) =
      accept now (token_key token) reply (record s { log = asked now token reply ∷ s.log })

  abbrev pub from_cache :
      String → ℕ → String → Reply → Option Answer → Service → Result (Option OwnerData) × Service
  from_cache address now token reply (some invalid) s = (raise authentication_failed, s)
  from_cache address now token reply (some (owner body)) s = (ok (some body), s)
  from_cache address now token reply none s =
      ask now token reply (guard_introspection_rate address now s)

  -- `authenticate`, of the token of the header or the query; the reply is what the key management
  -- API answers if it is asked.
  unfoldable pub authenticate :
      String → ℕ → Option String → Reply → Service → Result (Option OwnerData) × Service
  unfolding guard_introspection_rate
  authenticate address now none reply s = (ok none, s)
  authenticate address now (some token) reply s =
      if str_eq token ""
      then (ok none, s)
      else from_cache address now token reply (cache.get now (token_key token) s.answers) s

  -- `_handle` of a revocation.
  unfoldable pub handle_revocation : Option String → Service → Service
  handle_revocation none s = s
  handle_revocation (some hash) s = if str_eq hash "" then s else record s {
    answers = cache.delete (owner_key hash) s.answers;
    log = revoked hash ∷ s.log;
  }

  -- What the processes of the query API do, one at a time.
  pub data Input : Type 0 where
    request : String → ℕ → Option String → Reply → Input
    revocation : Option String → Input

  unfoldable pub serve : List Input → Service → Service
  unfolding authenticate handle_revocation
  serve [] s = s
  serve (request address now token reply ∷ inputs) s =
      serve inputs (authenticate address now token reply s).1
  serve (revocation hash ∷ inputs) s = serve inputs (handle_revocation hash s)
