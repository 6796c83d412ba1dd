-- ===== src/Cache.antt =====
-- Django's cache (django.core.cache), which is third-party code: its operations at a time, by key,
-- and what its documentation says of them.
use meshtastic_things.Prelude.{ℕ, ◌+◌, ◌<◌, String, Bool, true, false, ◌≡◌, ◌≢◌, Option, none, some}

-- `add` sets a value unless the key has one, and says whether it has set it.
pub record CacheOf (V : Type 0) : Type 1 where
  pub Cache : Type 0
  pub get : ℕ → String → Cache → Option V
  pub set : ℕ → String → V → ℕ → Cache → Cache
  pub add : ℕ → String → V → ℕ → Cache → Cache × Bool
  pub delete : String → Cache → Cache

module _ {V : Type 0} (cache : CacheOf V) where
  open cache use {Cache, get, set, add, delete}

  pub record IsCacheOf : Type 0 where
    -- A value that is read is the one set, before its timeout.
    pub get-set :
        (t now timeout : ℕ) (key : String) (v v' : V) (c : Cache)
        → get t key (set now key v timeout c) ≡ some v'
        → (v ≡ v') × (t < now + timeout)
    pub get_until :
        (t now timeout : ℕ) (key : String) (v : V) (c : Cache)
        → t < now + timeout
        → get t key (set now key v timeout c) ≡ some v
    pub get-set_other :
        (t now timeout : ℕ) (key other : String) (v : V) (c : Cache)
        → key ≢ other
        → get t other (set now key v timeout c) ≡ get t other c
    pub get-delete : (t : ℕ) (key : String) (c : Cache) → get t key (delete key c) ≡ none
    pub get-delete_other :
        (t : ℕ) (key other : String) (c : Cache)
        → key ≢ other
        → get t other (delete key c) ≡ get t other c
    pub add-missing :
        (now timeout : ℕ) (key : String) (v : V) (c : Cache)
        → get now key c ≡ none
        → add now key v timeout c ≡ (set now key v timeout c, true)
    pub add-present :
        (now timeout : ℕ) (key : String) (v w : V) (c : Cache)
        → get now key c ≡ some w
        → add now key v timeout c ≡ (c, false)
