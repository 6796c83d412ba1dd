-- ===== src/Registry/Logins/Limits.antt =====
-- How many wrong passwords and API keys an address can try.
use meshtastic_things.Prelude.{
  ℕ, ◌+◌, ◌<◌, ◌≤◌, String, true, false, ◌≡◌, none, some, List, [], ◌∷◌, arith, All, map,
  Bool-cases, Option-cases, ◌⊎◌, inl, inr, str_eq,
}
use meshtastic_things.Registry.Models.{Owner}
use meshtastic_things.Registry.Owners.{Hashing, owner_by_email}
use meshtastic_things.Registry.Logins.{
  password_matches, by_api_key, FailureCache, is_throttled, Login, owner_login, authenticate,
  failed_logins, failed_tokens, login_key, auth_key, login_failed_rate_limit,
  login_failed_rate_window_seconds, failed_auth_rate_limit, failed_auth_rate_window_seconds,
}
use meshtastic_things.Registry.Logins.Counting.{
  IsCache, Tries, done, quiet_of, failed_of, Tries-limited,
}

module _ (cache : FailureCache) (laws : IsCache cache) where
  open cache use {Cache, get}

  module _ (lib : Hashing) (owners : List Owner) (address : String) where
    -- One request: it is refused or does not fail, or it fails and is counted.
    owner_login-Tries :
        (ls : List Login) (c : Cache)
        → Tries cache laws login_failed_rate_limit login_failed_rate_window_seconds
            (login_key address)
            (map (λ (l : Login). l.time) ls)
            c
            (failed_logins cache lib owners address ls c)
    unfolding owner_login failed_logins
    owner_login-Tries [] c = done c
    owner_login-Tries (l ∷ ls) c =
        go (Bool-cases (is_throttled cache login_failed_rate_limit l.time (login_key address) c))
          (Bool-cases
            (password_matches cache lib owners l.password (owner_by_email l.email owners)))
          (owner_login-Tries ls)
      where
        key : String
        key = login_key address

        go :
            (is_throttled cache login_failed_rate_limit l.time (login_key address) c ≡ true)
              ⊎ (is_throttled cache login_failed_rate_limit l.time (login_key address) c ≡ false)
            → (password_matches cache lib owners l.password (owner_by_email l.email owners) ≡ true)
              ⊎ (password_matches cache lib owners l.password (owner_by_email l.email owners)
                  ≡ false)
            → ((c : Cache)
                → Tries cache laws login_failed_rate_limit login_failed_rate_window_seconds
                    (login_key address)
                    (map (λ (l : Login). l.time) ls)
                    c
                    (failed_logins cache lib owners address ls c))
            → Tries cache laws login_failed_rate_limit login_failed_rate_window_seconds
                (login_key address)
                (map (λ (l : Login). l.time) (l ∷ ls))
                c
                (failed_logins cache lib owners address (l ∷ ls) c)
        go (inl refused) m rest =
            quiet_of cache laws l.time _ c _ (ground arith) (ground arith) (rest _)
        go (inr open') (inl right) rest =
            quiet_of cache laws l.time _ c _ (ground arith) (ground arith) (rest _)
        go (inr open') (inr wrong) rest =
            failed_of cache laws l.time _ c _ (ground arith) (ground arith) open' (rest _)

    -- Of the sign-ins that an address tries within one window, at most ten are told that the
    -- email address or the password is wrong, whichever accounts they are for, where the address starts the window
    -- with no failures counted.
    pub owner_login-limited :
        (start : ℕ) (ls : List Login) (c : Cache)
        → All
            (λ t. (start ≤ t) × (t < start + login_failed_rate_window_seconds))
            (map (λ (l : Login). l.time) ls)
        → ((t : ℕ) → start ≤ t → get t (login_key address) c ≡ none)
        → failed_logins cache lib owners address ls c ≤ login_failed_rate_limit
    owner_login-limited start ls c within fresh =
        Tries-limited cache laws login_failed_rate_limit login_failed_rate_window_seconds
          (login_key address) start (map (λ (l : Login). l.time) ls) c
          (failed_logins cache lib owners address ls c) (owner_login-Tries ls c) within
          (omega arith) fresh

    authenticate-Tries :
        (ts : List (ℕ × String)) (c : Cache)
        → Tries cache laws failed_auth_rate_limit failed_auth_rate_window_seconds
            (auth_key address)
            (map (λ (x : ℕ × String). x.0) ts)
            c
            (failed_tokens cache lib owners address ts c)
    unfolding authenticate failed_tokens
    authenticate-Tries [] c = done c
    authenticate-Tries ((now, token) ∷ ts) c =
        go (Bool-cases (str_eq token ""))
          (Bool-cases (is_throttled cache failed_auth_rate_limit now (auth_key address) c))
          (Option-cases (by_api_key cache lib owners token)) (authenticate-Tries ts)
      where
        go :
            (str_eq token "" ≡ true) ⊎ (str_eq token "" ≡ false)
            → (is_throttled cache failed_auth_rate_limit now (auth_key address) c ≡ true)
              ⊎ (is_throttled cache failed_auth_rate_limit now (auth_key address) c ≡ false)
            → (by_api_key cache lib owners token ≡ none)
              ⊎ ((o : Owner) × (by_api_key cache lib owners token ≡ some o))
            → ((c : Cache)
                → Tries cache laws failed_auth_rate_limit failed_auth_rate_window_seconds
                    (auth_key address)
                    (map (λ (x : ℕ × String). x.0) ts)
                    c
                    (failed_tokens cache lib owners address ts c))
            → Tries cache laws failed_auth_rate_limit failed_auth_rate_window_seconds
                (auth_key address)
                (now ∷ map (λ (x : ℕ × String). x.0) ts)
                c
                (failed_tokens cache lib owners address ((now, token) ∷ ts) c)
        go (inl blank) t o rest =
            quiet_of cache laws now _ c _ (ground arith) (ground arith) (rest _)
        go (inr given) (inl refused) o rest =
            quiet_of cache laws now _ c _ (ground arith) (ground arith) (rest _)
        go (inr given) (inr open') (inl unknown) rest =
            failed_of cache laws now _ c _ (ground arith) (ground arith) open' (rest _)
        go (inr given) (inr open') (inr (o, known)) rest =
            quiet_of cache laws now _ c _ (ground arith) (ground arith) (rest _)

    -- Of the API keys that an address tries within one window, at most thirty are told that they
    -- are invalid, where the address starts the window with no failures counted.
    pub authenticate-limited :
        (start : ℕ) (ts : List (ℕ × String)) (c : Cache)
        → All
            (λ t. (start ≤ t) × (t < start + failed_auth_rate_window_seconds))
            (map (λ (x : ℕ × String). x.0) ts)
        → ((t : ℕ) → start ≤ t → get t (auth_key address) c ≡ none)
        → failed_tokens cache lib owners address ts c ≤ failed_auth_rate_limit
    authenticate-limited start ts c within fresh =
        Tries-limited cache laws failed_auth_rate_limit failed_auth_rate_window_seconds
          (auth_key address) start (map (λ (x : ℕ × String). x.0) ts) c
          (failed_tokens cache lib owners address ts c) (authenticate-Tries ts c) within
          (omega arith) fresh
