-- ===== src/Tests/Accounts.antt =====
-- The theorems on accounts, with a small hashing library and cache.
use meshtastic_things.Prelude.{
  ℕ, ◌+◌, ◌≤◌, ltb, String, true, false, ◌≡◌, refl, inl, inr, Option, none, some, List, [], ◌∷◌,
  arith, str_eq, eq_refl, if◌then◌else◌,
}
use meshtastic_things.Prelude.Members.{In}
use meshtastic_things.Registry.Models.{Owner, owner_by_pk}
use meshtastic_things.Registry.Requests.{ok, raise, parse_error, ◌>>=◌}
use meshtastic_things.Registry.Access.{require_authenticated}
use meshtastic_things.Registry.Owners.{
  Hashing, OwnerUpdate, holds, owner_reset_password, reset_owner, owner_me_put, owner_verify_email,
  unverified, renamed, verified,
}
use meshtastic_things.Registry.Owners.Tokens.{owner_reset_password-once, owner_me_put-verify_email}
use meshtastic_things.Registry.Logins.{FailureCache, Login, failed_logins, failed_tokens}
use meshtastic_things.Registry.Logins.Counting.{IsCache}
use meshtastic_things.Registry.Logins.Limits.{owner_login-limited, authenticate-limited}
use meshtastic_things.Tests.Data.{ann, bob, empty_world}

-- A hash that is the text itself, and passwords that are stored as they are.
abbrev hashing : Hashing
hashing = record {
  hash_api_key = λ s. s;
  make_password = λ s. s;
  check_password = λ s stored. holds stored s;
  validate_password = λ password email name. true;
  normalize_email = λ email. email;
}

reset_done : (owner_reset_password hashing 3600 "reset-1" "new" 200 empty_world).0 ≡ ok tt
unfolding owner_reset_password reset_owner ◌>>=◌
reset_done = refl

one_owner :
    (o p : Owner)
    → In o empty_world.owners
    → In p empty_world.owners
    → holds o.password_reset_token_hash "reset-1" ≡ true
    → holds p.password_reset_token_hash "reset-1" ≡ true
    → str_eq p.id o.id ≡ true
one_owner o p (inl a) (inl b) h k = rw (a, b) refl
one_owner o p (inr (inr a)) j h k = elim a [ ]
one_owner o p i (inr (inr b)) h k = elim b [ ]
one_owner o p (inr (inl a)) j h k = absurd (no_token (rw a at h))
  where
    no_token : holds bob.password_reset_token_hash "reset-1" ≡ true → ⊥
    no_token h = cc
one_owner o p i (inr (inl b)) h k = absurd (no_token (rw b at k))
  where
    no_token : holds bob.password_reset_token_hash "reset-1" ≡ true → ⊥
    no_token h = cc

owner_reset_password-once_example :
    let w' = (owner_reset_password hashing 3600 "reset-1" "new" 200 empty_world).1 in
    owner_reset_password hashing 3600 "reset-1" "again" 300 w' ≡ (raise parse_error, w')
owner_reset_password-once_example =
    owner_reset_password-once hashing 3600 "reset-1" "new" "again" 200 300 empty_world one_owner
      reset_done

abbrev new_email : OwnerUpdate
new_email = record {
  name = none;
  email = some "ann@example.com";
  raw_email = some "ann@example.com";
}

abbrev moved : Owner
moved = unverified hashing "token-2" 500 (renamed hashing new_email ann)

put_done : (owner_me_put hashing (some ann) new_email "token-2" 500 empty_world).0 ≡ ok moved
unfolding owner_me_put require_authenticated ◌>>=◌
put_done = refl

new_token :
    (p : Owner) → In p empty_world.owners → holds p.email_verification_token_hash "token-2" ≡ false
new_token p (inl e) = rw e refl
new_token p (inr (inl e)) = rw e refl
new_token p (inr (inr e)) = elim e [ ]

owner_me_put-verify_email_example :
    let w1 = (owner_me_put hashing (some ann) new_email "token-2" 500 empty_world).1 in
    (owner_by_pk "owner-1" w1.owners ≡ some moved)
    × (owner_by_pk "owner-1" (owner_verify_email hashing 86400 "token-2" 600 w1).1.owners
        ≡ some (verified hashing 600 moved))
owner_me_put-verify_email_example =
    owner_me_put-verify_email hashing 86400 ann new_email "token-2" 500 600 empty_world moved refl
      refl new_token refl refl put_done

-- A cache with one entry: its key, its value and when it times out.
abbrev Entry : Type 0
Entry = Option (String × ℕ × ℕ)

abbrev entry_get : ℕ → String → Entry → Option ℕ
entry_get now key none = none
entry_get now key (some (k, n, end)) =
    if str_eq k key then (if ltb now end then some n else none) else none

abbrev entry_incr : Option ℕ → Entry → Option Entry
entry_incr (some n) (some (k, m, end)) = some (some (k, m + 1, end))
entry_incr _ _ = none

abbrev cache : FailureCache
cache = record {
  Cache = Entry;
  get = entry_get;
  incr = λ now key c. entry_incr (entry_get now key c) c;
  set = λ now key n timeout c. some (key, n, now + timeout);
}

entry_more :
    (now n : ℕ) (key : String) (c : Entry)
    → entry_get now key c ≡ some n
    → (c' : Entry) × (entry_incr (entry_get now key c) c ≡ some c')
      × ((t m : ℕ) → entry_get t key c ≡ some m → entry_get t key c' ≡ some (m + 1))
entry_more now n key none e = ground arith
entry_more now n key (some (k, m, end)) e =
    (some (k, m + 1, end), rw e refl, λ t m' f. ground arith)

cache-IsCache : IsCache cache
cache-IsCache = record {
  get-set = λ now timeout n t key c before. ground (arith, eq_refl key);
  incr-present = entry_more;
  incr-missing = λ now key c e. rw e refl;
}

-- Wrong passwords from one address, and a right one.
abbrev logins : List Login
logins =
    record { time = 1000; email = "ann@example.org"; password = "guess" }
    ∷ record { time = 1001; email = "bob@example.org"; password = "guess" }
    ∷ record { time = 1299; email = "ann@example.org"; password = "secret" }
    ∷ []

owner_login-limited_example :
    failed_logins cache hashing (ann ∷ bob ∷ []) "10.0.0.1" logins none ≤ 10
owner_login-limited_example =
    owner_login-limited cache cache-IsCache hashing (ann ∷ bob ∷ []) "10.0.0.1" 1000 logins none
      (omega arith) (λ t h. refl)

authenticate-limited_example :
    failed_tokens cache hashing
      (ann ∷ bob ∷ [])
      "10.0.0.1"
      ((1000, "no-key") ∷ (1001, "key-1") ∷ [])
      none
    ≤ 30
authenticate-limited_example =
    authenticate-limited cache cache-IsCache hashing (ann ∷ bob ∷ []) "10.0.0.1" 1000
      ((1000, "no-key") ∷ (1001, "key-1") ∷ []) none (omega arith) (λ t h. refl)
