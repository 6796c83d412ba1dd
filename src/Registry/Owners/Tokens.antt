-- ===== src/Registry/Owners/Tokens.antt =====
-- The links that are mailed to an owner: what one can do, once, and until when.
use meshtastic_things.Prelude.{
  ℕ, ◌+◌, ltb, String, Bool, true, false, ◌≡◌, refl, ap, ◌∙◌, Option, none, some, List, [], ◌∷◌,
  find, arith, str_eq, eq_iff, eq_refl, is_some, ◌⊎◌, Bool-cases, inl, inr,
}
use meshtastic_things.Prelude.Members.{In, In-find}
use meshtastic_things.Registry.Models.{owner_by_pk, Owner, World, save_owner}
use meshtastic_things.Registry.Requests.{ok, raise, parse_error, ◌>>=◌}
use meshtastic_things.Registry.Access.{require_authenticated}
use meshtastic_things.Registry.Owners.{
  Hashing, holds, is_expired, by_reset_token, by_verification_token, owner_reset_password,
  reset_owner, reset, owner_verify_email, verify_owner, owner_me_put, OwnerUpdate, verified,
  email_changing, unverified, renamed,
}

later :
    (o u p : Owner) (owners : List Owner)
    → (o ≡ u) ⊎ (In o owners × (str_eq o.id u.id ≡ false))
    → (o ≡ u) ⊎ (In o (p ∷ owners) × (str_eq o.id u.id ≡ false))
later o u p owners (inl a) = inl a
later o u p owners (inr b) = inr (inr b.0, b.1)

In-save_owner :
    (o u : Owner) (owners : List Owner)
    → In o (save_owner u owners)
    → (o ≡ u) ⊎ (In o owners × (str_eq o.id u.id ≡ false))
unfolding save_owner
In-save_owner o u [] h = absurd h
In-save_owner o u (p ∷ owners) h = elim (Bool-cases (str_eq p.id u.id)) [
  | inl same ↦ elim (let h' : In o (u ∷ save_owner u owners) = rw same at h in h') [
    | inl here ↦ inl here
    | inr there ↦ later o u p owners (In-save_owner o u owners there)
  ]
  | inr other ↦ elim (let h' : In o (p ∷ save_owner u owners) = rw other at h in h') [
    | inl here ↦ inr (inl here, rw here other)
    | inr there ↦ later o u p owners (In-save_owner o u owners there)
  ]
]

find-all_false :
    (p : Owner → Bool) (owners : List Owner)
    → ((o : Owner) → In o owners → p o ≡ false)
    → find p owners ≡ none
find-all_false p [] h = refl
find-all_false p (o ∷ owners) h = rw (h o (inl refl)) (find-all_false p owners (λ q i. h q (inr i)))

-- A row that is saved is found by what holds of it alone.
find-save_owner :
    (p : Owner → Bool) (u : Owner) (owners : List Owner)
    → ((o : Owner) → In o owners → str_eq o.id u.id ≡ false → p o ≡ false)
    → p u ≡ true
    → is_some (owner_by_pk u.id owners) ≡ true
    → find p (save_owner u owners) ≡ some u
unfolding save_owner
find-save_owner p u [] others itself exists = ground arith
find-save_owner p u (o ∷ owners) others itself exists = elim (Bool-cases (str_eq o.id u.id)) [
  | inl same ↦ rw (same, itself) refl
  | inr other ↦
      rw (other, others o (inl refl) other)
        (find-save_owner p u owners (λ q i. others q (inr i)) itself (rw other at exists))
]

is_some-save_owner :
    (id : String) (u : Owner) (owners : List Owner)
    → is_some (owner_by_pk id owners) ≡ true
    → is_some (owner_by_pk id (save_owner u owners)) ≡ true
unfolding save_owner
is_some-save_owner id u [] exists = exists
is_some-save_owner id u (o ∷ owners) exists =
    ground (arith, is_some-save_owner id u owners, eq_iff o.id id, eq_iff o.id u.id, eq_iff u.id id)

module _ (lib : Hashing) where
  open lib use {hash_api_key}

  reset_removes :
      (hash new_password : String) (o : Owner) (owners : List Owner)
      → ((p : Owner)
          → In p owners
          → holds p.password_reset_token_hash hash ≡ true
          → str_eq p.id o.id ≡ true)
      → by_reset_token hash (save_owner (reset lib new_password o) owners) ≡ none
  reset_removes hash new_password o owners unique =
      find-all_false (λ (p : Owner). holds p.password_reset_token_hash hash)
        (save_owner (reset lib new_password o) owners)
        λ p i. elim (In-save_owner p (reset lib new_password o) owners i) [
          | inl same ↦ rw same refl
          | inr (j, other) ↦ ground (arith, unique p j)
        ]

  reset_owner-ok :
      (ttl : ℕ) (new_password : String) (now : ℕ) (found : Option Owner) (w : World)
      → (reset_owner lib ttl new_password now found w).0 ≡ ok tt
      → (o : Owner) × (found ≡ some o)
        × ((reset_owner lib ttl new_password now found w).1.owners
            ≡ save_owner (reset lib new_password o) w.owners)
  unfolding reset_owner ◌>>=◌
  reset_owner-ok ttl new_password now none w done = ground arith
  reset_owner-ok ttl new_password now (some o) w done = (o, refl, ground arith)

  -- A reset link works once: after a reset that was answered, the same link, used at any time with any
  -- password, is refused and changes nothing, where the token is the link of one owner.
  pub owner_reset_password-once :
      (ttl : ℕ) (token new_password again : String) (now later : ℕ) (w : World)
      → ((o p : Owner)
          → In o w.owners
          → In p w.owners
          → holds o.password_reset_token_hash (hash_api_key token) ≡ true
          → holds p.password_reset_token_hash (hash_api_key token) ≡ true
          → str_eq p.id o.id ≡ true)
      → (owner_reset_password lib ttl token new_password now w).0 ≡ ok tt
      → (let w' = (owner_reset_password lib ttl token new_password now w).1 in
          owner_reset_password lib ttl token again later w' ≡ (raise parse_error, w'))
  unfolding owner_reset_password ◌>>=◌
  owner_reset_password-once ttl token new_password again now later w unique done =
      let w' = (owner_reset_password lib ttl token new_password now w).1 in
      let (o, found, saved) =
        reset_owner-ok ttl new_password now (by_reset_token (hash_api_key token) w.owners) w done in
      let (i, held) =
        In-find (λ (p : Owner). holds p.password_reset_token_hash (hash_api_key token)) o w.owners
          found in
      let gone : by_reset_token (hash_api_key token) w'.owners ≡ none =
        ap (by_reset_token (hash_api_key token)) saved
        ∙ reset_removes (hash_api_key token) new_password o w.owners (λ p j. unique o p i j held) in
      ap (λ x. reset_owner lib ttl again later x w') gone ∙ unfold reset_owner in refl

  owner_me_put-ok :
      (user : Owner) (u : OwnerUpdate) (token : String) (now : ℕ) (w : World) (o : Owner)
      → email_changing lib u user ≡ true
      → (owner_me_put lib (some user) u token now w).0 ≡ ok o
      → (owner_me_put lib (some user) u token now w).1.owners
        ≡ save_owner
            (unverified lib token now (renamed lib u user))
            (save_owner (renamed lib u user) w.owners)
  unfolding owner_me_put require_authenticated ◌>>=◌
  owner_me_put-ok user u token now w o changing done = ground (arith, changing)

  owner_verify_email-active :
      (ttl : ℕ) (token : String) (now : ℕ) (w : World) (o : Owner)
      → by_verification_token (hash_api_key token) w.owners ≡ some o
      → o.is_active ≡ false
      → is_expired ttl now o.email_verification_sent_at ≡ false
      → str_eq token "" ≡ false
      → (owner_verify_email lib ttl token now w).1.owners ≡ save_owner (verified lib now o) w.owners
  unfolding owner_verify_email verify_owner ◌>>=◌
  owner_verify_email-active ttl token now w o found inactive in_time nonempty =
      ground (arith, found, inactive, in_time, nonempty)

  -- A changed email address deactivates the owner, and the link that is sent to it, used within its
  -- time, activates the owner with the new address, where the link's token is new.
  pub owner_me_put-verify_email :
      (ttl : ℕ) (user : Owner) (u : OwnerUpdate) (token : String) (now later : ℕ) (w : World)
      (o : Owner)
      → email_changing lib u user ≡ true
      → is_some (owner_by_pk user.id w.owners) ≡ true
      → ((p : Owner)
          → In p w.owners
          → holds p.email_verification_token_hash (hash_api_key token) ≡ false)
      → str_eq token "" ≡ false
      → ltb (now + ttl) later ≡ false
      → (owner_me_put lib (some user) u token now w).0 ≡ ok o
      → (let w1 = (owner_me_put lib (some user) u token now w).1 in
          let inactive = unverified lib token now (renamed lib u user) in
          (owner_by_pk user.id w1.owners ≡ some inactive)
          × (owner_by_pk user.id (owner_verify_email lib ttl token later w1).1.owners
              ≡ some (verified lib later inactive)))
  owner_me_put-verify_email ttl user u token now later w o changing exists fresh nonempty in_time
        done =
      let w1 = (owner_me_put lib (some user) u token now w).1 in
      let saved = owner_me_put-ok user u token now w o changing done in
      let inactive = unverified lib token now (renamed lib u user) in
      let rows = save_owner (renamed lib u user) w.owners in
      let kept = is_some-save_owner user.id (renamed lib u user) w.owners exists in
      let row : owner_by_pk user.id w1.owners ≡ some inactive =
        ap (owner_by_pk user.id) saved
        ∙ find-save_owner (λ (p : Owner). str_eq p.id user.id) inactive rows (λ p i other. other)
            (eq_refl user.id) kept in
      let linked : by_verification_token (hash_api_key token) w1.owners ≡ some inactive =
        ap (by_verification_token (hash_api_key token)) saved
        ∙ find-save_owner
            (λ (p : Owner). holds p.email_verification_token_hash (hash_api_key token)) inactive
            rows
            (λ p i other. elim (In-save_owner p (renamed lib u user) w.owners i) [
              | inl same ↦ ground (arith, eq_refl user.id)
              | inr (j, _) ↦ fresh p j
            ])
            (eq_refl (hash_api_key token)) kept in
      (
        row,
        ap (owner_by_pk user.id)
              (owner_verify_email-active ttl token later w1 inactive linked refl in_time nonempty)
            ∙ find-save_owner (λ (p : Owner). str_eq p.id user.id) (verified lib later inactive)
                w1.owners (λ p i other. other) (eq_refl user.id) (rw row refl),
      )
