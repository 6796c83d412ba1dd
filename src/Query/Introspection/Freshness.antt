-- ===== src/Query/Introspection/Freshness.antt =====
-- How old the answers are by which the query API lets a caller in.
use meshtastic_things.Prelude.{
  ℕ, ◌+◌, ◌<◌, String, Bool, true, false, ◌≡◌, ◌≢◌, refl, ap, sym, ◌∙◌, ◌⊎◌, inl, inr, Option, none,
  some, List, [], ◌∷◌, arith, str_eq, eq_iff, ◌==◌, ◌||◌, ==_iff, Bool-cases,
}
use package.text.Mathlib.TextLemmas.{append_cancel_left}
use meshtastic_things.Cache.{CacheOf, IsCacheOf}
use meshtastic_things.Registry.Requests.{ok}
use meshtastic_things.Registry.Logins.{FailureCache}
use meshtastic_things.Query.Introspection.{
  OwnerData, Answer, invalid, owner, Reply, unreachable, status, Entry, asked, revoked, owner_key,
  cache_ttl_seconds, Service, guard_introspection_rate, keep, counted, attempts_key, accept, ask,
  token_key, from_cache, authenticate, handle_revocation, Input, request, revocation, serve,
}

-- The key management API was asked about the token.
abbrev pub IsAsked : String → List Entry → Type 0
IsAsked token [] = ⊥
IsAsked token (asked now other reply ∷ log) = (other ≡ token) ⊎ IsAsked token log
IsAsked token (revoked hash ∷ log) = IsAsked token log

owner_key-injective : (hash other : String) → owner_key hash ≡ owner_key other → hash ≡ other
owner_key-injective hash other e = append_cancel_left "queryapi:owner:" hash other e

module _ (sha256 : String → String) where
  -- The key management API was asked about this very token less than a minute before, it answered that
  -- the token is this owner's, and no revocation of the token's hash has been read since.
  abbrev pub Grounded : ℕ → String → OwnerData → List Entry → Type 0
  Grounded t token d [] = ⊥
  Grounded t token d (asked now other reply ∷ log) =
      ((other ≡ token) × (reply ≡ status 200 d) × (t < now + cache_ttl_seconds))
      ⊎ Grounded t token d log
  Grounded t token d (revoked hash ∷ log) = (hash ≢ sha256 token) × Grounded t token d log

  -- The same of what is kept under a key of the cache.
  abbrev Keyed : ℕ → String → OwnerData → List Entry → Type 0
  Keyed t key d [] = ⊥
  Keyed t key d (asked now other reply ∷ log) =
      ((owner_key (sha256 other) ≡ key) × (reply ≡ status 200 d) × (t < now + cache_ttl_seconds))
      ⊎ Keyed t key d log
  Keyed t key d (revoked hash ∷ log) = (owner_key hash ≢ key) × Keyed t key d log

  -- The keys tell tokens apart, where no other token that was asked about has this token's hash.
  Keyed-Grounded :
      (t : ℕ) (token : String) (d : OwnerData) (log : List Entry)
      → ((other : String) → IsAsked other log → sha256 other ≡ sha256 token → other ≡ token)
      → Keyed t (owner_key (sha256 token)) d log
      → Grounded t token d log
  Keyed-Grounded t token d [] distinct k = k
  Keyed-Grounded t token d (asked now other reply ∷ log) distinct (inl (e, answer, soon)) =
      inl (distinct other (inl refl) (owner_key-injective _ _ e), answer, soon)
  Keyed-Grounded t token d (asked now other reply ∷ log) distinct (inr k) =
      inr (Keyed-Grounded t token d log (λ o i e. distinct o (inr i) e) k)
  Keyed-Grounded t token d (revoked hash ∷ log) distinct (n, k) =
      (λ e. n (ap owner_key e), Keyed-Grounded t token d log distinct k)

module _ (cache : CacheOf Answer) (laws : IsCacheOf cache) (counts : FailureCache)
    (sha256 : String → String) where
  -- What the cache holds is grounded.
  abbrev Backed : Service cache counts sha256 → Type 0
  Backed s =
      (t : ℕ) (key : String) (d : OwnerData)
      → cache.get t key s.answers ≡ some (owner d)
      → Keyed sha256 t key d s.log

  keep-Backed :
      (now : ℕ) (token : String) (reply : Reply) (answer : Answer) (s : Service cache counts sha256)
      → Backed s
      → ((d : OwnerData) → answer ≡ owner d → reply ≡ status 200 d)
      → Backed (
          keep cache counts sha256 now
            (token_key cache counts sha256 token)
            answer
            (record s { log = asked now token reply ∷ s.log }))
  keep-Backed now token reply answer s backed true_answer t other d h =
      let key = token_key cache counts sha256 token in
      elim (Bool-cases (str_eq key other)) [
        | inl same ↦
            let e : key ≡ other = (eq_iff key other).0 same in
            let (e', soon) =
              laws.get-set t now cache_ttl_seconds key answer (owner d) s.answers (rw (← e) at h) in
            inl (e, true_answer d e', soon)
        | inr differs ↦
            let n : key ≢ other = λ e. cc ((eq_iff key other).1 e, differs) in
            inr (
              backed t other d
                (sym (laws.get-set_other t now cache_ttl_seconds key other answer s.answers n) ∙ h))
      ]

  asked-Backed :
      (now : ℕ) (token : String) (reply : Reply) (s : Service cache counts sha256)
      → Backed s
      → Backed (record s { log = asked now token reply ∷ s.log })
  asked-Backed now token reply s backed t other d h = inr (backed t other d h)

  accept-Backed :
      (now : ℕ) (token : String) (reply : Reply) (s : Service cache counts sha256)
      → Backed s
      → Backed
          (accept cache counts sha256 now
            (token_key cache counts sha256 token)
            reply
            (record s { log = asked now token reply ∷ s.log })).1
  accept-Backed now token unreachable s backed = asked-Backed now token unreachable s backed
  accept-Backed now token (status code body) s backed =
      go (Bool-cases ((code == 401) || (code == 403))) (Bool-cases (code == 200))
    where
      start : Service cache counts sha256
      start = record s { log = asked now token (status code body) ∷ s.log }

      go :
          (((code == 401) || (code == 403)) ≡ true) ⊎ (((code == 401) || (code == 403)) ≡ false)
          → ((code == 200) ≡ true) ⊎ ((code == 200) ≡ false)
          → Backed
              (accept cache counts sha256 now
                (token_key cache counts sha256 token)
                (status code body)
                start).1
      go (inl denied) k =
          rw denied (keep-Backed now token (status code body) invalid s backed (λ d e. cc))
      go (inr not_denied) (inl fine) = rw not_denied (
          rw fine (
            keep-Backed now token (status code body) (owner body) s backed
              (λ d e. let c : code ≡ 200 = (==_iff code 200).0 fine in cc)))
      go (inr not_denied) (inr odd) =
          rw not_denied (rw odd (asked-Backed now token (status code body) s backed))

  -- The count of attempts touches neither the answers nor the log.
  guard-same :
      (address : String) (now : ℕ) (s : Service cache counts sha256)
      → let s' = (guard_introspection_rate cache counts sha256 address now s).1 in
        (s'.answers ≡ s.answers) × (s'.log ≡ s.log)
  unfolding guard_introspection_rate
  guard-same address now s = go (counts.incr now (attempts_key address) s.attempts)
    where
      go :
          (c : Option counts.Cache)
          → let s' = (counted cache counts sha256 now (attempts_key address) c s).1 in
            (s'.answers ≡ s.answers) × (s'.log ≡ s.log)
      go none = (refl, refl)
      go (some c) = (refl, refl)

  guard-Backed :
      (address : String) (now : ℕ) (s : Service cache counts sha256)
      → Backed s
      → Backed (guard_introspection_rate cache counts sha256 address now s).1
  guard-Backed address now s backed t key d h =
      let (e, l) = guard-same address now s in rw l (backed t key d (rw e at h))

  ask-Backed :
      (now : ℕ) (token : String) (reply : Reply) (g : Bool × Service cache counts sha256)
      → Backed g.1
      → Backed (ask cache counts sha256 now token reply g).1
  ask-Backed now token reply (false, s) backed = backed
  ask-Backed now token reply (true, s) backed = accept-Backed now token reply s backed

  authenticate-Backed :
      (address : String) (now : ℕ) (token : Option String) (reply : Reply)
      (s : Service cache counts sha256)
      → Backed s
      → Backed (authenticate cache counts sha256 address now token reply s).1
  unfolding authenticate
  authenticate-Backed address now none reply s backed = backed
  authenticate-Backed address now (some token) reply s backed =
      elim (Bool-cases (str_eq token "")) [
        | inl blank ↦ rw (blank, authenticate) backed
        | inr given ↦
            rw (given, authenticate) (found (cache.get now (owner_key (sha256 token)) s.answers))
      ]
    where
      found :
          (answer : Option Answer)
          → Backed (from_cache cache counts sha256 address now token reply answer s).1
      found (some invalid) = backed
      found (some (owner body)) = backed
      found none =
          ask-Backed now token reply (guard_introspection_rate cache counts sha256 address now s)
            (guard-Backed address now s backed)

  revocation-Backed :
      (hash : Option String) (s : Service cache counts sha256)
      → Backed s
      → Backed (handle_revocation cache counts sha256 hash s)
  unfolding handle_revocation
  revocation-Backed none s backed = backed
  revocation-Backed (some hash) s backed = elim (Bool-cases (str_eq hash "")) [
    | inl blank ↦ rw (blank, handle_revocation) backed
    | inr given ↦
        rw (given, handle_revocation)
          λ t key d h. elim (Bool-cases (str_eq (owner_key hash) key)) [
            | inl same ↦
                let e : owner_key hash ≡ key = (eq_iff (owner_key hash) key).0 same in
                cc (laws.get-delete t (owner_key hash) s.answers, rw (← e) at h)
            | inr differs ↦
                let n : owner_key hash ≢ key =
                  λ e. cc ((eq_iff (owner_key hash) key).1 e, differs) in
                (
                  n,
                  backed t key d
                      (sym (laws.get-delete_other t (owner_key hash) key s.answers n) ∙ h),
                )
          ]
  ]

  serve-Backed :
      (inputs : List (Input cache counts sha256)) (s : Service cache counts sha256)
      → Backed s
      → Backed (serve cache counts sha256 inputs s)
  unfolding serve
  serve-Backed [] s backed = backed
  serve-Backed (request address now token reply ∷ inputs) s backed =
      serve-Backed inputs _ (authenticate-Backed address now token reply s backed)
  serve-Backed (revocation hash ∷ inputs) s backed =
      serve-Backed inputs _ (revocation-Backed hash s backed)

  accept-Keyed :
      (now : ℕ) (token : String) (reply : Reply) (s : Service cache counts sha256) (d : OwnerData)
      → (accept cache counts sha256 now
          (token_key cache counts sha256 token)
          reply
          (record s { log = asked now token reply ∷ s.log })).0
        ≡ ok (some d)
      → Keyed sha256 now
          (token_key cache counts sha256 token)
          d
          (accept cache counts sha256 now
            (token_key cache counts sha256 token)
            reply
            (record s { log = asked now token reply ∷ s.log })).1.log
  accept-Keyed now token unreachable s d h = cc
  accept-Keyed now token (status code body) s d h =
      go (Bool-cases ((code == 401) || (code == 403))) (Bool-cases (code == 200))
    where
      start : Service cache counts sha256
      start = record s { log = asked now token (status code body) ∷ s.log }

      go :
          (((code == 401) || (code == 403)) ≡ true) ⊎ (((code == 401) || (code == 403)) ≡ false)
          → ((code == 200) ≡ true) ⊎ ((code == 200) ≡ false)
          → Keyed sha256 now
              (token_key cache counts sha256 token)
              d
              (accept cache counts sha256 now
                (token_key cache counts sha256 token)
                (status code body)
                start).1.log
      go (inl denied) k = cc (rw denied at h)
      go (inr not_denied) (inr odd) = cc (rw (not_denied, odd) at h)
      go (inr not_denied) (inl fine) = rw not_denied (
          rw fine (
            let e : status code body ≡ status 200 d =
              let c : code ≡ 200 = (==_iff code 200).0 fine in
              let h' : ok (some body) ≡ ok (some d) = rw (not_denied, fine) at h in cc in
            inl (refl, e, omega arith)))

  -- With a cache that gives back what was set under a key, and only before its timeout, and provided
  -- that no other token that the key management API was asked about has the token's hash: whoever the
  -- query API lets in by a token, after any requests and revocations from an empty cache, the API
  -- was asked about this very token less than sixty seconds before and has answered that it is this
  -- owner's, and no revocation of the token's hash has been read since that answer.
  pub authenticate-Grounded :
      (start : Service cache counts sha256)
      → ((t : ℕ) (key : String) → cache.get t key start.answers ≡ none)
      → (inputs : List (Input cache counts sha256)) (address : String) (now : ℕ) (token : String)
        (reply : Reply) (d : OwnerData)
      → let end =
          authenticate cache counts sha256 address now
            (some token)
            reply
            (serve cache counts sha256 inputs start) in
        ((other : String) → IsAsked other end.1.log → sha256 other ≡ sha256 token → other ≡ token)
        → end.0 ≡ ok (some d)
        → Grounded sha256 now token d end.1.log
  unfolding authenticate
  authenticate-Grounded start empty inputs address now token reply d distinct h =
      Keyed-Grounded sha256 now token d _ distinct (elim (Bool-cases (str_eq token "")) [
        | inl blank ↦ cc (rw (blank, authenticate) at h)
        | inr given ↦
            rw (given, authenticate)
              (found (cache.get now key s.answers) refl (rw (given, authenticate) at h))
      ])
    where
      s : Service cache counts sha256
      s = serve cache counts sha256 inputs start

      key : String
      key = owner_key (sha256 token)

      backed : Backed s
      backed = serve-Backed inputs start (λ t k o e. cc (empty t k))

      asks :
          (g : Bool × Service cache counts sha256)
          → (ask cache counts sha256 now token reply g).0 ≡ ok (some d)
          → Keyed sha256 now key d (ask cache counts sha256 now token reply g).1.log
      asks (false, g) e = cc
      asks (true, g) e = accept-Keyed now token reply g d e

      found :
          (answer : Option Answer)
          → cache.get now key s.answers ≡ answer
          → (from_cache cache counts sha256 address now token reply answer s).0 ≡ ok (some d)
          → Keyed sha256 now key d
              (from_cache cache counts sha256 address now token reply answer s).1.log
      found (some invalid) e ok' = cc
      found (some (owner body)) e ok' =
          let same : body ≡ d = ground arith in backed now key d (rw (← same) e)
      found none e ok' = asks (guard_introspection_rate cache counts sha256 address now s) ok'
