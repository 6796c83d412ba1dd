-- ===== src/Registry/Logins/Counting.antt =====
-- The count of failed attempts in the cache, and how many there can be in a window.
use meshtastic_things.Prelude.{
  ℕ, ◌+◌, ◌<◌, ◌≤◌, String, false, ◌≡◌, none, some, List, [], ◌∷◌, arith, All,
}
use native.Mathlib.Nat.{add_comm, zero-add}
use meshtastic_things.Registry.Logins.{FailureCache, record_failed_attempt, is_throttled}

-- What Django documents of its cache: a value set is there until its timeout, and `incr` adds one to
-- a value that is there, and leaves its timeout alone.
pub record IsCache (cache : FailureCache) : Type 0 where
  pub get-set :
      (now timeout n t : ℕ) (key : String) (c : cache.Cache)
      → t < now + timeout
      → cache.get t key (cache.set now key n timeout c) ≡ some n
  pub incr-present :
      (now n : ℕ) (key : String) (c : cache.Cache)
      → cache.get now key c ≡ some n
      → (c' : cache.Cache) × (cache.incr now key c ≡ some c')
        × ((t m : ℕ) → cache.get t key c ≡ some m → cache.get t key c' ≡ some (m + 1))
  pub incr-missing :
      (now : ℕ) (key : String) (c : cache.Cache)
      → cache.get now key c ≡ none
      → cache.incr now key c ≡ none

later :
    (window start t : ℕ) (ts : List ℕ)
    → start ≤ t
    → All (λ u. (start ≤ u) × (u < start + window)) ts
    → All (λ u. u < t + window) ts
later window start t [] h all = tt
later window start t (u ∷ ts) h (now, all) = (omega arith, later window start t ts h all)

module _ (cache : FailureCache) (laws : IsCache cache) where
  open cache use {Cache, get}

  -- Until `end` the key has the value `n`.
  abbrev Counts : String → ℕ → ℕ → Cache → Type 0
  Counts key n end c = (t : ℕ) → t < end → get t key c ≡ some n

  recorded :
      (window now n end : ℕ) (key : String) (c : Cache)
      → now < end
      → Counts key n end c
      → Counts key (n + 1) end (record_failed_attempt cache window now key c)
  unfolding record_failed_attempt
  recorded window now n end key c soon h =
      let (c', e, more) = laws.incr-present now n key c (h now soon) in
      λ t before. rw (e, record_failed_attempt) (more t n (h t before))

  first_recorded :
      (window now : ℕ) (key : String) (c : Cache)
      → get now key c ≡ none
      → Counts key 1 (now + window) (record_failed_attempt cache window now key c)
  unfolding record_failed_attempt
  first_recorded window now key c missing = λ t before.
      rw (laws.incr-missing now key c missing, record_failed_attempt)
        (laws.get-set now window 1 t key c before)

  -- A sequence of attempts at the given times, of which a number fails and is counted; the others
  -- are refused or succeed.
  pub data Tries (limit window : ℕ) (key : String) : List ℕ → Cache → ℕ → Type 0 where
    done : (c : Cache) → Tries limit window key [] c 0
    quiet :
        (t : ℕ) (ts : List ℕ) (c : Cache) (n : ℕ)
        → Tries limit window key ts c n
        → Tries limit window key (t ∷ ts) c n
    failed :
        (t : ℕ) (ts : List ℕ) (c : Cache) (n : ℕ)
        → is_throttled cache limit t key c ≡ false
        → Tries limit window key ts (record_failed_attempt cache window t key c) n
        → Tries limit window key (t ∷ ts) c (n + 1)

  pub quiet_of :
      {limit window n f : ℕ} {key : String} (t : ℕ) (ts : List ℕ) (c c' : Cache)
      → f ≡ 0
      → c' ≡ c
      → Tries limit window key ts c' n
      → Tries limit window key (t ∷ ts) c (f + n)
  quiet_of t ts c c' f same r = rw (f, zero-add, ← same) (quiet t ts c' _ r)

  pub failed_of :
      {limit window n f : ℕ} {key : String} (t : ℕ) (ts : List ℕ) (c c' : Cache)
      → f ≡ 1
      → c' ≡ record_failed_attempt cache window t key c
      → is_throttled cache limit t key c ≡ false
      → Tries limit window key ts c' n
      → Tries limit window key (t ∷ ts) c (f + n)
  failed_of t ts c c' f same open' r = rw (f, add_comm 1 _) (failed t ts c _ open' (rw (← same) r))

  module _ (limit window : ℕ) (key : String) where
    below :
        (t k : ℕ) (c : Cache)
        → is_throttled cache limit t key c ≡ false
        → get t key c ≡ some k
        → k < limit
    below t k c open' e = ground arith

    Tries-bounded :
        (end k : ℕ) (ts : List ℕ) (c : Cache) (n : ℕ)
        → Tries limit window key ts c n
        → All (λ t. t < end) ts
        → k ≤ limit
        → Counts key k end c
        → n + k ≤ limit
    Tries-bounded end k _ _ _ (done c) soon low h = omega arith
    Tries-bounded end k _ _ _ (quiet t ts c n r) (_, soon) low h =
        Tries-bounded end k ts c n r soon low h
    Tries-bounded end k _ _ _ (failed t ts c n open' r) (now, soon) low h =
        let free = below t k c open' (h t now) in
        let more =
          Tries-bounded end (k + 1) ts (record_failed_attempt cache window t key c) n r soon
            (omega arith) (recorded window t k end key c now h) in
        omega arith

    pub Tries-limited :
        (start : ℕ) (ts : List ℕ) (c : Cache) (n : ℕ)
        → Tries limit window key ts c n
        → All (λ t. (start ≤ t) × (t < start + window)) ts
        → 1 ≤ limit
        → ((t : ℕ) → start ≤ t → get t key c ≡ none)
        → n ≤ limit
    Tries-limited start _ _ _ (done c) within some' none' = omega arith
    Tries-limited start _ _ _ (quiet t ts c n r) (_, within) some' none' =
        Tries-limited start ts c n r within some' none'
    Tries-limited start _ _ _ (failed t ts c n open' r) (now, within) some' none' =
        Tries-bounded (t + window) 1 ts (record_failed_attempt cache window t key c) n r
          (later window start t ts now.0 within) some'
          (first_recorded window t key c (none' t now.0))
