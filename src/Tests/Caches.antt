-- ===== src/Tests/Caches.antt =====
-- A cache in memory, and the theorems on what is cached: answers of the key management API, and the
-- cooldowns of mails.
use meshtastic_things.Prelude.{
  ℕ, ◌+◌, ◌<◌, ltb, String, Bool, true, false, ◌≡◌, ◌≢◌, refl, sym, Option, none, some, List, [],
  ◌∷◌, arith, str_eq, eq_iff, eq_refl, Bool-cases, inl, inr, if◌then◌else◌, fstring,
}
use meshtastic_things.Dict.{Dict, put, remove}
use meshtastic_things.Cache.{CacheOf, IsCacheOf}
use meshtastic_things.Registry.Requests.{ok}
use meshtastic_things.Registry.Logins.{FailureCache}
use meshtastic_things.Registry.Models.{World}
use meshtastic_things.Registry.Alarms.{AlarmEvent, consume_alarms}
use meshtastic_things.Registry.Alarms.Cooldown.{Apart, consume_alarms-Apart}
use meshtastic_things.Query.Introspection.{
  OwnerData, status, unreachable, Service, Input, request, authenticate, serve,
  guard_introspection_rate,
}
use meshtastic_things.Query.Introspection.Freshness.{Grounded, IsAsked, authenticate-Grounded}
use meshtastic_things.Tests.Data.{world}

differs : (key other : String) → key ≢ other → str_eq key other ≡ false
differs key other n = elim (Bool-cases (str_eq key other)) [
  | inl same ↦ absurd (n ((eq_iff key other).0 same))
  | inr d ↦ d
]

module _ {V : Type 0} where
  abbrev pub live : ℕ → Option (V × ℕ) → Option V
  live t none = none
  live t (some (v, end)) = if ltb t end then some v else none

  abbrev pub add_to : String → V → ℕ → Dict (V × ℕ) → Option V → Dict (V × ℕ) × Bool
  add_to key v end c (some w) = (c, false)
  add_to key v end c none = (put key (v, end) c, true)

  abbrev pub memory : CacheOf V
  memory = record {
    Cache = Dict (V × ℕ);
    get = λ t key c. live t (c key);
    set = λ now key v timeout c. put key (v, now + timeout) c;
    add = λ now key v timeout c. add_to key v (now + timeout) c (live now (c key));
    delete = remove;
  }

  read : (t end : ℕ) (v v' : V) → live t (some (v, end)) ≡ some v' → (v ≡ v') × (t < end)
  read t end v v' h = ground arith

  memory-IsCacheOf : IsCacheOf memory
  memory-IsCacheOf = record {
    get-set = λ t now timeout key v v' c h. read t (now + timeout) v v' (rw (eq_refl key) at h);
    get_until = λ t now timeout key v c soon. rw (eq_refl key) (ground arith);
    get-set_other = λ t now timeout key other v c n. rw (differs key other n) refl;
    get-delete = λ t key c. rw (eq_refl key) refl;
    get-delete_other = λ t key other c n. rw (differs key other n) refl;
    add-missing = λ now timeout key v c h. rw h refl;
    add-present = λ now timeout key v w c h. rw h refl;
  }

-- Two alarms about one thing, two minutes apart, and a third an hour later.
abbrev alarm : AlarmEvent
alarm = record {
  detector = some "absence";
  mesh_id = some "mesh-1";
  device_id = some 255;
  channel = some "device_metrics.voltage";
  message = none;
}

abbrev alarms : List (ℕ × World × AlarmEvent)
alarms = (100, world, alarm) ∷ (220, world, alarm) ∷ (3700, world, alarm) ∷ []

consume_alarms-Apart_example :
    Apart memory memory-IsCacheOf 3600
      (consume_alarms memory 3600 alarms (record { cooldowns = λ k. none; mails = [] })).mails
consume_alarms-Apart_example = consume_alarms-Apart memory memory-IsCacheOf 3600 alarms (λ k. none)

-- An owner is asked about, and let in from the cache half a minute later.
abbrev counts : FailureCache
counts = record {
  Cache = Unit {0};
  get = λ t key c. none;
  incr = λ t key c. none;
  set = λ t key n timeout c. c;
}

abbrev sha256 : String → String
sha256 token = fstring ("hash of " ∷ token ∷ [])

abbrev ann_data : OwnerData
ann_data = record { id = "owner-1"; email = "ann@example.org"; is_superuser = false; devices = [] }

abbrev start : Service memory counts sha256
start = record { answers = λ k. none; attempts = tt; log = [] }

abbrev inputs : List (Input memory counts sha256)
inputs = request "10.0.0.1" 100 (some "token") (status 200 ann_data) ∷ []

let_in :
    (authenticate memory counts sha256 "10.0.0.1" 130
      (some "token")
      unreachable
      (serve memory counts sha256 inputs start)).0
    ≡ ok (some ann_data)
unfolding authenticate serve guard_introspection_rate
let_in = refl

only_token :
    (other : String)
    → IsAsked other
        (authenticate memory counts sha256 "10.0.0.1" 130
          (some "token")
          unreachable
          (serve memory counts sha256 inputs start)).1.log
    → sha256 other ≡ sha256 "token"
    → other ≡ "token"
unfolding authenticate serve guard_introspection_rate
only_token other (inl e) h = sym e
only_token other (inr i) h = absurd i

authenticate-Grounded_example :
    Grounded sha256 130 "token" ann_data
      (authenticate memory counts sha256 "10.0.0.1" 130
        (some "token")
        unreachable
        (serve memory counts sha256 inputs start)).1.log
authenticate-Grounded_example =
    authenticate-Grounded memory memory-IsCacheOf counts sha256 start (λ t key. refl) inputs
      "10.0.0.1" 130 "token" unreachable ann_data only_token let_in
