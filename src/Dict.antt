-- ===== src/Dict.antt =====
-- Dictionaries with text keys that the program reads and writes by key and never iterates over:
-- the broadcast state of a stream job, a cache, the state of the decode consumer.
use meshtastic_things.Prelude.{String, Option, none, some, str_eq, if◌then◌else◌}

abbrev pub Dict {ℓ} : Type ℓ → Type ℓ
Dict V = String → Option V

module _ {ℓ} {V : Type ℓ} where
  abbrev pub empty : Dict V
  empty k = none

  -- `d[k] = v`, `state.put(k, v)`
  abbrev pub put : String → V → Dict V → Dict V
  put k v d j = if str_eq k j then some v else d j

  -- `d.pop(k, None)`, `state.remove(k)`, `cache.delete(k)`
  abbrev pub remove : String → Dict V → Dict V
  remove k d j = if str_eq k j then none else d j
