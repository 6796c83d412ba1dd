-- ===== src/Registry/Requests.antt =====
-- A request handler: it reads and writes the tables and the topics, and returns a response or
-- raises an API exception; what it wrote before raising stays written (the settings have no
-- ATOMIC_REQUESTS).
pub mod Ends
use meshtastic_things.Prelude.{Bool, Option, none, some, if◌then◌else◌}

pub data Fault : Type 0 where
  validation_error not_authenticated permission_denied not_found conflict throttled bad_gateway :
      Fault
  authentication_failed parse_error server_error : Fault

pub data Result (A : Type 0) : Type 0 where
  ok : A → Result A
  raise : Fault → Result A

abbrev pub Handler : Type 0 → Type 0 → Type 0
Handler S A = S → Result A × S

module _ {S A : Type 0} where
  unfoldable pub respond : A → Handler S A
  respond a w = (ok a, w)

  unfoldable pub abort : Fault → Handler S A
  abort f w = (raise f, w)

  unfoldable pub lookup_or : Fault → (S → Option A) → Handler S A
  lookup_or f query w = (elim (query w) [ none ↦ raise f | some a ↦ ok a ], w)

  unfoldable pub gets : (S → A) → Handler S A
  gets query w = (ok (query w), w)

module _ {S : Type 0} where
  unfoldable pub ensure : Bool → Fault → Handler S (Unit {0})
  ensure b f w = (if b then ok tt else raise f, w)

  unfoldable pub write : (S → S) → Handler S (Unit {0})
  write change w = (ok tt, change w)

module _ {S A B : Type 0} where
  abbrev pub continue : Result A → (A → Handler S B) → Handler S B
  continue (ok a) f w = f a w
  continue (raise e) f w = (raise e, w)

  infixl 5 ◌>>=◌ ◌>>◌
  -- Opening this opens the actions above too.
  unfoldable pub ◌>>=◌ : Handler S A → (A → Handler S B) → Handler S B
  unfolding respond abort lookup_or gets ensure write
  ◌>>=◌ m f w = let (r, w') = m w in continue r f w'

  abbrev pub ◌>>◌ : Handler S A → Handler S B → Handler S B
  m >> n = m >>= λ _. n
