-- ===== src/Registry/Requests/Ends.antt =====
-- What holds when a handler ends: one condition for a response, and one for an exception. A rule
-- for each way to build a handler; the rule of a read carries what the read has found.
use meshtastic_things.Prelude.{
  arith, Bool, true, false, ◌≡◌, refl, Option, some, Option-cases, inl, inr,
}
use meshtastic_things.Registry.Requests.{
  Fault, Result, ok, raise, Handler, respond, abort, lookup_or, gets, ensure, write, continue,
  ◌>>=◌,
}

module _ {S A : Type 0} where
  abbrev pub Outcome : (S → Type 0) → (A → S → Type 0) → Result A × S → Type 0
  Outcome E Q (ok a, w) = Q a w
  Outcome E Q (raise f, w) = E w

pub record Ends {S A : Type 0} (E : S → Type 0) (Q : A → S → Type 0) (end : Result A × S)
    : Type 0 where
  pub at : Outcome E Q end

module _ {S A : Type 0} {E : S → Type 0} {Q : A → S → Type 0} where
  pub Ends-respond : (a : A) (w : S) → Q a w → Ends E Q (respond a w)
  unfolding respond
  Ends-respond a w h = record { at = h }

  pub Ends-get : (query : S → A) (w : S) → Q (query w) w → Ends E Q (gets query w)
  unfolding gets
  Ends-get query w h = record { at = h }

  pub Ends-abort : (f : Fault) (w : S) → E w → Ends E Q (abort f w)
  unfolding abort
  Ends-abort f w h = record { at = h }

module _ {S : Type 0} {E : S → Type 0} {Q : Unit {0} → S → Type 0} where
  pub Ends-write : (change : S → S) (w : S) → Q tt (change w) → Ends E Q (write change w)
  unfolding write
  Ends-write change w h = record { at = h }

  pub Ends-ensures :
      (w : S) (b : Bool) (e : Fault) → E w → (b ≡ true → Q tt w) → Ends E Q (ensure b e w)
  unfolding ensure
  Ends-ensures w true e h k = record { at = k refl }
  Ends-ensures w false e h k = record { at = h }

module _ {S A B : Type 0} {E : S → Type 0} {Q : B → S → Type 0} (f : A → Handler S B) (w : S) where
  pub Ends-bind :
      (m : Handler S A) (R : A → S → Type 0)
      → Ends E R (m w)
      → ((a : A) (w' : S) → R a w' → Ends E Q (f a w'))
      → Ends E Q ((m >>= f) w)
  unfolding ◌>>=◌
  Ends-bind m R h k = let (r, w') = m w in go r w' h.at
    where
      go : (r : Result A) (w' : S) → Outcome E R (r, w') → Ends E Q (continue r f w')
      go (ok a) w' h' = k a w' h'
      go (raise e) w' h' = record { at = h' }

  pub Ends-lookup :
      (e : Fault) (query : S → Option A)
      → E w
      → ((a : A) → query w ≡ some a → Ends E Q (f a w))
      → Ends E Q ((lookup_or e query >>= f) w)
  unfolding ◌>>=◌
  Ends-lookup e query h k = elim (Option-cases (query w)) [
    | inl missing ↦ rw missing (record { at = h })
    | inr (a, found) ↦ rw found (k a found)
  ]

  pub Ends-gets : (query : S → A) → Ends E Q (f (query w) w) → Ends E Q ((gets query >>= f) w)
  unfolding ◌>>=◌
  Ends-gets query k = k

module _ {S B : Type 0} {E : S → Type 0} {Q : B → S → Type 0} (f : Unit {0} → Handler S B)
    (w : S) where
  pub Ends-ensure :
      (b : Bool) (e : Fault)
      → E w
      → (b ≡ true → Ends E Q (f tt w))
      → Ends E Q ((ensure b e >>= f) w)
  unfolding ◌>>=◌
  Ends-ensure true e h k = k refl
  Ends-ensure false e h k = record { at = h }

  pub Ends-bind_write :
      (change : S → S) → Ends E Q (f tt (change w)) → Ends E Q ((write change >>= f) w)
  unfolding ◌>>=◌
  Ends-bind_write change k = k

module _ {S A : Type 0} {E : S → Type 0} where
  -- What holds of either end holds of the state that is left.
  pub Ends-either : (end : Result A × S) → Ends E (λ _. E) end → E end.1
  Ends-either (ok a, w) h = h.at
  Ends-either (raise f, w) h = h.at

module _ {S A : Type 0} {E : S → Type 0} {Q : A → S → Type 0} where
  pub Ends-ok : (end : Result A × S) (a : A) → Ends E Q end → end.0 ≡ ok a → Q a end.1
  Ends-ok (ok b, w) a h e = let same : b ≡ a = ground arith in rw (← same) h.at
  Ends-ok (raise f, w) a h e = cc
