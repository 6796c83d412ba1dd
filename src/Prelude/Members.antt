-- ===== src/Prelude/Members.antt =====
-- Membership in a list, and what the list operations of the tables keep of it.
use mathlib.Core.Path.{◌≡◌, refl, sym}
use mathlib.Core.Logic.{◌⊎◌, inl, inr}
use mathlib.Core.Bool.{Bool, true, false}
use mathlib.Core.Option.{none, some}
use mathlib.Core.List.{List, [], ◌∷◌, ◌++◌, map}
use native.Mathlib.Omega.{arith}
use meshtastic_things.Prelude.Tests.{Bool-cases}
use meshtastic_things.Prelude.Lists.{select, find, any}

abbrev pub In : {A : Type 0} → A → List A → Type 0
In x [] = ⊥
In x (y ∷ ys) = (x ≡ y) ⊎ In x ys

module _ {A : Type 0} where
  pub In-append : (x : A) (xs ys : List A) → In x (xs ++ ys) → In x xs ⊎ In x ys
  In-append x [] ys h = inr h
  In-append x (y ∷ xs) ys (inl e) = inl (inl e)
  In-append x (y ∷ xs) ys (inr h) = elim (In-append x xs ys h) [
    | inl a ↦ inl (inr a)
    | inr b ↦ inr b
  ]

  pub In-append_left : (x : A) (xs ys : List A) → In x xs → In x (xs ++ ys)
  In-append_left x [] ys h = absurd h
  In-append_left x (y ∷ xs) ys (inl e) = inl e
  In-append_left x (y ∷ xs) ys (inr h) = inr (In-append_left x xs ys h)

  pub In-append_right : (x : A) (xs ys : List A) → In x ys → In x (xs ++ ys)
  In-append_right x [] ys h = h
  In-append_right x (y ∷ xs) ys h = inr (In-append_right x xs ys h)

  pub In-select : (p : A → Bool) (x : A) (xs : List A) → In x (select p xs) → In x xs × (p x ≡ true)
  In-select p x [] h = absurd h
  In-select p x (y ∷ xs) h = elim (Bool-cases (p y)) [
    | inl kept ↦
        let h' : In x (y ∷ select p xs) = rw kept at h in
        elim h' [
          | inl e ↦ (inl e, rw e kept)
          | inr r ↦ let (a, b) = In-select p x xs r in (inr a, b)
        ]
    | inr gone ↦
        let h' : In x (select p xs) = rw gone at h in let (a, b) = In-select p x xs h' in (inr a, b)
  ]

  pub In-select_of :
      (p : A → Bool) (x : A) (xs : List A) → In x xs → p x ≡ true → In x (select p xs)
  In-select_of p x [] h e = absurd h
  In-select_of p x (y ∷ xs) (inl same) e = let e' : p y ≡ true = rw same at e in rw e' (inl same)
  In-select_of p x (y ∷ xs) (inr h) e = elim (Bool-cases (p y)) [
    | inl kept ↦ rw kept (inr (In-select_of p x xs h e))
    | inr gone ↦ rw gone (In-select_of p x xs h e)
  ]

  pub In-find : (p : A → Bool) (x : A) (xs : List A) → find p xs ≡ some x → In x xs × (p x ≡ true)
  In-find p x [] h = cc
  In-find p x (y ∷ xs) h = elim (Bool-cases (p y)) [
    | inl hit ↦ let e : y ≡ x = ground arith in (inl (sym e), rw (← e) hit)
    | inr miss ↦ let (a, b) = In-find p x xs (ground arith) in (inr a, b)
  ]

  pub find-none : (p : A → Bool) (x : A) (xs : List A) → find p xs ≡ none → In x xs → p x ≡ false
  find-none p x [] h i = absurd i
  find-none p x (y ∷ xs) h (inl e) = rw e (ground arith)
  find-none p x (y ∷ xs) h (inr i) = find-none p x xs (ground arith) i

  pub any-false : (p : A → Bool) (x : A) (xs : List A) → any p xs ≡ false → In x xs → p x ≡ false
  any-false p x [] h i = absurd i
  any-false p x (y ∷ xs) h (inl e) = rw e (ground arith)
  any-false p x (y ∷ xs) h (inr i) = any-false p x xs (ground arith) i

module _ {A B : Type 0} where
  pub In-map : (f : A → B) (y : B) (xs : List A) → In y (map f xs) → (x : A) × (y ≡ f x) × In x xs
  In-map f y [] h = absurd h
  In-map f y (x ∷ xs) (inl e) = (x, e, inl refl)
  In-map f y (x ∷ xs) (inr h) = let (x', e, i) = In-map f y xs h in (x', e, inr i)

  pub In-map_of : (f : A → B) (x : A) (xs : List A) → In x xs → In (f x) (map f xs)
  In-map_of f x [] h = absurd h
  In-map_of f x (y ∷ xs) (inl e) = inl (rw e)
  In-map_of f x (y ∷ xs) (inr h) = inr (In-map_of f x xs h)
