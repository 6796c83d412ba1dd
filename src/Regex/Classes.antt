-- ===== src/Regex/Classes.antt =====
-- A character that no class of an expression has is not in a text that matches.
use mathlib.Core.List.{flat_map}
use native.Mathlib.Nat.{zero-add}
use meshtastic_things.Prelude.{
  ℕ, ◌+◌, Bool, true, false, ◌≡◌, refl, sym, ◌∙◌, inl, inr, List, [], ◌∷◌, ◌++◌, arith, ◌==◌, any,
  Bool-cases, if◌then◌else◌,
}
use meshtastic_things.Prelude.Members.{In, In-append}
use meshtastic_things.Regex.{
  Text, Re, one, many, seq, alt, opt, many_rests, one_rests, rests, at_end, matches,
}

-- How often a character stands in a text.
abbrev pub count : ℕ → Text → ℕ
count c [] = 0
count c (d ∷ s) = (if d == c then 1 else 0) + count c s

pub count-append : (c : ℕ) (s t : Text) → count c (s ++ t) ≡ count c s + count c t
count-append c [] t = omega arith
count-append c (d ∷ s) t = omega (arith, count-append c s t)

abbrev pub Outside : ℕ → Re → Type 0
Outside c (one p) = p c ≡ false
Outside c (many p) = p c ≡ false
Outside c (seq a b) = Outside c a × Outside c b
Outside c (alt a b) = Outside c a × Outside c b
Outside c (opt a) = Outside c a

pub In-flat_map :
    {A B : Type 0} (f : A → List B) (y : B) (xs : List A)
    → In y (flat_map f xs)
    → (x : A) × In x xs × In y (f x)
unfolding flat_map
In-flat_map f y [] h = absurd h
In-flat_map f y (x ∷ xs) h = elim (In-append y (f x) (flat_map f xs) h) [
  | inl i ↦ (x, inl refl, i)
  | inr j ↦ let (x', k, i) = In-flat_map f y xs j in (x', inr k, i)
]

pub In-any :
    {A : Type 0} (p : A → Bool) (xs : List A) → any p xs ≡ true → (x : A) × In x xs × (p x ≡ true)
In-any p [] h = cc
In-any p (x ∷ xs) h = elim (Bool-cases (p x)) [
  | inl hit ↦ (x, inl refl, hit)
  | inr miss ↦ let (y, i, e) = In-any p xs (ground arith) in (y, inr i, e)
]

module _ (c : ℕ) where
  other : (p : ℕ → Bool) (d : ℕ) → p c ≡ false → p d ≡ true → (d == c) ≡ false
  other p d out hit = elim (Bool-cases (d == c)) [
    | inr differs ↦ differs
    | inl same ↦ let e : d ≡ c = ground arith in cc (rw e at hit)
  ]

  many-count :
      (p : ℕ → Bool) (s t : Text) → p c ≡ false → In t (many_rests p s) → count c t ≡ count c s
  unfolding many_rests
  many-count p [] t out i = absurd i
  many-count p (d ∷ s) t out i = elim (Bool-cases (p d)) [
    | inr miss ↦ absurd (rw miss at i)
    | inl hit ↦
        let n = other p d out hit in
        let i' : In t (many_rests p s ++ s ∷ []) = rw hit at i in
        elim (In-append t (many_rests p s) (s ∷ []) i') [
          | inl j ↦ rw (n, zero-add) (many-count p s t out j)
          | inr (inl e) ↦ rw (e, n, zero-add) refl
          | inr (inr none') ↦ absurd none'
        ]
  ]

  one-count :
      (p : ℕ → Bool) (s t : Text) → p c ≡ false → In t (one_rests p s) → count c t ≡ count c s
  unfolding one_rests
  one-count p [] t out i = absurd i
  one-count p (d ∷ s) t out i = elim (Bool-cases (p d)) [
    | inr miss ↦ absurd (rw miss at i)
    | inl hit ↦
        let n = other p d out hit in
        let i' : In t (s ∷ []) = rw hit at i in
        elim i' [ inl e ↦ rw (e, n, zero-add) refl | inr none' ↦ absurd none' ]
  ]

  rests-count : (r : Re) (s t : Text) → Outside c r → In t (rests r s) → count c t ≡ count c s
  unfolding rests
  rests-count (one p) s t out i = one-count p s t out i
  rests-count (many p) s t out i = many-count p s t out i
  rests-count (seq a b) s t (out, out') i =
      let (u, j, k) = In-flat_map (rests b) t (rests a s) i in
      rests-count b u t out' k ∙ rests-count a s u out j
  rests-count (alt a b) s t (out, out') i = elim (In-append t (rests a s) (rests b s) i) [
    | inl j ↦ rests-count a s t out j
    | inr j ↦ rests-count b s t out' j
  ]
  rests-count (opt a) s t out i = elim (In-append t (rests a s) (s ∷ []) i) [
    | inl j ↦ rests-count a s t out j
    | inr (inl e) ↦ rw e refl
    | inr (inr none') ↦ absurd none'
  ]

  end-count : (t : Text) → (c == 10) ≡ false → at_end t ≡ true → count c t ≡ 0
  end-count [] n h = refl
  end-count (d ∷ []) n h = ground arith
  end-count (d ∷ e ∷ t) n h = cc

  -- A character that is in no class, and no newline, is not in a text that matches.
  pub matches-count :
      (r : Re) (s : Text) → Outside c r → (c == 10) ≡ false → matches r s ≡ true → count c s ≡ 0
  unfolding matches
  matches-count r s out n h =
      let (t, i, end) = In-any at_end (rests r s) h in
      sym (rests-count r s t out i) ∙ end-count t n end
