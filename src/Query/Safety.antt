-- ===== src/Query/Safety.antt =====
-- What a caller's text can put into a query.
use meshtastic_things.Prelude.{
  ◌≢◌, any, ℕ, zero, suc, ◌<◌, Bool, true, false, ◌≡◌, refl, ◌⊎◌, inl, inr, none, some, List, [],
  ◌∷◌, arith, ◌==◌, show, Bool-cases, All, digit_char, render, digits, if◌then◌else◌,
}
use Prim.Native.Char.{code}
use meshtastic_things.Prelude.Numerals.{digits_from_bounded}
use meshtastic_things.Prelude.Members.{In}
use meshtastic_things.Regex.{Text, codes, matches}
use meshtastic_things.Regex.Classes.{count, Outside, matches-count, In-any}
use meshtastic_things.Query.{
  Platform, eq_text, is_ident, ident_re, allowed_agg, duration_re, validate_ident,
  validate_range_bound, validate_agg, absolute_bound, strip, absolute_re, normalized,
}

-- A character that no identifier, number or timestamp has: a quotation mark, a pipe, a brace.
pub record IsForeign (py : Platform) (c : ℕ) : Type 0 where
  pub ident : is_ident c ≡ false
  pub line_end : (c == 10) ≡ false
  pub now : count c (codes "now()") ≡ 0
  pub decimal : py.decimal c ≡ none
  -- uuid.UUID to text has hexadecimal digits and hyphens, and a timestamp digits, hyphens, colons, T and Z.
  pub uuid : (s t : Text) → py.canonical_uuid s ≡ some t → count c t ≡ 0
  pub instant : (s t : Text) → py.canonical_instant s ≡ some t → count c t ≡ 0

eq_text-eq : (s t : Text) → eq_text s t ≡ true → s ≡ t
eq_text-eq [] [] h = refl
eq_text-eq [] (d ∷ t) h = cc
eq_text-eq (c ∷ s) [] h = cc
eq_text-eq (c ∷ s) (d ∷ t) h =
    let e : c ≡ d = ground arith in let ih = eq_text-eq s t (ground arith) in cc

idents : ℕ → Bool
unfolding is_ident
idents zero = true
idents (suc d) = if is_ident (code (digit_char d)) then idents d else false

hexadecimal_idents : idents 16 ≡ true
unfolding idents
hexadecimal_idents = refl

idents-below :
    (bound d : ℕ) → d < bound → idents bound ≡ true → is_ident (code (digit_char d)) ≡ true
unfolding idents
idents-below zero d lt fine = absurd (omega arith)
idents-below (suc bound) d lt fine = elim (Bool-cases (is_ident (code (digit_char bound)))) [
  | inl good ↦
      let rest : idents bound ≡ true = simp good at fine in
      elim (Bool-cases (d == bound)) [
        | inl last ↦ let e : d ≡ bound = ground arith in rw e good
        | inr earlier ↦ idents-below bound d (ground arith) rest
      ]
  | inr bad ↦ cc (simp bad at fine)
]

digit_is_ident : (d : ℕ) → d < 16 → is_ident (code (digit_char d)) ≡ true
digit_is_ident d h = idents-below 16 d h hexadecimal_idents

pub ident-nonempty : (s t : Text) → validate_ident s ≡ some t → t ≢ []
unfolding validate_ident matches
ident-nonempty [] t h = cc
ident-nonempty (d ∷ s) t h = elim (Bool-cases (matches ident_re (d ∷ s))) [
  | inl good ↦ let e : d ∷ s ≡ t = ground arith in λ empty. cc
  | inr bad ↦ cc (rw bad at h)
]

module _ (py : Platform) (c : ℕ) (foreign : IsForeign py c) where
  -- An identifier has no such character.
  pub all_ident : (s : Text) → All (λ d. is_ident d ≡ true) s → count c s ≡ 0
  all_ident [] h = refl
  all_ident (d ∷ s) (h, hs) =
      let ih = all_ident s hs in
      elim (Bool-cases (d == c)) [
        | inr differs ↦ rw differs (omega (arith, all_ident s hs))
        | inl same ↦
            let e : d ≡ c = ground arith in
            let bad : is_ident c ≡ true = rw e at h in cc (bad, foreign.ident)
      ]

  pub ident-count : (s t : Text) → validate_ident s ≡ some t → count c t ≡ 0
  unfolding validate_ident
  ident-count s t h = elim (Bool-cases (matches ident_re s)) [
    | inr bad ↦ cc (rw bad at h)
    | inl good ↦
        let e : s ≡ t = ground arith in
        rw (← e) (matches-count c ident_re s foreign.ident foreign.line_end good)
  ]

  unlike : (d : ℕ) → is_ident d ≡ true → (c == d) ≡ false
  unlike d h = elim (Bool-cases (c == d)) [
    | inr differs ↦ differs
    | inl same ↦
        let e : d ≡ c = ground arith in
        let bad : is_ident c ≡ true = rw e at h in cc (bad, foreign.ident)
  ]

  duration-Outside : Outside c (duration_re py)
  unfolding is_ident
  duration-Outside = (
    unlike b'-' refl,
    (
      rw foreign.decimal refl,
      (
        (unlike b'm' refl, unlike b's' refl),
        (
          unlike b's' refl,
          (
            unlike b'm' refl,
            (
              unlike b'h' refl,
              (
                unlike b'd' refl,
                (unlike b'w' refl, ((unlike b'm' refl, unlike b'o' refl), unlike b'y' refl)),
              ),
            ),
          ),
        ),
      ),
    ),
  )

  pub duration-count : (s : Text) → matches (duration_re py) s ≡ true → count c s ≡ 0
  duration-count s h = matches-count c (duration_re py) s duration-Outside foreign.line_end h

  absolute-count : (s t : Text) → absolute_bound py s ≡ some t → count c t ≡ 0
  unfolding absolute_bound
  absolute-count s t h = elim (Bool-cases (matches (absolute_re py) s)) [
    | inl good ↦ foreign.instant (normalized py s) t (rw good at h)
    | inr bad ↦ cc (rw bad at h)
  ]

  pub bound-count : (s t : Text) → validate_range_bound py s ≡ some t → count c t ≡ 0
  unfolding validate_range_bound
  bound-count s t h =
      go (Bool-cases (eq_text (strip py s) (codes "now()")))
        (Bool-cases (matches (duration_re py) (strip py s)))
    where
      go :
          (eq_text (strip py s) (codes "now()") ≡ true)
            ⊎ (eq_text (strip py s) (codes "now()") ≡ false)
          → (matches (duration_re py) (strip py s) ≡ true)
            ⊎ (matches (duration_re py) (strip py s) ≡ false)
          → count c t ≡ 0
      go (inl now) d =
          let e : strip py s ≡ t = ground arith in
          rw (← e) (rw (eq_text-eq (strip py s) (codes "now()") now) foreign.now)
      go (inr other) (inl duration) =
          let e : strip py s ≡ t = ground arith in rw (← e) (duration-count (strip py s) duration)
      go (inr other) (inr neither) = absolute-count (strip py s) t (ground arith)

  pub agg-count : (s t : Text) → validate_agg s ≡ some t → count c t ≡ 0
  unfolding validate_agg is_ident
  agg-count s t h = elim (Bool-cases (any (eq_text s) allowed_agg)) [
    | inr bad ↦ cc (rw bad at h)
    | inl good ↦
        let e : s ≡ t = ground arith in
        let (word, i, same) = In-any (eq_text s) allowed_agg good in
        let e' : s ≡ word = eq_text-eq s word same in
        rw (← e) (rw e' (all_ident word (words word i)))
  ]
    where
      words : (word : Text) → In word allowed_agg → All (λ d. is_ident d ≡ true) word
      words word (inl e) = rw e (refl, (refl, (refl, (refl, tt))))
      words word (inr (inl e)) = rw e (refl, (refl, (refl, tt)))
      words word (inr (inr (inl e))) = rw e (refl, (refl, (refl, tt)))
      words word (inr (inr (inr (inl e)))) = rw e (refl, (refl, (refl, (refl, tt))))
      words word (inr (inr (inr (inr (inl e))))) = rw e (refl, (refl, (refl, (refl, (refl, tt)))))
      words word (inr (inr (inr (inr (inr (inl e)))))) = rw e (refl, (refl, (refl, tt)))
      words word (inr (inr (inr (inr (inr (inr (inl e))))))) =
          rw e (refl, (refl, (refl, (refl, (refl, tt)))))
      words word (inr (inr (inr (inr (inr (inr (inr none'))))))) = absurd none'

  sym_false : (d : ℕ) → (c == d) ≡ false → (d == c) ≡ false
  sym_false d h = ground arith

  digits-ident : (ds : List ℕ) → All (λ d. d < 16) ds → count c (codes (render ds)) ≡ 0
  digits-ident [] h = refl
  digits-ident (d ∷ ds) (h, hs) =
      let ih = digits-ident ds hs in
      let n : (code (digit_char d) == c) ≡ false =
        sym_false (code (digit_char d)) (unlike (code (digit_char d)) (digit_is_ident d h)) in
      rw n (omega (arith, digits-ident ds hs))

  pub number-count : (n : ℕ) → count c (codes (show n)) ≡ 0
  unfolding show digits
  number-count n =
      digits-ident (digits 10 n)
        (unfold digits in digits_from_bounded 10 (suc n) n [] (omega arith) (omega arith) tt)
