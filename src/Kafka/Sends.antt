-- ===== src/Kafka/Sends.antt =====
-- What a producer's sends leave in its log, whatever becomes of each attempt.
use meshtastic_things.Prelude.{
  ℕ, suc, Bool, true, false, ◌≡◌, refl, ap, sym, List, [], ◌∷◌, ◌++◌, arith, Bool-cases, inl, inr,
  ◌⊎◌,
}
use mathlib.Core.Path.{subst}
use mathlib.Core.List.{append_assoc, append-nil}
use meshtastic_things.Prelude.Members.{In, In-append, In-append_left}
use meshtastic_things.Kafka.{Delivery, acked, lost, unconfirmed, Producer, send, send_all}

-- Sends that all returned have put their messages on the topics, once each and in order.
pub send_all-log :
    {M : Type 0} (net : ℕ → Delivery) (ms : List M) (p : Producer M)
    → (send_all net ms p).1 ≡ true
    → (send_all net ms p).0.log ≡ p.log ++ ms
unfolding send_all send
send_all-log net [] p h = sym (append-nil p.log)
send_all-log net (m ∷ ms) p h = ground (
  arith,
  send_all-log net ms (record { log = p.log ++ m ∷ []; attempts = suc p.attempts }),
  append_assoc p.log (m ∷ []) ms,
)

pub send_all-acked :
    {M : Type 0} (net : ℕ → Delivery) (ms : List M) (p : Producer M)
    → ((n : ℕ) → net n ≡ acked)
    → (send_all net ms p).1 ≡ true
unfolding send_all send
send_all-acked net [] p healthy = refl
send_all-acked net (m ∷ ms) p healthy = ground (
  arith,
  healthy p.attempts,
  send_all-acked net ms (record { log = p.log ++ m ∷ []; attempts = suc p.attempts }) healthy,
)

send-keeps :
    {M : Type 0} (net : ℕ → Delivery) (x : M) (p : Producer M) (m : M)
    → In m p.log
    → In m (send net x p).0.log
unfolding send
send-keeps net x p m h = go (net p.attempts) refl
  where
    go : (d : Delivery) → net p.attempts ≡ d → In m (send net x p).0.log
    go acked e = rw (send, e) (In-append_left m p.log (x ∷ []) h)
    go lost e = rw (send, e) h
    go unconfirmed e = rw (send, e) (In-append_left m p.log (x ∷ []) h)

-- A call of `send_all` leaves what has been sent before.
pub send_all-keeps :
    {M : Type 0} (net : ℕ → Delivery) (ms : List M) (p : Producer M) (m : M)
    → In m p.log
    → In m (send_all net ms p).0.log
unfolding send_all
send_all-keeps net [] p m h = h
send_all-keeps net (x ∷ ms) p m h = elim (Bool-cases (send net x p).1) [
  | inl sent ↦
      rw (sent, send_all) (send_all-keeps net ms (send net x p).0 m (send-keeps net x p m h))
  | inr failed ↦ rw (failed, send_all) (send-keeps net x p m h)
]

-- What becomes of an attempt, with its equation.
delivery-cases : (d : Delivery) → (d ≡ acked) ⊎ ((d ≡ lost) ⊎ (d ≡ unconfirmed))
delivery-cases acked = inl refl
delivery-cases lost = inr (inl refl)
delivery-cases unconfirmed = inr (inr refl)

In-sent : {M : Type 0} (x m : M) (ms log : List M) → In x (log ++ m ∷ []) → In x log ⊎ In x (m ∷ ms)
In-sent x m ms log i = elim (In-append x log (m ∷ []) i) [
  | inl j ↦ inl j
  | inr j ↦ elim j [ inl e ↦ inr (inl e) | inr n ↦ absurd n ]
]

-- The sends that follow a send with a known outcome.
abbrev next : {M : Type 0} → (ℕ → Delivery) → List M → Producer M × Bool → Producer M × Bool
next net ms (p, true) = send_all net ms p
next net ms (p, false) = (p, false)

sent-step :
    {M : Type 0} (net : ℕ → Delivery) (m : M) (ms : List M) (p : Producer M)
    (outcome : Producer M × Bool)
    → send net m p ≡ outcome
    → send_all net (m ∷ ms) p ≡ next net ms outcome
unfolding send_all
sent-step net m ms p outcome h = ap (next net ms) h

-- Sending messages adds nothing to the log but these.
pub send_all-In :
    {M : Type 0} (net : ℕ → Delivery) (x : M) (ms : List M) (p : Producer M)
    → In x (send_all net ms p).0.log
    → In x p.log ⊎ In x ms
unfolding send_all send
send_all-In net x [] p i = inl i
send_all-In net x (m ∷ ms) p i = elim (delivery-cases (net p.attempts)) [
  | inl e ↦
      let p' : Producer _ = record { log = p.log ++ m ∷ []; attempts = suc p.attempts } in
      let step : send_all net (m ∷ ms) p ≡ send_all net ms p' =
        sent-step net m ms p (p', true) (rw (send, e) refl) in
      let j : In x (send_all net ms p').0.log = subst (λ s. In x s.0.log) step i in
      elim (send_all-In net x ms p' j) [ inl k ↦ In-sent x m ms p.log k | inr k ↦ inr (inr k) ]
  | inr other ↦ elim other [
    | inl e ↦
        let p' : Producer _ = record { log = p.log; attempts = suc p.attempts } in
        let step : send_all net (m ∷ ms) p ≡ (p', false) =
          sent-step net m ms p (p', false) (rw (send, e) refl) in
        inl (subst (λ s. In x s.0.log) step i)
    | inr e ↦
        let p' : Producer _ = record { log = p.log ++ m ∷ []; attempts = suc p.attempts } in
        let step : send_all net (m ∷ ms) p ≡ (p', false) =
          sent-step net m ms p (p', false) (rw (send, e) refl) in
        In-sent x m ms p.log (subst (λ s. In x s.0.log) step i)
  ]
]
