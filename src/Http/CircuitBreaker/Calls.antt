-- ===== src/Http/CircuitBreaker/Calls.antt =====
-- Calls through one breaker, which may overlap.
use airport_inspection_platf.Http.CircuitBreaker.{
  CircuitBreaker, Ending, closed, enter, half_open, is_open, maybe_transition_to_half_open, opened,
  probe_in_flight, record_failure, record_success, returned, settle_call, thrown,
}
use airport_inspection_platf.Prelude.{
  List, [], arith, err, false, ok, refl, suc, zero, ℕ, ◌+◌, ◌<◌, ◌↔◌, ◌∙◌, ◌∷◌, ◌≡◌, ◌≤◌, ◌⊎◌,
}

-- A closed breaker has seen fewer failures in a row than the threshold, an open one at least that
-- many, and the flag of a probe is set only in a half-open one.
abbrev pub IsConsistent : CircuitBreaker → Type 0
IsConsistent b = elim b.state [
  | closed ↦ (b.consecutive_failures < b.threshold) × (b.half_open_in_flight ≡ false)
  | opened ↦ (b.threshold ≤ b.consecutive_failures) × (b.half_open_in_flight ≡ false)
  | half_open ↦ b.threshold ≤ b.consecutive_failures
]

-- What may happen to a breaker: a call tries to enter, or a call that entered ends, then or later,
-- whatever has happened in between.
pub data Happening : Type 0 where
  entering : ℕ → Happening
  ending : Ending → ℕ → Happening

abbrev pub happen : Happening → CircuitBreaker → CircuitBreaker
happen (entering now) b = (enter now b).1
happen (ending e now) b = settle_call e now b

abbrev pub happen_all : List Happening → CircuitBreaker → CircuitBreaker
happen_all [] b = b
happen_all (h ∷ hs) b = happen_all hs (happen h b)

module _ (b : CircuitBreaker) where
  enter-IsConsistent : (now : ℕ) → IsConsistent b → IsConsistent (enter now b).1
  unfolding enter maybe_transition_to_half_open
  enter-IsConsistent now h = ground arith

  settle_call-IsConsistent :
      (e : Ending) (now : ℕ) → 0 < b.threshold → IsConsistent b → IsConsistent (settle_call e now b)
  unfolding record_success record_failure
  settle_call-IsConsistent returned now p h = (p, refl)
  settle_call-IsConsistent thrown now p h = ground arith

happen-threshold : (h : Happening) (b : CircuitBreaker) → (happen h b).threshold ≡ b.threshold
unfolding enter maybe_transition_to_half_open record_success record_failure
happen-threshold (entering now) b = ground arith
happen-threshold (ending returned now) b = refl
happen-threshold (ending thrown now) b = ground arith

happen-IsConsistent :
    (h : Happening) (b : CircuitBreaker)
    → 0 < b.threshold
    → IsConsistent b
    → IsConsistent (happen h b)
happen-IsConsistent (entering now) b p c = enter-IsConsistent b now c
happen-IsConsistent (ending e now) b p c = settle_call-IsConsistent b e now p c

-- Over any interleaving of calls that enter and calls that end, with a positive threshold, the
-- breaker stays consistent: closed below the threshold, open or half open at it or above, and the flag
-- of a probe set only when half open. A call that entered earlier may clear the flag while the probe is
-- still under way, so that this bounds the flag and not the probes.
pub happen_all-IsConsistent :
    (hs : List Happening) (b : CircuitBreaker)
    → 0 < b.threshold
    → IsConsistent b
    → IsConsistent (happen_all hs b)
happen_all-IsConsistent [] b p c = c
happen_all-IsConsistent (h ∷ hs) b p c =
    happen_all-IsConsistent hs (happen h b) (rw (happen-threshold h b) p)
      (happen-IsConsistent h b p c)

-- The breaker lets a call in exactly when it is closed, or open with the reset timeout over, or half
-- open with no probe under way.
pub enter_cases :
    (now : ℕ) (b : CircuitBreaker)
    → ((enter now b).0 ≡ ok tt) ↔ (
        (b.state ≡ closed)
        ⊎ ((b.state ≡ opened) × (b.opened_at + b.reset_timeout_ms ≤ now))
        ⊎ ((b.state ≡ half_open) × (b.half_open_in_flight ≡ false)))
unfolding enter maybe_transition_to_half_open
enter_cases now b = ground arith

abbrev pub failures : ℕ → ℕ → List Happening
failures zero now = []
failures (suc n) now = entering now ∷ ending thrown now ∷ failures n now

failures-opened :
    (n now : ℕ) (b : CircuitBreaker)
    → b.state ≡ closed
    → b.consecutive_failures + n ≡ b.threshold
    → 0 < n
    → ((happen_all (failures n now) b).state ≡ opened)
      × ((happen_all (failures n now) b).opened_at ≡ now)
      × ((happen_all (failures n now) b).reset_timeout_ms ≡ b.reset_timeout_ms)
unfolding enter maybe_transition_to_half_open record_failure
failures-opened zero now b s e p = absurd (omega arith)
failures-opened (suc zero) now b s e p = ground arith
failures-opened (suc (suc n)) now b s e p =
    let b' = happen (ending thrown now) (happen (entering now) b) in
    let closed' : b'.state ≡ closed = ground arith in
    let count' : b'.consecutive_failures + suc n ≡ b'.threshold = ground arith in
    let reset' : b'.reset_timeout_ms ≡ b.reset_timeout_ms = ground arith in
    let ih = failures-opened (suc n) now b' closed' count' (omega arith) in
    (ih.0, ih.1, ih.2 ∙ reset')

refused_early :
    (t : ℕ) (b : CircuitBreaker)
    → b.state ≡ opened
    → t < b.opened_at + b.reset_timeout_ms
    → enter t b ≡ (err is_open, b)
unfolding enter maybe_transition_to_half_open
refused_early t b s l = ground arith

probed :
    (t : ℕ) (b : CircuitBreaker)
    → b.state ≡ opened
    → b.opened_at + b.reset_timeout_ms ≤ t
    → ((enter t b).0 ≡ ok tt)
      × ((enter t (enter t b).1).0 ≡ err probe_in_flight)
      × ((record_success (enter t b).1).state ≡ closed)
      × ((record_failure t (enter t b).1).state ≡ opened)
      × ((record_failure t (enter t b).1).opened_at ≡ t)
unfolding enter maybe_transition_to_half_open record_success record_failure
probed t b s l = ground arith

-- A closed breaker opens at the failure in a row that reaches the threshold, and then refuses
-- every call while less than the reset timeout has passed.
pub tripped_refuses :
    (n now t : ℕ) (b : CircuitBreaker)
    → b.state ≡ closed
    → b.consecutive_failures + n ≡ b.threshold
    → 0 < n
    → t < now + b.reset_timeout_ms
    → let tripped = happen_all (failures n now) b in enter t tripped ≡ (err is_open, tripped)
tripped_refuses n now t b s e p l =
    let (o, at, reset) = failures-opened n now b s e p in
    refused_early t (happen_all (failures n now) b) o (rw (at, reset) l)

-- When the reset timeout has passed since the breaker opened, the first call is let in as the
-- probe and the next is refused; if the probe returns the breaker closes, and if it throws the
-- breaker opens again from that time.
pub tripped_probes :
    (n now t : ℕ) (b : CircuitBreaker)
    → b.state ≡ closed
    → b.consecutive_failures + n ≡ b.threshold
    → 0 < n
    → now + b.reset_timeout_ms ≤ t
    → let tripped = happen_all (failures n now) b in
      ((enter t tripped).0 ≡ ok tt)
      × ((enter t (enter t tripped).1).0 ≡ err probe_in_flight)
      × ((record_success (enter t tripped).1).state ≡ closed)
      × ((record_failure t (enter t tripped).1).state ≡ opened)
      × ((record_failure t (enter t tripped).1).opened_at ≡ t)
tripped_probes n now t b s e p l =
    let (o, at, reset) = failures-opened n now b s e p in
    probed t (happen_all (failures n now) b) o (rw (at, reset) l)
