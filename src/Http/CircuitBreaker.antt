-- ===== src/Http/CircuitBreaker.antt =====
-- packages/http-client/src/circuit-breaker.ts: the breaker's state and its transitions.
pub mod Calls
use airport_inspection_platf.Prelude.{
  Bool, Option, Result, err, false, if◌then◌else◌, leb, ok, or_else, suc, true, ℕ, ◌+◌,
}

pub data CircuitState : Type 0 where
  closed opened half_open : CircuitState

pub record CircuitBreaker : Type 0 where
  pub threshold : ℕ
  pub reset_timeout_ms : ℕ
  pub state : CircuitState
  pub consecutive_failures : ℕ
  pub opened_at : ℕ
  pub half_open_in_flight : Bool

-- the breaker that the constructor makes
abbrev pub fresh_breaker : Option ℕ → Option ℕ → CircuitBreaker
fresh_breaker failure_threshold reset_timeout_ms = record {
  threshold = or_else failure_threshold 5;
  reset_timeout_ms = or_else reset_timeout_ms 30000;
  state = closed;
  consecutive_failures = 0;
  opened_at = 0;
  half_open_in_flight = false;
}

-- `now - openedAt >= resetTimeoutMs`, with the time moved to the other side
unfoldable pub maybe_transition_to_half_open : ℕ → CircuitBreaker → CircuitBreaker
maybe_transition_to_half_open now b = elim b.state [
  | opened ↦
      if leb (b.opened_at + b.reset_timeout_ms) now
      then record b { state = half_open; half_open_in_flight = false }
      else b
  | _ ↦ b
]

unfoldable pub get_state : ℕ → CircuitBreaker → CircuitState × CircuitBreaker
unfolding maybe_transition_to_half_open
get_state now b = let b' = maybe_transition_to_half_open now b in (b'.state, b')

-- Why a call is refused with `circuit_open`.
pub data CircuitOpen : Type 0 where
  is_open probe_in_flight : CircuitOpen

-- `execute` up to the call of its function
unfoldable pub enter : ℕ → CircuitBreaker → Result CircuitOpen Unit × CircuitBreaker
unfolding maybe_transition_to_half_open
enter now breaker =
    let b = maybe_transition_to_half_open now breaker in
    elim b.state [
      | opened ↦ (err is_open, b)
      | half_open ↦
          if b.half_open_in_flight
          then (err probe_in_flight, b)
          else (ok tt, record b { half_open_in_flight = true })
      | closed ↦ (ok tt, b)
    ]

unfoldable pub record_success : CircuitBreaker → CircuitBreaker
record_success b = record b {
  consecutive_failures = 0;
  state = closed;
  half_open_in_flight = false;
}

unfoldable pub record_failure : ℕ → CircuitBreaker → CircuitBreaker
record_failure now breaker =
    let b = record breaker { consecutive_failures = suc breaker.consecutive_failures } in
    elim b.state [
      | half_open ↦ record b { state = opened; opened_at = now; half_open_in_flight = false }
      | _ ↦
          if leb b.threshold b.consecutive_failures
          then record b { state = opened; opened_at = now }
          else b
    ]

-- How a call of the function ends.
pub data Ending : Type 0 where
  returned thrown : Ending

abbrev pub settle_call : Ending → ℕ → CircuitBreaker → CircuitBreaker
settle_call returned now b = record_success b
settle_call thrown now b = record_failure now b
