-- ===== src/Http/Tests.antt =====
-- Runs of the HTTP client at concrete inputs, and the theorems at inputs that meet their hypotheses.
use airport_inspection_platf.Http.CircuitBreaker.{
  CircuitBreaker, enter, fresh_breaker, maybe_transition_to_half_open, record_failure, thrown,
}
use airport_inspection_platf.Http.CircuitBreaker.Calls.{
  IsConsistent, ending, entering, failures, happen_all, happen_all-IsConsistent,
}
use airport_inspection_platf.Http.Client.{Fetched, response, thrown_by_fetch}
use airport_inspection_platf.Prelude.{
  [], arith, false, ok, refl, some, suc, zero, ℕ, ◌++◌, ◌∷◌, ◌≡◌,
}

abbrev breaker : CircuitBreaker
breaker = fresh_breaker (some 2) (some 30)

happen_all-IsConsistent_example :
    IsConsistent (happen_all (failures 2 100 ++ entering 130 ∷ []) breaker)
happen_all-IsConsistent_example =
    happen_all-IsConsistent (failures 2 100 ++ entering 130 ∷ []) breaker (omega arith)
      (omega arith, refl)

-- A call that entered before the breaker opened throws while the probe is under way: the breaker
-- opens, and after the timeout it lets in a second probe beside the first.
two_probes :
    (enter 161 (
      happen_all (entering 90 ∷ failures 2 100 ++ entering 130 ∷ ending thrown 131 ∷ []) breaker)).0
    ≡ ok tt
unfolding enter record_failure maybe_transition_to_half_open
two_probes = refl

-- 503, then 200
abbrev recovering : ℕ → Fetched
recovering zero = response 503
recovering (suc n) = response 200

-- a connection that is refused
abbrev refusing : ℕ → Fetched
refusing n = thrown_by_fetch false false
