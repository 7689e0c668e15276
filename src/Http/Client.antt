-- ===== src/Http/Client.antt =====
-- packages/http-client/src/client.ts and errors.ts: the retry loop of a request.
use airport_inspection_platf.Prelude.{
  Bool, Bool-cases, List, Option, Result, [], ap, arith, err, false, if◌then◌else◌, inl, inr, leb,
  ltb, min, none, not, ok, refl, some, subst, suc, true, zero, ℕ, ◌&&◌, ◌*◌, ◌+◌, ◌==◌, ◌^◌, ◌||◌,
  ◌∙◌, ◌∷◌, ◌≡◌, ◌≤◌, ◌⊎◌,
}

pub data HttpClientErrorCode : Type 0 where
  timeout network exhausted circuit_open : HttpClientErrorCode
  http : ℕ → HttpClientErrorCode

pub record HttpClientError : Type 0 where
  pub code : HttpClientErrorCode
  pub status : Option ℕ
  pub attempts : ℕ

unfoldable pub is_retryable_status : ℕ → Bool
is_retryable_status status =
    if (status == 408) || (status == 429) then true else leb 500 status && ltb status 600

-- `res.ok`
abbrev pub is_ok : ℕ → Bool
is_ok status = leb 200 status && ltb status 300

-- What `fetch` does: a response with its status, or an exception, with whether the controller and
-- the caller's signal are aborted by then.
pub data Fetched : Type 0 where
  response : ℕ → Fetched
  thrown_by_fetch : Bool → Bool → Fetched

-- `attempt`: the status, or the code of the error that it throws
unfoldable pub attempt : Fetched → Result HttpClientErrorCode ℕ
attempt (response status) = ok status
attempt (thrown_by_fetch controller_aborted caller_aborted) =
    if controller_aborted && not caller_aborted then err timeout else err network

-- The reply, the number of calls of `fetch`, and the delays slept between them.
pub record Requested : Type 0 where
  pub reply : Result HttpClientError ℕ
  pub fetches : ℕ
  pub sleeps : List ℕ

-- The backoff before jitter: `Math.min(backoff * 2 ** attempt, maxBackoff)`
abbrev pub base_backoff : ℕ → ℕ → ℕ → ℕ
base_backoff backoff max_backoff n = min (backoff * 2 ^ n) max_backoff

abbrev pub slept : ℕ → Requested → Requested
slept ms r = record r { sleeps = ms ∷ r.sleeps }

-- `compute_backoff` is the delay after an attempt of which jitter may be a part, and `fetch` gives
-- what the attempts find.
module _ (compute_backoff : ℕ → ℕ) (fetch : ℕ → Fetched) where
  -- the loop from attempt `i`, with so many more allowed after it
  unfoldable pub retry_loop : ℕ → ℕ → Requested
  unfolding attempt is_retryable_status
  retry_loop zero i = elim (attempt (fetch i)) [
    | ok status ↦ record {
      reply =
          if is_ok status
          then ok status
          else if not (is_retryable_status status)
          then err (record { code = http status; status = some status; attempts = suc i })
          else err (record { code = exhausted; status = some status; attempts = suc i });
      fetches = suc i;
      sleeps = [];
    }
    | err code ↦ record {
      reply = err (record { code = exhausted; status = none; attempts = suc i });
      fetches = suc i;
      sleeps = [];
    }
  ]
  retry_loop (suc more) i =
      let again = slept (compute_backoff i) (retry_loop more (suc i)) in
      elim (attempt (fetch i)) [
        | ok status ↦
            if is_ok status
            then record { reply = ok status; fetches = suc i; sleeps = [] }
            else if not (is_retryable_status status)
            then record {
              reply = err (record { code = http status; status = some status; attempts = suc i });
              fetches = suc i;
              sleeps = [];
            }
            else again
        | err code ↦ again
      ]

  unfoldable pub request_with_retries : ℕ → Requested
  request_with_retries retries = retry_loop retries 0

  -- An attempt that ends the loop, whatever is left: a good answer or an error of no use to retry.
  abbrev pub IsDecisive : Fetched → Type 0
  IsDecisive (response status) = (is_ok status ≡ true) ⊎ (is_retryable_status status ≡ false)
  IsDecisive (thrown_by_fetch _ _) = ⊥

  abbrev pub answer_of : ℕ → ℕ → Result HttpClientError ℕ
  answer_of status tries =
      if is_ok status
      then ok status
      else err (record { code = http status; status = some status; attempts = tries })

  abbrev pub backoffs : ℕ → ℕ → List ℕ
  backoffs i zero = []
  backoffs i (suc n) = compute_backoff i ∷ backoffs (suc i) n

  abbrev pub Retried : ℕ → ℕ → Type 0
  Retried i zero = Unit
  Retried i (suc n) = ¬ IsDecisive (fetch i) × Retried (suc i) n

  not_decisive :
      (x : Fetched)
      → ¬ IsDecisive x
      → ((status : ℕ) × (attempt x ≡ ok status)
          × (is_ok status ≡ false)
          × (is_retryable_status status ≡ true))
        ⊎ ((code : HttpClientErrorCode) × (attempt x ≡ err code))
  unfolding attempt
  not_decisive (response status) n = elim (Bool-cases (is_ok status)) [
    | inl t ↦ absurd (n (inl t))
    | inr t ↦ elim (Bool-cases (is_retryable_status status)) [
      | inl u ↦ inl (status, refl, t, u)
      | inr u ↦ absurd (n (inr u))
    ]
  ]
  not_decisive (thrown_by_fetch c d) n = inr (thrown_code c d)
    where
      thrown_code :
          (c d : Bool) → (code : HttpClientErrorCode) × (attempt (thrown_by_fetch c d) ≡ err code)
      thrown_code true true = (_, refl)
      thrown_code true false = (_, refl)
      thrown_code false d = (_, refl)

  goes_on :
      (more i : ℕ)
      → ¬ IsDecisive (fetch i)
      → retry_loop (suc more) i ≡ slept (compute_backoff i) (retry_loop more (suc i))
  unfolding retry_loop
  goes_on more i n = elim (not_decisive (fetch i) n) [
    | inl (status, a, b, c) ↦ rw (a, retry_loop) (rw (b, c) refl)
    | inr (code, a) ↦ rw (a, retry_loop) refl
  ]

  -- What a request's loop has come to after `n` more attempts.
  pub record Reaches (r : Requested) (i n : ℕ) : Type 0 where
    pub tried : r.fetches ≡ suc (i + n)
    pub waited : r.sleeps ≡ backoffs i n

  stops :
      (more i status : ℕ)
      → attempt (fetch i) ≡ ok status
      → IsDecisive (response status)
      → ((retry_loop more i).reply ≡ answer_of status (suc i))
        × ((retry_loop more i).fetches ≡ suc i)
        × ((retry_loop more i).sleeps ≡ [])
  unfolding retry_loop
  stops zero i status f d = rw (f, retry_loop) (ground arith)
  stops (suc more) i status f d = rw (f, retry_loop) (ground arith)

  retry_loop-decisive :
      (n more i j status : ℕ)
      → n ≤ more
      → j ≡ i + n
      → Retried i n
      → fetch j ≡ response status
      → IsDecisive (response status)
      → ((retry_loop more i).reply ≡ answer_of status (suc j)) × Reaches (retry_loop more i) i n
  unfolding retry_loop attempt
  retry_loop-decisive zero more i j status l e r f d =
      let e' : j ≡ i = omega arith in
      let s = stops more j status (rw f refl) d in
      subst
        (λ i.
          ((retry_loop more i).reply ≡ answer_of status (suc j)) × Reaches (retry_loop more i) i 0)
        e' (s.0, record { tried = s.1 ∙ omega arith; waited = s.2 })
  retry_loop-decisive (suc n) zero i j status l e r f d = absurd (omega arith)
  retry_loop-decisive (suc n) (suc more) i j status l e (no_end, r) f d =
      let ih = retry_loop-decisive n more (suc i) j status (omega arith) (omega arith) r f d in
      rw (goes_on more i no_end) (
        ih.0,
        record {
          tried = ih.1.tried ∙ (omega arith);
          waited = ap (λ x. compute_backoff i ∷ x) ih.1.waited;
        },
      )

  retry_loop-exhausted :
      (more i : ℕ)
      → Retried i (suc more)
      → ((e : HttpClientError) × ((retry_loop more i).reply ≡ err e)
          × (e.code ≡ exhausted)
          × (e.attempts ≡ suc (i + more)))
        × Reaches (retry_loop more i) i more
  unfolding retry_loop
  retry_loop-exhausted zero i (no_end, r) = elim (not_decisive (fetch i) no_end) [
    | inl (status, a, b, c) ↦
        rw (a, retry_loop)
          (rw (b, c) ((_, refl, refl, omega arith), record { tried = omega arith; waited = refl }))
    | inr (code, a) ↦
        rw (a, retry_loop)
          ((_, refl, refl, omega arith), record { tried = omega arith; waited = refl })
  ]
  retry_loop-exhausted (suc more) i (no_end, r) =
      let ih = retry_loop-exhausted more (suc i) r in
      rw (goes_on more i no_end) (
        (ih.0.0, ih.0.1, ih.0.2, ih.0.3 ∙ omega arith),
        record {
          tried = ih.1.tried ∙ omega arith;
          waited = ap (λ x. compute_backoff i ∷ x) ih.1.waited;
        },
      )

  -- If attempt `n`, counted from 0 and no later than the last that `retries` allows, is the first
  -- whose response is a success or has a status not worth a retry, the request answers with that
  -- response or throws with that status; it has called `fetch` once for each attempt up to it and
  -- slept the backoff of each attempt before it.
  pub request_decided :
      (retries n status : ℕ)
      → n ≤ retries
      → Retried 0 n
      → fetch n ≡ response status
      → IsDecisive (response status)
      → ((request_with_retries retries).reply ≡ answer_of status (suc n))
        × Reaches (request_with_retries retries) 0 n
  unfolding request_with_retries
  request_decided retries n status l r f d =
      retry_loop-decisive n retries 0 n status l (omega arith) r f d

  -- If no attempt is decisive, the request throws `exhausted` after `retries + 1` calls of `fetch`,
  -- and has slept the backoff of each attempt but the last.
  pub request_exhausted :
      (retries : ℕ)
      → Retried 0 (suc retries)
      → ((e : HttpClientError) × ((request_with_retries retries).reply ≡ err e)
          × (e.code ≡ exhausted)
          × (e.attempts ≡ suc (0 + retries)))
        × Reaches (request_with_retries retries) 0 retries
  unfolding request_with_retries
  request_exhausted retries r = retry_loop-exhausted retries 0 r
