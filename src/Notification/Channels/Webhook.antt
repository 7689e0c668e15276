-- ===== src/Notification/Channels/Webhook.antt =====
-- services/notification-service/src/channels/webhook.ts: the attempts of one delivery.
use airport_inspection_platf.Prelude.{
  List, Option, String, [], ap, ap₂, arith, if_false, if◌then◌else◌, inl, inr, none, refl, some,
  subst, subst₂, suc, sym, zero, ℕ, ◌*◌, ◌++◌, ◌+◌, ◌-◌, ◌==◌, ◌^◌, ◌∙◌, ◌∷◌, ◌≡◌, ◌≤◌, ◌⊎◌,
}
use airport_inspection_platf.Notification.{NotificationEvent}
use airport_inspection_platf.Notification.Channels.{
  Attempts, DeliveryResult, Posted, WebhookChannel, accepted, backoff, deliver_loop, delivered,
  failed, good, refused, webhook_deliver,
}

Posted-cases : (p : Posted) → (p ≡ accepted) ⊎ ((message : String) × (p ≡ refused message))
Posted-cases accepted = inl refl
Posted-cases (refused message) = inr (message, refl)

-- The first of the next attempts after attempt `attempt` that is answered well.
unfoldable pub first_good : (ℕ → Posted) → ℕ → ℕ → Option ℕ
first_good post zero attempt = none
first_good post (suc more) attempt = elim (post (suc attempt)) [
  | accepted ↦ some (suc attempt)
  | refused message ↦ first_good post more (suc attempt)
]

-- The delays after the first `n` attempts, the newest first: each is twice the one before.
abbrev pub waits : ℕ → ℕ → List ℕ
waits initial zero = []
waits initial (suc n) = initial * 2 ^ n ∷ waits initial n

-- How a delivery of at most `n` attempts ends: at the first good attempt, or with a dead letter.
abbrev pub Ends : ℕ → Option ℕ → ℕ → List DeliveryResult → DeliveryResult × Attempts → Type 0
Ends initial (some k) n dlq r =
    (r.0.status ≡ delivered)
    × (r.0.attempts ≡ k)
    × (k ≤ n)
    × (r.1.dlq ≡ dlq)
    × (r.1.sleeps ≡ waits initial (k - 1))
Ends initial none n dlq r =
    (r.0.status ≡ failed)
    × (r.0.attempts ≡ n)
    × (r.1.dlq ≡ dlq ++ r.0 ∷ [])
    × (r.1.sleeps ≡ waits initial (n - 1))

module _ (w : WebhookChannel) (post : ℕ → Posted) (now : String) (event : NotificationEvent) where
  pred : (i : ℕ) → i ≡ suc i - 1
  pred i = omega arith

  pred_add : (i : ℕ) → i ≡ i + 1 - 1
  pred_add i = omega arith

  loop_accepted :
      (more i : ℕ) (last_error : Option String) (a : Attempts)
      → post (suc i) ≡ accepted
      → deliver_loop w post now event (suc more) i last_error a ≡ (good w post now event (suc i), a)
  unfolding deliver_loop
  loop_accepted more i last_error a e = rw (e, deliver_loop) refl

  loop_refused :
      (more i : ℕ) (last_error : Option String) (a : Attempts) {message : String}
      → post (suc i) ≡ refused message
      → deliver_loop w post now event (suc more) i last_error a
        ≡ deliver_loop w post now event more (suc i) (some message) (record a {
          sleeps = if more == 0 then a.sleeps else backoff w post now event (suc i) ∷ a.sleeps;
        })
  unfolding deliver_loop
  loop_refused more i last_error a e = rw (e, deliver_loop) refl

  first_accepted :
      (more i : ℕ) → post (suc i) ≡ accepted → first_good post (suc more) i ≡ some (suc i)
  unfolding first_good
  first_accepted more i e = rw (e, first_good) refl

  first_refused :
      (more i : ℕ) {message : String}
      → post (suc i) ≡ refused message
      → first_good post (suc more) i ≡ first_good post more (suc i)
  unfolding first_good
  first_refused more i e = rw (e, first_good) refl

  slept :
      (more i : ℕ) (a : Attempts)
      → a.sleeps ≡ waits w.initial_backoff_ms i
      → (if suc more == 0 then a.sleeps else backoff w post now event (suc i) ∷ a.sleeps)
        ≡ waits w.initial_backoff_ms (suc i)
  slept more i a h =
      if_false (suc more == 0) _ _ (ground arith)
      ∙ ap₂ (λ (n : ℕ) (l : List ℕ). w.initial_backoff_ms * 2 ^ n ∷ l) (sym (pred i)) h

  once-Ends :
      (more i : ℕ) (last_error : Option String) (a : Attempts)
      → a.sleeps ≡ waits w.initial_backoff_ms i
      → post (suc i) ≡ accepted
      → Ends w.initial_backoff_ms
          (first_good post (suc more) i)
          (i + suc more)
          a.dlq
          (deliver_loop w post now event (suc more) i last_error a)
  once-Ends more i last_error a h e =
      subst₂ (λ o r. Ends w.initial_backoff_ms o (i + suc more) a.dlq r)
        (sym (first_accepted more i e)) (sym (loop_accepted more i last_error a e))
        (refl, refl, omega arith, refl, h ∙ ap (waits w.initial_backoff_ms) (pred i))

  loop-Ends :
      (more i : ℕ) (last_error : Option String) (a : Attempts)
      → a.sleeps ≡ waits w.initial_backoff_ms i
      → Ends w.initial_backoff_ms
          (first_good post (suc more) i)
          (i + suc more)
          a.dlq
          (deliver_loop w post now event (suc more) i last_error a)
  unfolding deliver_loop first_good
  loop-Ends zero i last_error a h = elim (Posted-cases (post (suc i))) [
    | inl e ↦ once-Ends 0 i last_error a h e
    | inr (message, e) ↦
        subst₂ (λ o r. Ends w.initial_backoff_ms o (i + 1) a.dlq r) (sym (first_refused 0 i e))
          (sym (loop_refused 0 i last_error a e))
          (refl, omega arith, refl, h ∙ ap (waits w.initial_backoff_ms) (pred_add i))
  ]
  loop-Ends (suc more) i last_error a h = elim (Posted-cases (post (suc i))) [
    | inl e ↦ once-Ends (suc more) i last_error a h e
    | inr (message, e) ↦
        let next : suc i + suc more ≡ i + suc (suc more) = omega arith in
        let waited : Attempts = record a {
          sleeps = if suc more == 0 then a.sleeps else backoff w post now event (suc i) ∷ a.sleeps;
        } in
        subst₂ (λ o r. Ends w.initial_backoff_ms o (i + suc (suc more)) a.dlq r)
          (sym (first_refused (suc more) i e)) (sym (loop_refused (suc more) i last_error a e))
          (subst
            (λ n.
              Ends w.initial_backoff_ms (first_good post (suc more) (suc i)) n a.dlq
                (deliver_loop w post now event (suc more) (suc i) (some message) waited))
            next (loop-Ends more (suc i) (some message) waited (slept more i a h)))
  ]

  -- A delivery with at least one attempt allowed ends at the first attempt that is answered well, delivered, with the number of that attempt and no dead letter; or, where none of the attempts is answered well, after all of them, failed, with itself as the one new dead letter. Between the attempts, and not after the last, it waits, each time twice as long.
  pub webhook_deliver-Ends :
      (a : Attempts)
      → 1 ≤ w.max_attempts
      → a.sleeps ≡ []
      → Ends w.initial_backoff_ms
          (first_good post w.max_attempts 0)
          w.max_attempts
          a.dlq
          (webhook_deliver w post now event a)
  unfolding webhook_deliver
  webhook_deliver-Ends a h e =
      let n = w.max_attempts - 1 in
      let some_more : suc n ≡ w.max_attempts = omega arith in
      let all_of_them : 0 + suc n ≡ w.max_attempts = omega arith in
      subst₂
        (λ more m.
          Ends w.initial_backoff_ms (first_good post more 0) m a.dlq
            (deliver_loop w post now event more 0 none a))
        some_more all_of_them (loop-Ends n 0 none a e)
