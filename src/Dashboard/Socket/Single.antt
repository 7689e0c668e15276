-- ===== src/Dashboard/Socket/Single.antt =====
-- apps/web/composables/useWebSocket.ts: how many sockets are under way.
use airport_inspection_platf.Prelude.{
  Bool, Bool-cases, ap, arith, false, if_false, if_true, if◌then◌else◌, inl, inr, refl, subst,
  subst₂, suc, sym, true, ℕ, ◌+◌, ◌<◌, ◌||◌, ◌∙◌, ◌≡◌, ◌≤◌,
}
use airport_inspection_platf.Dashboard.Socket.{
  WsClient, WsConnectionState, connected, disconnected, dispose, new_client, on_close, on_open,
  on_timer, open_once, reconnecting, schedule_reconnect, set_state, start_client, state_eq,
}

-- The client in its browser, which holds so many sockets that have not closed.
pub record Tab : Type 0 where
  pub client : WsClient
  pub live : ℕ

abbrev pub after_open : ℕ → Bool × WsClient → Tab
after_open live (true, c) = record { client = c; live = suc live }
after_open live (false, c) = record { client = c; live = live }

-- The listeners that the browser may run, for a socket that has not closed and a timer that has not been cleared, and the end by `dispose`.
pub data Step (starts : Bool) (jittered : ℕ → ℕ) : Tab → Tab → Type 0 where
  opens : (t : Tab) → 0 < t.live → Step starts jittered t (record t { client = on_open t.client })
  closes :
      (t : Tab) (left : ℕ)
      → t.live ≡ suc left
      → Step starts jittered t (record { client = on_close starts jittered t.client; live = left })
  fires :
      (t : Tab)
      → t.client.has_timer ≡ true
      → Step starts jittered t (after_open t.live (on_timer t.client))
  disposes : (t : Tab) → Step starts jittered t (record t { client = dispose t.client })

pub data Reachable (starts : Bool) (jittered : ℕ → ℕ) : Tab → Type 0 where
  started : Reachable starts jittered (after_open 0 (start_client new_client))
  after :
      {t u : Tab}
      → Reachable starts jittered t
      → Step starts jittered t u
      → Reachable starts jittered u

-- One attempt is under way, a socket or the timer of the next, until `dispose`; then no timer runs. Where the
-- timer function throws, no timer ever runs, and there is one socket at most.
abbrev pub Single : Bool → Bool → Bool → ℕ → Type 0
Single true starts has_timer live = (has_timer ≡ false) × (live ≤ 1)
Single false true has_timer live = live + (if has_timer then 1 else 0) ≡ 1
Single false false has_timer live = (has_timer ≡ false) × (live ≤ 1)

abbrev pub IsSingle : Bool → Tab → Type 0
IsSingle starts t = Single t.client.disposed starts t.client.has_timer t.live

set_state-disposed : (s : WsConnectionState) (c : WsClient) → (set_state s c).disposed ≡ c.disposed
unfolding set_state
set_state-disposed s c = elim (Bool-cases (state_eq c.state s)) [
  | inl e ↦ ap (λ (x : WsClient). x.disposed) (if_true _ _ _ e)
  | inr e ↦ ap (λ (x : WsClient). x.disposed) (if_false _ _ _ e)
]

set_state-has_timer :
    (s : WsConnectionState) (c : WsClient) → (set_state s c).has_timer ≡ c.has_timer
unfolding set_state
set_state-has_timer s c = elim (Bool-cases (state_eq c.state s)) [
  | inl e ↦ ap (λ (x : WsClient). x.has_timer) (if_true _ _ _ e)
  | inr e ↦ ap (λ (x : WsClient). x.has_timer) (if_false _ _ _ e)
]

-- The parts of a tab that count are those of a client before its state is set.
set_state-Single :
    (starts : Bool) (s : WsConnectionState) (c : WsClient) (live : ℕ)
    → Single c.disposed starts c.has_timer live
    → Single (set_state s c).disposed starts (set_state s c).has_timer live
set_state-Single starts s c live h =
    subst₂ (λ d m. Single d starts m live) (sym (set_state-disposed s c))
      (sym (set_state-has_timer s c)) h

of_disposed :
    (d starts m : Bool) (live : ℕ) → d ≡ true → Single d starts m live → (m ≡ false) × (live ≤ 1)
of_disposed d starts m live e h = subst (λ x. Single x starts m live) e h

of_running :
    (d m : Bool) (live : ℕ) → d ≡ false → Single d true m live → live + (if m then 1 else 0) ≡ 1
of_running d m live e h = subst (λ x. Single x true m live) e h

-- Where no timer starts, none runs.
of_stopped : (d m : Bool) (live : ℕ) → Single d false m live → (m ≡ false) × (live ≤ 1)
of_stopped true m live h = h
of_stopped false m live h = h

stopped : (d m : Bool) (live : ℕ) → m ≡ false → live ≤ 1 → Single d false m live
stopped true m live e h = (e, h)
stopped false m live e h = (e, h)

at_most_one : (d starts m : Bool) (live : ℕ) → Single d starts m live → live ≤ 1
at_most_one true starts m live (timer, few) = few
at_most_one false true m live h = omega (arith, h)
at_most_one false false m live (timer, few) = few

module _ (jittered : ℕ → ℕ) where
  on_close-disposed :
      (starts : Bool) (c : WsClient) (left : ℕ)
      → c.disposed ≡ true
      → Single c.disposed starts c.has_timer (suc left)
      → Single
          (on_close starts jittered c).disposed
          starts
          (on_close starts jittered c).has_timer
          left
  unfolding on_close
  on_close-disposed starts c left e h =
      let (timer, few) = of_disposed c.disposed starts c.has_timer (suc left) e h in
      subst (λ (x : WsClient). Single x.disposed starts x.has_timer left) (sym (if_true _ _ _ e))
        (set_state-Single starts disconnected c left
          (subst (λ d. Single d starts c.has_timer left) (sym e) (timer, omega arith)))

  reconnecting-Single :
      (starts : Bool) (c : WsClient) (left : ℕ)
      → c.disposed ≡ false
      → Single c.disposed starts c.has_timer (suc left)
      → Single (set_state reconnecting c).disposed starts (starts || c.has_timer) left
  reconnecting-Single true c left e h =
      let none_left : left ≡ 0 = omega (arith, of_running c.disposed c.has_timer (suc left) e h) in
      subst (λ d. Single d true true left) (sym (set_state-disposed reconnecting c ∙ e))
        (omega arith)
  reconnecting-Single false c left e h =
      let (timer, few) = of_stopped c.disposed c.has_timer (suc left) h in
      stopped (set_state reconnecting c).disposed c.has_timer left timer (omega arith)

  on_close-Single :
      (starts : Bool) (c : WsClient) (left : ℕ)
      → Single c.disposed starts c.has_timer (suc left)
      → Single
          (on_close starts jittered c).disposed
          starts
          (on_close starts jittered c).has_timer
          left
  unfolding on_close schedule_reconnect
  on_close-Single starts c left h = elim (Bool-cases c.disposed) [
    | inl e ↦ on_close-disposed starts c left e h
    | inr e ↦
        subst (λ (x : WsClient). Single x.disposed starts x.has_timer left)
          (sym (if_false _ _ _ e ∙ if_false _ _ _ e)) (reconnecting-Single starts c left e h)
  ]

  on_timer-Single :
      (starts : Bool) (c : WsClient) (live : ℕ)
      → c.has_timer ≡ true
      → Single c.disposed starts c.has_timer live
      → IsSingle starts (after_open live (on_timer c))
  unfolding on_timer open_once
  on_timer-Single false c live t h = absurd (cc ((of_stopped c.disposed c.has_timer live h).0))
  on_timer-Single true c live t h = elim (Bool-cases c.disposed) [
    | inl e ↦ absurd (cc ((of_disposed c.disposed true c.has_timer live e h).0))
    | inr e ↦
        let first : live ≡ 0 = ground (arith, of_running c.disposed c.has_timer live e h) in
        subst (λ (x : Bool × WsClient). IsSingle true (after_open live x)) (sym (if_false _ _ _ e))
          (set_state-Single true _ (record c { has_timer = false }) (suc live)
            (subst (λ d. Single d true false (suc live)) (sym e) (omega arith)))
  ]

  Step-IsSingle :
      (starts : Bool) {t u : Tab} → Step starts jittered t u → IsSingle starts t → IsSingle starts u
  unfolding on_open dispose
  Step-IsSingle starts (opens t h) i =
      set_state-Single starts connected (record t.client { attempt = 0 }) t.live i
  Step-IsSingle starts (closes t left h) i =
      on_close-Single starts t.client left
        (subst (λ n. Single t.client.disposed starts t.client.has_timer n) h i)
  Step-IsSingle starts (fires t h) i = on_timer-Single starts t.client t.live h i
  Step-IsSingle starts (disposes t) i =
      (refl, at_most_one t.client.disposed starts t.client.has_timer t.live i)

  started-IsSingle : (starts : Bool) → IsSingle starts (after_open 0 (start_client new_client))
  unfolding start_client new_client open_once set_state
  started-IsSingle true = refl
  started-IsSingle false = (refl, omega arith)

  -- For a client that is started once. Where the timer function starts timers, at every moment exactly one attempt to be connected is under way, a socket or the timer of the next attempt, never both and never two, until the client is disposed; from then on no timer runs, and at most the last socket is left to close. Where it throws, as the default does in a browser, no timer ever runs and there is never more than one socket, so that nothing is under way once it has closed.
  pub reachable-IsSingle :
      (starts : Bool) {t : Tab} → Reachable starts jittered t → IsSingle starts t
  reachable-IsSingle starts started = started-IsSingle starts
  reachable-IsSingle starts (after r s) = Step-IsSingle starts s (reachable-IsSingle starts r)
