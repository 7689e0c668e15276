-- ===== src/Pipeline/Dedup/Window.antt =====
-- How long the store remembers a key.
use airport_inspection_platf.Prelude.Map
use airport_inspection_platf.Prelude.Map.{get-delete, get-set_ne, get-set_self}
use airport_inspection_platf.Pipeline.Dedup.{
  DedupStore, Deduped, Handler, add, extract_idempotency_key, has, sweep, sweeps_at,
  with_idempotency_dedup,
}
use airport_inspection_platf.Prelude.{
  All, Bool, Bool-cases, List, Option, Option-cases, String, [], ap, arith, eq_iff, false, filter,
  if◌then◌else◌, inl, inr, leb, not, refl, some, subst, suc, true, ℕ, ◌+◌, ◌<◌, ◌∙◌, ◌∷◌, ◌≡◌, ◌≢◌,
  ◌≤◌,
}
use airport_inspection_platf.Prelude.Json.{Json}

-- The store holds the key until the deadline at least.
abbrev pub Holds : String → ℕ → DedupStore → Type 0
Holds key deadline store =
    (expires_at : ℕ) × (Map.get key store.entries ≡ some expires_at) × (deadline ≤ expires_at)

get-filter :
    (key : String) (now expires_at : ℕ) (m : List (String × ℕ))
    → Map.get key m ≡ some expires_at
    → now < expires_at
    → Map.get key (filter (λ e. not (leb e.1 now)) m) ≡ some expires_at
unfolding Map.get
get-filter key now expires_at [] h l = absurd (cc)
get-filter key now expires_at ((j, v) ∷ m) h l = ground (arith, get-filter key now expires_at m)

sweep-Holds :
    (key : String) (deadline now : ℕ) (store : DedupStore)
    → now < deadline
    → Holds key deadline store
    → Holds key deadline (sweep now store).1
unfolding sweep
sweep-Holds key deadline now store l (x, e, d) =
    (x, get-filter key now x store.entries e (omega arith), d)

has-Holds :
    (key other : String) (deadline now : ℕ) (store : DedupStore)
    → now < deadline
    → Holds key deadline store
    → Holds key deadline (has other now store).1
unfolding has
has-Holds key other deadline now store l (x, e, d) =
    (x, ground (arith, get-delete key other store.entries, eq_iff other key), d)

pub has-held :
    (key : String) (deadline now : ℕ) (store : DedupStore)
    → now < deadline
    → Holds key deadline store
    → has key now store ≡ (true, store)
unfolding has
has-held key deadline now store l (x, e, d) = ground arith

swept-Holds :
    (key : String) (deadline now : ℕ) (store : DedupStore) (b : Bool)
    → now < deadline
    → Holds key deadline store
    → Holds key deadline (if b then (sweep now store).1 else store)
swept-Holds key deadline now store true l h = sweep-Holds key deadline now store l h
swept-Holds key deadline now store false l h = h

add-Holds_self :
    (key : String) (now : ℕ) (store : DedupStore)
    → 0 < store.window_ms
    → Holds key (now + store.window_ms) (add key now store)
unfolding add
add-Holds_self key now store l =
    swept-Holds key (now + store.window_ms) now _
      (sweeps_at (suc store.op_count) store.sweep_interval) (omega arith)
      (now + store.window_ms, get-set_self key (now + store.window_ms) store.entries, omega arith)

add-Holds :
    (key other : String) (deadline now : ℕ) (store : DedupStore)
    → now < deadline
    → other ≢ key
    → Holds key deadline store
    → Holds key deadline (add other now store)
unfolding add
add-Holds key other deadline now store l n (x, e, d) =
    swept-Holds key deadline now _ (sweeps_at (suc store.op_count) store.sweep_interval) l
      (x, get-set_ne key other (now + store.window_ms) store.entries n ∙ e, d)

has-window_ms :
    (key : String) (now : ℕ) (store : DedupStore)
    → (has key now store).1.window_ms ≡ store.window_ms
unfolding has
has-window_ms key now store = ground arith

-- A message as it arrives: its text and the clock's times at the two calls on the store.
pub record Arrival : Type 0 where
  pub raw_payload : String
  pub has_at : ℕ
  pub add_at : ℕ

abbrev pub Before : ℕ → Arrival → Type 0
Before deadline a = (a.has_at < deadline) × (a.add_at < deadline)

module _ {ℓ} {S : Type ℓ} (parse : String → Option Json) (inner : Handler S) where
  abbrev pub receive : Arrival → Deduped S → Deduped S
  receive a state = (with_idempotency_dedup parse inner a.has_at a.add_at a.raw_payload state).1

  abbrev pub receive_all : List Arrival → Deduped S → Deduped S
  receive_all [] state = state
  receive_all (a ∷ arrivals) state = receive_all arrivals (receive a state)

  receive-Holds :
      (key : String) (deadline : ℕ) (a : Arrival) (state : Deduped S)
      → Before deadline a
      → Holds key deadline state.store
      → Holds key deadline (receive a state).store
  unfolding with_idempotency_dedup
  receive-Holds key deadline a d (l, m) h =
      elim (Option-cases (extract_idempotency_key parse a.raw_payload)) [
        | inl e ↦ rw (e, receive) h
        | inr (k, e) ↦
            rw (e, receive)
              (let found = has-Holds key k deadline a.has_at d.store l h in
                elim (Bool-cases (has k a.has_at d.store).0) [
                  | inl t ↦ rw t found
                  | inr t ↦ rw t (
                      add-Holds key k deadline a.add_at (has k a.has_at d.store).1 m
                        (λ q.
                          let u = ap (λ r. r.0) (has-held key deadline a.has_at d.store l h) in
                          absurd (cc))
                        found)
                ])
      ]

  receive_all-Holds :
      (key : String) (deadline : ℕ) (arrivals : List Arrival) (state : Deduped S)
      → All (Before deadline) arrivals
      → Holds key deadline state.store
      → Holds key deadline (receive_all arrivals state).store
  receive_all-Holds key deadline [] state b h = h
  receive_all-Holds key deadline (a ∷ arrivals) state (b, bs) h =
      receive_all-Holds key deadline arrivals (receive a state) bs
        (receive-Holds key deadline a state b h)

  handled :
      (key : String) (a : Arrival) (d : Deduped S)
      → extract_idempotency_key parse a.raw_payload ≡ some key
      → (has key a.has_at d.store).0 ≡ false
      → (receive a d).state ≡ (inner a.raw_payload d.state).1
  unfolding with_idempotency_dedup
  handled key a d e fresh = rw (e, receive) (rw fresh refl)

  first-Holds :
      (key : String) (a : Arrival) (d : Deduped S)
      → extract_idempotency_key parse a.raw_payload ≡ some key
      → (has key a.has_at d.store).0 ≡ false
      → 0 < d.store.window_ms
      → Holds key (a.add_at + d.store.window_ms) (receive a d).store
  unfolding with_idempotency_dedup
  first-Holds key a d e fresh w =
      rw (e, receive)
        (rw fresh (
          let looked = (has key a.has_at d.store).1 in
          let same = has-window_ms key a.has_at d.store in
          subst (λ w. Holds key (a.add_at + w) (add key a.add_at looked)) same
            (add-Holds_self key a.add_at looked (rw same w))))

  suppressed_again :
      (key : String) (a : Arrival) (d : Deduped S)
      → extract_idempotency_key parse a.raw_payload ≡ some key
      → has key a.has_at d.store ≡ (true, d.store)
      → ((receive a d).state ≡ d.state) × ((receive a d).suppressed ≡ suc d.suppressed)
  unfolding with_idempotency_dedup
  suppressed_again key a d e seen = rw (e, receive) (rw seen (refl, refl))

  -- A message whose key is seen for the first time is handed to the inner handler; while less than
  -- the window has passed since then, whatever other messages arrive, a message with the same key
  -- is suppressed: the inner handler's state stays and the counter goes up by one.
  pub deduplicated :
      (key : String) (first again : Arrival) (between : List Arrival) (d : Deduped S)
      → extract_idempotency_key parse first.raw_payload ≡ some key
      → extract_idempotency_key parse again.raw_payload ≡ some key
      → (has key first.has_at d.store).0 ≡ false
      → 0 < d.store.window_ms
      → All (Before (first.add_at + d.store.window_ms)) between
      → Before (first.add_at + d.store.window_ms) again
      → ((receive first d).state ≡ (inner first.raw_payload d.state).1)
        × ((receive again (receive_all between (receive first d))).state
            ≡ (receive_all between (receive first d)).state)
        × ((receive again (receive_all between (receive first d))).suppressed
            ≡ suc (receive_all between (receive first d)).suppressed)
  deduplicated key first again between d e e' fresh w b (l, m) =
      let deadline = first.add_at + d.store.window_ms in
      let held =
        receive_all-Holds key deadline between (receive first d) b
          (first-Holds key first d e fresh w) in
      let seen = has-held key deadline again.has_at _ l held in
      let after = suppressed_again key again _ e' seen in
      (handled key first d e fresh, after.0, after.1)
