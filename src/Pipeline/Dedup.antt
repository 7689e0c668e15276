-- ===== src/Pipeline/Dedup.antt =====
-- services/event-pipeline/src/dedup: the store of idempotency keys and the wrapper of a handler.
pub mod Window
use airport_inspection_platf.Prelude.Map
use airport_inspection_platf.Prelude.Json.{Json, member, record_of, string_of}
use airport_inspection_platf.Prelude.{
  Bool, List, Option, Result, String, false, filter, if◌then◌else◌, leb, length, none, not, ok,
  some, suc, true, truthy, ℕ, ◌%◌, ◌+◌, ◌-◌, ◌==◌,
}

-- Each key with the time, in milliseconds, when it expires.
pub record DedupStore : Type 0 where
  pub entries : List (String × ℕ)
  pub window_ms : ℕ
  pub sweep_interval : ℕ
  pub op_count : ℕ

unfoldable pub has : String → ℕ → DedupStore → Bool × DedupStore
has key now store = elim (Map.get key store.entries) [
  | none ↦ (false, store)
  | some expires_at ↦
      if leb expires_at now
      then (false, record store { entries = Map.delete key store.entries })
      else (true, store)
]

-- the number of entries dropped, and the store without them
unfoldable pub sweep : ℕ → DedupStore → ℕ × DedupStore
sweep now store =
    let kept = filter (λ e. not (leb e.1 now)) store.entries in
    (length store.entries - length kept, record store { entries = kept })

-- `opCount % sweepInterval === 0`, where the remainder by 0 is not a number
abbrev pub sweeps_at : ℕ → ℕ → Bool
sweeps_at op_count sweep_interval =
    if sweep_interval == 0 then false else (op_count % sweep_interval) == 0

unfoldable pub add : String → ℕ → DedupStore → DedupStore
unfolding sweep
add key now store =
    let added = record store {
      entries = Map.set key (now + store.window_ms) store.entries;
      op_count = suc store.op_count;
    } in
    if sweeps_at added.op_count store.sweep_interval then (sweep now added).1 else added

-- What a handler does with a raw message and the state it works on; an error is what it throws.
abbrev pub Handler {ℓ} : Type ℓ → Type ℓ
Handler S = String → S → Result String Unit × S

-- the key of an object whose field is a text that is not empty
abbrev pub extract_idempotency_key : (String → Option Json) → String → Option String
unfolding member
extract_idempotency_key parse raw_payload = elim (parse raw_payload) [
  | none ↦ none
  | some json ↦ elim (record_of json) [
    | none ↦ none
    | some fields ↦ truthy (string_of (member "idempotency_key" fields))
  ]
]

-- The store and the count of suppressed messages, beside the inner handler's own state.
pub record Deduped {ℓ} (S : Type ℓ) : Type ℓ where
  pub store : DedupStore
  pub suppressed : ℕ
  pub state : S

-- The wrapped handler. `parse` is `JSON.parse`, none where it throws; the two times are the
-- clock's at the two calls on the store.
unfoldable pub with_idempotency_dedup {ℓ} :
    {S : Type ℓ} (parse : String → Option Json) (inner : Handler S) (has_at add_at : ℕ)
    → Handler (Deduped S)
unfolding has add
with_idempotency_dedup parse inner has_at add_at raw_payload d =
    elim (extract_idempotency_key parse raw_payload) [
      | none ↦ let r = inner raw_payload d.state in (r.0, record d { state = r.1 })
      | some key ↦
          let found = has key has_at d.store in
          let r = inner raw_payload d.state in
          if found.0
          then (ok tt, record d { store = found.1; suppressed = suc d.suppressed })
          else (r.0, record d { store = add key add_at found.1; state = r.1 })
    ]
