-- ===== src/Pipeline/Outbox.antt =====
-- services/event-pipeline/src/persistence/outbox-worker.ts: the rows of the outbox go to Redis.
pub mod Rows
pub mod Delivery
mod Tests
use airport_inspection_platf.Prelude.{
  Bool, List, String, [], false, filter, if◌then◌else◌, map, not, suc, take, true, ℕ, ◌++◌, ◌+◌,
  ◌-◌, ◌==◌, ◌∷◌,
}

-- A row of `event_outbox`.
pub record OutboxEntry : Type 0 where
  pub id : ℕ
  pub channel : String
  pub payload : String
  pub attempts : ℕ
  pub published : Bool

-- What Redis took, with the row that it came from.
pub record Publication : Type 0 where
  pub row_id : ℕ
  pub channel : String
  pub payload : String

-- The table in the order of its ids, what Redis took, and the worker's flag.
pub record Outbox : Type 0 where
  pub rows : List OutboxEntry
  pub sent : List Publication
  pub in_flight : Bool

-- How the calls for a row go: both succeed; Redis refuses; Redis takes the message and the row cannot be
-- marked; or, after either failure, the attempt cannot be counted, and the error leaves `tick`.
pub data RowOutcome : Type 0 where
  delivered refused unmarked refused_uncounted unmarked_uncounted : RowOutcome

-- `UPDATE event_outbox SET published_at = now() WHERE id = $1`
unfoldable pub mark_published : ℕ → List OutboxEntry → List OutboxEntry
mark_published id rows =
    map (λ (r : OutboxEntry). if r.id == id then record r { published = true } else r) rows

-- `UPDATE event_outbox SET attempts = attempts + 1 WHERE id = $1`
unfoldable pub count_attempt : ℕ → List OutboxEntry → List OutboxEntry
count_attempt id rows =
    map (λ (r : OutboxEntry). if r.id == id then record r { attempts = suc r.attempts } else r) rows

abbrev pub publication : OutboxEntry → Publication
publication r = record { row_id = r.id; channel = r.channel; payload = r.payload }

abbrev pub after_publish : OutboxEntry → Outbox → Outbox
after_publish row box = record box { sent = box.sent ++ publication row ∷ [] }

abbrev pub after_mark : OutboxEntry → Outbox → Outbox
unfolding mark_published
after_mark row box = record box { rows = mark_published row.id box.rows }

abbrev pub after_count : OutboxEntry → Outbox → Outbox
unfolding count_attempt
after_count row box = record box { rows = count_attempt row.id box.rows }

-- What a tick returns: what it published and what failed, or an error.
pub data TickResult : Type 0 where
  counts : ℕ → ℕ → TickResult
  threw : TickResult

-- The table and Redis after the calls for one row.
unfoldable pub after_outcome : RowOutcome → OutboxEntry → Outbox → Outbox
unfolding after_mark after_count
after_outcome delivered row box = after_mark row (after_publish row box)
after_outcome refused row box = after_count row box
after_outcome unmarked row box = after_count row (after_publish row box)
after_outcome refused_uncounted row box = box
after_outcome unmarked_uncounted row box = after_publish row box

-- whether the error of a row leaves the loop
abbrev pub leaves : RowOutcome → Bool
leaves refused_uncounted = true
leaves unmarked_uncounted = true
leaves _ = false

abbrev pub is_delivered : RowOutcome → ℕ
is_delivered delivered = 1
is_delivered _ = 0

-- the loop over the batch, with the two counts so far
unfoldable pub publish_rows :
    (ℕ → RowOutcome) → ℕ → ℕ → List OutboxEntry → Outbox → TickResult × Outbox
unfolding after_outcome
publish_rows outcome published failed [] box = (counts published failed, box)
publish_rows outcome published failed (row ∷ rows) box =
    let o = outcome row.id in
    let next = after_outcome o row box in
    let rest =
      publish_rows outcome (published + is_delivered o) (failed + (1 - is_delivered o)) rows next in
    if leaves o then (threw, next) else rest

-- `WHERE published_at IS NULL ORDER BY id LIMIT $1`
abbrev pub batch : ℕ → List OutboxEntry → List OutboxEntry
batch batch_size rows = take batch_size (filter (λ (r : OutboxEntry). not r.published) rows)

abbrev pub landed : TickResult × Outbox → TickResult × Outbox
landed (result, box) = (result, record box { in_flight = false })

-- `tick`; `selects` says whether the query for the batch succeeds
unfoldable pub tick : ℕ → Bool → (ℕ → RowOutcome) → Outbox → TickResult × Outbox
unfolding publish_rows
tick batch_size selects outcome box =
    if box.in_flight
    then (counts 0 0, box)
    else if selects
    then landed
        (publish_rows outcome 0 0 (batch batch_size box.rows) (record box { in_flight = true }))
    else (threw, box)
