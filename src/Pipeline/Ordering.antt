-- ===== src/Pipeline/Ordering.antt =====
-- services/event-pipeline/src/prioritization: priorities, watermarks and the replay queue.
pub mod Laws
use airport_inspection_platf.Prelude.Map
use airport_inspection_platf.Prelude.{
  Bool, List, Option, String, [], drop, false, if◌then◌else◌, leb, length, none, some, take, true,
  ℕ, ◌++◌, ◌-◌, ◌∷◌,
}

pub data OrderStatus : Type 0 where
  in_order late_in_window late_beyond_window : OrderStatus

-- The latest `captured_at` of each sensor, in milliseconds.
pub record WatermarkTracker : Type 0 where
  pub latest : List (String × ℕ)
  pub tolerance_ms : ℕ

unfoldable pub check : String → ℕ → WatermarkTracker → OrderStatus × WatermarkTracker
check sensor_id captured_at_ms tracker =
    let advanced = record tracker { latest = Map.set sensor_id captured_at_ms tracker.latest } in
    elim (Map.get sensor_id tracker.latest) [
      | none ↦ (in_order, advanced)
      | some last ↦
          if leb last captured_at_ms
          then (in_order, advanced)
          else if leb (last - captured_at_ms) tracker.tolerance_ms
          then (late_in_window, tracker)
          else (late_beyond_window, tracker)
    ]

unfoldable pub watermark_for : String → WatermarkTracker → Option ℕ
watermark_for sensor_id tracker = Map.get sensor_id tracker.latest

pub record ReplayItem : Type 0 where
  pub key : String
  pub payload : String
  pub enqueued_at : ℕ

pub record ReplayQueue : Type 0 where
  pub items : List ReplayItem
  pub max_size : ℕ

unfoldable pub enqueue : String → String → ℕ → ReplayQueue → Bool × ReplayQueue
enqueue key payload now queue =
    let item : ReplayItem = record { key = key; payload = payload; enqueued_at = now } in
    if leb queue.max_size (length queue.items)
    then (false, record queue { items = drop 1 queue.items ++ item ∷ [] })
    else (true, record queue { items = queue.items ++ item ∷ [] })

unfoldable pub drain : ℕ → ReplayQueue → List ReplayItem × ReplayQueue
drain limit queue = (take limit queue.items, record queue { items = drop limit queue.items })
