-- ===== src/Pipeline/Prioritization.antt =====
-- services/event-pipeline/src/prioritization/priority.ts and middleware.ts, and src/replay/worker.ts:
-- which frames are handled now, which wait for the replay worker.
use Prim.Native.String
use Prim.Native.Char.{code}
use airport_inspection_platf.Pipeline.Persistence.{
  Parsed, SensorFrameEvent, frame, not_a_frame, not_json,
}
use airport_inspection_platf.Pipeline.Ordering.{
  OrderStatus, ReplayItem, ReplayQueue, WatermarkTracker, check, drain, enqueue, late_beyond_window,
}
use airport_inspection_platf.Prelude.{
  Bool, List, String, [], false, if◌then◌else◌, leb, str_eq, suc, true, ℕ, ◌&&◌, ◌*◌, ◌+◌, ◌-◌, ◌/◌,
  ◌==◌, ◌||◌, ◌∷◌,
}

abbrev upper : ℕ → ℕ
upper c = if leb b'a' c && leb c b'z' then c - 32 else c

-- whether the text starts so, up to the case of letters
starts_with_any_case : String → String → Bool
starts_with_any_case String.[] s = true
starts_with_any_case (String.◌∷◌ c p) String.[] = false
starts_with_any_case (String.◌∷◌ c p) (String.◌∷◌ d s) =
    upper (code c) == upper (code d) && starts_with_any_case p s

-- `/p/i.test(s)`
unfoldable pub matches_any_case : String → String → Bool
unfolding starts_with_any_case
matches_any_case p String.[] = starts_with_any_case p ""
matches_any_case p (String.◌∷◌ c s) =
    starts_with_any_case p (String.◌∷◌ c s) || matches_any_case p s

unfoldable pub location_base_priority : String → ℕ
unfolding matches_any_case
location_base_priority sensor_id =
    if matches_any_case "-RWY" sensor_id
    then 100
    else if matches_any_case "-TWY" sensor_id
    then 60
    else if matches_any_case "-APR" sensor_id
    then 30
    else 50

-- the weight of a sensor type, in tenths
unfoldable pub sensor_type_weight : String → ℕ
sensor_type_weight t =
    if str_eq t "camera" || str_eq t "lidar"
    then 10
    else if str_eq t "perimeter"
    then 8
    else if str_eq t "weather"
    then 5
    else if str_eq t "gps" || str_eq t "imu"
    then 3
    else 5

-- `Math.round(base * weight)`
unfoldable pub compute_frame_priority : SensorFrameEvent → ℕ
unfolding location_base_priority sensor_type_weight
compute_frame_priority event =
    (location_base_priority event.sensor_id * sensor_type_weight event.sensor_type + 5) / 10

pub data PriorityTier : Type 0 where
  critical_tier high_tier medium_tier low_tier : PriorityTier

unfoldable pub priority_tier : ℕ → PriorityTier
priority_tier priority =
    if leb 90 priority
    then critical_tier
    else if leb 60 priority
    then high_tier
    else if leb 30 priority
    then medium_tier
    else low_tier

-- What the wrapper shares between messages.
pub record Prioritizer : Type 0 where
  pub watermark : WatermarkTracker
  pub replay_queue : ReplayQueue

-- What becomes of a message: its parse throws; it waits for the replay, which may have cost the oldest
-- item; or the inner handler gets it.
pub data Routed : Type 0 where
  unparsed : Routed
  queued : Bool → Routed
  handed_on : PriorityTier → OrderStatus → Routed

abbrev by_status :
    OrderStatus → PriorityTier → SensorFrameEvent → String → ℕ → Prioritizer → Routed × Prioritizer
unfolding enqueue
by_status late_beyond_window tier event raw_payload now p =
    let (accepted, queue) =
      enqueue (String.◌++◌ event.sensor_id (String.◌++◌ ":" event.frame_id)) raw_payload now
        p.replay_queue in
    (queued accepted, record p { replay_queue = queue })
by_status status tier event raw_payload now p = (handed_on tier status, p)

-- `handle` of the wrapper up to the call of the inner handler. The schema makes `captured_at` a date, of
-- which `date_parse` gives the milliseconds.
unfoldable pub with_prioritization :
    (String → ℕ) → ℕ → Parsed → String → Prioritizer → Routed × Prioritizer
unfolding check by_status compute_frame_priority priority_tier
with_prioritization date_parse now not_json raw_payload p = (unparsed, p)
with_prioritization date_parse now not_a_frame raw_payload p = (unparsed, p)
with_prioritization date_parse now (frame event) raw_payload p =
    let (status, tracker) = check event.sensor_id (date_parse event.captured_at) p.watermark in
    by_status status (priority_tier (compute_frame_priority event)) event raw_payload now
      (record p { watermark = tracker })

-- What a tick of the replay worker reports.
pub record Drained : Type 0 where
  pub processed : ℕ
  pub errored : ℕ

-- the loop over the items; `handles` says for which of them the handler does not throw
unfoldable pub dispatch_items : (ReplayItem → Bool) → List ReplayItem → Drained → Drained
dispatch_items handles [] d = d
dispatch_items handles (item ∷ items) d = dispatch_items handles items (
    if handles item
    then record d { processed = suc d.processed }
    else record d { errored = suc d.errored })

-- `tick`: an item is taken from the queue whether its handling succeeds or not
unfoldable pub replay_tick : (ReplayItem → Bool) → ℕ → Drained → ReplayQueue → Drained × ReplayQueue
unfolding drain dispatch_items
replay_tick handles batch_size d queue =
    let (items, rest) = drain batch_size queue in (dispatch_items handles items d, rest)
