-- ===== src/Pipeline/Tests.antt =====
-- Runs of the event pipeline at concrete inputs, and the theorems at inputs that meet their
-- hypotheses.
use airport_inspection_platf.Prelude.Map
use airport_inspection_platf.Prelude.Json.{Json, end, field, member, null, obj, str}
use airport_inspection_platf.Pipeline.Dedup.{Deduped, Handler, has}
use airport_inspection_platf.Pipeline.Dedup.Window.{Arrival, deduplicated, receive, receive_all}
use airport_inspection_platf.Pipeline.Persistence.{
  Parsed, SensorFrameEvent, Tables, frame, not_json,
}
use airport_inspection_platf.Pipeline.Persistence.Once.{
  IsOnce, Message, take_in_all, take_in_all-IsOnce,
}
use airport_inspection_platf.Pipeline.Orchestrator.{admit, dropped, in_flight}
use airport_inspection_platf.Pipeline.Orchestrator.InFlight.{
  IsBounded, Reachable, Running, after, at_rest, dispatched, here, reachable-IsBounded, shed,
}
use airport_inspection_platf.Pipeline.Ordering.{ReplayItem, ReplayQueue, WatermarkTracker, enqueue}
use airport_inspection_platf.Pipeline.Ordering.Laws.{enqueue_all, enqueue_all-newest}
use airport_inspection_platf.Prelude.{
  List, Option, String, [], arith, drop, false, length, map, none, ok, refl, some, suc, ℕ, ◌++◌,
  ◌-◌, ◌∷◌, ◌≡◌, ◌≤◌,
}

-- a parser that takes the whole text as the key
abbrev parse_key : String → Option Json
parse_key s = some (obj (field "idempotency_key" (str s) end))

abbrev counting : Handler ℕ
counting raw n = (ok tt, suc n)

abbrev initial : Deduped ℕ
initial = record {
  store = record { entries = []; window_ms = 5000; sweep_interval = 100; op_count = 0 };
  suppressed = 0;
  state = 0;
}

abbrev arrival : String → ℕ → Arrival
arrival s t = record { raw_payload = s; has_at = t; add_at = t }

deduplicated_example :
    let after_first = receive parse_key counting (arrival "f1" 10) initial in
    let after_all = receive_all parse_key counting (arrival "f2" 20 ∷ []) after_first in
    (after_first.state ≡ 1)
    × ((receive parse_key counting (arrival "f1" 30) after_all).state ≡ after_all.state)
    × ((receive parse_key counting (arrival "f1" 30) after_all).suppressed
        ≡ suc after_all.suppressed)
unfolding member has Map.get
deduplicated_example =
    deduplicated parse_key counting "f1" (arrival "f1" 10) (arrival "f1" 30) (arrival "f2" 20 ∷ [])
      initial refl refl refl (omega arith) ((omega arith, omega arith), tt)
      (omega arith, omega arith)

abbrev tracker : WatermarkTracker
tracker = record { latest = []; tolerance_ms = 30 }

abbrev late : String → ReplayItem
late k = record { key = k; payload = k; enqueued_at = 0 }

abbrev small_queue : ReplayQueue
small_queue = record { items = late "a" ∷ []; max_size = 2 }

enqueue_all-newest_example :
    let arrivals = late "b" ∷ late "c" ∷ [] in
    ((enqueue_all arrivals small_queue).items
      ≡ drop
          (length (small_queue.items ++ arrivals) - small_queue.max_size)
          (small_queue.items ++ arrivals))
    × (length (enqueue_all arrivals small_queue).items ≤ small_queue.max_size)
enqueue_all-newest_example =
    enqueue_all-newest (late "b" ∷ late "c" ∷ []) small_queue (omega arith) (omega arith)

-- The oldest of three items is gone.
queue_run :
    map (λ i. i.key) (enqueue_all (late "b" ∷ late "c" ∷ []) small_queue).items ≡ "b" ∷ "c" ∷ []
unfolding enqueue
queue_run = refl

abbrev frame_1 : SensorFrameEvent
frame_1 = record {
  event_id = "e1";
  idempotency_key = some "k1";
  sensor_id = "CAM-RWY09-01";
  sensor_type = "camera";
  frame_id = "f1";
  captured_at = "2026-01-01T00:00:00.000Z";
  geo = null;
  metadata = null;
}

abbrev no_rows : Tables
no_rows = record { sensor_events = []; event_outbox = [] }

abbrev message : Parsed → Message
message p = record { refused = false; parsed = p; raw_payload = "{}" }

abbrev messages : List Message
messages = message (frame frame_1) ∷ message not_json ∷ message (frame frame_1) ∷ []

take_in_all-IsOnce_example : IsOnce (take_in_all "events.broadcast" none messages no_rows)
take_in_all-IsOnce_example =
    take_in_all-IsOnce "events.broadcast" none messages no_rows
      (record { distinct = tt; paired = refl })

one_fits : (admit "h" (at_rest 1).orchestrator).0 ≡ none
unfolding admit in_flight Map.get
one_fits = refl

full : (admit "h" (admit "h" (at_rest 1).orchestrator).1).0 ≡ some dropped
unfolding admit in_flight Map.get Map.set
full = refl

-- One call of a handler runs, and with a bound of one the next message is dropped.
abbrev one_running : (s : Running) × Reachable (at_rest 1) s
one_running = (_, after (after here (dispatched "h" one_fits)) (shed "h" full))

reachable-IsBounded_example : IsBounded 1 one_running.0
reachable-IsBounded_example = reachable-IsBounded 1 one_running.0 one_running.1
