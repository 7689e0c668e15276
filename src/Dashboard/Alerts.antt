-- ===== src/Dashboard/Alerts.antt =====
-- apps/web/stores/alerts.ts and utils/alerts.ts: the feed of alerts of the dashboard.
use Prim.Native.String
pub mod Feed
pub mod Severities
mod Tests
use Prim.Native.Nat.{Ordering}
use airport_inspection_platf.Prelude.{
  Bool, List, Option, String, [], false, filter, if◌then◌else◌, length, ltb, none, str_eq, take, ℕ,
  ◌+◌, ◌||◌, ◌∷◌,
}
use airport_inspection_platf.Prelude.Sort.{sort}
use airport_inspection_platf.Prelude.Text.{text_lt}

pub data AlertSeverity : Type 0 where
  critical high medium low info : AlertSeverity

pub record AlertItem : Type 0 where
  pub id : String
  pub event_type : String
  pub severity : AlertSeverity
  pub title : String
  pub detail : Option String
  pub sensor_id : Option String
  pub airport_id : String
  pub received_at : String
  pub low_confidence : Option Bool

abbrev pub severity_rank : AlertSeverity → ℕ
severity_rank critical = 4
severity_rank high = 3
severity_rank medium = 2
severity_rank low = 1
severity_rank info = 0

-- the loop of `worstSeverity`
abbrev pub worst_from : AlertSeverity → List AlertItem → AlertSeverity
worst_from worst [] = worst
worst_from worst (item ∷ items) =
    worst_from
      (if ltb (severity_rank worst) (severity_rank item.severity) then item.severity else worst)
      items

unfoldable pub worst_severity : List AlertItem → AlertSeverity
worst_severity items = worst_from info items

pub record SeverityCounts : Type 0 where
  pub critical : ℕ
  pub high : ℕ
  pub medium : ℕ
  pub low : ℕ
  pub info : ℕ

-- `counts[severity]++`
abbrev pub count_one : AlertSeverity → SeverityCounts → SeverityCounts
count_one critical c = record c { critical = c.critical + 1 }
count_one high c = record c { high = c.high + 1 }
count_one medium c = record c { medium = c.medium + 1 }
count_one low c = record c { low = c.low + 1 }
count_one info c = record c { info = c.info + 1 }

abbrev pub count_from : SeverityCounts → List AlertItem → SeverityCounts
count_from counts [] = counts
count_from counts (item ∷ items) = count_from (count_one item.severity counts) items

unfoldable pub counts_by_severity : List AlertItem → SeverityCounts
counts_by_severity items =
    count_from (record { critical = 0; high = 0; medium = 0; low = 0; info = 0 }) items

-- the comparator of `insertAlert`, the newest first
unfoldable pub compare_newest : AlertItem → AlertItem → Ordering
compare_newest a b =
    if text_lt a.received_at b.received_at
    then Ordering.gt
    else if text_lt b.received_at a.received_at
    then Ordering.lt
    else Ordering.eq

-- `current.some((c) => c.id === next.id)`
abbrev pub is_listed : String → List AlertItem → Bool
is_listed id [] = false
is_listed id (c ∷ current) = str_eq c.id id || is_listed id current

unfoldable pub insert_alert : List AlertItem → AlertItem → ℕ → List AlertItem
insert_alert current next max_items =
    if is_listed next.id current
    then current
    else (let merged = sort compare_newest (next ∷ current) in
        if ltb max_items (length merged) then take max_items merged else merged)

pub data FeedState : Type 0 where
  idle loading ready error : FeedState

pub record AlertsState : Type 0 where
  pub items : List AlertItem
  pub max_items : ℕ
  pub feed_state : FeedState
  pub error : Option String
  pub reconnect_count : ℕ

abbrev pub initial_alerts : AlertsState
initial_alerts = record {
  items = [];
  max_items = 1000;
  feed_state = idle;
  error = none;
  reconnect_count = 0;
}

unfoldable pub push : AlertItem → AlertsState → AlertsState
push item s = record s { items = insert_alert s.items item s.max_items }

unfoldable pub push_many : List AlertItem → AlertsState → AlertsState
push_many [] s = s
push_many (item ∷ items) s =
    push_many items (record s { items = insert_alert s.items item s.max_items })

unfoldable pub clear : AlertsState → AlertsState
clear s = record s { items = [] }

unfoldable pub set_feed_state : FeedState → Option String → AlertsState → AlertsState
set_feed_state error message s = record s { feed_state = error; error = message }
set_feed_state state message s = record s { feed_state = state; error = none }

unfoldable pub note_reconnect : AlertsState → AlertsState
note_reconnect s = record s { reconnect_count = s.reconnect_count + 1 }

unfoldable pub for_airport : String → AlertsState → List AlertItem
for_airport airport_id s = filter (λ i. str_eq i.airport_id airport_id) s.items
