-- ===== src/Dashboard/Alerts/Tests.antt =====
-- Runs of the feed at concrete alerts, and the theorem on it.
use airport_inspection_platf.Prelude.{String, [], none, refl, ◌∷◌, ◌≡◌}
use airport_inspection_platf.Prelude.Sort.{insert, sort}
use airport_inspection_platf.Prelude.Text.{text_lt}
use airport_inspection_platf.Dashboard.Alerts.{
  AlertItem, AlertSeverity, compare_newest, high, initial_alerts, insert_alert, low,
}
use airport_inspection_platf.Dashboard.Alerts.Feed.{
  IsFeed, perform_all, perform_all-IsFeed, pushes, pushes_many,
}

abbrev alert : String → AlertSeverity → String → AlertItem
alert id severity received_at = record {
  id = id;
  event_type = "incident.created";
  severity = severity;
  title = "Incident opened";
  detail = none;
  sensor_id = none;
  airport_id = "DEN";
  received_at = received_at;
  low_confidence = none;
}

abbrev first_alert : AlertItem
first_alert = alert "e1" high "2026-01-01T00:00:00.000Z"

abbrev second_alert : AlertItem
second_alert = alert "e2" low "2026-01-01T00:00:05.000Z"

-- The later alert comes first, and the second delivery of the other one is dropped.
redelivered :
    insert_alert (insert_alert (insert_alert [] second_alert 10) first_alert 10) first_alert 10
    ≡ second_alert ∷ first_alert ∷ []
unfolding insert_alert sort insert compare_newest text_lt
redelivered = refl

perform_all-IsFeed_example :
    IsFeed 1000
      (perform_all
        (pushes first_alert ∷ pushes_many (second_alert ∷ first_alert ∷ []) ∷ [])
        initial_alerts).items
perform_all-IsFeed_example =
    perform_all-IsFeed (pushes first_alert ∷ pushes_many (second_alert ∷ first_alert ∷ []) ∷ [])
