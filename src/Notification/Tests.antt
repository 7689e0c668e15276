-- ===== src/Notification/Tests.antt =====
-- The subscriber at a concrete input.
use airport_inspection_platf.Prelude.Map
use airport_inspection_platf.Broadcaster.Bridge
use airport_inspection_platf.Prelude.Json.{Json, end, field, member, obj, str}
use airport_inspection_platf.Incident.Requests.{is_uuid}
use airport_inspection_platf.Incident.Lifecycle.{
  Transition, acknowledge, acknowledged, assign, assigned, new,
}
use airport_inspection_platf.Incident.Aggregate.{build_transition_event}
use airport_inspection_platf.Notification.{
  IncidentNotificationsSubscriber, NotificationEvent, event_in, handle_event, handle_message,
  parsed, remember,
}
use airport_inspection_platf.Notification.Channels.{
  Attempts, Posted, WebhookChannel, accepted, in_app_target, refused, webhook_deliver,
}
use airport_inspection_platf.Notification.Channels.Webhook.{Ends, first_good, webhook_deliver-Ends}
use airport_inspection_platf.Notification.Channels.Unscoped.{transitions_reach_nobody}
use airport_inspection_platf.Broadcaster.Bridge.{RedisBridge}
use airport_inspection_platf.Broadcaster.Registry.{ChannelRegistry, members}
use airport_inspection_platf.Notification.Duplicates.{event_json, second_transition_unnotified}
use airport_inspection_platf.Prelude.{
  Option, String, [], arith, if◌then◌else◌, length, none, refl, some, str_eq, suc, true, ℕ, ◌==◌,
  ◌≡◌,
}

abbrev subscriber : IncidentNotificationsSubscriber
subscriber = record {
  dropped = 0;
  duplicates = 0;
  seen = [];
  idempotency_window = 1000;
  dispatched = [];
}

abbrev incident : String
incident = "00000000-0000-4000-8000-00000000000a"

abbrev acknowledged_by_pat : Transition
acknowledged_by_pat = record {
  from = new;
  to = acknowledged;
  command = acknowledge;
  actor = "pat";
  reason = none;
  occurred_at = "t1";
}

abbrev assigned_by_pat : Transition
assigned_by_pat = record {
  from = acknowledged;
  to = assigned;
  command = assign;
  actor = "pat";
  reason = none;
  occurred_at = "t2";
}

abbrev bare : Transition → Json
bare t = obj (field "occurred_at" (str t.occurred_at) end)

abbrev toy_parse : String → Option Json
unfolding build_transition_event
toy_parse raw =
    if str_eq raw "1"
    then some (event_json bare (build_transition_event incident acknowledged_by_pat none))
    else some (event_json bare (build_transition_event incident assigned_by_pat none))

known_uuid : is_uuid incident ≡ true
unfolding is_uuid
known_uuid = refl

first_parsed :
    toy_parse "1"
    ≡ some (event_json bare (build_transition_event incident acknowledged_by_pat none))
unfolding toy_parse build_transition_event
first_parsed = refl

second_parsed :
    toy_parse "2" ≡ some (event_json bare (build_transition_event incident assigned_by_pat none))
unfolding toy_parse build_transition_event
second_parsed = refl

second_transition_unnotified_example :
    let notified = handle_message toy_parse "n1" "1" subscriber in
    handle_message toy_parse "n2" "2" notified
    ≡ record notified { duplicates = suc notified.duplicates }
second_transition_unnotified_example =
    second_transition_unnotified toy_parse bare "1" "2" "n1" "n2" incident acknowledged_by_pat
      assigned_by_pat none none subscriber known_uuid (omega arith) first_parsed second_parsed

-- Only the first of the two transitions was dispatched.
one_dispatched :
    length
      (handle_message toy_parse "n2" "2" (handle_message toy_parse "n1" "1" subscriber)).dispatched
    ≡ 1
unfolding handle_message handle_event event_in toy_parse build_transition_event member is_uuid
    remember
one_dispatched = refl

abbrev hook : WebhookChannel
hook = record {
  url = "https://hooks.example";
  allowlist = [];
  max_attempts = 3;
  initial_backoff_ms = 100;
}

-- The first attempt is refused and the second is answered well.
abbrev second_time : ℕ → Posted
second_time n = if n == 1 then refused "http_503" else accepted

abbrev acknowledged_event : NotificationEvent
acknowledged_event = record {
  event_id = incident;
  event_type = "incident.transitioned";
  subject_id = incident;
  source = "incident-service";
  occurred_at = "t1";
  payload = event_json bare (build_transition_event incident acknowledged_by_pat none);
  rationale = none;
}

abbrev untried : Attempts
untried = record { sleeps = []; dlq = [] }

webhook_deliver-Ends_example :
    Ends 100
      (first_good second_time 3 0)
      3
      []
      (webhook_deliver hook second_time "now" acknowledged_event untried)
webhook_deliver-Ends_example =
    webhook_deliver-Ends hook second_time "now" acknowledged_event untried (omega arith) refl

second_attempt : first_good second_time 3 0 ≡ some 2
unfolding first_good
second_attempt = refl

acknowledged_read :
    event_in "now" (event_json bare (build_transition_event incident acknowledged_by_pat none))
    ≡ parsed acknowledged_event
unfolding event_in build_transition_event member is_uuid
acknowledged_read = refl

abbrev nobody : ChannelRegistry
nobody = record { clients = []; filter_of = λ role event_type. true }

abbrev bridge : RedisBridge
bridge = Bridge.new_bridge none none

nobody_connected : members "unscoped" nobody ≡ []
unfolding members Map.get
nobody_connected = refl

transitions_reach_nobody_example :
    (Bridge.handle_message toy_parse
      (λ j. "")
      (λ c. true)
      "now"
      (in_app_target bridge.prefix acknowledged_event)
      "1"
      nobody
      bridge).1
    ≡ []
transitions_reach_nobody_example =
    transitions_reach_nobody toy_parse (λ j. "") bare "now" incident acknowledged_by_pat none
      acknowledged_event (λ c. true) "now" "1" nobody bridge known_uuid acknowledged_read
      nobody_connected
