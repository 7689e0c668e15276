-- ===== src/Notification/Channels.antt =====
-- services/notification-service/src/channels: the registry, and the in-app, webhook and email channels.
pub mod Webhook
pub mod Unscoped
use Prim.Native.String
use airport_inspection_platf.Prelude.{
  Bool, List, Option, String, [], false, filter, if◌then◌else◌, map, none, not, or_else, some,
  str_eq, suc, take, true, truthy, zero, ℕ, ◌*◌, ◌++◌, ◌-◌, ◌==◌, ◌^◌, ◌∷◌,
}
use airport_inspection_platf.Prelude.Json.{member, obj, string_of}
use airport_inspection_platf.Notification.{NotificationEvent, includes}

pub data DeliveryStatus : Type 0 where
  delivered failed skipped : DeliveryStatus

pub record DeliveryResult : Type 0 where
  pub channel : String
  pub event_id : String
  pub status : DeliveryStatus
  pub attempts : ℕ
  pub error : Option String
  pub target : Option String
  pub completed_at : String

-- A channel over the state `S` that the deliveries change.
pub record NotificationChannel (S : Type 0) : Type 0 where
  pub name : String
  pub applies_to : NotificationEvent → Bool
  pub deliver : NotificationEvent → S → DeliveryResult × S

pub record NotificationRegistry (S : Type 0) : Type 0 where
  pub channels : List (NotificationChannel S)
  pub recent_limit : ℕ
  pub recent : List DeliveryResult

unfoldable pub new_registry :
    {S : Type 0} → List (NotificationChannel S) → Option ℕ → NotificationRegistry S
new_registry channels recent_limit = record {
  channels = channels;
  recent_limit = or_else recent_limit 200;
  recent = [];
}

module _ {S : Type 0} where
  -- The deliveries, in the order in which `Promise.all` gives their results. Each changes a part of
  -- the state of its own, so that their order does not matter.
  unfoldable pub deliver_all :
      List (NotificationChannel S) → NotificationEvent → S → List DeliveryResult × S
  deliver_all [] event s = ([], s)
  deliver_all (c ∷ cs) event s =
      let (result, s') = c.deliver event s in
      let (results, s'') = deliver_all cs event s' in (result ∷ results, s'')

  abbrev pub skipped_by : String → NotificationEvent → NotificationChannel S → DeliveryResult
  skipped_by now event c = record {
    channel = c.name;
    event_id = event.event_id;
    status = skipped;
    attempts = 0;
    error = none;
    target = none;
    completed_at = now;
  }

  -- `record`: the newest come first, and what is past the limit goes
  unfoldable pub record_results :
      List DeliveryResult → NotificationRegistry S → NotificationRegistry S
  record_results results r = record r { recent = take r.recent_limit (results ++ r.recent) }

  unfoldable pub dispatch_event :
      String
      → NotificationEvent
      → NotificationRegistry S
      → S
      → List DeliveryResult × NotificationRegistry S × S
  unfolding deliver_all record_results
  dispatch_event now event r s =
      let (results, s') = deliver_all (filter (λ c. c.applies_to event) r.channels) event s in
      let passed_over =
        map (skipped_by now event) (filter (λ c. not (c.applies_to event)) r.channels) in
      let all_results = results ++ passed_over in (all_results, record_results all_results r, s')

  -- `status`
  unfoldable pub channel_names : NotificationRegistry S → List String
  channel_names r = map (λ (c : NotificationChannel S). c.name) r.channels

-- `allowlist.length === 0 || allowlist.includes(event_type)`
unfoldable pub is_allowed_type : List String → String → Bool
is_allowed_type [] event_type = true
is_allowed_type (t ∷ ts) event_type = includes event_type (t ∷ ts)

-- `defaultAirportIdOf`
unfoldable pub default_airport_id_of : NotificationEvent → Option String
unfolding member
default_airport_id_of event = elim event.payload [
  | obj fields ↦ string_of (member "airport_id" fields)
  | _ ↦ none
]

-- the Redis channel of an event in the in-app channel
unfoldable pub in_app_target : String → NotificationEvent → String
unfolding default_airport_id_of
in_app_target prefix event =
    String.◌++◌ prefix (String.◌++◌ "." (or_else (truthy (default_airport_id_of event)) "unscoped"))

-- `InAppChannel.deliver`; `publish` gives the message of the error that Redis throws, if it does, and
-- the state holds what was published, oldest first.
unfoldable pub in_app_deliver :
    (String → NotificationEvent → Option String)
    → String
    → String
    → NotificationEvent
    → List (String × NotificationEvent)
    → DeliveryResult × List (String × NotificationEvent)
unfolding in_app_target
in_app_deliver publish prefix now event published =
    let target = in_app_target prefix event in
    elim (publish target event) [
      | none ↦ (
        record {
          channel = "in_app";
          event_id = event.event_id;
          status = delivered;
          attempts = 1;
          error = none;
          target = some target;
          completed_at = now;
        },
        published ++ (target, event) ∷ [],
      )
      | some message ↦ (
        record {
          channel = "in_app";
          event_id = event.event_id;
          status = failed;
          attempts = 1;
          error = some message;
          target = none;
          completed_at = now;
        },
        published,
      )
    ]

abbrev first_of : List String → Option String
first_of [] = none
first_of (x ∷ xs) = some x

-- `EmailChannel.deliver`, which writes to the log alone
unfoldable pub email_deliver : List String → String → NotificationEvent → DeliveryResult
email_deliver recipients now event = record {
  channel = "email";
  event_id = event.event_id;
  status = delivered;
  attempts = 1;
  error = none;
  target = truthy (first_of recipients);
  completed_at = now;
}

pub record WebhookChannel : Type 0 where
  pub url : String
  pub allowlist : List String
  pub max_attempts : ℕ
  pub initial_backoff_ms : ℕ

unfoldable pub new_webhook : String → Option (List String) → Option ℕ → Option ℕ → WebhookChannel
new_webhook url allowlist max_attempts initial_backoff_ms = record {
  url = url;
  allowlist = or_else allowlist [];
  max_attempts = or_else max_attempts 3;
  initial_backoff_ms = or_else initial_backoff_ms 100;
}

-- `WebhookChannel.appliesTo`
unfoldable pub webhook_applies_to : WebhookChannel → NotificationEvent → Bool
unfolding is_allowed_type
webhook_applies_to w event =
    if str_eq w.url "" then false else is_allowed_type w.allowlist event.event_type

-- What a post comes to: a good response, or the text of the error.
pub data Posted : Type 0 where
  accepted : Posted
  refused : String → Posted

-- The delays slept so far, the newest first, and the dead letters, the oldest first.
pub record Attempts : Type 0 where
  pub sleeps : List ℕ
  pub dlq : List DeliveryResult

-- `post` gives what the attempt of a number comes to, where the first is attempt 1.
module _ (w : WebhookChannel) (post : ℕ → Posted) (now : String) (event : NotificationEvent) where
  abbrev pub good : ℕ → DeliveryResult
  good attempt = record {
    channel = "webhook";
    event_id = event.event_id;
    status = delivered;
    attempts = attempt;
    error = none;
    target = some w.url;
    completed_at = now;
  }

  abbrev pub bad : ℕ → Option String → DeliveryResult
  bad attempt last_error = record {
    channel = "webhook";
    event_id = event.event_id;
    status = failed;
    attempts = attempt;
    error = truthy last_error;
    target = none;
    completed_at = now;
  }

  abbrev pub backoff : ℕ → ℕ
  backoff attempt = w.initial_backoff_ms * 2 ^ (attempt - 1)

  -- the loop with so many attempts left after attempt `attempt`
  unfoldable pub deliver_loop : ℕ → ℕ → Option String → Attempts → DeliveryResult × Attempts
  deliver_loop zero attempt last_error a =
      let failure = bad attempt last_error in (failure, record a { dlq = a.dlq ++ failure ∷ [] })
  deliver_loop (suc more) attempt last_error a = elim (post (suc attempt)) [
    | accepted ↦ (good (suc attempt), a)
    | refused message ↦
        deliver_loop more (suc attempt) (some message)
          (record a { sleeps = if more == 0 then a.sleeps else backoff (suc attempt) ∷ a.sleeps })
  ]

  unfoldable pub webhook_deliver : Attempts → DeliveryResult × Attempts
  unfolding deliver_loop
  webhook_deliver a = deliver_loop w.max_attempts 0 none a
