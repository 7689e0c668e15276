-- ===== src/Auth/SecurityEvents.antt =====
-- packages/security-events/src/index.ts: the events of authentication, and their publication.
use Prim.Native.String
use airport_inspection_platf.Prelude.Json.{Fields}
use airport_inspection_platf.Prelude.{
  Bool, List, Option, String, [], if◌then◌else◌, suc, truthy, ℕ, ◌++◌, ◌∷◌,
}

pub data SecurityEventType : Type 0 where
  login_succeeded login_failed refresh_succeeded refresh_failed logout : SecurityEventType
  access_denied rate_limit_blocked : SecurityEventType

abbrev pub type_text : SecurityEventType → String
type_text login_succeeded = "auth.login.succeeded"
type_text login_failed = "auth.login.failed"
type_text refresh_succeeded = "auth.refresh.succeeded"
type_text refresh_failed = "auth.refresh.failed"
type_text logout = "auth.logout"
type_text access_denied = "access.denied"
type_text rate_limit_blocked = "rate_limit.blocked"

pub record SecurityEvent : Type 0 where
  pub event_id : String
  pub event_type : SecurityEventType
  pub service : String
  pub timestamp : String
  pub actor_user_id : Option String
  pub subject_id : Option String
  pub correlation_id : Option String
  pub payload : Fields

unfoldable pub channel_for : SecurityEventType → String
channel_for event_type = String.◌++◌ "events.security." (type_text event_type)

-- the id and the time that the process draws, beside the event's own parts
unfoldable pub build_security_event :
    String
    → String
    → SecurityEventType
    → String
    → Option String
    → Option String
    → Option String
    → Fields
    → SecurityEvent
build_security_event event_id now event_type service actor subject correlation_id payload = record {
  event_id = event_id;
  event_type = event_type;
  service = service;
  timestamp = now;
  actor_user_id = actor;
  subject_id = subject;
  correlation_id = truthy correlation_id;
  payload = payload;
}

-- What Redis has taken, with the channel, and how many publications failed.
pub record SecurityEventPublisher : Type 0 where
  pub published : List (String × SecurityEvent)
  pub failures : ℕ

unfoldable pub emit : Bool → SecurityEvent → SecurityEventPublisher → SecurityEventPublisher
unfolding channel_for
emit up event p =
    if up
    then record p { published = p.published ++ (channel_for event.event_type, event) ∷ [] }
    else record p { failures = suc p.failures }
