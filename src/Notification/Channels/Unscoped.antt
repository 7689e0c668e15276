-- ===== src/Notification/Channels/Unscoped.antt =====
-- services/notification-service/src/channels/in-app.ts beside services/ws-broadcaster/src/channels/redis-bridge.ts: where an incident's transition goes in the in-app channel.
use airport_inspection_platf.Broadcaster.Bridge
use Prim.Native.String
use airport_inspection_platf.Prelude.{
  Bool, Option, Option-cases, String, [], ap, arith, eq_iff, if_true, inl, inr, none, or_else, refl,
  some, subst, sym, true, truthy, ◌∙◌, ◌≡◌, ◌≢◌,
}
use airport_inspection_platf.Prelude.Json.{Json, member}
use airport_inspection_platf.Incident.Requests.{is_uuid}
use airport_inspection_platf.Incident.Lifecycle.{Transition}
use airport_inspection_platf.Incident.Aggregate.{build_transition_event}
use airport_inspection_platf.Notification.{NotificationEvent, event_in, parsed}
use airport_inspection_platf.Notification.Duplicates.{event_json}
use airport_inspection_platf.Notification.Channels.{default_airport_id_of, in_app_target}
use airport_inspection_platf.Broadcaster.Bridge.{RedisBridge}
use airport_inspection_platf.Broadcaster.Registry.{ChannelRegistry, Sent, members}
use airport_inspection_platf.Pipeline.Persistence.{channel_name}
use airport_inspection_platf.Broadcaster.Bridge.Route.{
  addressed, handle_message-channel_name, handle_message-malformed,
}

-- An event without an airport goes to the channel of an airport of the name "unscoped".
in_app_target-unscoped :
    (prefix : String) (event : NotificationEvent)
    → default_airport_id_of event ≡ none
    → in_app_target prefix event ≡ channel_name prefix (some "unscoped")
unfolding in_app_target
in_app_target-unscoped prefix event e =
    ap (λ o. String.◌++◌ prefix (String.◌++◌ "." (or_else (truthy o) "unscoped"))) e

published_unscoped :
    (transition_json : Transition → Json) (now incident_id : String) (t : Transition)
    (c : Option String)
    → is_uuid incident_id ≡ true
    → (event : NotificationEvent) × (event_in now
          (event_json transition_json (build_transition_event incident_id t c))
        ≡ parsed event)
      × (default_airport_id_of event ≡ none)
unfolding event_in build_transition_event member default_airport_id_of
published_unscoped transition_json now incident_id t none u = (_, if_true _ _ _ u, refl)
published_unscoped transition_json now incident_id t (some d) u = (_, if_true _ _ _ u, refl)

parsed_eq : {a b : NotificationEvent} → parsed a ≡ parsed b → a ≡ b
parsed_eq e = cc

module _ (parse : String → Option Json) (stringify : Json → String) where
  -- The bridge sends nothing for a channel at whose airport nobody is connected.
  nobody_there :
      (sends : String → Bool) (now id payload : String) (r : ChannelRegistry) (b : RedisBridge)
      → id ≢ ""
      → members id r ≡ []
      → (Bridge.handle_message parse stringify sends now
          (channel_name b.prefix (some id))
          payload
          r
          b).1
        ≡ []
  nobody_there sends now id payload r b named empty =
      elim (Option-cases (Bridge.peek_event_type parse stringify payload)) [
        | inl e ↦
            ap (λ (p : RedisBridge × Sent). p.1)
              (handle_message-malformed parse stringify sends now id payload r b named e)
        | inr (event_type, e) ↦
            ap (λ (p : RedisBridge × Sent). p.1)
              (handle_message-channel_name parse stringify sends now id payload event_type r b named
                e)
            ∙ ap
                (addressed r.filter_of sends event_type
                  (Bridge.to_ws_envelope parse stringify payload event_type now))
                empty
      ]

  -- The transitions that incident-service publishes name no airport: the in-app channel publishes each of them for the airport "unscoped", and what the broadcaster makes of that reaches nobody, unless somebody is connected for an airport of that name.
  pub transitions_reach_nobody :
      (transition_json : Transition → Json) (now incident_id : String) (t : Transition)
      (c : Option String) (event : NotificationEvent) (sends : String → Bool)
      (later payload : String) (r : ChannelRegistry) (b : RedisBridge)
      → is_uuid incident_id ≡ true
      → event_in now (event_json transition_json (build_transition_event incident_id t c))
        ≡ parsed event
      → members "unscoped" r ≡ []
      → (Bridge.handle_message parse stringify sends later
          (in_app_target b.prefix event)
          payload
          r
          b).1
        ≡ []
  transitions_reach_nobody transition_json now incident_id t c event sends later payload r b u read
        empty =
      let (found, p, e) = published_unscoped transition_json now incident_id t c u in
      let same : found ≡ event = parsed_eq (sym p ∙ read) in
      ap (λ target. (Bridge.handle_message parse stringify sends later target payload r b).1)
        (in_app_target-unscoped b.prefix event (subst (λ x. default_airport_id_of x ≡ none) same e))
      ∙ nobody_there sends later "unscoped" payload r b (ground (arith, eq_iff "unscoped" "")) empty
