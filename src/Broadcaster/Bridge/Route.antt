-- ===== src/Broadcaster/Bridge/Route.antt =====
-- A frame that the pipeline has stored, on its way to the clients of its airport.
use Prim.Native.String
use text.Mathlib.TextLemmas.{append_assoc}
use airport_inspection_platf.Pipeline.Persistence.{channel_name}
use airport_inspection_platf.Broadcaster.Bridge.{
  RedisBridge, count_received, extract_airport_id, handle_message, peek_event_type, to_ws_envelope,
}
use airport_inspection_platf.Prelude.{
  Bool, Bool-cases, List, Option, String, [], ap, arith, filter, if_false, if_true, inl, inr, map,
  none, refl, some, str_eq, str_eq_ne, suc, sym, truthy, ◌&&◌, ◌∙◌, ◌∷◌, ◌≡◌, ◌≢◌,
}
use airport_inspection_platf.Prelude.Slices.{after_prefix, after_prefix-append, after_prefix-longer}
use airport_inspection_platf.Prelude.Json.{Json}
use airport_inspection_platf.Broadcaster.Registry.{
  BroadcastClient, ChannelRegistry, ClientFilter, Sent, deliver, dispatch, members,
}

after_prefix-dot :
    (prefix id : String)
    → after_prefix (String.◌++◌ prefix ".") (String.◌++◌ prefix (String.◌++◌ "." id)) ≡ some id
after_prefix-dot prefix id =
    rw (sym (append_assoc prefix "." id)) (after_prefix-append (String.◌++◌ prefix ".") id)

abbrev suffixed : String → Option String → String
suffixed prefix none = prefix
suffixed prefix (some id) = String.◌++◌ prefix (String.◌++◌ "." id)

-- The airport of a channel that the pipeline names is taken back from the name.
extract_airport_id-channel_name :
    (prefix : String) (airport_id : Option String)
    → extract_airport_id prefix (channel_name prefix airport_id) ≡ truthy airport_id
unfolding extract_airport_id
extract_airport_id-channel_name prefix none = ap truthy (after_prefix-longer prefix _)
extract_airport_id-channel_name prefix (some id) = elim (Bool-cases (str_eq id "")) [
  | inl empty ↦
      ap (λ o. extract_airport_id prefix (suffixed prefix o)) (if_true _ _ _ empty)
      ∙ ap truthy (after_prefix-longer prefix _)
      ∙ sym (if_true _ _ _ empty)
  | inr other ↦
      ap (λ o. extract_airport_id prefix (suffixed prefix o)) (if_false _ _ _ other)
      ∙ ap truthy (after_prefix-dot prefix id)
]

extract_airport_id-some :
    (prefix id : String)
    → id ≢ ""
    → extract_airport_id prefix (channel_name prefix (some id)) ≡ some id
extract_airport_id-some prefix id named =
    extract_airport_id-channel_name prefix (some id) ∙ if_false _ _ _ (str_eq_ne id "" named)

-- The connections that a payload is for, with the payload.
abbrev pub addressed :
    ClientFilter → (String → Bool) → String → String → List BroadcastClient → Sent
addressed allow sends event_type payload cs =
    map (λ (c : BroadcastClient). (c.connection_id, payload))
      (filter (λ c. allow c.role event_type && sends c.connection_id) cs)

deliver_lem :
    (allow : ClientFilter) (sends : String → Bool) (event_type payload : String)
    (cs : List BroadcastClient)
    → deliver allow sends event_type payload cs ≡ addressed allow sends event_type payload cs
unfolding deliver
deliver_lem allow sends event_type payload [] = refl
deliver_lem allow sends event_type payload (c ∷ cs) =
    ground (arith, deliver_lem allow sends event_type payload cs)

-- A stored frame whose airport is named and whose payload gives an event type is sent, wrapped, to
-- exactly the connections that the registry holds at that airport, whose role the filter lets see the
-- type and whose socket takes messages, once each and in the order of the set; it counts as received.
pub handle_message-channel_name :
    (parse : String → Option Json) (stringify : Json → String) (sends : String → Bool)
    (now id payload event_type : String) (r : ChannelRegistry) (b : RedisBridge)
    → id ≢ ""
    → peek_event_type parse stringify payload ≡ some event_type
    → handle_message parse stringify sends now (channel_name b.prefix (some id)) payload r b ≡ (
      count_received parse stringify id b,
      addressed r.filter_of sends event_type
          (to_ws_envelope parse stringify payload event_type now)
          (members id r),
    )
unfolding handle_message dispatch
handle_message-channel_name parse stringify sends now id payload event_type r b named peeked =
    rw (extract_airport_id-some b.prefix id named, peeked, handle_message)
      (ap (λ sent. (count_received parse stringify id b, sent))
        (deliver_lem r.filter_of sends event_type _ (members id r)))

-- A stored frame whose payload gives no event type is counted as malformed, and nothing is sent.
pub handle_message-malformed :
    (parse : String → Option Json) (stringify : Json → String) (sends : String → Bool)
    (now id payload : String) (r : ChannelRegistry) (b : RedisBridge)
    → id ≢ ""
    → peek_event_type parse stringify payload ≡ none
    → handle_message parse stringify sends now (channel_name b.prefix (some id)) payload r b
      ≡ (record b { malformed_payload = suc b.malformed_payload }, [])
unfolding handle_message
handle_message-malformed parse stringify sends now id payload r b named unread =
    rw (extract_airport_id-some b.prefix id named, unread, handle_message) refl
