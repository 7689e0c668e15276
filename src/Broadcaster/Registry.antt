-- ===== src/Broadcaster/Registry.antt =====
-- services/ws-broadcaster/src/channels/registry.ts, types.ts and presence/index.ts: who is connected
-- to which airport, and what is sent to them.
pub mod Connections
use airport_inspection_platf.Prelude.Map
use airport_inspection_platf.Prelude.Json.{Items, Json, arr, cons, end, field, nil, num, obj, str}
use airport_inspection_platf.Prelude.{
  Bool, List, String, [], false, filter, if◌then◌else◌, length, none, not, or_else, some, str_eq,
  true, ℕ, ◌++◌, ◌∷◌,
}

pub data ClientRole : Type 0 where
  operator_role supervisor viewer system : ClientRole

-- A connected client; its id is drawn for its connection, so it stands for the object.
pub record BroadcastClient : Type 0 where
  pub role : ClientRole
  pub connection_id : String
  pub connected_at : String

-- the predicate `allow` on a role and an event type
abbrev pub ClientFilter : Type 0
ClientFilter = ClientRole → String → Bool

pub record ChannelRegistry : Type 0 where
  pub clients : List (String × List BroadcastClient)
  pub filter_of : ClientFilter

abbrev pub is_client : String → BroadcastClient → Bool
is_client connection_id c = str_eq c.connection_id connection_id

abbrev pub has_client : String → List BroadcastClient → Bool
has_client connection_id [] = false
has_client connection_id (c ∷ cs) =
    if is_client connection_id c then true else has_client connection_id cs

-- `set.add(client)` and `set.delete(client)`
abbrev pub add_client : BroadcastClient → List BroadcastClient → List BroadcastClient
add_client c cs = if has_client c.connection_id cs then cs else cs ++ c ∷ []

abbrev pub delete_client : BroadcastClient → List BroadcastClient → List BroadcastClient
delete_client c cs = filter (λ d. not (is_client c.connection_id d)) cs

-- the clients of an airport, none where the map has no set
unfoldable pub members : String → ChannelRegistry → List BroadcastClient
members airport_id r = or_else (Map.get airport_id r.clients) []

unfoldable pub subscribe : String → BroadcastClient → ChannelRegistry → ChannelRegistry
unfolding members
subscribe airport_id client r = record r {
  clients = Map.set airport_id (add_client client (members airport_id r)) r.clients;
}

-- the map after a client has left a set: a set that is empty is dropped
abbrev pub without : String → List BroadcastClient → ChannelRegistry → ChannelRegistry
without airport_id [] r = record r { clients = Map.delete airport_id r.clients }
without airport_id (c ∷ cs) r = record r { clients = Map.set airport_id (c ∷ cs) r.clients }

unfoldable pub unsubscribe : String → BroadcastClient → ChannelRegistry → ChannelRegistry
unfolding without
unsubscribe airport_id client r = elim (Map.get airport_id r.clients) [
  | none ↦ r
  | some set ↦ without airport_id (delete_client client set) r
]

unfoldable pub subscriber_count : String → ChannelRegistry → ℕ
unfolding members
subscriber_count airport_id r = length (members airport_id r)

-- A view of each client, in the order of the set.
unfoldable pub snapshot : String → ChannelRegistry → List BroadcastClient
unfolding members
snapshot airport_id r = members airport_id r

-- What a dispatch sends: the connection and the payload, for each client that takes it.
abbrev pub Sent : Type 0
Sent = List (String × String)

-- the loop over the set; `sends` says whose `send` does not throw
unfoldable pub deliver :
    ClientFilter → (String → Bool) → String → String → List BroadcastClient → Sent
deliver allow sends event_type payload [] = []
deliver allow sends event_type payload (c ∷ cs) =
    let rest = deliver allow sends event_type payload cs in
    if not (allow c.role event_type)
    then rest
    else if sends c.connection_id
    then (c.connection_id, payload) ∷ rest
    else rest

unfoldable pub dispatch : (String → Bool) → String → String → String → ChannelRegistry → Sent
unfolding deliver members
dispatch sends airport_id event_type payload r =
    deliver r.filter_of sends event_type payload (members airport_id r)

abbrev pub role_text : ClientRole → String
role_text operator_role = "operator"
role_text supervisor = "supervisor"
role_text viewer = "viewer"
role_text system = "system"

abbrev pub entry_json : BroadcastClient → Json
entry_json c = obj (
    field "connection_id" (str c.connection_id)
      (field "role" (str (role_text c.role)) (field "connected_at" (str c.connected_at) end)))

abbrev pub entries_json : List BroadcastClient → Items
entries_json [] = nil
entries_json (c ∷ cs) = cons (entry_json c) (entries_json cs)

module _ (stringify : Json → String) (number_text : ℕ → String) where
  -- `number_text` prints a number as `JSON.stringify` does.
  unfoldable pub build_presence_message : String → String → List BroadcastClient → String → String
  build_presence_message message_type airport_id entries now = stringify (
      obj (
        field "type" (str message_type) (
          field "schema_version" (str "v1") (
            field "timestamp" (str now) (
              field "payload"
                (obj (
                  field "airport_id" (str airport_id) (
                    field "count" (num (number_text (length entries)))
                      (field "subscribers" (arr (entries_json entries)) end))))
                end)))))

  unfoldable pub broadcast_presence_change :
      (String → Bool) → String → String → ChannelRegistry → Sent
  unfolding build_presence_message dispatch snapshot
  broadcast_presence_change sends airport_id now r =
      dispatch sends airport_id "presence.changed"
        (build_presence_message "presence.changed" airport_id (snapshot airport_id r) now) r
