-- ===== src/Broadcaster/Connect.antt =====
-- services/ws-broadcaster/src/routes/airport-events.ts: a client that connects, and one that leaves.
pub mod Access
use Prim.Native.String
use mathlib.Core.Option
use airport_inspection_platf.Prelude.Json.{Json}
use airport_inspection_platf.Prelude.Slices.{after_prefix, split_comma, trim}
use airport_inspection_platf.Auth.{Role, admin, operator, reviewer}
use airport_inspection_platf.Auth.Jwt.{
  AuthJwtErrorCode, Jose, JwtSigner, expired_token, invalid_secret, invalid_token, verify_access,
  wrong_kind,
}
use airport_inspection_platf.Incident.Requests.{is_uuid}
use airport_inspection_platf.Broadcaster.Registry.{
  BroadcastClient, ChannelRegistry, ClientRole, Sent, broadcast_presence_change,
  build_presence_message, operator_role, snapshot, subscribe, supervisor, unsubscribe,
}
use airport_inspection_platf.Broadcaster.Hydrator.{
  FrameHydrator, HydrationFrame, SensorEventRow, hydrate, hydrate_since, row_to_frame,
}
use airport_inspection_platf.Prelude.{
  Bool, List, Option, String, [], err, if◌then◌else◌, map, none, not, ok, some, truthy, ℕ, ◌++◌,
  ◌∷◌,
}

abbrev pub client_role_for : Role → ClientRole
client_role_for admin = supervisor
client_role_for reviewer = supervisor
client_role_for operator = operator_role

-- the first protocol `bearer.<token>` with a token
unfoldable pub bearer_token : List String → Option String
bearer_token [] = none
bearer_token (p ∷ ps) =
    let rest = bearer_token ps in
    elim (truthy (after_prefix "bearer." (trim p))) [ none ↦ rest | some token ↦ some token ]

abbrev protocols : Option String → List String
unfolding split_comma
protocols none = []
protocols (some header) = split_comma header

-- `sec-websocket-protocol` first, then `?access_token=`
unfoldable pub extract_token : Option String → Option String → Option String
unfolding bearer_token protocols
extract_token proto access_token = elim (bearer_token (protocols proto)) [
  | none ↦ truthy access_token
  | some token ↦ some token
]

-- A request to upgrade. `hydrate` is the finite number that the text gives, where it gives one; the
-- hydrator takes all that are below 1 as 1.
pub record UpgradeRequest : Type 0 where
  pub airport_id : String
  pub protocol : Option String
  pub access_token : Option String
  pub hydrate : Option ℕ
  pub last_event_id : Option String

-- The socket is closed with a code, or the client is attached: what its own socket is sent, in order, and
-- what the presence change sends to all.
pub data Upgrade : Type 0 where
  closed : ℕ → String → Upgrade
  attached : List String → Sent → Upgrade

abbrev pub code_text : AuthJwtErrorCode → String
code_text invalid_token = "invalid_token"
code_text expired_token = "expired_token"
code_text wrong_kind = "wrong_kind"
code_text invalid_secret = "invalid_secret"

-- What the route is built with: the JWT library, the signer, the hydrator, the printers of the host.
pub record RouteOptions : Type 0 where
  pub jose : Jose
  pub signer : JwtSigner
  pub hydrator : FrameHydrator
  pub stringify : Json → String
  pub number_text : ℕ → String

-- A moment: the clock in milliseconds and as text, the id that is drawn, which sockets take a message, and the
-- rows of `sensor_events`, where the database answers.
pub record Moment : Type 0 where
  pub now_ms : ℕ
  pub now : String
  pub connection_id : String
  pub sends : String → Bool
  pub table : Option (List SensorEventRow)

abbrev messages : (Json → String) → List SensorEventRow → List String
unfolding row_to_frame
messages stringify rows =
    map (λ (f : HydrationFrame). f.message) (map (row_to_frame stringify) rows)

-- the `try` around the hydration: a failure leaves the client without a backfill
unfoldable pub backfill : RouteOptions → UpgradeRequest → Moment → List String
unfolding messages hydrate hydrate_since
backfill opts req moment = elim moment.table [
  | none ↦ []
  | some table ↦ elim (truthy (Option.map trim req.last_event_id)) [
    | none ↦ messages opts.stringify (hydrate opts.hydrator req.airport_id req.hydrate table)
    | some last_event_id ↦
        messages opts.stringify
          (hydrate_since opts.hydrator req.airport_id last_event_id req.hydrate table).frames
  ]
]

abbrev pub client_of : Role → Moment → BroadcastClient
client_of role moment = record {
  role = client_role_for role;
  connection_id = moment.connection_id;
  connected_at = moment.now;
}

-- the handler after the token is verified
unfoldable pub attach :
    RouteOptions → UpgradeRequest → Moment → Role → ChannelRegistry → Upgrade × ChannelRegistry
unfolding backfill broadcast_presence_change build_presence_message snapshot subscribe
attach opts req moment role r =
    let subscribed = subscribe req.airport_id (client_of role moment) r in
    (
      attached
          (backfill opts req moment
            ++ build_presence_message opts.stringify opts.number_text "presence.snapshot"
                req.airport_id (snapshot req.airport_id r) moment.now
              ∷ [])
          (broadcast_presence_change opts.stringify opts.number_text moment.sends req.airport_id
            moment.now subscribed),
      subscribed,
    )

unfoldable pub airport_events :
    RouteOptions → UpgradeRequest → Moment → ChannelRegistry → Upgrade × ChannelRegistry
unfolding extract_token verify_access attach
airport_events opts req moment r =
    if not (is_uuid req.airport_id)
    then (closed 4400 "invalid airport id", r)
    else elim (extract_token req.protocol req.access_token) [
      | none ↦ (closed 4401 "missing access token", r)
      | some token ↦ elim (verify_access opts.jose opts.signer moment.now_ms token) [
        | err code ↦ (closed 4401 (String.◌++◌ "auth failed: " (code_text code)), r)
        | ok verified ↦ attach opts req moment verified.role r
      ]
    ]

-- `detach`, on `close` and on `error`
unfoldable pub detach :
    RouteOptions → String → BroadcastClient → Moment → ChannelRegistry → Sent × ChannelRegistry
unfolding unsubscribe broadcast_presence_change
detach opts airport_id client moment r =
    let left = unsubscribe airport_id client r in
    (
      broadcast_presence_change opts.stringify opts.number_text moment.sends airport_id moment.now
          left,
      left,
    )
