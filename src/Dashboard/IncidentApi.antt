-- ===== src/Dashboard/IncidentApi.antt =====
-- apps/web/utils/incident-api.ts: the client of the incident service, and the wiring of it to the session store in composables/useIncidentDetail.ts.
pub mod Retry
use Prim.Native.String
use airport_inspection_platf.Prelude.{
  Bool, List, Option, Result, String, [], err, if◌then◌else◌, leb, ltb, none, ok, some, truthy, ℕ,
  ◌&&◌, ◌++◌, ◌==◌, ◌∷◌,
}
use airport_inspection_platf.Prelude.Json.{Fields, Json, end, member, null, obj, str}
use airport_inspection_platf.Incident.Lifecycle.{
  IncidentCommand, acknowledge, archive, assign, escalate, reject, resolve, start_progress,
}
use airport_inspection_platf.Dashboard.AuthStore.{
  RefreshResponse, Session, refresh_begin, refresh_settle,
}

-- The fields that the constructor takes from the body; one that the body lacks is absent.
pub record IncidentApiError : Type 0 where
  pub status : ℕ
  pub code : Option Json
  pub message : Option Json
  pub details : Option Json

-- What a call throws: an error of the API, or another exception.
pub data SendError : Type 0 where
  api_error : IncidentApiError → SendError
  exception : String → SendError

pub data Method : Type 0 where
  get post : Method

pub record Request : Type 0 where
  pub url : String
  pub method : Method
  pub headers : List (String × String)
  pub body : Option Json

-- A response with its status and what `res.json()` gives, or an exception of `fetch`.
pub data Reply : Type 0 where
  response : ℕ → Result String Json → Reply
  failed : String → Reply

-- The options of the client over the state `W` that its callbacks share.
pub record IncidentApiOptions (W : Type 0) : Type 0 where
  pub fetch_fn : Request → W → Reply × W
  pub base_url : String
  pub token_provider : W → Option String
  pub on_unauthorized : Option (W → Option String × W)

-- `res.ok`
abbrev pub is_ok : ℕ → Bool
is_ok status = leb 200 status && ltb status 300

abbrev pub bearer : Option String → List (String × String)
bearer none = []
bearer (some token) = ("authorization", String.◌++◌ "Bearer " token) ∷ []

abbrev pub content_type : Option Json → List (String × String)
content_type none = []
content_type (some body) = ("content-type", "application/json") ∷ []

-- the request that `fire` sends
unfoldable pub request_of : String → String → Method → Option Json → Option String → Request
request_of base_url path method body token = record {
  url = String.◌++◌ base_url path;
  method = method;
  headers = content_type body ++ bearer (truthy token);
  body = body;
}

abbrev fields_of : Json → Fields
fields_of (obj fields) = fields
fields_of _ = end

-- `type_error` is the message of the exception that reading a field of undefined or null throws, and
-- `decimal` is what a template literal prints for a number.
module _ (type_error : String) (decimal : ℕ → String) where
  -- `new IncidentApiError(status, parsed)`
  unfoldable pub error_of : ℕ → Json → SendError
  error_of status parsed = elim (member "error" (fields_of parsed)) [
    | none ↦ exception type_error
    | some null ↦ exception type_error
    | some body ↦ api_error (record {
      status = status;
      code = member "code" (fields_of body);
      message = member "message" (fields_of body);
      details = member "details" (fields_of body);
    })
  ]

  -- the error where the body is no JSON
  unfoldable pub unknown_error : ℕ → SendError
  unknown_error status = api_error (record {
    status = status;
    code = some (str "UNKNOWN");
    message = some (str (String.◌++◌ "request failed with status " (decimal status)));
    details = none;
  })

  -- `send` after its last request
  unfoldable pub finish : Reply → Result SendError Json
  unfolding error_of unknown_error
  finish (failed message) = err (exception message)
  finish (response status (ok body)) = if is_ok status then ok body else err (error_of status body)
  finish (response status (err thrown)) =
      if is_ok status then err (exception thrown) else err (unknown_error status)

  module _ {W : Type 0} (opts : IncidentApiOptions W) where
    abbrev pub fire : String → Method → Option Json → Option String → W → Reply × W
    fire path method body token w =
        opts.fetch_fn (request_of opts.base_url path method body token) w

    -- The second request, if there is a token to send it with.
    unfoldable pub retry :
        String → Method → Option Json → Reply → Option String → W → Result SendError Json × W
    unfolding finish
    retry path method body res none w = (finish res, w)
    retry path method body res (some token) w =
        let (again, w') = fire path method body (some token) w in (finish again, w')

    -- the test on the first reply
    unfoldable pub after_first :
        String → Method → Option Json → Reply → W → Result SendError Json × W
    unfolding finish retry
    after_first path method body (failed message) w = (finish (failed message), w)
    after_first path method body (response status json) w =
        if status == 401
        then elim opts.on_unauthorized [
          | none ↦ (finish (response status json), w)
          | some on_unauthorized ↦
              let (fresh, w') = on_unauthorized w in
              retry path method body (response status json) (truthy fresh) w'
        ]
        else (finish (response status json), w)

    unfoldable pub send : String → Method → Option Json → W → Result SendError Json × W
    unfolding after_first
    send path method body w =
        let (res, w') = fire path method body (opts.token_provider w) w in
        after_first path method body res w'

    unfoldable pub get_incident : String → W → Result SendError Json × W
    unfolding send
    get_incident id w = send (String.◌++◌ "/" id) get none w

    unfoldable pub command_path : String → IncidentCommand → String
    command_path id command = String.◌++◌ "/" (String.◌++◌ id (String.◌++◌ "/" (name command)))
      where
        name : IncidentCommand → String
        name acknowledge = "acknowledge"
        name assign = "assign"
        name start_progress = "start_progress"
        name resolve = "resolve"
        name escalate = "escalate"
        name archive = "archive"
        name reject = "reject"

    -- the seven methods that post a command
    unfoldable pub post_command : IncidentCommand → String → Json → W → Result SendError Json × W
    unfolding send command_path
    post_command command id body w = send (command_path id command) post (some body) w

-- The state behind a client that the session store is wired to: the store and the servers.
pub record Wired (T S : Type 0) : Type 0 where
  pub session : Session T
  pub servers : S

-- `fetch` is the network, and `post_refresh` is `postRefresh` over it.
module _ {T S : Type 0} (stringify : Json → T) (fetch : Request → S → Reply × S)
    (post_refresh : String → S → Result String RefreshResponse × S) where
  -- `auth.refresh()`
  unfoldable pub refresh : Wired T S → Option String × Wired T S
  refresh w = elim (refresh_begin stringify w.session) [
    | none ↦ (none, w)
    | some refresh_token ↦
        let (outcome, servers) = post_refresh refresh_token w.servers in
        let (fresh, session) = refresh_settle stringify outcome w.session in
        (fresh, record { session = session; servers = servers })
  ]

  -- the default client of `useIncidentDetail`
  unfoldable pub wired_options : String → IncidentApiOptions (Wired T S)
  unfolding refresh
  wired_options base_url = record {
    fetch_fn = λ req w.
        let (reply, servers) = fetch req w.servers in
        (reply, record { session = w.session; servers = servers });
    base_url = base_url;
    token_provider = λ w. w.session.auth.access_token;
    on_unauthorized = some refresh;
  }
