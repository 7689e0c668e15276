-- ===== src/Dashboard/Socket.antt =====
-- apps/web/composables/useWebSocket.ts and utils/ws-reconnect.ts: the live connection of the dashboard.
pub mod Single
mod Tests
use Prim.Native.String
use airport_inspection_platf.Prelude.{
  Bool, List, Option, String, [], false, if◌then◌else◌, min, none, some, suc, true, truthy, ℕ, ◌*◌,
  ◌==◌, ◌^◌, ◌||◌, ◌∷◌,
}

pub data WsConnectionState : Type 0 where
  connecting connected reconnecting disconnected : WsConnectionState

-- The client, with whether a socket is kept and whether the timer of a reconnect is running, the
-- changes of state that were reported, and the delays of the timers, the newest first.
pub record WsClient : Type 0 where
  pub has_socket : Bool
  pub has_timer : Bool
  pub attempt : ℕ
  pub disposed : Bool
  pub state : WsConnectionState
  pub reported : List WsConnectionState
  pub delays : List ℕ

unfoldable pub new_client : WsClient
new_client = record {
  has_socket = false;
  has_timer = false;
  attempt = 0;
  disposed = false;
  state = disconnected;
  reported = [];
  delays = [];
}

-- `===` on states
abbrev pub state_eq : WsConnectionState → WsConnectionState → Bool
state_eq connecting connecting = true
state_eq connected connected = true
state_eq reconnecting reconnecting = true
state_eq disconnected disconnected = true
state_eq _ _ = false

unfoldable pub set_state : WsConnectionState → WsClient → WsClient
set_state s c = if state_eq c.state s then c else record c { state = s; reported = s ∷ c.reported }

-- `nextReconnectDelay` with the default bounds; `jittered` is the product with the factor that is drawn, rounded.
unfoldable pub next_reconnect_delay : (ℕ → ℕ) → ℕ → ℕ
next_reconnect_delay jittered attempt = min 15000 (jittered (min 15000 (250 * 2 ^ attempt)))

-- `openOnce`; the flag says whether a socket is created.
unfoldable pub open_once : WsClient → Bool × WsClient
unfolding set_state
open_once c = if c.disposed then (false, c) else (
  true,
  record (set_state (if c.attempt == 0 then connecting else reconnecting) c) { has_socket = true },
)

unfoldable pub start_client : WsClient → Bool × WsClient
unfolding open_once
start_client c = if c.disposed then (false, c) else open_once c

-- the listener of `open`
unfoldable pub on_open : WsClient → WsClient
unfolding set_state
on_open c = set_state connected (record c { attempt = 0 })

-- `scheduleReconnect`. `starts` says whether `this.opts.setTimeoutFn(...)` starts a timer; where it throws, as
-- the `setTimeout` of a browser does when it is called as a method of another object, no timer runs.
unfoldable pub schedule_reconnect : Bool → (ℕ → ℕ) → WsClient → WsClient
unfolding set_state next_reconnect_delay
schedule_reconnect starts jittered c = if c.disposed then c else record (set_state reconnecting c) {
  attempt = suc c.attempt;
  has_timer = starts || c.has_timer;
  delays = if starts then next_reconnect_delay jittered c.attempt ∷ c.delays else c.delays;
}

-- the listener of `close`
unfoldable pub on_close : Bool → (ℕ → ℕ) → WsClient → WsClient
unfolding set_state schedule_reconnect
on_close starts jittered c =
    if c.disposed then set_state disconnected c else schedule_reconnect starts jittered c

-- what the timer runs
unfoldable pub on_timer : WsClient → Bool × WsClient
unfolding open_once
on_timer c = open_once (record c { has_timer = false })

-- `dispose`; closing a socket is left to its `close` event
unfoldable pub dispose : WsClient → WsClient
dispose c = record c { disposed = true; has_timer = false; has_socket = false }

-- `buildUrl`; `encode` is `encodeURIComponent`, and `has_query` says whether the url has a `?`.
unfoldable pub build_url : (String → String) → Bool → String → Option String → String
build_url encode has_query url last_event_id = elim (truthy last_event_id) [
  | none ↦ url
  | some cursor ↦
      String.◌++◌ url (
        String.◌++◌ (if has_query then "&" else "?") (String.◌++◌ "last_event_id=" (encode cursor)))
]
