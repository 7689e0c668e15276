-- ===== src/Dashboard/AuthStore.antt =====
-- apps/web/stores/auth.ts: the session of the dashboard, in memory and in localStorage.
pub mod Mirror
use Prim.Native.String
use airport_inspection_platf.Prelude.{
  Bool, Option, Result, String, err, false, if◌then◌else◌, is_some, none, ok, or_else, some, true,
  truthy, ℕ, ◌&&◌,
}
use airport_inspection_platf.Prelude.Json.{
  Fields, Json, arr, end, field, member, null, obj, str, string_of,
}

-- The user of a session is the JSON value that came with it: an object, or an array out of storage.
pub record AuthState : Type 0 where
  pub access_token : Option String
  pub refresh_token : Option String
  pub user : Option Json
  pub loading : Bool
  pub error : Option String

pub record StoredAuth : Type 0 where
  pub access_token : String
  pub refresh_token : String
  pub user : Json

pub record LoginResponse : Type 0 where
  pub access_token : String
  pub refresh_token : String
  pub user : Fields

pub record RefreshResponse : Type 0 where
  pub access_token : String

-- What a `fetch` comes to, where `A` is the type to which the code casts a good reply: a status in
-- 200..299, another status, or an exception. The body is an error where `res.json()` throws.
pub data Fetched (A : Type 0) : Type 0 where
  accepted : Result String A → Fetched A
  refused : ℕ → Result String Json → Fetched A
  unreachable : String → Fetched A

unfoldable pub initial_state : AuthState
initial_state = record {
  access_token = none;
  refresh_token = none;
  user = none;
  loading = false;
  error = none;
}

unfoldable pub is_authenticated : AuthState → Bool
is_authenticated s = is_some s.access_token && is_some s.user

-- `s.user?.role ?? null`
unfoldable pub role : AuthState → Option Json
role s = elim s.user [
  | some (obj fields) ↦ elim (member "role" fields) [ some null ↦ none | found ↦ found ]
  | _ ↦ none
]

-- `parsed.user && typeof parsed.user === "object"`
abbrev object_of : Option Json → Option Json
object_of (some (obj fields)) = some (obj fields)
object_of (some (arr items)) = some (arr items)
object_of _ = none

-- The test on what `JSON.parse` gives; a value without fields has no token, and null throws.
unfoldable pub stored_of : Json → Option StoredAuth
stored_of (obj fields) = elim (string_of (member "accessToken" fields)) [
  | none ↦ none
  | some access ↦ elim (string_of (member "refreshToken" fields)) [
    | none ↦ none
    | some refresh ↦ elim (object_of (member "user" fields)) [
      | none ↦ none
      | some user ↦ some (record { access_token = access; refresh_token = refresh; user = user })
    ]
  ]
]
stored_of _ = none

abbrev nullable : Option String → Json
nullable none = null
nullable (some s) = str s

-- the object that the actions give to `writeStored`
abbrev pub session_object : String → Option String → Json → Json
session_object access refresh user = obj (
    field "accessToken" (str access)
      (field "refreshToken" (nullable refresh) (field "user" user end)))

-- What the process runs on: `localStorage` and its item under the key, or no `window` at all.
pub data Window (T : Type 0) : Type 0 where
  no_window : Window T
  window : Option T → Window T

-- `T` is the type of texts, `parse` is `JSON.parse`, and `is_empty` is the test `raw === ""`.
unfoldable pub read_stored :
    {T : Type 0} → (T → Option Json) → (T → Bool) → Window T → Option StoredAuth
unfolding stored_of
read_stored parse is_empty no_window = none
read_stored parse is_empty (window none) = none
read_stored parse is_empty (window (some raw)) =
    if is_empty raw then none else elim (parse raw) [ none ↦ none | some parsed ↦ stored_of parsed ]

-- `stringify` is `JSON.stringify`
unfoldable pub write_stored : {T : Type 0} → (Json → T) → Option Json → Window T → Window T
write_stored stringify value no_window = no_window
write_stored stringify none (window item) = window none
write_stored stringify (some value) (window item) = window (some (stringify value))

-- `error_message` is the message that `body.error?.message` gives, or the error that it throws on
-- null; `fallback` is the text for a body without one.
module _ (error_message : Json → Option String) (fallback : ℕ → String) where
  -- `safeJson`
  abbrev safe_json : Result String Json → Json
  safe_json (ok body) = body
  safe_json (err thrown) = obj end

  -- `postLogin` and `postRefresh`: the reply, or the message of the error that they throw
  unfoldable pub post : {A : Type 0} → Fetched A → Result String A
  post (accepted body) = body
  post (refused status body) = err (or_else (error_message (safe_json body)) (fallback status))
  post (unreachable message) = err message

-- The store beside the storage of the process.
pub record Session (T : Type 0) : Type 0 where
  pub auth : AuthState
  pub storage : Window T

unfoldable pub restore_from_storage :
    {T : Type 0} → (T → Option Json) → (T → Bool) → Session T → Session T
restore_from_storage parse is_empty s = elim (read_stored parse is_empty s.storage) [
  | none ↦ s
  | some stored ↦ record s {
    auth = record s.auth {
      access_token = some stored.access_token;
      refresh_token = some stored.refresh_token;
      user = some stored.user;
    };
  }
]

module _ {T : Type 0} (stringify : Json → T) where
  -- `login` up to its `await`
  unfoldable pub login_begin : Session T → Session T
  login_begin s = record s { auth = record s.auth { loading = true; error = none } }

  -- the rest of `login`, given what `postLogin` comes to
  unfoldable pub login_settle : Result String LoginResponse → Session T → Session T
  unfolding write_stored
  login_settle (ok res) s = record {
    auth = record {
      access_token = some res.access_token;
      refresh_token = some res.refresh_token;
      user = some (obj res.user);
      loading = false;
      error = s.auth.error;
    };
    storage =
        write_stored stringify
          (some (session_object res.access_token (some res.refresh_token) (obj res.user)))
          s.storage;
  }
  login_settle (err message) s = record s {
    auth = record s.auth { error = some message; loading = false };
  }

  unfoldable pub logout : Session T → Session T
  unfolding write_stored
  logout s = record {
    auth = record s.auth { access_token = none; refresh_token = none; user = none; error = none };
    storage = write_stored stringify none s.storage;
  }

  -- `refresh` up to its `await`: the token that it sends
  unfoldable pub refresh_begin : Session T → Option String
  refresh_begin s = truthy s.auth.refresh_token

  -- the rest of `refresh`, given what `postRefresh` comes to
  unfoldable pub refresh_settle :
      Result String RefreshResponse → Session T → Option String × Session T
  unfolding write_stored logout
  refresh_settle (ok res) s = (
    some res.access_token,
    record {
      auth = record s.auth { access_token = some res.access_token };
      storage = elim s.auth.user [
        | none ↦ s.storage
        | some user ↦
            write_stored stringify
              (some (session_object res.access_token s.auth.refresh_token user)) s.storage
      ];
    },
  )
  refresh_settle (err message) s = (none, logout s)

  -- `logoutAndNotifyServer`: the token of the call to the server, whose outcome changes nothing
  unfoldable pub logout_and_notify_server : Session T → Option String × Session T
  unfolding logout
  logout_and_notify_server s = (truthy s.auth.refresh_token, logout s)
