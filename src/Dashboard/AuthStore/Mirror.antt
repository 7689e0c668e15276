-- ===== src/Dashboard/AuthStore/Mirror.antt =====
-- apps/web/stores/auth.ts: what a reload of the page finds in localStorage.
use airport_inspection_platf.Prelude.{
  Bool, List, Option, Option-cases, Result, String, [], ap, err, false, inl, inr, none, ok, refl,
  some, subst, sym, ◌∙◌, ◌∷◌, ◌≡◌,
}
use airport_inspection_platf.Prelude.Json.{Fields, Json, member, obj}
use airport_inspection_platf.Dashboard.AuthStore.{
  AuthState, LoginResponse, RefreshResponse, Session, StoredAuth, Window, initial_state,
  login_begin, login_settle, logout, no_window, read_stored, refresh_settle, restore_from_storage,
  session_object, stored_of, window, write_stored,
}

-- The pieces of the store's actions that run without a pause, with the outcomes of their requests.
pub data Action : Type 0 where
  restores begins_login logs_out : Action
  logs_in : Result String LoginResponse → Action
  refreshes : Result String RefreshResponse → Action

-- Who is signed in: the access token, the refresh token and the user.
unfoldable pub session_of : AuthState → Option (String × Option String × Json)
session_of a = elim a.access_token [
  | none ↦ none
  | some access ↦ elim a.user [ none ↦ none | some user ↦ some (access, a.refresh_token, user) ]
]

no_user : (a : AuthState) → a.user ≡ none → session_of a ≡ none
unfolding session_of
no_user a u = elim (Option-cases a.access_token) [
  | inl e ↦ rw e refl
  | inr (access, e) ↦ rw (e, u) refl
]

with_user :
    (a : AuthState) {access : String} {user : Json} {refresh : Option String}
    → a.access_token ≡ some access
    → a.user ≡ some user
    → a.refresh_token ≡ refresh
    → session_of a ≡ some (access, refresh, user)
unfolding session_of
with_user a e u r = rw (e, u, r) refl

module _ {T : Type 0} (stringify : Json → T) (parse : T → Option Json) (is_empty : T → Bool) where
  unfoldable pub perform : Action → Session T → Session T
  perform restores s = restore_from_storage parse is_empty s
  perform begins_login s = login_begin stringify s
  perform logs_out s = logout stringify s
  perform (logs_in outcome) s = login_settle stringify outcome s
  perform (refreshes outcome) s = (refresh_settle stringify outcome s).1

  unfoldable pub perform_all : List Action → Session T → Session T
  perform_all [] s = s
  perform_all (a ∷ rest) s = perform_all rest (perform a s)

  -- The page as it starts: no session in memory, and the storage that the last one left.
  abbrev fresh : Session T → Session T
  fresh s = record { auth = initial_state; storage = s.storage }

  unfoldable pub reload : Session T → Session T
  reload s = restore_from_storage parse is_empty (fresh s)

  data IsMirrored (s : Session T) : Type 0 where
    signed_out :
        s.auth.refresh_token ≡ none → s.auth.user ≡ none → s.storage ≡ window none → IsMirrored s
    signed_in :
        (access refresh : String) (user : Fields)
        → s.auth.access_token ≡ some access
        → s.auth.refresh_token ≡ some refresh
        → s.auth.user ≡ some (obj user)
        → s.storage ≡ window (some (stringify (session_object access (some refresh) (obj user))))
        → IsMirrored s

  module _ (parse-stringify : (j : Json) → parse (stringify j) ≡ some j)
      (stringify_nonempty : (j : Json) → is_empty (stringify j) ≡ false) where
    read_session :
        (access refresh : String) (user : Fields)
        → read_stored parse is_empty
            (window (some (stringify (session_object access (some refresh) (obj user)))))
          ≡ some (record { access_token = access; refresh_token = refresh; user = obj user })
    unfolding read_stored stored_of member
    read_session access refresh user =
        rw (stringify_nonempty (session_object access (some refresh) (obj user)))
          (rw (parse-stringify (session_object access (some refresh) (obj user))) refl)

    read_signed_in :
        (s : Session T) (access refresh : String) (user : Fields)
        → s.storage ≡ window (some (stringify (session_object access (some refresh) (obj user))))
        → read_stored parse is_empty s.storage
          ≡ some (record { access_token = access; refresh_token = refresh; user = obj user })
    read_signed_in s access refresh user e =
        ap (read_stored parse is_empty) e ∙ read_session access refresh user

    read_signed_out :
        (s : Session T) → s.storage ≡ window none → read_stored parse is_empty s.storage ≡ none
    unfolding read_stored
    read_signed_out s e = ap (read_stored parse is_empty) e

    restored :
        (s : Session T) {stored : StoredAuth}
        → read_stored parse is_empty s.storage ≡ some stored
        → restore_from_storage parse is_empty s ≡ record s {
          auth = record s.auth {
            access_token = some stored.access_token;
            refresh_token = some stored.refresh_token;
            user = some stored.user;
          };
        }
    unfolding restore_from_storage
    restored s e = rw (e, restore_from_storage) refl

    unrestored :
        (s : Session T)
        → read_stored parse is_empty s.storage ≡ none
        → restore_from_storage parse is_empty s ≡ s
    unfolding restore_from_storage
    unrestored s e = rw (e, restore_from_storage) refl

    perform-IsMirrored : (a : Action) (s : Session T) → IsMirrored s → IsMirrored (perform a s)
    unfolding perform login_begin login_settle logout refresh_settle write_stored
    perform-IsMirrored restores s (signed_out r u e) =
        subst IsMirrored (sym (unrestored s (read_signed_out s e))) (signed_out r u e)
    perform-IsMirrored restores s (signed_in access refresh user a r u e) =
        subst IsMirrored (sym (restored s (read_signed_in s access refresh user e)))
          (signed_in access refresh user refl refl refl e)
    perform-IsMirrored begins_login s (signed_out r u e) = signed_out r u e
    perform-IsMirrored begins_login s (signed_in access refresh user a r u e) =
        signed_in access refresh user a r u e
    perform-IsMirrored logs_out s (signed_out r u e) = signed_out refl refl (rw e refl)
    perform-IsMirrored logs_out s (signed_in access refresh user a r u e) =
        signed_out refl refl (rw e refl)
    perform-IsMirrored (logs_in (ok res)) s (signed_out r u e) =
        signed_in res.access_token res.refresh_token res.user refl refl refl (rw e refl)
    perform-IsMirrored (logs_in (ok res)) s (signed_in access refresh user a r u e) =
        signed_in res.access_token res.refresh_token res.user refl refl refl (rw e refl)
    perform-IsMirrored (logs_in (err m)) s (signed_out r u e) = signed_out r u e
    perform-IsMirrored (logs_in (err m)) s (signed_in access refresh user a r u e) =
        signed_in access refresh user a r u e
    perform-IsMirrored (refreshes (ok res)) s (signed_out r u e) = signed_out r u (rw u e)
    perform-IsMirrored (refreshes (ok res)) s (signed_in access refresh user a r u e) =
        signed_in res.access_token refresh user refl r u (rw (u, r, e) refl)
    perform-IsMirrored (refreshes (err m)) s (signed_out r u e) = signed_out refl refl (rw e refl)
    perform-IsMirrored (refreshes (err m)) s (signed_in access refresh user a r u e) =
        signed_out refl refl (rw e refl)

    perform_all-IsMirrored :
        (rest : List Action) (s : Session T) → IsMirrored s → IsMirrored (perform_all rest s)
    unfolding perform_all
    perform_all-IsMirrored [] s h = h
    perform_all-IsMirrored (a ∷ rest) s h =
        perform_all-IsMirrored rest (perform a s) (perform-IsMirrored a s h)

    session_of-reload_mirrored :
        (s : Session T) → IsMirrored s → session_of (reload s).auth ≡ session_of s.auth
    unfolding reload session_of initial_state
    session_of-reload_mirrored s (signed_out r u e) =
        ap (λ (t : Session T). session_of t.auth)
          (unrestored (fresh s) (read_signed_out (fresh s) e))
        ∙ sym (no_user s.auth u)
    session_of-reload_mirrored s (signed_in access refresh user a r u e) =
        ap (λ (t : Session T). session_of t.auth)
          (restored (fresh s) (read_signed_in (fresh s) access refresh user e))
        ∙ sym (with_user s.auth a u r)

    -- Whatever the store has gone through since it began with an empty storage, with its logins, refreshes and logouts settling in any order, reloading the page keeps exactly the session: the same access token, refresh token and user where somebody is signed in, and nobody where nobody is.
    pub session_of-reload :
        (rest : List Action)
        → let s = perform_all rest (record { auth = initial_state; storage = window none }) in
          session_of (reload s).auth ≡ session_of s.auth
    unfolding initial_state
    session_of-reload rest =
        session_of-reload_mirrored _ (perform_all-IsMirrored rest _ (signed_out refl refl refl))

-- Nothing is read back where the item has been removed.
pub read-write_none :
    {T : Type 0} (stringify : Json → T) (parse : T → Option Json) (is_empty : T → Bool)
    (storage : Window T)
    → read_stored parse is_empty (write_stored stringify none storage) ≡ none
unfolding read_stored write_stored
read-write_none stringify parse is_empty no_window = refl
read-write_none stringify parse is_empty (window item) = refl
