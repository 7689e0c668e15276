-- ===== src/Auth/Sessions.antt =====
-- services/api-gateway/src/routes/auth.ts and packages/auth-jwt/src/revocation.ts: login, refresh
-- and logout.
pub mod Revoked
use airport_inspection_platf.Prelude.Json.{
  Fields, Json, end, field, member, record_of, str, string_of,
}
use airport_inspection_platf.Auth.{Role}
use airport_inspection_platf.Auth.Jwt.{
  AuthJwtErrorCode, Jose, JwtSigner, VerifiedRefreshToken, expired_token, invalid_secret,
  invalid_token, role_text, sign_access, sign_refresh, verify_refresh, wrong_kind,
}
use airport_inspection_platf.Auth.SecurityEvents.{
  SecurityEventPublisher, SecurityEventType, build_security_event, emit, login_failed,
  login_succeeded, logout, refresh_failed, refresh_succeeded,
}
use airport_inspection_platf.Prelude.{
  Bool, List, Option, String, [], err, false, if◌then◌else◌, none, not, ok, some, str_eq, true,
  truthy, ℕ, ◌++◌, ◌∷◌,
}

pub record DirectoryUser : Type 0 where
  pub id : String
  pub email : String
  pub name : String
  pub role : Role

-- `UserDirectory`: the demo's own or one over a database
pub record UserDirectory : Type 0 where
  pub find_by_email : String → Option DirectoryUser
  pub find_by_id : String → Option DirectoryUser

abbrev pub contains : String → List String → Bool
contains token [] = false
contains token (t ∷ ts) = if str_eq t token then true else contains token ts

-- `InMemoryRefreshTokenRevocationList`: the set of revoked tokens
unfoldable pub revoke : String → List String → List String
revoke token revoked = if contains token revoked then revoked else revoked ++ token ∷ []

unfoldable pub is_revoked : String → List String → Bool
is_revoked token revoked = contains token revoked

-- The state of the gateway that these routes touch.
pub record Gateway : Type 0 where
  pub revoked : List String
  pub security_events : SecurityEventPublisher

-- What comes with each request: its body, the caller's address, the request's id, the time in
-- milliseconds and as text, the id that an event is given, and whether Redis takes a message.
pub record AuthRequest : Type 0 where
  pub body : Json
  pub ip : String
  pub request_id : Option String
  pub now : ℕ
  pub timestamp : String
  pub event_id : String
  pub up : Bool

pub data AuthReply : Type 0 where
  bad_request : String → AuthReply
  unauthorized_reply : String → AuthReply
  token_error : AuthJwtErrorCode → AuthReply
  logged_in : String → String → DirectoryUser → AuthReply
  refreshed : String → AuthReply
  no_content : AuthReply

abbrev pub code_text : AuthJwtErrorCode → String
code_text invalid_token = "invalid_token"
code_text expired_token = "expired_token"
code_text wrong_kind = "wrong_kind"
code_text invalid_secret = "invalid_secret"

-- `emitAuthEvent`
unfoldable pub emit_auth_event :
    AuthRequest → SecurityEventType → Option String → Fields → Gateway → Gateway
unfolding emit build_security_event
emit_auth_event req event_type actor payload g = record g {
  security_events =
      emit req.up
        (build_security_event req.event_id req.timestamp event_type "api-gateway" actor actor
          req.request_id payload)
        g.security_events;
}

abbrev failed_because : AuthRequest → String → Fields
failed_because req reason = field "ip" (str req.ip) (field "reason" (str reason) end)

-- the field of a body that is an object, if it is a text
abbrev pub text_of : String → Json → Option String
unfolding member
text_of key body = elim (record_of body) [
  | none ↦ none
  | some fields ↦ string_of (member key fields)
]

module _ (jose : Jose) (signer : JwtSigner) (directory : UserDirectory) where
  -- `is_email` is zod's test of an address, and `to_lower` is `toLowerCase`.
  unfoldable pub login :
      (is_email : String → Bool) (to_lower : String → String)
      → AuthRequest
      → Gateway
      → AuthReply × Gateway
  unfolding emit_auth_event text_of sign_access sign_refresh
  login is_email to_lower req g = elim (text_of "email" req.body) [
    | none ↦ (bad_request "invalid login body", g)
    | some address ↦
        if not (is_email address)
        then (bad_request "invalid login body", g)
        else elim (directory.find_by_email (to_lower address)) [
          | none ↦ (
            unauthorized_reply "invalid credentials",
            emit_auth_event req login_failed none
                (field "email" (str (to_lower address)) (failed_because req "no_such_user")) g,
          )
          | some user ↦ (
            logged_in
                (sign_access jose signer (record { user_id = user.id; role = user.role }) req.now)
                (sign_refresh jose signer user.id req.now) user,
            emit_auth_event req login_succeeded (some user.id)
                (field "email" (str user.email)
                  (field "role" (str (role_text user.role)) (field "ip" (str req.ip) end)))
                g,
          )
        ]
  ]

  -- the body of `RefreshBody`: a text that is not empty
  abbrev pub refresh_body : AuthRequest → Option String
  refresh_body req = truthy (text_of "refresh_token" req.body)

  -- `refresh` once the token has been verified
  unfoldable pub refresh_verified :
      AuthRequest → String → VerifiedRefreshToken → Gateway → AuthReply × Gateway
  unfolding emit_auth_event is_revoked sign_access
  refresh_verified req token verified g =
      if is_revoked token g.revoked
      then (
        unauthorized_reply "refresh token revoked",
        emit_auth_event req refresh_failed (some verified.user_id) (failed_because req "revoked") g,
      )
      else elim (directory.find_by_id verified.user_id) [
        | none ↦ (
          unauthorized_reply "user no longer exists",
          emit_auth_event req refresh_failed (some verified.user_id)
              (failed_because req "user_no_longer_exists") g,
        )
        | some user ↦ (
          refreshed
              (sign_access jose signer (record { user_id = user.id; role = user.role }) req.now),
          emit_auth_event req refresh_succeeded (some user.id) (field "ip" (str req.ip) end) g,
        )
      ]

  unfoldable pub refresh_route : AuthRequest → Gateway → AuthReply × Gateway
  unfolding refresh_verified refresh_body verify_refresh emit_auth_event
  refresh_route req g = elim (refresh_body req) [
    | none ↦ (bad_request "invalid refresh body", g)
    | some token ↦ elim (verify_refresh jose signer req.now token) [
      | ok verified ↦ refresh_verified req token verified g
      | err code ↦ (
        token_error code,
        emit_auth_event req refresh_failed none (failed_because req (code_text code)) g,
      )
    ]
  ]

  unfoldable pub logout_route : AuthRequest → Gateway → AuthReply × Gateway
  unfolding refresh_body verify_refresh emit_auth_event revoke
  logout_route req g = elim (refresh_body req) [
    | none ↦ (bad_request "invalid logout body", g)
    | some token ↦ elim (verify_refresh jose signer req.now token) [
      | ok verified ↦ (
        no_content,
        emit_auth_event req logout (some verified.user_id) (field "ip" (str req.ip) end)
            (record g { revoked = revoke token g.revoked }),
      )
      | err code ↦ (token_error code, g)
    ]
  ]
