-- ===== src/Auth/Hooks.antt =====
-- services/api-gateway/src/app.ts, packages/auth-jwt/src/fastify.ts and packages/http-safety/src/index.ts: what stands around every route of the gateway.
pub mod Denied
use Prim.Native.String
use mathlib.Core.Option
use airport_inspection_platf.Prelude.{
  Bool, Option, Result, String, [], err, if◌then◌else◌, is_some, leb, none, not, ok, or_else, some,
  truthy, ℕ, ◌&&◌, ◌==◌, ◌∷◌,
}
use airport_inspection_platf.Prelude.Json.{Fields, end, field, num, str}
use airport_inspection_platf.Prelude.Slices.{after_prefix, trim}
use airport_inspection_platf.Auth.{
  Auth, Gate, admin, forbidden, pass, require_auth, require_role, unauthorized,
}
use airport_inspection_platf.Auth.Jwt.{
  AuthJwtErrorCode, Jose, JwtSigner, VerifiedAccessToken, role_text, verify_access,
}
use airport_inspection_platf.Auth.SecurityEvents.{
  SecurityEvent, SecurityEventPublisher, access_denied, build_security_event, emit,
  rate_limit_blocked,
}

-- A request as the hooks see it, with the time in milliseconds and as text, the id that an event is
-- given, and whether Redis takes a message.
pub record GatewayRequest : Type 0 where
  pub url : String
  pub method : String
  pub route_url : Option String
  pub ip : String
  pub request_id : Option String
  pub authorization : Option String
  pub now : ℕ
  pub timestamp : String
  pub event_id : String
  pub up : Bool

abbrev auth_of : Result AuthJwtErrorCode VerifiedAccessToken → Option Auth
auth_of (ok verified) = some (record { user_id = verified.user_id; role = verified.role })
auth_of (err code) = none

-- `req.headers.authorization` without `Bearer `, where there is a token
unfoldable pub bearer_of : Option String → Option String
unfolding after_prefix trim
bearer_of none = none
bearer_of (some header) = truthy (Option.map trim (after_prefix "Bearer " header))

-- `verifyJwtHook`: what it leaves in `req.auth`
unfoldable pub verify_jwt_hook : Jose → JwtSigner → ℕ → Option String → Option Auth
unfolding bearer_of verify_access
verify_jwt_hook jose signer now header = elim (bearer_of header) [
  | none ↦ none
  | some token ↦ auth_of (verify_access jose signer now token)
]

pub data GatewayRoute : Type 0 where
  health ready whoami admin_echo : GatewayRoute
  routed : (Option Auth → ℕ) → GatewayRoute

abbrev gate_status : Gate → ℕ
gate_status unauthorized = 401
gate_status forbidden = 403
gate_status pass = 200

-- The status of a reply; `routed` is a route that is declared elsewhere, or one of an upstream.
unfoldable pub route_status : GatewayRoute → Option Auth → ℕ
unfolding require_auth require_role
route_status health auth = 200
route_status ready auth = 200
route_status whoami auth = gate_status (require_auth auth)
route_status admin_echo auth = gate_status (require_role (admin ∷ []) auth)
route_status (routed handle) auth = handle auth

abbrev user_of : Option Auth → Option String
user_of none = none
user_of (some auth) = some auth.user_id

abbrev role_field : Option Auth → Fields
role_field none = end
role_field (some auth) = field "actual_role" (str (role_text auth.role)) end

-- `lower` is `toLowerCase` and `decimal` prints a number.
module _ (lower : String → String) (decimal : ℕ → String) where
  abbrev route_field : GatewayRequest → Fields → Fields
  route_field req rest =
      field "route" (str (or_else req.route_url req.url))
        (field "method" (str (lower req.method)) rest)

  unfoldable pub denied_event : GatewayRequest → Option Auth → ℕ → SecurityEvent
  unfolding build_security_event
  denied_event req auth status =
      build_security_event req.event_id req.timestamp access_denied "api-gateway" (user_of auth)
        none req.request_id
        (route_field req
          (field "status" (num (decimal status)) (field "ip" (str req.ip) (role_field auth))))

  -- the hook `onResponse`
  unfoldable pub on_response :
      GatewayRequest → Option Auth → ℕ → SecurityEventPublisher → SecurityEventPublisher
  unfolding denied_event emit after_prefix
  on_response req auth status events =
      if not (status == 401) && not (status == 403)
      then events
      else if is_some (after_prefix "/api/v1/auth/" req.url)
      then events
      else emit req.up (denied_event req auth status) events

  unfoldable pub blocked_event : GatewayRequest → Option Auth → SecurityEvent
  unfolding build_security_event after_prefix
  blocked_event req auth =
      build_security_event req.event_id req.timestamp rate_limit_blocked "api-gateway"
        (user_of auth) none req.request_id
        (route_field req (
          field "ip" (str req.ip) (
            field "budget_per_minute"
              (num (decimal (if is_some (after_prefix "/api/v1/auth/" req.url) then 20 else 240)))
              end)))

  -- `onExceeded`
  unfoldable pub on_exceeded :
      GatewayRequest → Option Auth → SecurityEventPublisher → SecurityEventPublisher
  unfolding blocked_event emit
  on_exceeded req auth events = emit req.up (blocked_event req auth) events

  -- A request through the hooks: the status of the reply, and the events. `exceeded` says whether the
  -- limiter rejects it, with 429.
  unfoldable pub serve_gateway :
      Jose
      → JwtSigner
      → Bool
      → GatewayRoute
      → GatewayRequest
      → SecurityEventPublisher
      → ℕ × SecurityEventPublisher
  unfolding verify_jwt_hook on_exceeded on_response route_status
  serve_gateway jose signer exceeded route req events =
      let auth = verify_jwt_hook jose signer req.now req.authorization in
      if exceeded
      then (429, on_response req auth 429 (on_exceeded req auth events))
      else let status = route_status route auth in (status, on_response req auth status events)

pub data ErrorCode : Type 0 where
  validation_failed unauthorized_error forbidden_error not_found conflict : ErrorCode
  payload_too_large unprocessable rate_limited internal_error : ErrorCode

pub record ErrorResponse : Type 0 where
  pub code : ErrorCode
  pub message : String
  pub correlation_id : Option String

-- the code that `safeErrorHandler` gives to a status
unfoldable pub code_of_status : Bool → ℕ → ErrorCode
code_of_status validation status =
    if validation
    then validation_failed
    else if status == 401
    then unauthorized_error
    else if status == 403
    then forbidden_error
    else if status == 404
    then not_found
    else if status == 409
    then conflict
    else if status == 413
    then payload_too_large
    else if status == 415
    then validation_failed
    else if status == 422
    then unprocessable
    else if status == 429
    then rate_limited
    else if leb 500 status
    then internal_error
    else validation_failed

-- `safeErrorHandler`: the status and the body
unfoldable pub safe_error_handler : Option ℕ → Bool → String → Option String → ℕ × ErrorResponse
unfolding code_of_status
safe_error_handler status_code validation message request_id =
    let status = or_else status_code 500 in
    (
      status,
      record {
        code = code_of_status validation status;
        message = if leb 500 status then "internal server error" else message;
        correlation_id = truthy request_id;
      },
    )

-- `safeNotFoundHandler`
unfoldable pub safe_not_found_handler : String → String → Option String → ℕ × ErrorResponse
safe_not_found_handler method url request_id = (
  404,
  record {
    code = not_found;
    message =
        String.◌++◌ "route " (String.◌++◌ method (String.◌++◌ " " (String.◌++◌ url " not found")));
    correlation_id = truthy request_id;
  },
)
