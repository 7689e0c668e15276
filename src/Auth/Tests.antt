-- ===== src/Auth/Tests.antt =====
-- Runs of the tokens and the sessions at concrete inputs, and the theorems at inputs that meet their
-- hypotheses.
use airport_inspection_platf.Prelude.Slices.{after_prefix}
use airport_inspection_platf.Auth.Hooks.{
  GatewayRequest, bearer_of, health, route_status, verify_jwt_hook, whoami,
}
use airport_inspection_platf.Auth.Hooks.Denied.{
  Arrival, accounted, refusals, serve_all, serve_all-accounted,
}
use airport_inspection_platf.Prelude.Marked.{mark, unmark, unmark-mark}
use airport_inspection_platf.Prelude.Json.{Fields, end, field, member, obj, str, string_of}
use airport_inspection_platf.Auth.Jwt.{
  AccessTokenClaims, Jose, JoseError, JwtPayload, JwtSigner, jwt_expired, other_error, payload_of,
  refresh_claims, sign_access, verify_access,
}
use airport_inspection_platf.Auth.Jwt.Tokens.{
  IsJose, OwnClaims, of_access, of_refresh, verify_access-sign_access,
}
use airport_inspection_platf.Prelude.{
  Bool, List, Option, Result, String, [], ap, arith, err, false, if_false, if_true, if◌then◌else◌,
  ltb, lt→ltb, none, ok, or_else, refl, some, str_eq, suc, true, zero, ℕ, ◌+◌, ◌/◌, ◌<◌, ◌∙◌, ◌∷◌,
  ◌≡◌, ◌≢◌, ◌≤◌,
}
use airport_inspection_platf.Auth.{operator, require_auth}
use airport_inspection_platf.Auth.Sessions.{
  AuthRequest, DirectoryUser, Gateway, UserDirectory, logout_route, refresh_route, refreshed,
}
use airport_inspection_platf.Auth.Sessions.Revoked.{logged_out, refresh_token}

-- A library that meets the laws: a token is the texts of its payload, each marked, and two tallies.
abbrev tally : ℕ → String
tally zero = ""
tally (suc n) = String.◌∷◌ "x" (tally n)

abbrev untally : String → ℕ
untally String.[] = 0
untally (String.◌∷◌ c s) = suc (untally s)

untally-tally : (n : ℕ) → untally (tally n) ≡ n
untally-tally zero = refl
untally-tally (suc n) = ap suc (untally-tally n)

abbrev claim : String → JwtPayload → String
unfolding member
claim key p = or_else (string_of (member key p.claims)) ""

abbrev encode : JwtPayload → String
encode p = mark (claim "kind" p) (
    mark (claim "user_id" p) (
      mark (claim "role" p)
        (mark (or_else p.iss "") (mark (tally (or_else p.iat 0)) (tally (or_else p.exp 0))))))

abbrev next {ℓ} : {A : Type ℓ} → Option (String × String) → (String → String → Option A) → Option A
next none f = none
next (some (s, rest)) f = f s rest

abbrev claims_of : String → String → String → Fields
claims_of kind user_id role =
    if str_eq kind "access"
    then field "kind" (str kind) (field "user_id" (str user_id) (field "role" (str role) end))
    else field "kind" (str kind) (field "user_id" (str user_id) end)

abbrev decode : String → Option JwtPayload
decode token = next (unmark token) (λ kind r₁. next (unmark r₁) (λ user_id r₂.
    next (unmark r₂) (λ role r₃. next (unmark r₃) (λ iss r₄. next (unmark r₄) (λ iat exp.
      some (record {
        claims = claims_of kind user_id role;
        iss = some iss;
        iat = some (untally iat);
        exp = some (untally exp);
      }))))))

abbrev checked : ℕ → Option JwtPayload → Result JoseError JwtPayload
checked now none = err (other_error "malformed")
checked now (some p) = if ltb (now / 1000) (or_else p.exp 0) then ok p else err jwt_expired

abbrev toy_jose : Jose
toy_jose = record {
  sign = λ secret p. encode p;
  verify = λ secret issuer now token. checked now (decode token);
}

decode-encode :
    (issuer : String) (claims : Fields) (ttl issued : ℕ)
    → OwnClaims claims
    → decode (encode (payload_of issuer claims ttl issued))
      ≡ some (payload_of issuer claims ttl issued)
unfolding claim member
decode-encode issuer claims ttl issued (of_access c) = simp (unmark-mark, untally-tally)
decode-encode issuer claims ttl issued (of_refresh u) = simp (unmark-mark, untally-tally)

checked_live :
    (p : JwtPayload) (now : ℕ) → now / 1000 < or_else p.exp 0 → checked now (some p) ≡ ok p
checked_live p now l = if_true _ _ _ (lt→ltb _ _ l)

checked_late :
    (p : JwtPayload) (now : ℕ)
    → or_else p.exp 0 ≤ now / 1000
    → checked now (some p) ≡ err jwt_expired
checked_late p now l = if_false (ltb (now / 1000) (or_else p.exp 0)) _ _ (ground arith)

toy_jose-IsJose : IsJose toy_jose
toy_jose-IsJose = record {
  verify-sign = λ secret issuer claims ttl issued now own l.
      ap (checked now) (decode-encode issuer claims ttl issued own)
      ∙ checked_live (payload_of issuer claims ttl issued) now l;
  expired = λ secret issuer claims ttl issued now own l.
      ap (checked now) (decode-encode issuer claims ttl issued own)
      ∙ checked_late (payload_of issuer claims ttl issued) now l;
}

abbrev test_signer : JwtSigner
test_signer = record {
  secret = "0123456789abcdef0123456789abcdef";
  issuer = "aip";
  access_ttl = 900;
  refresh_ttl = 604800;
}

abbrev pat_claims : AccessTokenClaims
pat_claims = record { user_id = "pat"; role = operator }

verify_access-sign_access_example :
    verify_access toy_jose test_signer 899000 (sign_access toy_jose test_signer pat_claims 0)
    ≡ ok (record {
      user_id = "pat";
      role = operator;
      expires_at = 0 / 1000 + 900;
      issued_at = 0 / 1000;
    })
verify_access-sign_access_example =
    verify_access-sign_access toy_jose toy_jose-IsJose test_signer pat_claims 0 899000 (omega arith)

abbrev pat_user : DirectoryUser
pat_user = record { id = "pat"; email = "pat@airport.test"; name = "Pat"; role = operator }

abbrev directory : UserDirectory
directory = record { find_by_email = λ e. some pat_user; find_by_id = λ i. some pat_user }

abbrev gateway : Gateway
gateway = record { revoked = []; security_events = record { published = []; failures = 0 } }

-- A library whose tokens are all refresh tokens of one user.
abbrev lax_jose : Jose
lax_jose = record {
  sign = λ secret p. "t";
  verify = λ secret issuer now token. ok (payload_of issuer (refresh_claims "pat") 900 0);
}

abbrev session_request : ℕ → AuthRequest
session_request now = record {
  body = obj (field "refresh_token" (str "t1") end);
  ip = "::1";
  request_id = none;
  now = now;
  timestamp = "2026-01-01T00:00:00.000Z";
  event_id = "e";
  up = true;
}

abbrev any_email : String → Bool
any_email s = true

abbrev same_text : String → String
same_text s = s

logged_out_example :
    (refresh_route lax_jose test_signer directory
      (session_request 3)
      (refresh_route lax_jose test_signer directory
        (session_request 2)
        (logout_route lax_jose test_signer directory (session_request 1) gateway).1).1).0
    ≢ refreshed "t"
unfolding logout_route member
logged_out_example =
    logged_out lax_jose test_signer directory any_email same_text "t1" "t" (session_request 1)
      (session_request 3) (refresh_token (session_request 2) ∷ []) gateway refl refl refl

abbrev anonymous : GatewayRequest
anonymous = record {
  url = "/api/v1/whoami";
  method = "GET";
  route_url = none;
  ip = "10.0.0.1";
  request_id = none;
  authorization = none;
  now = 0;
  timestamp = "1970-01-01T00:00:00.000Z";
  event_id = "e1";
  up = false;
}

abbrev arrivals : List Arrival
arrivals =
    record { exceeded = false; route = whoami; request = anonymous }
    ∷ record { exceeded = false; route = health; request = anonymous }
    ∷ record { exceeded = true; route = health; request = anonymous }
    ∷ []

serve_all-accounted_example :
    accounted (serve_all (λ s. s) (λ n. "") toy_jose test_signer arrivals gateway.security_events)
    ≡ accounted gateway.security_events + refusals (λ s. s) (λ n. "") toy_jose test_signer arrivals
serve_all-accounted_example =
    serve_all-accounted (λ s. s) (λ n. "") toy_jose test_signer arrivals gateway.security_events

two_refusals : refusals (λ s. s) (λ n. "") toy_jose test_signer arrivals ≡ 2
unfolding refusals verify_jwt_hook bearer_of route_status require_auth after_prefix
two_refusals = refl
