-- ===== src/Auth/Jwt.antt =====
-- packages/auth-jwt/src/jwt.ts and the header of fastify.ts: tokens, and who they say a caller is.
pub mod Tokens
use Prim.Native.String
use Prim.Native.Char.{code}
use airport_inspection_platf.Prelude.Json.{Fields, end, field, member, str, string_of}
use airport_inspection_platf.Auth.{Role, admin, operator, reviewer}
use airport_inspection_platf.Prelude.{
  Bool, Option, Result, String, [], err, false, if◌then◌else◌, ltb, none, ok, or_else, some, str_eq,
  ℕ, ◌*◌, ◌+◌, ◌/◌, ◌>>=◌, ◌∷◌,
}

pub record AccessTokenClaims : Type 0 where
  pub user_id : String
  pub role : Role

pub record VerifiedAccessToken : Type 0 where
  pub user_id : String
  pub role : Role
  pub expires_at : ℕ
  pub issued_at : ℕ

pub record VerifiedRefreshToken : Type 0 where
  pub user_id : String
  pub expires_at : ℕ
  pub issued_at : ℕ

-- What a token carries: the claims of its own, and those that `jose` reads, in seconds.
pub record JwtPayload : Type 0 where
  pub claims : Fields
  pub iss : Option String
  pub iat : Option ℕ
  pub exp : Option ℕ

pub data JoseError : Type 0 where
  jwt_expired : JoseError
  other_error : String → JoseError

-- The library `jose`: `sign` makes the token of a payload by a secret; `verify` is given the secret,
-- the issuer to expect, the time in milliseconds and the token.
pub record Jose : Type 0 where
  pub sign : String → JwtPayload → String
  pub verify : String → String → ℕ → String → Result JoseError JwtPayload

pub data AuthJwtErrorCode : Type 0 where
  invalid_token expired_token wrong_kind invalid_secret : AuthJwtErrorCode

pub record SignerOptions : Type 0 where
  pub secret : String
  pub issuer : Option String
  pub access_ttl_seconds : Option ℕ
  pub refresh_ttl_seconds : Option ℕ

pub record JwtSigner : Type 0 where
  pub secret : String
  pub issuer : String
  pub access_ttl : ℕ
  pub refresh_ttl : ℕ

-- `new TextEncoder().encode(s).length`
abbrev pub utf8_length : String → ℕ
utf8_length String.[] = 0
utf8_length (String.◌∷◌ c s) =
    (if ltb (code c) 0x80
      then 1
      else if ltb (code c) 0x800
      then 2
      else if ltb (code c) 0x10000
      then 3
      else 4)
    + utf8_length s

abbrev pub min_secret_bytes : ℕ
min_secret_bytes = 32

unfoldable pub create_jwt_signer : SignerOptions → Result AuthJwtErrorCode JwtSigner
create_jwt_signer opts =
    if ltb (utf8_length opts.secret) min_secret_bytes
    then err invalid_secret
    else ok (record {
      secret = opts.secret;
      issuer = or_else opts.issuer "aip";
      access_ttl = or_else opts.access_ttl_seconds (15 * 60);
      refresh_ttl = or_else opts.refresh_ttl_seconds (7 * 24 * 60 * 60);
    })

abbrev pub role_text : Role → String
role_text operator = "operator"
role_text reviewer = "reviewer"
role_text admin = "admin"

-- `Role.safeParse`
abbrev pub role_of : Option String → Option Role
role_of none = none
role_of (some s) =
    if str_eq s "operator"
    then some operator
    else if str_eq s "reviewer"
    then some reviewer
    else if str_eq s "admin"
    then some admin
    else none

abbrev pub access_claims : AccessTokenClaims → Fields
access_claims c =
    field "kind" (str "access")
      (field "user_id" (str c.user_id) (field "role" (str (role_text c.role)) end))

abbrev pub refresh_claims : String → Fields
refresh_claims user_id = field "kind" (str "refresh") (field "user_id" (str user_id) end)

-- `payload.kind !== kind`, turned round
unfoldable pub is_kind : String → Fields → Bool
unfolding member
is_kind kind claims = elim (string_of (member "kind" claims)) [
  | none ↦ false
  | some k ↦ str_eq k kind
]

-- the payload that `sign` hands to `jose`
abbrev pub payload_of : String → Fields → ℕ → ℕ → JwtPayload
payload_of issuer claims ttl_seconds now = record {
  claims = claims;
  iss = some issuer;
  iat = some (now / 1000);
  exp = some (now / 1000 + ttl_seconds);
}

module _ (jose : Jose) (signer : JwtSigner) where
  unfoldable pub sign : Fields → ℕ → ℕ → String
  sign claims ttl_seconds now =
      jose.sign signer.secret (payload_of signer.issuer claims ttl_seconds now)

  unfoldable pub verify : ℕ → String → Result AuthJwtErrorCode JwtPayload
  verify now token = elim (jose.verify signer.secret signer.issuer now token) [
    | ok payload ↦ ok payload
    | err jwt_expired ↦ err expired_token
    | err (other_error message) ↦ err invalid_token
  ]

  unfoldable pub sign_access : AccessTokenClaims → ℕ → String
  unfolding sign
  sign_access claims now = sign (access_claims claims) signer.access_ttl now

  unfoldable pub sign_refresh : String → ℕ → String
  unfolding sign
  sign_refresh user_id now = sign (refresh_claims user_id) signer.refresh_ttl now

  abbrev access_of :
      JwtPayload → Option Role → Option String → Result AuthJwtErrorCode VerifiedAccessToken
  access_of payload (some role) (some user_id) = ok (record {
    user_id = user_id;
    role = role;
    expires_at = or_else payload.exp 0;
    issued_at = or_else payload.iat 0;
  })
  access_of payload _ _ = err invalid_token

  unfoldable pub verify_access : ℕ → String → Result AuthJwtErrorCode VerifiedAccessToken
  unfolding verify is_kind access_of member
  verify_access now token = verify now token >>= λ payload.
      if is_kind "access" payload.claims
      then access_of payload (role_of (string_of (member "role" payload.claims)))
          (string_of (member "user_id" payload.claims))
      else err wrong_kind

  abbrev refresh_of : JwtPayload → Option String → Result AuthJwtErrorCode VerifiedRefreshToken
  refresh_of payload none = err invalid_token
  refresh_of payload (some user_id) = ok (record {
    user_id = user_id;
    expires_at = or_else payload.exp 0;
    issued_at = or_else payload.iat 0;
  })

  unfoldable pub verify_refresh : ℕ → String → Result AuthJwtErrorCode VerifiedRefreshToken
  unfolding verify is_kind refresh_of member
  verify_refresh now token = verify now token >>= λ payload.
      if is_kind "refresh" payload.claims
      then refresh_of payload (string_of (member "user_id" payload.claims))
      else err wrong_kind
