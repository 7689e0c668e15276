-- ===== src/Broadcaster/Connect/Access.antt =====
-- Who can attach to an airport's channel.
use airport_inspection_platf.Auth.Jwt.{VerifiedAccessToken, verify_access}
use airport_inspection_platf.Broadcaster.Registry.{
  BroadcastClient, ChannelRegistry, operator_role, subscribe, supervisor,
}
use airport_inspection_platf.Broadcaster.Connect.{
  Moment, RouteOptions, Upgrade, UpgradeRequest, airport_events, attach, attached, client_of,
  client_role_for, closed, extract_token,
}
use airport_inspection_platf.Auth.{Role, admin, operator, reviewer}
use airport_inspection_platf.Prelude.{
  Bool, Bool-cases, Option-cases, Result-cases, String, arith, false, inl, inr, ok, refl, some,
  true, ◌↔◌, ◌≡◌, ◌⊎◌,
}
use airport_inspection_platf.Incident.Requests.{is_uuid}

abbrev pub is_attached : Upgrade → Bool
is_attached (closed code reason) = false
is_attached (attached own sent) = true

-- The roles of a token whose clients see what supervisors see.
abbrev pub Supervises : Role → Type 0
Supervises role = (role ≡ admin) ⊎ (role ≡ reviewer)

-- The request names an airport and carries a token that the signer takes, and the registry has gained the
-- client that the moment gives, as a supervisor or as an operator.
pub record IsAuthenticated (opts : RouteOptions) (req : UpgradeRequest) (moment : Moment)
    (r after : ChannelRegistry) : Type 0 where
  pub token : String
  pub verified : VerifiedAccessToken
  pub named : is_uuid req.airport_id ≡ true
  pub carried : extract_token req.protocol req.access_token ≡ some token
  pub taken : verify_access opts.jose opts.signer moment.now_ms token ≡ ok verified
  pub client : BroadcastClient
  pub drawn : client.connection_id ≡ moment.connection_id
  pub granted : (client.role ≡ supervisor) ↔ Supervises verified.role
  pub denied : (client.role ≡ operator_role) ↔ (verified.role ≡ operator)
  pub subscribed : after ≡ subscribe req.airport_id client r

client_role_for-supervisor : (role : Role) → (client_role_for role ≡ supervisor) ↔ Supervises role
client_role_for-supervisor admin = (λ e. inl refl, λ e. refl)
client_role_for-supervisor reviewer = (λ e. inr refl, λ e. refl)
client_role_for-supervisor operator = (λ e. absurd (cc), λ e. absurd (ground arith))

client_role_for-operator :
    (role : Role) → (client_role_for role ≡ operator_role) ↔ (role ≡ operator)
client_role_for-operator admin = (λ e. absurd (cc), λ e. absurd (cc))
client_role_for-operator reviewer = (λ e. absurd (cc), λ e. absurd (cc))
client_role_for-operator operator = (λ e. refl, λ e. refl)

-- A request is attached only if its airport id is a UUID and it carries an access token that the signer
-- verifies at that moment; the registry then gains the drawn connection at that airport, as a supervisor
-- if the token's role is admin or reviewer and as an operator if it is operator, and in no other case, and
-- changes in nothing else.
pub attached-IsAuthenticated :
    (opts : RouteOptions) (req : UpgradeRequest) (moment : Moment) (r : ChannelRegistry)
    → is_attached (airport_events opts req moment r).0 ≡ true
    → IsAuthenticated opts req moment r (airport_events opts req moment r).1
unfolding airport_events attach
attached-IsAuthenticated opts req moment r h = elim (Bool-cases (is_uuid req.airport_id)) [
  | inr other ↦ absurd (ground arith)
  | inl named ↦ elim (Option-cases (extract_token req.protocol req.access_token)) [
    | inl absent ↦ absurd (ground arith)
    | inr (token, carried) ↦
        elim (Result-cases (verify_access opts.jose opts.signer moment.now_ms token)) [
          | inr (code, refused) ↦ absurd (ground arith)
          | inl (verified, taken) ↦ record {
            token = token;
            verified = verified;
            named = named;
            carried = carried;
            taken = taken;
            client = client_of verified.role moment;
            drawn = refl;
            granted = client_role_for-supervisor verified.role;
            denied = client_role_for-operator verified.role;
            subscribed = ground arith;
          }
        ]
  ]
]
