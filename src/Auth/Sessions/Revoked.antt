-- ===== src/Auth/Sessions/Revoked.antt =====
-- A session that is closed stays closed.
use airport_inspection_platf.Auth.Jwt.{Jose, JwtSigner, VerifiedRefreshToken, verify_refresh}
use airport_inspection_platf.Auth.Sessions.{
  AuthReply, AuthRequest, Gateway, UserDirectory, contains, emit_auth_event, is_revoked, login,
  logout_route, no_content, refresh_body, refresh_route, refresh_verified, refreshed, revoke,
  token_error, unauthorized_reply,
}
use airport_inspection_platf.Prelude.{
  Bool, Bool-cases, List, Option, Option-cases, Result-cases, String, [], ap, arith, if_false,
  if_true, if◌then◌else◌, inl, inr, is_some, length, length-append, refl, some, str_eq_refl, suc,
  true, ℕ, ◌++◌, ◌+◌, ◌∙◌, ◌∷◌, ◌≡◌, ◌≢◌,
}
use airport_inspection_platf.Prelude.Json.{Fields}
use airport_inspection_platf.Auth.SecurityEvents.{
  SecurityEventType, emit, refresh_failed, refresh_succeeded,
}

pub data SessionRequest : Type 0 where
  log_in refresh_token log_out : AuthRequest → SessionRequest

contains-append :
    (token : String) (xs ys : List String)
    → contains token xs ≡ true
    → contains token (xs ++ ys) ≡ true
contains-append token [] ys h = absurd (cc)
contains-append token (x ∷ xs) ys h = ground (arith, contains-append token xs ys)

contains-last : (token : String) (xs : List String) → contains token (xs ++ token ∷ []) ≡ true
contains-last token [] = rw (str_eq_refl token)
contains-last token (x ∷ xs) = ground (arith, contains-last token xs)

contains-revoke_self : (token : String) (xs : List String) → contains token (revoke token xs) ≡ true
unfolding revoke
contains-revoke_self token xs = elim (Bool-cases (contains token xs)) [
  | inl t ↦ ap (contains token) (if_true _ _ _ t) ∙ t
  | inr t ↦ ap (contains token) (if_false _ _ _ t) ∙ contains-last token xs
]

contains-revoke :
    (token other : String) (xs : List String)
    → contains token xs ≡ true
    → contains token (revoke other xs) ≡ true
unfolding revoke
contains-revoke token other xs h = elim (Bool-cases (contains other xs)) [
  | inl t ↦ ap (contains token) (if_true _ _ _ t) ∙ h
  | inr t ↦ ap (contains token) (if_false _ _ _ t) ∙ contains-append token xs (other ∷ []) h
]

module _ (jose : Jose) (signer : JwtSigner) (directory : UserDirectory) (is_email : String → Bool)
    (to_lower : String → String) where
  abbrev pub serve : SessionRequest → Gateway → AuthReply × Gateway
  serve (log_in req) g = login jose signer directory is_email to_lower req g
  serve (refresh_token req) g = refresh_route jose signer directory req g
  serve (log_out req) g = logout_route jose signer directory req g

  abbrev pub serve_all : List SessionRequest → Gateway → Gateway
  serve_all [] g = g
  serve_all (r ∷ rs) g = serve_all rs (serve r g).1

  login-revoked : (req : AuthRequest) (g : Gateway) → (serve (log_in req) g).1.revoked ≡ g.revoked
  unfolding login emit_auth_event
  login-revoked req g = ground arith

  refresh-revoked :
      (req : AuthRequest) (g : Gateway) → (serve (refresh_token req) g).1.revoked ≡ g.revoked
  unfolding refresh_route refresh_verified emit_auth_event
  refresh-revoked req g = ground arith

  logout-revoked :
      (token : String) (req : AuthRequest) (g : Gateway)
      → contains token g.revoked ≡ true
      → contains token (serve (log_out req) g).1.revoked ≡ true
  unfolding logout_route emit_auth_event
  logout-revoked token req g h = elim (Option-cases (refresh_body jose signer directory req)) [
    | inl e ↦ rw (e, logout_route) h
    | inr (t, e) ↦ elim (Result-cases (verify_refresh jose signer req.now t)) [
      | inl (v, k) ↦ rw (e, logout_route) (rw k (contains-revoke token t g.revoked h))
      | inr (c, k) ↦ rw (e, logout_route) (rw k h)
    ]
  ]

  serve_all-revoked :
      (token : String) (rs : List SessionRequest) (g : Gateway)
      → contains token g.revoked ≡ true
      → contains token (serve_all rs g).revoked ≡ true
  serve_all-revoked token [] g h = h
  serve_all-revoked token (log_in req ∷ rs) g h =
      serve_all-revoked token rs _ (ap (contains token) (login-revoked req g) ∙ h)
  serve_all-revoked token (refresh_token req ∷ rs) g h =
      serve_all-revoked token rs _ (ap (contains token) (refresh-revoked req g) ∙ h)
  serve_all-revoked token (log_out req ∷ rs) g h =
      serve_all-revoked token rs _ (logout-revoked token req g h)

  logout-revokes :
      (token : String) (req : AuthRequest) (g : Gateway)
      → refresh_body jose signer directory req ≡ some token
      → (logout_route jose signer directory req g).0 ≡ no_content
      → contains token (logout_route jose signer directory req g).1.revoked ≡ true
  unfolding logout_route emit_auth_event
  logout-revokes token req g e h = elim (Result-cases (verify_refresh jose signer req.now token)) [
    | inl (v, k) ↦ rw (e, logout_route) (rw k (contains-revoke_self token g.revoked))
    | inr (c, k) ↦
        let refused : (logout_route jose signer directory req g).0 ≡ token_error c =
          rw (e, logout_route) (rw k refl) in
        absurd (cc)
  ]

  refresh-refused :
      (token bought : String) (req : AuthRequest) (g : Gateway)
      → refresh_body jose signer directory req ≡ some token
      → contains token g.revoked ≡ true
      → (refresh_route jose signer directory req g).0 ≢ refreshed bought
  unfolding refresh_route refresh_verified is_revoked
  refresh-refused token bought req g e h r =
      elim (Result-cases (verify_refresh jose signer req.now token)) [
        | inl (v, k) ↦
            let refused : (refresh_route jose signer directory req g).0
                ≡ unauthorized_reply "refresh token revoked" =
              rw (e, refresh_route)
                (rw k (ap (λ (x : AuthReply × Gateway). x.0) (if_true _ _ _ h))) in
            absurd (cc)
        | inr (c, k) ↦
            let refused : (refresh_route jose signer directory req g).0 ≡ token_error c =
              rw (e, refresh_route) (rw k refl) in
            absurd (cc)
      ]

  -- Once a logout has answered 204, its refresh token buys no access token again: whatever requests
  -- of any caller are served after it, a refresh with that token does not answer with a new token.
  pub logged_out :
      (token bought : String) (out again : AuthRequest) (between : List SessionRequest)
      (g : Gateway)
      → refresh_body jose signer directory out ≡ some token
      → refresh_body jose signer directory again ≡ some token
      → (serve (log_out out) g).0 ≡ no_content
      → (serve (refresh_token again) (serve_all between (serve (log_out out) g).1)).0
        ≢ refreshed bought
  logged_out token bought out again between g e k h =
      refresh-refused token bought again _ k
        (serve_all-revoked token between _ (logout-revokes token out g e h))

  -- The security events that were handed to Redis, taken or not.
  abbrev pub attempts : Gateway → ℕ
  attempts g = length g.security_events.published + g.security_events.failures

  attempts-emit_auth_event :
      (req : AuthRequest) (t : SecurityEventType) (actor : Option String) (payload : Fields)
      (g : Gateway)
      → attempts (emit_auth_event req t actor payload g) ≡ suc (attempts g)
  unfolding emit_auth_event emit
  attempts-emit_auth_event req t actor payload g = elim (Bool-cases req.up) [
    | inl u ↦ rw (u, emit_auth_event) (omega (arith, length-append {0} g.security_events.published))
    | inr u ↦ rw (u, emit_auth_event) (omega arith)
  ]

  refresh_verified_audited :
      (req : AuthRequest) (token : String) (v : VerifiedRefreshToken) (g : Gateway)
      → attempts (refresh_verified jose signer directory req token v g).1 ≡ suc (attempts g)
  unfolding refresh_verified
  refresh_verified_audited req token v g = elim (Bool-cases (is_revoked token g.revoked)) [
    | inl t ↦ rw (t, refresh_verified) (attempts-emit_auth_event req refresh_failed _ _ g)
    | inr t ↦ elim (Option-cases (directory.find_by_id v.user_id)) [
      | inl e ↦ rw (t, refresh_verified) (rw e (attempts-emit_auth_event req refresh_failed _ _ g))
      | inr (u, e) ↦
          rw (t, refresh_verified) (rw e (attempts-emit_auth_event req refresh_succeeded _ _ g))
    ]
  ]

  -- Every refresh is audited: one with a body that is refused emits no security event, any other
  -- exactly one, whether it ends with a new token, a revoked one, an unknown user or a bad token,
  -- and whether Redis takes the event or not.
  pub refresh_audited :
      (req : AuthRequest) (g : Gateway)
      → attempts (refresh_route jose signer directory req g).1
        ≡ attempts g + (if is_some (refresh_body jose signer directory req) then 1 else 0)
  unfolding refresh_route
  refresh_audited req g = elim (Option-cases (refresh_body jose signer directory req)) [
    | inl e ↦ rw (e, refresh_route) (omega arith)
    | inr (token, e) ↦ elim (Result-cases (verify_refresh jose signer req.now token)) [
      | inl (v, k) ↦
          rw (e, refresh_route) (rw k (refresh_verified_audited req token v g ∙ omega arith))
      | inr (c, k) ↦
          rw (e, refresh_route)
            (rw k (attempts-emit_auth_event req refresh_failed _ _ g ∙ omega arith))
    ]
  ]
