-- ===== src/Auth/Jwt/Tokens.antt =====
-- What the tokens that a signer makes are good for.
use airport_inspection_platf.Auth.Jwt.{
  AccessTokenClaims, Jose, JwtSigner, VerifiedAccessToken, access_claims, expired_token,
  jwt_expired, payload_of, refresh_claims, role_of, role_text, sign, sign_access, sign_refresh,
  verify, verify_access, verify_refresh,
}
use airport_inspection_platf.Prelude.{
  Bool-cases, String, arith, err, inl, inr, ltb, ltb→lt, ok, refl, some, ℕ, ◌+◌, ◌/◌, ◌<◌, ◌≡◌, ◌≢◌,
  ◌≤◌,
}
use airport_inspection_platf.Auth.{Role, admin, operator, reviewer}
use airport_inspection_platf.Prelude.Json.{Fields}

-- The claims that this package signs.
pub data OwnClaims : Fields → Type 0 where
  of_access : (claims : AccessTokenClaims) → OwnClaims (access_claims claims)
  of_refresh : (user_id : String) → OwnClaims (refresh_claims user_id)

-- What `jose` documents, for such claims: a token verifies, by the secret that signed it and for its
-- issuer, to its payload before the second of its expiry, and is expired from that second on.
pub record IsJose (jose : Jose) : Type 0 where
  pub verify-sign :
      (secret issuer : String) (claims : Fields) (ttl issued now : ℕ)
      → OwnClaims claims
      → now / 1000 < issued / 1000 + ttl
      → jose.verify secret issuer now (jose.sign secret (payload_of issuer claims ttl issued))
        ≡ ok (payload_of issuer claims ttl issued)
  pub expired :
      (secret issuer : String) (claims : Fields) (ttl issued now : ℕ)
      → OwnClaims claims
      → issued / 1000 + ttl ≤ now / 1000
      → jose.verify secret issuer now (jose.sign secret (payload_of issuer claims ttl issued))
        ≡ err jwt_expired

role_of-role_text : (role : Role) → role_of (some (role_text role)) ≡ some role
role_of-role_text operator = refl
role_of-role_text reviewer = refl
role_of-role_text admin = refl

module _ (jose : Jose) (laws : IsJose jose) (signer : JwtSigner) where
  verify-sign_live :
      (claims : Fields) (ttl issued now : ℕ)
      → OwnClaims claims
      → now / 1000 < issued / 1000 + ttl
      → verify jose signer now (sign jose signer claims ttl issued)
        ≡ ok (payload_of signer.issuer claims ttl issued)
  unfolding verify sign
  verify-sign_live claims ttl issued now own l =
      rw (laws.verify-sign signer.secret signer.issuer claims ttl issued now own l, verify) refl

  verify-sign_expired :
      (claims : Fields) (ttl issued now : ℕ)
      → OwnClaims claims
      → issued / 1000 + ttl ≤ now / 1000
      → verify jose signer now (sign jose signer claims ttl issued) ≡ err expired_token
  unfolding verify sign
  verify-sign_expired claims ttl issued now own l =
      rw (laws.expired signer.secret signer.issuer claims ttl issued now own l, verify) refl

  -- While its time to live lasts, an access token verifies to the user and the role that it was
  -- signed for, with the times of its issue and its expiry.
  pub verify_access-sign_access :
      (claims : AccessTokenClaims) (issued now : ℕ)
      → now / 1000 < issued / 1000 + signer.access_ttl
      → verify_access jose signer now (sign_access jose signer claims issued)
        ≡ ok (record {
          user_id = claims.user_id;
          role = claims.role;
          expires_at = issued / 1000 + signer.access_ttl;
          issued_at = issued / 1000;
        })
  unfolding verify_access sign_access
  verify_access-sign_access claims issued now l =
      rw (verify-sign_live (access_claims claims) signer.access_ttl issued now (of_access claims) l)
        (rw (role_of-role_text claims.role) refl)

  -- While its time to live lasts, a refresh token verifies to the user that it was signed for.
  pub verify_refresh-sign_refresh :
      (user_id : String) (issued now : ℕ)
      → now / 1000 < issued / 1000 + signer.refresh_ttl
      → verify_refresh jose signer now (sign_refresh jose signer user_id issued)
        ≡ ok (record {
          user_id = user_id;
          expires_at = issued / 1000 + signer.refresh_ttl;
          issued_at = issued / 1000;
        })
  unfolding verify_refresh sign_refresh
  verify_refresh-sign_refresh user_id issued now l =
      rw
        (verify-sign_live (refresh_claims user_id) signer.refresh_ttl issued now
          (of_refresh user_id) l)
        refl

  -- A refresh token is no access token, whenever it is shown: it verifies as one at no time.
  refresh_no_access :
      (user_id : String) (issued now : ℕ) (v : VerifiedAccessToken)
      → verify_access jose signer now (sign_refresh jose signer user_id issued) ≢ ok v
  unfolding verify_access sign_refresh
  refresh_no_access user_id issued now v h =
      let claims = refresh_claims user_id in
      let ttl = signer.refresh_ttl in
      elim (Bool-cases (ltb (now / 1000) (issued / 1000 + ttl))) [
        | inl t ↦
            let shown =
              verify-sign_live claims ttl issued now (of_refresh user_id) (ltb→lt _ _ t) in
            absurd (cc (rw shown at h))
        | inr t ↦
            let shown =
              verify-sign_expired claims ttl issued now (of_refresh user_id) (ground arith) in
            absurd (cc (rw shown at h))
      ]
