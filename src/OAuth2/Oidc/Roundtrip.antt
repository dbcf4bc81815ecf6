-- ===== src/OAuth2/Oidc/Roundtrip.antt =====
-- src/extras/oauth2/oidc.service.ts: an ID token that was signed is verified.
use luoluo_auth.Common.{
  ℕ, ◌+◌, ◌/◌, ◌<◌, ◌≡◌, String, Option, none, some, if◌then◌else◌, truthy, get_or, arith, eq_refl,
}
use luoluo_auth.OAuth2.Oidc.{
  OidcConfig, IdTokenPayload, JsonWebToken, expires_in, claims, sign_id_token, verify_id_token,
}

-- What the service relies on of jsonwebtoken: a token that was signed is read back under the same
-- secret, for the issuer and the audience in it, before its expiry.
pub record ReadsBack (jwt : JsonWebToken) : Type 0 where
  pub back :
      (payload : IdTokenPayload) (secret : String) (audience : Option String) (now : ℕ)
      → now / 1000 < payload.exp
      → (if truthy audience then get_or audience "" else payload.aud) ≡ payload.aud
      → jwt.check (jwt.sign payload secret) secret payload.iss audience now ≡ some payload

-- With a jsonwebtoken that reads back what it signed: an ID token without extra claims is
-- verified, before its expiry, for its own audience or none, and for its own nonce or none, with
-- the claims that were signed.
pub verify-sign_id_token :
    (jwt : JsonWebToken) (config : OidcConfig) (now later : ℕ) (sub aud : String)
    (issued audience expected : Option String)
    → ReadsBack jwt
    → later / 1000 < now / 1000 + expires_in jwt config
    → (if truthy audience then get_or audience "" else aud) ≡ aud
    → (if truthy expected then expected else issued) ≡ issued
    → verify_id_token jwt config later
        (sign_id_token jwt config (λ p. p) now sub aud issued)
        audience
        expected
      ≡ some (claims jwt config (λ p. p) now sub aud issued)
unfolding verify_id_token sign_id_token claims
verify-sign_id_token jwt config now later sub aud issued audience expected h live a n =
    let p = claims jwt config (λ p. p) now sub aud issued in
    let wanted = if truthy audience then audience else none in
    rw (h.back p config.secret wanted later live (ground arith), verify_id_token)
      (ground (arith, n, eq_refl (get_or expected "")))
