-- ===== src/OAuth2/Controller/Grants.antt =====
-- src/extras/oauth2/oauth2.controller.ts: `handleAuthorizationCode`, `handlePassword`,
-- `handleClientCredentials` and `handleRefreshToken`.
use luoluo_auth.Common.{
  String, Bool, not, ◌&&◌, Option, none, some, if◌then◌else◌, truthy, get_or, ◌==◌,
}
use luoluo_auth.RateLimit.{RateLimitContext}
use luoluo_auth.Auth.Errors.{AuthException, oauth2_rate_limited}
use luoluo_auth.OAuth2.Types.{
  s256, OAuth2Client, AuthorizationCode, OAuth2Token, ConsumeRefreshTokenResult, success,
  reuse_detected, unknown,
}
use luoluo_auth.OAuth2.ClientStore.{
  consume_authorization_code, consume_refresh_token, revoke_token_family,
}
use luoluo_auth.OAuth2.Pkce.{verify_code_verifier}
use luoluo_auth.OAuth2.Controller.{
  TokenRequest, bad_request, unauthorized, service, answer, refuse, Server, Endpoint, H, ◌>>=◌,
  ◌>>◌, deny, require, the, with_clients, issue,
}

-- `body.redirect_uri && authCode.redirectUri !== body.redirect_uri`
abbrev pub other_uri : Option String → String → Bool
other_uri redirect_uri expected = truthy redirect_uri && not (expected == get_or redirect_uri "")

module _ {S L K R : Type 0} (c : Endpoint S L K R) where
  -- The PKCE checks.
  unfoldable pub check_verifier :
      AuthorizationCode → OAuth2Client → TokenRequest → H (Server S L K R) (Unit {0})
  unfolding verify_code_verifier
  check_verifier auth_code client body =
      if truthy auth_code.code_challenge
      then (require (truthy body.code_verifier) (bad_request "Missing code_verifier")
          >> require
              (verify_code_verifier c.sha256 (get_or body.code_verifier "")
                (get_or auth_code.code_challenge "") (get_or auth_code.code_challenge_method s256))
              (bad_request "Invalid code_verifier"))
      else require (not client.is_public)
          (bad_request "Public clients must use PKCE for authorization_code grant")

  -- What follows once the code was found.
  unfoldable pub redeem_code :
      TokenRequest
      → OAuth2Client
      → Option String
      → Option String
      → AuthorizationCode
      → H (Server S L K R) OAuth2Token
  unfolding check_verifier issue
  redeem_code body client ip user_agent auth_code = do
    require (auth_code.client_id == body.client_id) (bad_request "Client ID mismatch")
    require (not (other_uri body.redirect_uri auth_code.redirect_uri))
        (bad_request "Redirect URI mismatch")
    check_verifier auth_code client body
    issue c (some auth_code.user_id) auth_code.scope (some body.client_id) auth_code.nonce ip
        user_agent none

  unfoldable pub handle_authorization_code :
      TokenRequest → OAuth2Client → Option String → Option String → H (Server S L K R) OAuth2Token
  unfolding redeem_code
  handle_authorization_code body client ip user_agent = do
    require (truthy body.code) (bad_request "Missing code parameter")
    found ←
        with_clients (λ clients now. consume_authorization_code clients now (get_or body.code ""))
    auth_code ← the found (bad_request "Invalid or expired authorization code")
    redeem_code body client ip user_agent auth_code

  -- The rate limit of an action.
  unfoldable pub check_rate : String → Option String → H (Server S L K R) (Unit {0})
  check_rate action ip s = elim c.auth.limiter [
    | none ↦ (s, answer tt)
    | some limiter ↦
        let context : RateLimitContext = record {
          ip = get_or ip "";
          user_id = none;
          action = action;
        } in
        let (l, allowed) = limiter.allow s.world.limiter s.world.now context in
        let s' = record s { world = record s.world { limiter = l } } in
        let limited : AuthException = record { code = oauth2_rate_limited; status = 429 } in
        if truthy ip
        then if allowed then (s', answer tt) else (s', refuse (service limited))
        else (s, answer tt)
  ]

  unfoldable pub handle_password :
      TokenRequest → Option String → Option String → H (Server S L K R) OAuth2Token
  unfolding check_rate issue
  handle_password body ip user_agent = do
    check_rate "oauth2:password" ip
    validator ← the c.user_validator (bad_request "password grant type requires a user validator")
    require (truthy body.username && truthy body.password)
        (bad_request "Missing username or password")
    user_id ←
        the (validator (get_or body.username "") (get_or body.password ""))
          (unauthorized "Invalid username or password")
    issue c (some user_id) body.scope (some body.client_id) none ip user_agent none

  unfoldable pub handle_client_credentials :
      TokenRequest → Option String → Option String → H (Server S L K R) OAuth2Token
  unfolding issue
  handle_client_credentials body ip user_agent =
      issue c none body.scope (some body.client_id) none ip user_agent none

  -- What follows on the answer of the client store.
  unfoldable pub refresh :
      TokenRequest
      → Option String
      → Option String
      → ConsumeRefreshTokenResult
      → H (Server S L K R) OAuth2Token
  unfolding issue
  refresh body ip user_agent unknown = deny (bad_request "Invalid or expired refresh token")
  refresh body ip user_agent (reuse_detected family) = do
    with_clients (λ clients now. (revoke_token_family clients family, tt))
    deny (unauthorized "Refresh token reuse detected. Token family revoked.")
  refresh body ip user_agent (success token family) =
      issue c token.user_id token.scope (some body.client_id) none ip user_agent (some family)

  unfoldable pub handle_refresh_token :
      TokenRequest → Option String → Option String → H (Server S L K R) OAuth2Token
  unfolding check_rate refresh
  handle_refresh_token body ip user_agent = do
    check_rate "oauth2:refresh" ip
    require (truthy body.refresh_token) (bad_request "Missing refresh_token parameter")
    result ←
        with_clients
          (λ clients now. consume_refresh_token clients now (get_or body.refresh_token ""))
    refresh body ip user_agent result
