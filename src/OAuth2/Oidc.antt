-- ===== src/OAuth2/Oidc.antt =====
-- src/extras/oauth2/oidc.service.ts, `OidcService`. `sign` and `check` are `sign` and `verify` of
-- jsonwebtoken with the algorithm HS256.
pub mod Roundtrip
use Prim.Native.Char.{code}
use Prim.Native.String
use luoluo_auth.Common.{
  ℕ, ◌+◌, ◌/◌, String, Bool, true, false, not, ◌&&◌, Option, none, some, List, [], ◌∷◌, nat_eq,
  if◌then◌else◌, truthy, get_or, is_some, ◌==◌,
}
use luoluo_auth.MemoryStore.Data.{text_is}

pub record OidcConfig : Type 0 where
  pub issuer : String
  pub secret : String
  pub id_token_expires_in : Option ℕ

-- The payload of an ID token; the claims of a caller, `extraClaims`, come as a function on it.
pub record IdTokenPayload : Type 0 where
  pub iss : String
  pub sub : String
  pub aud : String
  pub exp : ℕ
  pub iat : ℕ
  pub auth_time : ℕ
  pub nonce : Option String

pub record OidcDiscoveryMetadata : Type 0 where
  pub issuer : String
  pub authorization_endpoint : String
  pub token_endpoint : String
  pub userinfo_endpoint : String
  pub scopes_supported : List String
  pub response_types_supported : List String
  pub grant_types_supported : List String
  pub subject_types_supported : List String
  pub id_token_signing_alg_values_supported : List String

-- jsonwebtoken: `check token secret issuer audience now` is the payload of a token with a valid
-- signature that is not expired, with the issuer, and with the audience if one is given.
pub record JsonWebToken : Type 0 where
  pub sign : IdTokenPayload → String → String
  pub check : String → String → String → Option String → ℕ → Option IdTokenPayload

-- `.replace(/\/$/, '')`
unfoldable pub drop_slash : String → String
drop_slash String.[] = String.[]
drop_slash (String.◌∷◌ c String.[]) =
    if nat_eq (code c) b'/' then String.[] else String.◌∷◌ c String.[]
drop_slash (String.◌∷◌ c (String.◌∷◌ d s)) = String.◌∷◌ c (drop_slash (String.◌∷◌ d s))

module _ (jwt : JsonWebToken) (config : OidcConfig) where
  -- The constructor's `idTokenExpiresIn ?? 3600`.
  abbrev pub expires_in : ℕ
  expires_in = get_or config.id_token_expires_in 3600

  unfoldable pub claims :
      (IdTokenPayload → IdTokenPayload) → ℕ → String → String → Option String → IdTokenPayload
  claims extra now sub audience nonce =
      let payload : IdTokenPayload = extra (record {
        iss = config.issuer;
        sub = sub;
        aud = audience;
        exp = now / 1000 + expires_in;
        iat = now / 1000;
        auth_time = now / 1000;
        nonce = none;
      }) in
      record payload { nonce = if truthy nonce then nonce else payload.nonce }

  unfoldable pub sign_id_token :
      (IdTokenPayload → IdTokenPayload) → ℕ → String → String → Option String → String
  unfolding claims
  sign_id_token extra now sub audience nonce =
      jwt.sign (claims extra now sub audience nonce) config.secret

  -- `none` is an Error.
  unfoldable pub verify_id_token :
      ℕ → String → Option String → Option String → Option IdTokenPayload
  verify_id_token now id_token audience nonce =
      let wanted = if truthy audience then audience else none in
      elim (jwt.check id_token config.secret config.issuer wanted now) [
        | none ↦ none
        | some payload ↦
            if truthy nonce && not (text_is payload.nonce (get_or nonce ""))
            then none
            else some payload
      ]

  unfoldable pub get_discovery_metadata : OidcDiscoveryMetadata
  unfolding drop_slash
  get_discovery_metadata =
      let issuer = drop_slash config.issuer in
      record {
        issuer = issuer;
        authorization_endpoint = String.◌++◌ issuer "/oauth/authorize";
        token_endpoint = String.◌++◌ issuer "/oauth/token";
        userinfo_endpoint = String.◌++◌ issuer "/oauth/userinfo";
        scopes_supported = "openid" ∷ "profile" ∷ "email" ∷ [];
        response_types_supported = "code" ∷ [];
        grant_types_supported =
            "authorization_code" ∷ "password" ∷ "client_credentials" ∷ "refresh_token" ∷ [];
        subject_types_supported = "public" ∷ [];
        id_token_signing_alg_values_supported = "HS256" ∷ [];
      }
