-- ===== src/OAuth2/Types.antt =====
-- The data of src/extras/oauth2/client-store.ts. A timestamp is in milliseconds.
use luoluo_auth.Common.{ℕ, String, Bool, true, false, Option, List}

pub data GrantType : Type 0 where
  authorization_code password client_credentials refresh_token device_code : GrantType

abbrev pub same_grant : GrantType → GrantType → Bool
same_grant authorization_code authorization_code = true
same_grant password password = true
same_grant client_credentials client_credentials = true
same_grant refresh_token refresh_token = true
same_grant device_code device_code = true
same_grant _ _ = false

pub data PkceMethod : Type 0 where
  plain s256 : PkceMethod

pub record OAuth2Client : Type 0 where
  pub client_id : String
  pub client_secret : String
  pub redirect_uris : List String
  pub grants : List GrantType
  pub name : Option String
  pub scopes : Option (List String)
  pub is_public : Bool

pub record AuthorizationCode : Type 0 where
  pub code : String
  pub client_id : String
  pub user_id : String
  pub redirect_uri : String
  pub expires_at : ℕ
  pub state : Option String
  pub scope : Option String
  pub nonce : Option String
  pub code_challenge : Option String
  pub code_challenge_method : Option PkceMethod

-- `expires_in` is in seconds.
pub record OAuth2Token : Type 0 where
  pub access_token : String
  pub refresh_token : Option String
  pub token_type : String
  pub expires_in : ℕ
  pub scope : Option String
  pub user_id : Option String
  pub id_token : Option String
  pub expires_at : Option ℕ

pub record DeviceCode : Type 0 where
  pub device_code : String
  pub user_code : String
  pub verification_uri : String
  pub verification_uri_complete : Option String
  pub client_id : String
  pub scope : Option String
  pub interval : ℕ
  pub expires_at : ℕ
  pub authorized : Bool
  pub user_id : Option String

pub record RefreshTokenEntry : Type 0 where
  pub access_token : String
  pub family : String
  pub used : Bool

-- `ConsumeRefreshTokenResult`
pub data ConsumeRefreshTokenResult : Type 0 where
  success : OAuth2Token → (family : String) → ConsumeRefreshTokenResult
  reuse_detected : (family : String) → ConsumeRefreshTokenResult
  unknown : ConsumeRefreshTokenResult
