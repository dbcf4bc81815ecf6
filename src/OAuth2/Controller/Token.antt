-- ===== src/OAuth2/Controller/Token.antt =====
-- src/extras/oauth2/oauth2.controller.ts, `token`.
use luoluo_auth.Common.{String, ◌||◌, Option, none, some, if◌then◌else◌, truthy, or_text, ◌==◌}
use luoluo_auth.OAuth2.Types.{OAuth2Client, OAuth2Token}
use luoluo_auth.OAuth2.ClientStore.{get_client, verify_client_secret}
use luoluo_auth.OAuth2.Controller.{
  TokenRequest, HttpRequest, bad_request, unauthorized, Server, Endpoint, H, ◌>>=◌, ◌>>◌, deny,
  require, the,
}
use luoluo_auth.OAuth2.Controller.Grants.{
  handle_authorization_code, handle_password, handle_client_credentials, handle_refresh_token,
}
use luoluo_auth.OAuth2.Controller.Device.{handle_device_code_token}

module _ {S L K R : Type 0} (c : Endpoint S L K R) where
  -- The `switch` on the grant type.
  unfoldable pub dispatch :
      TokenRequest → OAuth2Client → Option String → Option String → H (Server S L K R) OAuth2Token
  unfolding handle_authorization_code handle_password handle_client_credentials handle_refresh_token
      handle_device_code_token
  dispatch body client ip user_agent =
      if body.grant_type == "authorization_code"
      then handle_authorization_code c body client ip user_agent
      else if body.grant_type == "password"
      then handle_password c body ip user_agent
      else if body.grant_type == "client_credentials"
      then handle_client_credentials c body ip user_agent
      else if body.grant_type == "refresh_token"
      then handle_refresh_token c body ip user_agent
      else if body.grant_type == "device_code"
      then handle_device_code_token c body ip user_agent
      else deny (bad_request "Unsupported grant_type")

  unfoldable pub token : TokenRequest → HttpRequest → H (Server S L K R) OAuth2Token
  unfolding dispatch
  token body q = do
    client ← λ s. the (get_client s.clients body.client_id) (unauthorized "Invalid client_id") s
    λ s.
        require
          (client.is_public || verify_client_secret s.clients body.client_id body.client_secret)
          (unauthorized "Invalid client_secret") s
    dispatch body client (some (or_text q.ip "unknown"))
        (if truthy q.user_agent then q.user_agent else none)
