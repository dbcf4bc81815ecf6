-- ===== src/Tests/Endpoints.antt =====
-- The OAuth2 endpoints on concrete requests.
use luoluo_auth.Common.{
  ◌≡◌, inl, refl, String, true, false, none, some, List, [], ltb, ◌∷◌, nat_eq, if◌then◌else◌, arith,
}
use luoluo_auth.Common.JsMap
use luoluo_auth.Common.Text.{to_lower_case}
use luoluo_auth.MemoryStore
use luoluo_auth.MemoryStore.{MemoryStore, new_store, max_safe_integer}
use luoluo_auth.MemoryStore.Reach
use luoluo_auth.MemoryStore.Reach.{run}
use luoluo_auth.Permission
use luoluo_auth.Auth.Errors.{ok}
use luoluo_auth.Auth.Service.Login.{login_user}
use luoluo_auth.Auth.Strategies.{memory_store, random_token_strategy}
use luoluo_auth.Auth.Service.Tokens.Laws.{with_random_tokens}
use luoluo_auth.Auth.Guard.{extract_bearer_token}
use luoluo_auth.OAuth2.Types.{
  OAuth2Client, OAuth2Token, AuthorizationCode, authorization_code, device_code,
}
use luoluo_auth.OAuth2.ClientStore
use luoluo_auth.OAuth2.ClientStore.{
  ClientStore, register_client, get_client, verify_client_secret, consume_authorization_code,
  consume_refresh_token, get_token,
}
use luoluo_auth.OAuth2.Pkce.{generate_code_challenge, base64_url_encode}
use luoluo_auth.OAuth2.Controller.{
  header, HttpRequest, TokenRequest, answer, refuse, bad_request, Server, Endpoint, validate,
}
use luoluo_auth.OAuth2.Controller.Authorize
use luoluo_auth.OAuth2.Controller.Authorize.{
  AuthorizeQuery, Redirection, authorize, grant_code, new_code,
}
use luoluo_auth.OAuth2.Controller.Grants.{handle_authorization_code}
use luoluo_auth.OAuth2.Controller.Token.{token}
use luoluo_auth.OAuth2.Controller.Presenting.{
  handle_authorization_code_once, handle_authorization_code-grant_code,
}
use luoluo_auth.OAuth2.Controller.Redeeming.{
  IsRedeemable, presented, handle_authorization_code-IsRedeemable,
}
use luoluo_auth.OAuth2.Controller.Admission.{
  IsAuthorizable, authorize-IsAuthorizable, authorize_redirect, token-client_credentials,
}
use luoluo_auth.OAuth2.ClientStore.Codes.{codes}
use luoluo_auth.OAuth2.ClientStore.Reach.{Event}
use luoluo_auth.OAuth2.Controller.Issuing.{login_of, IsTokenFor}
use luoluo_auth.Tests.Stores.{three_sessions}
use luoluo_auth.Tests.Service.{base, world, Service}

-- The draws are "p", "q" and so on.
abbrev pub service : Service
service =
    with_random_tokens
      (record base { random = λ n. if nat_eq n 0 then "p" else if nat_eq n 1 then "q" else "r" })
      none

abbrev pub Point : Type 0
Point = Endpoint MemoryStore (Unit {0}) (Unit {0}) (Unit {0})

abbrev pub State : Type 0
State = Server MemoryStore (Unit {0}) (Unit {0}) (Unit {0})

abbrev pub endpoint : Point
endpoint = record {
  auth = service;
  user_validator = none;
  oidc = none;
  authorize_config = some (record {
    auth_check_mode = some header;
    cookie_name = none;
    login_url = none;
    state_key = none;
  });
  sha256 = λ verifier. "hash";
  random_int = λ n bound. 0;
}

-- A public client.
abbrev pub client : OAuth2Client
client = record {
  client_id = "app";
  client_secret = "s";
  redirect_uris = "https://app/cb" ∷ [];
  grants = authorization_code ∷ device_code ∷ [];
  name = none;
  scopes = none;
  is_public = true;
}

abbrev pub start : State
start = record {
  world = world three_sessions 10;
  clients = register_client ClientStore.new_store client;
  device_codes = [];
}

-- Ann's request.
abbrev pub ann : HttpRequest
ann = record {
  authorization = some "Bearer a1";
  cookies = [];
  ip = none;
  user_agent = none;
  full_url = "https://auth/oauth/authorize";
}

abbrev query : AuthorizeQuery
query = record {
  client_id = "app";
  redirect_uri = "https://app/cb";
  response_type = "code";
  state = some "st";
  scope = some "profile";
  code_challenge = some "hash";
  code_challenge_method = some "S256";
  nonce = none;
}

abbrev callback : Redirection
callback = record { url = "https://app/cb"; parameters = ("code", "p") ∷ ("state", "st") ∷ [] }

authorized : (authorize endpoint query ann start).1 ≡ answer callback
unfolding authorize JsMap.get JsMap.set get_client register_client ClientStore.verify_redirect_uri
    ClientStore.supports_grant Authorize.normalize_code_challenge_method to_lower_case
    Permission.split validate extract_bearer_token random_token_strategy memory_store
    MemoryStore.get run Reach.step MemoryStore.set MemoryStore.evict_if_needed MemoryStore.set_item
    MemoryStore.touch_lru new_store
authorized = refl

authorize-IsAuthorizable_example : IsAuthorizable endpoint query start
authorize-IsAuthorizable_example =
    authorize-IsAuthorizable endpoint query ann start callback authorized

-- The same endpoint in its default mode.
abbrev by_default : Point
by_default = record endpoint { authorize_config = none }

authorize_redirect_example :
    codes (authorize by_default query ann start).0.clients ≡ codes start.clients
authorize_redirect_example = authorize_redirect by_default query ann start refl

abbrev granted : State
granted = (grant_code endpoint query "st" "ann" start).0

abbrev pub body_for : String → String → TokenRequest
body_for grant_type code = record {
  grant_type = grant_type;
  client_id = "app";
  client_secret = "";
  code = some code;
  redirect_uri = some "https://app/cb";
  username = none;
  password = none;
  refresh_token = none;
  scope = none;
  code_verifier = some "verifier";
}

abbrev body : TokenRequest
body = body_for "authorization_code" "p"

abbrev granted_code : AuthorizationCode
granted_code = new_code endpoint query "p" "ann" "st" 10

redeemable : IsRedeemable endpoint body client granted_code
unfolding generate_code_challenge Authorize.normalize_code_challenge_method to_lower_case
    base64_url_encode
redeemable = record { same_client = refl; same_uri = refl; proved = inl (refl, refl, refl) }

logged_in : (login_of endpoint "ann" none none (presented endpoint granted "p")).1 ≡ ok "r"
unfolding consume_authorization_code grant_code ClientStore.save_authorization_code JsMap.get
    JsMap.set random_token_strategy memory_store MemoryStore.get run Reach.step MemoryStore.set
    MemoryStore.evict_if_needed MemoryStore.set_item MemoryStore.touch_lru new_store login_user
logged_in = refl

handle_authorization_code-grant_code_example :
    (t : OAuth2Token) × ((handle_authorization_code endpoint body client none none granted).1
      ≡ answer t)
    × IsTokenFor endpoint
        (presented endpoint granted "p")
        "ann"
        (some "profile")
        (some "app")
        none
        none
        none
        "r"
        t
unfolding grant_code
handle_authorization_code-grant_code_example =
    handle_authorization_code-grant_code endpoint query "st" "ann" body client none none start
      granted "r" refl (omega arith) refl refl redeemable refl logged_in

-- Another code is redeemed in between.
abbrev between : List Event
between = ClientStore.Reach.consume_authorization_code 20 "other" ∷ []

abbrev presented_again : State
presented_again =
    let s = (handle_authorization_code endpoint body client none none granted).0 in
    record s { clients = ClientStore.Reach.run s.clients between }

handle_authorization_code_once_example :
    (handle_authorization_code endpoint body client none none presented_again).1
    ≡ refuse (bad_request "Invalid or expired authorization code")
handle_authorization_code_once_example =
    handle_authorization_code_once endpoint body body client client none none none none granted
      presented_again between refl refl refl refl

abbrev pub machine : TokenRequest
machine = body_for "client_credentials" ""

pub registered : get_client start.clients "app" ≡ some client
unfolding get_client register_client JsMap.get JsMap.set
registered = refl

token-client_credentials_example :
    (t : OAuth2Token) × ((token endpoint machine ann start).1 ≡ answer t)
    × (t.user_id ≡ none)
    × (t.scope ≡ none)
    × (t.refresh_token ≡ some "p")
token-client_credentials_example =
    token-client_credentials endpoint machine ann start client registered refl refl

-- The code is redeemed for a token of Ann.
abbrev ann_token : OAuth2Token
ann_token = record {
  access_token = "r";
  refresh_token = some "q";
  token_type = "Bearer";
  expires_in = 3600;
  scope = some "profile";
  user_id = some "ann";
  id_token = none;
  expires_at = some 3600010;
}

redeemed : (handle_authorization_code endpoint body client none none granted).1 ≡ answer ann_token
unfolding handle_authorization_code consume_authorization_code grant_code
    ClientStore.save_authorization_code JsMap.get JsMap.set get_client register_client
    ClientStore.verify_redirect_uri ClientStore.supports_grant
    Authorize.normalize_code_challenge_method to_lower_case Permission.split validate
    extract_bearer_token random_token_strategy memory_store MemoryStore.get run Reach.step
    MemoryStore.set MemoryStore.evict_if_needed MemoryStore.set_item MemoryStore.touch_lru new_store
redeemed = refl

handle_authorization_code-IsRedeemable_example :
    (a : AuthorizationCode) × ((consume_authorization_code granted.clients granted.world.now "p").1
      ≡ some a)
    × (JsMap.get granted.clients.authorization_codes "p" ≡ some a)
    × (ltb a.expires_at granted.world.now ≡ false)
    × IsRedeemable endpoint body client a
    × (ann_token.user_id ≡ some a.user_id)
    × (ann_token.scope ≡ a.scope)
handle_authorization_code-IsRedeemable_example =
    handle_authorization_code-IsRedeemable endpoint body client none none granted ann_token redeemed
