-- ===== src/OAuth2/Controller/Authorize.antt =====
-- src/extras/oauth2/oauth2.controller.ts, `authorize` and `userinfo`.
use luoluo_auth.Common.{
  ℕ, ◌+◌, ◌*◌, String, Bool, true, false, not, ◌&&◌, Option, none, some, List, [], ◌∷◌,
  if◌then◌else◌, truthy, get_or, or_text, ◌==◌,
}
use luoluo_auth.Common.JsMap
use luoluo_auth.Common.Text.{to_lower_case}
use luoluo_auth.MemoryStore.Data.{SessionData}
use luoluo_auth.Auth.Guard.{extract_bearer_token}
use luoluo_auth.OAuth2.Types.{
  PkceMethod, plain, s256, authorization_code, AuthorizationCode, OAuth2Client, OAuth2Token,
}
use luoluo_auth.OAuth2.ClientStore.{
  get_client, verify_redirect_uri, supports_grant, save_authorization_code, get_token,
}
use luoluo_auth.OAuth2.Controller.{
  OAuth2AuthCheckMode, cookie, header, redirect, OAuth2AuthorizeConfig, HttpRequest, bad_request,
  unauthorized, Reply, Server, Endpoint, H, ◌>>=◌, ◌>>◌, respond, deny, require, the, with_clients,
  uuid, validate,
}

pub record AuthorizeQuery : Type 0 where
  pub client_id : String
  pub redirect_uri : String
  pub response_type : String
  pub state : Option String
  pub scope : Option String
  pub code_challenge : Option String
  pub code_challenge_method : Option String
  pub nonce : Option String

-- Where `res.redirect` sends the browser: a URL, and the parameters that are set in its query.
pub record Redirection : Type 0 where
  pub url : String
  pub parameters : List (String × String)

pub record OidcUserInfo : Type 0 where
  pub sub : String
  pub name : String
  pub preferred_username : String
  pub scope : Option String

unfoldable pub extract_token_from_request :
    HttpRequest → OAuth2AuthCheckMode → String → Option String
unfolding extract_bearer_token
extract_token_from_request q cookie cookie_name = JsMap.get q.cookies cookie_name
extract_token_from_request q header cookie_name = extract_bearer_token q.authorization
extract_token_from_request q redirect cookie_name = none

abbrev pub known_method : String → Option PkceMethod
known_method normalized =
    if normalized == "s256" then some s256 else if normalized == "plain" then some plain else none

unfoldable pub normalize_code_challenge_method : Option String → Option PkceMethod
unfolding to_lower_case
normalize_code_challenge_method method =
    if truthy method then known_method (to_lower_case (get_or method "")) else some s256

abbrev pub is_s256 : Option PkceMethod → Bool
is_s256 (some s256) = true
is_s256 _ = false

-- The fields of the configuration, which may be absent itself.
abbrev pub mode_of : Option OAuth2AuthorizeConfig → OAuth2AuthCheckMode
mode_of none = redirect
mode_of (some c) = get_or c.auth_check_mode redirect

abbrev pub field_of :
    (OAuth2AuthorizeConfig → Option String) → Option OAuth2AuthorizeConfig → Option String
field_of f none = none
field_of f (some c) = f c

-- The user of a session that was found, and is not the empty text.
abbrev pub user_of : Option SessionData → Option String
user_of none = none
user_of (some session) = if session.user_id == "" then none else some session.user_id

module _ {S L K R : Type 0} (c : Endpoint S L K R) where
  -- The checks of the query, up to the state.
  unfoldable pub check_query : AuthorizeQuery → OAuth2Client → H (Server S L K R) (Unit {0})
  check_query query client s =
      (require (verify_redirect_uri s.clients query.client_id query.redirect_uri)
            (bad_request "Invalid redirect_uri")
          >> require (supports_grant s.clients query.client_id authorization_code)
              (bad_request "Unsupported grant type for this client")
          >> require (not (client.is_public && not (truthy query.code_challenge)))
              (bad_request "code_challenge is required for public clients")
          >> require
              (not (
                truthy query.code_challenge
                && not (is_s256 (normalize_code_challenge_method query.code_challenge_method))))
              (bad_request "Unsupported code_challenge_method. Public clients must use S256"))
        s

  -- The user that the request is from.
  unfoldable pub current_user : HttpRequest → Server S L K R → Server S L K R × Option String
  unfolding extract_token_from_request
  current_user q s =
      let name = get_or (field_of (λ a. a.cookie_name) c.authorize_config) "token" in
      let token = extract_token_from_request q (mode_of c.authorize_config) name in
      if truthy token
      then (let (s', session) = validate c (get_or token "") q s in (s', user_of session))
      else (s, none)

  -- Without a user: to the login page, or a refusal.
  abbrev pub unauthenticated :
      OAuth2AuthCheckMode → HttpRequest → String → H (Server S L K R) Redirection
  unauthenticated redirect q state = respond (record {
    url = or_text (field_of (λ a. a.login_url) c.authorize_config) "/auth/login";
    parameters =
        ("redirect_uri", q.full_url)
        ∷ (or_text (field_of (λ a. a.state_key) c.authorize_config) "oauth_state", state)
        ∷ [];
  })
  unauthenticated cookie q state = deny (unauthorized "User not authenticated")
  unauthenticated header q state = deny (unauthorized "User not authenticated")

  abbrev pub new_code : AuthorizeQuery → String → String → String → ℕ → AuthorizationCode
  new_code query code user_id state now = record {
    code = code;
    client_id = query.client_id;
    user_id = user_id;
    redirect_uri = query.redirect_uri;
    expires_at = now + 10 * 60 * 1000;
    state = some state;
    scope = query.scope;
    nonce = query.nonce;
    code_challenge = query.code_challenge;
    code_challenge_method = normalize_code_challenge_method query.code_challenge_method;
  }

  unfoldable pub grant_code : AuthorizeQuery → String → String → H (Server S L K R) Redirection
  grant_code query state user_id = do
    code ← uuid c
    with_clients (λ clients now.
        (save_authorization_code clients (new_code query code user_id state now), tt))
    respond
        (record { url = query.redirect_uri; parameters = ("code", code) ∷ ("state", state) ∷ [] })

  -- The end of `authorize`, with the user, if there is one.
  unfoldable pub conclude :
      AuthorizeQuery
      → HttpRequest
      → String
      → Server S L K R × Option String
      → Server S L K R × Reply Redirection
  unfolding grant_code
  conclude query q state (s, none) = unauthenticated (mode_of c.authorize_config) q state s
  conclude query q state (s, some user_id) = grant_code query state user_id s

  -- What follows the checks.
  unfoldable pub answer_query : AuthorizeQuery → HttpRequest → H (Server S L K R) Redirection
  unfolding conclude current_user
  answer_query query q = do
    state ← (if truthy query.state then respond (get_or query.state "") else uuid c)
    λ s. conclude query q state (current_user q s)

  unfoldable pub authorize : AuthorizeQuery → HttpRequest → H (Server S L K R) Redirection
  unfolding check_query answer_query
  authorize query q = do
    require (query.response_type == "code") (bad_request "Unsupported response_type")
    client ← λ s. the (get_client s.clients query.client_id) (unauthorized "Invalid client_id") s
    check_query query client
    answer_query query q

  abbrev pub user_info : OAuth2Token → SessionData → OidcUserInfo
  user_info token session = record {
    sub = session.user_id;
    name = session.user_id;
    preferred_username = session.user_id;
    scope = token.scope;
  }

  unfoldable pub userinfo : HttpRequest → H (Server S L K R) OidcUserInfo
  userinfo q = do
    require (truthy q.authorization) (unauthorized "Missing authorization header")
    let access_token = extract_bearer_token q.authorization
    require (truthy access_token) (unauthorized "Invalid authorization header format")
    found ← with_clients (λ clients now. get_token clients now (get_or access_token ""))
    token ← the found (unauthorized "Invalid access token")
    session ← λ s.
        (let (s', o) = validate c (get_or access_token "") q s in
          the o (unauthorized "Invalid or expired access token") s')
    respond (user_info token session)
