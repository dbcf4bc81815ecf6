-- ===== src/Admin.antt =====
-- src/extras/admin/admin.controller.ts: the administration endpoints, over the service and the
-- in-memory client store. `SESSION_STORE` is the session store of the service.
pub mod Access
pub mod Effects
use luoluo_auth.Common.{
  String, Bool, true, false, ◌&&◌, ◌||◌, Option, none, some, List, [], ◌∷◌, if◌then◌else◌, truthy,
  get_or, is_some, includes, ◌==◌,
}
use luoluo_auth.Common.Text.{ℤ, pos, parse_int}
use luoluo_auth.MemoryStore.Data.{SessionData}
use luoluo_auth.Auth.Errors.{M}
use luoluo_auth.Auth.Interfaces.{LoginPolicy, single}
use luoluo_auth.Auth.Guard.{extract_bearer_token}
use luoluo_auth.Auth.Service.{World, Deps}
use luoluo_auth.Auth.Service.Tokens.{validate_token, logout_user}
use luoluo_auth.Auth.Service.Sessions.{kick_user, ban_user, unban_user}
use luoluo_auth.OAuth2.Types.{OAuth2Client, GrantType, authorization_code, refresh_token}
use luoluo_auth.OAuth2.ClientStore
use luoluo_auth.OAuth2.ClientStore.{get_client, remove_client}
use luoluo_auth.OAuth2.Controller.{
  bad_request, unauthorized, not_found, Reply, answer, Server, H, ◌>>=◌, ◌>>◌, respond, deny,
  require, the, reply_of, attempt, with_clients,
}

-- What the endpoints read of a request besides its query and body; `has_res` is whether `req.res`
-- is there.
pub record AdminRequest : Type 0 where
  pub authorization : Option String
  pub ip : Option String
  pub user_agent : Option String
  pub has_res : Bool

-- The body of `registerClient`.
pub record ClientBody : Type 0 where
  pub client_id : Option String
  pub client_secret : Option String
  pub redirect_uris : Option (List String)
  pub grants : Option (List GrantType)
  pub name : Option String
  pub scopes : Option (List String)
  pub is_public : Option Bool

-- What `getConfig` reads of the configuration, `none` where a part of it is missing.
pub record AdminSettings : Type 0 where
  pub cookie_enabled : Option Bool
  pub fingerprint_enabled : Option Bool
  pub multi_account_enabled : Option Bool
  pub login_policy : Option LoginPolicy
  pub rate_limit_enabled : Option Bool

-- A route with what it reads of the query or the body.
pub data AdminCall : Type 0 where
  list_sessions kick : (user_id : Option String) → AdminCall
  ban : (user_id action duration : Option String) → AdminCall
  list_clients get_config : AdminCall
  register : ClientBody → AdminCall
  delete : (client_id : Option String) → AdminCall
  revoke : (token : Option String) → AdminCall

-- A duration is in seconds, and `none` is NaN.
pub data AdminAnswer : Type 0 where
  sessions : (user_id : String) (found : List SessionData) → AdminAnswer
  user_id_needed : AdminAnswer
  kicked unbanned : (user_id : String) → AdminAnswer
  banned : (user_id : String) (duration : Option ℤ) → AdminAnswer
  elsewhere : AdminAnswer
  registered : (client_id : String) (name : Option String) → AdminAnswer
  deleted : (client_id : String) → AdminAnswer
  revoked : AdminAnswer
  settings :
      (cookie fingerprint multi_account : Bool) (policy : LoginPolicy) (rate_limit : Bool)
      → AdminAnswer

-- What is injected. `ban_unusual` is `banUser` of the service for a duration that is negative or
-- not a number, which the model of the service does not take.
pub record Admin (S L K R : Type 0) : Type 0 where
  pub auth : Deps S L K R
  pub has_session_store : Bool
  pub has_client_store : Bool
  pub config : Option AdminSettings
  pub ban_unusual : String → Option ℤ → M (World S L K R) (Unit {0})

abbrev pub holds : Option (List String) → String → Bool
holds none name = false
holds (some names) name = includes names name

unfoldable pub is_admin : SessionData → Bool
is_admin session =
    holds session.roles "admin"
    || holds session.roles "super-admin"
    || holds session.permissions "admin:*"
    || holds session.permissions "*"

-- `this.authConfig?.<part>?.enabled || false`
abbrev pub enabled : Option AdminSettings → (AdminSettings → Option Bool) → Bool
enabled none part = false
enabled (some c) part = get_or (part c) false

abbrev pub policy_of : Option AdminSettings → LoginPolicy
policy_of none = single
policy_of (some c) = get_or c.login_policy single

-- The client that a body describes.
unfoldable pub client_of : ClientBody → OAuth2Client
client_of body = record {
  client_id = get_or body.client_id "";
  client_secret = get_or body.client_secret "";
  redirect_uris = get_or body.redirect_uris [];
  grants = get_or body.grants (authorization_code ∷ refresh_token ∷ []);
  name = body.name;
  scopes = body.scopes;
  is_public = get_or body.is_public false;
}

module _ {S L K R : Type 0} (c : Admin S L K R) where
  abbrev pub validate : String → AdminRequest → Server S L K R → Server S L K R × Option SessionData
  validate token q s = attempt s (validate_token c.auth token q.ip q.user_agent s.world)

  abbrev pub check_admin : Server S L K R × Option SessionData → Server S L K R × Reply (Unit {0})
  check_admin (s, none) = deny (unauthorized "Invalid admin token") s
  check_admin (s, some session) =
      require (is_admin session) (unauthorized "Admin privileges required") s

  unfoldable pub require_admin : AdminRequest → H (Server S L K R) (Unit {0})
  unfolding extract_bearer_token is_admin
  require_admin q s =
      let token = extract_bearer_token q.authorization in
      if truthy token
      then check_admin (validate (get_or token "") q s)
      else deny (unauthorized "Admin token required") s

  unfoldable pub list_user_sessions : Option String → H (Server S L K R) AdminAnswer
  list_user_sessions user_id s =
      let unconfigured = deny (bad_request "Session store not configured") s in
      if c.has_session_store
      then elim c.auth.store.list_by_user_id [
        | none ↦ unconfigured
        | some list ↦
            if truthy user_id
            then (s, answer (sessions (get_or user_id "") (list s.world.store (get_or user_id ""))))
            else (s, answer user_id_needed)
      ]
      else unconfigured

  unfoldable pub kick_out : Option String → H (Server S L K R) AdminAnswer
  unfolding kick_user
  kick_out user_id = do
    require (truthy user_id) (bad_request "userId is required")
    λ s. reply_of s (kick_user c.auth (get_or user_id "") none s.world)
    respond (kicked (get_or user_id ""))

  abbrev pub ban_for : String → Option ℤ → M (World S L K R) (Unit {0})
  ban_for user_id (some (pos n)) = ban_user c.auth user_id n
  ban_for user_id duration = c.ban_unusual user_id duration

  unfoldable pub lift_ban : String → H (Server S L K R) AdminAnswer
  unfolding unban_user
  lift_ban user_id = do
    λ s. reply_of s (unban_user c.auth user_id s.world)
    respond (unbanned user_id)

  -- `parseInt(duration || '3600', 10)`
  unfoldable pub impose_ban : String → Option String → H (Server S L K R) AdminAnswer
  unfolding ban_user
  impose_ban user_id duration =
      let dur = parse_int (if truthy duration then get_or duration "" else "3600") in
      do λ s. reply_of s (ban_for user_id dur s.world); respond (banned user_id dur)

  unfoldable pub change_ban :
      Option String → Option String → Option String → H (Server S L K R) AdminAnswer
  unfolding lift_ban impose_ban
  change_ban user_id action duration = do
    require (truthy user_id) (bad_request "userId is required")
    if get_or action "" == "unban"
        then lift_ban (get_or user_id "")
        else impose_ban (get_or user_id "") duration

  abbrev pub require_clients : H (Server S L K R) (Unit {0})
  require_clients = require c.has_client_store (bad_request "OAuth2 client store not configured")

  unfoldable pub register_client : ClientBody → H (Server S L K R) AdminAnswer
  unfolding client_of
  register_client body = do
    require_clients
    require (truthy body.client_id && truthy body.client_secret && is_some body.redirect_uris)
        (bad_request "clientId, clientSecret, and redirectUris are required")
    with_clients (λ s now. (ClientStore.register_client s (client_of body), tt))
    respond (registered (get_or body.client_id "") body.name)

  unfoldable pub delete_client : Option String → H (Server S L K R) AdminAnswer
  delete_client client_id = do
    require (truthy client_id) (bad_request "clientId is required")
    require_clients
    λ s.
        require (is_some (get_client s.clients (get_or client_id "")))
          (not_found "Client not found") s
    with_clients (λ s now. (remove_client s (get_or client_id ""), tt))
    respond (deleted (get_or client_id ""))

  unfoldable pub revoke_token : Option String → Bool → H (Server S L K R) AdminAnswer
  unfolding logout_user
  revoke_token token has_res = do
    require (truthy token) (bad_request "token is required")
    λ s. reply_of s (logout_user c.auth (get_or token "") has_res s.world)
    respond revoked

  unfoldable pub current_settings : AdminAnswer
  current_settings =
      settings (enabled c.config (λ x. x.cookie_enabled))
        (enabled c.config (λ x. x.fingerprint_enabled))
        (enabled c.config (λ x. x.multi_account_enabled)) (policy_of c.config)
        (enabled c.config (λ x. x.rate_limit_enabled))

  -- What a route does for an administrator.
  unfoldable pub perform : AdminCall → AdminRequest → H (Server S L K R) AdminAnswer
  unfolding list_user_sessions kick_out change_ban register_client delete_client revoke_token
      current_settings
  perform (list_sessions user_id) q = list_user_sessions user_id
  perform (kick user_id) q = kick_out user_id
  perform (ban user_id action duration) q = change_ban user_id action duration
  perform list_clients q = require_clients >> respond elsewhere
  perform get_config q = respond current_settings
  perform (register body) q = register_client body
  perform (delete client_id) q = delete_client client_id
  perform (revoke token) q = revoke_token token q.has_res

  -- Every route asks for the administrator first.
  unfoldable pub handle : AdminCall → AdminRequest → H (Server S L K R) AdminAnswer
  unfolding require_admin perform
  handle call q = require_admin q >> perform call q
