-- ===== src/OAuth2/Controller.antt =====
-- src/extras/oauth2/oauth2.controller.ts: the state of the endpoints, over the in-memory client
-- store, what they are given, and the making of a token.
pub mod Authorize
pub mod Grants
pub mod Device
pub mod Token
pub mod Issuing
pub mod Redeeming
pub mod Presenting
pub mod Refreshing
pub mod Devices
pub mod Confirming
pub mod Admission
use luoluo_auth.Common.{
  ℕ, suc, String, Bool, true, false, ◌&&◌, Option, none, some, List, [], ◌∷◌, if◌then◌else◌, truthy,
  get_or, is_some, includes,
}
use luoluo_auth.Common.JsMap.{JsMap}
use luoluo_auth.Permission.{split}
use luoluo_auth.MemoryStore.Data.{SessionData}
use luoluo_auth.Auth.Errors.{Outcome, ok, throw, AuthException}
use luoluo_auth.Auth.Service.{World, Deps}
use luoluo_auth.Auth.Service.Login.{LoginRequest, login_user}
use luoluo_auth.Auth.Service.Tokens.{validate_token}
use luoluo_auth.OAuth2.Types.{OAuth2Token, DeviceCode}
use luoluo_auth.OAuth2.ClientStore.{ClientStore, save_token}
use luoluo_auth.OAuth2.Oidc.{OidcConfig, JsonWebToken, sign_id_token}

pub data OAuth2AuthCheckMode : Type 0 where
  cookie header redirect : OAuth2AuthCheckMode

pub record OAuth2AuthorizeConfig : Type 0 where
  pub auth_check_mode : Option OAuth2AuthCheckMode
  pub cookie_name : Option String
  pub login_url : Option String
  pub state_key : Option String

-- What the endpoints read of a request besides its body; `full_url` is the URL that was asked for,
-- with its protocol and host.
pub record HttpRequest : Type 0 where
  pub authorization : Option String
  pub cookies : JsMap String
  pub ip : Option String
  pub user_agent : Option String
  pub full_url : String

pub record TokenRequest : Type 0 where
  pub grant_type : String
  pub client_id : String
  pub client_secret : String
  pub code : Option String
  pub redirect_uri : Option String
  pub username : Option String
  pub password : Option String
  pub refresh_token : Option String
  pub scope : Option String
  pub code_verifier : Option String

-- A NestJS exception with its message, or one that the service threw.
pub data HttpFailure : Type 0 where
  bad_request unauthorized not_found : String → HttpFailure
  service : AuthException → HttpFailure

pub data Reply (A : Type 0) : Type 0 where
  answer : A → Reply A
  refuse : HttpFailure → Reply A

-- The state: that of the service, the client store, and the device codes.
pub record Server (S L K R : Type 0) : Type 0 where
  pub world : World S L K R
  pub clients : ClientStore
  pub device_codes : JsMap DeviceCode

-- What is injected. The rate limiter is that of the service. `random_int n bound` is the n-th
-- `randomInt(0, bound)`.
pub record Endpoint (S L K R : Type 0) : Type 0 where
  pub auth : Deps S L K R
  pub user_validator : Option (String → String → Option String)
  pub oidc : Option (JsonWebToken × OidcConfig)
  pub authorize_config : Option OAuth2AuthorizeConfig
  pub sha256 : String → String
  pub random_int : ℕ → ℕ → ℕ

abbrev pub H : Type 0 → Type 0 → Type 0
H W A = W → W × Reply A

abbrev pub follow : {W A B : Type 0} → W × Reply A → (A → H W B) → W × Reply B
follow (w, answer a) f = f a w
follow (w, refuse e) f = (w, refuse e)

infixl 5 ◌>>=◌ ◌>>◌
abbrev pub ◌>>=◌ : {W A B : Type 0} → H W A → (A → H W B) → H W B
◌>>=◌ m f w = follow (m w) f

abbrev pub ◌>>◌ : {W B : Type 0} → H W (Unit {0}) → H W B → H W B
m >> k = m >>= λ _. k

abbrev pub respond : {W A : Type 0} → A → H W A
respond a w = (w, answer a)

abbrev pub deny : {W A : Type 0} → HttpFailure → H W A
deny e w = (w, refuse e)

-- `if (!test) throw ...`
abbrev pub require : {W : Type 0} → Bool → HttpFailure → H W (Unit {0})
require true e = respond tt
require false e = deny e

abbrev pub the : {W A : Type 0} → Option A → HttpFailure → H W A
the none e = deny e
the (some a) e = respond a

-- The status of the answer to the client.
unfoldable pub status : HttpFailure → ℕ
status (bad_request message) = 400
status (unauthorized message) = 401
status (not_found message) = 404
status (service e) = e.status

-- The parameters that the token endpoint passes to `login`.
abbrev pub login_request : String → Option String → Option String → LoginRequest
login_request user_id ip user_agent = record {
  user_id = user_id;
  device = none;
  roles = none;
  permissions = none;
  ip = ip;
  user_agent = user_agent;
  has_res = false;
  remember_me = none;
}

-- `scope?.split(' ').includes('openid')`
unfoldable pub asks_openid : Option String → Bool
unfolding split
asks_openid none = false
asks_openid (some scope) = includes (split b' ' scope) "openid"

module _ {S L K R : Type 0} where
  -- A call of the service; its exception goes on to the client.
  abbrev pub reply_of :
      {A : Type 0} → Server S L K R → World S L K R × Outcome A → Server S L K R × Reply A
  reply_of s (w, ok a) = (record s { world = w }, answer a)
  reply_of s (w, throw e) = (record s { world = w }, refuse (service e))

  -- `try { ... } catch { ... }` around a call of the service.
  abbrev pub attempt :
      {A : Type 0} → Server S L K R → World S L K R × Outcome A → Server S L K R × Option A
  attempt s (w, ok a) = (record s { world = w }, some a)
  attempt s (w, throw e) = (record s { world = w }, none)

  abbrev pub with_clients :
      {A : Type 0} → (ClientStore → ℕ → ClientStore × A) → H (Server S L K R) A
  with_clients f s =
      let (clients, a) = f s.clients s.world.now in (record s { clients = clients }, answer a)

  -- `randomUUID()`
  abbrev pub uuid : Endpoint S L K R → H (Server S L K R) String
  uuid c s = (
    record s { world = record s.world { drawn = suc s.world.drawn } },
    answer (c.auth.random s.world.drawn),
  )

  unfoldable pub validate :
      Endpoint S L K R → String → HttpRequest → Server S L K R → Server S L K R × Option SessionData
  unfolding validate_token
  validate c token q s = attempt s (validate_token c.auth token q.ip q.user_agent s.world)

  -- The access token: that of a login for a user, else a UUID.
  unfoldable pub access_token :
      Endpoint S L K R → Option String → Option String → Option String → H (Server S L K R) String
  unfolding login_user
  access_token c user_id ip user_agent s =
      if truthy user_id
      then reply_of s (login_user c.auth (login_request (get_or user_id "") ip user_agent) s.world)
      else uuid c s

  unfoldable pub id_token :
      Endpoint S L K R
      → ℕ
      → Option String
      → Option String
      → Option String
      → Option String
      → Option String
  unfolding asks_openid sign_id_token
  id_token c now user_id scope client_id nonce = elim c.oidc [
    | none ↦ none
    | some (jwt, config) ↦
        if truthy user_id && truthy client_id && asks_openid scope
        then some
            (sign_id_token jwt config (λ p. p) now (get_or user_id "") (get_or client_id "") nonce)
        else none
  ]

  unfoldable pub generate_token :
      Endpoint S L K R
      → Option String
      → Option String
      → Option String
      → Option String
      → Option String
      → Option String
      → H (Server S L K R) OAuth2Token
  unfolding access_token id_token
  generate_token c user_id scope client_id nonce ip user_agent = do
    refresh ← uuid c
    access ← access_token c user_id ip user_agent
    λ s. (
      s,
      answer (record {
        access_token = access;
        refresh_token = some refresh;
        token_type = "Bearer";
        expires_in = 3600;
        scope = scope;
        user_id = user_id;
        id_token = id_token c s.world.now user_id scope client_id nonce;
        expires_at = none;
      }),
    )

  -- `saveToken`, which marks the token with its expiry; a UUID is drawn for a new family.
  unfoldable pub save :
      Endpoint S L K R → OAuth2Token → Option String → H (Server S L K R) OAuth2Token
  unfolding save_token
  save c token family = do
    fresh ← (if truthy family then respond "" else uuid c)
    with_clients (λ clients now. save_token clients now fresh token family)

  -- `generateToken`, then `saveToken`.
  unfoldable pub issue :
      Endpoint S L K R
      → Option String
      → Option String
      → Option String
      → Option String
      → Option String
      → Option String
      → Option String
      → H (Server S L K R) OAuth2Token
  unfolding generate_token save
  issue c user_id scope client_id nonce ip user_agent family =
      generate_token c user_id scope client_id nonce ip user_agent >>= λ token. save c token family
