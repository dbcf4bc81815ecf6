-- ===== src/OAuth2/Controller/Device.antt =====
-- src/extras/oauth2/oauth2.controller.ts: `deviceAuthorize`, `deviceVerify`,
-- `handleDeviceCodeToken` and `generateUserCode`.
use Prim.Native.String
use luoluo_auth.Common.{
  ℕ, zero, suc, ◌+◌, ◌*◌, String, true, false, not, ◌&&◌, Option, none, some, [], ◌∷◌,
  if◌then◌else◌, truthy, get_or, ltb, ◌==◌,
}
use luoluo_auth.Common.JsMap
use luoluo_auth.Common.JsMap.{JsMap}
use luoluo_auth.Common.Text.{char_at}
use luoluo_auth.Auth.Guard.{extract_bearer_token}
use luoluo_auth.OAuth2.Types.{OAuth2Token, DeviceCode, device_code}
use luoluo_auth.OAuth2.ClientStore.{get_client, supports_grant}
use luoluo_auth.OAuth2.Controller.{
  TokenRequest, HttpRequest, bad_request, unauthorized, answer, Server, Endpoint, H, ◌>>=◌, ◌>>◌,
  respond, deny, require, the, uuid, validate, issue,
}

abbrev pub user_code_characters : String
user_code_characters = "ABCDEFGHJKLMNPQRSTUVWXYZ23456789"

-- The answer of `deviceAuthorize`.
pub record DeviceAuthorization : Type 0 where
  pub device_code : String
  pub user_code : String
  pub verification_uri : String
  pub verification_uri_complete : Option String
  pub expires_in : ℕ
  pub interval : ℕ

-- What the loop of `deviceVerify` finds for a user code.
pub data Verification : Type 0 where
  absent : Verification
  late : (device_code : String) → Verification
  found : (device_code : String) → DeviceCode → Verification

unfoldable pub find_pending : JsMap DeviceCode → ℕ → String → Verification
find_pending [] now user_code = absent
find_pending ((code, entry) ∷ codes) now user_code =
    if (entry.user_code == user_code) && not entry.authorized
    then if ltb entry.expires_at now then late code else found code entry
    else find_pending codes now user_code

-- `chars[i]`, which is written `undefined` past the end.
abbrev pub user_code_character : ℕ → String
user_code_character i = get_or (char_at user_code_characters i) "undefined"

module _ {S L K R : Type 0} (c : Endpoint S L K R) where
  -- The loop of `generateUserCode`, by the number of rounds.
  unfoldable pub draw_characters : ℕ → String → H (Server S L K R) String
  unfolding char_at
  draw_characters zero code s = (s, answer code)
  draw_characters (suc rounds) code s =
      let i = c.random_int s.world.drawn 32 in
      let s' = record s { world = record s.world { drawn = suc s.world.drawn } } in
      draw_characters rounds (String.◌++◌ code (user_code_character i)) s'

  unfoldable pub generate_user_code : H (Server S L K R) String
  unfolding draw_characters
  generate_user_code = draw_characters 8 ""

  abbrev pub new_entry : String → String → String → Option String → ℕ → DeviceCode
  new_entry code user_code client_id scope now = record {
    device_code = code;
    user_code = user_code;
    verification_uri = "/oauth/device/verify";
    verification_uri_complete = some (String.◌++◌ "/oauth/device/verify?user_code=" user_code);
    client_id = client_id;
    scope = scope;
    interval = 5;
    expires_at = now + 10 * 60 * 1000;
    authorized = false;
    user_id = none;
  }

  abbrev pub put_entry : DeviceCode → H (Server S L K R) (Unit {0})
  put_entry entry s =
      (record s { device_codes = JsMap.set s.device_codes entry.device_code entry }, answer tt)

  abbrev pub drop_entry : String → H (Server S L K R) (Unit {0})
  drop_entry code s = (record s { device_codes = JsMap.delete s.device_codes code }, answer tt)

  abbrev pub authorization : String → String → DeviceAuthorization
  authorization code user_code = record {
    device_code = code;
    user_code = user_code;
    verification_uri = "/oauth/device/verify";
    verification_uri_complete = some (String.◌++◌ "/oauth/device/verify?user_code=" user_code);
    expires_in = 600;
    interval = 5;
  }

  -- What follows the checks.
  unfoldable pub start_device : String → Option String → H (Server S L K R) DeviceAuthorization
  start_device client_id scope = do
    code ← uuid c
    user_code ← generate_user_code
    λ s. put_entry (new_entry code user_code client_id scope s.world.now) s
    respond (authorization code user_code)

  unfoldable pub device_authorize :
      Option String → Option String → H (Server S L K R) DeviceAuthorization
  unfolding start_device
  device_authorize client_id scope = do
    let id = get_or client_id ""
    require (truthy client_id) (bad_request "Missing client_id")
    _ ← λ s. the (get_client s.clients id) (unauthorized "Invalid client_id") s
    λ s.
        require (supports_grant s.clients id device_code)
          (bad_request "device_code grant not supported for this client") s
    start_device id scope

  -- What the loop does with what it finds. The entry is an object of the map: the assignment to
  -- its fields is a write under its key.
  unfoldable pub confirm : String → Verification → H (Server S L K R) (Unit {0})
  confirm user_id absent s = deny (bad_request "Invalid user_code") s
  confirm user_id (late code) s = (drop_entry code >> deny (bad_request "User code expired")) s
  confirm user_id (found code entry) s = (
    record s {
      device_codes =
          JsMap.set s.device_codes code
            (record entry { authorized = true; user_id = some user_id });
    },
    answer tt,
  )

  unfoldable pub device_verify : Option String → HttpRequest → H (Server S L K R) (Unit {0})
  unfolding confirm
  device_verify user_code q = do
    require (truthy user_code) (bad_request "Missing user_code")
    require (truthy q.authorization) (unauthorized "Authentication required")
    let token = extract_bearer_token q.authorization
    require (truthy token) (unauthorized "Invalid authorization header")
    session ← λ s.
        (let (s', o) = validate c (get_or token "") q s in
          the o (unauthorized "Invalid or expired token") s')
    λ s. confirm session.user_id (find_pending s.device_codes s.world.now (get_or user_code "")) s

  -- The end of `handleDeviceCodeToken`, with the entry at hand.
  unfoldable pub redeem_device :
      TokenRequest
      → Option String
      → Option String
      → String
      → DeviceCode
      → H (Server S L K R) OAuth2Token
  unfolding issue
  redeem_device body ip user_agent code entry s =
      if ltb entry.expires_at s.world.now
      then (drop_entry code >> deny (bad_request "Device code expired")) s
      else (require entry.authorized (bad_request "authorization_pending")
            >> drop_entry code
            >> issue c entry.user_id entry.scope (some body.client_id) none ip user_agent none)
          s

  unfoldable pub handle_device_code_token :
      TokenRequest → Option String → Option String → H (Server S L K R) OAuth2Token
  unfolding redeem_device
  handle_device_code_token body ip user_agent = do
    let code = get_or body.code ""
    require (truthy body.code) (bad_request "Missing device_code")
    entry ← λ s. the (JsMap.get s.device_codes code) (bad_request "Invalid device_code") s
    redeem_device body ip user_agent code entry
