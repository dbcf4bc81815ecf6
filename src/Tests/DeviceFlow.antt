-- ===== src/Tests/DeviceFlow.antt =====
-- The device flow and the refresh grant on concrete requests.
use luoluo_auth.Common.{
  ◌+◌, ◌*◌, ◌≤◌, ◌≡◌, ◌≢◌, ◌⊎◌, refl, String, true, false, none, some, [], ◌∷◌, ltb, arith,
}
use luoluo_auth.Common.JsMap
use luoluo_auth.Common.Text.{char_at}
use luoluo_auth.MemoryStore
use luoluo_auth.MemoryStore.{MemoryStore, new_store, max_safe_integer}
use luoluo_auth.MemoryStore.Reach
use luoluo_auth.MemoryStore.Reach.{run}
use luoluo_auth.Permission
use luoluo_auth.Auth.Errors.{ok}
use luoluo_auth.Auth.Service.Login.{login_user}
use luoluo_auth.Auth.Strategies.{memory_store, random_token_strategy}
use luoluo_auth.Auth.Guard.{extract_bearer_token}
use luoluo_auth.OAuth2.Types.{OAuth2Client, OAuth2Token, DeviceCode, RefreshTokenEntry, unknown}
use luoluo_auth.OAuth2.ClientStore
use luoluo_auth.OAuth2.ClientStore.{
  ClientStore, is_expired, register_client, get_client, verify_client_secret, consume_refresh_token,
  get_token,
}
use luoluo_auth.OAuth2.ClientStore.Reach.{run-IsIndexed}
use luoluo_auth.OAuth2.Controller.{TokenRequest, answer, refuse, unauthorized, validate}
use luoluo_auth.OAuth2.Controller.Grants.{handle_refresh_token, check_rate}
use luoluo_auth.OAuth2.Controller.Device
use luoluo_auth.OAuth2.Controller.Device.{
  DeviceAuthorization, absent, device_authorize, device_verify, handle_device_code_token,
  find_pending,
}
use luoluo_auth.OAuth2.Controller.Token.{token}
use luoluo_auth.OAuth2.Controller.Issuing.{login_of, IsTokenFor}
use luoluo_auth.OAuth2.Controller.Confirming.{device_flow}
use luoluo_auth.OAuth2.Controller.Devices.{without_code, handle_device_code_token_once}
use luoluo_auth.OAuth2.Controller.Admission.{token-authenticated}
use luoluo_auth.OAuth2.Controller.Refreshing.{
  handle_refresh_token_reuse, handle_refresh_token-success,
}
use luoluo_auth.Tests.OAuth.{token_named, history, rotated, second_entry, second_found}
use luoluo_auth.Tests.Stores.{session_of}
use luoluo_auth.Tests.Endpoints.{State, endpoint, start, ann, body_for, machine}

-- The device is started with the draws "p", and eight times the first character.
abbrev authorization : DeviceAuthorization
authorization = record {
  device_code = "p";
  user_code = "AAAAAAAA";
  verification_uri = "/oauth/device/verify";
  verification_uri_complete = some "/oauth/device/verify?user_code=AAAAAAAA";
  expires_in = 600;
  interval = 5;
}

started : (device_authorize endpoint (some "app") (some "profile") start).1 ≡ answer authorization
unfolding device_authorize get_client register_client JsMap.get JsMap.set ClientStore.supports_grant
    Device.generate_user_code Device.draw_characters
started = refl

abbrev waiting : State
waiting = (device_authorize endpoint (some "app") (some "profile") start).0

abbrev asked : State
asked = (validate endpoint "a1" ann waiting).0

abbrev confirmed : State
confirmed = (device_verify endpoint (some "AAAAAAAA") ann waiting).0

abbrev poll : TokenRequest
poll = body_for "device_code" "p"

validated : validate endpoint "a1" ann waiting ≡ (asked, some (session_of "ann" "web" 3))
unfolding validate random_token_strategy memory_store MemoryStore.get JsMap.get run Reach.step
    MemoryStore.set MemoryStore.evict_if_needed MemoryStore.set_item MemoryStore.touch_lru new_store
    JsMap.set device_authorize get_client register_client ClientStore.supports_grant
    Device.generate_user_code Device.draw_characters char_at
validated = refl

asked_kept :
    asked.device_codes
    ≡ (device_authorize endpoint (some "app") (some "profile") start).0.device_codes
unfolding validate random_token_strategy memory_store MemoryStore.get JsMap.get run Reach.step
    MemoryStore.set MemoryStore.evict_if_needed MemoryStore.set_item MemoryStore.touch_lru new_store
    JsMap.set device_authorize get_client register_client ClientStore.supports_grant
    Device.generate_user_code Device.draw_characters char_at
asked_kept = refl

asked_soon : asked.world.now ≤ 10 + 10 * 60 * 1000
unfolding validate random_token_strategy memory_store MemoryStore.get JsMap.get run Reach.step
    MemoryStore.set MemoryStore.evict_if_needed MemoryStore.set_item MemoryStore.touch_lru new_store
    JsMap.set device_authorize get_client register_client ClientStore.supports_grant
    Device.generate_user_code Device.draw_characters char_at
asked_soon = ground arith

confirmed_soon : confirmed.world.now ≤ 10 + 10 * 60 * 1000
unfolding device_verify find_pending extract_bearer_token Permission.split validate
    random_token_strategy memory_store MemoryStore.get JsMap.get run Reach.step MemoryStore.set
    MemoryStore.evict_if_needed MemoryStore.set_item MemoryStore.touch_lru new_store JsMap.set
    device_authorize get_client register_client ClientStore.supports_grant Device.generate_user_code
    Device.draw_characters char_at
confirmed_soon = ground arith

confirmed_login :
    (login_of endpoint "ann" none none (without_code endpoint confirmed "p")).1 ≡ ok "r"
unfolding login_user device_verify find_pending extract_bearer_token Permission.split validate
    random_token_strategy memory_store MemoryStore.get JsMap.get run Reach.step MemoryStore.set
    MemoryStore.evict_if_needed MemoryStore.set_item MemoryStore.touch_lru new_store JsMap.set
    device_authorize get_client register_client ClientStore.supports_grant Device.generate_user_code
    Device.draw_characters char_at
confirmed_login = refl

device_flow_example :
    ((device_verify endpoint (some "AAAAAAAA") ann waiting).1 ≡ answer tt)
    × ((t : OAuth2Token) × ((handle_device_code_token endpoint poll none none confirmed).1
          ≡ answer t)
        × IsTokenFor endpoint
            (without_code endpoint confirmed "p")
            "ann"
            (some "profile")
            (some "app")
            none
            none
            none
            "r"
            t)
unfolding JsMap.get find_pending extract_bearer_token Permission.split
device_flow_example =
    device_flow endpoint (some "app") (some "profile") authorization ann (session_of "ann" "web" 3)
      poll none none start waiting asked confirmed "r" started refl refl asked_kept refl refl refl
      validated asked_soon refl confirmed_soon refl refl refl confirmed_login

-- A token of the grant client_credentials, for a public client.
abbrev machine_token : OAuth2Token
machine_token = record {
  access_token = "q";
  refresh_token = some "p";
  token_type = "Bearer";
  expires_in = 3600;
  scope = none;
  user_id = none;
  id_token = none;
  expires_at = some 3600010;
}

answered : (token endpoint machine ann start).1 ≡ answer machine_token
unfolding token get_client register_client JsMap.get JsMap.set
answered = refl

token-authenticated_example :
    (c : OAuth2Client) × (get_client start.clients "app" ≡ some c)
    × ((c.is_public ≡ true)
        ⊎ ((verify_client_secret start.clients "app" "" ≡ true)
            × (c.client_secret ≡ "")
            × (c.client_secret ≢ "")))
token-authenticated_example = token-authenticated endpoint machine ann start machine_token answered

-- A device code that Ann has confirmed.
abbrev entry : DeviceCode
entry = record {
  device_code = "d";
  user_code = "U";
  verification_uri = "/oauth/device/verify";
  verification_uri_complete = none;
  client_id = "app";
  scope = some "profile";
  interval = 5;
  expires_at = 600;
  authorized = true;
  user_id = some "ann";
}

abbrev polling : State
polling = record start { device_codes = ("d", entry) ∷ [] }

abbrev poll_d : TokenRequest
poll_d = body_for "device_code" "d"

abbrev ann_token : OAuth2Token
ann_token = record machine_token {
  access_token = "r";
  refresh_token = some "p";
  scope = some "profile";
  user_id = some "ann";
}

polled : (handle_device_code_token endpoint poll_d none none polling).1 ≡ answer ann_token
unfolding handle_device_code_token random_token_strategy memory_store MemoryStore.get JsMap.get run
    Reach.step MemoryStore.set MemoryStore.evict_if_needed MemoryStore.set_item
    MemoryStore.touch_lru new_store JsMap.set
polled = refl

handle_device_code_token_once_example :
    (e : DeviceCode) × (JsMap.get polling.device_codes "d" ≡ some e)
    × (e.authorized ≡ true)
    × (ltb e.expires_at 10 ≡ false)
    × (ann_token.user_id ≡ e.user_id)
    × (ann_token.scope ≡ e.scope)
    × (JsMap.get (handle_device_code_token endpoint poll_d none none polling).0.device_codes "d"
        ≡ none)
handle_device_code_token_once_example =
    handle_device_code_token_once endpoint poll_d none none polling ann_token polled

-- The refresh token "r1" was used before, "r2" is of its family.
abbrev refreshing : State
refreshing = record start { clients = rotated }

abbrev with_refresh : String → TokenRequest
with_refresh r = record (body_for "refresh_token" "") { refresh_token = some r }

-- "r1" was used, and its access token has not expired.
abbrev first_entry : RefreshTokenEntry
first_entry = record { access_token = "a1"; family = "f"; used = true }

abbrev first_token : OAuth2Token
first_token = record (token_named "a1" "r1") { expires_at = some 3600000 }

first_found : JsMap.get rotated.refresh_tokens "r1" ≡ some first_entry
unfolding ClientStore.Reach.run ClientStore.Reach.step ClientStore.save_token
    ClientStore.store_token ClientStore.evict_expired_tokens ClientStore.evict_from
    ClientStore.add_to_family ClientStore.consume_refresh_token ClientStore.consume_entry JsMap.get
    JsMap.set JsMap.delete
first_found = refl

first_live : JsMap.get rotated.tokens "a1" ≡ some first_token
unfolding ClientStore.Reach.run ClientStore.Reach.step ClientStore.save_token
    ClientStore.store_token ClientStore.evict_expired_tokens ClientStore.evict_from
    ClientStore.add_to_family ClientStore.consume_refresh_token ClientStore.consume_entry JsMap.get
    JsMap.set JsMap.delete
first_live = refl

handle_refresh_token_reuse_example :
    (let (s, reply) = handle_refresh_token endpoint (with_refresh "r1") none none refreshing in
      (reply ≡ refuse (unauthorized "Refresh token reuse detected. Token family revoked."))
      × ((consume_refresh_token s.clients 50 "r2").1 ≡ unknown)
      × ((get_token s.clients 50 "a2").1 ≡ none))
unfolding check_rate
handle_refresh_token_reuse_example =
    handle_refresh_token_reuse endpoint (with_refresh "r1") none none refreshing "f" "r2"
      second_entry first_entry first_token 50 refl refl (run-IsIndexed history) first_found refl
      refl first_live refl second_found refl

abbrev rotated_token : OAuth2Token
rotated_token = record ann_token { scope = none }

refreshed :
    (handle_refresh_token endpoint (with_refresh "r2") none none refreshing).1
    ≡ answer rotated_token
unfolding ClientStore.Reach.run ClientStore.Reach.step handle_refresh_token ClientStore.save_token
    ClientStore.store_token ClientStore.evict_expired_tokens ClientStore.evict_from
    ClientStore.add_to_family ClientStore.consume_refresh_token ClientStore.consume_entry JsMap.get
    JsMap.set JsMap.delete random_token_strategy memory_store MemoryStore.get run Reach.step
    MemoryStore.set MemoryStore.evict_if_needed MemoryStore.set_item MemoryStore.touch_lru new_store
refreshed = refl

handle_refresh_token-success_example :
    (old : OAuth2Token) × (e : RefreshTokenEntry) × (JsMap.get rotated.refresh_tokens "r2" ≡ some e)
    × (e.used ≡ false)
    × (JsMap.get rotated.tokens e.access_token ≡ some old)
    × (is_expired 10 old.expires_at ≡ false)
    × (rotated_token.user_id ≡ old.user_id)
    × (rotated_token.scope ≡ old.scope)
handle_refresh_token-success_example =
    handle_refresh_token-success endpoint (with_refresh "r2") none none refreshing rotated_token
      refreshed
