-- ===== src/Tests/Entrances.antt =====
-- The guards of services and sockets, and the callback of single sign-on, on concrete inputs.
use luoluo_auth.Common.{◌≡◌, refl, String, true, false, Option, none, some, [], ◌∷◌, truthy}
use luoluo_auth.Common.JsMap
use luoluo_auth.MemoryStore
use luoluo_auth.MemoryStore.{MemoryStore, max_safe_integer, new_store}
use luoluo_auth.MemoryStore.Reach
use luoluo_auth.MemoryStore.Reach.{run}
use luoluo_auth.Permission
use luoluo_auth.Auth.Errors.{ok}
use luoluo_auth.Auth.Strategies.{memory_store, random_token_strategy}
use luoluo_auth.Auth.Service.Sessions.{is_user_banned}
use luoluo_auth.Auth.Service.Tokens.{validate_token, validate_rpc_token}
use luoluo_auth.Auth.Service.Tokens.Laws.{with_random_tokens}
use luoluo_auth.Auth.Guard.{Metadata, extract_bearer_token}
use luoluo_auth.Auth.Guard.Rpc.{
  RpcContext, text, admitted, can_activate_rpc, extract_token_from_rpc_context,
  extract_client_ip_from_rpc, banned,
}
use luoluo_auth.Auth.Guard.RpcAdmission.{IsRpcAllowed, validated, can_activate_rpc-admitted}
use luoluo_auth.Auth.Socket
use luoluo_auth.Auth.Socket.{Handshake, SocketClient, joined, read_cookie}
use luoluo_auth.Auth.Socket.Sources.{IsCookie, decoded, extract_token-IsCookie}
use luoluo_auth.Sso.{
  SsoServiceConfig, SsoRequest, SsoCallbackQuery, SsoUserInfo, user, handle_callback,
  extract_token_from_request,
}
use luoluo_auth.Sso
use luoluo_auth.Sso.Laws.{Origin, handle_callback-Origin}
use luoluo_auth.Tests.Stores.{session_of, three_sessions}
use luoluo_auth.Tests.Service.{base, world, Service, State}

abbrev service : Service
service = with_random_tokens base none

abbrev admins : Metadata
admins = record { auth = true; roles = some ("admin" ∷ []); permissions = none; safe_auth = false }

-- A call from an address on the whitelist.
abbrev call : RpcContext
call = record {
  metadata = none;
  own = record { lower = none; upper = some (text "Bearer a1") };
  ip = none;
  client_ip = some "10.0.0.9";
  peer = none;
}

abbrev present : State
present = world three_sessions 10

called :
    (can_activate_rpc service admins (some call) present).1 ≡ admitted (session_of "ann" "web" 3)
unfolding extract_token_from_rpc_context extract_client_ip_from_rpc can_activate_rpc memory_store
    random_token_strategy Permission.split MemoryStore.get JsMap.get run Reach.step MemoryStore.set
    MemoryStore.evict_if_needed MemoryStore.set_item MemoryStore.touch_lru new_store JsMap.set
    Permission.has_role Permission.has_permission validate_rpc_token is_user_banned
    MemoryStore.is_banned
called = refl

can_activate_rpc-admitted_example :
    (truthy (extract_token_from_rpc_context (some call)) ≡ true)
    × ((validated service admins (some call) present).1 ≡ ok (session_of "ann" "web" 3))
    × ((is_user_banned service "ann" (validated service admins (some call) present).0).1 ≡ ok false)
    × IsRpcAllowed service admins
        (is_user_banned service "ann" (validated service admins (some call) present).0).0.now
        (session_of "ann" "web" 3)
can_activate_rpc-admitted_example =
    can_activate_rpc-admitted service admins (some call) present (session_of "ann" "web" 3) called

refused :
    (can_activate_rpc service admins
      (some call)
      (world (MemoryStore.ban three_sessions 9 "ann" 60) 10)).1
    ≡ banned
unfolding extract_token_from_rpc_context extract_client_ip_from_rpc can_activate_rpc memory_store
    random_token_strategy Permission.split MemoryStore.get JsMap.get run Reach.step MemoryStore.set
    MemoryStore.evict_if_needed MemoryStore.set_item MemoryStore.touch_lru new_store JsMap.set
    MemoryStore.ban validate_rpc_token is_user_banned MemoryStore.is_banned
refused = refl

-- No handler for codes: the code is a token.
abbrev config : SsoServiceConfig
config = record {
  token_strategy = none;
  login_url = none;
  token_param_name = none;
  code_exchange_handler = none;
}

abbrev callback : SsoCallbackQuery
callback = record { code = some "a1"; state = none; error = none; error_description = none }

abbrev ann : SsoUserInfo
ann = record {
  user_id = "ann";
  username = some "ann";
  roles = some ("admin" ∷ []);
  permissions = some ("order:*" ∷ []);
}

called_back : (handle_callback config service callback present).1 ≡ user ann
unfolding handle_callback memory_store random_token_strategy MemoryStore.get JsMap.get run
    Reach.step MemoryStore.set MemoryStore.evict_if_needed MemoryStore.set_item
    MemoryStore.touch_lru new_store JsMap.set validate_token
called_back = refl

handle_callback-Origin_example :
    (false ≡ false) × (true ≡ true) × Origin config service callback present ann
handle_callback-Origin_example =
    handle_callback-Origin config service callback present ann called_back

-- No header, so that the cookie comes first.
abbrev sso_request : SsoRequest
sso_request = record {
  authorization = none;
  cookies = ("token", "c1") ∷ [];
  query = ("token", Sso.text "q1") ∷ [];
}

extracted : extract_token_from_request config sso_request ≡ some "c1"
unfolding extract_token_from_request JsMap.get
extracted = refl

abbrev decode : String → String
decode s = s

abbrev token_in : String → Option String
token_in s = none

-- Another cookie, and a token in the query.
abbrev handshake : Handshake
handshake = record {
  auth_token = none;
  authorization = none;
  cookie_header = some "theme=dark";
  query_token = some "a1";
  address = none;
  user_agent = none;
}

abbrev socket : SocketClient
socket = record { handshake = some handshake; upgrade = none }

extract_token-IsCookie_example :
    (found : Option String) × IsCookie "auth-token=" (Permission.split b';' "theme=dark") found
    × (Socket.extract_token "auth-token" decode token_in true socket ≡ decoded decode found)
unfolding extract_bearer_token
extract_token-IsCookie_example =
    extract_token-IsCookie "auth-token" decode token_in socket handshake refl refl refl refl

no_token : Socket.extract_token "auth-token" decode token_in true socket ≡ none
unfolding Socket.extract_token Permission.split Socket.find_cookie
no_token = refl

with_cookie : read_cookie "auth-token" decode token_in "theme=dark; auth-token=a1 " ≡ some "a1"
unfolding read_cookie
with_cookie = refl
