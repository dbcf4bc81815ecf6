-- ===== src/Tests/Administration.antt =====
-- The administration endpoints on concrete requests.
use luoluo_auth.Common.{◌≡◌, ◌⊎◌, refl, String, true, false, none, some, []}
use luoluo_auth.Common.JsMap
use luoluo_auth.Common.Text.{pos, parse_int, read_digits, more_digits}
use luoluo_auth.MemoryStore
use luoluo_auth.MemoryStore.{MemoryStore, max_safe_integer, new_store}
use luoluo_auth.MemoryStore.Reach
use luoluo_auth.MemoryStore.Reach.{run}
use luoluo_auth.Permission
use luoluo_auth.Auth.Errors.{ok, fail, session_not_found}
use luoluo_auth.Auth.Interfaces.{multiple}
use luoluo_auth.Auth.Strategies.{memory_store, random_token_strategy}
use luoluo_auth.Auth.Guard.{extract_bearer_token}
use luoluo_auth.Auth.Service.Tokens.{validate_token}
use luoluo_auth.Auth.Service.Sessions.{is_user_banned}
use luoluo_auth.Auth.Service.Tokens.Laws.{with_random_tokens}
use luoluo_auth.OAuth2.ClientStore
use luoluo_auth.OAuth2.Controller.{Server, answer, refuse, unauthorized}
use luoluo_auth.Admin.{
  Admin, AdminRequest, ban, revoke, revoked, unbanned, kick, get_config, settings, handle,
  current_settings, perform, is_admin, require_admin,
}
use luoluo_auth.Admin.Access.{comes_from_admin, looked_up, handle_refused}
use luoluo_auth.Admin.Effects.{handle-unban, handle-revoke}
use luoluo_auth.Tests.Stores.{three_sessions}
use luoluo_auth.Tests.Service.{base, world}

abbrev Point : Type 0
Point = Admin MemoryStore (Unit {0}) (Unit {0}) (Unit {0})

abbrev State : Type 0
State = Server MemoryStore (Unit {0}) (Unit {0}) (Unit {0})

abbrev point : Point
point = record {
  auth = with_random_tokens base none;
  has_session_store = true;
  has_client_store = true;
  config = some (record {
    cookie_enabled = some true;
    fingerprint_enabled = none;
    multi_account_enabled = none;
    login_policy = some multiple;
    rate_limit_enabled = some false;
  });
  ban_unusual = λ user_id duration w. (w, ok tt);
}

-- Ann is an administrator.
abbrev by_ann : AdminRequest
by_ann = record { authorization = some "Bearer a1"; ip = none; user_agent = none; has_res = true }

abbrev by_no_one : AdminRequest
by_no_one = record { authorization = none; ip = none; user_agent = none; has_res = true }

abbrev at : MemoryStore → State
at store = record { world = world store 10; clients = ClientStore.new_store; device_codes = [] }

abbrev start : State
start = at three_sessions

-- The administrator is banned.
abbrev shut_out : State
shut_out = at (MemoryStore.ban three_sessions 9 "ann" 60)

ann_asks : comes_from_admin point by_ann start ≡ true
unfolding is_admin extract_bearer_token validate_token memory_store random_token_strategy
    Permission.split MemoryStore.get JsMap.get run Reach.step MemoryStore.set
    MemoryStore.evict_if_needed MemoryStore.set_item MemoryStore.touch_lru new_store JsMap.set
ann_asks = refl

ann_asks_banned : comes_from_admin point by_ann shut_out ≡ true
unfolding is_admin extract_bearer_token validate_token memory_store random_token_strategy
    Permission.split MemoryStore.get JsMap.get run Reach.step MemoryStore.set MemoryStore.ban
    MemoryStore.evict_if_needed MemoryStore.set_item MemoryStore.touch_lru new_store JsMap.set
ann_asks_banned = refl

no_one_asks : comes_from_admin point by_no_one start ≡ false
unfolding extract_bearer_token
no_one_asks = refl

configured :
    (handle point get_config by_ann start).1 ≡ answer (settings true false false multiple false)
unfolding handle require_admin perform current_settings is_admin extract_bearer_token validate_token
    memory_store random_token_strategy Permission.split MemoryStore.get JsMap.get run Reach.step
    MemoryStore.set MemoryStore.evict_if_needed MemoryStore.set_item MemoryStore.touch_lru new_store
    JsMap.set
configured = refl

read_sixty : parse_int "60" ≡ some (pos 60)
unfolding parse_int read_digits more_digits
read_sixty = refl

handle_refused_example :
    (message : String) × ((handle point (kick (some "bob")) by_no_one start).1
      ≡ refuse (unauthorized message))
    × ((handle point (kick (some "bob")) by_no_one start).0.clients ≡ start.clients)
    × (((handle point (kick (some "bob")) by_no_one start).0 ≡ start)
        ⊎ ((handle point (kick (some "bob")) by_no_one start).0 ≡ looked_up point by_no_one start))
handle_refused_example = handle_refused point by_no_one (kick (some "bob")) start no_one_asks

handle-unban_example :
    ((handle point (ban (some "ann") (some "unban") none) by_ann shut_out).1
      ≡ answer (unbanned "ann"))
    × ((is_user_banned point.auth "ann"
          (handle point (ban (some "ann") (some "unban") none) by_ann shut_out).0.world).1
        ≡ ok false)
handle-unban_example = handle-unban point by_ann "ann" none shut_out refl ann_asks_banned

handle-revoke_example :
    ((handle point (revoke (some "b")) by_ann start).1 ≡ answer revoked)
    × ((validate_token point.auth "b" none none
          (handle point (revoke (some "b")) by_ann start).0.world).1
        ≡ fail session_not_found 401)
handle-revoke_example =
    handle-revoke point none by_ann "b" start
      (handle point (revoke (some "b")) by_ann start).0.world none none refl ann_asks refl
