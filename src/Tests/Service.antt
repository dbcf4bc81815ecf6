-- ===== src/Tests/Service.antt =====
-- The service with random tokens over the in-memory session store.
use luoluo_auth.Common.{
  ℕ, ◌+◌, ◌≡◌, ◌≢◌, refl, String, true, false, none, some, [], ◌∷◌, ltb, nat_eq, if◌then◌else◌,
  arith, eq_iff,
}
use luoluo_auth.Common.JsMap
use luoluo_auth.MemoryStore
use luoluo_auth.MemoryStore.{MemoryStore, max_safe_integer, new_store}
use luoluo_auth.MemoryStore.Reach
use luoluo_auth.MemoryStore.Reach.{run}
use luoluo_auth.MemoryStore.Reads.{stored, unexpired}
use luoluo_auth.Auth.Errors.{ok}
use luoluo_auth.Auth.Interfaces.{AuthServiceConfig, single}
use luoluo_auth.Auth.Strategies.{memory_store, random_token_strategy, rotate_random, random_token}
use luoluo_auth.Auth.Service.{World, Deps}
use luoluo_auth.Auth.Service.Login.{LoginRequest, login_locked, new_session}
use luoluo_auth.Auth.Service.Login.Shrinking.{over_memory}
use luoluo_auth.Auth.Service.Login.Laws.{DrawsNames, login_locked_single}
use luoluo_auth.Auth.Service.Login.Roundtrip.{login_locked-validate}
use luoluo_auth.Auth.Service.Tokens.{validate_token, logout_user}
use luoluo_auth.Auth.Service.Tokens.Laws.{with_random_tokens, admitted, validate_token-admitted}
use luoluo_auth.Auth.Service.Sessions.{kick_user, open_safe_auth_on}
use luoluo_auth.Auth.Service.Sessions.Laws.{kick_user-all, open_safe_auth-get, rotate_random-stored}
use luoluo_auth.Tests.Stores.{session_of, three_sessions, three_sessions-IsValid}

abbrev pub config : AuthServiceConfig
config = record {
  token_ttl = some 3600000;
  login_policy = some single;
  auto_renew = true;
  rpc_ip_whitelist = "10.0.0.9" ∷ [];
  safe_auth_ttl = none;
  rate_limit = false;
  remember_me_ttl = none;
  fingerprint = some (record { enabled = true; strict = true });
  max_same_device_sessions = none;
  distributed_lock = none;
  multi_account = none;
}

abbrev pub Service : Type 0
Service = Deps MemoryStore (Unit {0}) (Unit {0}) (Unit {0})

abbrev pub State : Type 0
State = World MemoryStore (Unit {0}) (Unit {0}) (Unit {0})

-- The draws are "x" and then always "y".
abbrev pub base : Service
base = record {
  store = memory_store;
  strategy = random_token_strategy memory_store none;
  config = config;
  limiter = none;
  lock = none;
  redis = none;
  has_audit = true;
  cookies_enabled = true;
  random = λ n. if nat_eq n 0 then "x" else "y";
  meanwhile = λ w. w;
}

abbrev pub world : MemoryStore → ℕ → State
world s now = record {
  now = now;
  store = s;
  limiter = tt;
  lock = tt;
  redis = tt;
  audit = [];
  cookies = [];
  drawn = 0;
}

abbrev pub before : State
before = world three_sessions 10

abbrev pub request : LoginRequest
request = record {
  user_id = "ann";
  device = some "web";
  roles = none;
  permissions = none;
  ip = some "10.0.0.9";
  user_agent = some "test";
  has_res = true;
  remember_me = none;
}

y_named : ◌≢◌ {A = String} "y" ""
y_named = ground (arith, eq_iff "y" "")

logged_in : (login_locked (with_random_tokens base none) request before).1 ≡ ok "y"
unfolding login_locked memory_store random_token_strategy
logged_in = refl

login_locked-validate_example :
    (validate_token
      (with_random_tokens base none)
      "y"
      request.ip
      request.user_agent
      (login_locked (with_random_tokens base none) request before).0).1
    ≡ ok (new_session base request before.now)
login_locked-validate_example =
    login_locked-validate base none request before "y" logged_in y_named three_sessions-IsValid
      (omega arith)

draws_names : DrawsNames base request
unfolding random_token_strategy random_token
draws_names n now = ground (arith, eq_iff "y" "", eq_iff "x" "")

abbrev after_login : State
after_login = (login_locked (over_memory base) request before).0

stored_y : stored after_login.store "y" ≡ some (new_session base request 10, 3600010)
unfolding login_locked memory_store JsMap.get MemoryStore.set MemoryStore.evict_if_needed
    MemoryStore.set_item MemoryStore.touch_lru MemoryStore.delete_by_user_id
    MemoryStore.delete_owned run Reach.step MemoryStore.get new_store JsMap.set
    MemoryStore.internal_delete JsMap.delete random_token_strategy
stored_y = refl

login_locked_single_example : ◌≡◌ {A = String} "y" "y"
login_locked_single_example =
    login_locked_single base request before "y" "y" (new_session base request 10)
      (new_session base request 10) 3600010 3600010 refl draws_names three_sessions-IsValid stored_y
      refl stored_y refl

validate_token-admitted_example :
    (validate_token (with_random_tokens base none) "a1" none none before).1
    ≡ admitted base.config (unexpired before.now (stored before.store "a1")) none none
validate_token-admitted_example = validate_token-admitted base none "a1" none none before

abbrev logged_out : State
logged_out = (logout_user (with_random_tokens base none) "a1" true before).0

-- Ann has sessions on "web" only, and all of them go when "phone" is kicked.
kick_user-all_example :
    MemoryStore.list_by_user_id
      (kick_user (over_memory base) "ann" (some "phone") before).0.store
      "ann"
    ≡ []
kick_user-all_example = kick_user-all base "ann" (some "phone") before three_sessions-IsValid

read_a1 : (MemoryStore.get three_sessions 10 "a1").1 ≡ some (session_of "ann" "web" 3)
unfolding MemoryStore.get JsMap.get run Reach.step MemoryStore.set MemoryStore.evict_if_needed
    MemoryStore.set_item MemoryStore.touch_lru new_store JsMap.set
read_a1 = refl

a1_named : ◌≢◌ {A = String} "a1" ""
a1_named = ground (arith, eq_iff "a1" "")

open_safe_auth-get_example :
    (MemoryStore.get (open_safe_auth_on (over_memory base) "a1" (some 20) before).0.store 31 "a1").1
    ≡ (if ltb (before.now + 20) 31
        then none
        else some (record (session_of "ann" "web" 3) {
          safe_auth = some true;
          safe_auth_time = some before.now;
        }))
open_safe_auth-get_example =
    open_safe_auth-get base "a1" 20 31 (session_of "ann" "web" 3) before a1_named (omega arith)
      three_sessions-IsValid read_a1

fresh_token : ◌≢◌ {A = String} (random_token (some "p") "z") "a1"
unfolding random_token
fresh_token = ground (arith, eq_iff "p:z" "a1")

token_named : ◌≢◌ {A = String} (random_token (some "p") "z") ""
unfolding random_token
token_named = ground (arith, eq_iff "p:z" "")

rotate_random-stored_example :
    ((rotate_random memory_store (some "p") "z" three_sessions 10 "a1").1
      ≡ some (random_token (some "p") "z"))
    × (stored
          (rotate_random memory_store (some "p") "z" three_sessions 10 "a1").0
          (random_token (some "p") "z")
        ≡ some (session_of "ann" "web" 3, max_safe_integer))
    × (stored (rotate_random memory_store (some "p") "z" three_sessions 10 "a1").0 "a1" ≡ none)
rotate_random-stored_example =
    rotate_random-stored (some "p") "z" "a1" three_sessions 10 (session_of "ann" "web" 3)
      fresh_token token_named three_sessions-IsValid read_a1
