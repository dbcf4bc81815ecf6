-- ===== src/Tests/Guards.antt =====
-- The guard before the service, on concrete requests.
use luoluo_auth.Common.{◌≡◌, inl, refl, String, true, false, Option, none, some, [], ◌∷◌}
use luoluo_auth.Common.JsMap
use luoluo_auth.MemoryStore
use luoluo_auth.MemoryStore.{MemoryStore, max_safe_integer, new_store}
use luoluo_auth.MemoryStore.Reach
use luoluo_auth.MemoryStore.Reach.{run}
use luoluo_auth.Permission
use luoluo_auth.Auth.Errors.{ok}
use luoluo_auth.Auth.Strategies.{DecodedToken, memory_store, random_token_strategy}
use luoluo_auth.Auth.Service.Tokens.{validate_token}
use luoluo_auth.Auth.Service.Tokens.Laws.{with_random_tokens}
use luoluo_auth.Auth.Guard.{
  Request, Metadata, header, allow, deny, can_activate, extract_token, has_auth_metadata,
}
use luoluo_auth.Auth.Guard.Laws.{IsAdmitted, IsAllowed, can_activate-IsAdmitted}
use luoluo_auth.Auth.Guard.Refusals.{can_activate_undecoded}
use luoluo_auth.Tests.Stores.{session_of, three_sessions}
use luoluo_auth.Tests.Service.{base, world, Service, State}

abbrev admins : Metadata
admins = record { auth = true; roles = some ("admin" ∷ []); permissions = none; safe_auth = false }

abbrev with_bearer : Request
with_bearer = record {
  authorization = some "Bearer a1";
  cookie = none;
  ip = none;
  user_agent = none;
}

abbrev without_token : Request
without_token = record { authorization = none; cookie = none; ip = none; user_agent = none }

-- Random tokens do not decode.
abbrev no_decode : String → Option DecodedToken
no_decode token = none

abbrev service : Service
service = with_random_tokens base none

-- Ann is banned.
abbrev banned : State
banned = world (MemoryStore.ban three_sessions 9 "ann" 60) 10

passes :
    (can_activate service no_decode admins with_bearer banned).1
    ≡ allow (some (session_of "ann" "web" 3))
unfolding can_activate memory_store random_token_strategy Permission.split MemoryStore.get JsMap.get
    MemoryStore.ban run Reach.step MemoryStore.set MemoryStore.evict_if_needed MemoryStore.set_item
    MemoryStore.touch_lru new_store JsMap.set Permission.has_role Permission.has_permission
passes = refl

can_activate-IsAdmitted_example :
    IsAdmitted service no_decode admins with_bearer banned (some (session_of "ann" "web" 3))
unfolding has_auth_metadata
can_activate-IsAdmitted_example =
    can_activate-IsAdmitted service no_decode admins with_bearer banned
      (some (session_of "ann" "web" 3)) refl passes

refused : (can_activate service no_decode admins without_token banned).1 ≡ deny 401
unfolding can_activate
refused = refl

extracted : extract_token service.cookies_enabled with_bearer ≡ some ("a1", header)
unfolding extract_token Permission.split
extracted = refl

validated : (validate_token service "a1" none none banned).1 ≡ ok (session_of "ann" "web" 3)
unfolding validate_token random_token_strategy memory_store MemoryStore.get JsMap.get
    MemoryStore.ban run Reach.step MemoryStore.set MemoryStore.evict_if_needed MemoryStore.set_item
    MemoryStore.touch_lru new_store JsMap.set
validated = refl

ann-IsAllowed :
    IsAllowed service no_decode admins
      (validate_token service "a1" none none banned).0.now
      (session_of "ann" "web" 3)
unfolding Permission.has_role Permission.has_permission
ann-IsAllowed = record { role = refl; permission = refl; safe = inl refl }

can_activate_undecoded_example :
    (can_activate service no_decode admins with_bearer banned).1
    ≡ allow (some (session_of "ann" "web" 3))
unfolding has_auth_metadata
can_activate_undecoded_example =
    can_activate_undecoded service no_decode admins with_bearer banned "a1" header
      (session_of "ann" "web" 3) refl extracted validated refl ann-IsAllowed
