-- ===== src/Tests/Limits.antt =====
-- The rate limiter, the permission engine and the nonce store on concrete inputs.
use luoluo_auth.Common.{
  ◌*◌, ◌≡◌, ◌↔◌, refl, String, true, ◌&&◌, some, List, [], ◌∷◌, if◌then◌else◌, ◌==◌, arith,
}
use luoluo_auth.Common.JsMap
use luoluo_auth.RateLimit.{RateLimitContext, MemoryRateLimiter, init, build_key, allow}
use luoluo_auth.RateLimit.Window.{Tracks, init-Tracks, allow-Tracks}
use luoluo_auth.RateLimit.Bound.{Requests, granted, IsWithin, granted-IsWithin}
use luoluo_auth.Permission.{match_permission}
use luoluo_auth.Permission.Matching.{Permits, match_permission_iff}
use luoluo_auth.NonceStore
use luoluo_auth.NonceStore.{MemoryNonceStore, set_if_absent}
use luoluo_auth.NonceStore.Replay
use luoluo_auth.NonceStore.Replay.{
  knows, forgotten, set_if_absent-knows, knows-set_if_absent, set_if_absent-IsValid,
}
use luoluo_auth.NonceStore.Runs.{Calls, HasRoom, accepted}

abbrev from_ann : RateLimitContext
from_ann = record { ip = "10.0.0.1"; user_id = some "ann"; action = "login" }

abbrev from_bob : RateLimitContext
from_bob = record { ip = "10.0.0.1"; user_id = some "bob"; action = "login" }

-- Two requests a second: the third one of Ann is refused, and granted again a second later.
abbrev requests : Requests
requests =
    (10, from_ann) ∷ (20, from_bob) ∷ (500, from_ann) ∷ (900, from_ann) ∷ (1010, from_ann) ∷ []

granted-IsWithin_example : IsWithin 2 (1 * 1000) (granted "login:ann:10.0.0.1" (init 1 2) requests)
granted-IsWithin_example = granted-IsWithin "login:ann:10.0.0.1" 1 2 requests (ground arith)

granted_times : granted "login:ann:10.0.0.1" (init 1 2) requests ≡ 10 ∷ 500 ∷ 1010 ∷ []
unfolding granted allow build_key JsMap.get JsMap.set
granted_times = refl

abbrev after_ann : MemoryRateLimiter
after_ann = (allow (init 1 2) 10 from_ann).0

after_ann-Tracks : Tracks (build_key from_ann) after_ann 10 (
    if (build_key from_ann == build_key from_ann) && (allow (init 1 2) 10 from_ann).1
    then 10 ∷ []
    else [])
after_ann-Tracks =
    allow-Tracks (init 1 2) 0 10 from_ann (build_key from_ann) [] (ground arith)
      (init-Tracks 1 2 (build_key from_ann))

match_permission_iff_example :
    (match_permission "order:*:read" "order:7:read" ≡ true) ↔ Permits "order:*:read" "order:7:read"
match_permission_iff_example = match_permission_iff "order:*:read" "order:7:read"

abbrev role_names : List String
role_names = "owner" ∷ "admin" ∷ []

abbrev calls : Calls
calls = (5, "n") ∷ (6, "m") ∷ (50, "n") ∷ (105, "n") ∷ []

calls_room : HasRoom 100 (NonceStore.new_store 4) calls
unfolding set_if_absent NonceStore.evict_expired JsMap.has JsMap.get NonceStore.drop_expired
    JsMap.set
calls_room = ground arith

accepted_times : accepted "n" 100 (NonceStore.new_store 4) calls ≡ 5 ∷ 105 ∷ []
unfolding accepted set_if_absent JsMap.has JsMap.get NonceStore.drop_expired JsMap.set
accepted_times = refl

new_store-IsValid : Replay.IsValid (NonceStore.new_store 2)
new_store-IsValid = record { unique = tt; room = ground arith; bounded = ground arith }

abbrev one_nonce : MemoryNonceStore
one_nonce = (set_if_absent (NonceStore.new_store 2) 5 "n" 100).0

one_nonce-IsValid : Replay.IsValid one_nonce
one_nonce-IsValid = set_if_absent-IsValid (NonceStore.new_store 2) 5 "n" 100 new_store-IsValid
