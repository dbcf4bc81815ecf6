-- ===== src/RateLimit.antt =====
-- src/auth/rate-limit/memory-rate-limiter.ts: the sliding-window limiter. `Date.now()` is the
-- argument `now`, in milliseconds, and a promise is its value.
pub mod Window
pub mod Bound
use Prim.Native.String
use luoluo_auth.Common.{
  ℕ, ◌+◌, ◌*◌, String, Bool, true, false, Option, none, some, List, [], ◌∷◌, ◌++◌, ltb, leb,
  if◌then◌else◌, truthy, length, keep, get_or,
}
use luoluo_auth.Common.JsMap
use luoluo_auth.Common.JsMap.{JsMap}

pub record RateLimitContext : Type 0 where
  pub ip : String
  pub user_id : Option String
  pub action : String

pub record MemoryRateLimiter : Type 0 where
  -- key ↦ the times of the granted requests, oldest first
  pub records : JsMap (List ℕ)
  pub window_seconds : ℕ
  pub max_requests : ℕ

abbrev pub init : ℕ → ℕ → MemoryRateLimiter
init window_seconds max_requests = record {
  records = [];
  window_seconds = window_seconds;
  max_requests = max_requests;
}

-- `parts.join(':')` for the two or three parts of a key.
unfoldable pub build_key : RateLimitContext → String
build_key context =
    let tail = String.◌++◌ ":" context.ip in
    let user = get_or context.user_id "" in
    if truthy context.user_id
    then String.◌++◌ context.action (String.◌++◌ ":" (String.◌++◌ user tail))
    else String.◌++◌ context.action tail

-- `ts > now - window`, with the negative side moved over.
abbrev pub in_window : ℕ → ℕ → ℕ → Bool
in_window window now ts = ltb now (ts + window)

abbrev pub window_ms : MemoryRateLimiter → ℕ
window_ms l = l.window_seconds * 1000

-- `this.records.get(key) || []`
abbrev pub recorded : MemoryRateLimiter → String → List ℕ
recorded l key = get_or (JsMap.get l.records key) []

unfoldable pub allow : MemoryRateLimiter → ℕ → RateLimitContext → MemoryRateLimiter × Bool
allow l now context =
    let key = build_key context in
    let timestamps = keep (in_window (window_ms l) now) (recorded l key) in
    if leb l.max_requests (length timestamps)
    then (record l { records = JsMap.set l.records key timestamps }, false)
    else (record l { records = JsMap.set l.records key (timestamps ++ now ∷ []) }, true)

unfoldable pub clear : MemoryRateLimiter → MemoryRateLimiter
clear l = record l { records = [] }
