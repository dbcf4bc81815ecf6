-- ===== src/RateLimit/Window.antt =====
-- One call of `allow` against the list of all requests that were ever granted.
use luoluo_auth.Common.{
  ℕ, ◌≤◌, String, ◌≡◌, ◌≢◌, refl, ◌&&◌, List, [], ◌∷◌, ◌++◌, ltb, if◌then◌else◌, length, keep,
  arith, eq_iff, ◌==◌, keep-append,
}
use luoluo_auth.Common.JsMap
use luoluo_auth.RateLimit.{
  MemoryRateLimiter, RateLimitContext, allow, build_key, in_window, window_ms, recorded, init,
}

-- The granted times that still count at `now`.
abbrev pub live : ℕ → ℕ → List ℕ → List ℕ
live window now = keep (in_window window now)

-- What has left a window does not come back.
live-live :
    (w now later : ℕ) (xs : List ℕ) → now ≤ later → live w later (live w now xs) ≡ live w later xs
live-live w now later [] h = refl
live-live w now later (x ∷ xs) h = ground (arith, live-live w now later xs h)

-- What the limiter holds for a key serves as well as the whole history, from `now` on.
pub record Tracks (key : String) (l : MemoryRateLimiter) (now : ℕ) (history : List ℕ) : Type 0 where
  pub same :
      (later : ℕ)
      → now ≤ later
      → live (window_ms l) later (recorded l key) ≡ live (window_ms l) later history

module _ (l : MemoryRateLimiter) (now : ℕ) (context : RateLimitContext) where
  pub allow-max_requests : (allow l now context).0.max_requests ≡ l.max_requests
  unfolding allow
  allow-max_requests = ground arith

  pub allow-window_seconds : (allow l now context).0.window_seconds ≡ l.window_seconds
  unfolding allow
  allow-window_seconds = ground arith

  -- The list that `allow` leaves under a key.
  pub recorded-allow :
      (key : String)
      → recorded (allow l now context).0 key ≡ (
          if build_key context == key
          then if (allow l now context).1
            then live (window_ms l) now (recorded l key) ++ now ∷ []
            else live (window_ms l) now (recorded l key)
          else recorded l key)
  unfolding allow
  recorded-allow key = ground (
    arith,
    eq_iff (build_key context) key,
    JsMap.get-set l.records (build_key context)
        (live (window_ms l) now (recorded l (build_key context)) ++ now ∷ []) key,
    JsMap.get-set l.records (build_key context)
        (live (window_ms l) now (recorded l (build_key context))) key,
  )

  allow-granted :
      (allow l now context).1
      ≡ ltb (length (live (window_ms l) now (recorded l (build_key context)))) l.max_requests
  unfolding allow
  allow-granted = ground arith

-- A request is granted exactly when fewer than `max_requests` of the requests granted so far are
-- still in the window, and the limiter goes on to track the history with the new one.
pub allow-Tracks :
    (l : MemoryRateLimiter) (before now : ℕ) (context : RateLimitContext) (key : String)
    (history : List ℕ)
    → before ≤ now
    → Tracks key l before history
    → Tracks key (allow l now context).0 now (
        if (build_key context == key) && (allow l now context).1
        then history ++ now ∷ []
        else history)
allow-Tracks l before now context key history h t = record {
  same = λ later q.
      let w = window_ms l in
      let old = t.same later (omega arith) in
      rw (allow-window_seconds l now context, recorded-allow l now context key)
        (grind (
          arith,
          old,
          keep-append (in_window w later) (live w now (recorded l key)) (now ∷ []),
          keep-append (in_window w later) history (now ∷ []),
          live-live w now later (recorded l key) q,
        ));
}

pub init-Tracks :
    (window_seconds max_requests : ℕ) (key : String)
    → Tracks key (init window_seconds max_requests) 0 []
unfolding JsMap.get
init-Tracks window_seconds max_requests key = record { same = λ later q. refl }

-- A limiter that tracks a history of granted times grants a request, made no earlier, exactly
-- when fewer than maxRequests times of the history are still in the window.
pub allow-exact :
    (l : MemoryRateLimiter) (before now : ℕ) (context : RateLimitContext) (history : List ℕ)
    → before ≤ now
    → Tracks (build_key context) l before history
    → (allow l now context).1 ≡ ltb (length (live (window_ms l) now history)) l.max_requests
allow-exact l before now context history h t = rw (allow-granted l now context) (rw (t.same now h))

-- A request leaves the records of every other key alone.
pub allow_other_key :
    (l : MemoryRateLimiter) (now : ℕ) (context : RateLimitContext) (key : String)
    → build_key context ≢ key
    → recorded (allow l now context).0 key ≡ recorded l key
allow_other_key l now context key h =
    ground (arith, eq_iff (build_key context) key, recorded-allow l now context key)
