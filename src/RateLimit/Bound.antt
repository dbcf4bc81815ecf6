-- ===== src/RateLimit/Bound.antt =====
-- The limit over a whole run: in no window are more requests granted than `max_requests`.
use luoluo_auth.Common.{
  ℕ, ◌+◌, ◌*◌, ◌≤◌, ◌<◌, String, ◌≡◌, refl, true, ◌&&◌, List, [], ◌∷◌, ◌++◌, ltb, leb,
  if◌then◌else◌, length, keep, arith, ◌==◌, eq_iff, Bool-cases, inl, inr, length-append,
  keep-append, ap, ◌∙◌,
}
use mathlib.Core.List.{append-nil, append_assoc}
use luoluo_auth.RateLimit.{MemoryRateLimiter, RateLimitContext, init, allow, build_key, window_ms}
use luoluo_auth.RateLimit.Window.{
  live, Tracks, allow-Tracks, allow-max_requests, allow-window_seconds, allow-exact, init-Tracks,
}

-- Requests in the order in which the server sees them, each with its time.
abbrev pub Requests : Type 0
Requests = List (ℕ × RateLimitContext)

abbrev pub IsOrdered : ℕ → Requests → Type 0
IsOrdered from [] = Unit
IsOrdered from ((now, c) ∷ rs) = (from ≤ now) × IsOrdered now rs

-- The times at which requests under a key are granted.
unfoldable pub granted : String → MemoryRateLimiter → Requests → List ℕ
granted key l [] = []
granted key l ((now, c) ∷ rs) =
    let rest = granted key (allow l now c).0 rs in
    if (build_key c == key) && (allow l now c).1 then now ∷ rest else rest

-- How many of the times lie after `start` and at most a window later.
abbrev pub count_from : ℕ → ℕ → List ℕ → ℕ
count_from start window xs = length (keep (λ ts. ltb start ts && leb ts (start + window)) xs)

abbrev pub IsWithin : ℕ → ℕ → List ℕ → Type 0
IsWithin most window xs = (start : ℕ) → count_from start window xs ≤ most

count_from-le-live :
    (start window now : ℕ) (xs : List ℕ)
    → now ≤ start + window
    → count_from start window xs ≤ length (live window now xs)
count_from-le-live start window now [] h = omega arith
count_from-le-live start window now (x ∷ xs) h =
    ground (arith, count_from-le-live start window now xs h)

count_from-append :
    (start window : ℕ) (xs ys : List ℕ)
    → count_from start window (xs ++ ys) ≡ count_from start window xs + count_from start window ys
count_from-append start window xs ys =
    rw (keep-append (λ ts. ltb start ts && leb ts (start + window)) xs ys) (length-append _ _)

IsWithin-grant :
    (most window now : ℕ) (history : List ℕ)
    → IsWithin most window history
    → length (live window now history) < most
    → IsWithin most window (history ++ now ∷ [])
IsWithin-grant most window now history h room start = ground (
  arith,
  h start,
  count_from-append start window history (now ∷ []),
  count_from-le-live start window now history,
)

abbrev HasLimits : ℕ → ℕ → MemoryRateLimiter → Type 0
HasLimits window most l = (window_ms l ≡ window) × (l.max_requests ≡ most)

granted_room :
    (key : String) (window most : ℕ) (l : MemoryRateLimiter) (from now : ℕ) (c : RateLimitContext)
    (history : List ℕ)
    → HasLimits window most l
    → Tracks key l from history
    → from ≤ now
    → ((build_key c == key) && (allow l now c).1) ≡ true
    → length (live window now history) < most
granted_room key window most l from now c history s t o e =
    let same : build_key c ≡ key = ground (arith, eq_iff (build_key c) key) in
    let exact = allow-exact l from now c history o (rw same t) in rw (← s.0, ← s.1) (ground arith)

granted-IsWithin_from :
    (key : String) (window most : ℕ) (l : MemoryRateLimiter) (from : ℕ) (history : List ℕ)
    (rs : Requests)
    → HasLimits window most l
    → Tracks key l from history
    → IsOrdered from rs
    → IsWithin most window history
    → IsWithin most window (history ++ granted key l rs)
unfolding granted
granted-IsWithin_from key window most l from history [] s t o h = rw (append-nil history) h
granted-IsWithin_from key window most l from history ((now, c) ∷ rs) s t o h =
    let l' = (allow l now c).0 in
    let s' : HasLimits window most l' = (
      ap (λ (n : ℕ). n * 1000) (allow-window_seconds l now c) ∙ s.0,
      allow-max_requests l now c ∙ s.1,
    ) in
    let t' = allow-Tracks l from now c key history o.0 t in
    elim (Bool-cases ((build_key c == key) && (allow l now c).1)) [
      | inr e ↦ rw e (granted-IsWithin_from key window most l' now history rs s' (rw e at t') o.1 h)
      | inl e ↦
          let room = granted_room key window most l from now c history s t o.0 e in
          rw (e, ← append_assoc history (now ∷ []) (granted key l' rs))
            (granted-IsWithin_from key window most l' now (history ++ now ∷ []) rs s' (rw e at t')
              o.1 (IsWithin-grant most window now history h room))
    ]

-- From a fresh limiter and for requests in the order of their times, no window of windowSeconds
-- holds more than maxRequests granted requests with the same key.
pub granted-IsWithin :
    (key : String) (window_seconds max_requests : ℕ) (rs : Requests)
    → IsOrdered 0 rs
    → IsWithin max_requests
        (window_seconds * 1000)
        (granted key (init window_seconds max_requests) rs)
granted-IsWithin key window_seconds max_requests rs o =
    granted-IsWithin_from key (window_seconds * 1000) max_requests
      (init window_seconds max_requests) 0 [] rs (refl, refl)
      (init-Tracks window_seconds max_requests key) o (λ start. omega arith)
