-- ===== src/MemoryStore/Expiry.antt =====
-- Expiry timers beyond the longest delay of `setTimeout`.
use luoluo_auth.Common.{
  ℕ, ◌+◌, ◌*◌, ◌≤◌, ◌<◌, String, ◌≡◌, none, some, List, [], ◌∷◌, arith, eq_iff,
}
use luoluo_auth.Common.JsMap
use luoluo_auth.Timers.{max_timeout_ms, schedule_expiry, clear_timeout, find_due}
use luoluo_auth.MemoryStore
use luoluo_auth.MemoryStore.{
  MemoryStore, max_safe_integer, new_store, set_item, internal_delete, touch_lru, evict_if_needed,
}
use luoluo_auth.MemoryStore.Data.{SessionData}
use luoluo_auth.MemoryStore.Reach.{step, run}
use luoluo_auth.MemoryStore.Reach
use luoluo_auth.MemoryStore.Reads.{stored}

-- A long session is stored; its timer is due for the first time; it is renewed.
abbrev pub renewal_history : ℕ → String → SessionData → ℕ → ℕ → ℕ → List Reach.Event
renewal_history now id session ttl renewal ttl' =
    Reach.set now id session (some ttl)
    ∷ Reach.fire (now + max_timeout_ms) 0
    ∷ Reach.renew renewal id (some ttl')
    ∷ []

-- And its first timer, rescheduled under a handle that no item holds, is due again.
abbrev pub renewed_history : ℕ → String → SessionData → ℕ → ℕ → ℕ → List Reach.Event
renewed_history now id session ttl renewal ttl' =
    Reach.set now id session (some ttl)
    ∷ Reach.fire (now + max_timeout_ms) 0
    ∷ Reach.renew renewal id (some ttl')
    ∷ Reach.fire (now + ttl) 1
    ∷ []

-- In a new store without a limit that gets just this session: a session whose time to live is
-- longer than the longest timer and at most twice that, renewed for a time above 0 after its
-- timer ran once, is stored with its new expiry, and is gone all the same when its timer runs
-- again at the end of its first time to live, though the new expiry lies later.
pub renewed_lost :
    (now : ℕ) (id : String) (session : SessionData) (ttl renewal ttl' : ℕ)
    → max_timeout_ms < ttl
    → ttl ≤ 2 * max_timeout_ms
    → 0 < ttl'
    → now + ttl < renewal + ttl'
    → (stored (run (new_store none) (renewal_history now id session ttl renewal ttl')) id
        ≡ some (session, renewal + ttl'))
      × ((MemoryStore.get
            (run (new_store none) (renewed_history now id session ttl renewal ttl'))
            (now + ttl)
            id).1
          ≡ none)
unfolding run step new_store MemoryStore.set set_item evict_if_needed touch_lru MemoryStore.fire
    schedule_expiry clear_timeout find_due MemoryStore.renew MemoryStore.run_callback
    internal_delete MemoryStore.get JsMap.get JsMap.set JsMap.delete
renewed_lost now id session ttl renewal ttl' long short pos later =
    (ground (arith, eq_iff id id), ground (arith, eq_iff id id))
