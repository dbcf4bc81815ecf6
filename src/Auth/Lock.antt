-- ===== src/Auth/Lock.antt =====
-- src/auth/distributed-lock/memory-distributed-lock.ts: the lock of a single process. `Date.now()`
-- is the argument `now`, and the UUID that `acquire` draws is its first argument.
pub mod Holder
use luoluo_auth.Common.{
  ℕ, ◌+◌, String, Bool, true, false, Option, none, some, List, [], leb, if◌then◌else◌, ◌==◌,
}
use luoluo_auth.Common.JsMap
use luoluo_auth.Common.JsMap.{JsMap}
use luoluo_auth.Timers.{Timers, Timer, no_timers, set_timeout, clear_timeout, find_due}
use luoluo_auth.Auth.Interfaces.{LockToken, DistributedLock}

pub record LockItem : Type 0 where
  pub token : String
  pub expire_at : ℕ
  pub timer : ℕ

-- A timer's callback deletes its key.
pub record MemoryDistributedLock : Type 0 where
  pub locks : JsMap LockItem
  pub timers : Timers String

abbrev pub new_lock : MemoryDistributedLock
new_lock = record { locks = []; timers = no_timers }

-- The clean-up of an expired lock whose timer has not run.
unfoldable pub drop_expired :
    MemoryDistributedLock → ℕ → String → Option LockItem → MemoryDistributedLock
drop_expired s now key none = s
drop_expired s now key (some item) =
    if leb item.expire_at now
    then record s { locks = JsMap.delete s.locks key; timers = clear_timeout s.timers item.timer }
    else s

unfoldable pub acquire :
    String → MemoryDistributedLock → ℕ → String → ℕ → MemoryDistributedLock × Option LockToken
unfolding drop_expired
acquire uuid s now key ttl_ms =
    let s' = drop_expired s now key (JsMap.get s.locks key) in
    let (timers, handle) = set_timeout s'.timers now key ttl_ms in
    let item : LockItem = record { token = uuid; expire_at = now + ttl_ms; timer = handle } in
    if JsMap.has s'.locks key then (s', none) else (
      record { locks = JsMap.set s'.locks key item; timers = timers },
      some (record { key = key; token = uuid }),
    )

unfoldable pub release : MemoryDistributedLock → LockToken → MemoryDistributedLock
release s lock = elim (JsMap.get s.locks lock.key) [
  | none ↦ s
  | some existing ↦
      if existing.token == lock.token
      then record s {
        locks = JsMap.delete s.locks lock.key;
        timers = clear_timeout s.timers existing.timer;
      }
      else s
]

-- The callback of the timer.
unfoldable pub fire : MemoryDistributedLock → ℕ → ℕ → MemoryDistributedLock
fire s now handle = elim (find_due now handle s.timers.pending) [
  | none ↦ s
  | some t ↦ record {
    locks = JsMap.delete s.locks t.callback;
    timers = clear_timeout s.timers handle;
  }
]

unfoldable pub memory_lock : DistributedLock MemoryDistributedLock
memory_lock = record { acquire = acquire; release = release }
