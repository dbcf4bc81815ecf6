-- ===== src/Auth/Lock/Holder.antt =====
-- Who holds a key of the in-memory lock, and what the two operations make of that.
use luoluo_auth.Common.{
  ℕ, ◌+◌, ◌≤◌, ◌≡◌, String, not, ◌&&◌, Option, none, some, is_some, leb, if◌then◌else◌, ◌==◌, arith,
  eq_iff,
}
use luoluo_auth.Common.JsMap
use luoluo_auth.Common.JsMap.{JsMap}
use luoluo_auth.MemoryStore.Data.{text_is}
use luoluo_auth.Timers.{set_timeout}
use luoluo_auth.Auth.Interfaces.{LockToken}
use luoluo_auth.Auth.Lock.{LockItem, MemoryDistributedLock, drop_expired, acquire, release}

-- The token under which a key is held at a time.
abbrev pub holding : ℕ → Option LockItem → Option String
holding now none = none
holding now (some item) = if leb item.expire_at now then none else some item.token

abbrev pub holder : MemoryDistributedLock → ℕ → String → Option String
holder s now key = holding now (JsMap.get s.locks key)

get-drop_expired :
    (s : MemoryDistributedLock) (now : ℕ) (key k : String)
    → JsMap.get (drop_expired s now key (JsMap.get s.locks key)).locks k
      ≡ (if (key == k) && not (is_some (holder s now key)) then none else JsMap.get s.locks k)
unfolding drop_expired
get-drop_expired s now key k = ground (arith, eq_iff key k, JsMap.get-delete s.locks key k)

-- A key is granted exactly if no one holds it at the time; from then on it is held by the token
-- that was drawn, until its time to live is over; every other holder, and the holder of a key
-- that was not granted, stays.
pub holder-acquire :
    (uuid : String) (s : MemoryDistributedLock) (now later : ℕ) (key k : String) (ttl_ms : ℕ)
    → now ≤ later
    → (is_some (acquire uuid s now key ttl_ms).1 ≡ not (is_some (holder s now key)))
      × (holder (acquire uuid s now key ttl_ms).0 later k ≡ (
          if (key == k) && not (is_some (holder s now key))
          then if leb (now + ttl_ms) later then none else some uuid
          else holder s later k))
unfolding acquire JsMap.has set_timeout
holder-acquire uuid s now later key k ttl_ms h = (
  ground (arith, get-drop_expired s now key key, eq_iff key key),
  ground (
    arith,
    get-drop_expired s now key key,
    get-drop_expired s now key k,
    eq_iff key key,
    eq_iff key k,
    JsMap.get-set (drop_expired s now key (JsMap.get s.locks key)).locks key
        (record {
          token = uuid;
          expire_at = now + ttl_ms;
          timer = (drop_expired s now key (JsMap.get s.locks key)).timers.next_handle;
        })
        k,
  ),
)

-- release ends the hold of its own token, and no other: a late release after the key was granted
-- anew changes nothing.
pub holder-release :
    (s : MemoryDistributedLock) (lock : LockToken) (later : ℕ) (k : String)
    → holder (release s lock) later k ≡ (
        if (lock.key == k) && text_is (holder s later k) lock.token then none else holder s later k)
unfolding release
holder-release s lock later k =
    ground (arith, eq_iff lock.key k, JsMap.get-delete s.locks lock.key k)
