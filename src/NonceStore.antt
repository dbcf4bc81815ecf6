-- ===== src/NonceStore.antt =====
-- src/auth/signature/nonce-store.ts: the in-memory nonce store. `Date.now()` is the argument `now`.
pub mod Replay
pub mod Runs
use luoluo_auth.Common.{
  ℕ, ◌+◌, String, Bool, true, false, not, Option, none, some, List, [], ◌∷◌, leb, nat_eq,
  if◌then◌else◌,
}
use luoluo_auth.Common.JsMap
use luoluo_auth.Common.JsMap.{JsMap}

pub record MemoryNonceStore : Type 0 where
  -- nonce ↦ the time of its expiry, the least recently used first
  pub records : JsMap ℕ
  pub max_size : ℕ

abbrev pub new_store : ℕ → MemoryNonceStore
new_store max_size = record { records = []; max_size = max_size }

-- The loop of `evictExpired`, which deletes no entry but the one it is at.
unfoldable pub drop_expired : ℕ → JsMap ℕ → JsMap ℕ
drop_expired now [] = []
drop_expired now ((nonce, expire_at) ∷ records) =
    if leb expire_at now
    then drop_expired now records
    else (nonce, expire_at) ∷ drop_expired now records

unfoldable pub evict_expired : MemoryNonceStore → ℕ → MemoryNonceStore
evict_expired s now = record s { records = drop_expired now s.records }

-- `records.delete(records.keys().next().value)`
unfoldable pub drop_first : JsMap ℕ → JsMap ℕ
drop_first [] = []
drop_first ((nonce, expire_at) ∷ records) = JsMap.delete ((nonce, expire_at) ∷ records) nonce

unfoldable pub has_from : JsMap ℕ → ℕ → String → Option ℕ → JsMap ℕ × Bool
has_from records now nonce none = (records, false)
has_from records now nonce (some expire_at) =
    if nat_eq expire_at 0
    then (records, false)
    else if leb expire_at now
    then (JsMap.delete records nonce, false)
    else (JsMap.set (JsMap.delete records nonce) nonce expire_at, true)

unfoldable pub has : MemoryNonceStore → ℕ → String → MemoryNonceStore × Bool
unfolding has_from evict_expired
has s now nonce =
    let s' = evict_expired s now in
    let (records, found) = has_from s'.records now nonce (JsMap.get s'.records nonce) in
    (record s' { records = records }, found)

-- Room for one more entry.
unfoldable pub make_room : MemoryNonceStore → JsMap ℕ
make_room s = if leb s.max_size (JsMap.size s.records) then drop_first s.records else s.records

unfoldable pub set : MemoryNonceStore → ℕ → String → ℕ → MemoryNonceStore
unfolding evict_expired make_room
set s now nonce ttl_ms =
    let s' = evict_expired s now in
    let room = if JsMap.has s'.records nonce then JsMap.delete s'.records nonce else make_room s' in
    record s' { records = JsMap.set room nonce (now + ttl_ms) }

unfoldable pub set_if_absent : MemoryNonceStore → ℕ → String → ℕ → MemoryNonceStore × Bool
unfolding evict_expired make_room
set_if_absent s now nonce ttl_ms =
    let s' = evict_expired s now in
    if JsMap.has s'.records nonce
    then (s', false)
    else (record s' { records = JsMap.set (make_room s') nonce (now + ttl_ms) }, true)
