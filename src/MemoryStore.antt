-- ===== src/MemoryStore.antt =====
-- src/auth/stores/memory-store.ts: sessions with expiry timers, the LRU order and the blacklist.
-- `Date.now()` is the argument `now`; a method answers with the new state, beside its result.
pub mod Data
pub mod Validity
pub mod Kept
pub mod Reach
pub mod Reads
pub mod Users
pub mod Devices
pub mod Bans
pub mod Expiry
use luoluo_auth.Common.{
  ℕ, ◌+◌, ◌*◌, String, Bool, true, false, ◌&&◌, Option, none, some, List, [], ◌∷◌, map, ltb, leb,
  nat_eq, if◌then◌else◌, or_number, get_or, is_some, ◌==◌,
}
use luoluo_auth.Common.JsMap
use luoluo_auth.Common.JsMap.{JsMap}
use luoluo_auth.Timers.{Timers, Timer, no_timers, schedule_expiry, clear_timeout, find_due}
use Data.{
  SessionData, StoreItem, BlacklistItem, Callback, expire_session, expire_ban, text_is,
  sort_by_create_time,
}

-- `Number.MAX_SAFE_INTEGER`
abbrev pub max_safe_integer : ℕ
max_safe_integer = 9007199254740991

pub record MemoryStore : Type 0 where
  pub store : JsMap StoreItem
  -- the least recently used key first
  pub lru : JsMap Bool
  -- 0 for no limit
  pub max_size : ℕ
  pub blacklist : JsMap BlacklistItem
  pub timers : Timers Callback

unfoldable pub new_store : Option ℕ → MemoryStore
new_store max_size = record {
  store = [];
  lru = [];
  max_size = or_number max_size 0;
  blacklist = [];
  timers = no_timers;
}

-- `ttl ? Date.now() + ttl : Number.MAX_SAFE_INTEGER`
abbrev pub expiry : ℕ → Option ℕ → ℕ
expiry now none = max_safe_integer
expiry now (some ttl) = if nat_eq ttl 0 then max_safe_integer else now + ttl

-- `clearTimeout(item.timer)`, where there is an item.
abbrev pub cancel : Timers Callback → Option StoreItem → Timers Callback
cancel ts none = ts
cancel ts (some item) = clear_timeout ts item.timer

unfoldable pub internal_delete : MemoryStore → String → MemoryStore
internal_delete s id = record s {
  store = JsMap.delete s.store id;
  lru = JsMap.delete s.lru id;
  timers = cancel s.timers (JsMap.get s.store id);
}

unfoldable pub touch_lru : MemoryStore → String → MemoryStore
touch_lru s id = record s { lru = JsMap.set (JsMap.delete s.lru id) id true }

-- The first key of the order, unless it is "", which is falsy.
abbrev pub victim : JsMap Bool → Option String
victim [] = none
victim ((first, _) ∷ _) = if first == "" then none else some first

unfoldable pub evict_if_needed : MemoryStore → MemoryStore
evict_if_needed s =
    if leb s.max_size 0
    then s
    else if leb (JsMap.size s.store) s.max_size
    then s
    else elim (victim s.lru) [ none ↦ s | some first ↦ internal_delete s first ]

-- The state between the `store.set` of `set` and the eviction.
unfoldable pub set_item : MemoryStore → ℕ → String → SessionData → Option ℕ → MemoryStore
set_item s now id session ttl =
    let cleared = cancel s.timers (JsMap.get s.store id) in
    let (timers, handle) = schedule_expiry cleared now (expire_session id) (expiry now ttl) in
    let item : StoreItem = record {
      session = session;
      expire_at = expiry now ttl;
      timer = handle;
    } in
    touch_lru (record s { store = JsMap.set s.store id item; timers = timers }) id

unfoldable pub set : MemoryStore → ℕ → String → SessionData → Option ℕ → MemoryStore
set s now id session ttl = evict_if_needed (set_item s now id session ttl)

unfoldable pub get : MemoryStore → ℕ → String → MemoryStore × Option SessionData
get s now id = elim (JsMap.get s.store id) [
  | none ↦ (s, none)
  | some item ↦
      if ltb item.expire_at now
      then (internal_delete s id, none)
      else (touch_lru s id, some item.session)
]

unfoldable pub delete : MemoryStore → String → MemoryStore
delete s id = internal_delete s id

-- The loop of `deleteByUserId`, over the entries as they stand at its start: it deletes no entry
-- but the one it is at.
unfoldable pub delete_owned : String → JsMap StoreItem → MemoryStore → MemoryStore
delete_owned user_id [] s = s
delete_owned user_id ((id, item) ∷ entries) s =
    delete_owned user_id entries
      (if item.session.user_id == user_id then internal_delete s id else s)

unfoldable pub delete_by_user_id : MemoryStore → String → MemoryStore
delete_by_user_id s user_id = delete_owned user_id s.store s

unfoldable pub owned_sessions : String → JsMap StoreItem → List SessionData
owned_sessions user_id [] = []
owned_sessions user_id ((id, item) ∷ entries) =
    if item.session.user_id == user_id
    then item.session ∷ owned_sessions user_id entries
    else owned_sessions user_id entries

unfoldable pub list_by_user_id : MemoryStore → String → List SessionData
list_by_user_id s user_id = owned_sessions user_id s.store

unfoldable pub ids_on_device : String → JsMap StoreItem → List String
ids_on_device device [] = []
ids_on_device device ((id, item) ∷ entries) =
    if text_is item.session.device device
    then id ∷ ids_on_device device entries
    else ids_on_device device entries

unfoldable pub list_by_device : MemoryStore → String → List String
list_by_device s device = ids_on_device device s.store

-- The pairs that `listByUserIdAndDevice` sorts: session id and creation time.
unfoldable pub ids_of : String → String → JsMap StoreItem → List (String × ℕ)
ids_of user_id device [] = []
ids_of user_id device ((id, item) ∷ entries) =
    if (item.session.user_id == user_id) && text_is item.session.device device
    then (id, item.session.create_time) ∷ ids_of user_id device entries
    else ids_of user_id device entries

unfoldable pub list_by_user_id_and_device : MemoryStore → String → String → List String
list_by_user_id_and_device s user_id device =
    map (λ p. p.0) (sort_by_create_time (ids_of user_id device s.store))

unfoldable pub renew : MemoryStore → ℕ → String → Option ℕ → MemoryStore
renew s now id ttl = elim (JsMap.get s.store id) [
  | none ↦ s
  | some item ↦
      let cleared = clear_timeout s.timers item.timer in
      let (timers, handle) = schedule_expiry cleared now (expire_session id) (expiry now ttl) in
      let item' = record item { expire_at = expiry now ttl; timer = handle } in
      touch_lru (record s { store = JsMap.set s.store id item'; timers = timers }) id
]

unfoldable pub clear_items : JsMap StoreItem → Timers Callback → Timers Callback
clear_items [] ts = ts
clear_items ((id, item) ∷ entries) ts = clear_items entries (clear_timeout ts item.timer)

unfoldable pub clear_bans : JsMap BlacklistItem → Timers Callback → Timers Callback
clear_bans [] ts = ts
clear_bans ((id, item) ∷ entries) ts = clear_bans entries (clear_timeout ts item.timer)

unfoldable pub clear : MemoryStore → MemoryStore
clear s = record s {
  store = [];
  lru = [];
  blacklist = [];
  timers = clear_bans s.blacklist (clear_items s.store s.timers);
}

abbrev pub size : MemoryStore → ℕ
size s = JsMap.size s.store

abbrev pub cancel_ban : Timers Callback → Option BlacklistItem → Timers Callback
cancel_ban ts none = ts
cancel_ban ts (some item) = clear_timeout ts item.timer

-- `duration` is in seconds.
unfoldable pub ban : MemoryStore → ℕ → String → ℕ → MemoryStore
ban s now user_id duration =
    let cleared = cancel_ban s.timers (JsMap.get s.blacklist user_id) in
    let expire_at = now + duration * 1000 in
    let (timers, handle) = schedule_expiry cleared now (expire_ban user_id) expire_at in
    let item : BlacklistItem = record { expire_at = expire_at; timer = handle } in
    record s { blacklist = JsMap.set s.blacklist user_id item; timers = timers }

unfoldable pub unban : MemoryStore → String → MemoryStore
unban s user_id = elim (JsMap.get s.blacklist user_id) [
  | none ↦ s
  | some item ↦ record s {
    blacklist = JsMap.delete s.blacklist user_id;
    timers = clear_timeout s.timers item.timer;
  }
]

unfoldable pub is_banned : MemoryStore → ℕ → String → MemoryStore × Bool
is_banned s now user_id = elim (JsMap.get s.blacklist user_id) [
  | none ↦ (s, false)
  | some item ↦
      if ltb item.expire_at now
      then (record s { blacklist = JsMap.delete s.blacklist user_id }, false)
      else (s, true)
]

-- The two callbacks that the store passes to `scheduleExpiry`.
unfoldable pub run_callback : MemoryStore → Callback → MemoryStore
run_callback s (expire_session id) = internal_delete s id
run_callback s (expire_ban user_id) = record s { blacklist = JsMap.delete s.blacklist user_id }

-- The function that `scheduleExpiry` hands to `setTimeout`: at its time it runs the callback,
-- before it the wait goes on, and nothing records the new handle.
unfoldable pub fire : MemoryStore → ℕ → ℕ → MemoryStore
fire s now handle = elim (find_due now handle s.timers.pending) [
  | none ↦ s
  | some t ↦
      let s' = record s { timers = clear_timeout s.timers handle } in
      if leb t.expire_at now
      then run_callback s' t.callback
      else record s' { timers = (schedule_expiry s'.timers now t.callback t.expire_at).0 }
]
