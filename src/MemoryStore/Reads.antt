-- ===== src/MemoryStore/Reads.antt =====
-- What can be read from the session store after an operation, and which session an insertion evicts.
use luoluo_auth.Common.{
  ℕ, ◌≤◌, String, ◌≡◌, ◌≢◌, inl, inr, refl, Bool, true, ◌&&◌, not, Option, none, some, [], ◌∷◌, ltb,
  leb, if◌then◌else◌, is_some, ◌==◌, arith, eq_iff, Option-cases,
}
use luoluo_auth.Common.JsMap
use luoluo_auth.Common.JsMap.{JsMap}
use luoluo_auth.MemoryStore
use luoluo_auth.MemoryStore.{
  MemoryStore, size, victim, expiry, touch_lru, internal_delete, evict_if_needed, set_item,
  delete_owned,
}
use luoluo_auth.MemoryStore.Data.{SessionData, StoreItem, text_is, text_is_iff}
use luoluo_auth.MemoryStore.Validity.{IsValid, set_item-HasSameKeys}

-- The key that `evictIfNeeded` removes, if any.
unfoldable pub evicted : MemoryStore → Option String
evicted s =
    if leb s.max_size 0 then none else if leb (size s) s.max_size then none else victim s.lru

get-evict_if_needed :
    (s : MemoryStore) (k : String)
    → JsMap.get (evict_if_needed s).store k
      ≡ (if text_is (evicted s) k then none else JsMap.get s.store k)
unfolding evict_if_needed evicted internal_delete
get-evict_if_needed s k = elim (Option-cases (victim s.lru)) [
  | inl e ↦ ground arith
  | inr (f, e) ↦ ground (arith, JsMap.get-delete s.store f k)
]

-- A map that holds one key at most has one entry at most.
size-le-one :
    (m : JsMap StoreItem) (id : String)
    → JsMap.IsUnique m
    → ((k : String) → JsMap.has m k ≡ true → id ≡ k)
    → JsMap.size m ≤ 1
unfolding JsMap.has JsMap.get
size-le-one [] id u h = omega arith
size-le-one ((k, v) ∷ []) id u h = omega arith
size-le-one ((k, v) ∷ (j, w) ∷ m) id u h =
    absurd (ground (arith, h k, h j, eq_iff k k, eq_iff j j, eq_iff k j, eq_iff j k, u.0))

-- The key that was touched last is not at the head of the order, unless it stands alone.
victim-touched :
    (rest : JsMap Bool) (id : String)
    → JsMap.get rest id ≡ none
    → victim (JsMap.set rest id true) ≡ some id
    → rest ≡ []
unfolding JsMap.set JsMap.get
victim-touched [] id h e = refl
victim-touched ((f, b) ∷ rest) id h e = absurd (ground (arith, eq_iff f id, eq_iff f ""))

single_key : (id k : String) → JsMap.has (JsMap.set [] id true) k ≡ true → id ≡ k
unfolding JsMap.set JsMap.has JsMap.get
single_key id k h = ground (arith, eq_iff id k)

-- A session and its expiry as the map holds them.
abbrev pub view : Option StoreItem → Option (SessionData × ℕ)
view none = none
view (some item) = some (item.session, item.expire_at)

abbrev pub stored : MemoryStore → String → Option (SessionData × ℕ)
stored s k = view (JsMap.get s.store k)

-- What `get` answers, from what is stored.
abbrev pub unexpired : ℕ → Option (SessionData × ℕ) → Option SessionData
unexpired now none = none
unexpired now (some (session, expire_at)) = if ltb expire_at now then none else some session

pub get-unexpired :
    (s : MemoryStore) (now : ℕ) (id : String)
    → (MemoryStore.get s now id).1 ≡ unexpired now (stored s id)
unfolding MemoryStore.get
get-unexpired s now id = ground arith

module _ (s : MemoryStore) (now : ℕ) (id : String) (session : SessionData) (ttl : Option ℕ) where
  set_item-lru : (set_item s now id session ttl).lru ≡ JsMap.set (JsMap.delete s.lru id) id true
  unfolding set_item touch_lru
  set_item-lru = refl

  stored-set_item :
      (k : String)
      → stored (set_item s now id session ttl) k
        ≡ (if id == k then some (session, expiry now ttl) else stored s k)
  unfolding set_item touch_lru
  stored-set_item k = rw (JsMap.get-set s.store id _ k) (ground arith)

  -- The session that is stored is never the one that is evicted.
  evicted-ne_self : id ≢ "" → IsValid s → evicted (set_item s now id session ttl) ≢ some id
  unfolding evicted
  evicted-ne_self ne h e =
      let x = set_item s now id session ttl in
      let hx = set_item-HasSameKeys s now id session ttl ne h.aligned in
      let first : victim x.lru ≡ some id = ground arith in
      let rest_gone : JsMap.get (JsMap.delete s.lru id) id ≡ none =
        ground (arith, JsMap.get-delete s.lru id id, eq_iff id id) in
      let alone = victim-touched (JsMap.delete s.lru id) id rest_gone (rw set_item-lru at first) in
      let small : size x ≤ 1 =
        size-le-one x.store id hx.unique_store
          (λ k present. single_key id k (rw (hx.same k, set_item-lru, alone) at present)) in
      ground arith

  -- After set with an id that is not empty on a valid store, the new session is there, the
  -- evicted one is not, and all others are as they were.
  pub stored-set :
      id ≢ ""
      → IsValid s
      → (k : String)
      → stored (MemoryStore.set s now id session ttl) k ≡ (
          if id == k
          then some (session, expiry now ttl)
          else if text_is (evicted (set_item s now id session ttl)) k
          then none
          else stored s k)
  unfolding MemoryStore.set
  stored-set ne h k =
      let x = set_item s now id session ttl in
      let survives = evicted-ne_self ne h in
      rw (get-evict_if_needed x k)
        (ground (arith, stored-set_item k, survives, text_is_iff (evicted x) k, eq_iff id k))

-- A session that was just stored under an id that is not empty in a valid store is read back
-- until it expires, whatever the limit.
pub get-set_self :
    (s : MemoryStore) (now later : ℕ) (id : String) (session : SessionData) (ttl : Option ℕ)
    → id ≢ ""
    → IsValid s
    → (MemoryStore.get (MemoryStore.set s now id session ttl) later id).1
      ≡ (if ltb (expiry now ttl) later then none else some session)
get-set_self s now later id session ttl ne h =
    rw (get-unexpired, stored-set s now id session ttl ne h id) (ground (arith, eq_iff id id))

-- After `delete` a session is gone, and every other one is as it was.
pub stored-delete :
    (s : MemoryStore) (id k : String)
    → stored (MemoryStore.delete s id) k ≡ (if id == k then none else stored s k)
unfolding MemoryStore.delete internal_delete
stored-delete s id k = ground (arith, JsMap.get-delete s.store id k)

-- get changes nothing of what is stored, but for the removal of the session it was asked for
-- when it answers none.
pub stored-get :
    (s : MemoryStore) (now : ℕ) (id k : String)
    → stored (MemoryStore.get s now id).0 k
      ≡ (if (id == k) && not (is_some (MemoryStore.get s now id).1) then none else stored s k)
unfolding MemoryStore.get internal_delete touch_lru
stored-get s now id k = ground (arith, eq_iff id k, JsMap.get-delete s.store id k)

abbrev pub with_expiry : ℕ → Option (SessionData × ℕ) → Option (SessionData × ℕ)
with_expiry expire_at none = none
with_expiry expire_at (some (session, _)) = some (session, expire_at)

-- renew moves the expiry of a session that is there, and nothing else.
pub stored-renew :
    (s : MemoryStore) (now : ℕ) (id : String) (ttl : Option ℕ) (k : String)
    → stored (MemoryStore.renew s now id ttl) k
      ≡ (if id == k then with_expiry (expiry now ttl) (stored s id) else stored s k)
unfolding MemoryStore.renew touch_lru
stored-renew s now id ttl k = elim (Option-cases (JsMap.get s.store id)) [
  | inl e ↦ rw (e, MemoryStore.renew) (ground (arith, eq_iff id k))
  | inr (item, e) ↦
      rw (e, MemoryStore.renew) (rw (JsMap.get-set s.store id _ k) (ground (arith, eq_iff id k)))
]
