-- ===== src/MemoryStore/Validity.antt =====
-- The invariant of the session store, and that removals, `set` and the eviction keep it.
use luoluo_auth.Common.{
  ℕ, ◌+◌, ◌≤◌, ◌<◌, String, ◌≡◌, ◌≢◌, ◌⊎◌, inl, inr, Bool, true, false, Option, some, [], ◌∷◌, leb,
  arith, eq_iff, Bool-cases,
}
use luoluo_auth.Common.JsMap
use luoluo_auth.Common.JsMap.{JsMap}
use luoluo_auth.Timers.{Timers}
use luoluo_auth.MemoryStore
use luoluo_auth.MemoryStore.{
  MemoryStore, size, victim, touch_lru, internal_delete, evict_if_needed, set_item,
}
use luoluo_auth.MemoryStore.Data.{SessionData, StoreItem, Callback}

-- The session map and the LRU order hold the same keys, each once, and no key is "".
pub record HasSameKeys (s : MemoryStore) : Type 0 where
  pub unique_store : JsMap.IsUnique s.store
  pub unique_lru : JsMap.IsUnique s.lru
  pub same : (k : String) → JsMap.has s.store k ≡ JsMap.has s.lru k
  pub named : JsMap.has s.store "" ≡ false

abbrev pub IsBounded : MemoryStore → Type 0
IsBounded s = (s.max_size ≡ 0) ⊎ (size s ≤ s.max_size)

pub record IsValid (s : MemoryStore) : Type 0 where
  pub aligned : HasSameKeys s
  pub bounded : IsBounded s

internal_delete-HasSameKeys :
    (s : MemoryStore) (id : String) → HasSameKeys s → HasSameKeys (internal_delete s id)
unfolding internal_delete
internal_delete-HasSameKeys s id h = record {
  unique_store = JsMap.delete-IsUnique s.store id h.unique_store;
  unique_lru = JsMap.delete-IsUnique s.lru id h.unique_lru;
  same = λ k. ground (arith, h.same k, JsMap.has-delete s.store id k, JsMap.has-delete s.lru id k);
  named = ground (arith, h.named, JsMap.has-delete s.store id "");
}

pub internal_delete-IsValid :
    (s : MemoryStore) (id : String) → IsValid s → IsValid (internal_delete s id)
internal_delete-IsValid s id h = record {
  aligned = internal_delete-HasSameKeys s id h.aligned;
  bounded = unfold internal_delete in ground (arith, h.bounded, JsMap.size-delete-le s.store id);
}

-- An entry is written and its key becomes the most recently used one.
pub put_touch-HasSameKeys :
    (s : MemoryStore) (ts : Timers Callback) (id : String) (item : StoreItem)
    → id ≢ ""
    → HasSameKeys s
    → HasSameKeys (touch_lru (record s { store = JsMap.set s.store id item; timers = ts }) id)
unfolding touch_lru
put_touch-HasSameKeys s ts id item ne h = record {
  unique_store = JsMap.set-IsUnique s.store id item h.unique_store;
  unique_lru =
      JsMap.set-IsUnique (JsMap.delete s.lru id) id true
        (JsMap.delete-IsUnique s.lru id h.unique_lru);
  same = λ k. ground (
    arith,
    h.same k,
    JsMap.has-set s.store id item k,
    JsMap.has-set (JsMap.delete s.lru id) id true k,
    JsMap.has-delete s.lru id k,
  );
  named = ground (arith, h.named, JsMap.has-set s.store id item "", eq_iff id "");
}

pub touch_lru-HasSameKeys :
    (s : MemoryStore) (id : String)
    → JsMap.has s.store id ≡ true
    → HasSameKeys s
    → HasSameKeys (touch_lru s id)
unfolding touch_lru
touch_lru-HasSameKeys s id present h = record {
  unique_store = h.unique_store;
  unique_lru =
      JsMap.set-IsUnique (JsMap.delete s.lru id) id true
        (JsMap.delete-IsUnique s.lru id h.unique_lru);
  same = λ k. ground (
    arith,
    h.same k,
    h.same id,
    eq_iff id k,
    JsMap.has-set (JsMap.delete s.lru id) id true k,
    JsMap.has-delete s.lru id k,
  );
  named = h.named;
}

-- A store that holds something has a victim, and the victim is in it.
victim_from :
    (store : JsMap StoreItem) (lru : JsMap Bool)
    → ((k : String) → JsMap.has store k ≡ JsMap.has lru k)
    → JsMap.has store "" ≡ false
    → 0 < JsMap.size store
    → (f : String) × (victim lru ≡ some f) × (JsMap.has store f ≡ true)
unfolding JsMap.has JsMap.get
victim_from [] lru same named h = absurd (omega arith)
victim_from ((k, item) ∷ store) [] same named h = absurd (ground (arith, same k, eq_iff k k))
victim_from ((k, item) ∷ store) ((f, b) ∷ lru) same named h = (
  f,
  ground (arith, same f, eq_iff f f, eq_iff f "", eq_iff k f, eq_iff k ""),
  ground (arith, same f, eq_iff f f),
)

victim_exists :
    (s : MemoryStore)
    → HasSameKeys s
    → 0 < size s
    → (f : String) × (victim s.lru ≡ some f) × (JsMap.has s.store f ≡ true)
victim_exists s h p = victim_from s.store s.lru h.same h.named p

evict_if_needed-IsValid :
    (s : MemoryStore)
    → HasSameKeys s
    → (s.max_size ≡ 0) ⊎ (size s ≤ s.max_size + 1)
    → IsValid (evict_if_needed s)
unfolding evict_if_needed
evict_if_needed-IsValid s h b = elim (Bool-cases (leb s.max_size 0)) [
  | inl none_set ↦ rw none_set (record { aligned = h; bounded = inl (ground arith) })
  | inr limited ↦ rw limited (elim (Bool-cases (leb (size s) s.max_size)) [
    | inl fits ↦ rw fits (record { aligned = h; bounded = inr (ground arith) })
    | inr full ↦
        let (f, chosen, present) = victim_exists s h (ground arith) in
        rw (full, chosen)
          (record {
            aligned = internal_delete-HasSameKeys s f h;
            bounded =
                unfold internal_delete in
                inr (ground (arith, JsMap.size-delete_present s.store f h.unique_store present));
          })
  ])
]

module _ (s : MemoryStore) (ts : Timers Callback) (id : String) (item : StoreItem) where
  abbrev pub put_touch : MemoryStore
  put_touch = touch_lru (record s { store = JsMap.set s.store id item; timers = ts }) id

  put_touch-size :
      IsBounded s → (put_touch.max_size ≡ 0) ⊎ (size put_touch ≤ put_touch.max_size + 1)
  unfolding touch_lru
  put_touch-size b = ground (arith, JsMap.size-set-le s.store id item)

  pub put_touch-IsBounded : JsMap.has s.store id ≡ true → IsBounded s → IsBounded put_touch
  unfolding touch_lru
  put_touch-IsBounded present b = ground (arith, JsMap.size-set_present s.store id item present)

pub set_item-HasSameKeys :
    (s : MemoryStore) (now : ℕ) (id : String) (session : SessionData) (ttl : Option ℕ)
    → id ≢ ""
    → HasSameKeys s
    → HasSameKeys (set_item s now id session ttl)
unfolding set_item
set_item-HasSameKeys s now id session ttl ne h = put_touch-HasSameKeys s _ id _ ne h

pub set-IsValid :
    (s : MemoryStore) (now : ℕ) (id : String) (session : SessionData) (ttl : Option ℕ)
    → id ≢ ""
    → IsValid s
    → IsValid (MemoryStore.set s now id session ttl)
unfolding MemoryStore.set set_item
set-IsValid s now id session ttl ne h =
    evict_if_needed-IsValid _ (put_touch-HasSameKeys s _ id _ ne h.aligned)
      (put_touch-size s _ id _ h.bounded)
