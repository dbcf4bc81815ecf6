-- ===== src/MemoryStore/Kept.antt =====
-- `get`, `renew`, `deleteByUserId`, `clear` and a new store: the rest of the session store keeps its
-- invariant.
use luoluo_auth.Common.{
  ℕ, ◌≤◌, ◌<◌, String, ◌≡◌, ◌≢◌, inl, inr, refl, ap, true, Option, none, some, [], ◌∷◌, ◌==◌, arith,
  Option-cases, Bool-cases,
}
use native.Mathlib.Decide.{dec_lt}
use luoluo_auth.Common.JsMap
use luoluo_auth.Common.JsMap.{JsMap}
use luoluo_auth.MemoryStore
use luoluo_auth.MemoryStore.{
  MemoryStore, size, victim, touch_lru, internal_delete, evict_if_needed, set_item,
}
use luoluo_auth.MemoryStore.Data.{StoreItem}
use luoluo_auth.MemoryStore.Validity.{
  HasSameKeys, IsValid, internal_delete-IsValid, put_touch-HasSameKeys, touch_lru-HasSameKeys,
  put_touch-IsBounded,
}

module _ (s : MemoryStore) (now : ℕ) (id : String) where
  get_absent : JsMap.get s.store id ≡ none → MemoryStore.get s now id ≡ (s, none)
  unfolding MemoryStore.get
  get_absent e = rw (e, MemoryStore.get)

  get_late :
      {item : StoreItem}
      → JsMap.get s.store id ≡ some item
      → item.expire_at < now
      → MemoryStore.get s now id ≡ (internal_delete s id, none)
  unfolding MemoryStore.get
  get_late e late = rw (e, MemoryStore.get) (ground arith)

  get_live :
      {item : StoreItem}
      → JsMap.get s.store id ≡ some item
      → now ≤ item.expire_at
      → MemoryStore.get s now id ≡ (touch_lru s id, some item.session)
  unfolding MemoryStore.get
  get_live e live = rw (e, MemoryStore.get) (ground arith)

pub get-IsValid :
    (s : MemoryStore) (now : ℕ) (id : String) → IsValid s → IsValid (MemoryStore.get s now id).0
get-IsValid s now id h = elim (Option-cases (JsMap.get s.store id)) [
  | inl missing ↦ rw (get_absent s now id missing) h
  | inr (item, found) ↦ elim (dec_lt item.expire_at now) [
    | yes late ↦ rw (get_late s now id found late) (internal_delete-IsValid s id h)
    | no live ↦ rw (get_live s now id found (omega arith)) (record {
      aligned = touch_lru-HasSameKeys s id (unfold JsMap.has in rw found) h.aligned;
      bounded = unfold touch_lru in h.bounded;
    })
  ]
]

present-ne-empty :
    (s : MemoryStore) (id : String) → HasSameKeys s → JsMap.has s.store id ≡ true → id ≢ ""
present-ne-empty s id h present e = cc (h.named, ap (λ k. JsMap.has s.store k) e, present)

pub renew-IsValid :
    (s : MemoryStore) (now : ℕ) (id : String) (ttl : Option ℕ)
    → IsValid s
    → IsValid (MemoryStore.renew s now id ttl)
unfolding MemoryStore.renew
renew-IsValid s now id ttl h = elim (Option-cases (JsMap.get s.store id)) [
  | inl missing ↦ rw (missing, MemoryStore.renew) h
  | inr (item, found) ↦
      let present : JsMap.has s.store id ≡ true = unfold JsMap.has in rw found in
      rw (found, MemoryStore.renew)
        (record {
          aligned =
              put_touch-HasSameKeys s _ id _ (present-ne-empty s id h.aligned present) h.aligned;
          bounded = put_touch-IsBounded s _ id _ present h.bounded;
        })
]

delete_owned-IsValid :
    (user_id : String) (entries : JsMap StoreItem) (s : MemoryStore)
    → IsValid s
    → IsValid (MemoryStore.delete_owned user_id entries s)
unfolding MemoryStore.delete_owned
delete_owned-IsValid user_id [] s h = h
delete_owned-IsValid user_id ((id, item) ∷ entries) s h =
    elim (Bool-cases (item.session.user_id == user_id)) [
      | inl e ↦ rw e (
          delete_owned-IsValid user_id entries (internal_delete s id)
            (internal_delete-IsValid s id h))
      | inr e ↦ rw e (delete_owned-IsValid user_id entries s h)
    ]

pub delete_by_user_id-IsValid :
    (s : MemoryStore) (user_id : String)
    → IsValid s
    → IsValid (MemoryStore.delete_by_user_id s user_id)
unfolding MemoryStore.delete_by_user_id
delete_by_user_id-IsValid s user_id h = delete_owned-IsValid user_id s.store s h

pub clear-IsValid : (s : MemoryStore) → IsValid (MemoryStore.clear s)
unfolding MemoryStore.clear JsMap.has JsMap.get
clear-IsValid s = record {
  aligned = record { unique_store = tt; unique_lru = tt; same = λ k. refl; named = refl };
  bounded = inr (omega arith);
}

pub new_store-IsValid : (max_size : Option ℕ) → IsValid (MemoryStore.new_store max_size)
unfolding MemoryStore.new_store JsMap.has JsMap.get
new_store-IsValid max_size = record {
  aligned = record { unique_store = tt; unique_lru = tt; same = λ k. refl; named = refl };
  bounded = inr (omega arith);
}

-- The blacklist and the timers are no part of the invariant.
pub IsValid-same :
    (s s' : MemoryStore)
    → s'.store ≡ s.store
    → s'.lru ≡ s.lru
    → s'.max_size ≡ s.max_size
    → IsValid s
    → IsValid s'
IsValid-same s s' e f g h = record {
  aligned = record {
    unique_store = rw e h.aligned.unique_store;
    unique_lru = rw f h.aligned.unique_lru;
    same = λ k. rw (e, f) (h.aligned.same k);
    named = rw e h.aligned.named;
  };
  bounded = rw (e, g) h.bounded;
}
