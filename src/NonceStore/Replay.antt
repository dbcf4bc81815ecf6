-- ===== src/NonceStore/Replay.antt =====
-- What the nonce store remembers, and that it answers `true` once in the life of a nonce.
use luoluo_auth.Common.{
  ℕ, ◌+◌, ◌≤◌, ◌<◌, String, ◌≡◌, inl, inr, refl, Bool, false, not, ◌&&◌, Option, none, some, [],
  ◌∷◌, if◌then◌else◌, ltb, leb, ◌==◌, arith, eq_iff, eq_refl, Bool-cases,
}
use luoluo_auth.Common.JsMap
use luoluo_auth.Common.JsMap.{JsMap}
use luoluo_auth.MemoryStore.Data.{text_is}
use luoluo_auth.NonceStore.{
  MemoryNonceStore, drop_expired, drop_first, evict_expired, make_room, set_if_absent,
}

-- The entry that makes room in a full store.
abbrev pub oldest : JsMap ℕ → Option String
oldest [] = none
oldest ((nonce, _) ∷ records) = some nonce

-- An expiry that has not passed.
abbrev pub current : ℕ → Option ℕ → Bool
current now none = false
current now (some expire_at) = ltb now expire_at

-- Whether the store still knows the nonce at a time.
abbrev pub knows : MemoryNonceStore → ℕ → String → Bool
knows s now nonce = current now (JsMap.get s.records nonce)

pub record IsValid (s : MemoryNonceStore) : Type 0 where
  pub unique : JsMap.IsUnique s.records
  pub room : 0 < s.max_size
  pub bounded : JsMap.size s.records ≤ s.max_size

get-drop_expired :
    (now : ℕ) (m : JsMap ℕ) (k : String)
    → JsMap.IsUnique m
    → JsMap.get (drop_expired now m) k
      ≡ (if current now (JsMap.get m k) then JsMap.get m k else none)
unfolding drop_expired JsMap.get
get-drop_expired now [] k u = refl
get-drop_expired now ((j, e) ∷ m) k u = ground (arith, eq_iff j k, get-drop_expired now m k u.1)

drop_expired-IsUnique :
    (now : ℕ) (m : JsMap ℕ) → JsMap.IsUnique m → JsMap.IsUnique (drop_expired now m)
unfolding drop_expired
drop_expired-IsUnique now [] u = tt
drop_expired-IsUnique now ((j, e) ∷ m) u =
    ground (arith, get-drop_expired now m j u.1, drop_expired-IsUnique now m u.1)

size-drop_expired-le : (now : ℕ) (m : JsMap ℕ) → JsMap.size (drop_expired now m) ≤ JsMap.size m
unfolding drop_expired
size-drop_expired-le now [] = omega arith
size-drop_expired-le now ((j, e) ∷ m) = ground (arith, size-drop_expired-le now m)

drop_first-IsUnique : (m : JsMap ℕ) → JsMap.IsUnique m → JsMap.IsUnique (drop_first m)
unfolding drop_first
drop_first-IsUnique [] u = tt
drop_first-IsUnique ((j, e) ∷ m) u = JsMap.delete-IsUnique ((j, e) ∷ m) j u

size-drop_first :
    (m : JsMap ℕ)
    → JsMap.IsUnique m
    → 0 < JsMap.size m
    → JsMap.size (drop_first m) + 1 ≡ JsMap.size m
unfolding drop_first
size-drop_first [] u h = omega arith
size-drop_first ((j, e) ∷ m) u h =
    JsMap.size-delete_present ((j, e) ∷ m) j u (unfold JsMap.has JsMap.get in rw eq_refl)

get-drop_first :
    (m : JsMap ℕ) (k : String)
    → JsMap.get (drop_first m) k ≡ (if text_is (oldest m) k then none else JsMap.get m k)
unfolding drop_first
get-drop_first [] k = refl
get-drop_first ((j, e) ∷ m) k = JsMap.get-delete ((j, e) ∷ m) j k

evict_expired-IsValid : (s : MemoryNonceStore) (now : ℕ) → IsValid s → IsValid (evict_expired s now)
unfolding evict_expired
evict_expired-IsValid s now h = record {
  unique = drop_expired-IsUnique now s.records h.unique;
  room = h.room;
  bounded = omega (arith, size-drop_expired-le now s.records, h.bounded);
}

make_room-IsUnique : (s : MemoryNonceStore) → IsValid s → JsMap.IsUnique (make_room s)
unfolding make_room
make_room-IsUnique s h = elim (Bool-cases (leb s.max_size (JsMap.size s.records))) [
  | inl e ↦ rw e (drop_first-IsUnique s.records h.unique)
  | inr e ↦ rw e h.unique
]

size-make_room : (s : MemoryNonceStore) → IsValid s → JsMap.size (make_room s) < s.max_size
unfolding make_room
size-make_room s h = ground (arith, h.room, h.bounded, size-drop_first s.records h.unique)

put-IsValid :
    (s : MemoryNonceStore) (nonce : String) (expire_at : ℕ)
    → IsValid s
    → IsValid (record s { records = JsMap.set (make_room s) nonce expire_at })
put-IsValid s nonce expire_at h = record {
  unique = JsMap.set-IsUnique (make_room s) nonce expire_at (make_room-IsUnique s h);
  room = h.room;
  bounded = omega (arith, JsMap.size-set-le (make_room s) nonce expire_at, size-make_room s h);
}

pub set_if_absent-IsValid :
    (s : MemoryNonceStore) (now : ℕ) (nonce : String) (ttl : ℕ)
    → IsValid s
    → IsValid (set_if_absent s now nonce ttl).0
unfolding set_if_absent
set_if_absent-IsValid s now nonce ttl h =
    let s' = evict_expired s now in
    let h' = evict_expired-IsValid s now h in
    elim (Bool-cases (JsMap.has s'.records nonce)) [
      | inl e ↦ rw (e, set_if_absent) h'
      | inr e ↦ rw (e, set_if_absent) (put-IsValid s' nonce (now + ttl) h')
    ]

-- A valid nonce store accepts a nonce exactly if it does not know it.
pub set_if_absent-knows :
    (s : MemoryNonceStore) (now : ℕ) (nonce : String) (ttl : ℕ)
    → IsValid s
    → (set_if_absent s now nonce ttl).1 ≡ not (knows s now nonce)
unfolding set_if_absent JsMap.has
set_if_absent-knows s now nonce ttl h =
    ground (arith, get-drop_expired now s.records nonce h.unique)

-- What a call forgets: the first entry, if it adds one to a full store.
unfoldable pub forgotten : MemoryNonceStore → ℕ → String → Option String
forgotten s now nonce =
    let s' = evict_expired s now in
    if JsMap.has s'.records nonce
    then none
    else if leb s.max_size (JsMap.size s'.records)
    then oldest s'.records
    else none

get-make_room :
    (s : MemoryNonceStore) (k : String)
    → JsMap.get (make_room s) k ≡ (
        if leb s.max_size (JsMap.size s.records)
        then if text_is (oldest s.records) k then none else JsMap.get s.records k
        else JsMap.get s.records k)
unfolding make_room
get-make_room s k = elim (Bool-cases (leb s.max_size (JsMap.size s.records))) [
  | inl e ↦ rw e (get-drop_first s.records k)
  | inr e ↦ rw e
]

-- What a setIfAbsent call on a valid store leaves known at a later time: its own nonce, if it is
-- accepted, until its expiry; and what was known, but for the entry that had to make room.
pub knows-set_if_absent :
    (s : MemoryNonceStore) (now later : ℕ) (nonce k : String) (ttl : ℕ)
    → IsValid s
    → now ≤ later
    → knows (set_if_absent s now nonce ttl).0 later k ≡ (
        if (nonce == k) && (set_if_absent s now nonce ttl).1
        then ltb later (now + ttl)
        else if text_is (forgotten s now nonce) k
        then false
        else knows s later k)
unfolding set_if_absent forgotten evict_expired JsMap.has
knows-set_if_absent s now later nonce k ttl h le =
    let s' = evict_expired s now in
    ground (
      arith,
      eq_iff nonce k,
      get-drop_expired now s.records k h.unique,
      get-drop_expired now s.records nonce h.unique,
      JsMap.get-set (make_room s') nonce (now + ttl) k,
      get-make_room s' k,
    )
