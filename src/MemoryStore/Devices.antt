-- ===== src/MemoryStore/Devices.antt =====
-- The sessions of a user on a device, the oldest first: `listByUserIdAndDevice`.
use luoluo_auth.Common.{
  ℕ, ◌≤◌, String, ◌≡◌, inl, inr, refl, ◌∙◌, Bool, true, false, ◌&&◌, Option, none, some, List, [],
  ◌∷◌, leb, ◌==◌, arith, eq_iff, eq_refl, Bool-cases, map, includes, All,
}
use luoluo_auth.Common.JsMap
use luoluo_auth.Common.JsMap.{JsMap}
use luoluo_auth.MemoryStore
use luoluo_auth.MemoryStore.{MemoryStore, delete_owned, owned_sessions, internal_delete, ids_of}
use luoluo_auth.MemoryStore.Data.{StoreItem, text_is, insert_by_create_time, sort_by_create_time}

-- Whether the item is a session of the user on the device.
abbrev pub belongs : String → String → Option StoreItem → Bool
belongs user device none = false
belongs user device (some item) =
    (item.session.user_id == user) && text_is item.session.device device

abbrev ids : List (String × ℕ) → List String
ids = map (λ p. p.0)

includes-insert :
    (p : String × ℕ) (ps : List (String × ℕ)) (k : String)
    → includes (ids (insert_by_create_time p ps)) k ≡ includes (ids (p ∷ ps)) k
unfolding insert_by_create_time
includes-insert p [] k = refl
includes-insert p (q ∷ ps) k = ground (arith, includes-insert p ps k)

includes-sort :
    (ps : List (String × ℕ)) (k : String)
    → includes (ids (sort_by_create_time ps)) k ≡ includes (ids ps) k
unfolding sort_by_create_time
includes-sort [] k = refl
includes-sort (p ∷ ps) k =
    includes-insert p (sort_by_create_time ps) k ∙ ground (arith, includes-sort ps k)

includes-ids_of :
    (user device : String) (m : JsMap StoreItem) (k : String)
    → JsMap.IsUnique m
    → includes (ids (ids_of user device m)) k ≡ belongs user device (JsMap.get m k)
unfolding ids_of JsMap.get
includes-ids_of user device [] k u = refl
includes-ids_of user device ((id, item) ∷ m) k u =
    ground (
      arith,
      eq_iff id k,
      includes-ids_of user device m k u.1,
      includes-ids_of user device m id u.1,
    )

-- On a map without repeated keys, listByUserIdAndDevice has exactly the ids of the sessions of
-- the user on the device.
pub list_by_user_id_and_device-belongs :
    (s : MemoryStore) (user device k : String)
    → JsMap.IsUnique s.store
    → includes (MemoryStore.list_by_user_id_and_device s user device) k
      ≡ belongs user device (JsMap.get s.store k)
unfolding MemoryStore.list_by_user_id_and_device
list_by_user_id_and_device-belongs s user device k u =
    includes-sort (ids_of user device s.store) k ∙ includes-ids_of user device s.store k u

-- The creation time of the session under a key, 0 if there is none.
abbrev pub created : Option StoreItem → ℕ
created none = 0
created (some item) = item.session.create_time

abbrev pub IsAscending : List ℕ → Type 0
IsAscending [] = Unit
IsAscending (x ∷ xs) = All (λ y. x ≤ y) xs × IsAscending xs

abbrev HasTime : JsMap StoreItem → String × ℕ → Type 0
HasTime m p = (JsMap.has m p.0 ≡ true) × (created (JsMap.get m p.0) ≡ p.1)

All-insert {κ} :
    (P : String × ℕ → Type κ) (p : String × ℕ) (ps : List (String × ℕ))
    → P p
    → All P ps
    → All P (insert_by_create_time p ps)
unfolding insert_by_create_time
All-insert P p [] h hs = (h, tt)
All-insert P p (q ∷ ps) h hs = elim (Bool-cases (leb p.1 q.1)) [
  | inl e ↦ rw e (h, hs)
  | inr e ↦ rw e (hs.0, All-insert P p ps h hs.1)
]

All-sort {κ} :
    (P : String × ℕ → Type κ) (ps : List (String × ℕ)) → All P ps → All P (sort_by_create_time ps)
unfolding sort_by_create_time
All-sort P [] h = tt
All-sort P (p ∷ ps) h = All-insert P p (sort_by_create_time ps) h.0 (All-sort P ps h.1)

abbrev IsSorted : List (String × ℕ) → Type 0
IsSorted [] = Unit
IsSorted (p ∷ ps) = All (λ q. p.1 ≤ q.1) ps × IsSorted ps

All-le : (m n : ℕ) (ps : List (String × ℕ)) → m ≤ n → All (λ q. n ≤ q.1) ps → All (λ q. m ≤ q.1) ps
All-le m n [] h hs = tt
All-le m n (q ∷ ps) h hs = (omega (arith, hs.0), All-le m n ps h hs.1)

insert-IsSorted :
    (p : String × ℕ) (ps : List (String × ℕ)) → IsSorted ps → IsSorted (insert_by_create_time p ps)
unfolding insert_by_create_time
insert-IsSorted p [] h = (tt, tt)
insert-IsSorted p (q ∷ ps) h = elim (Bool-cases (leb p.1 q.1)) [
  | inl e ↦ rw e ((ground arith, All-le p.1 q.1 ps (ground arith) h.0), h)
  | inr e ↦ rw e (All-insert (λ r. q.1 ≤ r.1) p ps (ground arith) h.0, insert-IsSorted p ps h.1)
]

sort-IsSorted : (ps : List (String × ℕ)) → IsSorted (sort_by_create_time ps)
unfolding sort_by_create_time
sort-IsSorted [] = tt
sort-IsSorted (p ∷ ps) = insert-IsSorted p (sort_by_create_time ps) (sort-IsSorted ps)

HasTime-cons :
    (id : String) (item : StoreItem) (m : JsMap StoreItem) (ps : List (String × ℕ))
    → JsMap.get m id ≡ none
    → All (HasTime m) ps
    → All (HasTime ((id, item) ∷ m)) ps
unfolding JsMap.has JsMap.get
HasTime-cons id item m [] fresh h = tt
HasTime-cons id item m ((k, time) ∷ ps) fresh h = (
  (ground (arith, h.0, eq_iff id k), ground (arith, h.0, eq_iff id k)),
  HasTime-cons id item m ps fresh h.1,
)

HasTime-head :
    (id : String) (item : StoreItem) (m : JsMap StoreItem)
    → HasTime ((id, item) ∷ m) (id, item.session.create_time)
unfolding JsMap.has JsMap.get
HasTime-head id item m = (rw eq_refl, rw eq_refl)

HasTime-ids_of :
    (user device : String) (m : JsMap StoreItem)
    → JsMap.IsUnique m
    → All (HasTime m) (ids_of user device m)
unfolding ids_of
HasTime-ids_of user device [] u = tt
HasTime-ids_of user device ((id, item) ∷ m) u =
    let later =
      HasTime-cons id item m (ids_of user device m) u.0 (HasTime-ids_of user device m u.1) in
    elim (Bool-cases ((item.session.user_id == user) && text_is item.session.device device)) [
      | inl e ↦ rw e (HasTime-head id item m, later)
      | inr e ↦ rw e later
    ]

All-creation :
    (m : JsMap StoreItem) (n : ℕ) (ps : List (String × ℕ))
    → All (HasTime m) ps
    → All (λ q. n ≤ q.1) ps
    → All (λ y. n ≤ y) (map (λ k. created (JsMap.get m k)) (ids ps))
All-creation m n [] h s = tt
All-creation m n (p ∷ ps) h s = (rw h.0.1 s.0, All-creation m n ps h.1 s.1)

creation_times-IsAscending :
    (m : JsMap StoreItem) (ps : List (String × ℕ))
    → All (HasTime m) ps
    → IsSorted ps
    → IsAscending (map (λ k. created (JsMap.get m k)) (ids ps))
creation_times-IsAscending m [] h s = tt
creation_times-IsAscending m (p ∷ ps) h s =
    (rw h.0.1 (All-creation m p.1 ps h.1 s.0), creation_times-IsAscending m ps h.1 s.1)

-- On a map without repeated keys, listByUserIdAndDevice has the oldest session first.
pub list_by_user_id_and_device-IsAscending :
    (s : MemoryStore) (user device : String)
    → JsMap.IsUnique s.store
    → IsAscending (
        map
          (λ k. created (JsMap.get s.store k))
          (MemoryStore.list_by_user_id_and_device s user device))
unfolding MemoryStore.list_by_user_id_and_device
list_by_user_id_and_device-IsAscending s user device u =
    let ps = ids_of user device s.store in
    creation_times-IsAscending s.store (sort_by_create_time ps)
      (All-sort (HasTime s.store) ps (HasTime-ids_of user device s.store u)) (sort-IsSorted ps)
