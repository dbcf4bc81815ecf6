-- ===== src/MemoryStore/Users.antt =====
-- The operations of the session store that go by user or by device.
use luoluo_auth.Common.{
  String, ◌≡◌, refl, ◌∙◌, Bool, false, ◌&&◌, ◌||◌, Option, none, some, [], ◌∷◌, if◌then◌else◌, ◌==◌,
  arith, eq_iff,
}
use luoluo_auth.Common.JsMap
use luoluo_auth.Common.JsMap.{JsMap}
use luoluo_auth.MemoryStore
use luoluo_auth.MemoryStore.{MemoryStore, delete_owned, owned_sessions, internal_delete, ids_of}
use luoluo_auth.MemoryStore.Validity.{IsValid}
use luoluo_auth.MemoryStore.Kept.{delete_by_user_id-IsValid}
use luoluo_auth.MemoryStore.Data.{StoreItem}

-- Whether an entry under the key belongs to the user.
abbrev owns : String → JsMap StoreItem → String → Bool
owns user [] k = false
owns user ((id, item) ∷ entries) k =
    ((item.session.user_id == user) && (id == k)) || owns user entries k

get-delete_owned :
    (user : String) (entries : JsMap StoreItem) (s : MemoryStore) (k : String)
    → JsMap.get (delete_owned user entries s).store k
      ≡ (if owns user entries k then none else JsMap.get s.store k)
unfolding delete_owned internal_delete
get-delete_owned user [] s k = refl
get-delete_owned user ((id, item) ∷ entries) s k =
    get-delete_owned user entries (if item.session.user_id == user then internal_delete s id else s)
      k
    ∙ ground (arith, JsMap.get-delete s.store id k)

-- The item, unless it belongs to the user.
abbrev pub unowned : String → Option StoreItem → Option StoreItem
unowned user none = none
unowned user (some item) = if item.session.user_id == user then none else some item

not-owns_absent :
    (user : String) (m : JsMap StoreItem) (k : String)
    → JsMap.get m k ≡ none
    → owns user m k ≡ false
unfolding JsMap.get
not-owns_absent user [] k h = refl
not-owns_absent user ((id, item) ∷ m) k h = ground (arith, not-owns_absent user m k)

unowned-get :
    (user : String) (m : JsMap StoreItem) (k : String)
    → JsMap.IsUnique m
    → (if owns user m k then none else JsMap.get m k) ≡ unowned user (JsMap.get m k)
unfolding JsMap.get
unowned-get user [] k u = refl
unowned-get user ((id, item) ∷ m) k u =
    ground (arith, eq_iff id k, not-owns_absent user m k, unowned-get user m k u.1)

-- On a map without repeated keys, deleteByUserId removes the sessions of the user and leaves
-- every other one in its place.
pub get-delete_by_user_id :
    (s : MemoryStore) (user k : String)
    → JsMap.IsUnique s.store
    → JsMap.get (MemoryStore.delete_by_user_id s user).store k ≡ unowned user (JsMap.get s.store k)
unfolding MemoryStore.delete_by_user_id
get-delete_by_user_id s user k u = rw get-delete_owned (unowned-get user s.store k u)

unowned_twice :
    (user : String) (o : Option StoreItem) → unowned user (unowned user o) ≡ unowned user o
unowned_twice user none = refl
unowned_twice user (some item) = ground arith

rest_unowned :
    (user id : String) (item : StoreItem) (m : JsMap StoreItem)
    → JsMap.IsUnique ((id, item) ∷ m)
    → ((k : String) → unowned user (JsMap.get ((id, item) ∷ m) k) ≡ JsMap.get ((id, item) ∷ m) k)
    → (k : String) → unowned user (JsMap.get m k) ≡ JsMap.get m k
unfolding JsMap.get
rest_unowned user id item m u h k = ground (arith, h k, eq_iff id k, u.0)

owned_sessions_none :
    (user : String) (m : JsMap StoreItem)
    → JsMap.IsUnique m
    → ((k : String) → unowned user (JsMap.get m k) ≡ JsMap.get m k)
    → owned_sessions user m ≡ []
unfolding owned_sessions JsMap.get
owned_sessions_none user [] u h = refl
owned_sessions_none user ((id, item) ∷ m) u h =
    ground
      (arith, h id, eq_iff id id, owned_sessions_none user m u.1 (rest_unowned user id item m u h))

-- After deleteByUserId on a valid store the user has no session left.
pub list_by_user_id-delete_by_user_id :
    (s : MemoryStore) (user : String)
    → IsValid s
    → MemoryStore.list_by_user_id (MemoryStore.delete_by_user_id s user) user ≡ []
unfolding MemoryStore.list_by_user_id
list_by_user_id-delete_by_user_id s user h =
    let u = h.aligned.unique_store in
    owned_sessions_none user (MemoryStore.delete_by_user_id s user).store
      (delete_by_user_id-IsValid s user h).aligned.unique_store
      (λ k. rw (get-delete_by_user_id s user k u) (unowned_twice user (JsMap.get s.store k)))
