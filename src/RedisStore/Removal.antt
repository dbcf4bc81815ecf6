-- ===== src/RedisStore/Removal.antt =====
-- src/auth/stores/redis-store.ts, `deleteByUserId`: which sessions go.
use luoluo_auth.Common.{
  ℕ, ◌≡◌, inl, inr, refl, ◌∙◌, String, none, List, [], ◌∷◌, if◌then◌else◌, includes, arith,
  Bool-cases,
}
use luoluo_auth.RedisStore
use luoluo_auth.RedisStore.{
  RedisApi, SessionJson, get_key, user_index_key, parsed, delete_sessions, remove_members,
  clear_devices, device_index_keys, delete_by_user_id,
}
use luoluo_auth.RedisStore.Commands.{RedisLaws}
use luoluo_auth.RedisStore.Indexes.{user-session, session-session, delete_by_user_id_none}

module _ {R : Type 0} (api : RedisApi R) (json : SessionJson) (laws : RedisLaws api) where
  get-delete_sessions :
      (ids : List String) (r : R) (later : ℕ) (other : String)
      → api.get (delete_sessions api json ids r) later (get_key other)
        ≡ (if includes ids other then none else api.get r later (get_key other))
  unfolding delete_sessions
  get-delete_sessions [] r later other = refl
  get-delete_sessions (id ∷ ids) r later other =
      rw
        (
          get-delete_sessions ids (api.del r (get_key id)) later other,
          laws.get-del r later (get_key id) (get_key other),
          session-session id other,
        )
        (ground arith)

  get-remove_members :
      (ids : List String) (r : R) (now later : ℕ) (key other : String)
      → api.get (remove_members api json now key ids r) later other ≡ api.get r later other
  unfolding remove_members
  get-remove_members [] r now later key other = refl
  get-remove_members (id ∷ ids) r now later key other =
      get-remove_members ids (api.srem r now key id) now later key other
      ∙ laws.get-srem r now later key other id

  get-clear_devices :
      (keys ids : List String) (r : R) (now later : ℕ) (other : String)
      → api.get (clear_devices api json now keys ids r) later other ≡ api.get r later other
  unfolding clear_devices
  get-clear_devices [] ids r now later other = refl
  get-clear_devices (key ∷ keys) ids r now later other =
      get-clear_devices keys ids (remove_members api json now key ids r) now later other
      ∙ get-remove_members ids r now later key other

  get-removed :
      (ids keys : List String) (r : R) (now later : ℕ) (user other : String)
      → api.get
          (clear_devices api json now keys ids
            (api.del (delete_sessions api json ids r) (user_index_key user)))
          later
          (get_key other)
        ≡ (if includes ids other then none else api.get r later (get_key other))
  get-removed ids keys r now later user other =
      let left = delete_sessions api json ids r in
      rw
        (
          get-clear_devices keys ids (api.del left (user_index_key user)) now later (get_key other),
          laws.get-del left later (user_index_key user) (get_key other),
          user-session user other,
        )
        (get-delete_sessions ids r later other)

  get-delete_listed :
      (ids : List String) (r : R) (now later : ℕ) (user other : String)
      → api.smembers r now (user_index_key user) ≡ ids
      → api.get (delete_by_user_id api json r now user) later (get_key other)
        ≡ (if includes ids other then none else api.get r later (get_key other))
  unfolding delete_by_user_id
  get-delete_listed [] r now later user other h =
      rw (delete_by_user_id_none api json laws r now user h) refl
  get-delete_listed (id ∷ ids) r now later user other h =
      rw (h, delete_by_user_id)
        (get-removed (id ∷ ids) (device_index_keys api json r now (id ∷ ids) []) r now later user
          other)

  -- Over redis, deleteByUserId removes the sessions whose ids the index of the user holds, and
  -- no others.
  pub get-delete_by_user_id :
      (r : R) (now later : ℕ) (user other : String)
      → RedisStore.get api json (delete_by_user_id api json r now user) later other ≡ (
          if includes (api.smembers r now (user_index_key user)) other
          then none
          else RedisStore.get api json r later other)
  unfolding RedisStore.get
  get-delete_by_user_id r now later user other =
      let ids = api.smembers r now (user_index_key user) in
      rw (get-delete_listed ids r now later user other refl)
        (elim (Bool-cases (includes ids other)) [ inl e ↦ rw e refl | inr e ↦ rw e refl ])
