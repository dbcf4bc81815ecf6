-- ===== src/RedisStore.antt =====
-- src/auth/stores/redis-store.ts: sessions, their indexes and bans in redis. The commands of redis
-- are parameters; those of a pipeline run one after the other, and none of them fails.
pub mod Commands
pub mod Indexes
pub mod Removal
use Prim.Native.String
use luoluo_auth.Common.{
  ℕ, zero, suc, ◌+◌, ◌*◌, ◌/◌, String, Bool, true, false, not, ◌&&◌, Option, none, some, List, [],
  ◌∷◌, ◌++◌, map, if◌then◌else◌, truthy, get_or, is_some, includes, ◌==◌,
}
use luoluo_auth.MemoryStore.Data.{SessionData, text_is, sort_by_create_time}

-- The commands, at a time in milliseconds; an expiry is in seconds.
pub record RedisApi (R : Type 0) : Type 0 where
  pub get : R → ℕ → String → Option String
  pub set : R → ℕ → String → String → Option ℕ → R
  pub del : R → String → R
  pub expire : R → ℕ → String → ℕ → R
  pub sadd : R → ℕ → String → String → R
  pub srem : R → ℕ → String → String → R
  pub smembers : R → ℕ → String → List String

-- `JSON.stringify` and `JSON.parse`, on sessions.
pub record SessionJson : Type 0 where
  pub stringify : SessionData → String
  pub parse : String → SessionData

abbrev pub get_key : String → String
get_key session_id = String.◌++◌ "auth:sessions:" session_id

abbrev pub user_index_key : String → String
user_index_key user_id = String.◌++◌ "auth:user-sessions:" user_id

abbrev pub device_index_key : String → String
device_index_key device = String.◌++◌ "auth:device-sessions:" device

abbrev pub blacklist_key : String → String
blacklist_key user_id = String.◌++◌ "auth:blacklist:" user_id

-- `ttl ? Math.ceil(ttl / 1000) : undefined`
abbrev pub ttl_seconds : Option ℕ → Option ℕ
ttl_seconds none = none
ttl_seconds (some zero) = none
ttl_seconds (some (suc n)) = some ((suc n + 999) / 1000)

-- A `Set` of the index keys of the devices, in the order of their first appearance.
abbrev pub add_key : List String → String → List String
add_key keys key = if includes keys key then keys else keys ++ (key ∷ [])

module _ {R : Type 0} (api : RedisApi R) (json : SessionJson) where
  -- The entry of one index, and its expiry.
  abbrev pub put_index : R → ℕ → String → String → Option ℕ → R
  put_index r now key session_id none = api.sadd r now key session_id
  put_index r now key session_id (some seconds) =
      api.expire (api.sadd r now key session_id) now key (seconds + 60)

  abbrev pub put_device_index : R → ℕ → Option String → String → Option ℕ → R
  put_device_index r now device session_id seconds =
      if truthy device
      then put_index r now (device_index_key (get_or device "")) session_id seconds
      else r

  unfoldable pub set : R → ℕ → String → SessionData → Option ℕ → R
  set r now session_id session ttl =
      let seconds = ttl_seconds ttl in
      let stored = api.set r now (get_key session_id) (json.stringify session) seconds in
      let indexed = put_index stored now (user_index_key session.user_id) session_id seconds in
      put_device_index indexed now session.device session_id seconds

  -- `value ? JSON.parse(value) : null`
  abbrev pub parsed : Option String → Option SessionData
  parsed value = if truthy value then some (json.parse (get_or value "")) else none

  unfoldable pub get : R → ℕ → String → Option SessionData
  get r now session_id = parsed (api.get r now (get_key session_id))

  abbrev pub drop_device_index : R → ℕ → Option String → String → R
  drop_device_index r now device session_id =
      if truthy device then api.srem r now (device_index_key (get_or device "")) session_id else r

  unfoldable pub delete : R → ℕ → String → R
  unfolding get
  delete r now session_id = elim (get r now session_id) [
    | none ↦ api.del r (get_key session_id)
    | some session ↦
        let left =
          api.srem (api.del r (get_key session_id)) now (user_index_key session.user_id)
            session_id in
        drop_device_index left now session.device session_id
  ]

  -- The index keys of the devices of the sessions that are still there.
  unfoldable pub device_index_keys : R → ℕ → List String → List String → List String
  unfolding get
  device_index_keys r now [] keys = keys
  device_index_keys r now (id ∷ ids) keys =
      let rest = device_index_keys r now ids in
      elim (get r now id) [
        | none ↦ rest keys
        | some session ↦
            if truthy session.device
            then rest (add_key keys (device_index_key (get_or session.device "")))
            else rest keys
      ]

  unfoldable pub delete_sessions : List String → R → R
  delete_sessions [] r = r
  delete_sessions (id ∷ ids) r = delete_sessions ids (api.del r (get_key id))

  unfoldable pub remove_members : ℕ → String → List String → R → R
  remove_members now key [] r = r
  remove_members now key (id ∷ ids) r = remove_members now key ids (api.srem r now key id)

  unfoldable pub clear_devices : ℕ → List String → List String → R → R
  unfolding remove_members
  clear_devices now [] ids r = r
  clear_devices now (key ∷ keys) ids r = clear_devices now keys ids (remove_members now key ids r)

  unfoldable pub delete_by_user_id : R → ℕ → String → R
  unfolding device_index_keys delete_sessions clear_devices
  delete_by_user_id r now user_id = elim (api.smembers r now (user_index_key user_id)) [
    | [] ↦ r
    | id ∷ ids ↦
        let keys = device_index_keys r now (id ∷ ids) [] in
        let removed = api.del (delete_sessions (id ∷ ids) r) (user_index_key user_id) in
        clear_devices now keys (id ∷ ids) removed
  ]

  -- One member of the user's index: a session of the device goes, and an entry without a session
  -- is taken out of the indexes. `r` is the state in which the sessions were read.
  unfoldable pub remove_on_device : R → ℕ → String → String → String → R → R
  unfolding get
  remove_on_device r now user_id device id left =
      let unlisted = λ (x : R).
        api.srem (api.srem x now (user_index_key user_id) id) now (device_index_key device) id in
      elim (get r now id) [
        | none ↦ unlisted left
        | some session ↦
            if text_is session.device device then unlisted (api.del left (get_key id)) else left
      ]

  unfoldable pub remove_all_on_device : R → ℕ → String → String → List String → R → R
  unfolding remove_on_device
  remove_all_on_device r now user_id device [] left = left
  remove_all_on_device r now user_id device (id ∷ ids) left =
      remove_all_on_device r now user_id device ids (remove_on_device r now user_id device id left)

  unfoldable pub delete_by_user_id_and_device : R → ℕ → String → String → R
  unfolding remove_all_on_device
  delete_by_user_id_and_device r now user_id device =
      remove_all_on_device r now user_id device (api.smembers r now (user_index_key user_id)) r

  unfoldable pub load : R → ℕ → List String → List (String × SessionData)
  unfolding get
  load r now [] = []
  load r now (id ∷ ids) =
      let rest = load r now ids in
      elim (get r now id) [ none ↦ rest | some session ↦ (id, session) ∷ rest ]

  unfoldable pub list_by_user_id : R → ℕ → String → List SessionData
  unfolding load
  list_by_user_id r now user_id =
      map (λ p. p.1) (load r now (api.smembers r now (user_index_key user_id)))

  unfoldable pub list_by_device : R → ℕ → String → List String
  list_by_device r now device = api.smembers r now (device_index_key device)

  abbrev pub on_device : String → List (String × SessionData) → List (String × ℕ)
  on_device device [] = []
  on_device device ((id, session) ∷ rest) =
      if text_is session.device device
      then (id, session.create_time) ∷ on_device device rest
      else on_device device rest

  unfoldable pub list_by_user_id_and_device : R → ℕ → String → String → List String
  unfolding load sort_by_create_time
  list_by_user_id_and_device r now user_id device =
      let found = load r now (api.smembers r now (user_index_key user_id)) in
      map (λ p. p.0) (sort_by_create_time (on_device device found))

  unfoldable pub renew : R → ℕ → String → Option ℕ → R
  renew r now session_id ttl = elim (ttl_seconds ttl) [
    | none ↦ r
    | some seconds ↦ api.expire r now (get_key session_id) seconds
  ]

  unfoldable pub ban : R → ℕ → String → ℕ → R
  ban r now user_id duration = api.set r now (blacklist_key user_id) "1" (some duration)

  unfoldable pub unban : R → String → R
  unban r user_id = api.del r (blacklist_key user_id)

  unfoldable pub is_banned : R → ℕ → String → Bool
  is_banned r now user_id = is_some (api.get r now (blacklist_key user_id))
