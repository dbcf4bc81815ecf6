-- ===== src/RedisStore/Indexes.antt =====
-- src/auth/stores/redis-store.ts: what is found by id, and what by the index of a user.
use Prim.Native.String
use Prim.Native.String.{count}
use luoluo_auth.Common.{
  ℕ, ◌+◌, ◌*◌, ◌≤◌, ◌≡◌, inl, inr, refl, sym, ◌∙◌, String, true, false, Option, none, some, [],
  if◌then◌else◌, truthy, get_or, ◌==◌, arith, Bool-cases, eq_iff, eq_refl,
}
use text.Mathlib.TextLemmas.{append_inj, append_assoc, append_cancel_left}
use luoluo_auth.MemoryStore.Data.{SessionData}
use luoluo_auth.RedisStore
use luoluo_auth.RedisStore.{
  RedisApi, SessionJson, get_key, user_index_key, device_index_key, ttl_seconds, put_index,
  put_device_index, parsed, delete_by_user_id, list_by_user_id, load,
}
use luoluo_auth.RedisStore.Commands.{RedisLaws, is_alive}

-- Texts that start with different texts of one length are different.
distinct :
    (p p' q q' x y : String)
    → count p ≡ count q
    → (p == q) ≡ false
    → (String.◌++◌ (String.◌++◌ p p') x == String.◌++◌ (String.◌++◌ q q') y) ≡ false
distinct p p' q q' x y l d =
    let left = String.◌++◌ (String.◌++◌ p p') x in
    let right = String.◌++◌ (String.◌++◌ q q') y in
    elim (Bool-cases (left == right)) [
      | inr e ↦ e
      | inl e ↦
          let whole = sym (append_assoc p p' x) ∙ (eq_iff left right).0 e ∙ append_assoc q q' y in
          absurd (ground (arith, (eq_iff p q).1 (append_inj whole l).0, d))
    ]

pub user-session : (u id : String) → (user_index_key u == get_key id) ≡ false
user-session u id = distinct "auth:u" "ser-sessions:" "auth:s" "essions:" u id refl refl

device-session : (d id : String) → (device_index_key d == get_key id) ≡ false
device-session d id = distinct "auth:d" "evice-sessions:" "auth:s" "essions:" d id refl refl

device-user : (d u : String) → (device_index_key d == user_index_key u) ≡ false
device-user d u = distinct "auth:d" "evice-sessions:" "auth:u" "ser-sessions:" d u refl refl

pub session-session : (a b : String) → (get_key a == get_key b) ≡ (a == b)
session-session a b = elim (Bool-cases (a == b)) [
  | inl e ↦ rw e (rw ((eq_iff a b).0 e) (eq_refl (get_key b)))
  | inr e ↦ elim (Bool-cases (get_key a == get_key b)) [
    | inr g ↦ g ∙ sym e
    | inl g ↦
        let same = append_cancel_left "auth:sessions:" a b ((eq_iff (get_key a) (get_key b)).0 g) in
        absurd (ground (arith, e, (eq_iff a b).1 same))
  ]
]

module _ {R : Type 0} (api : RedisApi R) (json : SessionJson) (laws : RedisLaws api) where
  get-put_index :
      (r : R) (now later : ℕ) (key other id : String) (seconds : Option ℕ)
      → (key == other) ≡ false
      → api.get (put_index api json r now key id seconds) later other ≡ api.get r later other
  get-put_index r now later key other id none d = laws.get-sadd r now later key other id d
  get-put_index r now later key other id (some seconds) d =
      laws.get-expire (api.sadd r now key id) now later key other (seconds + 60) d
      ∙ laws.get-sadd r now later key other id d

  smembers-put_index :
      (r : R) (now later : ℕ) (key other id : String) (seconds : Option ℕ)
      → (key == other) ≡ false
      → api.smembers (put_index api json r now key id seconds) later other
        ≡ api.smembers r later other
  smembers-put_index r now later key other id none d = laws.smembers-sadd r now later key other id d
  smembers-put_index r now later key other id (some seconds) d =
      laws.smembers-expire (api.sadd r now key id) now later key other (seconds + 60) d
      ∙ laws.smembers-sadd r now later key other id d

  get-put_device_index :
      (r : R) (now later : ℕ) (device : Option String) (id other : String) (seconds : Option ℕ)
      → api.get (put_device_index api json r now device id seconds) later (get_key other)
        ≡ api.get r later (get_key other)
  get-put_device_index r now later device id other seconds =
      let key = device_index_key (get_or device "") in
      elim (Bool-cases (truthy device)) [
        | inr e ↦ rw e refl
        | inl e ↦ rw e (
            get-put_index r now later key (get_key other) id seconds
              (device-session (get_or device "") other))
      ]

  smembers-put_device_index :
      (r : R) (now later : ℕ) (device : Option String) (id user : String) (seconds : Option ℕ)
      → api.smembers (put_device_index api json r now device id seconds) later (user_index_key user)
        ≡ api.smembers r later (user_index_key user)
  smembers-put_device_index r now later device id user seconds =
      let key = device_index_key (get_or device "") in
      elim (Bool-cases (truthy device)) [
        | inr e ↦ rw e refl
        | inl e ↦ rw e (
            smembers-put_index r now later key (user_index_key user) id seconds
              (device-user (get_or device "") user))
      ]

  api_get-set :
      (r : R) (now later : ℕ) (id other : String) (session : SessionData) (ttl : Option ℕ)
      → api.get (RedisStore.set api json r now id session ttl) later (get_key other) ≡ (
          if id == other
          then if is_alive now (ttl_seconds ttl) later then some (json.stringify session) else none
          else api.get r later (get_key other))
  unfolding RedisStore.set
  api_get-set r now later id other session ttl =
      let seconds = ttl_seconds ttl in
      let stored = api.set r now (get_key id) (json.stringify session) seconds in
      let key = user_index_key session.user_id in
      get-put_device_index (put_index api json stored now key id seconds) now later session.device
        id other seconds
      ∙ get-put_index stored now later key (get_key other) id seconds
          (user-session session.user_id other)
      ∙ (rw⁻¹ (session-session id other)
          (laws.get-set r now later (get_key id) (get_key other) (json.stringify session) seconds))

  -- Over redis, a session that was just stored is answered by get for its time to live, rounded
  -- up to seconds, and without one for ever; every other session is answered as before. Stored
  -- texts are not empty, and parse gives back the session that was stored.
  pub get-set :
      (r : R) (now later : ℕ) (id other : String) (session : SessionData) (ttl : Option ℕ)
      → truthy (some (json.stringify session)) ≡ true
      → json.parse (json.stringify session) ≡ session
      → RedisStore.get api json (RedisStore.set api json r now id session ttl) later other ≡ (
          if id == other
          then if is_alive now (ttl_seconds ttl) later then some session else none
          else RedisStore.get api json r later other)
  unfolding RedisStore.get
  get-set r now later id other session ttl t p =
      rw (api_get-set r now later id other session ttl) (elim (Bool-cases (id == other)) [
        | inr e ↦ rw e refl
        | inl e ↦ elim (Bool-cases (is_alive now (ttl_seconds ttl) later)) [
          | inl b ↦ rw (e, b, t, p) refl
          | inr b ↦ rw (e, b) refl
        ]
      ])

  smembers-set_cut :
      (r : R) (now later : ℕ) (id : String) (session : SessionData) (ttl : Option ℕ) (seconds : ℕ)
      → ttl_seconds ttl ≡ some seconds
      → now + (seconds + 60) * 1000 ≤ later
      → api.smembers
          (RedisStore.set api json r now id session ttl)
          later
          (user_index_key session.user_id)
        ≡ []
  unfolding RedisStore.set
  smembers-set_cut r now later id session ttl seconds s h =
      let key = user_index_key session.user_id in
      let stored = api.set r now (get_key id) (json.stringify session) (some seconds) in
      rw s (
        smembers-put_device_index (put_index api json stored now key id (some seconds)) now later
          session.device id session.user_id (some seconds)
        ∙ laws.smembers_expired (api.sadd stored now key id) now later key (seconds + 60) h)

  pub delete_by_user_id_none :
      (r : R) (now : ℕ) (user : String)
      → api.smembers r now (user_index_key user) ≡ []
      → delete_by_user_id api json r now user ≡ r
  unfolding delete_by_user_id
  delete_by_user_id_none r now user h = rw (h, delete_by_user_id) refl

  -- Over redis, a session that is stored for s seconds cuts the index of its user: once s + 60
  -- seconds have passed, and nothing else was changed in redis, no session of the user is
  -- listed, and deleteByUserId leaves every other session that was there, however long it is to
  -- live.
  pub delete_by_user_id_cut :
      (r : R) (now later : ℕ) (id other : String) (session found : SessionData) (ttl : Option ℕ)
      (seconds : ℕ)
      → ttl_seconds ttl ≡ some seconds
      → now + (seconds + 60) * 1000 ≤ later
      → (id == other) ≡ false
      → RedisStore.get api json r later other ≡ some found
      → (list_by_user_id api json
            (RedisStore.set api json r now id session ttl)
            later
            session.user_id
          ≡ [])
        × (RedisStore.get api json
              (delete_by_user_id api json
                (RedisStore.set api json r now id session ttl)
                later
                session.user_id)
              later
              other
            ≡ some found)
  unfolding list_by_user_id load RedisStore.get
  delete_by_user_id_cut r now later id other session found ttl seconds s h d f =
      let stored = RedisStore.set api json r now id session ttl in
      let empty = smembers-set_cut r now later id session ttl seconds s h in
      rw (delete_by_user_id_none stored later session.user_id empty)
        (rw empty refl, rw (api_get-set r now later id other session ttl, d) f)
