-- ===== src/Auth/Service/Sessions/Laws.antt =====
-- src/auth/auth.service.ts and src/auth/strategies/random-token.strategy.ts over the in-memory
-- session store: removal by user, the second authentication, and rotation.
use luoluo_auth.Common.{
  ℕ, ◌+◌, ◌≡◌, ◌≢◌, ◌<◌, refl, inl, inr, String, true, Option, none, some, [], ltb, if◌then◌else◌,
  or_number, arith, Bool-cases, eq_iff, eq_refl,
}
use luoluo_auth.MemoryStore
use luoluo_auth.MemoryStore.{MemoryStore, expiry, max_safe_integer}
use luoluo_auth.MemoryStore.Data.{SessionData}
use luoluo_auth.MemoryStore.Validity.{IsValid}
use luoluo_auth.MemoryStore.Kept.{get-IsValid}
use luoluo_auth.MemoryStore.Reads.{stored, stored-set, stored-delete, get-set_self}
use luoluo_auth.MemoryStore.Users.{list_by_user_id-delete_by_user_id}
use luoluo_auth.Auth.Strategies.{memory_store, rotate_random, random_token}
use luoluo_auth.Auth.Service.{World, Deps, log_audit}
use luoluo_auth.Auth.Service.Login.Shrinking.{over_memory}
use luoluo_auth.Auth.Service.Sessions.{
  kick_user, remove_sessions, open_safe_auth_on, default_safe_auth_ttl,
}

-- The session is stored anew after it was read: it is answered up to its new expiry.
reread :
    (s : MemoryStore) (now later : ℕ) (id : String) (session : SessionData) (ttl : ℕ)
    → id ≢ ""
    → 0 < ttl
    → IsValid s
    → (MemoryStore.get
        (MemoryStore.set (MemoryStore.get s now id).0 now id session (some ttl))
        later
        id).1
      ≡ (if ltb (now + ttl) later then none else some session)
reread s now later id session ttl ne pos v = ground (
  arith,
  get-set_self (MemoryStore.get s now id).0 now later id session (some ttl) ne
      (get-IsValid s now id v),
)

module _ {L K R : Type 0} (base : Deps MemoryStore L K R) where
  -- Over a valid in-memory store, kickUser with or without a device leaves the user no session
  -- on any device.
  pub kick_user-all :
      (user_id : String) (device : Option String) (w : World MemoryStore L K R)
      → IsValid w.store
      → MemoryStore.list_by_user_id (kick_user (over_memory base) user_id device w).0.store user_id
        ≡ []
  unfolding kick_user remove_sessions memory_store log_audit
  kick_user-all user_id device w v = elim (Bool-cases base.has_audit) [
    | inl e ↦ rw e (list_by_user_id-delete_by_user_id w.store user_id v)
    | inr e ↦ rw e (list_by_user_id-delete_by_user_id w.store user_id v)
  ]

  -- After openSafeAuth, with a time to live above 0, on a live session of a valid in-memory
  -- store under an id that is not empty: the store answers the session, marked with the time, up
  -- to the end of that time to live, and from then on the session itself is gone.
  pub open_safe_auth-get :
      (session_id : String) (ttl later : ℕ) (session : SessionData) (w : World MemoryStore L K R)
      → session_id ≢ ""
      → 0 < ttl
      → IsValid w.store
      → (MemoryStore.get w.store w.now session_id).1 ≡ some session
      → (MemoryStore.get
          (open_safe_auth_on (over_memory base) session_id (some ttl) w).0.store
          later
          session_id).1
        ≡ (if ltb (w.now + ttl) later
            then none
            else some (record session { safe_auth = some true; safe_auth_time = some w.now }))
  unfolding open_safe_auth_on memory_store log_audit
  open_safe_auth-get session_id ttl later session w ne pos v h =
      let updated = record session { safe_auth = some true; safe_auth_time = some w.now } in
      let positive : or_number (some ttl)
            (or_number base.config.safe_auth_ttl (default_safe_auth_ttl base))
          ≡ ttl =
        ground arith in
      elim (Bool-cases base.has_audit) [
        | inl e ↦ rw (h, e, positive) (reread w.store w.now later session_id updated ttl ne pos v)
        | inr e ↦ rw (h, e, positive) (reread w.store w.now later session_id updated ttl ne pos v)
      ]

-- rotate of a live random token over a valid in-memory store, when the new token is neither
-- empty nor the old one: the new token stands for the session of the old one, without an expiry
-- whatever the old one was, and the old one is gone.
pub rotate_random-stored :
    (prefix : Option String) (seed token : String) (s : MemoryStore) (now : ℕ)
    (session : SessionData)
    → random_token prefix seed ≢ token
    → random_token prefix seed ≢ ""
    → IsValid s
    → (MemoryStore.get s now token).1 ≡ some session
    → let (s', answer) = rotate_random memory_store prefix seed s now token in
      (answer ≡ some (random_token prefix seed))
      × (stored s' (random_token prefix seed) ≡ some (session, max_safe_integer))
      × (stored s' token ≡ none)
unfolding rotate_random memory_store
rotate_random-stored prefix seed token s now session ne named v h =
    let s' = (MemoryStore.get s now token).0 in
    let new_token = random_token prefix seed in
    let written = MemoryStore.set s' now new_token session none in
    let set_at = stored-set s' now new_token session none named (get-IsValid s now token v) in
    rw (h, rotate_random)
      (
        refl,
        rw (stored-delete written token new_token)
            (ground (arith, set_at new_token, eq_iff token new_token, eq_refl new_token)),
        rw (stored-delete written token token) (ground (arith, eq_refl token)),
      )
