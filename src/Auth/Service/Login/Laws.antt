-- ===== src/Auth/Service/Login/Laws.antt =====
-- src/auth/auth.service.ts, `login` over the in-memory session store: what the policy `single`
-- leaves of the user's sessions.
use luoluo_auth.Common.{
  ℕ, suc, ◌≡◌, ◌≢◌, refl, inl, inr, String, ◌&&◌, Option, some, arith, Bool-cases, eq_iff,
}
use luoluo_auth.MemoryStore
use luoluo_auth.MemoryStore.{MemoryStore}
use luoluo_auth.MemoryStore.Data.{SessionData}
use luoluo_auth.MemoryStore.Validity.{IsValid}
use luoluo_auth.MemoryStore.Kept.{delete_by_user_id-IsValid}
use luoluo_auth.MemoryStore.Reads.{stored, stored-set}
use luoluo_auth.MemoryStore.Users.{get-delete_by_user_id}
use luoluo_auth.Auth.Errors.{Outcome, ok, throw, proceed}
use luoluo_auth.Auth.Interfaces.{single}
use luoluo_auth.Auth.Strategies.{memory_store}
use luoluo_auth.Auth.Service.{World, Deps, log_audit}
use luoluo_auth.Auth.Service.Login.{
  LoginRequest, apply_policy, limit_device, login_locked, open_session, login_ttl, policy_of,
  store_session_id, new_session,
}
use luoluo_auth.Auth.Service.Login.Shrinking.{Trims, over_memory, limit_device-Trims}

-- The user's sessions are all stored under one key, if there are any.
abbrev pub IsSole : String → MemoryStore → Type 0
IsSole user s =
    (k k' : String) (a a' : SessionData) (t t' : ℕ)
    → stored s k ≡ some (a, t)
    → a.user_id ≡ user
    → stored s k' ≡ some (a', t')
    → a'.user_id ≡ user
    → k ≡ k'

abbrev IsGone : String → MemoryStore → Type 0
IsGone user s = (k : String) (a : SessionData) (t : ℕ) → stored s k ≡ some (a, t) → a.user_id ≢ user

delete_by_user_id-IsGone :
    (s : MemoryStore) (user : String)
    → IsValid s
    → IsGone user (MemoryStore.delete_by_user_id s user)
delete_by_user_id-IsGone s user v k a t h e =
    ground (arith, get-delete_by_user_id s user k v.aligned.unique_store, eq_iff a.user_id user)

Trims-IsGone : (user : String) (s s' : MemoryStore) → Trims s s' → IsGone user s → IsGone user s'
Trims-IsGone user s s' h g k a t e = ground (arith, h.shrinks k, g k a t)

set-IsSole :
    (user : String) (s : MemoryStore) (now : ℕ) (id : String) (session : SessionData)
    (ttl : Option ℕ)
    → id ≢ ""
    → IsValid s
    → IsGone user s
    → IsSole user (MemoryStore.set s now id session ttl)
set-IsSole user s now id session ttl ne v g k k' a a' t t' h e h' e' = ground (
  arith,
  stored-set s now id session ttl ne v k,
  stored-set s now id session ttl ne v k',
  g k a t,
  g k' a' t',
  eq_iff id k,
  eq_iff id k',
)

module _ {L K R : Type 0} (base : Deps MemoryStore L K R) (q : LoginRequest) where
  -- Every session id that `login` may draw is a text that is not empty.
  abbrev pub DrawsNames : Type 0
  DrawsNames =
      (n now : ℕ)
      → store_session_id base
          (base.strategy.generate (base.random (suc n)) now
            (record { session_id = base.random n; user_id = q.user_id; device = q.device }))
          (base.random n)
        ≢ ""

  -- The session id under which `login` stores, after the draws it has made.
  abbrev pub opened_id : World MemoryStore L K R → String
  opened_id w =
      store_session_id base
        (base.strategy.generate (base.random (suc w.drawn)) w.now
          (record { session_id = base.random w.drawn; user_id = q.user_id; device = q.device }))
        (base.random w.drawn)

  pub open_session-store :
      (w : World MemoryStore L K R)
      → (open_session (over_memory base) q w).0.store
        ≡ MemoryStore.set w.store w.now
            (opened_id w)
            (new_session base q w.now)
            (login_ttl (over_memory base) q.remember_me)
  unfolding open_session log_audit memory_store
  open_session-store w = elim (Bool-cases (base.cookies_enabled && q.has_res)) [
    | inl e ↦ rw e (elim (Bool-cases base.has_audit) [ inl e' ↦ rw e' refl | inr e' ↦ rw e' refl ])
    | inr e ↦ rw e (elim (Bool-cases base.has_audit) [ inl e' ↦ rw e' refl | inr e' ↦ rw e' refl ])
  ]

  abbrev pub opened_token : World MemoryStore L K R → String
  opened_token w =
      base.strategy.generate (base.random (suc w.drawn)) w.now
        (record { session_id = base.random w.drawn; user_id = q.user_id; device = q.device })

  pub open_session-answer :
      (w : World MemoryStore L K R)
      → ((open_session (over_memory base) q w).1 ≡ ok (opened_token w))
        × ((open_session (over_memory base) q w).0.now ≡ w.now)
  unfolding open_session log_audit memory_store
  open_session-answer w = elim (Bool-cases (base.cookies_enabled && q.has_res)) [
    | inl e ↦ rw e (elim (Bool-cases base.has_audit) [
      | inl e' ↦ rw e' (refl, refl)
      | inr e' ↦ rw e' (refl, refl)
    ])
    | inr e ↦ rw e (elim (Bool-cases base.has_audit) [
      | inl e' ↦ rw e' (refl, refl)
      | inr e' ↦ rw e' (refl, refl)
    ])
  ]

  open_session-IsSole :
      (w : World MemoryStore L K R)
      → DrawsNames
      → IsValid w.store
      → IsGone q.user_id w.store
      → IsSole q.user_id (open_session (over_memory base) q w).0.store
  open_session-IsSole w names v g = rw (open_session-store w) (
      set-IsSole q.user_id w.store w.now (opened_id w) (new_session base q w.now) _
        (names w.drawn w.now) v g)

  -- The end of the `try` block, on what the limits of the device let through.
  proceed-IsSole :
      (r : World MemoryStore L K R × Outcome (Unit {0}))
      → DrawsNames
      → IsValid r.0.store
      → IsGone q.user_id r.0.store
      → IsSole q.user_id (proceed r (λ _. open_session (over_memory base) q)).0.store
  proceed-IsSole (w, ok _) names v g = open_session-IsSole w names v g
  proceed-IsSole (w, throw e) names v g = λ k k' a a' t t' h o _ _. absurd (g k a t h o)

  apply_policy-single :
      (w : World MemoryStore L K R)
      → policy_of base ≡ single
      → apply_policy (over_memory base) (policy_of base) q.user_id q.device w
        ≡ (record w { store = MemoryStore.delete_by_user_id w.store q.user_id }, ok tt)
  unfolding apply_policy memory_store
  apply_policy-single w policy = rw (policy, apply_policy) refl

  locked-IsSole :
      (w : World MemoryStore L K R)
      → policy_of base ≡ single
      → DrawsNames
      → IsValid w.store
      → IsSole q.user_id (login_locked (over_memory base) q w).0.store
  unfolding login_locked
  locked-IsSole w policy names v =
      let cleared = MemoryStore.delete_by_user_id w.store q.user_id in
      let cleared_valid = delete_by_user_id-IsValid w.store q.user_id v in
      let w' = record w { store = cleared } in
      let limited = limit_device-Trims base q.user_id q.device w' cleared_valid in
      rw (apply_policy-single w policy) (
        proceed-IsSole (limit_device (over_memory base) q.user_id q.device w') names limited.valid
          (Trims-IsGone q.user_id cleared _ limited (delete_by_user_id-IsGone w.store q.user_id v)))

  -- Under the policy single, over a valid in-memory store and when no drawn session id is empty:
  -- once the guarded part of login has run, whether it answers or throws, two keys that hold
  -- sessions of the user are one.
  pub login_locked_single :
      (w : World MemoryStore L K R) (k k' : String) (a a' : SessionData) (t t' : ℕ)
      → policy_of base ≡ single
      → DrawsNames
      → IsValid w.store
      → stored (login_locked (over_memory base) q w).0.store k ≡ some (a, t)
      → a.user_id ≡ q.user_id
      → stored (login_locked (over_memory base) q w).0.store k' ≡ some (a', t')
      → a'.user_id ≡ q.user_id
      → k ≡ k'
  login_locked_single w k k' a a' t t' policy names v =
      locked-IsSole w policy names v k k' a a' t t'
