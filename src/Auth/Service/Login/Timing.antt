-- ===== src/Auth/Service/Login/Timing.antt =====
-- src/auth/auth.service.ts: what `login` does to the store before it adds its session takes no time.
use luoluo_auth.Common.{
  ℕ, ◌≡◌, refl, inl, inr, String, not, ◌&&◌, Option, List, map, leb, truthy, get_or, length,
  includes, Option-cases, Bool-cases,
}
use luoluo_auth.MemoryStore
use luoluo_auth.MemoryStore.{MemoryStore}
use luoluo_auth.MemoryStore.Data.{sort_by_create_time}
use luoluo_auth.Auth.Errors.{ok}
use luoluo_auth.Auth.Interfaces.{LoginPolicy, single, multiple, mutual_exclusion}
use luoluo_auth.Auth.Strategies.{memory_store}
use luoluo_auth.Auth.Service.{World, Deps}
use luoluo_auth.Auth.Service.Login.{
  Found, delete_first, collect, limit_accounts, handle_multi_account_login, make_way, apply_policy,
  limit_device, is_true, distinct_users, sessions_of, overflow,
}
use luoluo_auth.Auth.Service.Login.Shrinking.{over_memory}

module _ {L K R : Type 0} (base : Deps MemoryStore L K R) where
  pub apply_policy-now :
      (policy : LoginPolicy) (user_id : String) (device : Option String)
      (w : World MemoryStore L K R)
      → ((apply_policy (over_memory base) policy user_id device w).0.now ≡ w.now)
        × ((apply_policy (over_memory base) policy user_id device w).1 ≡ ok tt)
  unfolding apply_policy make_way memory_store
  apply_policy-now single user_id device w = (refl, refl)
  apply_policy-now multiple user_id device w = (refl, refl)
  apply_policy-now mutual_exclusion user_id device w = elim (Bool-cases (truthy device)) [
    | inl e ↦ rw e (refl, refl)
    | inr e ↦ rw e (refl, refl)
  ]

  limit_accounts-now :
      (user_id : String) (max_accounts : ℕ) (fs : List Found) (w : World MemoryStore L K R)
      → (limit_accounts (over_memory base) user_id max_accounts fs w).0.now ≡ w.now
  unfolding limit_accounts
  limit_accounts-now user_id max_accounts fs w =
      let mine = map (λ p. p.0) (sort_by_create_time (sessions_of user_id fs)) in
      elim (Bool-cases (
        not (includes (distinct_users fs) user_id)
        && leb max_accounts (length (distinct_users fs)))) [
          | inl e ↦ rw e refl
          | inr e ↦ rw e (elim (Bool-cases (leb (length mine) 0)) [
            | inl e' ↦ rw e' refl
            | inr e' ↦
                rw e'
                  (elim (Bool-cases (
                    leb (overflow mine (get_or base.config.max_same_device_sessions 1))
                      (length mine))) [ inl o ↦ rw o refl | inr o ↦ rw o refl ])
          ])
        ]

  handle_multi_account_login-now :
      (user_id device : String) (w : World MemoryStore L K R)
      → (handle_multi_account_login
          (over_memory base)
          MemoryStore.list_by_device
          user_id
          device
          w).0.now
        ≡ w.now
  unfolding handle_multi_account_login delete_first
  handle_multi_account_login-now user_id device w = elim (Option-cases base.config.multi_account) [
    | inl e ↦ rw e refl
    | inr (multi, e) ↦ rw e (elim (Bool-cases (is_true multi.enabled)) [
      | inl e' ↦
          let found =
            collect (over_memory base) (MemoryStore.list_by_device w.store device) w.store w.now in
          rw e' (
            limit_accounts-now user_id (get_or multi.max_accounts 5) found.1
              (record w { store = found.0 }))
      | inr e' ↦ rw e' refl
    ])
  ]

  pub limit_device-now :
      (user_id : String) (device : Option String) (w : World MemoryStore L K R)
      → (limit_device (over_memory base) user_id device w).0.now ≡ w.now
  unfolding limit_device memory_store
  limit_device-now user_id device w = elim (Bool-cases (truthy device)) [
    | inl on ↦ rw on (handle_multi_account_login-now user_id (get_or device "") w)
    | inr off ↦ rw off refl
  ]
