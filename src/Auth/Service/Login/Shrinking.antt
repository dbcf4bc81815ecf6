-- ===== src/Auth/Service/Login/Shrinking.antt =====
-- What `login` does to an in-memory session store before it adds its session: it only removes.
use luoluo_auth.Common.{
  ℕ, zero, suc, ◌≡◌, refl, ◌⊎◌, inl, inr, String, not, ◌&&◌, Option, none, List, [], ◌∷◌, map, leb,
  truthy, get_or, length, includes, arith, Option-cases, Bool-cases,
}
use luoluo_auth.MemoryStore
use luoluo_auth.MemoryStore.{MemoryStore}
use luoluo_auth.MemoryStore.Data.{sort_by_create_time}
use luoluo_auth.MemoryStore.Validity.{IsValid, internal_delete-IsValid}
use luoluo_auth.MemoryStore.Kept.{get-IsValid, delete_by_user_id-IsValid}
use luoluo_auth.MemoryStore.Reads.{stored, stored-delete, stored-get}
use luoluo_auth.MemoryStore.Users.{get-delete_by_user_id}
use luoluo_auth.Auth.Interfaces.{LoginPolicy, single, multiple, mutual_exclusion}
use luoluo_auth.Auth.Strategies.{memory_store}
use luoluo_auth.Auth.Service.{World, Deps}
use luoluo_auth.Auth.Service.Login.{
  Found, delete_first, collect, limit_accounts, handle_multi_account_login, make_way, apply_policy,
  limit_device, is_true, distinct_users, sessions_of, overflow,
}

-- Nothing is added, and what stays is as it was.
abbrev pub Shrinks : MemoryStore → MemoryStore → Type 0
Shrinks s s' = (k : String) → (stored s' k ≡ none) ⊎ (stored s' k ≡ stored s k)

Shrinks-refl : (s : MemoryStore) → Shrinks s s
Shrinks-refl s k = inr refl

Shrinks-trans : (s s' s'' : MemoryStore) → Shrinks s s' → Shrinks s' s'' → Shrinks s s''
Shrinks-trans s s' s'' h g k = ground (arith, h k, g k)

delete-Shrinks : (s : MemoryStore) (id : String) → Shrinks s (MemoryStore.delete s id)
delete-Shrinks s id k = ground (arith, stored-delete s id k)

get-Shrinks : (s : MemoryStore) (now : ℕ) (id : String) → Shrinks s (MemoryStore.get s now id).0
get-Shrinks s now id k = ground (arith, stored-get s now id k)

-- A valid store that shrank to another valid one.
pub record Trims (s s' : MemoryStore) : Type 0 where
  pub valid : IsValid s'
  pub shrinks : Shrinks s s'

Trims-refl : (s : MemoryStore) → IsValid s → Trims s s
Trims-refl s v = record { valid = v; shrinks = Shrinks-refl s }

Trims-trans : (s s' s'' : MemoryStore) → Trims s s' → Trims s' s'' → Trims s s''
Trims-trans s s' s'' h g = record {
  valid = g.valid;
  shrinks = Shrinks-trans s s' s'' h.shrinks g.shrinks;
}

delete-Trims : (s : MemoryStore) (id : String) → IsValid s → Trims s (MemoryStore.delete s id)
delete-Trims s id v = record {
  valid = unfold MemoryStore.delete in internal_delete-IsValid s id v;
  shrinks = delete-Shrinks s id;
}

delete_by_user_id-Shrinks :
    (s : MemoryStore) (user : String) → IsValid s → Shrinks s (MemoryStore.delete_by_user_id s user)
delete_by_user_id-Shrinks s user v k =
    ground (arith, get-delete_by_user_id s user k v.aligned.unique_store)

delete_by_user_id-Trims :
    (s : MemoryStore) (user : String) → IsValid s → Trims s (MemoryStore.delete_by_user_id s user)
delete_by_user_id-Trims s user v = record {
  valid = delete_by_user_id-IsValid s user v;
  shrinks = delete_by_user_id-Shrinks s user v;
}

get-Trims :
    (s : MemoryStore) (now : ℕ) (id : String) → IsValid s → Trims s (MemoryStore.get s now id).0
get-Trims s now id v = record { valid = get-IsValid s now id v; shrinks = get-Shrinks s now id }

module _ {L K R : Type 0} (base : Deps MemoryStore L K R) where
  -- The service over the in-memory session store.
  abbrev pub over_memory : Deps MemoryStore L K R
  over_memory = record base { store = memory_store }

  delete_first-Trims :
      (count : ℕ) (ids : List String) (s : MemoryStore)
      → IsValid s
      → Trims s (delete_first over_memory count ids s)
  unfolding delete_first memory_store
  delete_first-Trims zero ids s v = Trims-refl s v
  delete_first-Trims (suc count) [] s v = Trims-refl s v
  delete_first-Trims (suc count) (id ∷ ids) s v =
      let first = delete-Trims s id v in
      Trims-trans s (MemoryStore.delete s id) _ first
        (delete_first-Trims count ids (MemoryStore.delete s id) first.valid)

  collect-Trims :
      (ids : List String) (s : MemoryStore) (now : ℕ)
      → IsValid s
      → Trims s (collect over_memory ids s now).0
  unfolding collect memory_store
  collect-Trims [] s now v = Trims-refl s v
  collect-Trims (id ∷ ids) s now v =
      let first = get-Trims s now id v in
      let rest = collect-Trims ids (MemoryStore.get s now id).0 now first.valid in
      let both = Trims-trans s (MemoryStore.get s now id).0 _ first rest in
      elim (Option-cases (MemoryStore.get s now id).1) [
        | inl e ↦ rw (e, collect) both
        | inr (found, e) ↦ rw (e, collect) both
      ]

  limit_accounts-Trims :
      (user_id : String) (max_accounts : ℕ) (fs : List Found) (w : World MemoryStore L K R)
      → IsValid w.store
      → Trims w.store (limit_accounts over_memory user_id max_accounts fs w).0.store
  unfolding limit_accounts
  limit_accounts-Trims user_id max_accounts fs w v =
      let mine = map (λ p. p.0) (sort_by_create_time (sessions_of user_id fs)) in
      let max_same = get_or base.config.max_same_device_sessions 1 in
      elim (Bool-cases (
        not (includes (distinct_users fs) user_id)
        && leb max_accounts (length (distinct_users fs)))) [
          | inl e ↦ rw e (Trims-refl w.store v)
          | inr e ↦ rw e (elim (Bool-cases (leb (length mine) 0)) [
            | inl e' ↦ rw e' (Trims-refl w.store v)
            | inr e' ↦ rw e' (elim (Bool-cases (leb (overflow mine max_same) (length mine))) [
              | inl o ↦ rw o (delete_first-Trims (overflow mine max_same) mine w.store v)
              | inr o ↦ rw o (delete_first-Trims (overflow mine max_same) mine w.store v)
            ])
          ])
        ]

  handle_multi_account_login-Trims :
      (user_id device : String) (w : World MemoryStore L K R)
      → IsValid w.store
      → Trims w.store
          (handle_multi_account_login over_memory MemoryStore.list_by_device user_id device
            w).0.store
  unfolding handle_multi_account_login delete_first
  handle_multi_account_login-Trims user_id device w v =
      elim (Option-cases base.config.multi_account) [
        | inl e ↦ rw e (Trims-refl w.store v)
        | inr (multi, e) ↦ rw e (elim (Bool-cases (is_true multi.enabled)) [
          | inl e' ↦
              let found =
                collect over_memory (MemoryStore.list_by_device w.store device) w.store w.now in
              let first =
                collect-Trims (MemoryStore.list_by_device w.store device) w.store w.now v in
              rw e' (
                Trims-trans w.store found.0 _ first (
                  limit_accounts-Trims user_id (get_or multi.max_accounts 5) found.1
                    (record w { store = found.0 }) first.valid))
          | inr e' ↦ rw e' (Trims-refl w.store v)
        ])
      ]

  pub limit_device-Trims :
      (user_id : String) (device : Option String) (w : World MemoryStore L K R)
      → IsValid w.store
      → Trims w.store (limit_device over_memory user_id device w).0.store
  unfolding limit_device memory_store
  limit_device-Trims user_id device w v = elim (Bool-cases (truthy device)) [
    | inl e ↦ rw e (handle_multi_account_login-Trims user_id (get_or device "") w v)
    | inr e ↦ rw e (Trims-refl w.store v)
  ]

  apply_policy-Trims :
      (policy : LoginPolicy) (user_id : String) (device : Option String)
      (w : World MemoryStore L K R)
      → IsValid w.store
      → Trims w.store (apply_policy over_memory policy user_id device w).0.store
  unfolding apply_policy make_way memory_store
  apply_policy-Trims single user_id device w v = delete_by_user_id-Trims w.store user_id v
  apply_policy-Trims multiple user_id device w v = Trims-refl w.store v
  apply_policy-Trims mutual_exclusion user_id device w v = elim (Bool-cases (truthy device)) [
    | inl e ↦
        let ids = MemoryStore.list_by_user_id_and_device w.store user_id (get_or device "") in
        rw e (
          delete_first-Trims (overflow ids (get_or base.config.max_same_device_sessions 1)) ids
            w.store v)
    | inr e ↦ rw e (Trims-refl w.store v)
  ]

  -- The first two steps of the `try` block only remove sessions, and take no time.
  pub make_room-Trims :
      (policy : LoginPolicy) (user_id : String) (device : Option String)
      (w : World MemoryStore L K R)
      → IsValid w.store
      → Trims w.store
          (limit_device over_memory user_id device
            (apply_policy over_memory policy user_id device w).0).0.store
  make_room-Trims policy user_id device w v =
      let first = apply_policy-Trims policy user_id device w v in
      Trims-trans w.store (apply_policy over_memory policy user_id device w).0.store _ first (
        limit_device-Trims user_id device (apply_policy over_memory policy user_id device w).0
          first.valid)
