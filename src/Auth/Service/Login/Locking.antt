-- ===== src/Auth/Service/Login/Locking.antt =====
-- src/auth/auth.service.ts, `login` behind the in-memory lock: the lock is given back.
use luoluo_auth.Common.{
  ℕ, zero, suc, ◌≤◌, ◌≡◌, refl, ◌∙◌, ◌⊎◌, inl, inr, String, not, ◌&&◌, Option, none, some, List,
  map, leb, truthy, get_or, length, includes, arith, Option-cases, Bool-cases, eq_iff, eq_refl,
}
use luoluo_auth.MemoryStore.Data.{sort_by_create_time}
use luoluo_auth.Auth.Errors.{M, Outcome, ok, throw, proceed}
use luoluo_auth.Auth.Interfaces.{LoginPolicy, single, multiple, mutual_exclusion, LockToken}
use luoluo_auth.Auth.Lock.{MemoryDistributedLock, memory_lock, acquire, release}
use luoluo_auth.Auth.Lock.Holder.{holder, holder-acquire, holder-release}
use luoluo_auth.Auth.Service.{World, Deps, log_audit}
use luoluo_auth.Auth.Service.Login.{
  LoginRequest, Found, collect, delete_first, apply_policy, make_way, limit_device,
  handle_multi_account_login, limit_accounts, is_true, distinct_users, sessions_of, overflow,
  login_locked, open_session, login_guarded, acquire_once, acquire_lock_with_retry, retry, sleep,
  build_login_lock_key, lock_setting, policy_of,
}

module _ {S L K R : Type 0} (d : Deps S L K R) where
  -- A step that leaves the lock alone.
  abbrev KeepsLock : {A : Type 0} → M (World S L K R) A → Type 0
  KeepsLock m = (w : World S L K R) → (m w).0.lock ≡ w.lock

  proceed-lock :
      {A B : Type 0} (r : World S L K R × Outcome A) (f : A → M (World S L K R) B)
      → ((a : A) → KeepsLock (f a))
      → (proceed r f).0.lock ≡ r.0.lock
  proceed-lock (w, ok a) f h = h a w
  proceed-lock (w, throw e) f h = refl

  apply_policy-lock :
      (policy : LoginPolicy) (user_id : String) (device : Option String)
      → KeepsLock (apply_policy d policy user_id device)
  unfolding apply_policy make_way
  apply_policy-lock single user_id device w = refl
  apply_policy-lock multiple user_id device w = refl
  apply_policy-lock mutual_exclusion user_id device w = elim (Bool-cases (truthy device)) [
    | inr e ↦ rw e refl
    | inl e ↦ rw e (elim (Option-cases d.store.list_by_user_id_and_device) [
      | inr (list, f) ↦ rw f refl
      | inl f ↦ rw f (elim (Option-cases d.store.delete_by_user_id_and_device) [
        | inl g ↦ rw g refl
        | inr (delete_all, g) ↦ rw g refl
      ])
    ])
  ]

  limit_accounts-lock :
      (user_id : String) (max_accounts : ℕ) (fs : List Found)
      → KeepsLock (limit_accounts d user_id max_accounts fs)
  unfolding limit_accounts
  limit_accounts-lock user_id max_accounts fs w =
      let mine = map (λ p. p.0) (sort_by_create_time (sessions_of user_id fs)) in
      elim (Bool-cases (
        not (includes (distinct_users fs) user_id)
        && leb max_accounts (length (distinct_users fs)))) [
          | inl e ↦ rw e refl
          | inr e ↦ rw e (elim (Bool-cases (leb (length mine) 0)) [
            | inl e' ↦ rw e' refl
            | inr e' ↦
                rw e'
                  (elim (Bool-cases (
                    leb (overflow mine (get_or d.config.max_same_device_sessions 1))
                      (length mine))) [ inl o ↦ rw o refl | inr o ↦ rw o refl ])
          ])
        ]

  handle_multi_account_login-lock :
      (list : S → String → List String) (user_id device : String)
      → KeepsLock (handle_multi_account_login d list user_id device)
  unfolding handle_multi_account_login delete_first
  handle_multi_account_login-lock list user_id device w =
      elim (Option-cases d.config.multi_account) [
        | inl e ↦ rw e refl
        | inr (multi, e) ↦ rw e (elim (Bool-cases (is_true multi.enabled)) [
          | inl e' ↦
              let found = collect d (list w.store device) w.store w.now in
              rw e' (
                limit_accounts-lock user_id (get_or multi.max_accounts 5) found.1
                  (record w { store = found.0 }))
          | inr e' ↦ rw e' refl
        ])
      ]

  limit_device-lock :
      (user_id : String) (device : Option String) → KeepsLock (limit_device d user_id device)
  unfolding limit_device
  limit_device-lock user_id device w = elim (Option-cases d.store.list_by_device) [
    | inl e ↦ rw (e, limit_device) refl
    | inr (list, e) ↦ elim (Bool-cases (truthy device)) [
      | inl f ↦
          rw (e, limit_device)
            (rw f (handle_multi_account_login-lock list user_id (get_or device "") w))
      | inr f ↦ rw (e, limit_device) (rw f refl)
    ]
  ]

  open_session-lock : (q : LoginRequest) → KeepsLock (open_session d q)
  unfolding open_session log_audit
  open_session-lock q w = elim (Bool-cases (d.cookies_enabled && q.has_res)) [
    | inl e ↦ rw e (elim (Bool-cases d.has_audit) [ inl e' ↦ rw e' refl | inr e' ↦ rw e' refl ])
    | inr e ↦ rw e (elim (Bool-cases d.has_audit) [ inl e' ↦ rw e' refl | inr e' ↦ rw e' refl ])
  ]

  login_locked-lock : (q : LoginRequest) → KeepsLock (login_locked d q)
  unfolding login_locked
  login_locked-lock q w =
      proceed-lock (apply_policy d (policy_of d) q.user_id q.device w) _ (λ _ w'.
        proceed-lock (limit_device d q.user_id q.device w') _ (λ _. open_session-lock q)
        ∙ limit_device-lock q.user_id q.device w')
      ∙ apply_policy-lock (policy_of d) q.user_id q.device w

module _ {S L R : Type 0} (d : Deps S L MemoryDistributedLock R) where
  -- The token belongs to the key, and no other token holds the key from now on.
  Owns : LockToken → String → World S L MemoryDistributedLock R → Type 0
  Owns token key w =
      (token.key ≡ key)
      × ((later : ℕ)
          → w.now ≤ later
          → (holder w.lock later key ≡ none) ⊎ (holder w.lock later key ≡ some token.token))

  acquire-token :
      (uuid : String) (s : MemoryDistributedLock) (now : ℕ) (key : String) (ttl_ms : ℕ)
      (token : LockToken)
      → (acquire uuid s now key ttl_ms).1 ≡ some token
      → (token.key ≡ key) × (token.token ≡ uuid)
  unfolding acquire
  acquire-token uuid s now key ttl_ms token e = (ground arith, ground arith)

  acquire_once-Owns :
      (key : String) (ttl_ms : ℕ) (w : World S L MemoryDistributedLock R) (token : LockToken)
      → (acquire_once d memory_lock key ttl_ms w).1 ≡ some token
      → Owns token key (acquire_once d memory_lock key ttl_ms w).0
  unfolding acquire_once memory_lock Owns
  acquire_once-Owns key ttl_ms w token e =
      let uuid = d.random w.drawn in
      let (named, drawn) = acquire-token uuid w.lock w.now key ttl_ms token e in
      (
        named,
        λ later h.
            let (granted, held) = holder-acquire uuid w.lock w.now later key key ttl_ms h in
            ground (arith, e, granted, held, drawn, eq_refl key),
      )

  retry-Owns :
      (key : String) (token : LockToken) (r : World S L MemoryDistributedLock R × Option LockToken)
      (again : World S L MemoryDistributedLock R
        → World S L MemoryDistributedLock R × Option LockToken)
      → (r.1 ≡ some token → Owns token key r.0)
      → ((w : World S L MemoryDistributedLock R)
          → (again w).1 ≡ some token
          → Owns token key (again w).0)
      → (retry r again).1 ≡ some token
      → Owns token key (retry r again).0
  retry-Owns key token (w, some a) again h g e = h e
  retry-Owns key token (w, none) again h g e = g w e

  acquire_lock_with_retry-Owns :
      (key : String) (ttl_ms delay retries : ℕ) (w : World S L MemoryDistributedLock R)
      (token : LockToken)
      → (acquire_lock_with_retry d memory_lock key ttl_ms delay retries w).1 ≡ some token
      → Owns token key (acquire_lock_with_retry d memory_lock key ttl_ms delay retries w).0
  unfolding acquire_lock_with_retry
  acquire_lock_with_retry-Owns key ttl_ms delay zero w token e =
      acquire_once-Owns key ttl_ms w token e
  acquire_lock_with_retry-Owns key ttl_ms delay (suc retries) w token e =
      retry-Owns key token (acquire_once d memory_lock key ttl_ms w) _
        (acquire_once-Owns key ttl_ms w token)
        (λ w'. acquire_lock_with_retry-Owns key ttl_ms delay retries (sleep d delay w') token) e

  -- The lock of a login, with the retries that are configured.
  abbrev pub lock_for :
      LoginRequest
      → World S L MemoryDistributedLock R
      → World S L MemoryDistributedLock R × Option LockToken
  lock_for q =
      acquire_lock_with_retry d memory_lock (build_login_lock_key q.user_id q.device)
        (lock_setting d (λ c. c.ttl_ms) 5000) (lock_setting d (λ c. c.retry_delay_ms) 50)
        (lock_setting d (λ c. c.retries) 0)

  release-Owns :
      (token : LockToken) (key : String) (w w' : World S L MemoryDistributedLock R) (later : ℕ)
      → Owns token key w
      → w.now ≤ later
      → w'.lock ≡ w.lock
      → holder (release w'.lock token) later key ≡ none
  unfolding Owns
  release-Owns token key w w' later owns h same =
      let held = owns.1 later h in
      rw (same, holder-release w.lock token later key)
        (ground (arith, owns.0, held, eq_iff token.key key, eq_refl token.token))

  -- When a login behind the in-memory lock gets its lock, at any attempt and whatever other
  -- requests do between the attempts, then no one holds the key of the lock once the login has
  -- run, whether it answers or throws, at any time from then on.
  pub login_guarded-released :
      (q : LoginRequest) (w : World S L MemoryDistributedLock R) (token : LockToken) (later : ℕ)
      → (lock_for q w).1 ≡ some token
      → (lock_for q w).0.now ≤ later
      → holder
          (login_guarded d q memory_lock w).0.lock
          later
          (build_login_lock_key q.user_id q.device)
        ≡ none
  unfolding login_guarded memory_lock
  login_guarded-released q w token later e h =
      let key = build_login_lock_key q.user_id q.device in
      let w' = (lock_for q w).0 in
      rw (e, login_guarded)
        (release-Owns token key w' (login_locked d q w').0 later
          (acquire_lock_with_retry-Owns key _ _ _ w token e) h (login_locked-lock d q w'))
