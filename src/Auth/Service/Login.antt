-- ===== src/Auth/Service/Login.antt =====
-- src/auth/auth.service.ts, `login` with its private helpers.
pub mod Shrinking
pub mod Timing
pub mod Locking
pub mod Laws
pub mod Roundtrip
use Prim.Native.String
use luoluo_auth.Common.{
  ℕ, zero, suc, ◌+◌, ◌-◌, ◌/◌, ◌≤◌, String, Bool, true, false, not, ◌&&◌, ◌||◌, Option, none, some,
  List, [], ◌∷◌, map, leb, if◌then◌else◌, truthy, get_or, or_text, or_number, is_some, length,
  includes, ◌==◌,
}
use luoluo_auth.MemoryStore.Data.{SessionData, sort_by_create_time}
use luoluo_auth.RateLimit.{RateLimitContext}
use luoluo_auth.Auth.Errors.{
  M, Outcome, ok, throw, ◌>>=◌, ◌>>◌, return, raise, after, proceed, login_rate_limited,
  login_concurrent_limit, multi_account_limit_exceeded, internal_error,
}
use luoluo_auth.Auth.Interfaces.{
  SessionStore, TokenStrategy, DistributedLock, LockToken, RateLimiter, AuthServiceConfig,
  LoginPolicy, single, multiple, mutual_exclusion, LockConfig, MultiAccountConfig, TokenPayload,
  login, login_details,
}
use luoluo_auth.Auth.Service.{
  World, Deps, CookieCall, write, log_audit, draw, modify_store, read_store, when, time_now,
}

-- The parameters of `login`; `has_res` says that a response object was passed.
pub record LoginRequest : Type 0 where
  pub user_id : String
  pub device : Option String
  pub roles : Option (List String)
  pub permissions : Option (List String)
  pub ip : Option String
  pub user_agent : Option String
  pub has_res : Bool
  pub remember_me : Option Bool

abbrev pub is_true : Option Bool → Bool
is_true none = false
is_true (some b) = b

-- `login:${userId}:${device || 'unknown'}`
unfoldable pub build_login_lock_key : String → Option String → String
build_login_lock_key user_id device =
    String.◌++◌ "login:" (String.◌++◌ user_id (String.◌++◌ ":" (or_text device "unknown")))

-- `ids.length - maxSame + 1`, where it is positive.
abbrev pub overflow : List String → ℕ → ℕ
overflow ids max_same = length ids + 1 - max_same

-- A session of the current device: session id, user, creation time.
abbrev pub Found : Type 0
Found = String × String × ℕ

-- The `Set` of users, by their first appearance.
unfoldable pub distinct_users : List Found → List String
distinct_users [] = []
distinct_users ((id, user, time) ∷ fs) =
    let users = distinct_users fs in if includes users user then users else user ∷ users

unfoldable pub sessions_of : String → List Found → List (String × ℕ)
sessions_of user_id [] = []
sessions_of user_id ((id, user, time) ∷ fs) =
    if user == user_id then (id, time) ∷ sessions_of user_id fs else sessions_of user_id fs

-- `acquireLockWithRetry` goes on only from a failed attempt.
abbrev pub retry : {W A : Type 0} → W × Option A → (W → W × Option A) → W × Option A
retry (w, some a) again = (w, some a)
retry (w, none) again = again w

module _ {S L K R : Type 0} (d : Deps S L K R) where
  unfoldable pub acquire_once :
      DistributedLock K → String → ℕ → World S L K R → World S L K R × Option LockToken
  acquire_once locks key ttl_ms w =
      let (k, got) = locks.acquire (d.random w.drawn) w.lock w.now key ttl_ms in
      (record w { lock = k; drawn = suc w.drawn }, got)

  -- The wait between two attempts: time passes, and other requests run.
  unfoldable pub sleep : ℕ → World S L K R → World S L K R
  sleep delay w = d.meanwhile (record w { now = w.now + delay })

  -- `acquireLockWithRetry`, by the number of retries that are left.
  unfoldable pub acquire_lock_with_retry :
      DistributedLock K → String → ℕ → ℕ → ℕ → World S L K R → World S L K R × Option LockToken
  unfolding acquire_once sleep
  acquire_lock_with_retry locks key ttl_ms delay zero w = acquire_once locks key ttl_ms w
  acquire_lock_with_retry locks key ttl_ms delay (suc retries) w =
      retry (acquire_once locks key ttl_ms w)
        (λ w'. acquire_lock_with_retry locks key ttl_ms delay retries (sleep delay w'))

  -- `for (i < count) store.delete(ids[i])`; past the end of the list `delete(undefined)` finds
  -- nothing to delete.
  unfoldable pub delete_first : ℕ → List String → S → S
  delete_first zero ids s = s
  delete_first (suc count) [] s = s
  delete_first (suc count) (id ∷ ids) s = delete_first count ids (d.store.delete s id)

  -- The first loop of `handleMultiAccountLogin`: the sessions that are still there.
  unfoldable pub collect : List String → S → ℕ → S × List Found
  collect [] s now = (s, [])
  collect (id ∷ ids) s now =
      let (s', session) = d.store.get s now id in
      let (s'', fs) = collect ids s' now in
      elim session [
        | none ↦ (s'', fs)
        | some found ↦ (s'', (id, found.user_id, found.create_time) ∷ fs)
      ]

  -- The check and the clean-up, with the sessions of the device at hand. Where there are fewer
  -- sessions than the loop counts, `userSessions[i].sessionId` throws a TypeError, a 500 to the client.
  unfoldable pub limit_accounts : String → ℕ → List Found → M (World S L K R) (Unit {0})
  limit_accounts user_id max_accounts fs =
      let users = distinct_users fs in
      let mine = map (λ p. p.0) (sort_by_create_time (sessions_of user_id fs)) in
      let max_same = get_or d.config.max_same_device_sessions 1 in
      if not (includes users user_id) && leb max_accounts (length users)
      then raise multi_account_limit_exceeded 403
      else if leb (length mine) 0
      then return tt
      else if leb (overflow mine max_same) (length mine)
      then modify_store (delete_first (overflow mine max_same) mine)
      else modify_store (delete_first (overflow mine max_same) mine) >> raise internal_error 500

  unfoldable pub handle_multi_account_login :
      (S → String → List String) → String → String → M (World S L K R) (Unit {0})
  unfolding collect limit_accounts
  handle_multi_account_login list_by_device user_id device = elim d.config.multi_account [
    | none ↦ return tt
    | some multi ↦
        if is_true multi.enabled
        then read_store (λ s now. collect (list_by_device s device) s now)
          >>= limit_accounts user_id (get_or multi.max_accounts 5)
        else return tt
  ]

  -- What `mutual-exclusion` does with the sessions of the user on the device.
  unfoldable pub make_way : String → String → M (World S L K R) (Unit {0})
  unfolding delete_first
  make_way user_id device = elim d.store.list_by_user_id_and_device [
    | some list ↦ modify_store (λ s.
        let ids = list s user_id device in
        delete_first (overflow ids (get_or d.config.max_same_device_sessions 1)) ids s)
    | none ↦ elim d.store.delete_by_user_id_and_device [
      | some delete_all ↦ modify_store (λ s. delete_all s user_id device)
      | none ↦ return tt
    ]
  ]

  unfoldable pub apply_policy : LoginPolicy → String → Option String → M (World S L K R) (Unit {0})
  unfolding make_way
  apply_policy single user_id device = modify_store (λ s. d.store.delete_by_user_id s user_id)
  apply_policy multiple user_id device = return tt
  apply_policy mutual_exclusion user_id device =
      when (truthy device) (make_way user_id (get_or device ""))

  unfoldable pub limit_device : String → Option String → M (World S L K R) (Unit {0})
  unfolding handle_multi_account_login
  limit_device user_id device = elim d.store.list_by_device [
    | none ↦ return tt
    | some list ↦ when (truthy device) (handle_multi_account_login list user_id (get_or device ""))
  ]

  abbrev pub policy_of : LoginPolicy
  policy_of = get_or d.config.login_policy multiple

  -- `rememberMe ? config.rememberMeTtl || config.tokenTtl : config.tokenTtl`
  unfoldable pub login_ttl : Option Bool → Option ℕ
  login_ttl remember_me =
      if is_true remember_me
      then elim d.config.remember_me_ttl [
        | none ↦ d.config.token_ttl
        | some ttl ↦ if leb ttl 0 then d.config.token_ttl else some ttl
      ]
      else d.config.token_ttl

  abbrev pub new_session : LoginRequest → ℕ → SessionData
  new_session q now = record {
    user_id = q.user_id;
    device = q.device;
    create_time = now;
    roles = q.roles;
    permissions = q.permissions;
    original_user_id = none;
    switch_time = none;
    safe_auth = none;
    safe_auth_time = none;
    ip = q.ip;
    user_agent = q.user_agent;
    remember_me = q.remember_me;
  }

  -- `extractSessionId ? extractSessionId(token) : payload.sessionId`
  abbrev pub store_session_id : String → String → String
  store_session_id token session_id = elim d.strategy.extract_session_id [
    | none ↦ session_id
    | some extract ↦ extract token
  ]

  -- `ttl ? Math.floor(ttl / 1000) : undefined`
  abbrev pub max_age : Option ℕ → Option ℕ
  max_age none = none
  max_age (some ttl) = if leb ttl 0 then none else some (ttl / 1000)

  abbrev pub write_cookie : String → Option ℕ → M (World S L K R) (Unit {0})
  write_cookie token age w = (record w { cookies = write token age ∷ w.cookies }, ok tt)

  -- The end of the `try` block: the session is made, stored, logged and answered with its token.
  unfoldable pub open_session : LoginRequest → M (World S L K R) String
  unfolding login_ttl log_audit
  open_session q = do
    session_id ← draw d
    seed ← draw d
    now ← time_now
    let token =
        d.strategy.generate seed now
          (record { session_id = session_id; user_id = q.user_id; device = q.device })
    let ttl = login_ttl q.remember_me
    modify_store
        (λ s. d.store.set s now (store_session_id token session_id) (new_session q now) ttl)
    log_audit d q.user_id login q.device (some session_id) (login_details policy_of q.ip)
    when (d.cookies_enabled && q.has_res) (write_cookie token (max_age ttl))
    return token

  -- The `try` block.
  unfoldable pub login_locked : LoginRequest → M (World S L K R) String
  unfolding apply_policy limit_device open_session
  login_locked q = do
    apply_policy policy_of q.user_id q.device
    limit_device q.user_id q.device
    open_session q

  abbrev pub lock_enabled : Bool
  lock_enabled = elim d.config.distributed_lock [ none ↦ true | some c ↦ get_or c.enabled true ]

  abbrev pub lock_setting : (LockConfig → Option ℕ) → ℕ → ℕ
  lock_setting field default = elim d.config.distributed_lock [
    | none ↦ default
    | some c ↦ get_or (field c) default
  ]

  -- The lock, and with it the `try` and the `finally`.
  unfoldable pub login_guarded : LoginRequest → DistributedLock K → M (World S L K R) String
  unfolding login_locked acquire_lock_with_retry build_login_lock_key
  login_guarded q locks w =
      let (w', got) =
        acquire_lock_with_retry locks (build_login_lock_key q.user_id q.device)
          (lock_setting (λ c. c.ttl_ms) 5000) (lock_setting (λ c. c.retry_delay_ms) 50)
          (lock_setting (λ c. c.retries) 0) w in
      elim got [
        | none ↦ raise login_concurrent_limit 423 w'
        | some token ↦
            after (login_locked q w') (λ u. record u { lock = locks.release u.lock token })
      ]

  unfoldable pub check_rate : LoginRequest → M (World S L K R) (Unit {0})
  check_rate q w = elim d.limiter [
    | none ↦ (w, ok tt)
    | some limiter ↦
        let context : RateLimitContext = record {
          ip = get_or q.ip "";
          user_id = some q.user_id;
          action = "login";
        } in
        let (l, allowed) = limiter.allow w.limiter w.now context in
        let w' = record w { limiter = l } in
        if d.config.rate_limit && truthy q.ip
        then if allowed then (w', ok tt) else raise login_rate_limited 429 w'
        else (w, ok tt)
  ]

  unfoldable pub login_user : LoginRequest → M (World S L K R) String
  unfolding check_rate login_guarded login_locked
  login_user q = check_rate q >> (elim d.lock [
    | none ↦ login_locked q
    | some locks ↦ if lock_enabled then login_guarded q locks else login_locked q
  ])
