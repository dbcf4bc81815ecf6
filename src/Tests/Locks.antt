-- ===== src/Tests/Locks.antt =====
-- The in-memory lock on concrete histories.
use luoluo_auth.Common.{true, ◌≤◌, refl, [], ◌≡◌, none, some, arith}
use luoluo_auth.MemoryStore.{MemoryStore}
use luoluo_auth.Auth.Strategies.{memory_store, random_token_strategy}
use luoluo_auth.Auth.Service.{World, Deps}
use luoluo_auth.Auth.Service.Login.{login_guarded, build_login_lock_key, acquire_lock_with_retry}
use luoluo_auth.Auth.Service.Login.Locking.{lock_for, login_guarded-released}
use luoluo_auth.Tests.Service.{base, before, request}
use luoluo_auth.Common.JsMap
use luoluo_auth.Auth.Interfaces.{LockToken}
use luoluo_auth.Auth.Lock.{MemoryDistributedLock, new_lock, memory_lock, acquire}
use luoluo_auth.Auth.Lock.Holder.{holder}

abbrev with_lock : Deps MemoryStore (Unit {0}) MemoryDistributedLock (Unit {0})
with_lock = record {
  store = memory_store;
  strategy = random_token_strategy memory_store none;
  config = base.config;
  limiter = none;
  lock = some memory_lock;
  redis = none;
  has_audit = true;
  cookies_enabled = true;
  random = base.random;
  meanwhile = λ w. w;
}

abbrev unlocked : World MemoryStore (Unit {0}) MemoryDistributedLock (Unit {0})
unlocked = record {
  now = 10;
  store = before.store;
  limiter = tt;
  lock = new_lock;
  redis = tt;
  audit = [];
  cookies = [];
  drawn = 0;
}

abbrev login_token : LockToken
login_token = record { key = "login:ann:web"; token = "x" }

granted : (lock_for with_lock request unlocked).1 ≡ some login_token
unfolding acquire_lock_with_retry memory_lock acquire JsMap.has JsMap.get build_login_lock_key
granted = refl

soon : (lock_for with_lock request unlocked).0.now ≤ 11
unfolding acquire_lock_with_retry
soon = ground arith

login_guarded-released_example :
    holder
      (login_guarded with_lock request memory_lock unlocked).0.lock
      11
      (build_login_lock_key request.user_id request.device)
    ≡ none
login_guarded-released_example =
    login_guarded-released with_lock request unlocked login_token 11 granted soon

abbrev taken : MemoryDistributedLock
taken = (acquire "u1" new_lock 10 "login:ann" 50).0

-- Taken again after the end of the first hold.
abbrev retaken : MemoryDistributedLock
retaken = (acquire "u2" taken 60 "login:ann" 50).0

abbrev first_token : LockToken
first_token = record { key = "login:ann"; token = "u1" }
