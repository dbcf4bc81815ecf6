-- ===== src/Auth/Interfaces.antt =====
-- The interfaces of src/auth: session store, token strategy, distributed lock, rate limiter, audit
-- log, and the configuration of the service. A method takes the state that it works on and the
-- time; an optional method is an `Option`.
use luoluo_auth.Common.{ℕ, String, Bool, Option, List}
use luoluo_auth.MemoryStore.Data.{SessionData}
use luoluo_auth.RateLimit.{RateLimitContext}
use luoluo_auth.Auth.Errors.{Outcome}

pub record SessionStore (S : Type 0) : Type 0 where
  pub set : S → ℕ → String → SessionData → Option ℕ → S
  pub get : S → ℕ → String → S × Option SessionData
  pub delete : S → String → S
  pub delete_by_user_id : S → String → S
  pub delete_by_user_id_and_device : Option (S → String → String → S)
  pub list_by_user_id_and_device : Option (S → String → String → List String)
  pub list_by_user_id : Option (S → String → List SessionData)
  pub list_by_device : Option (S → String → List String)
  pub renew : Option (S → ℕ → String → Option ℕ → S)
  pub ban : Option (S → ℕ → String → ℕ → S)
  pub is_banned : Option (S → ℕ → String → S × Bool)
  pub unban : Option (S → String → S)

pub record TokenPayload : Type 0 where
  pub session_id : String
  pub user_id : String
  pub device : Option String

-- `generate` and `rotate` take what the strategy draws at random as their first argument.
pub record TokenStrategy (S : Type 0) : Type 0 where
  pub generate : String → ℕ → TokenPayload → String
  pub verify : S → ℕ → String → S × Outcome TokenPayload
  pub extract_session_id : Option (String → String)
  pub rotate : Option (String → S → ℕ → String → S × Option String)

pub record LockToken : Type 0 where
  pub key : String
  pub token : String

-- `acquire` takes the UUID that it draws as its first argument.
pub record DistributedLock (K : Type 0) : Type 0 where
  pub acquire : String → K → ℕ → String → ℕ → K × Option LockToken
  pub release : K → LockToken → K

pub record RateLimiter (L : Type 0) : Type 0 where
  pub allow : L → ℕ → RateLimitContext → L × Bool

-- The three commands of the redis client that the service itself sends: `SET key '1' EX seconds`,
-- whether `GET key` finds something, and `DEL key`.
pub record RedisClient (R : Type 0) : Type 0 where
  pub set_ex : R → ℕ → String → ℕ → R
  pub has : R → ℕ → String → Bool
  pub del : R → String → R

pub data LoginPolicy : Type 0 where
  single multiple mutual_exclusion : LoginPolicy

pub record FingerprintConfig : Type 0 where
  pub enabled : Bool
  pub strict : Bool

pub record LockConfig : Type 0 where
  pub enabled : Option Bool
  pub ttl_ms : Option ℕ
  pub retries : Option ℕ
  pub retry_delay_ms : Option ℕ

pub record MultiAccountConfig : Type 0 where
  pub enabled : Option Bool
  pub max_accounts : Option ℕ

-- `rate_limit` is `rateLimit?.enabled`; the service reads no more of it.
pub record AuthServiceConfig : Type 0 where
  pub token_ttl : Option ℕ
  pub login_policy : Option LoginPolicy
  pub auto_renew : Bool
  pub rpc_ip_whitelist : List String
  pub safe_auth_ttl : Option ℕ
  pub rate_limit : Bool
  pub remember_me_ttl : Option ℕ
  pub fingerprint : Option FingerprintConfig
  pub max_same_device_sessions : Option ℕ
  pub distributed_lock : Option LockConfig
  pub multi_account : Option MultiAccountConfig

pub data AuditAction : Type 0 where
  login logout force_logout kick ban unban switch_identity renew open_safe_auth close_safe_auth :
      AuditAction
  rpc_call signature_auth : AuditAction
  fingerprint_mismatch_warn fingerprint_mismatch_reject : AuditAction

-- What the service puts in `details`.
pub data AuditDetails : Type 0 where
  nothing : AuditDetails
  login_details : (policy : LoginPolicy) (ip : Option String) → AuditDetails
  by_device : Bool → AuditDetails
  ban_duration : ℕ → AuditDetails
  identities : (target original : String) → AuditDetails
  fingerprints : (expected_ip expected_agent actual_ip actual_agent : Option String) → AuditDetails

pub record AuditLog : Type 0 where
  pub user_id : String
  pub action : AuditAction
  pub device : Option String
  pub ip : Option String
  pub timestamp : ℕ
  pub session_id : Option String
  pub details : AuditDetails
