-- ===== src/Auth/Service.antt =====
-- src/auth/auth.service.ts: the world that the service works on, and the steps its methods share.
pub mod Login
pub mod Sessions
pub mod Tokens
use Prim.Native.String
use luoluo_auth.Common.{
  ℕ, suc, ◌+◌, String, Bool, true, false, Option, none, some, List, [], ◌∷◌, ◌++◌, if◌then◌else◌,
  truthy, get_or, or_text,
}
use luoluo_auth.Auth.Errors.{M, Outcome, ok, return}
use luoluo_auth.Auth.Interfaces.{
  SessionStore, TokenStrategy, DistributedLock, RateLimiter, RedisClient, AuthServiceConfig,
  AuditLog, AuditAction, AuditDetails,
}

-- `Response` of express, as far as the service writes it: the token cookies it was told to set,
-- with their lifetime in seconds, or to clear, the latest first.
pub data CookieCall : Type 0 where
  write : (token : String) (max_age : Option ℕ) → CookieCall
  erase : CookieCall

-- `S`, `L`, `K`, `R` are the states of the session store, the rate limiter, the lock and the redis
-- client.
pub record World (S L K R : Type 0) : Type 0 where
  pub now : ℕ
  pub store : S
  pub limiter : L
  pub lock : K
  pub redis : R
  pub audit : List AuditLog
  pub cookies : List CookieCall
  -- how many random values were drawn
  pub drawn : ℕ

-- What is injected. `random` is `randomUUID` and the like, by the number of the draw; `meanwhile`
-- is what other requests do to the world while this one waits.
pub record Deps (S L K R : Type 0) : Type 0 where
  pub store : SessionStore S
  pub strategy : TokenStrategy S
  pub config : AuthServiceConfig
  pub limiter : Option (RateLimiter L)
  pub lock : Option (DistributedLock K)
  pub redis : Option (RedisClient R)
  pub has_audit : Bool
  -- `cookieService?.isEnabled()`
  pub cookies_enabled : Bool
  pub random : ℕ → String
  pub meanwhile : World S L K R → World S L K R

module _ {S L K R : Type 0} where
  -- `auditService?.log`, at the present time.
  unfoldable pub log_audit :
      Deps S L K R
      → String
      → AuditAction
      → Option String
      → Option String
      → AuditDetails
      → M (World S L K R) (Unit {0})
  log_audit d user_id action device session_id details w =
      let entry : AuditLog = record {
        user_id = user_id;
        action = action;
        device = device;
        ip = none;
        timestamp = w.now;
        session_id = session_id;
        details = details;
      } in
      (if d.has_audit then record w { audit = entry ∷ w.audit } else w, ok tt)

  abbrev pub draw : Deps S L K R → M (World S L K R) String
  draw d w = (record w { drawn = suc w.drawn }, ok (d.random w.drawn))

  abbrev pub modify_store : (S → S) → M (World S L K R) (Unit {0})
  modify_store f w = (record w { store = f w.store }, ok tt)

  abbrev pub read_store : {A : Type 0} → (S → ℕ → S × A) → M (World S L K R) A
  read_store f w = let (s, a) = f w.store w.now in (record w { store = s }, ok a)

  abbrev pub when : Bool → M (World S L K R) (Unit {0}) → M (World S L K R) (Unit {0})
  when true m = m
  when false m = return tt

  abbrev pub time_now : M (World S L K R) ℕ
  time_now w = (w, ok w.now)
