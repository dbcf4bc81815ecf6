-- ===== src/Auth/Strategies.antt =====
-- src/auth/strategies, and src/auth/stores/memory-store.ts as a session store of the service.
use Prim.Native.String
use luoluo_auth.Common.{ℕ, String, Option, none, some, if◌then◌else◌, truthy, get_or}
use luoluo_auth.MemoryStore
use luoluo_auth.MemoryStore.{MemoryStore}
use luoluo_auth.RateLimit.{MemoryRateLimiter, allow}
use luoluo_auth.Auth.Errors.{Outcome, ok, fail, token_expired, token_invalid, session_not_found}
use luoluo_auth.Auth.Interfaces.{SessionStore, TokenPayload, TokenStrategy, RateLimiter}

-- What jsonwebtoken answers: `sign`, `verify` with its two kinds of refusal, and `decode`, which
-- reads the payload of any well-formed token and checks nothing.
pub data Verdict : Type 0 where
  valid : TokenPayload → Verdict
  expired : Verdict
  invalid : Verdict

-- `iat` and `exp` are in seconds.
pub record DecodedToken : Type 0 where
  pub session_id : String
  pub user_id : String
  pub device : Option String
  pub iat : Option ℕ
  pub exp : Option ℕ

pub record JwtLibrary : Type 0 where
  pub sign : ℕ → TokenPayload → String
  pub verify : ℕ → String → Verdict
  pub decode : String → Option DecodedToken

abbrev pub jwt_outcome : Verdict → Outcome TokenPayload
jwt_outcome (valid payload) = ok payload
jwt_outcome expired = fail token_expired 401
jwt_outcome invalid = fail token_invalid 401

-- `JwtStrategy`, with its secret and lifetime inside the library's functions.
unfoldable pub jwt_strategy : {S : Type 0} → JwtLibrary → TokenStrategy S
jwt_strategy jwt = record {
  generate = λ seed now payload. jwt.sign now payload;
  verify = λ s now token. (s, jwt_outcome (jwt.verify now token));
  extract_session_id = none;
  rotate = none;
}

-- `RandomTokenStrategy`. The random part of a token is drawn in the style that is configured; the
-- five styles differ in nothing else, and any other is refused by the type of the options.
unfoldable pub random_token : Option String → String → String
random_token prefix drawn =
    if truthy prefix then String.◌++◌ (get_or prefix "") (String.◌++◌ ":" drawn) else drawn

module _ {S : Type 0} (store : SessionStore S) (prefix : Option String) where
  unfoldable pub verify_random : S → ℕ → String → S × Outcome TokenPayload
  verify_random s now token =
      let (s', session) = store.get s now token in
      elim session [
        | none ↦ (s', fail session_not_found 401)
        | some found ↦
            (s', ok (record { session_id = token; user_id = found.user_id; device = found.device }))
      ]

  unfoldable pub rotate_random : String → S → ℕ → String → S × Option String
  rotate_random seed s now token =
      let (s', session) = store.get s now token in
      let new_token = random_token prefix seed in
      elim session [
        | none ↦ (s', none)
        | some found ↦ (store.delete (store.set s' now new_token found none) token, some new_token)
      ]

  unfoldable pub random_token_strategy : TokenStrategy S
  unfolding verify_random rotate_random random_token
  random_token_strategy = record {
    generate = λ seed now payload. random_token prefix seed;
    verify = verify_random;
    extract_session_id = some (λ token. token);
    rotate = some rotate_random;
  }

-- `MemoryStore` has no `deleteByUserIdAndDevice`.
unfoldable pub memory_store : SessionStore MemoryStore
memory_store = record {
  set = MemoryStore.set;
  get = MemoryStore.get;
  delete = MemoryStore.delete;
  delete_by_user_id = MemoryStore.delete_by_user_id;
  delete_by_user_id_and_device = none;
  list_by_user_id_and_device = some MemoryStore.list_by_user_id_and_device;
  list_by_user_id = some MemoryStore.list_by_user_id;
  list_by_device = some MemoryStore.list_by_device;
  renew = some MemoryStore.renew;
  ban = some MemoryStore.ban;
  is_banned = some MemoryStore.is_banned;
  unban = some MemoryStore.unban;
}

unfoldable pub memory_limiter : RateLimiter MemoryRateLimiter
memory_limiter = record { allow = allow }
