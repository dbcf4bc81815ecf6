-- ===== src/RedisStore/Commands.antt =====
-- The commands of redis that src/auth/stores/redis-store.ts relies on.
use luoluo_auth.Common.{
  ℕ, ◌+◌, ◌*◌, ◌≤◌, ◌≡◌, String, Bool, true, false, Option, none, some, [], ltb, if◌then◌else◌,
  ◌==◌,
}
use luoluo_auth.RedisStore.{RedisApi}

-- Whether a value that was set at a time is still there.
abbrev pub is_alive : ℕ → Option ℕ → ℕ → Bool
is_alive now none later = true
is_alive now (some seconds) later = ltb later (now + seconds * 1000)

-- What redis documents of its commands: a key is changed by the commands on it only, `SET`
-- stores its value up to the expiry, `DEL` removes a key, `SREM` touches no text, and a set whose
-- expiry has passed is empty.
pub record RedisLaws {R : Type 0} (api : RedisApi R) : Type 0 where
  pub get-set :
      (r : R) (now later : ℕ) (k other v : String) (seconds : Option ℕ)
      → api.get (api.set r now k v seconds) later other ≡ (
          if k == other
          then if is_alive now seconds later then some v else none
          else api.get r later other)
  pub get-del :
      (r : R) (later : ℕ) (k other : String)
      → api.get (api.del r k) later other ≡ (if k == other then none else api.get r later other)
  pub get-srem :
      (r : R) (now later : ℕ) (k other id : String)
      → api.get (api.srem r now k id) later other ≡ api.get r later other
  pub get-sadd :
      (r : R) (now later : ℕ) (k other id : String)
      → (k == other) ≡ false
      → api.get (api.sadd r now k id) later other ≡ api.get r later other
  pub get-expire :
      (r : R) (now later : ℕ) (k other : String) (seconds : ℕ)
      → (k == other) ≡ false
      → api.get (api.expire r now k seconds) later other ≡ api.get r later other
  pub smembers-sadd :
      (r : R) (now later : ℕ) (k other id : String)
      → (k == other) ≡ false
      → api.smembers (api.sadd r now k id) later other ≡ api.smembers r later other
  pub smembers-expire :
      (r : R) (now later : ℕ) (k other : String) (seconds : ℕ)
      → (k == other) ≡ false
      → api.smembers (api.expire r now k seconds) later other ≡ api.smembers r later other
  pub smembers_expired :
      (r : R) (now later : ℕ) (k : String) (seconds : ℕ)
      → now + seconds * 1000 ≤ later
      → api.smembers (api.expire r now k seconds) later k ≡ []
