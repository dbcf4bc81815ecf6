-- ===== src/Tests/RedisCommands.antt =====
-- A redis that keeps its values and sets as functions of the key, and the redis store over it.
use luoluo_auth.Common.{
  ℕ, ◌+◌, ◌*◌, ◌≡◌, inl, inr, refl, String, Bool, true, Option, none, some, List, [], ◌∷◌, ltb,
  if◌then◌else◌, includes, ◌==◌, arith, Bool-cases, eq_refl,
}
use luoluo_auth.MemoryStore.Data.{SessionData}
use luoluo_auth.RedisStore
use luoluo_auth.RedisStore.{
  RedisApi, SessionJson, ttl_seconds, delete_by_user_id, list_by_user_id, get_key, user_index_key,
}
use luoluo_auth.RedisStore.Commands.{RedisLaws, is_alive}
use luoluo_auth.RedisStore.Indexes.{delete_by_user_id_cut}
use luoluo_auth.RedisStore.Removal.{get-delete_by_user_id}
use luoluo_auth.Tests.Stores.{session_of}

-- A deadline is in milliseconds.
pub record Redis : Type 0 where
  pub values : String → Option (String × Option ℕ)
  pub sets : String → List String × Option ℕ

abbrev before : ℕ → Option ℕ → Bool
before now none = true
before now (some deadline) = ltb now deadline

abbrev deadline : ℕ → Option ℕ → Option ℕ
deadline now none = none
deadline now (some seconds) = some (now + seconds * 1000)

abbrev value : ℕ → Option (String × Option ℕ) → Option String
value now none = none
value now (some (v, end)) = if before now end then some v else none

abbrev members : ℕ → List String × Option ℕ → List String
members now (ids, end) = if before now end then ids else []

abbrev with_member : ℕ → String → List String × Option ℕ → List String × Option ℕ
with_member now id (ids, end) =
    if before now end then (if includes ids id then ids else id ∷ ids, end) else (id ∷ [], none)

abbrev without : String → List String → List String
without id [] = []
without id (x ∷ xs) = let rest = without id xs in if id == x then rest else x ∷ rest

abbrev expiring : Option ℕ → Option (String × Option ℕ) → Option (String × Option ℕ)
expiring end none = none
expiring end (some (v, old)) = some (v, end)

abbrev pub api : RedisApi Redis
api = record {
  get = λ r now k. value now (r.values k);
  set = λ r now k v seconds. record r {
    values = λ other. if k == other then some (v, deadline now seconds) else r.values other;
  };
  del = λ r k. record {
    values = λ other. if k == other then none else r.values other;
    sets = λ other. if k == other then ([], none) else r.sets other;
  };
  expire = λ r now k seconds. record {
    values = λ other.
        if k == other
        then expiring (deadline now (some seconds)) (r.values other)
        else r.values other;
    sets = λ other.
        if k == other then ((r.sets other).0, deadline now (some seconds)) else r.sets other;
  };
  sadd = λ r now k id. record r {
    sets = λ other. if k == other then with_member now id (r.sets other) else r.sets other;
  };
  srem = λ r now k id. record r {
    sets = λ other.
        if k == other then (without id (r.sets other).0, (r.sets other).1) else r.sets other;
  };
  smembers = λ r now k. members now (r.sets k);
}

before-deadline :
    (now later : ℕ) (seconds : Option ℕ)
    → before later (deadline now seconds) ≡ is_alive now seconds later
before-deadline now later none = refl
before-deadline now later (some seconds) = refl

pub laws : RedisLaws api
laws = record {
  get-set = λ r now later k other v seconds. elim (Bool-cases (k == other)) [
    | inl e ↦ rw (e, before-deadline now later seconds) refl
    | inr e ↦ rw e refl
  ];
  get-del =
      λ r later k other. elim (Bool-cases (k == other)) [ inl e ↦ rw e refl | inr e ↦ rw e refl ];
  get-srem = λ r now later k other id. refl;
  get-sadd = λ r now later k other id d. refl;
  get-expire = λ r now later k other seconds d. rw d refl;
  smembers-sadd = λ r now later k other id d. rw d refl;
  smembers-expire = λ r now later k other seconds d. rw d refl;
  smembers_expired = λ r now later k seconds h. rw (eq_refl k) (ground (arith, h));
}

-- A session is written by its user.
abbrev json : SessionJson
json = record { stringify = λ session. session.user_id; parse = λ text. session_of text "web" 3 }

abbrev ann : SessionData
ann = session_of "ann" "web" 3

abbrev pub empty : Redis
empty = record { values = λ k. none; sets = λ k. ([], none) }

-- One session without an expiry.
abbrev long : Redis
long = RedisStore.set api json empty 0 "long" ann none

long_there : RedisStore.get api json long 100000 "long" ≡ some ann
unfolding RedisStore.get RedisStore.set
long_there = refl

listed_there : list_by_user_id api json long 100000 "ann" ≡ ann ∷ []
unfolding list_by_user_id RedisStore.load RedisStore.get RedisStore.set
listed_there = refl

delete_by_user_id_cut_example :
    (list_by_user_id api json (RedisStore.set api json long 10 "short" ann (some 1500)) 100000 "ann"
      ≡ [])
    × (RedisStore.get api json
          (delete_by_user_id api json
            (RedisStore.set api json long 10 "short" ann (some 1500))
            100000
            "ann")
          100000
          "long"
        ≡ some ann)
delete_by_user_id_cut_example =
    delete_by_user_id_cut api json laws long 10 100000 "short" "long" ann ann (some 1500) 2 refl
      (ground arith) refl long_there

get-delete_by_user_id_example :
    RedisStore.get api json (delete_by_user_id api json long 20 "ann") 100000 "long" ≡ (
      if includes (api.smembers long 20 (user_index_key "ann")) "long"
      then none
      else RedisStore.get api json long 100000 "long")
get-delete_by_user_id_example = get-delete_by_user_id api json laws long 20 100000 "ann" "long"

deleted : RedisStore.get api json (delete_by_user_id api json long 20 "ann") 100000 "long" ≡ none
unfolding RedisStore.get RedisStore.set delete_by_user_id RedisStore.device_index_keys
    RedisStore.delete_sessions RedisStore.clear_devices RedisStore.remove_members
deleted = refl
