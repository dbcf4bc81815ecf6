-- ===== src/Tests/Stores.antt =====
-- The session store on concrete histories.
use luoluo_auth.Common.{ℕ, ◌+◌, ◌≡◌, ◌≢◌, refl, String, none, some, List, [], ◌∷◌, arith, eq_iff}
use luoluo_auth.Common.JsMap
use luoluo_auth.MemoryStore
use luoluo_auth.MemoryStore.{MemoryStore, expiry, max_safe_integer, new_store, set_item}
use luoluo_auth.MemoryStore.Data.{SessionData}
use luoluo_auth.MemoryStore.Validity.{IsValid}
use luoluo_auth.MemoryStore.Reach
use luoluo_auth.MemoryStore.Reach.{run, run-IsValid, Event, AllNamed}
use luoluo_auth.MemoryStore.Reads.{stored}
use luoluo_auth.MemoryStore.Expiry.{renewal_history, renewed_history, renewed_lost}

abbrev pub session_of : String → String → ℕ → SessionData
session_of user_id device create_time = record {
  user_id = user_id;
  device = some device;
  create_time = create_time;
  roles = some ("admin" ∷ []);
  permissions = some ("order:*" ∷ []);
  original_user_id = none;
  switch_time = none;
  safe_auth = none;
  safe_auth_time = none;
  ip = none;
  user_agent = none;
  remember_me = none;
}

-- Two sessions of Ann on one device, the later one stored first, and one of Bob, in a store for
-- three.
abbrev pub history : List Event
history =
    Reach.set 5 "a2" (session_of "ann" "web" 5) (some 100)
    ∷ Reach.set 6 "b" (session_of "bob" "web" 6) none
    ∷ Reach.set 7 "a1" (session_of "ann" "web" 3) (some 50)
    ∷ Reach.get 8 "a2"
    ∷ []

history-AllNamed : AllNamed history
history-AllNamed = ground (arith, eq_iff "a2" "", eq_iff "b" "", eq_iff "a1" "")

abbrev pub three_sessions : MemoryStore
three_sessions = run (new_store (some 3)) history

pub three_sessions-IsValid : IsValid three_sessions
three_sessions-IsValid = run-IsValid (some 3) history history-AllNamed

run-IsValid_example : IsValid (run (new_store (some 3)) history)
run-IsValid_example = run-IsValid (some 3) history history-AllNamed

c_named : ◌≢◌ {A = String} "c" ""
c_named = ground (arith, eq_iff "c" "")

abbrev newcomer : SessionData
newcomer = session_of "cid" "app" 9

-- The least recently used session is evicted, and that is not the oldest one.
evicted_b : stored (MemoryStore.set three_sessions 9 "c" newcomer none) "b" ≡ none
unfolding MemoryStore.set run JsMap.get MemoryStore.evict_if_needed set_item MemoryStore.touch_lru
    Reach.step MemoryStore.get new_store JsMap.set JsMap.delete MemoryStore.internal_delete
evicted_b = refl

-- A month, with a renewal after 25 days for another month.
renewed_lost_example :
    (stored
        (run (new_store none) (renewal_history 0 "a" newcomer 2592000000 2160000000 2592000000))
        "a"
      ≡ some (newcomer, 2160000000 + 2592000000))
    × ((MemoryStore.get
          (run (new_store none) (renewed_history 0 "a" newcomer 2592000000 2160000000 2592000000))
          (0 + 2592000000)
          "a").1
        ≡ none)
renewed_lost_example =
    renewed_lost 0 "a" newcomer 2592000000 2160000000 2592000000 (omega arith) (omega arith)
      (omega arith) (omega arith)
