-- ===== src/MemoryStore/Reach.antt =====
-- Every history of calls and timer events of the session store, and the invariant over all of them.
use luoluo_auth.Common.{
  ℕ, String, ◌≢◌, inl, inr, refl, Option, List, [], ◌∷◌, leb, arith, Option-cases, Bool-cases,
}
use luoluo_auth.Common.JsMap
use luoluo_auth.Common.JsMap.{JsMap}
use luoluo_auth.Timers.{find_due}
use luoluo_auth.MemoryStore
use luoluo_auth.MemoryStore.{MemoryStore, size}
use luoluo_auth.MemoryStore.Data.{SessionData, Callback, expire_session, expire_ban}
use luoluo_auth.MemoryStore.Validity.{IsValid, internal_delete-IsValid, set-IsValid}
use luoluo_auth.MemoryStore.Kept.{
  IsValid-same, get-IsValid, renew-IsValid, delete_by_user_id-IsValid, clear-IsValid,
  new_store-IsValid,
}

-- What can happen to a store, with its time where the code reads the clock.
pub data Event : Type 0 where
  set : ℕ → String → SessionData → Option ℕ → Event
  get : ℕ → String → Event
  delete : String → Event
  delete_by_user_id : String → Event
  renew : ℕ → String → Option ℕ → Event
  clear : Event
  ban : ℕ → String → ℕ → Event
  unban : String → Event
  is_banned : ℕ → String → Event
  fire : ℕ → ℕ → Event

unfoldable pub step : MemoryStore → Event → MemoryStore
step s (set now id session ttl) = MemoryStore.set s now id session ttl
step s (get now id) = (MemoryStore.get s now id).0
step s (delete id) = MemoryStore.delete s id
step s (delete_by_user_id user_id) = MemoryStore.delete_by_user_id s user_id
step s (renew now id ttl) = MemoryStore.renew s now id ttl
step s clear = MemoryStore.clear s
step s (ban now user_id duration) = MemoryStore.ban s now user_id duration
step s (unban user_id) = MemoryStore.unban s user_id
step s (is_banned now user_id) = (MemoryStore.is_banned s now user_id).0
step s (fire now handle) = MemoryStore.fire s now handle

unfoldable pub run : MemoryStore → List Event → MemoryStore
run s [] = s
run s (e ∷ es) = run (step s e) es

-- A session id is a UUID or a token, and so not the empty text.
abbrev pub IsNamed : Event → Type 0
IsNamed (set now id session ttl) = id ≢ ""
IsNamed e = Unit

abbrev pub AllNamed : List Event → Type 0
AllNamed [] = Unit
AllNamed (e ∷ es) = IsNamed e × AllNamed es

ban-IsValid :
    (s : MemoryStore) (now : ℕ) (user_id : String) (duration : ℕ)
    → IsValid s
    → IsValid (MemoryStore.ban s now user_id duration)
unfolding MemoryStore.ban
ban-IsValid s now user_id duration h = IsValid-same s _ refl refl refl h

unban-IsValid :
    (s : MemoryStore) (user_id : String) → IsValid s → IsValid (MemoryStore.unban s user_id)
unfolding MemoryStore.unban
unban-IsValid s user_id h = elim (Option-cases (JsMap.get s.blacklist user_id)) [
  | inl e ↦ rw (e, MemoryStore.unban) h
  | inr (item, e) ↦ rw (e, MemoryStore.unban) (IsValid-same s _ refl refl refl h)
]

is_banned-IsValid :
    (s : MemoryStore) (now : ℕ) (user_id : String)
    → IsValid s
    → IsValid (MemoryStore.is_banned s now user_id).0
unfolding MemoryStore.is_banned
is_banned-IsValid s now user_id h = IsValid-same s _ (ground arith) (ground arith) (ground arith) h

run_callback-IsValid :
    (s : MemoryStore) (c : Callback) → IsValid s → IsValid (MemoryStore.run_callback s c)
unfolding MemoryStore.run_callback
run_callback-IsValid s (expire_session id) h = internal_delete-IsValid s id h
run_callback-IsValid s (expire_ban user_id) h = IsValid-same s _ refl refl refl h

fire-IsValid :
    (s : MemoryStore) (now handle : ℕ) → IsValid s → IsValid (MemoryStore.fire s now handle)
unfolding MemoryStore.fire
fire-IsValid s now handle h = elim (Option-cases (find_due now handle s.timers.pending)) [
  | inl e ↦ rw (e, MemoryStore.fire) h
  | inr (t, e) ↦
      rw (e, MemoryStore.fire)
        (elim (Bool-cases (leb t.expire_at now)) [
          | inl due ↦ rw due (run_callback-IsValid _ t.callback (IsValid-same s _ refl refl refl h))
          | inr early ↦ rw early (IsValid-same s _ refl refl refl h)
        ])
]

step-IsValid : (s : MemoryStore) (e : Event) → IsNamed e → IsValid s → IsValid (step s e)
unfolding step MemoryStore.delete
step-IsValid s (set now id session ttl) n h = set-IsValid s now id session ttl n h
step-IsValid s (get now id) n h = get-IsValid s now id h
step-IsValid s (delete id) n h = internal_delete-IsValid s id h
step-IsValid s (delete_by_user_id user_id) n h = delete_by_user_id-IsValid s user_id h
step-IsValid s (renew now id ttl) n h = renew-IsValid s now id ttl h
step-IsValid s clear n h = clear-IsValid s
step-IsValid s (ban now user_id duration) n h = ban-IsValid s now user_id duration h
step-IsValid s (unban user_id) n h = unban-IsValid s user_id h
step-IsValid s (is_banned now user_id) n h = is_banned-IsValid s now user_id h
step-IsValid s (fire now handle) n h = fire-IsValid s now handle h

run-IsValid_from :
    (s : MemoryStore) (es : List Event) → AllNamed es → IsValid s → IsValid (run s es)
unfolding run
run-IsValid_from s [] n h = h
run-IsValid_from s (e ∷ es) n h = run-IsValid_from (step s e) es n.1 (step-IsValid s e n.0 h)

-- Whatever calls are made and timers fire, in any order and at any times, as long as no session
-- id is empty, the session map and the LRU order hold the same keys, each once, and the size is
-- at most the limit, if there is one.
pub run-IsValid :
    (max_size : Option ℕ) (es : List Event)
    → AllNamed es
    → IsValid (run (MemoryStore.new_store max_size) es)
run-IsValid max_size es n =
    run-IsValid_from (MemoryStore.new_store max_size) es n (new_store-IsValid max_size)
