-- ===== src/NonceStore/Runs.antt =====
-- A nonce over a whole history of the store.
use luoluo_auth.Common.{
  ℕ, ◌+◌, ◌≤◌, ◌<◌, String, ◌≡◌, inl, inr, true, false, ◌&&◌, none, List, [], ◌∷◌, if◌then◌else◌,
  ◌==◌, arith, eq_iff, All, Bool-cases,
}
use luoluo_auth.Common.JsMap
use luoluo_auth.NonceStore.{MemoryNonceStore, evict_expired, set_if_absent, new_store}
use luoluo_auth.NonceStore.Replay.{
  IsValid, knows, forgotten, set_if_absent-IsValid, set_if_absent-knows, knows-set_if_absent,
}

-- Calls of `setIfAbsent`, each with its time.
abbrev pub Calls : Type 0
Calls = List (ℕ × String)

abbrev pub IsOrdered : ℕ → Calls → Type 0
IsOrdered from [] = Unit
IsOrdered from ((now, nonce) ∷ cs) = (from ≤ now) × IsOrdered now cs

-- No call finds the store full of nonces that have not expired.
abbrev pub HasRoom : ℕ → MemoryNonceStore → Calls → Type 0
HasRoom ttl s [] = Unit
HasRoom ttl s ((now, nonce) ∷ cs) =
    (JsMap.size (evict_expired s now).records < s.max_size)
    × HasRoom ttl (set_if_absent s now nonce ttl).0 cs

-- The times at which a nonce is accepted.
unfoldable pub accepted : String → ℕ → MemoryNonceStore → Calls → List ℕ
accepted nonce ttl s [] = []
accepted nonce ttl s ((now, n) ∷ cs) =
    let rest = accepted nonce ttl (set_if_absent s now n ttl).0 cs in
    if (n == nonce) && (set_if_absent s now n ttl).1 then now ∷ rest else rest

-- Every time is at least `gap` after each earlier one.
abbrev pub IsSpaced : ℕ → List ℕ → Type 0
IsSpaced gap [] = Unit
IsSpaced gap (x ∷ xs) = All (λ y. x + gap ≤ y) xs × IsSpaced gap xs

not-forgotten :
    (s : MemoryNonceStore) (now : ℕ) (nonce : String)
    → JsMap.size (evict_expired s now).records < s.max_size
    → forgotten s now nonce ≡ none
unfolding forgotten
not-forgotten s now nonce h = ground arith

-- The store knows the nonce until `until`.
abbrev KnowsUntil : MemoryNonceStore → ℕ → ℕ → String → Type 0
KnowsUntil s from until nonce =
    (later : ℕ) → from ≤ later → later < until → knows s later nonce ≡ true

module _ (nonce : String) (ttl : ℕ) where
  KnowsUntil-step :
      (s : MemoryNonceStore) (from now until : ℕ) (n : String)
      → IsValid s
      → from ≤ now
      → JsMap.size (evict_expired s now).records < s.max_size
      → ((n == nonce) && (set_if_absent s now n ttl).1) ≡ false
      → KnowsUntil s from until nonce
      → KnowsUntil (set_if_absent s now n ttl).0 now until nonce
  KnowsUntil-step s from now until n v o room e k later o' b =
      rw (knows-set_if_absent s now later n nonce ttl v o', e, not-forgotten s now n room)
        (k later (omega arith) b)

  KnowsUntil-accepted :
      (s : MemoryNonceStore) (now : ℕ) (n : String)
      → IsValid s
      → ((n == nonce) && (set_if_absent s now n ttl).1) ≡ true
      → KnowsUntil (set_if_absent s now n ttl).0 now (now + ttl) nonce
  KnowsUntil-accepted s now n v e later o b =
      rw (knows-set_if_absent s now later n nonce ttl v o, e) (ground arith)

  accepted_past :
      (s : MemoryNonceStore) (from now until : ℕ) (n : String)
      → IsValid s
      → from ≤ now
      → ((n == nonce) && (set_if_absent s now n ttl).1) ≡ true
      → KnowsUntil s from until nonce
      → until ≤ now
  accepted_past s from now until n v o e k =
      ground (arith, eq_iff n nonce, set_if_absent-knows s now n ttl v, k now)

  accepted_late :
      (s : MemoryNonceStore) (from until : ℕ) (cs : Calls)
      → IsValid s
      → IsOrdered from cs
      → HasRoom ttl s cs
      → KnowsUntil s from until nonce
      → All (λ t. until ≤ t) (accepted nonce ttl s cs)
  unfolding accepted
  accepted_late s from until [] v o room k = tt
  accepted_late s from until ((now, n) ∷ cs) v o room k =
      let s' = (set_if_absent s now n ttl).0 in
      let v' = set_if_absent-IsValid s now n ttl v in
      elim (Bool-cases ((n == nonce) && (set_if_absent s now n ttl).1)) [
        | inl e ↦
            let past = accepted_past s from now until n v o.0 e k in
            rw e (
              (
                past,
                accepted_late s' now until cs v' o.1 room.1
                    (λ later p b. absurd (omega (arith, p, b, past))),
              ))
        | inr e ↦ rw e (
            accepted_late s' now until cs v' o.1 room.1
              (KnowsUntil-step s from now until n v o.0 room.0 e k))
      ]

  accepted-IsSpaced_from :
      (s : MemoryNonceStore) (from : ℕ) (cs : Calls)
      → IsValid s
      → IsOrdered from cs
      → HasRoom ttl s cs
      → IsSpaced ttl (accepted nonce ttl s cs)
  unfolding accepted
  accepted-IsSpaced_from s from [] v o room = tt
  accepted-IsSpaced_from s from ((now, n) ∷ cs) v o room =
      let s' = (set_if_absent s now n ttl).0 in
      let v' = set_if_absent-IsValid s now n ttl v in
      let rest = accepted-IsSpaced_from s' now cs v' o.1 room.1 in
      elim (Bool-cases ((n == nonce) && (set_if_absent s now n ttl).1)) [
        | inl e ↦ rw e (
          accepted_late s' now (now + ttl) cs v' o.1 room.1 (KnowsUntil-accepted s now n v e),
          rest,
        )
        | inr e ↦ rw e rest
      ]

-- From an empty nonce store with a limit above 0, for setIfAbsent calls in the order of their
-- times that never find it full of unexpired nonces, a nonce is accepted again only when ttl has
-- passed since each earlier acceptance.
pub accepted-IsSpaced :
    (nonce : String) (ttl max_size : ℕ) (cs : Calls)
    → 0 < max_size
    → IsOrdered 0 cs
    → HasRoom ttl (new_store max_size) cs
    → IsSpaced ttl (accepted nonce ttl (new_store max_size) cs)
accepted-IsSpaced nonce ttl max_size cs pos o room =
    accepted-IsSpaced_from nonce ttl (new_store max_size) 0 cs
      (record { unique = tt; room = pos; bounded = omega arith }) o room
