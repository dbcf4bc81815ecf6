-- ===== src/Signature/Replay.antt =====
-- src/auth/signature/signature.guard.ts over src/auth/signature/nonce-store.ts: a nonce over a
-- history of requests.
use luoluo_auth.Common.{
  ℕ, ◌+◌, ◌≤◌, ◌<◌, ◌≡◌, inl, inr, refl, String, Bool, true, false, not, ◌&&◌, ◌||◌, none, some,
  List, [], ◌∷◌, if◌then◌else◌, ◌==◌, arith, eq_refl, All, Bool-cases, Option-cases,
}
use luoluo_auth.Common.Text.{ℤ, pos, parse_int}
use luoluo_auth.NonceStore.{MemoryNonceStore, set_if_absent, new_store}
use luoluo_auth.NonceStore.Replay.{
  IsValid, knows, knows-set_if_absent, set_if_absent-knows, set_if_absent-IsValid,
}
use luoluo_auth.NonceStore.Runs.{Calls, IsOrdered, HasRoom, IsSpaced, accepted, accepted-IsSpaced}
use luoluo_auth.Signature.{SignatureConfig, is_timestamp_valid}
use luoluo_auth.Signature.Guard.{
  NonceStoreApi, SignedRequest, Verdict, pass, header_name, timestamp_header, nonce_header,
  tolerance, check_nonce, with_timestamp, can_activate,
}
use luoluo_auth.Signature.Laws.{given, value, IsSigned, is_timestamp_valid_iff, can_activate_iff}

-- `MemoryNonceStore` as the guard's store.
abbrev pub memory_nonces : NonceStoreApi MemoryNonceStore
memory_nonces = record { set_if_absent = set_if_absent }

abbrev pub passed : Verdict → Bool
passed pass = true
passed _ = false

-- Requests, each with its time.
abbrev pub Requests : Type 0
Requests = List (ℕ × SignedRequest)

Bool-not : (b : Bool) → (b ≡ true → b ≡ false) → b ≡ false
Bool-not true f = f refl
Bool-not false f = refl

-- An element that is chosen only if it was there, before a shorter list.
All-chosen :
    (P : ℕ → Type 0) (x : ℕ) (xs ys : List ℕ) (a b : Bool)
    → (b ≡ true → a ≡ true)
    → (All P xs → All P ys)
    → All P (if a then x ∷ xs else xs)
    → All P (if b then x ∷ ys else ys)
All-chosen P x xs ys true b f g h = elim (Bool-cases b) [
  | inl e ↦ rw e (h.0, g h.1)
  | inr e ↦ rw e (g h.1)
]
All-chosen P x xs ys false b f g h = rw (Bool-not b (λ e. absurd (ground (arith, f e)))) (g h)

IsSpaced-chosen :
    (gap x : ℕ) (xs ys : List ℕ) (a b : Bool)
    → (b ≡ true → a ≡ true)
    → (All (λ y. x + gap ≤ y) xs → All (λ y. x + gap ≤ y) ys)
    → (IsSpaced gap xs → IsSpaced gap ys)
    → IsSpaced gap (if a then x ∷ xs else xs)
    → IsSpaced gap (if b then x ∷ ys else ys)
IsSpaced-chosen gap x xs ys true b f k g h = elim (Bool-cases b) [
  | inl e ↦ rw e (k h.0, g h.1)
  | inr e ↦ rw e (g h.1)
]
IsSpaced-chosen gap x xs ys false b f k g h =
    rw (Bool-not b (λ e. absurd (ground (arith, f e)))) (g h)

module _ (hmac : String → String → String) (bytes : String → List ℕ) (c : SignatureConfig) where
  abbrev pub activate : MemoryNonceStore → ℕ → SignedRequest → MemoryNonceStore × Verdict
  activate s now q = can_activate hmac bytes c (some memory_nonces) s now q

  -- The request reaches the nonce store.
  unfoldable pub asks : ℕ → SignedRequest → Bool
  asks now q =
      if not (given q (header_name c))
        || not (given q (timestamp_header c))
        || not (given q (nonce_header c))
      then false
      else elim (parse_int (value q (timestamp_header c))) [
        | none ↦ false
        | some timestamp ↦ is_timestamp_valid now timestamp (tolerance c)
      ]

  -- The calls of `setIfAbsent` that a history of requests makes.
  unfoldable pub calls : Requests → Calls
  calls [] = []
  calls ((now, q) ∷ qs) =
      let rest = calls qs in if asks now q then (now, value q (nonce_header c)) ∷ rest else rest

  -- The times at which requests with a nonce are let through.
  unfoldable pub let_through : String → MemoryNonceStore → Requests → List ℕ
  let_through nonce s [] = []
  let_through nonce s ((now, q) ∷ qs) =
      let rest = let_through nonce (activate s now q).0 qs in
      if (value q (nonce_header c) == nonce) && passed (activate s now q).1
      then now ∷ rest
      else rest

  abbrev pub IsTimed : ℕ → Requests → Type 0
  IsTimed from [] = Unit
  IsTimed from ((now, q) ∷ qs) = (from ≤ now) × IsTimed now qs

  activate-asks :
      (s : MemoryNonceStore) (now : ℕ) (q : SignedRequest)
      → asks now q ≡ true
      → ((activate s now q).0 ≡ (set_if_absent s now (value q (nonce_header c)) (tolerance c)).0)
        × (passed (activate s now q).1 ≡ true
            → (set_if_absent s now (value q (nonce_header c)) (tolerance c)).1 ≡ true)
  unfolding asks can_activate with_timestamp check_nonce
  activate-asks s now q h = elim (Option-cases (parse_int (value q (timestamp_header c)))) [
    | inl e ↦ absurd (ground arith)
    | inr (timestamp, e) ↦ (ground arith, ground arith)
  ]

  activate_early :
      (s : MemoryNonceStore) (now : ℕ) (q : SignedRequest)
      → asks now q ≡ false
      → ((activate s now q).0 ≡ s) × (passed (activate s now q).1 ≡ false)
  unfolding asks can_activate with_timestamp
  activate_early s now q h = elim (Option-cases (parse_int (value q (timestamp_header c)))) [
    | inl e ↦ (ground arith, ground arith)
    | inr (timestamp, e) ↦ (ground arith, ground arith)
  ]

  let_through_asked :
      (nonce : String) (s : MemoryNonceStore) (now : ℕ) (q : SignedRequest) (qs : Requests)
      → asks now q ≡ true
      → let_through nonce s ((now, q) ∷ qs) ≡ (
          let rest =
            let_through nonce (set_if_absent s now (value q (nonce_header c)) (tolerance c)).0 qs in
          if (value q (nonce_header c) == nonce) && passed (activate s now q).1
          then now ∷ rest
          else rest)
  unfolding let_through
  let_through_asked nonce s now q qs e = rw ((activate-asks s now q e).0) refl

  let_through_early :
      (nonce : String) (s : MemoryNonceStore) (now : ℕ) (q : SignedRequest) (qs : Requests)
      → asks now q ≡ false
      → let_through nonce s ((now, q) ∷ qs) ≡ let_through nonce s qs
  unfolding let_through
  let_through_early nonce s now q qs e = ground (arith, activate_early s now q e)

  passed-accepted :
      (nonce : String) (s : MemoryNonceStore) (now : ℕ) (q : SignedRequest)
      → asks now q ≡ true
      → ((value q (nonce_header c) == nonce) && passed (activate s now q).1) ≡ true
      → ((value q (nonce_header c) == nonce)
          && (set_if_absent s now (value q (nonce_header c)) (tolerance c)).1)
        ≡ true
  passed-accepted nonce s now q e h = ground (arith, (activate-asks s now q e).1)

  -- What holds of every acceptance in the store holds of every request that is let through.
  let_through-All :
      (P : ℕ → Type 0) (nonce : String) (s : MemoryNonceStore) (qs : Requests)
      → All P (accepted nonce (tolerance c) s (calls qs))
      → All P (let_through nonce s qs)
  unfolding calls accepted
  let_through-All P nonce s [] h = unfold let_through in tt
  let_through-All P nonce s ((now, q) ∷ qs) h = elim (Bool-cases (asks now q)) [
    | inl e ↦ rw (let_through_asked nonce s now q qs e) (
        All-chosen P now _ _ _ _ (passed-accepted nonce s now q e)
          (let_through-All P nonce (set_if_absent s now (value q (nonce_header c)) (tolerance c)).0
            qs)
          (rw e at h))
    | inr e ↦ rw (let_through_early nonce s now q qs e) (let_through-All P nonce s qs (rw e at h))
  ]

  let_through-IsSpaced_from :
      (nonce : String) (s : MemoryNonceStore) (qs : Requests)
      → IsSpaced (tolerance c) (accepted nonce (tolerance c) s (calls qs))
      → IsSpaced (tolerance c) (let_through nonce s qs)
  unfolding calls accepted
  let_through-IsSpaced_from nonce s [] h = unfold let_through in tt
  let_through-IsSpaced_from nonce s ((now, q) ∷ qs) h = elim (Bool-cases (asks now q)) [
    | inl e ↦ rw (let_through_asked nonce s now q qs e) (
        IsSpaced-chosen (tolerance c) now _ _ _ _ (passed-accepted nonce s now q e)
          (let_through-All (λ y. now + tolerance c ≤ y) nonce
            (set_if_absent s now (value q (nonce_header c)) (tolerance c)).0 qs)
          (let_through-IsSpaced_from nonce
            (set_if_absent s now (value q (nonce_header c)) (tolerance c)).0 qs)
          (rw e at h))
    | inr e ↦
        rw (let_through_early nonce s now q qs e) (let_through-IsSpaced_from nonce s qs (rw e at h))
  ]

  calls-IsOrdered :
      (from later : ℕ) (qs : Requests) → from ≤ later → IsTimed later qs → IsOrdered from (calls qs)
  unfolding calls
  calls-IsOrdered from later [] le o = tt
  calls-IsOrdered from later ((now, q) ∷ qs) le o = elim (Bool-cases (asks now q)) [
    | inl e ↦ rw e (omega (arith, le, o.0), calls-IsOrdered now now qs (omega arith) o.1)
    | inr e ↦ rw e (calls-IsOrdered from now qs (omega (arith, le, o.0)) o.1)
  ]

  -- From an empty nonce store with a limit above 0, for requests in the order of their times
  -- whose nonces never find it full of unexpired nonces, a request with a nonce is let through
  -- only when the tolerance has passed since each earlier one with the same nonce.
  pub let_through-IsSpaced :
      (nonce : String) (max_size : ℕ) (qs : Requests)
      → 0 < max_size
      → IsTimed 0 qs
      → HasRoom (tolerance c) (new_store max_size) (calls qs)
      → IsSpaced (tolerance c) (let_through nonce (new_store max_size) qs)
  let_through-IsSpaced nonce max_size qs h o room =
      let_through-IsSpaced_from nonce (new_store max_size) qs (
        accepted-IsSpaced nonce (tolerance c) max_size (calls qs) h
          (calls-IsOrdered 0 0 qs (omega arith) o) room)

  later_timely :
      (now later stamp : ℕ)
      → stamp ≡ now + tolerance c
      → now + tolerance c ≤ later
      → later ≤ stamp + tolerance c
      → is_timestamp_valid later (pos stamp) (tolerance c) ≡ true
  unfolding is_timestamp_valid
  later_timely now later stamp e a b = ground arith

  signed-asks :
      (s : MemoryNonceStore) (now : ℕ) (q : SignedRequest) (timestamp : ℤ)
      → IsSigned hmac bytes c (some memory_nonces) s now q timestamp
      → asks now q ≡ true
  unfolding asks
  signed-asks s now q timestamp x =
      rw (x.has_signature, x.has_timestamp, x.has_nonce, x.parsed)
        ((is_timestamp_valid_iff now timestamp (tolerance c)).1 x.timely)

  fresh_again :
      (s : MemoryNonceStore) (now later : ℕ) (nonce : String)
      → IsValid s
      → (set_if_absent s now nonce (tolerance c)).1 ≡ true
      → now + tolerance c ≤ later
      → (set_if_absent (set_if_absent s now nonce (tolerance c)).0 later nonce (tolerance c)).1
        ≡ true
  fresh_again s now later nonce v h le =
      let s' = (set_if_absent s now nonce (tolerance c)).0 in
      let v' = set_if_absent-IsValid s now nonce (tolerance c) v in
      let gone : knows s' later nonce ≡ false =
        rw
          (
            knows-set_if_absent s now later nonce nonce (tolerance c) v (omega arith),
            h,
            eq_refl nonce,
          )
          (ground arith) in
      rw (set_if_absent-knows s' later nonce (tolerance c) v', gone)

  -- A request that is let through, over a valid nonce store, with a timestamp that lies as far
  -- in the future as is tolerated, is let through again, unchanged, at any time from the end of
  -- the tolerance to the end of a second one, as long as the store is not changed: by then the
  -- store has forgotten its nonce, and its timestamp is still valid.
  pub can_activate_again :
      (s : MemoryNonceStore) (now later stamp : ℕ) (q : SignedRequest)
      → IsValid s
      → (activate s now q).1 ≡ pass
      → parse_int (value q (timestamp_header c)) ≡ some (pos stamp)
      → stamp ≡ now + tolerance c
      → now + tolerance c ≤ later
      → later ≤ stamp + tolerance c
      → (activate (activate s now q).0 later q).1 ≡ pass
  unfolding check_nonce
  can_activate_again s now later stamp q v h p e a b =
      let (timestamp, x) = (can_activate_iff hmac bytes c (some memory_nonces) s now q).0 h in
      let same : timestamp ≡ pos stamp = ground (arith, x.parsed, p) in
      let next = (activate-asks s now q (signed-asks s now q timestamp x)).0 in
      (can_activate_iff hmac bytes c (some memory_nonces) (activate s now q).0 later q).1 (
        timestamp,
        record {
          has_signature = x.has_signature;
          has_timestamp = x.has_timestamp;
          has_nonce = x.has_nonce;
          parsed = x.parsed;
          timely = rw same (
              (is_timestamp_valid_iff later (pos stamp) (tolerance c)).0
                (later_timely now later stamp e a b));
          fresh = rw next (fresh_again s now later (value q (nonce_header c)) v x.fresh a);
          verified = x.verified;
        },
      )
