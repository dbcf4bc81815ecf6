-- ===== src/Auth/Service/Tokens/Laws.antt =====
-- src/auth/auth.service.ts with random tokens over the in-memory session store: which tokens pass.
use luoluo_auth.Common.{
  ℕ, ◌≡◌, refl, inl, inr, String, Bool, false, ◌&&◌, ◌||◌, Option, none, some, List, [], ◌∷◌, leb,
  if◌then◌else◌, truthy, get_or, length, includes, ◌==◌, arith, Option-cases, Bool-cases, eq_iff,
  eq_refl,
}
use luoluo_auth.MemoryStore
use luoluo_auth.MemoryStore.{MemoryStore, expiry, max_safe_integer}
use luoluo_auth.MemoryStore.Data.{SessionData}
use luoluo_auth.MemoryStore.Reads.{stored, unexpired, stored-delete, stored-get, get-unexpired}
use luoluo_auth.Auth.Errors.{
  Outcome, ok, fail, proceed, return, session_not_found, fingerprint_mismatch, forbidden,
}
use luoluo_auth.Auth.Interfaces.{AuthServiceConfig}
use luoluo_auth.Auth.Strategies.{memory_store, random_token_strategy, verify_random}
use luoluo_auth.Auth.Service.{World, Deps, log_audit}
use luoluo_auth.Auth.Service.Tokens.{
  fingerprint_differs, check_fingerprint, report_fingerprint, validate_token, logout_user,
  validate_rpc_token, check_whitelist,
}

-- Whether the configuration rejects the request for its fingerprint.
unfoldable pub rejects : AuthServiceConfig → SessionData → Option String → Option String → Bool
rejects config session ip user_agent = elim config.fingerprint [
  | none ↦ false
  | some c ↦ c.enabled && (c.strict && fingerprint_differs session ip user_agent)
]

-- What a token is good for: its session, unless that is gone or the request is rejected.
unfoldable pub admitted :
    AuthServiceConfig → Option SessionData → Option String → Option String → Outcome SessionData
admitted config none ip user_agent = fail session_not_found 401
admitted config (some session) ip user_agent =
    if rejects config session ip user_agent then fail fingerprint_mismatch 403 else ok session

module _ {S L K R : Type 0} (d : Deps S L K R) where
  check_fingerprint-outcome :
      (session : SessionData) (ip user_agent : Option String) (w : World S L K R)
      → (proceed (check_fingerprint d session ip user_agent w) (λ _. return session)).1
        ≡ admitted d.config (some session) ip user_agent
  unfolding check_fingerprint report_fingerprint admitted rejects log_audit
  check_fingerprint-outcome session ip user_agent w = elim (Option-cases d.config.fingerprint) [
    | inl e ↦ rw e refl
    | inr (c, e) ↦ rw e (ground arith)
  ]

  abbrev passes : List String → Option String → Bool
  passes whitelist ip = leb (length whitelist) 0 || (truthy ip && includes whitelist (get_or ip ""))

  check_whitelist-passes :
      (whitelist : List String) (ip : Option String) (w : World S L K R)
      → check_whitelist d whitelist ip w
        ≡ (if passes whitelist ip then (w, ok tt) else (w, fail forbidden 403))
  check_whitelist-passes [] ip w = refl
  check_whitelist-passes (a ∷ whitelist) ip w = ground arith

  -- Behind the white list of addresses, validateRpcToken is validateToken; a call from an
  -- address that is not on a list that is not empty is refused with 403 and changes nothing.
  pub validate_rpc_token-validate_token :
      (token : String) (ip user_agent : Option String) (w : World S L K R)
      → validate_rpc_token d token ip user_agent w ≡ (
          if leb (length d.config.rpc_ip_whitelist) 0
            || (truthy ip && includes d.config.rpc_ip_whitelist (get_or ip ""))
          then validate_token d token ip user_agent w
          else (w, fail forbidden 403))
  unfolding validate_rpc_token validate_token
  validate_rpc_token-validate_token token ip user_agent w =
      rw (check_whitelist-passes d.config.rpc_ip_whitelist ip w)
        (elim (Bool-cases (passes d.config.rpc_ip_whitelist ip)) [
          | inl e ↦ rw e refl
          | inr e ↦ rw e refl
        ])

-- A second look at a session that was there finds it again.
get_again :
    (s : MemoryStore) (now : ℕ) (id : String) (found : SessionData)
    → (MemoryStore.get s now id).1 ≡ some found
    → (MemoryStore.get (MemoryStore.get s now id).0 now id).1 ≡ some found
get_again s now id found h = ground (
  arith,
  get-unexpired s now id,
  get-unexpired (MemoryStore.get s now id).0 now id,
  stored-get s now id id,
  eq_iff id id,
)

lost_token :
    (s : MemoryStore) (now : ℕ) (id k : String)
    → (MemoryStore.get s now id).1 ≡ none
    → stored (MemoryStore.get s now id).0 k ≡ (if id == k then none else stored s k)
lost_token s now id k h = ground (arith, h, stored-get s now id k)

stored-delete-get :
    (s : MemoryStore) (now : ℕ) (id k : String)
    → stored (MemoryStore.delete (MemoryStore.get s now id).0 id) k
      ≡ (if id == k then none else stored s k)
stored-delete-get s now id k =
    ground (arith, stored-delete (MemoryStore.get s now id).0 id k, stored-get s now id k)

module _ {L K R : Type 0} (base : Deps MemoryStore L K R) (prefix : Option String) where
  -- The service over the in-memory session store, with random tokens.
  abbrev pub with_random_tokens : Deps MemoryStore L K R
  with_random_tokens = record base {
    store = memory_store;
    strategy = random_token_strategy memory_store prefix;
  }

  -- With random tokens over the in-memory store, validateToken answers by the session that is
  -- stored under the token: not found without one that is unexpired, a fingerprint refusal where
  -- the configuration rejects the request, else the session.
  pub validate_token-admitted :
      (token : String) (ip user_agent : Option String) (w : World MemoryStore L K R)
      → (validate_token with_random_tokens token ip user_agent w).1
        ≡ admitted base.config (unexpired w.now (stored w.store token)) ip user_agent
  unfolding validate_token random_token_strategy memory_store verify_random
  validate_token-admitted token ip user_agent w =
      rw⁻¹ (get-unexpired w.store w.now token)
        (elim (Option-cases (MemoryStore.get w.store w.now token).1) [
          | inl e ↦ rw (e, verify_random) (unfold admitted in refl)
          | inr (found, e) ↦
              rw (e, verify_random) rw (get_again w.store w.now token found e)
                (check_fingerprint-outcome with_random_tokens found ip user_agent (record w {
                  store = (MemoryStore.get (MemoryStore.get w.store w.now token).0 w.now token).0;
                }))
        ])

  logout_user-store :
      (token : String) (has_res : Bool) (w : World MemoryStore L K R) (k : String)
      → stored (logout_user with_random_tokens token has_res w).0.store k
        ≡ (if token == k then none else stored w.store k)
  unfolding logout_user random_token_strategy memory_store log_audit
  logout_user-store token has_res w k =
      let cases = Option-cases (MemoryStore.get w.store w.now token).1 in
      let lost = lost_token w.store w.now token k in
      let dropped = stored-delete-get w.store w.now token k in
      elim (Bool-cases (base.cookies_enabled && has_res)) [
        | inl on ↦ rw on (elim cases [
          | inl e ↦ rw (e, verify_random) (lost e)
          | inr (found, e) ↦ rw (e, verify_random) (ground (arith, dropped))
        ])
        | inr off ↦ rw off (elim cases [
          | inl e ↦ rw (e, verify_random) (lost e)
          | inr (found, e) ↦ rw (e, verify_random) (ground (arith, dropped))
        ])
      ]

  -- With random tokens over the in-memory store, after logout no request with the token passes,
  -- at any time and with any fingerprint, as long as the store is not changed, and every session
  -- but that of the token is stored as before.
  pub validate_token-logout_user :
      (token : String) (has_res : Bool) (w w' : World MemoryStore L K R)
      (ip user_agent : Option String) (k : String)
      → w'.store ≡ (logout_user with_random_tokens token has_res w).0.store
      → ((validate_token with_random_tokens token ip user_agent w').1 ≡ fail session_not_found 401)
        × (stored w'.store k ≡ (if token == k then none else stored w.store k))
  validate_token-logout_user token has_res w w' ip user_agent k h = (
    rw
        (
          validate_token-admitted token ip user_agent w',
          h,
          logout_user-store token has_res w token,
          eq_refl token,
        )
        (unfold admitted in refl),
    rw h (logout_user-store token has_res w k),
  )
