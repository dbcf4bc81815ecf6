-- ===== src/Auth/Service/Login/Roundtrip.antt =====
-- src/auth/auth.service.ts: the token that `login` answers, given to `validateToken`.
use luoluo_auth.Common.{
  ℕ, ◌≡◌, ◌≢◌, ◌≤◌, refl, ap, ◌∙◌, String, false, Option, none, some, get_or, arith, eq_refl,
}
use luoluo_auth.MemoryStore.{MemoryStore, expiry, max_safe_integer}
use luoluo_auth.MemoryStore.Data.{SessionData}
use luoluo_auth.MemoryStore.Validity.{IsValid}
use luoluo_auth.MemoryStore.Reads.{stored, unexpired, stored-set}
use luoluo_auth.Auth.Errors.{M, Outcome, ok, throw, ◌>>=◌, proceed}
use luoluo_auth.Auth.Strategies.{memory_store, random_token_strategy}
use luoluo_auth.Auth.Interfaces.{AuthServiceConfig}
use luoluo_auth.Auth.Service.{World, Deps}
use luoluo_auth.Auth.Service.Tokens.{fingerprint_differs, validate_token}
use luoluo_auth.Auth.Service.Tokens.Laws.{
  with_random_tokens, validate_token-admitted, admitted, rejects,
}
use luoluo_auth.Auth.Service.Login.{
  LoginRequest, apply_policy, limit_device, login_locked, open_session, login_ttl, policy_of,
  new_session,
}
use luoluo_auth.Auth.Service.Login.Shrinking.{make_room-Trims}
use luoluo_auth.Auth.Service.Login.Timing.{apply_policy-now, limit_device-now}
use luoluo_auth.Auth.Service.Login.Laws.{
  opened_id, opened_token, open_session-answer, open_session-store,
}

fingerprint_differs_not :
    (session : SessionData) → fingerprint_differs session session.ip session.user_agent ≡ false
unfolding fingerprint_differs
fingerprint_differs_not session =
    ground (arith, eq_refl (get_or session.ip ""), eq_refl (get_or session.user_agent ""))

admitted_own :
    (config : AuthServiceConfig) (session : SessionData)
    → admitted config (some session) session.ip session.user_agent ≡ ok session
unfolding admitted rejects
admitted_own config session = ground (arith, fingerprint_differs_not session)

unexpired-expiry :
    (now : ℕ) (session : SessionData) (ttl : Option ℕ)
    → now ≤ max_safe_integer
    → unexpired now (some (session, expiry now ttl)) ≡ some session
unexpired-expiry now session none h = ground arith
unexpired-expiry now session (some ttl) h = ground arith

proceed_ok :
    {W A B : Type 0} (r : W × Outcome A) (a : A) (f : A → M W B)
    → r.1 ≡ ok a
    → proceed r f ≡ f a r.0
proceed_ok (w, ok b) a f e = ground (arith, e)
proceed_ok (w, throw x) a f e = absurd (ground (arith, e))

module _ {L K R : Type 0} (base : Deps MemoryStore L K R) (prefix : Option String)
    (q : LoginRequest) where
  abbrev pub random_base : Deps MemoryStore L K R
  random_base = record base { strategy = random_token_strategy memory_store prefix }

  opened_id-opened_token :
      (w : World MemoryStore L K R) → opened_id random_base q w ≡ opened_token random_base q w
  unfolding random_token_strategy
  opened_id-opened_token w = refl

  open_session-validate :
      (w : World MemoryStore L K R) (token : String)
      → (open_session (with_random_tokens base prefix) q w).1 ≡ ok token
      → token ≢ ""
      → IsValid w.store
      → w.now ≤ max_safe_integer
      → (validate_token
          (with_random_tokens base prefix)
          token
          q.ip
          q.user_agent
          (open_session (with_random_tokens base prefix) q w).0).1
        ≡ ok (new_session base q w.now)
  open_session-validate w token e ne v h =
      let answer = open_session-answer random_base q w in
      let w' = (open_session (with_random_tokens base prefix) q w).0 in
      let ttl = login_ttl (with_random_tokens base prefix) q.remember_me in
      let same : token ≡ opened_id random_base q w =
        ground (arith, e, answer.0, opened_id-opened_token w) in
      let named : opened_id random_base q w ≢ "" = λ z. ne (same ∙ z) in
      let there : stored w'.store token ≡ some (new_session base q w.now, expiry w.now ttl) =
        rw (open_session-store random_base q w, same)
          (ground (
            arith,
            same,
            stored-set w.store w.now (opened_id random_base q w) (new_session base q w.now) ttl
                named v (opened_id random_base q w),
            eq_refl (opened_id random_base q w),
          )) in
      rw
        (
          validate_token-admitted base prefix token q.ip q.user_agent w',
          there,
          answer.1,
          unexpired-expiry w.now (new_session base q w.now) ttl h,
        )
        (admitted_own base.config (new_session base q w.now))

  proceed-validate :
      (r : World MemoryStore L K R × Outcome (Unit {0})) (token : String)
      → (proceed r (λ _. open_session (with_random_tokens base prefix) q)).1 ≡ ok token
      → token ≢ ""
      → IsValid r.0.store
      → r.0.now ≤ max_safe_integer
      → (validate_token
          (with_random_tokens base prefix)
          token
          q.ip
          q.user_agent
          (proceed r (λ _. open_session (with_random_tokens base prefix) q)).0).1
        ≡ ok (new_session base q r.0.now)
  proceed-validate (w, ok _) token e ne v h = open_session-validate w token e ne v h
  proceed-validate (w, throw x) token e ne v h = absurd (ground (arith, e))

  abbrev room : World MemoryStore L K R → World MemoryStore L K R × Outcome (Unit {0})
  room w =
      limit_device (with_random_tokens base prefix) q.user_id q.device
        (apply_policy (with_random_tokens base prefix) (policy_of base) q.user_id q.device w).0

  login_locked-room :
      (w : World MemoryStore L K R)
      → login_locked (with_random_tokens base prefix) q w
        ≡ proceed (room w) (λ _. open_session (with_random_tokens base prefix) q)
  unfolding login_locked
  login_locked-room w =
      proceed_ok
        (apply_policy (with_random_tokens base prefix) (policy_of base) q.user_id q.device w) tt
        (λ _. limit_device (with_random_tokens base prefix) q.user_id q.device >>= λ _.
          open_session (with_random_tokens base prefix) q)
        (apply_policy-now random_base (policy_of base) q.user_id q.device w).1

  room-now : (w : World MemoryStore L K R) → (room w).0.now ≡ w.now
  room-now w =
      limit_device-now random_base q.user_id q.device
        (apply_policy (with_random_tokens base prefix) (policy_of base) q.user_id q.device w).0
      ∙ (apply_policy-now random_base (policy_of base) q.user_id q.device w).0

  -- With random tokens over a valid in-memory store, at a time up to Number.MAX_SAFE_INTEGER:
  -- when the guarded part of login answers a token that is not empty, under any policy and
  -- limit, validateToken accepts it at once, from the same address and agent, with the session
  -- of the request.
  pub login_locked-validate :
      (w : World MemoryStore L K R) (token : String)
      → (login_locked (with_random_tokens base prefix) q w).1 ≡ ok token
      → token ≢ ""
      → IsValid w.store
      → w.now ≤ max_safe_integer
      → (validate_token
          (with_random_tokens base prefix)
          token
          q.ip
          q.user_agent
          (login_locked (with_random_tokens base prefix) q w).0).1
        ≡ ok (new_session base q w.now)
  login_locked-validate w token e ne v h =
      let made = make_room-Trims random_base (policy_of base) q.user_id q.device w v in
      let soon : (room w).0.now ≤ max_safe_integer = rw (room-now w) h in
      rw (login_locked-room w) (
        proceed-validate (room w) token (rw (login_locked-room w) at e) ne made.valid soon
        ∙ ap (λ now. ok (new_session base q now)) (room-now w))
