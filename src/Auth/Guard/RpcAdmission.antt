-- ===== src/Auth/Guard/RpcAdmission.antt =====
-- src/auth/auth.guard.ts, `forMicroservice`: what the guard has checked when it lets a call through.
use luoluo_auth.Common.{
  ℕ, Bool, true, false, not, ◌&&◌, ◌≡◌, inl, inr, refl, Option, none, truthy, get_or, arith,
  Bool-cases,
}
use luoluo_auth.MemoryStore.Data.{SessionData}
use luoluo_auth.Permission.{has_role, has_permission}
use luoluo_auth.Auth.Errors.{Outcome, ok, throw}
use luoluo_auth.Auth.Service.{World, Deps}
use luoluo_auth.Auth.Service.Tokens.{validate_rpc_token}
use luoluo_auth.Auth.Service.Sessions.{is_user_banned, is_safe_auth}
use luoluo_auth.Auth.Guard.{Metadata, required}
use luoluo_auth.Auth.Guard.Rpc.{
  RpcContext, admitted, banned, extract_token_from_rpc_context, extract_client_ip_from_rpc,
  check_rpc_session, finish_rpc, admit_rpc, can_activate_rpc,
}

module _ {S L K R : Type 0} (d : Deps S L K R) (m : Metadata) where
  -- What the session of a call needs at a time.
  pub record IsRpcAllowed (now : ℕ) (session : SessionData) : Type 0 where
    pub role : has_role session (required m.roles) ≡ true
    pub permission : has_permission session (required m.permissions) ≡ true
    pub safe : (m.safe_auth && not (is_safe_auth d now session)) ≡ false

  check_rpc_session-IsRpcAllowed :
      (now : ℕ) (session found : SessionData)
      → check_rpc_session d m now session ≡ admitted found
      → (session ≡ found) × IsRpcAllowed now session
  unfolding check_rpc_session
  check_rpc_session-IsRpcAllowed now session found h =
      elim (Bool-cases (has_role session (required m.roles))) [
        | inr a ↦ absurd (ground (arith, rw a at h))
        | inl a ↦ elim (Bool-cases (has_permission session (required m.permissions))) [
          | inr b ↦ absurd (ground (arith, rw (a, b) at h))
          | inl b ↦ elim (Bool-cases (m.safe_auth && not (is_safe_auth d now session))) [
            | inl e ↦ absurd (ground (arith, rw (a, b, e) at h))
            | inr e ↦
                (ground (arith, rw (a, b, e) at h), record { role = a; permission = b; safe = e })
          ]
        ]
      ]

  finish_rpc-admitted :
      (session found : SessionData) (r : World S L K R × Outcome Bool)
      → (finish_rpc d m session r).1 ≡ admitted found
      → (session ≡ found) × (r.1 ≡ ok false) × IsRpcAllowed r.0.now session
  unfolding finish_rpc
  finish_rpc-admitted session found (w, throw e) h = absurd (ground (arith, h))
  finish_rpc-admitted session found (w, ok true) h = absurd (ground (arith, h))
  finish_rpc-admitted session found (w, ok false) h =
      let (same, allowed) = check_rpc_session-IsRpcAllowed w.now session found h in
      (same, refl, allowed)

  admit_rpc-admitted :
      (found : SessionData) (r : World S L K R × Outcome SessionData)
      → (admit_rpc d m r).1 ≡ admitted found
      → (r.1 ≡ ok found)
        × ((is_user_banned d found.user_id r.0).1 ≡ ok false)
        × IsRpcAllowed (is_user_banned d found.user_id r.0).0.now found
  unfolding admit_rpc
  admit_rpc-admitted found (w, throw e) h = absurd (ground (arith, h))
  admit_rpc-admitted found (w, ok session) h =
      let (same, free, allowed) =
        finish_rpc-admitted session found (is_user_banned d session.user_id w) h in
      rw⁻¹ same (refl, free, allowed)

  abbrev pub validated : Option RpcContext → World S L K R → World S L K R × Outcome SessionData
  validated context w =
      validate_rpc_token d (get_or (extract_token_from_rpc_context context) "")
        (extract_client_ip_from_rpc context) none w

  -- The microservice guard lets a call through only with a token in its context that the service
  -- accepts from its address, for a user whom the blacklist does not hold, whatever the token
  -- strategy, and a session with the roles, the permissions and the second authentication that
  -- the handler asks for.
  pub can_activate_rpc-admitted :
      (context : Option RpcContext) (w : World S L K R) (session : SessionData)
      → (can_activate_rpc d m context w).1 ≡ admitted session
      → (truthy (extract_token_from_rpc_context context) ≡ true)
        × ((validated context w).1 ≡ ok session)
        × ((is_user_banned d session.user_id (validated context w).0).1 ≡ ok false)
        × IsRpcAllowed (is_user_banned d session.user_id (validated context w).0).0.now session
  unfolding can_activate_rpc
  can_activate_rpc-admitted context w session h =
      elim (Bool-cases (truthy (extract_token_from_rpc_context context))) [
        | inr t ↦ absurd (ground (arith, rw t at h))
        | inl t ↦
            let (found, free, allowed) =
              admit_rpc-admitted session (validated context w) (rw t at h) in
            (t, found, free, allowed)
      ]

  finish_banned :
      (session : SessionData) (r : World S L K R × Outcome Bool)
      → r.1 ≡ ok true
      → (finish_rpc d m session r).1 ≡ banned
  unfolding finish_rpc
  finish_banned session (w, throw e) h = absurd (ground (arith, h))
  finish_banned session (w, ok b) h = ground (arith, h)

  admit_banned :
      (r : World S L K R × Outcome SessionData) (session : SessionData)
      → r.1 ≡ ok session
      → (is_user_banned d session.user_id r.0).1 ≡ ok true
      → (admit_rpc d m r).1 ≡ banned
  unfolding admit_rpc
  admit_banned (w, throw e) session h b = absurd (ground (arith, h))
  admit_banned (w, ok found) session h b =
      let same : found ≡ session = ground (arith, h) in
      finish_banned found (is_user_banned d found.user_id w) (rw same b)

  -- A user whom the blacklist holds is refused, whatever the token strategy.
  pub can_activate_rpc-banned :
      (context : Option RpcContext) (w : World S L K R) (session : SessionData)
      → truthy (extract_token_from_rpc_context context) ≡ true
      → (validated context w).1 ≡ ok session
      → (is_user_banned d session.user_id (validated context w).0).1 ≡ ok true
      → (can_activate_rpc d m context w).1 ≡ banned
  unfolding can_activate_rpc
  can_activate_rpc-banned context w session t v b =
      rw t (admit_banned (validated context w) session v b)
