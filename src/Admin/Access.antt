-- ===== src/Admin/Access.antt =====
-- src/extras/admin/admin.controller.ts, `requireAdmin`: who the administration endpoints serve.
use luoluo_auth.Common.{
  String, Bool, true, false, ◌&&◌, ◌≡◌, ◌⊎◌, inl, inr, refl, truthy, get_or, arith, Bool-cases,
}
use luoluo_auth.MemoryStore.Data.{SessionData}
use luoluo_auth.Auth.Errors.{Outcome, ok, throw}
use luoluo_auth.Auth.Guard.{extract_bearer_token}
use luoluo_auth.Auth.Service.{World}
use luoluo_auth.Auth.Service.Tokens.{validate_token}
use luoluo_auth.OAuth2.Controller.{answer, refuse, unauthorized, Server, follow, attempt}
use luoluo_auth.Admin.{
  Admin, AdminRequest, AdminCall, AdminAnswer, is_admin, check_admin, require_admin, perform,
  handle,
}

module _ {S L K R : Type 0} (c : Admin S L K R) (q : AdminRequest) where
  abbrev pub bearer : String
  bearer = get_or (extract_bearer_token q.authorization) ""

  -- What the service says of the bearer token.
  abbrev pub validated : Server S L K R → World S L K R × Outcome SessionData
  validated s = validate_token c.auth bearer q.ip q.user_agent s.world

  abbrev pub of_admin : Outcome SessionData → Bool
  of_admin (ok session) = is_admin session
  of_admin (throw e) = false

  -- The request bears a token that the service accepts, for the session of an administrator.
  abbrev pub comes_from_admin : Server S L K R → Bool
  comes_from_admin s = truthy (extract_bearer_token q.authorization) && of_admin (validated s).1

  -- The server once the token of a request, if there is one, was looked up.
  abbrev pub looked_up : Server S L K R → Server S L K R
  looked_up s = record s { world = (validated s).0 }

  check_admitted :
      (s : Server S L K R) (call : AdminCall) (r : World S L K R × Outcome SessionData)
      → of_admin r.1 ≡ true
      → follow (check_admin c (attempt s r)) (λ _. perform c call q)
        ≡ perform c call q (record s { world = r.0 })
  check_admitted s call (w, throw e) h = absurd (ground (arith, h))
  check_admitted s call (w, ok session) h = rw h refl

  check_refused :
      (s : Server S L K R) (call : AdminCall) (r : World S L K R × Outcome SessionData)
      → of_admin r.1 ≡ false
      → (message : String) × (follow (check_admin c (attempt s r)) (λ _. perform c call q)
          ≡ (record s { world = r.0 }, refuse (unauthorized message)))
  check_refused s call (w, throw e) h = ("Invalid admin token", refl)
  check_refused s call (w, ok session) h = ("Admin privileges required", rw h refl)

  pub handle-perform :
      (call : AdminCall) (s : Server S L K R)
      → comes_from_admin s ≡ true
      → handle c call q s ≡ perform c call q (looked_up s)
  unfolding handle require_admin
  handle-perform call s h = elim (Bool-cases (truthy (extract_bearer_token q.authorization))) [
    | inr t ↦ absurd (ground (arith, rw t at h))
    | inl t ↦ rw t (check_admitted s call (validated s) (rw t at h))
  ]

  -- Without the token of an administrator, every administration endpoint refuses the request
  -- with 401, and nothing changes but what the look-up of the token changes.
  pub handle_refused :
      (call : AdminCall) (s : Server S L K R)
      → comes_from_admin s ≡ false
      → (message : String) × ((handle c call q s).1 ≡ refuse (unauthorized message))
        × ((handle c call q s).0.clients ≡ s.clients)
        × (((handle c call q s).0 ≡ s) ⊎ ((handle c call q s).0 ≡ looked_up s))
  unfolding handle require_admin
  handle_refused call s h = elim (Bool-cases (truthy (extract_bearer_token q.authorization))) [
    | inr t ↦ rw t ("Admin token required", refl, refl, inl refl)
    | inl t ↦
        let (message, e) = check_refused s call (validated s) (rw t at h) in
        rw (t, e) (message, refl, refl, inr refl)
  ]

  of_admin-ok :
      (o : Outcome SessionData)
      → of_admin o ≡ true
      → (session : SessionData) × (o ≡ ok session) × (is_admin session ≡ true)
  of_admin-ok (throw e) h = absurd (ground (arith, h))
  of_admin-ok (ok session) h = (session, refl, h)

  -- An administration endpoint answers only a request with a bearer token that the service
  -- accepts, for a session with the role admin or super-admin or the permission admin:* or *.
  pub handle-answer :
      (call : AdminCall) (s : Server S L K R) (a : AdminAnswer)
      → (handle c call q s).1 ≡ answer a
      → (truthy (extract_bearer_token q.authorization) ≡ true)
        × (session : SessionData) × ((validated s).1 ≡ ok session)
        × (is_admin session ≡ true)
  handle-answer call s a h = elim (Bool-cases (comes_from_admin s)) [
    | inr not_theirs ↦
        let (message, e, clients, seen) = handle_refused call s not_theirs in
        absurd (ground (arith, rw e at h))
    | inl is_theirs ↦ elim (Bool-cases (truthy (extract_bearer_token q.authorization))) [
      | inr t ↦ absurd (ground (arith, rw t at is_theirs))
      | inl t ↦
          let (session, accepted, admin) = of_admin-ok (validated s).1 (rw t at is_theirs) in
          (t, session, accepted, admin)
    ]
  ]
