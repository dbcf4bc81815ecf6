-- ===== src/Auth/Guard/Refusals.antt =====
-- How the guard refuses, and a way past the blacklist.
use luoluo_auth.Common.{
  ℕ, ◌≡◌, sym, ap, ◌∙◌, ◌⊎◌, inl, inr, String, Bool, true, false, Option, none, some, arith,
  Option-cases, Bool-cases,
}
use luoluo_auth.MemoryStore.Data.{SessionData}
use luoluo_auth.Auth.Errors.{Outcome, ok, throw}
use luoluo_auth.Auth.Strategies.{DecodedToken}
use luoluo_auth.Auth.Service.{World, Deps}
use luoluo_auth.Auth.Service.Tokens.{validate_token}
use luoluo_auth.Auth.Guard.{
  Request, Metadata, TokenSource, allow, deny, extract_token, has_auth_metadata, check_banned,
  refresh_cookie, check_session, finish, admit, can_activate,
}
use luoluo_auth.Auth.Guard.Laws.{IsAllowed, check_banned-ok, refresh_cookie-now, try_auto_renew-now}

module _ {S L K R : Type 0} (d : Deps S L K R) (decode : String → Option DecodedToken) where
  check_session-status :
      (m : Metadata) (now : ℕ) (session : SessionData) (status : ℕ)
      → check_session d decode m now session ≡ deny status
      → status ≡ 403
  unfolding check_session
  check_session-status m now session status h = ground arith

  finish-status :
      (m : Metadata) (token : String) (source : TokenSource) (session : SessionData)
      (w : World S L K R) (b : Bool) (status : ℕ)
      → (finish d decode m token source session (w, ok b)).1 ≡ deny status
      → status ≡ 403
  unfolding finish
  finish-status m token source session w true status h = ground arith
  finish-status m token source session w false status h = check_session-status m _ session status h

  admit-status :
      (m : Metadata) (token : String) (source : TokenSource)
      (r : World S L K R × Outcome SessionData) (status : ℕ)
      → (admit d decode m token source r).1 ≡ deny status
      → (status ≡ 401) ⊎ (status ≡ 403)
  unfolding admit
  admit-status m token source (w, throw e) status h = ground arith
  admit-status m token source (w, ok session) status h =
      let (b, answered) = check_banned-ok d decode (decode token) w in
      inr (
        finish-status m token source session (check_banned d decode (decode token) w).0 b status (
          ap
            (λ (o : Outcome Bool).
              (finish d decode m token source session
                ((check_banned d decode (decode token) w).0, o)).1)
            (sym answered)
          ∙ h))

  -- Every refusal of the guard is 401 or 403.
  pub can_activate-status :
      (m : Metadata) (q : Request) (w : World S L K R) (status : ℕ)
      → (can_activate d decode m q w).1 ≡ deny status
      → (status ≡ 401) ⊎ (status ≡ 403)
  unfolding can_activate
  can_activate-status m q w status h = elim (Bool-cases (has_auth_metadata m)) [
    | inr open_ ↦ absurd (cc (rw (open_, can_activate) at h))
    | inl protected ↦
        let h' = rw (protected, can_activate) at h in
        elim (Option-cases (extract_token d.cookies_enabled q)) [
          | inl e ↦ inl (sym (ground (arith, rw (e, can_activate) at h')))
          | inr ((token, source), e) ↦
              admit-status m token source (validate_token d token q.ip q.user_agent w) status
                (rw (e, can_activate) at h')
        ]
  ]

  check_session_allowed :
      (m : Metadata) (now : ℕ) (session : SessionData)
      → IsAllowed d decode m now session
      → check_session d decode m now session ≡ allow (some session)
  unfolding check_session
  check_session_allowed m now session a = ground (arith, a.role, a.permission, a.safe)

  finish_allowed :
      (m : Metadata) (token : String) (source : TokenSource) (session : SessionData)
      (w : World S L K R)
      → IsAllowed d decode m w.now session
      → (finish d decode m token source session (w, ok false)).1 ≡ allow (some session)
  unfolding finish
  finish_allowed m token source session w a =
      let same =
        try_auto_renew-now d decode (decode token) (refresh_cookie d decode source token w)
        ∙ refresh_cookie-now d decode source token w in
      check_session_allowed m _ session (rw (← same) at a)

  admit_undecoded :
      (m : Metadata) (token : String) (source : TokenSource) (session : SessionData)
      (r : World S L K R × Outcome SessionData)
      → r.1 ≡ ok session
      → decode token ≡ none
      → IsAllowed d decode m r.0.now session
      → (admit d decode m token source r).1 ≡ allow (some session)
  unfolding admit check_banned
  admit_undecoded m token source session (w, throw e) v u a = absurd (cc v)
  admit_undecoded m token source session (w, ok found) v u a =
      let same : found ≡ session = cc v in rw (u, same) (finish_allowed m token source session w a)

  -- A valid token that does not decode as a JWT, such as a random token, is let through whatever
  -- the blacklist says, when its session has what the handler asks for.
  pub can_activate_undecoded :
      (m : Metadata) (q : Request) (w : World S L K R) (token : String) (source : TokenSource)
      (session : SessionData)
      → has_auth_metadata m ≡ true
      → extract_token d.cookies_enabled q ≡ some (token, source)
      → (validate_token d token q.ip q.user_agent w).1 ≡ ok session
      → decode token ≡ none
      → IsAllowed d decode m (validate_token d token q.ip q.user_agent w).0.now session
      → (can_activate d decode m q w).1 ≡ allow (some session)
  unfolding can_activate
  can_activate_undecoded m q w token source session protected e validated undecoded a =
      rw (protected, can_activate)
        (rw (e, can_activate)
          (admit_undecoded m token source session (validate_token d token q.ip q.user_agent w)
            validated undecoded a))
