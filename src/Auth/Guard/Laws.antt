-- ===== src/Auth/Guard/Laws.antt =====
-- What the guard has checked when it lets a request through.
use luoluo_auth.Common.{
  ℕ, ◌/◌, ◌≡◌, refl, ◌∙◌, ◌⊎◌, inl, inr, String, Bool, true, false, ◌&&◌, Option, none, some, ◌==◌,
  arith, Option-cases, Bool-cases,
}
use luoluo_auth.MemoryStore.Data.{SessionData}
use luoluo_auth.Permission.{has_role, has_permission}
use luoluo_auth.Auth.Errors.{Outcome, ok, throw}
use luoluo_auth.Auth.Strategies.{DecodedToken}
use luoluo_auth.Auth.Service.{World, Deps}
use luoluo_auth.Auth.Service.Tokens.{validate_token, rotate_token}
use luoluo_auth.Auth.Service.Sessions.{is_user_banned, renew_session, is_safe_auth, ban_key}
use luoluo_auth.Auth.Guard.{
  Request, Metadata, TokenSource, header, cookie, allow, extract_token, has_auth_metadata, required,
  check_banned, put_cookie, refresh_cookie, is_due, try_auto_renew, check_session, finish, admit,
  can_activate,
}

module _ {S L K R : Type 0} (d : Deps S L K R) (decode : String → Option DecodedToken) where
  is_user_banned-ok :
      (user_id : String) (w : World S L K R) → (b : Bool) × ((is_user_banned d user_id w).1 ≡ ok b)
  unfolding is_user_banned
  is_user_banned-ok user_id w = elim (Option-cases d.store.is_banned) [
    | inr (ask, e) ↦ ((ask w.store w.now user_id).1, rw (e, is_user_banned))
    | inl e ↦ elim (Option-cases d.redis) [
      | inr (redis, f) ↦ (
        redis.has w.redis w.now (ban_key d user_id),
        rw (e, is_user_banned) (rw (f, is_user_banned)),
      )
      | inl f ↦ (false, rw (e, is_user_banned) (rw (f, is_user_banned)))
    ]
  ]

  pub check_banned-ok :
      (decoded : Option DecodedToken) (w : World S L K R)
      → (b : Bool) × ((check_banned d decode decoded w).1 ≡ ok b)
  unfolding check_banned
  check_banned-ok none w = (false, refl)
  check_banned-ok (some decoded) w = elim (Bool-cases (decoded.user_id == "")) [
    | inl e ↦ (false, rw e)
    | inr e ↦ let (b, f) = is_user_banned-ok decoded.user_id w in (b, rw e f)
  ]

  put_cookie-now :
      (token : String) (r : World S L K R × Outcome (Option String))
      → (put_cookie d decode token r).now ≡ r.0.now
  put_cookie-now token (w, ok rotated) = refl
  put_cookie-now token (w, throw e) = refl

  rotate_token-now : (token : String) (w : World S L K R) → (rotate_token d token w).0.now ≡ w.now
  unfolding rotate_token
  rotate_token-now token w = elim (Option-cases d.strategy.rotate) [
    | inl e ↦ rw (e, rotate_token)
    | inr (rotate, e) ↦ rw (e, rotate_token)
  ]

  pub refresh_cookie-now :
      (source : TokenSource) (token : String) (w : World S L K R)
      → (refresh_cookie d decode source token w).now ≡ w.now
  unfolding refresh_cookie
  refresh_cookie-now header token w = refl
  refresh_cookie-now cookie token w = elim (Bool-cases d.cookies_enabled) [
    | inl e ↦ rw e (put_cookie-now token (rotate_token d token w) ∙ rotate_token-now token w)
    | inr e ↦ rw e
  ]

  renew_session-now : (id : String) (w : World S L K R) → (renew_session d id w).0.now ≡ w.now
  unfolding renew_session
  renew_session-now id w = elim (Option-cases d.store.renew) [
    | inl e ↦ rw (e, renew_session)
    | inr (renew, e) ↦ rw (e, renew_session)
  ]

  pub try_auto_renew-now :
      (o : Option DecodedToken) (w : World S L K R) → (try_auto_renew d decode o w).now ≡ w.now
  unfolding try_auto_renew
  try_auto_renew-now none w = refl
  try_auto_renew-now (some decoded) w =
      elim (Bool-cases (d.config.auto_renew && is_due d decode (w.now / 1000) decoded)) [
        | inl e ↦ rw e (renew_session-now decoded.session_id w)
        | inr e ↦ rw e
      ]

  -- What the session must satisfy at the end.
  pub record IsAllowed (m : Metadata) (now : ℕ) (session : SessionData) : Type 0 where
    pub role : has_role session (required m.roles) ≡ true
    pub permission : has_permission session (required m.permissions) ≡ true
    pub safe : (m.safe_auth ≡ false) ⊎ (is_safe_auth d now session ≡ true)

  check_session-IsAllowed :
      (m : Metadata) (now : ℕ) (session : SessionData) (o : Option SessionData)
      → check_session d decode m now session ≡ allow o
      → IsAllowed m now session × (o ≡ some session)
  unfolding check_session
  check_session-IsAllowed m now session o h =
      (record { role = ground arith; permission = ground arith; safe = ground arith }, ground arith)

  is_user_banned-now :
      (user_id : String) (w : World S L K R) → (is_user_banned d user_id w).0.now ≡ w.now
  unfolding is_user_banned
  is_user_banned-now user_id w = elim (Option-cases d.store.is_banned) [
    | inr (ask, e) ↦ rw (e, is_user_banned)
    | inl e ↦ elim (Option-cases d.redis) [
      | inr (redis, f) ↦ rw (e, is_user_banned) (rw (f, is_user_banned))
      | inl f ↦ rw (e, is_user_banned) (rw (f, is_user_banned))
    ]
  ]

  check_banned-now :
      (o : Option DecodedToken) (w : World S L K R) → (check_banned d decode o w).0.now ≡ w.now
  unfolding check_banned
  check_banned-now none w = refl
  check_banned-now (some decoded) w = elim (Bool-cases (decoded.user_id == "")) [
    | inl e ↦ rw e
    | inr e ↦ rw e (is_user_banned-now decoded.user_id w)
  ]

  finish-allow :
      (m : Metadata) (token : String) (source : TokenSource) (session : SessionData)
      (r : World S L K R × Outcome Bool) (o : Option SessionData)
      → (finish d decode m token source session r).1 ≡ allow o
      → (r.1 ≡ ok false) × IsAllowed m r.0.now session × (o ≡ some session)
  unfolding finish
  finish-allow m token source session (w, throw e) o h = absurd (cc h)
  finish-allow m token source session (w, ok true) o h = absurd (cc h)
  finish-allow m token source session (w, ok false) o h =
      let same =
        try_auto_renew-now (decode token) (refresh_cookie d decode source token w)
        ∙ refresh_cookie-now source token w in
      let (allowed, handed) = check_session-IsAllowed m _ session o h in
      (refl, rw same at allowed, handed)

  admit-allow :
      (m : Metadata) (token : String) (source : TokenSource)
      (r : World S L K R × Outcome SessionData) (o : Option SessionData)
      → (admit d decode m token source r).1 ≡ allow o
      → (session : SessionData) × (r.1 ≡ ok session)
        × ((check_banned d decode (decode token) r.0).1 ≡ ok false)
        × IsAllowed m r.0.now session
        × (o ≡ some session)
  unfolding admit
  admit-allow m token source (w, throw e) o h = absurd (ground arith)
  admit-allow m token source (w, ok session) o h =
      let (clear, allowed, handed) =
        finish-allow m token source session (check_banned d decode (decode token) w) o h in
      (session, refl, clear, rw (check_banned-now (decode token) w) at allowed, handed)

  -- What has been checked of a request that the guard lets through to a protected handler.
  pub record IsAdmitted (m : Metadata) (q : Request) (w : World S L K R) (o : Option SessionData)
      : Type 0 where
    pub token : String
    pub source : TokenSource
    pub extracted : extract_token d.cookies_enabled q ≡ some (token, source)
    pub session : SessionData
    pub validated : (validate_token d token q.ip q.user_agent w).1 ≡ ok session
    pub not_banned :
        (check_banned d decode (decode token) (validate_token d token q.ip q.user_agent w).0).1
        ≡ ok false
    pub allowed : IsAllowed m (validate_token d token q.ip q.user_agent w).0.now session
    pub handed : o ≡ some session

  -- The guard lets a request through to a protected handler only with a token that validateToken
  -- accepts, of a user that the blacklist check passes, and whose session has the roles, the
  -- permissions and the second authentication that the handler asks for; the handler gets that
  -- session.
  pub can_activate-IsAdmitted :
      (m : Metadata) (q : Request) (w : World S L K R) (o : Option SessionData)
      → has_auth_metadata m ≡ true
      → (can_activate d decode m q w).1 ≡ allow o
      → IsAdmitted m q w o
  unfolding can_activate
  can_activate-IsAdmitted m q w o protected h =
      let h' = rw (protected, can_activate) at h in
      elim (Option-cases (extract_token d.cookies_enabled q)) [
        | inl e ↦ absurd (cc (rw (e, can_activate) at h'))
        | inr ((token, source), e) ↦
            let (session, validated, clear, allowed, handed) =
              admit-allow m token source (validate_token d token q.ip q.user_agent w) o
                (rw (e, can_activate) at h') in
            record {
              token = token;
              source = source;
              extracted = e;
              session = session;
              validated = validated;
              not_banned = clear;
              allowed = allowed;
              handed = handed;
            }
      ]
