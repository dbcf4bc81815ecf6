-- ===== src/Admin/Effects.antt =====
-- src/extras/admin/admin.controller.ts over the in-memory session store: what the calls of an
-- administrator do.
use luoluo_auth.Common.{
  ℕ, ◌+◌, ◌*◌, String, Bool, true, false, ◌&&◌, ◌≡◌, inl, inr, refl, ap, ◌∙◌, Option, none, some,
  leb, truthy, get_or, ◌==◌, arith, Bool-cases, Option-cases, eq_refl,
}
use luoluo_auth.Common.Text.{pos, parse_int}
use luoluo_auth.MemoryStore
use luoluo_auth.MemoryStore.{MemoryStore}
use luoluo_auth.MemoryStore.Data.{SessionData}
use luoluo_auth.MemoryStore.Bans.{is_banned-ban, is_banned-unban}
use luoluo_auth.Auth.Errors.{M, Outcome, ok, throw, fail, proceed, return, session_not_found}
use luoluo_auth.Auth.Strategies.{memory_store}
use luoluo_auth.Auth.Service.{World, Deps, log_audit}
use luoluo_auth.Auth.Service.Tokens.{
  validate_token, require_session, verify, check_fingerprint, report_fingerprint, logout_user,
}
use luoluo_auth.Auth.Service.Tokens.Laws.{with_random_tokens, validate_token-logout_user}
use luoluo_auth.Auth.Service.Sessions.{ban_user, unban_user, is_user_banned}
use luoluo_auth.Auth.Service.Login.Shrinking.{over_memory}
use luoluo_auth.OAuth2.Controller.{answer, Server, follow, reply_of, respond}
use luoluo_auth.Admin.{
  Admin, AdminRequest, AdminAnswer, ban, revoke, revoked, banned, unbanned, perform, handle,
  change_ban, lift_ban, impose_ban, revoke_token,
}
use luoluo_auth.Admin.Access.{bearer, comes_from_admin, looked_up, handle-perform}

module _ {S L K R : Type 0} (d : Deps S L K R) where
  check_fingerprint-now :
      (session : SessionData) (ip user_agent : Option String) (w : World S L K R)
      → (check_fingerprint d session ip user_agent w).0.now ≡ w.now
  unfolding check_fingerprint report_fingerprint log_audit
  check_fingerprint-now session ip user_agent w = elim (Option-cases d.config.fingerprint) [
    | inl e ↦ rw e refl
    | inr (c, e) ↦ rw e (ground arith)
  ]

  logout_user-ok :
      (token : String) (has_res : Bool) (w : World S L K R)
      → (logout_user d token has_res w).1 ≡ ok tt
  unfolding logout_user
  logout_user-ok token has_res w = elim (Bool-cases (d.cookies_enabled && has_res)) [
    | inl e ↦ rw e refl
    | inr e ↦ rw e refl
  ]

  proceed-now :
      {A B : Type 0} (r : World S L K R × Outcome A) (f : A → M (World S L K R) B)
      → ((a : A) (w : World S L K R) → (f a w).0.now ≡ w.now)
      → (proceed r f).0.now ≡ r.0.now
  proceed-now (w, ok a) f keeps = keeps a w
  proceed-now (w, throw e) f keeps = refl

  after_session :
      (found : Option SessionData) (ip user_agent : Option String) (w : World S L K R)
      → (proceed (require_session d 401 found w) (λ session v.
          proceed (check_fingerprint d session ip user_agent v) (λ _. return session))).0.now
        ≡ w.now
  after_session none ip user_agent w = refl
  after_session (some session) ip user_agent w =
      proceed-now (check_fingerprint d session ip user_agent w) (λ _. return session) (λ _ v. refl)
      ∙ check_fingerprint-now session ip user_agent w

  validate_token-now :
      (token : String) (ip user_agent : Option String) (w : World S L K R)
      → (validate_token d token ip user_agent w).0.now ≡ w.now
  unfolding validate_token
  validate_token-now token ip user_agent w = proceed-now (verify d token w) _ (λ payload v.
      after_session (d.store.get v.store v.now payload.session_id).1 ip user_agent
        (record v { store = (d.store.get v.store v.now payload.session_id).0 }))

module _ {S L K R : Type 0} (s : Server S L K R) (a : AdminAnswer) where
  -- An answer after a call of the service: the world is that of the call.
  follow-world :
      (r : World S L K R × Outcome (Unit {0}))
      → (follow (reply_of s r) (λ _. respond a)).0.world ≡ r.0
  follow-world (w, ok x) = refl
  follow-world (w, throw e) = refl

  follow-answered :
      (r : World S L K R × Outcome (Unit {0}))
      → r.1 ≡ ok tt
      → (follow (reply_of s r) (λ _. respond a)).1 ≡ answer a
  follow-answered (w, ok x) h = refl
  follow-answered (w, throw e) h = absurd (ground (arith, h))

module _ {L K R : Type 0} (c : Admin MemoryStore L K R) (q : AdminRequest) where
  -- The endpoints over the in-memory session store.
  abbrev pub on_memory : Admin MemoryStore L K R
  on_memory = record c { auth = over_memory c.auth }

  perform-unban :
      (user_id : String) (duration : Option String) (s : Server MemoryStore L K R)
      → truthy (some user_id) ≡ true
      → ((perform on_memory (ban (some user_id) (some "unban") duration) q s).1
          ≡ answer (unbanned user_id))
        × ((is_user_banned on_memory.auth user_id
              (perform on_memory (ban (some user_id) (some "unban") duration) q s).0.world).1
            ≡ ok false)
  unfolding perform change_ban lift_ban unban_user is_user_banned memory_store log_audit
  perform-unban user_id duration s t =
      let lifted = is_banned-unban s.world.store s.world.now user_id user_id in
      elim (Bool-cases c.auth.has_audit) [
        | inl e ↦ rw (t, e) (refl, rw (lifted, eq_refl user_id) refl)
        | inr e ↦ rw (t, e) (refl, rw (lifted, eq_refl user_id) refl)
      ]

  perform-ban :
      (user_id : String) (action : Option String) (duration : String) (n later : ℕ)
      (s : Server MemoryStore L K R)
      → truthy (some user_id) ≡ true
      → (get_or action "" == "unban") ≡ false
      → truthy (some duration) ≡ true
      → parse_int duration ≡ some (pos n)
      → ((perform on_memory (ban (some user_id) action (some duration)) q s).1
          ≡ answer (banned user_id (some (pos n))))
        × ((MemoryStore.is_banned
              (perform on_memory (ban (some user_id) action (some duration)) q s).0.world.store
              later
              user_id).1
            ≡ leb later (s.world.now + n * 1000))
  unfolding perform change_ban impose_ban ban_user memory_store log_audit
  perform-ban user_id action duration n later s t a d p =
      let imposed = is_banned-ban s.world.store s.world.now later user_id user_id n in
      elim (Bool-cases c.auth.has_audit) [
        | inl e ↦ rw (t, a, d, p, e) (refl, rw (imposed, eq_refl user_id) refl)
        | inr e ↦ rw (t, a, d, p, e) (refl, rw (imposed, eq_refl user_id) refl)
      ]

  -- A call of an administrator with the action unban is answered, and the user that it names is
  -- not banned afterwards, whoever this is, the caller included.
  pub handle-unban :
      (user_id : String) (duration : Option String) (s : Server MemoryStore L K R)
      → truthy (some user_id) ≡ true
      → comes_from_admin on_memory q s ≡ true
      → ((handle on_memory (ban (some user_id) (some "unban") duration) q s).1
          ≡ answer (unbanned user_id))
        × ((is_user_banned on_memory.auth user_id
              (handle on_memory (ban (some user_id) (some "unban") duration) q s).0.world).1
            ≡ ok false)
  handle-unban user_id duration s t h =
      rw (handle-perform on_memory q (ban (some user_id) (some "unban") duration) s h)
        (perform-unban user_id duration (looked_up on_memory q s) t)

  -- A call of an administrator that bans a user for n seconds is answered, and the user is
  -- banned from then on until n seconds after the time of the call.
  pub handle-ban :
      (user_id : String) (action : Option String) (duration : String) (n later : ℕ)
      (s : Server MemoryStore L K R)
      → truthy (some user_id) ≡ true
      → (get_or action "" == "unban") ≡ false
      → truthy (some duration) ≡ true
      → parse_int duration ≡ some (pos n)
      → comes_from_admin on_memory q s ≡ true
      → ((handle on_memory (ban (some user_id) action (some duration)) q s).1
          ≡ answer (banned user_id (some (pos n))))
        × ((MemoryStore.is_banned
              (handle on_memory (ban (some user_id) action (some duration)) q s).0.world.store
              later
              user_id).1
            ≡ leb later (s.world.now + n * 1000))
  handle-ban user_id action duration n later s t a d p h =
      let (imposed, held) =
        perform-ban user_id action duration n later (looked_up on_memory q s) t a d p in
      let same = validate_token-now on_memory.auth (bearer on_memory q) q.ip q.user_agent s.world in
      rw (handle-perform on_memory q (ban (some user_id) action (some duration)) s h)
        (imposed, held ∙ ap (λ now. leb later (now + n * 1000)) same)

module _ {L K R : Type 0} (c : Admin MemoryStore L K R) (prefix : Option String)
    (q : AdminRequest) where
  -- The endpoints over the in-memory session store, with random tokens.
  abbrev pub on_tokens : Admin MemoryStore L K R
  on_tokens = record c { auth = with_random_tokens c.auth prefix }

  perform-revoke :
      (token : String) (s : Server MemoryStore L K R) (w : World MemoryStore L K R)
      (ip user_agent : Option String)
      → truthy (some token) ≡ true
      → w.store ≡ (perform on_tokens (revoke (some token)) q s).0.world.store
      → ((perform on_tokens (revoke (some token)) q s).1 ≡ answer revoked)
        × ((validate_token on_tokens.auth token ip user_agent w).1 ≡ fail session_not_found 401)
  unfolding perform revoke_token logout_user
  perform-revoke token s w ip user_agent t h =
      let out = logout_user on_tokens.auth token q.has_res s.world in
      let left : w.store ≡ out.0.store =
        (rw t at h) ∙ ap (λ v. v.store) (follow-world s revoked out) in
      let gone =
        validate_token-logout_user c.auth prefix token q.has_res s.world w ip user_agent token
          left in
      (
        rw t
            (follow-answered s revoked out (logout_user-ok on_tokens.auth token q.has_res s.world)),
        gone.0,
      )

  -- A call of an administrator that revokes a random token is answered, and afterwards no
  -- request with that token passes, at any time and with any fingerprint, as long as the session
  -- store is not changed.
  pub handle-revoke :
      (token : String) (s : Server MemoryStore L K R) (w : World MemoryStore L K R)
      (ip user_agent : Option String)
      → truthy (some token) ≡ true
      → comes_from_admin on_tokens q s ≡ true
      → w.store ≡ (handle on_tokens (revoke (some token)) q s).0.world.store
      → ((handle on_tokens (revoke (some token)) q s).1 ≡ answer revoked)
        × ((validate_token on_tokens.auth token ip user_agent w).1 ≡ fail session_not_found 401)
  handle-revoke token s w ip user_agent t h stays =
      let performed = handle-perform on_tokens q (revoke (some token)) s h in
      rw performed
        (perform-revoke token (looked_up on_tokens q s) w ip user_agent t (rw performed at stays))
