-- ===== src/Auth/Service/Tokens.antt =====
-- src/auth/auth.service.ts: the methods that start from a token.
pub mod Laws
use luoluo_auth.Common.{
  ℕ, ◌+◌, String, Bool, true, false, not, ◌&&◌, ◌||◌, Option, none, some, List, [], ◌∷◌,
  if◌then◌else◌, truthy, get_or, is_some, includes, ◌==◌,
}
use luoluo_auth.MemoryStore.Data.{SessionData}
use luoluo_auth.Auth.Errors.{
  M, Outcome, ok, throw, ◌>>=◌, ◌>>◌, return, raise, after, proceed, session_not_found,
  fingerprint_mismatch, forbidden, multi_account_switch_disabled, multi_account_target_not_found,
}
use luoluo_auth.Auth.Interfaces.{
  SessionStore, TokenStrategy, AuthServiceConfig, FingerprintConfig, TokenPayload, logout,
  switch_identity, fingerprint_mismatch_warn, fingerprint_mismatch_reject, nothing, identities,
  fingerprints,
}
use luoluo_auth.Auth.Service.{
  World, Deps, erase, log_audit, draw, modify_store, read_store, when, time_now,
}

-- `a && b && a !== b` on two optional texts.
abbrev pub mismatch : Option String → Option String → Bool
mismatch expected actual =
    truthy expected && truthy actual && not (get_or expected "" == get_or actual "")

-- Whether the request's fingerprint contradicts the session's.
unfoldable pub fingerprint_differs : SessionData → Option String → Option String → Bool
fingerprint_differs session ip user_agent =
    if not (truthy ip) && not (truthy user_agent)
    then false
    else if not (truthy session.ip) && not (truthy session.user_agent)
    then false
    else mismatch session.ip ip || mismatch session.user_agent user_agent

module _ {S L K R : Type 0} (d : Deps S L K R) where
  abbrev pub verify : String → M (World S L K R) TokenPayload
  verify token w =
      let (s, payload) = d.strategy.verify w.store w.now token in (record w { store = s }, payload)

  unfoldable pub report_fingerprint :
      FingerprintConfig → SessionData → Option String → Option String → M (World S L K R) (Unit {0})
  unfolding log_audit
  report_fingerprint config session ip user_agent =
      let details = fingerprints session.ip session.user_agent ip user_agent in
      let rejected = log_audit d session.user_id fingerprint_mismatch_reject none none details in
      let warned = log_audit d session.user_id fingerprint_mismatch_warn none none details in
      if config.strict then rejected >> raise fingerprint_mismatch 403 else warned

  unfoldable pub check_fingerprint :
      SessionData → Option String → Option String → M (World S L K R) (Unit {0})
  unfolding fingerprint_differs report_fingerprint
  check_fingerprint session ip user_agent = elim d.config.fingerprint [
    | none ↦ return tt
    | some config ↦
        if config.enabled && fingerprint_differs session ip user_agent
        then report_fingerprint config session ip user_agent
        else return tt
  ]

  -- `if (!sessionData) throw ...`
  abbrev pub require_session : ℕ → Option SessionData → M (World S L K R) SessionData
  require_session status none = raise session_not_found status
  require_session status (some session) = return session

  unfoldable pub validate_token :
      String → Option String → Option String → M (World S L K R) SessionData
  unfolding check_fingerprint
  validate_token token ip user_agent = do
    payload ← verify token
    found ← read_store (λ s now. d.store.get s now payload.session_id)
    session ← require_session 401 found
    check_fingerprint session ip user_agent
    return session

  abbrev pub clear_cookie : M (World S L K R) (Unit {0})
  clear_cookie w = (record w { cookies = erase ∷ w.cookies }, ok tt)

  -- `try { ... } catch { }`
  abbrev pub swallow : M (World S L K R) (Unit {0}) → M (World S L K R) (Unit {0})
  swallow m w = ((m w).0, ok tt)

  unfoldable pub logout_user : String → Bool → M (World S L K R) (Unit {0})
  unfolding log_audit
  logout_user token has_res = do
    when (d.cookies_enabled && has_res) clear_cookie
    swallow do
      payload ← verify token
      modify_store (λ s. d.store.delete s payload.session_id)
      log_audit d payload.user_id logout payload.device (some payload.session_id) nothing

  unfoldable pub rotate_token : String → M (World S L K R) (Option String)
  rotate_token token = elim d.strategy.rotate [
    | none ↦ return none
    | some rotate ↦ do seed ← draw d; read_store (λ s now. rotate seed s now token)
  ]

  -- `switchIdentity`
  unfoldable pub switch_to :
      String → String → Option String → Option String → Option String → M (World S L K R) String
  unfolding log_audit
  switch_to user_id target_user_id device ip user_agent = do
    session_id ← draw d
    seed ← draw d
    now ← time_now
    let token =
        d.strategy.generate seed now
          (record { session_id = session_id; user_id = target_user_id; device = device })
    let store_id : String = elim d.strategy.extract_session_id [
      | none ↦ session_id
      | some extract ↦ extract token
    ]
    let session : SessionData = record {
      user_id = target_user_id;
      device = device;
      create_time = now;
      roles = none;
      permissions = none;
      original_user_id = some user_id;
      switch_time = some now;
      safe_auth = none;
      safe_auth_time = none;
      ip = ip;
      user_agent = user_agent;
      remember_me = none;
    }
    modify_store (λ s. d.store.set s now store_id session d.config.token_ttl)
    log_audit d user_id switch_identity device (some session_id) (identities target_user_id user_id)
    return token

  -- The first session of the list that belongs to the user.
  unfoldable pub find_account : String → List String → S → ℕ → S × Option String
  find_account target_user_id [] s now = (s, none)
  find_account target_user_id (id ∷ ids) s now =
      let (s', session) = d.store.get s now id in
      let rest = find_account target_user_id ids s' now in
      elim session [
        | none ↦ rest
        | some found ↦ if found.user_id == target_user_id then (s', some id) else rest
      ]

  abbrev pub answer_account : String → String → Option String → M (World S L K R) String
  answer_account target_user_id device none = raise multi_account_target_not_found 404
  answer_account target_user_id device (some id) = do
    seed ← draw d
    now ← time_now
    return (
        d.strategy.generate seed now
          (record { session_id = id; user_id = target_user_id; device = some device }))

  abbrev pub multi_account_enabled : Bool
  multi_account_enabled = elim d.config.multi_account [
    | none ↦ false
    | some c ↦ get_or c.enabled false
  ]

  unfoldable pub switch_account : String → String → M (World S L K R) String
  unfolding find_account
  switch_account token target_user_id =
      if multi_account_enabled
      then verify token >>= (λ payload. elim d.store.list_by_device [
        | none ↦ raise multi_account_target_not_found 404
        | some list ↦
            if truthy payload.device
            then read_store
                (λ s now. find_account target_user_id (list s (get_or payload.device "")) s now)
              >>= answer_account target_user_id (get_or payload.device "")
            else raise multi_account_target_not_found 404
      ])
      else raise multi_account_switch_disabled 403

  -- `if (!clientIp || !whitelist.includes(clientIp)) throw ...`, for a whitelist that is not empty.
  abbrev pub check_whitelist : List String → Option String → M (World S L K R) (Unit {0})
  check_whitelist [] ip = return tt
  check_whitelist (a ∷ whitelist) ip =
      if truthy ip && includes (a ∷ whitelist) (get_or ip "")
      then return tt
      else raise forbidden 403

  unfoldable pub validate_rpc_token :
      String → Option String → Option String → M (World S L K R) SessionData
  unfolding check_fingerprint
  validate_rpc_token token ip user_agent = do
    check_whitelist d.config.rpc_ip_whitelist ip
    payload ← verify token
    found ← read_store (λ s now. d.store.get s now payload.session_id)
    session ← require_session 401 found
    check_fingerprint session ip user_agent
    return session
