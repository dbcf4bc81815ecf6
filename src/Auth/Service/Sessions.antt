-- ===== src/Auth/Service/Sessions.antt =====
-- src/auth/auth.service.ts: the methods that go by session or by user.
pub mod Laws
use luoluo_auth.Common.{
  ℕ, ◌+◌, ◌-◌, ◌*◌, String, Bool, true, false, not, ◌&&◌, ◌||◌, Option, none, some, List, [], ◌∷◌,
  if◌then◌else◌, truthy, get_or, or_number, is_some, ltb, leb, nat_eq,
}
use luoluo_auth.MemoryStore.Data.{SessionData}
use luoluo_auth.Auth.Errors.{
  M, Outcome, ok, throw, ◌>>=◌, ◌>>◌, return, raise, after, proceed, session_not_found,
  internal_error,
}
use luoluo_auth.Auth.Interfaces.{
  SessionStore, AuthServiceConfig, RedisClient, force_logout, kick, ban, unban, open_safe_auth,
  close_safe_auth, nothing, by_device, ban_duration,
}
use luoluo_auth.Auth.Service.{World, Deps, log_audit, modify_store, read_store, when, time_now}
use luoluo_auth.Auth.Service.Tokens.{require_session}
use Prim.Native.String

module _ {S L K R : Type 0} (d : Deps S L K R) where
  unfoldable pub force_logout_session : String → M (World S L K R) (Unit {0})
  unfolding log_audit
  force_logout_session session_id = do
    modify_store (λ s. d.store.delete s session_id)
    log_audit d "system" force_logout none (some session_id) nothing

  -- `device && this.store.deleteByUserIdAndDevice ? ... : ...`
  unfoldable pub remove_sessions : String → Option String → S → S
  remove_sessions user_id device s = elim d.store.delete_by_user_id_and_device [
    | none ↦ d.store.delete_by_user_id s user_id
    | some delete_on ↦
        if truthy device
        then delete_on s user_id (get_or device "")
        else d.store.delete_by_user_id s user_id
  ]

  unfoldable pub kick_user : String → Option String → M (World S L K R) (Unit {0})
  unfolding remove_sessions log_audit
  kick_user user_id device = do
    modify_store (remove_sessions user_id device)
    log_audit d user_id kick device none (by_device (truthy device))

  abbrev pub ban_key : String → String
  ban_key user_id = String.◌++◌ "auth:blacklist:" user_id

  -- The ban is put into the store, into redis, or nowhere.
  abbrev pub put_ban : String → ℕ → M (World S L K R) (Unit {0})
  put_ban user_id duration w = elim d.store.ban [
    | some ban_in ↦ (record w { store = ban_in w.store w.now user_id duration }, ok tt)
    | none ↦ elim d.redis [
      | some redis ↦
          (record w { redis = redis.set_ex w.redis w.now (ban_key user_id) duration }, ok tt)
      | none ↦ raise internal_error 500 w
    ]
  ]

  unfoldable pub ban_user : String → ℕ → M (World S L K R) (Unit {0})
  unfolding log_audit
  ban_user user_id duration = do
    put_ban user_id duration
    log_audit d user_id ban none none (ban_duration duration)

  unfoldable pub is_user_banned : String → M (World S L K R) Bool
  is_user_banned user_id w = elim d.store.is_banned [
    | some is_banned_in ↦
        let (s, b) = is_banned_in w.store w.now user_id in (record w { store = s }, ok b)
    | none ↦ elim d.redis [
      | some redis ↦ (w, ok (redis.has w.redis w.now (ban_key user_id)))
      | none ↦ (w, ok false)
    ]
  ]

  abbrev pub drop_ban : String → M (World S L K R) (Unit {0})
  drop_ban user_id w = elim d.store.unban [
    | some unban_in ↦ (record w { store = unban_in w.store user_id }, ok tt)
    | none ↦ elim d.redis [
      | some redis ↦ (record w { redis = redis.del w.redis (ban_key user_id) }, ok tt)
      | none ↦ raise internal_error 500 w
    ]
  ]

  unfoldable pub unban_user : String → M (World S L K R) (Unit {0})
  unfolding log_audit
  unban_user user_id = do drop_ban user_id; log_audit d user_id unban none none nothing

  unfoldable pub renew_session : String → M (World S L K R) (Unit {0})
  renew_session session_id w = elim d.store.renew [
    | none ↦ (w, ok tt)
    | some renew ↦ (record w { store = renew w.store w.now session_id d.config.token_ttl }, ok tt)
  ]

  -- Half an hour, in milliseconds.
  abbrev pub default_safe_auth_ttl : ℕ
  default_safe_auth_ttl = 30 * 60 * 1000

  unfoldable pub open_safe_auth_on : String → Option ℕ → M (World S L K R) (Unit {0})
  unfolding log_audit
  open_safe_auth_on session_id ttl = do
    found ← read_store (λ s now. d.store.get s now session_id)
    session ← require_session d 404 found
    now ← time_now
    let safe_auth_ttl = or_number ttl (or_number d.config.safe_auth_ttl default_safe_auth_ttl)
    let updated = record session { safe_auth = some true; safe_auth_time = some now }
    modify_store (λ s. d.store.set s now session_id updated (some safe_auth_ttl))
    log_audit d session.user_id open_safe_auth session.device (some session_id) nothing

  unfoldable pub close_safe_auth_on : String → M (World S L K R) (Unit {0})
  unfolding log_audit
  close_safe_auth_on session_id = do
    found ← read_store (λ s now. d.store.get s now session_id)
    session ← require_session d 404 found
    now ← time_now
    let updated = record session { safe_auth = none; safe_auth_time = none }
    modify_store (λ s. d.store.set s now session_id updated d.config.token_ttl)
    log_audit d session.user_id close_safe_auth session.device (some session_id) nothing

  -- `elapsed < ttl`; a time in the future has a negative `elapsed`.
  unfoldable pub is_safe_auth : ℕ → SessionData → Bool
  is_safe_auth now session =
      let ttl = or_number d.config.safe_auth_ttl default_safe_auth_ttl in
      elim session.safe_auth_time [
        | none ↦ false
        | some time ↦
            if get_or session.safe_auth false && not (nat_eq time 0)
            then ltb now (time + ttl)
            else false
      ]

  unfoldable pub get_online_sessions : String → M (World S L K R) (List SessionData)
  get_online_sessions user_id = elim d.store.list_by_user_id [
    | none ↦ raise internal_error 500
    | some list ↦ λ w. (w, ok (list w.store user_id))
  ]

  unfoldable pub collect_sessions : List String → S → ℕ → S × List SessionData
  collect_sessions [] s now = (s, [])
  collect_sessions (id ∷ ids) s now =
      let (s', session) = d.store.get s now id in
      let (s'', rest) = collect_sessions ids s' now in
      elim session [ none ↦ (s'', rest) | some found ↦ (s'', found ∷ rest) ]

  unfoldable pub list_accounts : String → M (World S L K R) (List SessionData)
  unfolding collect_sessions
  list_accounts device = elim d.store.list_by_device [
    | none ↦ return []
    | some list ↦ read_store (λ s now. collect_sessions (list s device) s now)
  ]
