-- ===== src/OAuth2/ClientStore/Codes.antt =====
-- src/extras/oauth2/client-store.ts, authorization codes: a code is redeemed at most once, before
-- its expiry, for what was saved, the operations on tokens leave the codes alone, and a code that
-- is gone stays gone.
use luoluo_auth.Common.{
  ℕ, String, ◌≡◌, refl, ap, ◌∙◌, inl, inr, false, Option, none, some, List, [], ◌∷◌, truthy, ltb,
  if◌then◌else◌, ◌==◌, ◌||◌, arith, eq_iff, Bool, Bool-cases, Option-cases,
}
use luoluo_auth.Common.JsMap
use luoluo_auth.Common.JsMap.{JsMap}
use luoluo_auth.OAuth2.Types.{AuthorizationCode, OAuth2Token}
use luoluo_auth.OAuth2.ClientStore.{
  ClientStore, save_authorization_code, consume_authorization_code, save_token, store_token,
  evict_from, remove_token, drop_refresh_token, evict_expired_tokens, is_expired, refresh_of,
  consume_entry, consume_refresh_token, get_token, revoke_member, revoke_members,
  revoke_token_family, revoke_refresh_token, register_client, remove_client,
}
use luoluo_auth.OAuth2.ClientStore.Reach
use luoluo_auth.OAuth2.ClientStore.Reach.{Event, step, run}

-- An authorization code that was just saved is redeemed for its own data until it expires; other
-- codes keep their worth.
pub consume-save :
    (s : ClientStore) (now : ℕ) (code : AuthorizationCode) (other : String)
    → (consume_authorization_code (save_authorization_code s code) now other).1 ≡ (
        if code.code == other
        then if ltb code.expires_at now then none else some code
        else (consume_authorization_code s now other).1)
unfolding consume_authorization_code save_authorization_code
consume-save s now code other =
    ground (arith, JsMap.get-set s.authorization_codes code.code code other)

-- A code that is redeemed was stored, and has not expired.
pub consume-found :
    (s : ClientStore) (now : ℕ) (code : String) (a : AuthorizationCode)
    → (consume_authorization_code s now code).1 ≡ some a
    → (JsMap.get s.authorization_codes code ≡ some a) × (ltb a.expires_at now ≡ false)
unfolding consume_authorization_code
consume-found s now code a h = elim (Option-cases (JsMap.get s.authorization_codes code)) [
  | inl e ↦ absurd (ground (arith, rw (e, consume_authorization_code) at h))
  | inr (found, e) ↦ elim (Bool-cases (ltb found.expires_at now)) [
    | inl x ↦ absurd (ground (arith, rw (e, consume_authorization_code, x) at h))
    | inr x ↦
        let same : found ≡ a = ground (arith, rw (e, consume_authorization_code, x) at h) in
        (e ∙ ap some same, rw⁻¹ same x)
  ]
]

-- After an authorization code was presented, whatever the answer, it is worth nothing at any
-- time; every other code is worth what it was.
pub consume-consume_code :
    (s : ClientStore) (now later : ℕ) (code other : String)
    → (consume_authorization_code (consume_authorization_code s now code).0 later other).1
      ≡ (if code == other then none else (consume_authorization_code s later other).1)
unfolding consume_authorization_code
consume-consume_code s now later code other =
    ground (arith, eq_iff code other, JsMap.get-delete s.authorization_codes code other)

-- The codes of the client store.
abbrev pub codes : ClientStore → JsMap AuthorizationCode
codes s = s.authorization_codes

drop_refresh_token-codes :
    (s : ClientStore) (r : String) → (o : _) → codes (drop_refresh_token s r o) ≡ codes s
unfolding drop_refresh_token
drop_refresh_token-codes s r none = refl
drop_refresh_token-codes s r (some entry) = refl

remove_token-codes : (s : ClientStore) (a : String) → codes (remove_token s a) ≡ codes s
unfolding remove_token
remove_token-codes s a = elim (Bool-cases (truthy (refresh_of (JsMap.get s.tokens a)))) [
  | inl e ↦ rw e (drop_refresh_token-codes _ _ _)
  | inr e ↦ rw e refl
]

evict_from-codes :
    (entries : JsMap OAuth2Token) (now : ℕ) (s : ClientStore)
    → codes (evict_from entries now s) ≡ codes s
unfolding evict_from
evict_from-codes [] now s = refl
evict_from-codes ((a, token) ∷ entries) now s =
    evict_from-codes entries now (if is_expired now token.expires_at then remove_token s a else s)
    ∙ ground (arith, remove_token-codes s a)

store_token-codes :
    (s : ClientStore) (token : OAuth2Token) (family : String)
    → codes (store_token s token family) ≡ codes s
unfolding store_token
store_token-codes s token family = ground arith

pub save_token-codes :
    (s : ClientStore) (now : ℕ) (fresh : String) (token : OAuth2Token) (family : Option String)
    → codes (save_token s now fresh token family).0 ≡ codes s
unfolding save_token evict_expired_tokens
save_token-codes s now fresh token family = evict_from-codes _ now _ ∙ store_token-codes s _ _

consume_refresh_token-codes :
    (s : ClientStore) (now : ℕ) (r : String) → codes (consume_refresh_token s now r).0 ≡ codes s
unfolding consume_refresh_token consume_entry
consume_refresh_token-codes s now r = elim (Option-cases (JsMap.get s.refresh_tokens r)) [
  | inl e ↦ rw (e, consume_refresh_token) refl
  | inr (entry, e) ↦ elim (Option-cases (JsMap.get s.tokens entry.access_token)) [
    | inl f ↦ rw (e, consume_refresh_token) (rw (f, consume_refresh_token) refl)
    | inr (token, f) ↦ rw (e, consume_refresh_token) (rw (f, consume_refresh_token) (ground arith))
  ]
]

get_token-codes : (s : ClientStore) (now : ℕ) (a : String) → codes (get_token s now a).0 ≡ codes s
unfolding get_token
get_token-codes s now a = ground arith

revoke_members-codes : (rs : List String) (s : ClientStore) → codes (revoke_members rs s) ≡ codes s
unfolding revoke_members revoke_member
revoke_members-codes [] s = refl
revoke_members-codes (r ∷ rs) s = revoke_members-codes rs (revoke_member s r) ∙ ground arith

revoke_token_family-codes :
    (s : ClientStore) (family : String) → codes (revoke_token_family s family) ≡ codes s
unfolding revoke_token_family
revoke_token_family-codes s family = elim (Option-cases (JsMap.get s.token_families family)) [
  | inl e ↦ rw (e, revoke_token_family) refl
  | inr (rs, e) ↦ rw (e, revoke_token_family) (revoke_members-codes rs s)
]

revoke_refresh_token-codes :
    (s : ClientStore) (r : String) → codes (revoke_refresh_token s r) ≡ codes s
unfolding revoke_refresh_token
revoke_refresh_token-codes s r = elim (Option-cases (JsMap.get s.refresh_tokens r)) [
  | inl e ↦ rw (e, revoke_refresh_token) refl
  | inr (entry, e) ↦ rw (e, revoke_refresh_token) (drop_refresh_token-codes _ _ _)
]

-- Whether a history stores a code again.
abbrev pub stores_code : String → List Event → Bool
stores_code code [] = false
stores_code code (Reach.save_authorization_code new ∷ es) = new.code == code || stores_code code es
stores_code code (e ∷ es) = stores_code code es

abbrev pub IsGone : String → ClientStore → Type 0
IsGone code s = JsMap.get (codes s) code ≡ none

step-IsGone :
    (code : String) (s : ClientStore) (e : Event)
    → stores_code code (e ∷ []) ≡ false
    → IsGone code s
    → IsGone code (step s e)
unfolding step register_client remove_client save_authorization_code consume_authorization_code
step-IsGone code s (Reach.register_client client) n h = h
step-IsGone code s (Reach.save_authorization_code new) n h =
    rw (JsMap.get-set s.authorization_codes new.code new code) (ground (arith, n, h))
step-IsGone code s (Reach.consume_authorization_code now other) n h =
    ground (arith, h, JsMap.get-delete s.authorization_codes other code)
step-IsGone code s (Reach.save_token now uuid token family) n h =
    rw (save_token-codes s now uuid token family) h
step-IsGone code s (Reach.get_token now a) n h = rw (get_token-codes s now a) h
step-IsGone code s (Reach.consume_refresh_token now r) n h =
    rw (consume_refresh_token-codes s now r) h
step-IsGone code s (Reach.revoke_token_family family) n h =
    rw (revoke_token_family-codes s family) h
step-IsGone code s (Reach.revoke_refresh_token r) n h = rw (revoke_refresh_token-codes s r) h
step-IsGone code s (Reach.remove_token a) n h = rw (remove_token-codes s a) h
step-IsGone code s (Reach.remove_client client_id) n h = h

stores_code-cons :
    (code : String) (e : Event) (es : List Event)
    → stores_code code (e ∷ es) ≡ false
    → (stores_code code (e ∷ []) ≡ false) × (stores_code code es ≡ false)
stores_code-cons code (Reach.save_authorization_code new) es n =
    (ground (arith, n), ground (arith, n))
stores_code-cons code (Reach.register_client client) es n = (refl, n)
stores_code-cons code (Reach.consume_authorization_code now other) es n = (refl, n)
stores_code-cons code (Reach.save_token now uuid token family) es n = (refl, n)
stores_code-cons code (Reach.get_token now a) es n = (refl, n)
stores_code-cons code (Reach.consume_refresh_token now r) es n = (refl, n)
stores_code-cons code (Reach.revoke_token_family family) es n = (refl, n)
stores_code-cons code (Reach.revoke_refresh_token r) es n = (refl, n)
stores_code-cons code (Reach.remove_token a) es n = (refl, n)
stores_code-cons code (Reach.remove_client client_id) es n = (refl, n)

-- A code that is gone stays so over every history that does not store it again.
pub run-IsGone :
    (code : String) (es : List Event) (s : ClientStore)
    → stores_code code es ≡ false
    → IsGone code s
    → IsGone code (run s es)
unfolding run
run-IsGone code [] s n h = h
run-IsGone code (e ∷ es) s n h =
    let (first, rest) = stores_code-cons code e es n in
    run-IsGone code es (step s e) rest (step-IsGone code s e first h)
