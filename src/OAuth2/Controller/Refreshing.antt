-- ===== src/OAuth2/Controller/Refreshing.antt =====
-- src/extras/oauth2/oauth2.controller.ts: the refresh grant, and the answer to a refresh token that
-- is used again.
use luoluo_auth.Common.{
  ℕ, String, true, false, ◌≡◌, inl, inr, refl, sym, ap, ◌∙◌, Option, none, some, truthy, get_or,
  arith, Bool-cases, Option-cases,
}
use luoluo_auth.Common.JsMap
use luoluo_auth.OAuth2.Types.{
  OAuth2Token, RefreshTokenEntry, ConsumeRefreshTokenResult, success, reuse_detected, unknown,
}
use luoluo_auth.OAuth2.ClientStore.{
  ClientStore, is_expired, consume_entry, consume_refresh_token, get_token,
}
use luoluo_auth.OAuth2.ClientStore.Families.{IsIndexed}
use luoluo_auth.OAuth2.ClientStore.Rotation.{
  revoke_token_family_complete, consume-success, consume_present, consume_entry_used,
}
use luoluo_auth.OAuth2.Controller.{TokenRequest, unauthorized, answer, refuse, Server, Endpoint}
use luoluo_auth.OAuth2.Controller.Grants.{check_rate, refresh, handle_refresh_token}
use luoluo_auth.OAuth2.Controller.Issuing.{issue-answer, follow-answer, follow-next}

consume_entry-reused :
    (s : ClientStore) (now : ℕ) (r family : String) (entry : RefreshTokenEntry)
    (token : OAuth2Token)
    → (consume_entry s now r entry token).1 ≡ reuse_detected family
    → (consume_entry s now r entry token).0 ≡ s
unfolding consume_entry
consume_entry-reused s now r family entry token h = ground (arith, h)

consume-reused :
    (s : ClientStore) (now : ℕ) (r family : String)
    → (consume_refresh_token s now r).1 ≡ reuse_detected family
    → (consume_refresh_token s now r).0 ≡ s
unfolding consume_refresh_token
consume-reused s now r family h = elim (Option-cases (JsMap.get s.refresh_tokens r)) [
  | inl e ↦ rw (e, consume_refresh_token) refl
  | inr (entry, e) ↦ elim (Option-cases (JsMap.get s.tokens entry.access_token)) [
    | inl f ↦ rw (e, consume_refresh_token) rw (f, consume_refresh_token) refl
    | inr (token, f) ↦
        rw (e, consume_refresh_token) rw (f, consume_refresh_token)
          (consume_entry-reused s now r family entry token
            (rw (f, consume_refresh_token) at rw (e, consume_refresh_token) at h))
  ]
]

-- A used refresh token whose access token has not expired is noticed.
used_again :
    (s : ClientStore) (now : ℕ) (r family : String) (entry : RefreshTokenEntry)
    (token : OAuth2Token)
    → JsMap.get s.refresh_tokens r ≡ some entry
    → entry.used ≡ true
    → entry.family ≡ family
    → JsMap.get s.tokens entry.access_token ≡ some token
    → is_expired now token.expires_at ≡ false
    → (consume_refresh_token s now r).1 ≡ reuse_detected family
used_again s now r family entry token there used mine live current =
    rw (consume_present s now r there live)
      (consume_entry_used s now r entry token used ∙ rw current (ap reuse_detected mine))

module _ {S L K R : Type 0} (c : Endpoint S L K R) where
  -- The client store after the refresh token was presented.
  abbrev pub after_consume : Server S L K R → TokenRequest → Server S L K R
  after_consume s body = record s {
    clients = (consume_refresh_token s.clients s.world.now (get_or body.refresh_token "")).0;
  }

  abbrev pub result : Server S L K R → TokenRequest → ConsumeRefreshTokenResult
  result s body = (consume_refresh_token s.clients s.world.now (get_or body.refresh_token "")).1

  check_rate-clients :
      (action : String) (ip : Option String) (s : Server S L K R)
      → (check_rate c action ip s).0.clients ≡ s.clients
  unfolding check_rate
  check_rate-clients action ip s = elim (Option-cases c.auth.limiter) [
    | inl e ↦ rw (e, check_rate) refl
    | inr (limiter, e) ↦ rw (e, check_rate) (ground arith)
  ]

  check_rate-now :
      (action : String) (ip : Option String) (s : Server S L K R)
      → (check_rate c action ip s).0.world.now ≡ s.world.now
  unfolding check_rate
  check_rate-now action ip s = elim (Option-cases c.auth.limiter) [
    | inl e ↦ rw (e, check_rate) refl
    | inr (limiter, e) ↦ rw (e, check_rate) (ground arith)
  ]

  -- A request that the limiter grants goes on with what the client store says of its token.
  handle_refresh_token-refresh :
      (body : TokenRequest) (ip user_agent : Option String) (s : Server S L K R)
      → (check_rate c "oauth2:refresh" ip s).1 ≡ answer tt
      → truthy body.refresh_token ≡ true
      → (let s' = (check_rate c "oauth2:refresh" ip s).0 in
          handle_refresh_token c body ip user_agent s
          ≡ refresh c body ip user_agent (result s' body) (after_consume s' body))
  unfolding handle_refresh_token
  handle_refresh_token-refresh body ip user_agent s granted t =
      let s' = (check_rate c "oauth2:refresh" ip s).0 in
      follow-next (check_rate c "oauth2:refresh" ip s) _ tt granted ∙ rw t refl

  result-same :
      (body : TokenRequest) (ip : Option String) (s : Server S L K R)
      → (consume_refresh_token
          (check_rate c "oauth2:refresh" ip s).0.clients
          (check_rate c "oauth2:refresh" ip s).0.world.now
          (get_or body.refresh_token "")).1
        ≡ (consume_refresh_token s.clients s.world.now (get_or body.refresh_token "")).1
  result-same body ip s =
      rw (check_rate-clients "oauth2:refresh" ip s, check_rate-now "oauth2:refresh" ip s) refl

  handle_refresh_token-granted :
      (body : TokenRequest) (ip user_agent : Option String) (s : Server S L K R)
      (token : OAuth2Token)
      → (handle_refresh_token c body ip user_agent s).1 ≡ answer token
      → (check_rate c "oauth2:refresh" ip s).1 ≡ answer tt
  unfolding handle_refresh_token
  handle_refresh_token-granted body ip user_agent s token h =
      (follow-answer (check_rate c "oauth2:refresh" ip s) _ token h).1

  handle_refresh_token-given :
      (body : TokenRequest) (ip user_agent : Option String) (s : Server S L K R)
      (token : OAuth2Token)
      → (handle_refresh_token c body ip user_agent s).1 ≡ answer token
      → (check_rate c "oauth2:refresh" ip s).1 ≡ answer tt
      → truthy body.refresh_token ≡ true
  unfolding handle_refresh_token
  handle_refresh_token-given body ip user_agent s token h granted =
      elim (Bool-cases (truthy body.refresh_token)) [
        | inl e ↦ e
        | inr e ↦ absurd (
            ground
              (arith, rw (follow-next (check_rate c "oauth2:refresh" ip s) _ tt granted, e) at h))
      ]

  refresh-success :
      (body : TokenRequest) (ip user_agent : Option String) (r : ConsumeRefreshTokenResult)
      (s : Server S L K R) (token : OAuth2Token)
      → (refresh c body ip user_agent r s).1 ≡ answer token
      → (old : OAuth2Token) × (family : String) × (r ≡ success old family)
        × (token.user_id ≡ old.user_id)
        × (token.scope ≡ old.scope)
  unfolding refresh
  refresh-success body ip user_agent (success old family) s token h =
      let issued =
        issue-answer c old.user_id old.scope (some body.client_id) none ip user_agent (some family)
          s token h in
      (old, family, refl, issued.0, issued.1)
  refresh-success body ip user_agent (reuse_detected family) s token h = absurd (ground (arith, h))
  refresh-success body ip user_agent unknown s token h = absurd (ground (arith, h))

  -- With the rate limit granted, over a client store whose index is complete: a refresh token
  -- that is stored, marked as used, with an access token that is still there and has not
  -- expired, is refused with 401, and afterwards every refresh token of its family is unknown
  -- and the access token of each is gone, at any time.
  pub handle_refresh_token_reuse :
      (body : TokenRequest) (ip user_agent : Option String) (s : Server S L K R) (family : String)
      (r : String) (entry old : RefreshTokenEntry) (token : OAuth2Token) (later : ℕ)
      → (check_rate c "oauth2:refresh" ip s).1 ≡ answer tt
      → truthy body.refresh_token ≡ true
      → IsIndexed s.clients
      → JsMap.get s.clients.refresh_tokens (get_or body.refresh_token "") ≡ some old
      → old.used ≡ true
      → old.family ≡ family
      → JsMap.get s.clients.tokens old.access_token ≡ some token
      → is_expired s.world.now token.expires_at ≡ false
      → JsMap.get s.clients.refresh_tokens r ≡ some entry
      → entry.family ≡ family
      → (let (s', reply) = handle_refresh_token c body ip user_agent s in
          (reply ≡ refuse (unauthorized "Refresh token reuse detected. Token family revoked."))
          × ((consume_refresh_token s'.clients later r).1 ≡ unknown)
          × ((get_token s'.clients later entry.access_token).1 ≡ none))
  unfolding refresh
  handle_refresh_token_reuse body ip user_agent s family r entry old token later granted t h there
        used mine live current found same =
      let w = (check_rate c "oauth2:refresh" ip s).0 in
      let clients = check_rate-clients "oauth2:refresh" ip s in
      let time = check_rate-now "oauth2:refresh" ip s in
      let code = get_or body.refresh_token "" in
      let reused =
        used_again s.clients s.world.now code family old token there used mine live current in
      let kept = consume-reused s.clients s.world.now code family reused in
      let revoked = revoke_token_family_complete s.clients r entry later h found in
      let seen : result w body ≡ reuse_detected family = result-same body ip s ∙ reused in
      rw (handle_refresh_token-refresh body ip user_agent s granted t, seen, clients, time, kept)
        (rw⁻¹ same (refl, revoked.0, revoked.1))

  -- The token endpoint answers a refresh token only if the client store held it, unused, with a
  -- token that has not expired, and the new token is for the user and the scope of that one.
  pub handle_refresh_token-success :
      (body : TokenRequest) (ip user_agent : Option String) (s : Server S L K R)
      (token : OAuth2Token)
      → (handle_refresh_token c body ip user_agent s).1 ≡ answer token
      → (old : OAuth2Token) × (entry : RefreshTokenEntry) × (JsMap.get s.clients.refresh_tokens
            (get_or body.refresh_token "")
          ≡ some entry)
        × (entry.used ≡ false)
        × (JsMap.get s.clients.tokens entry.access_token ≡ some old)
        × (is_expired s.world.now old.expires_at ≡ false)
        × (token.user_id ≡ old.user_id)
        × (token.scope ≡ old.scope)
  handle_refresh_token-success body ip user_agent s token h =
      let granted = handle_refresh_token-granted body ip user_agent s token h in
      let t = handle_refresh_token-given body ip user_agent s token h granted in
      let w = (check_rate c "oauth2:refresh" ip s).0 in
      let next = rw (handle_refresh_token-refresh body ip user_agent s granted t) at h in
      let (old, family, seen, user, scope) =
        refresh-success body ip user_agent (result w body) (after_consume w body) token next in
      let (entry, there, live, mine, fresh, current) =
        consume-success s.clients s.world.now (get_or body.refresh_token "")
          (sym (result-same body ip s) ∙ seen) in
      (old, entry, there, fresh, live, current, user, scope)
