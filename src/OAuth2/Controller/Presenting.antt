-- ===== src/OAuth2/Controller/Presenting.antt =====
-- src/extras/oauth2/oauth2.controller.ts: an authorization code that was granted is answered, and
-- one that was presented is refused.
use luoluo_auth.Common.{
  ℕ, ◌+◌, ◌*◌, ◌≤◌, String, true, false, ◌≡◌, inl, inr, refl, ap, ◌∙◌, Option, none, some, List,
  truthy, get_or, ◌==◌, arith, eq_refl, Bool-cases, Option-cases,
}
use luoluo_auth.Common.JsMap
use luoluo_auth.Auth.Errors.{ok}
use luoluo_auth.OAuth2.Types.{AuthorizationCode, OAuth2Client, OAuth2Token}
use luoluo_auth.OAuth2.ClientStore.{ClientStore, consume_authorization_code}
use luoluo_auth.OAuth2.ClientStore.Codes.{consume-save, codes, stores_code, IsGone, run-IsGone}
use luoluo_auth.OAuth2.ClientStore.Reach.{Event, run}
use luoluo_auth.OAuth2.Controller.{TokenRequest, bad_request, answer, refuse, Server, Endpoint}
use luoluo_auth.OAuth2.Controller.Authorize.{AuthorizeQuery, grant_code, new_code}
use luoluo_auth.OAuth2.Controller.Grants.{
  other_uri, check_verifier, redeem_code, handle_authorization_code,
}
use luoluo_auth.OAuth2.Controller.Issuing.{
  issue-pending, issue-user, login_of, IsTokenFor, follow-keeps,
}
use luoluo_auth.OAuth2.Controller.Redeeming.{
  IsRedeemable, presented, handle_authorization_code-issue, check_verifier-state,
}

module _ {S L K R : Type 0} (c : Endpoint S L K R) where
  abbrev stored_codes : Server S L K R → JsMap.JsMap AuthorizationCode
  stored_codes s = codes s.clients

  redeem_code-codes :
      (body : TokenRequest) (client : OAuth2Client) (ip user_agent : Option String)
      (a : AuthorizationCode) (s : Server S L K R)
      → stored_codes (redeem_code c body client ip user_agent a s).0 ≡ stored_codes s
  unfolding redeem_code
  redeem_code-codes body client ip user_agent a s =
      elim (Bool-cases (a.client_id == body.client_id)) [
        | inr e ↦ rw e refl
        | inl e ↦ rw e (elim (Bool-cases (other_uri body.redirect_uri a.redirect_uri)) [
          | inl u ↦ rw u refl
          | inr u ↦ rw u (
              follow-keeps stored_codes (stored_codes s) (check_verifier c a client body s) _
                (ap stored_codes (check_verifier-state c body client a s))
                (λ _ w h.
                  ap (λ p. p.0)
                    (issue-pending c (some a.user_id) a.scope (some body.client_id) a.nonce ip
                      user_agent none w)
                  ∙ h))
        ])
      ]

  handle_authorization_code-codes :
      (body : TokenRequest) (client : OAuth2Client) (ip user_agent : Option String)
      (s : Server S L K R)
      → truthy body.code ≡ true
      → stored_codes (handle_authorization_code c body client ip user_agent s).0
        ≡ stored_codes (presented c s (get_or body.code ""))
  unfolding handle_authorization_code redeem_code
  handle_authorization_code-codes body client ip user_agent s t =
      elim (Option-cases
        (consume_authorization_code s.clients s.world.now (get_or body.code "")).1) [
          | inl e ↦ rw (t, e) refl
          | inr (a, e) ↦
              rw (t, e)
                (redeem_code-codes body client ip user_agent a
                  (presented c s (get_or body.code "")))
        ]

  consume-absent :
      (s : ClientStore) (now : ℕ) (code : String)
      → JsMap.get s.authorization_codes code ≡ none
      → (consume_authorization_code s now code).1 ≡ none
  unfolding consume_authorization_code
  consume-absent s now code h = ground (arith, h)

  presented-absent :
      (s : Server S L K R) (code : String)
      → JsMap.get (stored_codes (presented c s code)) code ≡ none
  unfolding consume_authorization_code
  presented-absent s code =
      ground (arith, JsMap.get-delete s.clients.authorization_codes code code, eq_refl code)

  -- Once an authorization code was presented at the token endpoint by a known client, whatever
  -- the answer was, every later request with it is refused as invalid, whatever calls of the
  -- client store come in between, other than one that stores the same code again.
  pub handle_authorization_code_once :
      (body again : TokenRequest) (client other : OAuth2Client)
      (ip user_agent ip' agent' : Option String) (s s' : Server S L K R) (es : List Event)
      → truthy body.code ≡ true
      → again.code ≡ body.code
      → stores_code (get_or body.code "") es ≡ false
      → s'.clients ≡ run (handle_authorization_code c body client ip user_agent s).0.clients es
      → (handle_authorization_code c again other ip' agent' s').1
        ≡ refuse (bad_request "Invalid or expired authorization code")
  handle_authorization_code_once body again client other ip user_agent ip' agent' s s' es t e n
        same =
      let code = get_or body.code "" in
      let left = (handle_authorization_code c body client ip user_agent s).0.clients in
      let lost : IsGone code left =
        rw (handle_authorization_code-codes body client ip user_agent s t)
          (presented-absent s code) in
      let gone : JsMap.get s'.clients.authorization_codes code ≡ none =
        rw same (run-IsGone code es left n lost) in
      unfold handle_authorization_code in
      rw (e, t, consume-absent s'.clients s'.world.now code gone) refl

  -- An authorization code that was just granted is answered with a token within ten minutes, as
  -- long as the client store is not changed, for a request that is redeemable for it (its
  -- client, its redirect URI if one is presented, its verifier) and a user with a name that is
  -- not empty, whom the service logs in: the access token is that of the login, the token is for
  -- the user and the scope of the query, and its ID token has the nonce of the query.
  pub handle_authorization_code-grant_code :
      (query : AuthorizeQuery) (state user_id : String) (body : TokenRequest)
      (client : OAuth2Client) (ip user_agent : Option String) (s s' : Server S L K R)
      (access : String)
      → s'.clients ≡ (grant_code c query state user_id s).0.clients
      → s'.world.now ≤ s.world.now + 10 * 60 * 1000
      → body.code ≡ some (c.auth.random s.world.drawn)
      → truthy body.code ≡ true
      → IsRedeemable c body client
          (new_code c query (c.auth.random s.world.drawn) user_id state s.world.now)
      → truthy (some user_id) ≡ true
      → (login_of c user_id ip user_agent (presented c s' (get_or body.code ""))).1 ≡ ok access
      → (t : OAuth2Token) × ((handle_authorization_code c body client ip user_agent s').1
          ≡ answer t)
        × IsTokenFor c
            (presented c s' (get_or body.code ""))
            user_id
            query.scope
            (some body.client_id)
            query.nonce
            ip
            user_agent
            access
            t
  unfolding grant_code
  handle_authorization_code-grant_code query state user_id body client ip user_agent s s' access
        same soon e t h u l =
      let a = new_code c query (c.auth.random s.world.drawn) user_id state s.world.now in
      let left = presented c s' (get_or body.code "") in
      let redeemed =
        handle_authorization_code-issue c body client ip user_agent s' a t
          (rw (same, e, consume-save s.clients s'.world.now a a.code, eq_refl a.code)
            (ground (arith, soon)))
          h in
      let (token, made, right) =
        issue-user c user_id query.scope (some body.client_id) query.nonce ip user_agent none left
          access u l in
      (token, ap (λ r. r.1) redeemed ∙ made, right)
