-- ===== src/OAuth2/Controller/Redeeming.antt =====
-- src/extras/oauth2/oauth2.controller.ts: what the redemption of an authorization code
-- has checked.
use luoluo_auth.Common.{
  String, true, false, ◌≡◌, ◌⊎◌, inl, inr, refl, Option, none, some, ltb, truthy, get_or, ◌==◌,
  arith, eq_iff, Bool-cases, Option-cases,
}
use luoluo_auth.Common.JsMap
use luoluo_auth.OAuth2.Types.{AuthorizationCode, OAuth2Client, OAuth2Token, s256}
use luoluo_auth.OAuth2.ClientStore.{consume_authorization_code}
use luoluo_auth.OAuth2.ClientStore.Codes.{consume-found}
use luoluo_auth.OAuth2.Pkce.{generate_code_challenge}
use luoluo_auth.OAuth2.Pkce.Equality.{verify_code_verifier_iff}
use luoluo_auth.OAuth2.Controller.{TokenRequest, answer, Server, Endpoint, issue}
use luoluo_auth.OAuth2.Controller.Grants.{
  other_uri, check_verifier, redeem_code, handle_authorization_code,
}
use luoluo_auth.OAuth2.Controller.Issuing.{issue-answer, follow-answer}

module _ {S L K R : Type 0} (c : Endpoint S L K R) where
  -- What a redemption needs of the code that is stored, of the client and of the request.
  pub record IsRedeemable (body : TokenRequest) (client : OAuth2Client) (a : AuthorizationCode)
      : Type 0 where
    pub same_client : a.client_id ≡ body.client_id
    pub same_uri : other_uri body.redirect_uri a.redirect_uri ≡ false
    pub proved :
        ((truthy a.code_challenge ≡ true)
          × (truthy body.code_verifier ≡ true)
          × (generate_code_challenge c.sha256
                (get_or body.code_verifier "")
                (get_or a.code_challenge_method s256)
              ≡ get_or a.code_challenge ""))
        ⊎ ((truthy a.code_challenge ≡ false) × (client.is_public ≡ false))

  -- The state after a code was presented.
  abbrev pub presented : Server S L K R → String → Server S L K R
  presented s code = record s {
    clients = (consume_authorization_code s.clients s.world.now code).0;
  }

  check_verifier-passed :
      (body : TokenRequest) (client : OAuth2Client) (a : AuthorizationCode) (s : Server S L K R)
      → (check_verifier c a client body s).1 ≡ answer tt
      → ((truthy a.code_challenge ≡ true)
          × (truthy body.code_verifier ≡ true)
          × (generate_code_challenge c.sha256
                (get_or body.code_verifier "")
                (get_or a.code_challenge_method s256)
              ≡ get_or a.code_challenge ""))
        ⊎ ((truthy a.code_challenge ≡ false) × (client.is_public ≡ false))
  unfolding check_verifier
  check_verifier-passed body client a s h = elim (Bool-cases (truthy a.code_challenge)) [
    | inl e ↦ inl (
      e,
      ground (arith, h, e),
      (verify_code_verifier_iff c.sha256 (get_or body.code_verifier "") (get_or a.code_challenge "")
            (get_or a.code_challenge_method s256)).0
          (ground (arith, h, e)),
    )
    | inr e ↦ inr (e, ground (arith, h, e))
  ]

  pub check_verifier-state :
      (body : TokenRequest) (client : OAuth2Client) (a : AuthorizationCode) (s : Server S L K R)
      → (check_verifier c a client body s).0 ≡ s
  unfolding check_verifier
  check_verifier-state body client a s = ground arith

  redeemable-check_verifier :
      (body : TokenRequest) (client : OAuth2Client) (a : AuthorizationCode) (s : Server S L K R)
      → IsRedeemable body client a
      → check_verifier c a client body s ≡ (s, answer tt)
  unfolding check_verifier
  redeemable-check_verifier body client a s h = elim h.proved [
    | inl (e, v, g) ↦
        let ok =
          (verify_code_verifier_iff c.sha256 (get_or body.code_verifier "")
              (get_or a.code_challenge "") (get_or a.code_challenge_method s256)).1
            g in
        rw (e, v, ok) refl
    | inr (e, p) ↦ rw (e, p) refl
  ]

  -- A code that the client store has redeems for a token of its own user, scope and nonce.
  pub handle_authorization_code-issue :
      (body : TokenRequest) (client : OAuth2Client) (ip user_agent : Option String)
      (s : Server S L K R) (a : AuthorizationCode)
      → truthy body.code ≡ true
      → (consume_authorization_code s.clients s.world.now (get_or body.code "")).1 ≡ some a
      → IsRedeemable body client a
      → handle_authorization_code c body client ip user_agent s
        ≡ issue c
            (some a.user_id)
            a.scope
            (some body.client_id)
            a.nonce
            ip
            user_agent
            none
            (presented s (get_or body.code ""))
  unfolding handle_authorization_code redeem_code
  handle_authorization_code-issue body client ip user_agent s a t found h =
      rw
        (
          t,
          found,
          (eq_iff a.client_id body.client_id).1 h.same_client,
          h.same_uri,
          redeemable-check_verifier body client a (presented s (get_or body.code "")) h,
        )
        refl

  handle_authorization_code-checked :
      (body : TokenRequest) (client : OAuth2Client) (ip user_agent : Option String)
      (s : Server S L K R) (token : OAuth2Token) (a : AuthorizationCode)
      → (handle_authorization_code c body client ip user_agent s).1 ≡ answer token
      → (consume_authorization_code s.clients s.world.now (get_or body.code "")).1 ≡ some a
      → (truthy body.code ≡ true)
        × ((a.client_id == body.client_id) ≡ true)
        × (other_uri body.redirect_uri a.redirect_uri ≡ false)
  unfolding handle_authorization_code redeem_code
  handle_authorization_code-checked body client ip user_agent s token a h found =
      (ground (arith, h, found), ground (arith, h, found), ground (arith, h, found))

  handle_authorization_code-IsRedeemable_found :
      (body : TokenRequest) (client : OAuth2Client) (ip user_agent : Option String)
      (s : Server S L K R) (token : OAuth2Token) (a : AuthorizationCode)
      → (handle_authorization_code c body client ip user_agent s).1 ≡ answer token
      → (consume_authorization_code s.clients s.world.now (get_or body.code "")).1 ≡ some a
      → IsRedeemable body client a
  unfolding handle_authorization_code redeem_code
  handle_authorization_code-IsRedeemable_found body client ip user_agent s token a h found =
      let (t, e, u) =
        handle_authorization_code-checked body client ip user_agent s token a h found in
      let (_, passed, _) =
        follow-answer (check_verifier c a client body (presented s (get_or body.code ""))) _ token
          (rw (t, found, e, u) at h) in
      record {
        same_client = (eq_iff a.client_id body.client_id).0 e;
        same_uri = u;
        proved = check_verifier-passed body client a (presented s (get_or body.code "")) passed;
      }

  -- The token endpoint answers an authorization code only if the code was stored, unexpired, for
  -- the client that presents it, with the redirect URI of its grant if one is presented, and
  -- with the verifier of its challenge, or without a challenge for a client that is not public;
  -- the token is for the user and the scope of the code.
  pub handle_authorization_code-IsRedeemable :
      (body : TokenRequest) (client : OAuth2Client) (ip user_agent : Option String)
      (s : Server S L K R) (token : OAuth2Token)
      → (handle_authorization_code c body client ip user_agent s).1 ≡ answer token
      → (a : AuthorizationCode) × ((consume_authorization_code s.clients s.world.now
            (get_or body.code "")).1
          ≡ some a)
        × (JsMap.get s.clients.authorization_codes (get_or body.code "") ≡ some a)
        × (ltb a.expires_at s.world.now ≡ false)
        × IsRedeemable body client a
        × (token.user_id ≡ some a.user_id)
        × (token.scope ≡ a.scope)
  unfolding handle_authorization_code redeem_code
  handle_authorization_code-IsRedeemable body client ip user_agent s token h =
      elim (Option-cases
        (consume_authorization_code s.clients s.world.now (get_or body.code "")).1) [
          | inl e ↦ absurd (ground (arith, h, e))
          | inr (a, found) ↦
              let r =
                handle_authorization_code-IsRedeemable_found body client ip user_agent s token a h
                  found in
              let t =
                (handle_authorization_code-checked body client ip user_agent s token a h found).0 in
              let issued =
                issue-answer c (some a.user_id) a.scope (some body.client_id) a.nonce ip user_agent
                  none (presented s (get_or body.code "")) token
                  (rw (handle_authorization_code-issue body client ip user_agent s a t found r) at
                    h) in
              let (there, live) =
                consume-found s.clients s.world.now (get_or body.code "") a found in
              (a, found, there, live, r, issued.0, issued.1)
        ]
