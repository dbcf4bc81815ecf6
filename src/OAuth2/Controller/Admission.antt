-- ===== src/OAuth2/Controller/Admission.antt =====
-- src/extras/oauth2/oauth2.controller.ts: who gets an authorization code or a token.
use luoluo_auth.Common.{
  String, true, false, not, ◌≢◌, eq_iff, ◌&&◌, ◌||◌, ◌≡◌, ◌⊎◌, inl, inr, refl, ap, ◌∙◌, none, some,
  truthy, get_or, or_text, if◌then◌else◌, ◌==◌, arith, Bool-cases, Option-cases,
}
use luoluo_auth.Common.JsMap
use luoluo_auth.OAuth2.Types.{OAuth2Client, OAuth2Token, AuthorizationCode, authorization_code}
use luoluo_auth.OAuth2.ClientStore.{
  ClientStore, get_client, verify_client_secret, verify_redirect_uri, supports_grant,
}
use luoluo_auth.OAuth2.ClientStore.Codes.{codes}
use luoluo_auth.OAuth2.Controller.{
  OAuth2AuthCheckMode, cookie, header, redirect, TokenRequest, HttpRequest, answer, Server,
  Endpoint, uuid,
}
use luoluo_auth.OAuth2.Controller.Authorize.{
  AuthorizeQuery, Redirection, mode_of, check_query, current_user, conclude, authorize,
  answer_query, unauthenticated, is_s256, normalize_code_challenge_method,
  extract_token_from_request,
}
use luoluo_auth.OAuth2.Controller.Grants.{handle_client_credentials}
use luoluo_auth.OAuth2.Controller.Token.{dispatch, token}
use luoluo_auth.OAuth2.Controller.Issuing.{issue-answer, issue-machine, follow-answer, follow-keeps}

-- A secret that passes is that of the client, and is not empty.
verify_client_secret-same :
    (s : ClientStore) (client_id secret : String) (client : OAuth2Client)
    → get_client s client_id ≡ some client
    → verify_client_secret s client_id secret ≡ true
    → (client.client_secret ≡ secret) × (client.client_secret ≢ "")
unfolding get_client verify_client_secret
verify_client_secret-same s client_id secret client e v =
    let test = rw (e, verify_client_secret) at v in
    let same = eq_iff client.client_secret secret in
    let empty = eq_iff client.client_secret "" in
    elim (Bool-cases (client.client_secret == "")) [
      | inl x ↦ absurd (ground (arith, rw x at test))
      | inr x ↦ (same.0 (rw x at test), λ p. absurd (ground (arith, empty.1 p, x)))
    ]

module _ {S L K R : Type 0} (c : Endpoint S L K R) where
  -- The token endpoint answers only a client that is registered, and public or with its secret,
  -- which is not empty.
  pub token-authenticated :
      (body : TokenRequest) (q : HttpRequest) (s : Server S L K R) (t : OAuth2Token)
      → (token c body q s).1 ≡ answer t
      → (client : OAuth2Client) × (get_client s.clients body.client_id ≡ some client)
        × ((client.is_public ≡ true)
            ⊎ ((verify_client_secret s.clients body.client_id body.client_secret ≡ true)
                × (client.client_secret ≡ body.client_secret)
                × (client.client_secret ≢ "")))
  unfolding token
  token-authenticated body q s t h = elim (Option-cases (get_client s.clients body.client_id)) [
    | inl e ↦ absurd (ground (arith, rw e at h))
    | inr (client, e) ↦ elim (Bool-cases client.is_public) [
      | inl p ↦ (client, e, inl p)
      | inr p ↦
          elim (Bool-cases (verify_client_secret s.clients body.client_id body.client_secret)) [
            | inl v ↦
                let (same, given) =
                  verify_client_secret-same s.clients body.client_id body.client_secret client e
                    v in
                (client, e, inr (v, same, given))
            | inr v ↦ absurd (ground (arith, rw (e, p, v) at h))
          ]
    ]
  ]

  -- What a query needs for a code.
  pub record IsAuthorizable (query : AuthorizeQuery) (s : Server S L K R) : Type 0 where
    pub wants_code : (query.response_type == "code") ≡ true
    pub client : OAuth2Client
    pub registered : get_client s.clients query.client_id ≡ some client
    pub uri : verify_redirect_uri s.clients query.client_id query.redirect_uri ≡ true
    pub granted : supports_grant s.clients query.client_id authorization_code ≡ true
    pub challenged : (client.is_public && not (truthy query.code_challenge)) ≡ false
    pub hashed :
        (truthy query.code_challenge
          && not (is_s256 (normalize_code_challenge_method query.code_challenge_method)))
        ≡ false

  check_query-passed :
      (query : AuthorizeQuery) (client : OAuth2Client) (s : Server S L K R)
      → (check_query c query client s).1 ≡ answer tt
      → (verify_redirect_uri s.clients query.client_id query.redirect_uri ≡ true)
        × (supports_grant s.clients query.client_id authorization_code ≡ true)
        × ((client.is_public && not (truthy query.code_challenge)) ≡ false)
        × ((truthy query.code_challenge
              && not (is_s256 (normalize_code_challenge_method query.code_challenge_method)))
            ≡ false)
  unfolding check_query
  check_query-passed query client s h =
      elim (Bool-cases (verify_redirect_uri s.clients query.client_id query.redirect_uri)) [
        | inr a ↦ absurd (ground (arith, rw a at h))
        | inl a ↦ elim (Bool-cases (supports_grant s.clients query.client_id authorization_code)) [
          | inr b ↦ absurd (ground (arith, rw (a, b) at h))
          | inl b ↦ (a, b, ground (arith, rw (a, b) at h), ground (arith, rw (a, b) at h))
        ]
      ]

  check_query-state :
      (query : AuthorizeQuery) (client : OAuth2Client) (s : Server S L K R)
      → (check_query c query client s).0 ≡ s
  unfolding check_query
  check_query-state query client s = ground arith

  -- Any answer of authorize, a code or the way to the login page, is for a query of a registered
  -- client, with one of its redirect URIs, its grant, a challenge if it is public, and no other
  -- challenge than one by S256.
  pub authorize-IsAuthorizable :
      (query : AuthorizeQuery) (q : HttpRequest) (s : Server S L K R) (r : Redirection)
      → (authorize c query q s).1 ≡ answer r
      → IsAuthorizable query s
  unfolding authorize
  authorize-IsAuthorizable query q s r h = elim (Bool-cases (query.response_type == "code")) [
    | inr a ↦ absurd (ground (arith, rw a at h))
    | inl a ↦ elim (Option-cases (get_client s.clients query.client_id)) [
      | inl b ↦ absurd (ground (arith, rw (a, b) at h))
      | inr (client, b) ↦
          let (_, passed, _) =
            follow-answer (check_query c query client s) (λ _. answer_query c query q) r
              (rw (a, b) at h) in
          let (uri, granted, challenged, hashed) = check_query-passed query client s passed in
          record {
            wants_code = a;
            client = client;
            registered = b;
            uri = uri;
            granted = granted;
            challenged = challenged;
            hashed = hashed;
          }
    ]
  ]

  abbrev stored_codes : Server S L K R → JsMap.JsMap AuthorizationCode
  stored_codes s = codes s.clients

  unauthenticated-state :
      (mode : OAuth2AuthCheckMode) (q : HttpRequest) (state : String) (s : Server S L K R)
      → (unauthenticated c mode q state s).0 ≡ s
  unauthenticated-state redirect q state s = refl
  unauthenticated-state cookie q state s = refl
  unauthenticated-state header q state s = refl

  answer_query_redirect :
      (query : AuthorizeQuery) (q : HttpRequest) (s : Server S L K R)
      → mode_of c.authorize_config ≡ redirect
      → stored_codes (answer_query c query q s).0 ≡ stored_codes s
  unfolding answer_query conclude current_user extract_token_from_request
  answer_query_redirect query q s e = elim (Bool-cases (truthy query.state)) [
    | inl t ↦
        rw (t, e)
          (ap stored_codes
            (unauthenticated-state (mode_of c.authorize_config) q (get_or query.state "") s))
    | inr t ↦
        rw (t, e)
          (ap stored_codes (
            unauthenticated-state (mode_of c.authorize_config) q (c.auth.random s.world.drawn)
              (uuid c s).0))
  ]

  -- In the default mode, redirect, no request gets a code, whoever it is from: authorize stores
  -- no authorization code.
  pub authorize_redirect :
      (query : AuthorizeQuery) (q : HttpRequest) (s : Server S L K R)
      → mode_of c.authorize_config ≡ redirect
      → codes (authorize c query q s).0.clients ≡ codes s.clients
  unfolding authorize
  authorize_redirect query q s e = elim (Bool-cases (query.response_type == "code")) [
    | inr a ↦ rw a refl
    | inl a ↦ elim (Option-cases (get_client s.clients query.client_id)) [
      | inl b ↦ rw (a, b) refl
      | inr (client, b) ↦
          rw (a, b)
            (follow-keeps stored_codes (stored_codes s) (check_query c query client s)
              (λ _. answer_query c query q) (ap stored_codes (check_query-state query client s))
              (λ _ w h. answer_query_redirect query q w e ∙ h))
    ]
  ]

  -- A client that is registered, and public or with its secret, always gets a token of its own
  -- for the grant client_credentials, whatever grants it is registered for.
  pub token-client_credentials :
      (body : TokenRequest) (q : HttpRequest) (s : Server S L K R) (client : OAuth2Client)
      → get_client s.clients body.client_id ≡ some client
      → (client.is_public || verify_client_secret s.clients body.client_id body.client_secret)
        ≡ true
      → body.grant_type ≡ "client_credentials"
      → (t : OAuth2Token) × ((token c body q s).1 ≡ answer t)
        × (t.user_id ≡ none)
        × (t.scope ≡ body.scope)
        × (t.refresh_token ≡ some (c.auth.random s.world.drawn))
  unfolding token dispatch handle_client_credentials
  token-client_credentials body q s client e a g =
      let (t, made) =
        issue-machine c body.scope (some body.client_id) none (some (or_text q.ip "unknown"))
          (if truthy q.user_agent then q.user_agent else none) none s in
      let issued =
        issue-answer c none body.scope (some body.client_id) none (some (or_text q.ip "unknown"))
          (if truthy q.user_agent then q.user_agent else none) none s t made in
      (t, rw (e, a, g) made, issued.0, issued.1, issued.3)
