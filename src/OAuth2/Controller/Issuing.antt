-- ===== src/OAuth2/Controller/Issuing.antt =====
-- src/extras/oauth2/oauth2.controller.ts, `generateToken` and `saveToken`: what they leave alone,
-- and whom a token is for.
use luoluo_auth.Common.{
  suc, ◌+◌, ◌*◌, String, true, ◌≡◌, inl, inr, refl, ◌∙◌, Option, none, some, truthy, get_or, arith,
  Bool-cases,
}
use luoluo_auth.Common.JsMap.{JsMap}
use luoluo_auth.Auth.Errors.{Outcome, ok, throw}
use luoluo_auth.Auth.Service.{World}
use luoluo_auth.Auth.Service.Login.{login_user}
use luoluo_auth.OAuth2.Types.{AuthorizationCode, OAuth2Token, DeviceCode}
use luoluo_auth.OAuth2.ClientStore.{save_token}
use luoluo_auth.OAuth2.ClientStore.Codes.{codes, save_token-codes}
use luoluo_auth.OAuth2.Controller.{
  Reply, answer, refuse, Server, Endpoint, H, follow, reply_of, uuid, access_token, generate_token,
  save, issue, id_token, login_request,
}

-- What both steps keep, the two in sequence keep.
pub follow-keeps :
    {W A B X : Type 0} (f : W → X) (x : X) (r : W × Reply A) (k : A → H W B)
    → f r.0 ≡ x
    → ((a : A) (w : W) → f w ≡ x → f (k a w).0 ≡ x)
    → f (follow r k).0 ≡ x
follow-keeps f x (w, answer a) k h g = g a w h
follow-keeps f x (w, refuse e) k h g = h

-- An answer of two steps in sequence is that of the second on the answer of the first.
pub follow-answer :
    {W A B : Type 0} (r : W × Reply A) (k : A → H W B) (b : B)
    → (follow r k).1 ≡ answer b
    → (a : A) × (r.1 ≡ answer a) × (follow r k ≡ k a r.0)
follow-answer (w, answer a) k b h = (a, refl, refl)
follow-answer (w, refuse e) k b h = absurd (ground (arith, h))

-- The second step runs on the answer of the first.
pub follow-next :
    {W A B : Type 0} (r : W × Reply A) (k : A → H W B) (a : A)
    → r.1 ≡ answer a
    → follow r k ≡ k a r.0
follow-next (w, answer b) k a h = ground (arith, h)
follow-next (w, refuse e) k a h = absurd (ground (arith, h))

module _ {S L K R : Type 0} (c : Endpoint S L K R) where
  -- The authorization codes and the device codes, which no token changes.
  abbrev pub pending : Server S L K R → JsMap AuthorizationCode × JsMap DeviceCode
  pending s = (codes s.clients, s.device_codes)

  reply_of-pending :
      {A : Type 0} (s : Server S L K R) (r : World S L K R × Outcome A)
      → pending (reply_of s r).0 ≡ pending s
  reply_of-pending s (w, ok a) = refl
  reply_of-pending s (w, throw e) = refl

  access_token-pending :
      (user_id ip user_agent : Option String) (s : Server S L K R)
      → pending (access_token c user_id ip user_agent s).0 ≡ pending s
  unfolding access_token
  access_token-pending user_id ip user_agent s = elim (Bool-cases (truthy user_id)) [
    | inl e ↦ rw e (
        reply_of-pending s
          (login_user c.auth (login_request (get_or user_id "") ip user_agent) s.world))
    | inr e ↦ rw e refl
  ]

  save-pending :
      (token : OAuth2Token) (family : Option String) (s : Server S L K R)
      → pending (save c token family s).0 ≡ pending s
  unfolding save
  save-pending token family s = elim (Bool-cases (truthy family)) [
    | inl e ↦ rw e (rw (save_token-codes s.clients s.world.now "" token family) refl)
    | inr e ↦ rw e (
        rw (save_token-codes s.clients s.world.now (c.auth.random s.world.drawn) token family) refl)
  ]

  generate_token-pending :
      (user_id scope client_id issued ip user_agent : Option String) (s : Server S L K R)
      → pending (generate_token c user_id scope client_id issued ip user_agent s).0 ≡ pending s
  unfolding generate_token
  generate_token-pending user_id scope client_id issued ip user_agent s =
      follow-keeps pending (pending s) (access_token c user_id ip user_agent (uuid c s).0) _
        (access_token-pending user_id ip user_agent (uuid c s).0) (λ a w h. h)

  -- Issuing a token changes neither the authorization codes nor the device codes.
  pub issue-pending :
      (user_id scope client_id issued ip user_agent family : Option String) (s : Server S L K R)
      → pending (issue c user_id scope client_id issued ip user_agent family s).0 ≡ pending s
  unfolding issue
  issue-pending user_id scope client_id issued ip user_agent family s =
      follow-keeps pending (pending s)
        (generate_token c user_id scope client_id issued ip user_agent s)
        (λ token. save c token family)
        (generate_token-pending user_id scope client_id issued ip user_agent s)
        (λ token w h. save-pending token family w ∙ h)

  save-answer :
      (token : OAuth2Token) (family : Option String) (s : Server S L K R)
      → (save c token family s).1
        ≡ answer (record token { expires_at = some (s.world.now + token.expires_in * 1000) })
  unfolding save save_token
  save-answer token family s = elim (Bool-cases (truthy family)) [
    | inl e ↦ rw e refl
    | inr e ↦ rw e refl
  ]

  generate_token-answer :
      (user_id scope client_id issued ip user_agent : Option String) (s : Server S L K R)
      (token : OAuth2Token)
      → (generate_token c user_id scope client_id issued ip user_agent s).1 ≡ answer token
      → (token.user_id ≡ user_id)
        × (token.scope ≡ scope)
        × (token.expires_in ≡ 3600)
        × (token.refresh_token ≡ some (c.auth.random s.world.drawn))
  unfolding generate_token
  generate_token-answer user_id scope client_id issued ip user_agent s token h =
      let (a, e, eq) =
        follow-answer (access_token c user_id ip user_agent (uuid c s).0) _ token h in
      let made = rw eq at h in
      (ground (arith, made), ground (arith, made), ground (arith, made), ground (arith, made))

  -- A token that is issued is for the user and the scope that were asked for, is a bearer token
  -- of an hour, and has a refresh token.
  pub issue-answer :
      (user_id scope client_id issued ip user_agent family : Option String) (s : Server S L K R)
      (token : OAuth2Token)
      → (issue c user_id scope client_id issued ip user_agent family s).1 ≡ answer token
      → (token.user_id ≡ user_id)
        × (token.scope ≡ scope)
        × (token.expires_in ≡ 3600)
        × (token.refresh_token ≡ some (c.auth.random s.world.drawn))
  unfolding issue
  issue-answer user_id scope client_id issued ip user_agent family s token h =
      let (made, e, eq) =
        follow-answer (generate_token c user_id scope client_id issued ip user_agent s)
          (λ t. save c t family) token h in
      let (user, granted, hour, refresh) =
        generate_token-answer user_id scope client_id issued ip user_agent s made e in
      let saved =
        save-answer made family
          (generate_token c user_id scope client_id issued ip user_agent s).0 in
      let kept = rw (eq, saved) at h in
      (
        ground (arith, kept, user),
        ground (arith, kept, granted),
        ground (arith, kept, hour),
        ground (arith, kept, refresh),
      )

  -- Without a user, issuing always succeeds.
  pub issue-machine :
      (scope client_id issued ip user_agent family : Option String) (s : Server S L K R)
      → (t : OAuth2Token) × ((issue c none scope client_id issued ip user_agent family s).1
          ≡ answer t)
  unfolding issue generate_token access_token
  issue-machine scope client_id issued ip user_agent family s =
      let made : OAuth2Token = record {
        access_token = c.auth.random (suc s.world.drawn);
        refresh_token = some (c.auth.random s.world.drawn);
        token_type = "Bearer";
        expires_in = 3600;
        scope = scope;
        user_id = none;
        id_token = id_token c s.world.now none scope client_id issued;
        expires_at = none;
      } in
      (_, save-answer made family (uuid c (uuid c s).0).0)

  -- The login of a user in the course of issuing a token, after the draw of the refresh token.
  abbrev pub login_of :
      String → Option String → Option String → Server S L K R → World S L K R × Outcome String
  login_of user_id ip user_agent s =
      login_user c.auth (login_request user_id ip user_agent)
        (record s.world { drawn = suc s.world.drawn })

  -- What a token says of its user, its scope and its client.
  pub record IsTokenFor (s : Server S L K R) (user_id : String)
      (scope client_id issued : Option String) (ip user_agent : Option String) (access : String)
      (t : OAuth2Token) : Type 0 where
    pub by_login : t.access_token ≡ access
    pub for_user : t.user_id ≡ some user_id
    pub with_scope : t.scope ≡ scope
    pub refreshes : t.refresh_token ≡ some (c.auth.random s.world.drawn)
    pub hour : t.expires_in ≡ 3600
    pub identity :
        t.id_token
        ≡ id_token c (login_of user_id ip user_agent s).0.now (some user_id) scope client_id issued

  reply_of-ok :
      {A : Type 0} (s : Server S L K R) (r : World S L K R × Outcome A) (a : A)
      → r.1 ≡ ok a
      → reply_of s r ≡ (record s { world = r.0 }, answer a)
  reply_of-ok s (w, ok b) a h = ground (arith, h)
  reply_of-ok s (w, throw e) a h = absurd (ground (arith, h))

  -- With a user whom the service logs in, issuing succeeds.
  pub issue-user :
      (user_id : String) (scope client_id issued ip user_agent family : Option String)
      (s : Server S L K R) (access : String)
      → truthy (some user_id) ≡ true
      → (login_of user_id ip user_agent s).1 ≡ ok access
      → (t : OAuth2Token) × ((issue c
            (some user_id)
            scope
            client_id
            issued
            ip
            user_agent
            family
            s).1
          ≡ answer t)
        × IsTokenFor s user_id scope client_id issued ip user_agent access t
  unfolding issue generate_token access_token
  issue-user user_id scope client_id issued ip user_agent family s access u h =
      let w = (login_of user_id ip user_agent s).0 in
      let made : OAuth2Token = record {
        access_token = access;
        refresh_token = some (c.auth.random s.world.drawn);
        token_type = "Bearer";
        expires_in = 3600;
        scope = scope;
        user_id = some user_id;
        id_token = id_token c w.now (some user_id) scope client_id issued;
        expires_at = none;
      } in
      (
        record made { expires_at = some (w.now + 3600 * 1000) },
        rw (u, reply_of-ok (uuid c s).0 (login_of user_id ip user_agent s) access h)
            (save-answer made family (record s { world = w })),
        record {
          by_login = refl;
          for_user = refl;
          with_scope = refl;
          refreshes = refl;
          hour = refl;
          identity = refl;
        },
      )
