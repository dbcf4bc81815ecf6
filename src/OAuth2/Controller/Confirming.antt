-- ===== src/OAuth2/Controller/Confirming.antt =====
-- src/extras/oauth2/oauth2.controller.ts: a device code, from its start over its confirmation to its
-- redemption.
use luoluo_auth.Common.{
  ℕ, zero, suc, ◌+◌, ◌*◌, ◌≤◌, String, true, false, not, ◌&&◌, ◌≡◌, inl, inr, refl, sym, ap, ◌∙◌,
  Option, none, some, [], ◌∷◌, truthy, get_or, ltb, ◌==◌, arith, eq_iff, eq_refl, Bool-cases,
  Option-cases,
}
use luoluo_auth.Common.JsMap
use luoluo_auth.Common.JsMap.{JsMap}
use luoluo_auth.MemoryStore.Data.{SessionData}
use luoluo_auth.Auth.Errors.{ok}
use luoluo_auth.Auth.Guard.{extract_bearer_token}
use luoluo_auth.OAuth2.Types.{OAuth2Token, DeviceCode, device_code}
use luoluo_auth.OAuth2.ClientStore.{get_client, supports_grant}
use luoluo_auth.OAuth2.Controller.{
  TokenRequest, HttpRequest, answer, Server, Endpoint, uuid, validate, issue,
}
use luoluo_auth.OAuth2.Controller.Device.{
  DeviceAuthorization, absent, found, find_pending, draw_characters, generate_user_code, new_entry,
  authorization, start_device, device_authorize, device_verify, handle_device_code_token,
}
use luoluo_auth.OAuth2.Controller.Issuing.{issue-user, login_of, IsTokenFor, follow-next}
use luoluo_auth.OAuth2.Controller.Devices.{
  without_code, redeem_device-issue, handle_device_code_token-redeem,
}

-- The loop finds an entry that was put under a new key, when it finds nothing before.
find_pending-set :
    (m : JsMap DeviceCode) (now : ℕ) (user_code code : String) (entry : DeviceCode)
    → find_pending m now user_code ≡ absent
    → JsMap.get m code ≡ none
    → entry.user_code ≡ user_code
    → entry.authorized ≡ false
    → ltb entry.expires_at now ≡ false
    → find_pending (JsMap.set m code entry) now user_code ≡ found code entry
unfolding find_pending JsMap.set JsMap.get
find_pending-set [] now user_code code entry h g u a e =
    rw (a, e) (ground (arith, u, eq_iff entry.user_code user_code))
find_pending-set ((k, x) ∷ m) now user_code code entry h g u a e =
    elim (Bool-cases ((x.user_code == user_code) && not x.authorized)) [
      | inl b ↦ absurd (ground (arith, rw b at h))
      | inr b ↦ elim (Bool-cases (k == code)) [
        | inl d ↦ absurd (ground (arith, rw d at g))
        | inr d ↦
            rw (d, b) (find_pending-set m now user_code code entry (rw b at h) (rw d at g) u a e)
      ]
    ]

module _ {S L K R : Type 0} (c : Endpoint S L K R) where
  -- Drawing the user code changes nothing but the number of draws.
  draw_characters-state :
      (rounds : ℕ) (code : String) (s : Server S L K R)
      → ((draw_characters c rounds code s).0.device_codes ≡ s.device_codes)
        × ((draw_characters c rounds code s).0.world.now ≡ s.world.now)
        × ((user_code : String) × ((draw_characters c rounds code s).1 ≡ answer user_code))
  unfolding draw_characters
  draw_characters-state zero code s = (refl, refl, (code, refl))
  draw_characters-state (suc rounds) code s = draw_characters-state rounds _ _

  generate_user_code-state :
      (s : Server S L K R)
      → ((generate_user_code c s).0.device_codes ≡ s.device_codes)
        × ((generate_user_code c s).0.world.now ≡ s.world.now)
        × ((user_code : String) × ((generate_user_code c s).1 ≡ answer user_code))
  unfolding generate_user_code
  generate_user_code-state s = draw_characters-state 8 "" s

  -- What the start of a device code stores.
  start_device-entry :
      (client_id : String) (scope : Option String) (s : Server S L K R)
      → (user_code : String) × ((start_device c client_id scope s).1
          ≡ answer (authorization c (c.auth.random s.world.drawn) user_code))
        × ((start_device c client_id scope s).0.device_codes
            ≡ JsMap.set s.device_codes
                (c.auth.random s.world.drawn)
                (new_entry c (c.auth.random s.world.drawn) user_code client_id scope s.world.now))
  unfolding start_device
  start_device-entry client_id scope s =
      let (codes, time, (user_code, drawn)) = generate_user_code-state (uuid c s).0 in
      let next = follow-next (generate_user_code c (uuid c s).0) _ user_code drawn in
      (user_code, ap (λ r. r.1) next, ap (λ r. r.0.device_codes) next ∙ rw (codes, time) refl)

  device_authorize-start :
      (client_id scope : Option String) (s : Server S L K R) (d : DeviceAuthorization)
      → (device_authorize c client_id scope s).1 ≡ answer d
      → device_authorize c client_id scope s ≡ start_device c (get_or client_id "") scope s
  unfolding device_authorize
  device_authorize-start client_id scope s d h = elim (Bool-cases (truthy client_id)) [
    | inr t ↦ absurd (ground (arith, rw t at h))
    | inl t ↦ elim (Option-cases (get_client s.clients (get_or client_id ""))) [
      | inl e ↦ absurd (ground (arith, rw (t, e) at h))
      | inr (client, e) ↦
          elim (Bool-cases (supports_grant s.clients (get_or client_id "") device_code)) [
            | inl g ↦ rw (t, e, g) refl
            | inr g ↦ absurd (ground (arith, rw (t, e, g) at h))
          ]
    ]
  ]

  -- A confirmation with a valid token of a user code that waits.
  device_verify-confirmed :
      (user_code : String) (q : HttpRequest) (s s' : Server S L K R) (session : SessionData)
      (code : String) (entry : DeviceCode)
      → truthy (some user_code) ≡ true
      → truthy q.authorization ≡ true
      → truthy (extract_bearer_token q.authorization) ≡ true
      → validate c (get_or (extract_bearer_token q.authorization) "") q s ≡ (s', some session)
      → find_pending s'.device_codes s'.world.now user_code ≡ found code entry
      → device_verify c (some user_code) q s ≡ (
        record s' {
          device_codes =
              JsMap.set s'.device_codes code
                (record entry { authorized = true; user_id = some session.user_id });
        },
        answer tt,
      )
  unfolding device_verify
  device_verify-confirmed user_code q s s' session code entry a b t v f = rw (a, b, t, v, f) refl

  abbrev confirmed : DeviceCode → String → DeviceCode
  confirmed entry user_id = record entry { authorized = true; user_id = some user_id }

  -- A confirmation and a poll, from the map in which the entry was put.
  confirm_and_poll :
      (m : JsMap DeviceCode) (code user_code : String) (entry : DeviceCode) (q : HttpRequest)
      (session : SessionData) (body : TokenRequest) (ip user_agent : Option String)
      (s₂ s₃ s₄ : Server S L K R)
      → JsMap.get m code ≡ none
      → find_pending m s₃.world.now user_code ≡ absent
      → entry.user_code ≡ user_code
      → entry.authorized ≡ false
      → ltb entry.expires_at s₃.world.now ≡ false
      → ltb entry.expires_at s₄.world.now ≡ false
      → s₃.device_codes ≡ JsMap.set m code entry
      → truthy (some user_code) ≡ true
      → truthy q.authorization ≡ true
      → truthy (extract_bearer_token q.authorization) ≡ true
      → validate c (get_or (extract_bearer_token q.authorization) "") q s₂ ≡ (s₃, some session)
      → s₄.device_codes ≡ (device_verify c (some user_code) q s₂).0.device_codes
      → body.code ≡ some code
      → truthy body.code ≡ true
      → ((device_verify c (some user_code) q s₂).1 ≡ answer tt)
        × (handle_device_code_token c body ip user_agent s₄
            ≡ issue c
                (some session.user_id)
                entry.scope
                (some body.client_id)
                none
                ip
                user_agent
                none
                (without_code c s₄ code))
  confirm_and_poll m code user_code entry q session body ip user_agent s₂ s₃ s₄ fresh alone named
        waits l₃ l₄ kept u a t v kept' e present =
      let seen : find_pending s₃.device_codes s₃.world.now user_code ≡ found code entry =
        rw kept (find_pending-set m s₃.world.now user_code code entry alone fresh named waits l₃) in
      let verified = device_verify-confirmed user_code q s₂ s₃ session code entry u a t v seen in
      let there : JsMap.get s₄.device_codes code ≡ some (confirmed entry session.user_id) =
        rw (kept', verified)
          (JsMap.get-set s₃.device_codes code (confirmed entry session.user_id) code
            ∙ ground (arith, eq_refl code)) in
      let named_code : get_or body.code "" ≡ code = rw e refl in
      (
        ap (λ r. r.1) verified,
        handle_device_code_token-redeem c body ip user_agent s₄ (confirmed entry session.user_id)
              present (rw named_code there)
            ∙ rw named_code (
                redeem_device-issue c body ip user_agent code (confirmed entry session.user_id) s₄
                  refl l₄),
      )

  -- A device code that was started, then confirmed by a user with a valid token, then polled,
  -- all within ten minutes, while nothing else changes the device codes and no other device
  -- waits with the same user code, for a user whom the service logs in: the confirmation is
  -- answered, and so is the poll, with a token that has the access token of that login, the user
  -- who confirmed and the scope of the start.
  pub device_flow :
      (client_id scope : Option String) (d : DeviceAuthorization) (q : HttpRequest)
      (session : SessionData) (body : TokenRequest) (ip user_agent : Option String)
      (s₁ s₂ s₃ s₄ : Server S L K R) (access : String)
      → (device_authorize c client_id scope s₁).1 ≡ answer d
      → JsMap.get s₁.device_codes d.device_code ≡ none
      → find_pending s₁.device_codes s₃.world.now d.user_code ≡ absent
      → s₃.device_codes ≡ (device_authorize c client_id scope s₁).0.device_codes
      → truthy (some d.user_code) ≡ true
      → truthy q.authorization ≡ true
      → truthy (extract_bearer_token q.authorization) ≡ true
      → validate c (get_or (extract_bearer_token q.authorization) "") q s₂ ≡ (s₃, some session)
      → s₃.world.now ≤ s₁.world.now + 10 * 60 * 1000
      → s₄.device_codes ≡ (device_verify c (some d.user_code) q s₂).0.device_codes
      → s₄.world.now ≤ s₁.world.now + 10 * 60 * 1000
      → body.code ≡ some d.device_code
      → truthy body.code ≡ true
      → truthy (some session.user_id) ≡ true
      → (login_of c session.user_id ip user_agent (without_code c s₄ d.device_code)).1 ≡ ok access
      → ((device_verify c (some d.user_code) q s₂).1 ≡ answer tt)
        × ((token : OAuth2Token) × ((handle_device_code_token c body ip user_agent s₄).1
              ≡ answer token)
            × IsTokenFor c
                (without_code c s₄ d.device_code)
                session.user_id
                scope
                (some body.client_id)
                none
                ip
                user_agent
                access
                token)
  device_flow client_id scope d q session body ip user_agent s₁ s₂ s₃ s₄ access h fresh alone kept u
        a t v soon kept' soon' named' present known logged =
      let start = device_authorize-start client_id scope s₁ d h in
      let (user_code, said, stored) = start_device-entry (get_or client_id "") scope s₁ in
      let same : authorization c (c.auth.random s₁.world.drawn) user_code ≡ d =
        ground (arith, sym said ∙ ap (λ r. r.1) (sym start) ∙ h) in
      let code : c.auth.random s₁.world.drawn ≡ d.device_code = ap (λ x. x.device_code) same in
      let named : user_code ≡ d.user_code = ap (λ x. x.user_code) same in
      let entry = new_entry c d.device_code d.user_code (get_or client_id "") scope s₁.world.now in
      let put : s₃.device_codes ≡ JsMap.set s₁.device_codes d.device_code entry =
        kept ∙ ap (λ r. r.0.device_codes) start ∙ rw (stored, code, named) refl in
      let (verified, polled) =
        confirm_and_poll s₁.device_codes d.device_code d.user_code entry q session body ip
          user_agent s₂ s₃ s₄ fresh alone refl refl (ground (arith, soon)) (ground (arith, soon'))
          put u a t v kept' named' present in
      let (token, made, right) =
        issue-user c session.user_id scope (some body.client_id) none ip user_agent none
          (without_code c s₄ d.device_code) access known logged in
      (verified, (token, ap (λ r. r.1) polled ∙ made, right))
