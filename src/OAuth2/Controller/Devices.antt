-- ===== src/OAuth2/Controller/Devices.antt =====
-- src/extras/oauth2/oauth2.controller.ts: the redemption of a device code.
use luoluo_auth.Common.{
  String, true, false, ◌≡◌, inl, inr, refl, ap, ◌∙◌, Option, none, some, truthy, get_or, ltb, arith,
  eq_refl, Bool-cases, Option-cases,
}
use luoluo_auth.Common.JsMap
use luoluo_auth.Common.JsMap.{JsMap}
use luoluo_auth.OAuth2.Types.{OAuth2Token, DeviceCode}
use luoluo_auth.OAuth2.Controller.{TokenRequest, answer, Server, Endpoint, issue}
use luoluo_auth.OAuth2.Controller.Device.{redeem_device, handle_device_code_token}
use luoluo_auth.OAuth2.Controller.Issuing.{issue-answer, issue-pending}

module _ {S L K R : Type 0} (c : Endpoint S L K R) where
  abbrev pub without_code : Server S L K R → String → Server S L K R
  without_code s code = record s { device_codes = JsMap.delete s.device_codes code }

  -- An authorized entry that has not expired redeems for a token of its user and scope, and is
  -- gone before the token is made.
  pub redeem_device-issue :
      (body : TokenRequest) (ip user_agent : Option String) (code : String) (entry : DeviceCode)
      (s : Server S L K R)
      → entry.authorized ≡ true
      → ltb entry.expires_at s.world.now ≡ false
      → redeem_device c body ip user_agent code entry s
        ≡ issue c entry.user_id entry.scope
            (some body.client_id)
            none
            ip
            user_agent
            none
            (without_code s code)
  unfolding redeem_device
  redeem_device-issue body ip user_agent code entry s a e = rw (e, a) refl

  redeem_device-checked :
      (body : TokenRequest) (ip user_agent : Option String) (code : String) (entry : DeviceCode)
      (s : Server S L K R) (token : OAuth2Token)
      → (redeem_device c body ip user_agent code entry s).1 ≡ answer token
      → (entry.authorized ≡ true) × (ltb entry.expires_at s.world.now ≡ false)
  unfolding redeem_device
  redeem_device-checked body ip user_agent code entry s token h =
      elim (Bool-cases (ltb entry.expires_at s.world.now)) [
        | inl e ↦ absurd (ground (arith, rw e at h))
        | inr e ↦ elim (Bool-cases entry.authorized) [
          | inl a ↦ (a, e)
          | inr a ↦ absurd (ground (arith, rw (e, a) at h))
        ]
      ]

  pub handle_device_code_token-redeem :
      (body : TokenRequest) (ip user_agent : Option String) (s : Server S L K R)
      (entry : DeviceCode)
      → truthy body.code ≡ true
      → JsMap.get s.device_codes (get_or body.code "") ≡ some entry
      → handle_device_code_token c body ip user_agent s
        ≡ redeem_device c body ip user_agent (get_or body.code "") entry s
  unfolding handle_device_code_token
  handle_device_code_token-redeem body ip user_agent s entry t e = rw (t, e) refl

  handle_device_code_token-found :
      (body : TokenRequest) (ip user_agent : Option String) (s : Server S L K R)
      (token : OAuth2Token)
      → (handle_device_code_token c body ip user_agent s).1 ≡ answer token
      → (truthy body.code ≡ true)
        × ((entry : DeviceCode) × (JsMap.get s.device_codes (get_or body.code "") ≡ some entry))
  unfolding handle_device_code_token
  handle_device_code_token-found body ip user_agent s token h =
      elim (Bool-cases (truthy body.code)) [
        | inr t ↦ absurd (ground (arith, rw t at h))
        | inl t ↦ elim (Option-cases (JsMap.get s.device_codes (get_or body.code ""))) [
          | inl e ↦ absurd (ground (arith, rw (t, e) at h))
          | inr (entry, e) ↦ (t, (entry, e))
        ]
      ]

  -- The token endpoint answers a device code only if it was started, has not expired and was
  -- confirmed by a user; the token is for that user and the scope of the start, and the device
  -- code is gone afterwards, so that it redeems once.
  pub handle_device_code_token_once :
      (body : TokenRequest) (ip user_agent : Option String) (s : Server S L K R)
      (token : OAuth2Token)
      → (handle_device_code_token c body ip user_agent s).1 ≡ answer token
      → (entry : DeviceCode) × (JsMap.get s.device_codes (get_or body.code "") ≡ some entry)
        × (entry.authorized ≡ true)
        × (ltb entry.expires_at s.world.now ≡ false)
        × (token.user_id ≡ entry.user_id)
        × (token.scope ≡ entry.scope)
        × (JsMap.get
              (handle_device_code_token c body ip user_agent s).0.device_codes
              (get_or body.code "")
            ≡ none)
  handle_device_code_token_once body ip user_agent s token h =
      let (t, (entry, e)) = handle_device_code_token-found body ip user_agent s token h in
      let code = get_or body.code "" in
      let redeemed = handle_device_code_token-redeem body ip user_agent s entry t e in
      let (a, l) = redeem_device-checked body ip user_agent code entry s token (rw redeemed at h) in
      let made = redeemed ∙ redeem_device-issue body ip user_agent code entry s a l in
      let issued =
        issue-answer c entry.user_id entry.scope (some body.client_id) none ip user_agent none
          (without_code s code) token (rw made at h) in
      let left =
        issue-pending c entry.user_id entry.scope (some body.client_id) none ip user_agent none
          (without_code s code) in
      (
        entry,
        e,
        a,
        l,
        issued.0,
        issued.1,
        ap (λ r. JsMap.get r.0.device_codes code) made
            ∙ ap (λ p. JsMap.get p.1 code) left
            ∙ ground (arith, JsMap.get-delete s.device_codes code code, eq_refl code),
      )
