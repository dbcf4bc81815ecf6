-- ===== src/OAuth2/RedisClientStore/Once.antt =====
-- src/extras/oauth2/redis-client-store.ts: a code or a refresh token is accepted once.
use luoluo_auth.Common.{
  ℕ, ◌≡◌, ◌⊎◌, inl, inr, refl, ap, ◌∙◌, String, true, false, Option, none, some, ltb, truthy, arith,
  Bool-cases, Option-cases, eq_refl,
}
use luoluo_auth.RedisStore.Commands.{RedisLaws, is_alive}
use luoluo_auth.OAuth2.Types.{
  AuthorizationCode, OAuth2Token, RefreshTokenEntry, success, reuse_detected, unknown,
}
use luoluo_auth.OAuth2.RedisClientStore.{
  RedisClients, deserialize, get_code_key, get_refresh_token_key, consume_authorization_code,
  get_entry, mark_used, answer_of, token_of, consume_refresh_token,
}

module _ {R : Type 0} (c : RedisClients R) (laws : RedisLaws c.redis) where
  code_gone :
      (r : R) (later : ℕ) (code : String)
      → (consume_authorization_code c (c.redis.del r (get_code_key code)) later code).1 ≡ none
  unfolding consume_authorization_code
  code_gone r later code =
      let key = get_code_key code in
      let gone : c.redis.get (c.redis.del r key) later key ≡ none =
        rw (laws.get-del r later key key, eq_refl key) refl in
      rw (gone, consume_authorization_code) refl

  consume_present :
      (r : R) (now : ℕ) (code : String) (found : AuthorizationCode)
      → (consume_authorization_code c r now code).1 ≡ some found
      → (consume_authorization_code c r now code).0 ≡ c.redis.del r (get_code_key code)
  unfolding consume_authorization_code
  consume_present r now code found h =
      elim (Option-cases (deserialize c.code_codec (c.redis.get r now (get_code_key code)))) [
        | inl e ↦ absurd (ground (arith, rw (e, consume_authorization_code) at h))
        | inr (auth_code, e) ↦ elim (Bool-cases (ltb auth_code.expires_at now)) [
          | inl x ↦ rw (e, consume_authorization_code, x) refl
          | inr x ↦ rw (e, consume_authorization_code, x) refl
        ]
      ]

  -- Over redis, when one call follows the other, an authorization code that was accepted is
  -- accepted by no later call.
  pub consume_authorization_code_once :
      (r : R) (now later : ℕ) (code : String) (found : AuthorizationCode)
      → (consume_authorization_code c r now code).1 ≡ some found
      → (consume_authorization_code c (consume_authorization_code c r now code).0 later code).1
        ≡ none
  consume_authorization_code_once r now later code found h =
      rw (consume_present r now code found h) (code_gone r later code)

  answer_of-state :
      (r : R) (entry : Option RefreshTokenEntry) (token : Option OAuth2Token)
      → (answer_of c r entry token).0 ≡ r
  answer_of-state r none token = refl
  answer_of-state r (some entry) token = elim (Bool-cases entry.used) [
    | inl e ↦ rw e refl
    | inr e ↦ rw e (ground arith)
  ]

  answer_of-success :
      (r : R) (entry : Option RefreshTokenEntry) (token : Option OAuth2Token) (found : OAuth2Token)
      (family : String)
      → (answer_of c r entry token).1 ≡ success found family
      → (e : RefreshTokenEntry) × (entry ≡ some e) × (e.used ≡ false) × (e.family ≡ family)
  answer_of-success r none token found family h = absurd (ground (arith, h))
  answer_of-success r (some entry) token found family h = elim (Bool-cases entry.used) [
    | inl e ↦ absurd (ground (arith, rw e at h))
    | inr e ↦ (entry, refl, e, ground (arith, rw e at h))
  ]

  -- The second look at a refresh token, by what redis holds of it.
  look_gone :
      (r : R) (later : ℕ) (t : String)
      → c.redis.get r later (get_refresh_token_key t) ≡ none
      → (consume_refresh_token c r later t).1 ≡ unknown
  unfolding consume_refresh_token mark_used
  look_gone r later t h = rw (h, mark_used) refl

  look_used :
      (r : R) (later : ℕ) (t value : String)
      → c.redis.get r later (get_refresh_token_key t) ≡ some value
      → (c.entry_codec.parse value).used ≡ true
      → (consume_refresh_token c r later t).1 ≡ reuse_detected (c.entry_codec.parse value).family
  unfolding consume_refresh_token mark_used
  look_used r later t value h u = rw (h, mark_used, u) refl

  abbrev marked : R → ℕ → String → RefreshTokenEntry → R
  marked r now t entry =
      c.redis.set r now (get_refresh_token_key t)
        (c.entry_codec.serialize (record entry { used = true }))
        (some (c.ttl r now (get_refresh_token_key t)))

  mark_used-marked :
      (r : R) (now : ℕ) (t : String) (entry : RefreshTokenEntry)
      → (mark_used c r now t).1 ≡ some entry
      → entry.used ≡ false
      → (mark_used c r now t).0 ≡ marked r now t entry
  unfolding mark_used
  mark_used-marked r now t entry h u =
      elim (Option-cases (c.redis.get r now (get_refresh_token_key t))) [
        | inl e ↦ absurd (ground (arith, rw (e, mark_used) at h))
        | inr (value, e) ↦ elim (Bool-cases (c.entry_codec.parse value).used) [
          | inl x ↦ absurd (ground (arith, rw (e, mark_used, x) at h, u, x))
          | inr x ↦
              let same : c.entry_codec.parse value ≡ entry =
                ground (arith, rw (e, mark_used, x) at h) in
              rw (e, mark_used, x) (rw same refl)
        ]
      ]

  again :
      (r left : R) (now later : ℕ) (t family : String) (entry : RefreshTokenEntry)
      → c.entry_codec.parse (c.entry_codec.serialize (record entry { used = true }))
        ≡ record entry { used = true }
      → entry.family ≡ family
      → (c.redis.get left later (get_refresh_token_key t) ≡ none)
        ⊎ (c.redis.get left later (get_refresh_token_key t)
            ≡ c.redis.get (marked r now t entry) later (get_refresh_token_key t))
      → ((consume_refresh_token c left later t).1 ≡ reuse_detected family)
        ⊎ ((consume_refresh_token c left later t).1 ≡ unknown)
  again r left now later t family entry p f (inl gone) = inr (look_gone left later t gone)
  again r left now later t family entry p f (inr same) =
      let key = get_refresh_token_key t in
      let used = record entry { used = true } in
      let ttl = some (c.ttl r now key) in
      let value = c.entry_codec.serialize used in
      let held = same ∙ laws.get-set r now later key key value ttl in
      elim (Bool-cases (is_alive now ttl later)) [
        | inr e ↦ inr (look_gone left later t (held ∙ rw (eq_refl key, e) refl))
        | inl e ↦ inl (
            look_used left later t value (held ∙ rw (eq_refl key, e) refl) (ap (λ x. x.used) p)
            ∙ ap reuse_detected (ap (λ x. x.family) p ∙ f))
      ]

  mark_used-entry :
      (r : R) (now : ℕ) (t : String) (entry : RefreshTokenEntry)
      → get_entry c r now t ≡ some entry
      → (mark_used c r now t).1 ≡ some entry
  unfolding get_entry mark_used
  mark_used-entry r now t entry h =
      elim (Option-cases (c.redis.get r now (get_refresh_token_key t))) [
        | inl e ↦ absurd (ground (arith, rw (e, get_entry) at h))
        | inr (value, e) ↦ elim (Bool-cases (truthy (some value))) [
          | inr x ↦ absurd (ground (arith, rw (e, get_entry, x) at h))
          | inl x ↦
              let same : c.entry_codec.parse value ≡ entry =
                ground (arith, rw (e, get_entry, x) at h) in
              elim (Bool-cases entry.used) [
                | inl u ↦ rw (e, mark_used, same, u) refl
                | inr u ↦ rw (e, mark_used, same, u) refl
              ]
        ]
      ]

  -- Over redis, a refresh token that was accepted, and whose entry is read back as it is
  -- written, is answered as reused, with its family, or as unknown by any later call, in any
  -- state of redis in which its entry is gone, or is as the first call left it at that time.
  pub consume_refresh_token_once :
      (r left : R) (now later : ℕ) (refresh_token family : String) (token : OAuth2Token)
      (entry : RefreshTokenEntry)
      → get_entry c r now refresh_token ≡ some entry
      → c.entry_codec.parse (c.entry_codec.serialize (record entry { used = true }))
        ≡ record entry { used = true }
      → (consume_refresh_token c r now refresh_token).1 ≡ success token family
      → (c.redis.get left later (get_refresh_token_key refresh_token) ≡ none)
        ⊎ (c.redis.get left later (get_refresh_token_key refresh_token)
            ≡ c.redis.get
                (consume_refresh_token c r now refresh_token).0
                later
                (get_refresh_token_key refresh_token))
      → ((consume_refresh_token c left later refresh_token).1 ≡ reuse_detected family)
        ⊎ ((consume_refresh_token c left later refresh_token).1 ≡ unknown)
  unfolding consume_refresh_token
  consume_refresh_token_once r left now later refresh_token family token entry g p h stays =
      let looked = mark_used c r now refresh_token in
      let (seen, e, u, f) =
        answer_of-success looked.0 looked.1 (token_of c looked.0 now looked.1) token family h in
      let found = mark_used-entry r now refresh_token entry g in
      let same : seen ≡ entry = ground (arith, e, found) in
      let state =
        answer_of-state looked.0 looked.1 (token_of c looked.0 now looked.1)
        ∙ mark_used-marked r now refresh_token entry found (rw same at u) in
      again r left now later refresh_token family entry p (rw same at f) (rw state at stays)
