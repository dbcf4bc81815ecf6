-- ===== src/OAuth2/RedisClientStore.antt =====
-- src/extras/oauth2/redis-client-store.ts: clients, codes and tokens in redis. A command runs at
-- once, those of a pipeline one after the other, and none of them fails; `randomUUID()` is an
-- argument.
pub mod Once
use Prim.Native.String
use luoluo_auth.Common.{
  ℕ, ◌*◌, String, Bool, true, false, Option, none, some, List, [], ◌∷◌, if◌then◌else◌, truthy,
  get_or, or_text, ltb, includes, some_of, ◌==◌,
}
use luoluo_auth.RedisStore.{RedisApi}
use luoluo_auth.OAuth2.Types.{
  GrantType, same_grant, OAuth2Client, AuthorizationCode, OAuth2Token, RefreshTokenEntry,
  ConsumeRefreshTokenResult, success, reuse_detected, unknown,
}

-- `JSON.stringify` and `JSON.parse` on one type.
pub record Codec (A : Type 0) : Type 0 where
  pub serialize : A → String
  pub parse : String → A

-- What the store is given: redis with its command `TTL`, JSON, and the two times to live, in
-- seconds.
pub record RedisClients (R : Type 0) : Type 0 where
  pub redis : RedisApi R
  pub ttl : R → ℕ → String → ℕ
  pub client_codec : Codec OAuth2Client
  pub code_codec : Codec AuthorizationCode
  pub token_codec : Codec OAuth2Token
  pub entry_codec : Codec RefreshTokenEntry
  pub token_ttl_seconds : ℕ
  pub code_ttl_seconds : ℕ

abbrev pub default_token_ttl : ℕ
default_token_ttl = 7 * 24 * 60 * 60

abbrev pub default_code_ttl : ℕ
default_code_ttl = 10 * 60

abbrev pub get_client_key : String → String
get_client_key client_id = String.◌++◌ "oauth2:clients:" client_id

abbrev pub get_code_key : String → String
get_code_key code = String.◌++◌ "oauth2:codes:" code

abbrev pub get_token_key : String → String
get_token_key access_token = String.◌++◌ "oauth2:tokens:" access_token

abbrev pub get_refresh_token_key : String → String
get_refresh_token_key refresh_token = String.◌++◌ "oauth2:refresh-tokens:" refresh_token

abbrev pub get_family_key : String → String
get_family_key family = String.◌++◌ "oauth2:families:" family

-- The empty text is no value.
abbrev pub deserialize : {A : Type 0} → Codec A → Option String → Option A
deserialize codec value = if truthy value then some (codec.parse (get_or value "")) else none

module _ {R : Type 0} (c : RedisClients R) where
  unfoldable pub register_client : R → ℕ → OAuth2Client → R
  register_client r now client =
      c.redis.set r now (get_client_key client.client_id) (c.client_codec.serialize client) none

  unfoldable pub get_client : R → ℕ → String → Option OAuth2Client
  get_client r now client_id =
      deserialize c.client_codec (c.redis.get r now (get_client_key client_id))

  -- The comparison of the two UTF-8 buffers, byte by byte, is equality of the texts.
  unfoldable pub verify_client_secret : R → ℕ → String → String → Bool
  unfolding get_client
  verify_client_secret r now client_id client_secret = elim (get_client r now client_id) [
    | none ↦ false
    | some client ↦
        if client.client_secret == "" then false else client.client_secret == client_secret
  ]

  unfoldable pub verify_redirect_uri : R → ℕ → String → String → Bool
  unfolding get_client
  verify_redirect_uri r now client_id redirect_uri = elim (get_client r now client_id) [
    | none ↦ false
    | some client ↦ includes client.redirect_uris redirect_uri
  ]

  unfoldable pub supports_grant : R → ℕ → String → GrantType → Bool
  unfolding get_client
  supports_grant r now client_id grant_type = elim (get_client r now client_id) [
    | none ↦ false
    | some client ↦ some_of (same_grant grant_type) client.grants
  ]

  unfoldable pub save_authorization_code : R → ℕ → AuthorizationCode → R
  save_authorization_code r now code =
      c.redis.set r now (get_code_key code.code) (c.code_codec.serialize code)
        (some c.code_ttl_seconds)

  -- `GET`, and once its answer is there `DEL`.
  unfoldable pub consume_authorization_code : R → ℕ → String → R × Option AuthorizationCode
  consume_authorization_code r now code =
      elim (deserialize c.code_codec (c.redis.get r now (get_code_key code))) [
        | none ↦ (r, none)
        | some auth_code ↦
            let left = c.redis.del r (get_code_key code) in
            if ltb auth_code.expires_at now then (left, none) else (left, some auth_code)
      ]

  -- The entry of a refresh token, and its place in its family.
  unfoldable pub save_refresh_token : R → ℕ → String → String → String → R
  save_refresh_token r now refresh_token access_token family =
      let entry : RefreshTokenEntry = record {
        access_token = access_token;
        family = family;
        used = false;
      } in
      let stored =
        c.redis.set r now (get_refresh_token_key refresh_token) (c.entry_codec.serialize entry)
          (some c.token_ttl_seconds) in
      c.redis.expire (c.redis.sadd stored now (get_family_key family) refresh_token) now
        (get_family_key family) c.token_ttl_seconds

  unfoldable pub save_token : R → ℕ → (uuid : String) → OAuth2Token → Option String → R
  unfolding save_refresh_token
  save_token r now uuid token family =
      let stored =
        c.redis.set r now (get_token_key token.access_token) (c.token_codec.serialize token)
          (some c.token_ttl_seconds) in
      if truthy token.refresh_token
      then save_refresh_token stored now (get_or token.refresh_token "") token.access_token
          (or_text family uuid)
      else stored

  unfoldable pub get_token : R → ℕ → String → Option OAuth2Token
  get_token r now access_token =
      deserialize c.token_codec (c.redis.get r now (get_token_key access_token))

  unfoldable pub get_entry : R → ℕ → String → Option RefreshTokenEntry
  get_entry r now refresh_token =
      deserialize c.entry_codec (c.redis.get r now (get_refresh_token_key refresh_token))

  -- The Lua script, which redis runs as one command: the entry as it was, which is then marked.
  unfoldable pub mark_used : R → ℕ → String → R × Option RefreshTokenEntry
  mark_used r now refresh_token =
      let key = get_refresh_token_key refresh_token in
      elim (c.redis.get r now key) [
        | none ↦ (r, none)
        | some value ↦
            let entry = c.entry_codec.parse value in
            if entry.used then (r, some entry) else (
              c.redis.set r now key (c.entry_codec.serialize (record entry { used = true }))
                  (some (c.ttl r now key)),
              some entry,
            )
      ]

  abbrev pub answer_of :
      R → Option RefreshTokenEntry → Option OAuth2Token → R × ConsumeRefreshTokenResult
  answer_of r none token = (r, unknown)
  answer_of r (some entry) token =
      if entry.used
      then (r, reuse_detected entry.family)
      else elim token [ none ↦ (r, unknown) | some found ↦ (r, success found entry.family) ]

  -- The token of an entry, at the time of the call.
  abbrev pub token_of : R → ℕ → Option RefreshTokenEntry → Option OAuth2Token
  token_of r now none = none
  token_of r now (some entry) = get_token r now entry.access_token

  unfoldable pub consume_refresh_token : R → ℕ → String → R × ConsumeRefreshTokenResult
  unfolding mark_used get_token
  consume_refresh_token r now refresh_token =
      let (marked, entry) = mark_used r now refresh_token in
      answer_of marked entry (token_of marked now entry)

  -- One round of the loop of `revokeTokenFamily`: `read` is the state before the pipeline.
  unfoldable pub revoke_member : R → ℕ → String → R → R
  unfolding get_entry
  revoke_member read now refresh_token r = elim (get_entry read now refresh_token) [
    | none ↦ r
    | some entry ↦
        c.redis.del (c.redis.del r (get_token_key entry.access_token))
          (get_refresh_token_key refresh_token)
  ]

  unfoldable pub revoke_members : R → ℕ → List String → R → R
  unfolding revoke_member
  revoke_members read now [] r = r
  revoke_members read now (t ∷ ts) r = revoke_members read now ts (revoke_member read now t r)

  -- An empty family is deleted as well.
  unfoldable pub revoke_token_family : R → ℕ → String → R
  unfolding revoke_members
  revoke_token_family r now family =
      let members = c.redis.smembers r now (get_family_key family) in
      c.redis.del (revoke_members r now members r) (get_family_key family)

  unfoldable pub revoke_refresh_token : R → ℕ → String → R
  unfolding get_entry
  revoke_refresh_token r now refresh_token = elim (get_entry r now refresh_token) [
    | none ↦ r
    | some entry ↦
        let gone = c.redis.del r (get_refresh_token_key refresh_token) in
        c.redis.srem (c.redis.del gone (get_token_key entry.access_token)) now
          (get_family_key entry.family) refresh_token
  ]

  abbrev pub drop_refresh_token : R → ℕ → String → Option RefreshTokenEntry → R
  drop_refresh_token r now refresh_token none = c.redis.del r (get_refresh_token_key refresh_token)
  drop_refresh_token r now refresh_token (some entry) =
      c.redis.srem (c.redis.del r (get_refresh_token_key refresh_token)) now
        (get_family_key entry.family) refresh_token

  unfoldable pub remove_token : R → ℕ → String → R
  unfolding get_token get_entry
  remove_token r now access_token =
      let gone = c.redis.del r (get_token_key access_token) in
      elim (get_token r now access_token) [
        | none ↦ gone
        | some token ↦
            let refresh_token = get_or token.refresh_token "" in
            if truthy token.refresh_token
            then drop_refresh_token gone now refresh_token (get_entry r now refresh_token)
            else gone
      ]

  unfoldable pub remove_client : R → String → R
  remove_client r client_id = c.redis.del r (get_client_key client_id)
