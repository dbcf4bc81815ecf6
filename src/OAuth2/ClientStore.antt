-- ===== src/OAuth2/ClientStore.antt =====
-- src/extras/oauth2/client-store.ts, `InMemoryOAuth2ClientStore`. `Date.now()` is the argument
-- `now`, and `randomUUID()` is an argument where a method calls it.
pub mod Codes
pub mod Families
pub mod Rotation
pub mod Spent
pub mod Reach
use luoluo_auth.Common.{
  ℕ, ◌+◌, ◌*◌, String, Bool, true, false, not, ◌&&◌, ◌||◌, Option, none, some, List, [], ◌∷◌, ◌++◌,
  ltb, nat_eq, if◌then◌else◌, is_some, get_or, or_text, truthy, includes, some_of, keep, ◌==◌,
}
use luoluo_auth.Common.JsMap
use luoluo_auth.Common.JsMap.{JsMap}
use luoluo_auth.OAuth2.Types.{
  GrantType, same_grant, OAuth2Client, AuthorizationCode, OAuth2Token, RefreshTokenEntry,
  ConsumeRefreshTokenResult, success, reuse_detected, unknown,
}

pub record ClientStore : Type 0 where
  pub clients : JsMap OAuth2Client
  pub authorization_codes : JsMap AuthorizationCode
  pub tokens : JsMap OAuth2Token
  pub refresh_tokens : JsMap RefreshTokenEntry
  -- family ↦ its refresh tokens, a set
  pub token_families : JsMap (List String)

abbrev pub new_store : ClientStore
new_store = record {
  clients = [];
  authorization_codes = [];
  tokens = [];
  refresh_tokens = [];
  token_families = [];
}

unfoldable pub register_client : ClientStore → OAuth2Client → ClientStore
register_client s client = record s { clients = JsMap.set s.clients client.client_id client }

unfoldable pub get_client : ClientStore → String → Option OAuth2Client
get_client s client_id = JsMap.get s.clients client_id

-- The comparison of the two UTF-8 buffers, byte by byte, is equality of the texts.
unfoldable pub verify_client_secret : ClientStore → String → String → Bool
verify_client_secret s client_id client_secret = elim (JsMap.get s.clients client_id) [
  | none ↦ false
  | some client ↦
      if client.client_secret == "" then false else client.client_secret == client_secret
]

unfoldable pub verify_redirect_uri : ClientStore → String → String → Bool
verify_redirect_uri s client_id redirect_uri = elim (JsMap.get s.clients client_id) [
  | none ↦ false
  | some client ↦ includes client.redirect_uris redirect_uri
]

unfoldable pub supports_grant : ClientStore → String → GrantType → Bool
supports_grant s client_id grant_type = elim (JsMap.get s.clients client_id) [
  | none ↦ false
  | some client ↦ some_of (same_grant grant_type) client.grants
]

unfoldable pub save_authorization_code : ClientStore → AuthorizationCode → ClientStore
save_authorization_code s code = record s {
  authorization_codes = JsMap.set s.authorization_codes code.code code;
}

unfoldable pub consume_authorization_code :
    ClientStore → ℕ → String → ClientStore × Option AuthorizationCode
consume_authorization_code s now code = elim (JsMap.get s.authorization_codes code) [
  | none ↦ (s, none)
  | some auth_code ↦
      let s' = record s { authorization_codes = JsMap.delete s.authorization_codes code } in
      if ltb auth_code.expires_at now then (s', none) else (s', some auth_code)
]

-- `token.expiresAt && Date.now() > token.expiresAt`
abbrev pub is_expired : ℕ → Option ℕ → Bool
is_expired now none = false
is_expired now (some expires_at) = if nat_eq expires_at 0 then false else ltb expires_at now

-- A set without one element, and the family index without an empty set.
abbrev pub without : String → List String → List String
without r family = keep (λ x. not (x == r)) family

abbrev pub put_family : JsMap (List String) → String → List String → JsMap (List String)
put_family families family [] = JsMap.delete families family
put_family families family (r ∷ rs) = JsMap.set families family (r ∷ rs)

unfoldable pub remove_from_family : JsMap (List String) → String → String → JsMap (List String)
remove_from_family families family refresh_token = elim (JsMap.get families family) [
  | none ↦ families
  | some family_tokens ↦ put_family families family (without refresh_token family_tokens)
]

-- `Set.add`, after the family's set was made if it was missing.
unfoldable pub add_to_family : JsMap (List String) → String → String → JsMap (List String)
add_to_family families family refresh_token =
    let members = get_or (JsMap.get families family) [] in
    JsMap.set families family
      (if includes members refresh_token then members else members ++ refresh_token ∷ [])

-- What `removeToken` and `revokeRefreshToken` do once a refresh token's entry was looked up.
unfoldable pub drop_refresh_token : ClientStore → String → Option RefreshTokenEntry → ClientStore
drop_refresh_token s refresh_token none = record s {
  refresh_tokens = JsMap.delete s.refresh_tokens refresh_token;
}
drop_refresh_token s refresh_token (some entry) = record s {
  refresh_tokens = JsMap.delete s.refresh_tokens refresh_token;
  token_families = remove_from_family s.token_families entry.family refresh_token;
}

-- `token?.refreshToken`
abbrev pub refresh_of : Option OAuth2Token → Option String
refresh_of none = none
refresh_of (some token) = token.refresh_token

unfoldable pub remove_token : ClientStore → String → ClientStore
remove_token s access_token =
    let refresh_token = refresh_of (JsMap.get s.tokens access_token) in
    let s' = record s { tokens = JsMap.delete s.tokens access_token } in
    let r = get_or refresh_token "" in
    if truthy refresh_token then drop_refresh_token s' r (JsMap.get s.refresh_tokens r) else s'

-- The loop of `evictExpiredTokens`, over the entries as they stand at its start.
unfoldable pub evict_from : JsMap OAuth2Token → ℕ → ClientStore → ClientStore
evict_from [] now s = s
evict_from ((access_token, token) ∷ entries) now s =
    evict_from entries now
      (if is_expired now token.expires_at then remove_token s access_token else s)

unfoldable pub evict_expired_tokens : ClientStore → ℕ → ClientStore
evict_expired_tokens s now = evict_from s.tokens now s

-- The part of `saveToken` before the clean-up. `token` has its `expires_at` already.
unfoldable pub store_token : ClientStore → OAuth2Token → String → ClientStore
store_token s token token_family =
    let s' = record s { tokens = JsMap.set s.tokens token.access_token token } in
    let r = get_or token.refresh_token "" in
    let entry : RefreshTokenEntry = record {
      access_token = token.access_token;
      family = token_family;
      used = false;
    } in
    if truthy token.refresh_token
    then record s' {
      refresh_tokens = JsMap.set s'.refresh_tokens r entry;
      token_families = add_to_family s'.token_families token_family r;
    }
    else s'

-- The caller's token object gets its `expiresAt`: the second result. `uuid` is the family of a
-- token that is given none.
unfoldable pub save_token :
    ClientStore → ℕ → (uuid : String) → OAuth2Token → Option String → ClientStore × OAuth2Token
save_token s now uuid token family =
    let token' = record token { expires_at = some (now + token.expires_in * 1000) } in
    (evict_expired_tokens (store_token s token' (or_text family uuid)) now, token')

unfoldable pub get_token : ClientStore → ℕ → String → ClientStore × Option OAuth2Token
get_token s now access_token = elim (JsMap.get s.tokens access_token) [
  | none ↦ (s, none)
  | some token ↦
      if is_expired now token.expires_at
      then (record s { tokens = JsMap.delete s.tokens access_token }, none)
      else (s, some token)
]

-- The rest of `consumeRefreshToken`, with the entry and its token at hand.
unfoldable pub consume_entry :
    ClientStore
    → ℕ
    → String
    → RefreshTokenEntry
    → OAuth2Token
    → ClientStore × ConsumeRefreshTokenResult
consume_entry s now refresh_token entry token =
    if is_expired now token.expires_at
    then (
      record s {
        tokens = JsMap.delete s.tokens entry.access_token;
        refresh_tokens = JsMap.delete s.refresh_tokens refresh_token;
        token_families = remove_from_family s.token_families entry.family refresh_token;
      },
      unknown,
    )
    else if entry.used
    then (s, reuse_detected entry.family)
    else (
      record s {
        refresh_tokens = JsMap.set s.refresh_tokens refresh_token (record entry { used = true });
      },
      success token entry.family,
    )

unfoldable pub consume_refresh_token :
    ClientStore → ℕ → String → ClientStore × ConsumeRefreshTokenResult
consume_refresh_token s now refresh_token = elim (JsMap.get s.refresh_tokens refresh_token) [
  | none ↦ (s, unknown)
  | some entry ↦ elim (JsMap.get s.tokens entry.access_token) [
    | none ↦ (s, unknown)
    | some token ↦ consume_entry s now refresh_token entry token
  ]
]

-- One round of the loop of `revokeTokenFamily`.
unfoldable pub revoke_member : ClientStore → String → ClientStore
revoke_member s refresh_token = elim (JsMap.get s.refresh_tokens refresh_token) [
  | none ↦ s
  | some entry ↦ record s {
    tokens = JsMap.delete s.tokens entry.access_token;
    refresh_tokens = JsMap.delete s.refresh_tokens refresh_token;
  }
]

unfoldable pub revoke_members : List String → ClientStore → ClientStore
revoke_members [] s = s
revoke_members (r ∷ rs) s = revoke_members rs (revoke_member s r)

unfoldable pub revoke_token_family : ClientStore → String → ClientStore
revoke_token_family s family = elim (JsMap.get s.token_families family) [
  | none ↦ s
  | some tokens ↦
      let s' = revoke_members tokens s in
      record s' { token_families = JsMap.delete s'.token_families family }
]

unfoldable pub revoke_refresh_token : ClientStore → String → ClientStore
revoke_refresh_token s refresh_token = elim (JsMap.get s.refresh_tokens refresh_token) [
  | none ↦ s
  | some entry ↦
      drop_refresh_token (record s { tokens = JsMap.delete s.tokens entry.access_token })
        refresh_token (some entry)
]

unfoldable pub remove_client : ClientStore → String → ClientStore
remove_client s client_id = record s { clients = JsMap.delete s.clients client_id }
