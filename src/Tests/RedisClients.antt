-- ===== src/Tests/RedisClients.antt =====
-- The client store over redis, on a concrete one.
use luoluo_auth.Common.{◌≡◌, ◌⊎◌, inr, refl, true, false, none, some, [], ◌∷◌, if◌then◌else◌, ◌==◌}
use luoluo_auth.OAuth2.Types.{
  AuthorizationCode, OAuth2Client, OAuth2Token, RefreshTokenEntry, success, reuse_detected, unknown,
}
use luoluo_auth.OAuth2.RedisClientStore.{
  RedisClients, default_token_ttl, default_code_ttl, save_authorization_code, save_token,
  save_refresh_token, consume_authorization_code, consume_refresh_token, mark_used, get_token,
  get_entry,
}
use luoluo_auth.OAuth2.RedisClientStore.Once.{
  consume_authorization_code_once, consume_refresh_token_once,
}
use luoluo_auth.Tests.RedisCommands.{Redis, api, laws, empty}

abbrev client : OAuth2Client
client = record {
  client_id = "app";
  client_secret = "s";
  redirect_uris = "https://app/cb" ∷ [];
  grants = [];
  name = none;
  scopes = none;
  is_public = true;
}

abbrev code : AuthorizationCode
code = record {
  code = "c1";
  client_id = "app";
  user_id = "ann";
  redirect_uri = "https://app/cb";
  expires_at = 600000;
  state = none;
  scope = none;
  nonce = none;
  code_challenge = none;
  code_challenge_method = none;
}

abbrev token : OAuth2Token
token = record {
  access_token = "t1";
  refresh_token = some "r1";
  token_type = "Bearer";
  expires_in = 3600;
  scope = none;
  user_id = some "ann";
  id_token = none;
  expires_at = none;
}

abbrev entry : RefreshTokenEntry
entry = record { access_token = "t1"; family = "f1"; used = false }

-- There is one client, one code, one token, and one entry, which is used or not.
abbrev store : RedisClients Redis
store = record {
  redis = api;
  ttl = λ r now k. default_token_ttl;
  client_codec = record { serialize = λ x. "client"; parse = λ text. client };
  code_codec = record { serialize = λ x. "code"; parse = λ text. code };
  token_codec = record { serialize = λ x. "token"; parse = λ text. token };
  entry_codec = record {
    serialize = λ x. if x.used then "used" else "fresh";
    parse = λ text. record entry { used = text == "used" };
  };
  token_ttl_seconds = default_token_ttl;
  code_ttl_seconds = default_code_ttl;
}

abbrev with_code : Redis
with_code = save_authorization_code store empty 0 code

code_there : (consume_authorization_code store with_code 5 "c1").1 ≡ some code
unfolding consume_authorization_code save_authorization_code
code_there = refl

consume_authorization_code_once_example :
    (consume_authorization_code store
      (consume_authorization_code store with_code 5 "c1").0
      6
      "c1").1
    ≡ none
consume_authorization_code_once_example =
    consume_authorization_code_once store laws with_code 5 6 "c1" code code_there

abbrev with_token : Redis
with_token = save_token store empty 0 "f1" token none

entry_there : get_entry store with_token 5 "r1" ≡ some entry
unfolding get_entry save_token save_refresh_token
entry_there = refl

token_there : (consume_refresh_token store with_token 5 "r1").1 ≡ success token "f1"
unfolding consume_refresh_token mark_used get_token save_token save_refresh_token
token_there = refl

-- The new token is saved, and the old one is kept in redis.
abbrev rotated : Redis
rotated =
    save_token store (consume_refresh_token store with_token 5 "r1").0 6 "f1"
      (record token { access_token = "t2"; refresh_token = some "r2" }) (some "f1")

rotated_kept :
    api.get rotated 7 "oauth2:refresh-tokens:r1"
    ≡ api.get (consume_refresh_token store with_token 5 "r1").0 7 "oauth2:refresh-tokens:r1"
unfolding consume_refresh_token mark_used get_token save_token save_refresh_token
rotated_kept = refl

consume_refresh_token_once_example :
    ((consume_refresh_token store rotated 7 "r1").1 ≡ reuse_detected "f1")
    ⊎ ((consume_refresh_token store rotated 7 "r1").1 ≡ unknown)
consume_refresh_token_once_example =
    consume_refresh_token_once store laws with_token rotated 5 7 "r1" "f1" token entry entry_there
      refl token_there (inr rotated_kept)
