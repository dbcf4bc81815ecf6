-- ===== src/Tests/OAuth.antt =====
-- The OAuth2 client store on concrete histories.
use luoluo_auth.Common.{
  ◌+◌, ◌*◌, ◌≡◌, ◌⊎◌, refl, String, true, false, none, some, List, [], ◌∷◌, if◌then◌else◌, includes,
}
use luoluo_auth.Common.JsMap
use luoluo_auth.OAuth2.Types.{
  AuthorizationCode, OAuth2Token, RefreshTokenEntry, success, reuse_detected, unknown,
}
use luoluo_auth.OAuth2.ClientStore
use luoluo_auth.OAuth2.ClientStore.{
  ClientStore, new_store, is_expired, save_authorization_code, consume_authorization_code,
  consume_refresh_token, revoke_token_family, get_token,
}
use luoluo_auth.OAuth2.ClientStore.Families.{members}
use luoluo_auth.OAuth2.ClientStore.Rotation.{revoke_token_family_complete}
use luoluo_auth.OAuth2.ClientStore.Spent.Histories.{consume-run}
use luoluo_auth.OAuth2.ClientStore.Reach
use luoluo_auth.OAuth2.ClientStore.Reach.{Event, run, step, run_indexed, run-IsIndexed}

abbrev code : AuthorizationCode
code = record {
  code = "c1";
  client_id = "app";
  user_id = "ann";
  redirect_uri = "https://app/cb";
  expires_at = 600;
  state = none;
  scope = none;
  nonce = none;
  code_challenge = none;
  code_challenge_method = none;
}

abbrev pub token_named : String → String → OAuth2Token
token_named access refresh = record {
  access_token = access;
  refresh_token = some refresh;
  token_type = "Bearer";
  expires_in = 3600;
  scope = none;
  user_id = some "ann";
  id_token = none;
  expires_at = none;
}

-- A token of the family "f", its rotation, and a token of another family.
abbrev pub history : List Event
history =
    Reach.save_token 0 "u1" (token_named "a1" "r1") (some "f")
    ∷ Reach.consume_refresh_token 10 "r1"
    ∷ Reach.save_token 10 "u2" (token_named "a2" "r2") (some "f")
    ∷ Reach.save_token 20 "u3" (token_named "a3" "r3") none
    ∷ []

abbrev pub rotated : ClientStore
rotated = run new_store history

abbrev pub second_entry : RefreshTokenEntry
second_entry = record { access_token = "a2"; family = "f"; used = false }

pub second_found : JsMap.get rotated.refresh_tokens "r2" ≡ some second_entry
unfolding run step ClientStore.save_token ClientStore.store_token ClientStore.evict_expired_tokens
    ClientStore.evict_from ClientStore.add_to_family ClientStore.consume_refresh_token
    ClientStore.consume_entry JsMap.get JsMap.set JsMap.delete
second_found = refl

abbrev second_token : OAuth2Token
second_token = record (token_named "a2" "r2") { expires_at = some (10 + 3600 * 1000) }

second_accepted : (consume_refresh_token rotated 30 "r2").1 ≡ success second_token "f"
unfolding run step ClientStore.save_token ClientStore.store_token ClientStore.evict_expired_tokens
    ClientStore.evict_from ClientStore.add_to_family ClientStore.consume_refresh_token
    ClientStore.consume_entry JsMap.get JsMap.set JsMap.delete
second_accepted = refl

-- The rotation of the token, and the removal of the old access token.
abbrev between : List Event
between =
    Reach.save_token 30 "u4" (token_named "a4" "r4") (some "f")
    ∷ Reach.consume_refresh_token 35 "r4"
    ∷ Reach.remove_token "a2"
    ∷ []

consume-run_example :
    (let s = (consume_refresh_token rotated 30 "r2").0 in
      ((consume_refresh_token s 35 "r2").1
        ≡ (if is_expired 35 second_token.expires_at then unknown else reuse_detected "f"))
      × (((consume_refresh_token (run s between) 40 "r2").1 ≡ reuse_detected "f")
          ⊎ ((consume_refresh_token (run s between) 40 "r2").1 ≡ unknown)))
consume-run_example =
    consume-run rotated 30 35 40 "r2" second_token "f" between second_accepted refl

-- Once its access token expired, a used token is unknown, and its family stays.
late_reuse :
    (consume_refresh_token (consume_refresh_token rotated 30 "r2").0 3600011 "r2").1 ≡ unknown
unfolding run step ClientStore.save_token ClientStore.store_token ClientStore.evict_expired_tokens
    ClientStore.evict_from ClientStore.add_to_family ClientStore.consume_refresh_token
    ClientStore.consume_entry JsMap.get JsMap.set JsMap.delete
late_reuse = refl

revoke_token_family_complete_example :
    ((consume_refresh_token (revoke_token_family rotated second_entry.family) 50 "r2").1 ≡ unknown)
    × ((get_token (revoke_token_family rotated second_entry.family) 50 second_entry.access_token).1
        ≡ none)
    × (members (revoke_token_family rotated second_entry.family) second_entry.family ≡ [])
revoke_token_family_complete_example =
    revoke_token_family_complete rotated "r2" second_entry 50 (run-IsIndexed history) second_found

run_indexed_example : includes (members rotated second_entry.family) "r2" ≡ true
run_indexed_example = run_indexed history "r2" second_entry second_found
