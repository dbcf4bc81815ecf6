-- ===== src/OAuth2/ClientStore/Reach.antt =====
-- Every history of calls of the client store, and the index of its token families over all of them.
use luoluo_auth.Common.{
  ℕ, String, ◌≡◌, refl, ◌∙◌, inl, inr, true, Option, some, List, [], ◌∷◌, includes, arith, eq_iff,
  Option-cases,
}
use luoluo_auth.Common.JsMap
use luoluo_auth.Common.JsMap.{JsMap}
use luoluo_auth.OAuth2.Types.{OAuth2Client, OAuth2Token, AuthorizationCode, RefreshTokenEntry}
use luoluo_auth.OAuth2.ClientStore.{
  ClientStore, new_store, is_expired, drop_refresh_token, revoke_member, revoke_members,
  remove_from_family,
}
use luoluo_auth.OAuth2.ClientStore
use luoluo_auth.OAuth2.ClientStore.Families.{
  IsIndexed, IsIndexed-same, members, drop_refresh_token-IsIndexed, remove_token-IsIndexed,
  save_token-IsIndexed, consume_refresh_token-IsIndexed,
}
use luoluo_auth.OAuth2.ClientStore.Rotation.{revoke_members-refresh_tokens}

-- A call that changes the store.
pub data Event : Type 0 where
  register_client : OAuth2Client → Event
  save_authorization_code : AuthorizationCode → Event
  consume_authorization_code : ℕ → String → Event
  save_token : ℕ → (uuid : String) → OAuth2Token → Option String → Event
  get_token : ℕ → String → Event
  consume_refresh_token : ℕ → String → Event
  revoke_token_family : String → Event
  revoke_refresh_token : String → Event
  remove_token : String → Event
  remove_client : String → Event

unfoldable pub step : ClientStore → Event → ClientStore
step s (register_client client) = ClientStore.register_client s client
step s (save_authorization_code code) = ClientStore.save_authorization_code s code
step s (consume_authorization_code now code) = (ClientStore.consume_authorization_code s now code).0
step s (save_token now uuid token family) = (ClientStore.save_token s now uuid token family).0
step s (get_token now access_token) = (ClientStore.get_token s now access_token).0
step s (consume_refresh_token now r) = (ClientStore.consume_refresh_token s now r).0
step s (revoke_token_family family) = ClientStore.revoke_token_family s family
step s (revoke_refresh_token r) = ClientStore.revoke_refresh_token s r
step s (remove_token access_token) = ClientStore.remove_token s access_token
step s (remove_client client_id) = ClientStore.remove_client s client_id

unfoldable pub run : ClientStore → List Event → ClientStore
run s [] = s
run s (e ∷ es) = run (step s e) es

revoke_member-token_families :
    (s : ClientStore) (r : String) → (revoke_member s r).token_families ≡ s.token_families
unfolding revoke_member
revoke_member-token_families s r = ground arith

revoke_members-token_families :
    (rs : List String) (s : ClientStore) → (revoke_members rs s).token_families ≡ s.token_families
unfolding revoke_members
revoke_members-token_families [] s = refl
revoke_members-token_families (r ∷ rs) s =
    revoke_members-token_families rs (revoke_member s r) ∙ revoke_member-token_families s r

revoked-IsIndexed :
    (s : ClientStore) (family : String) (rs : List String)
    → JsMap.get s.token_families family ≡ some rs
    → IsIndexed s
    → IsIndexed (record (revoke_members rs s) {
      token_families = JsMap.delete (revoke_members rs s).token_families family;
    })
revoked-IsIndexed s family rs e h = record {
  indexed = λ r entry p. rw (revoke_members-token_families rs s) (
      ground (
        arith,
        e,
        p,
        h.indexed r entry,
        revoke_members-refresh_tokens rs s r,
        eq_iff family entry.family,
        JsMap.get-delete s.token_families family entry.family,
      ));
}

revoke_token_family-IsIndexed :
    (s : ClientStore) (family : String)
    → IsIndexed s
    → IsIndexed (ClientStore.revoke_token_family s family)
unfolding ClientStore.revoke_token_family
revoke_token_family-IsIndexed s family h = elim (Option-cases (JsMap.get s.token_families family)) [
  | inl e ↦ rw (e, ClientStore.revoke_token_family) h
  | inr (rs, e) ↦ rw (e, ClientStore.revoke_token_family) (revoked-IsIndexed s family rs e h)
]

get_token-IsIndexed :
    (s : ClientStore) (now : ℕ) (a : String)
    → IsIndexed s
    → IsIndexed (ClientStore.get_token s now a).0
unfolding ClientStore.get_token
get_token-IsIndexed s now a h = IsIndexed-same s _ (ground arith) (ground arith) h

consume_authorization_code-IsIndexed :
    (s : ClientStore) (now : ℕ) (c : String)
    → IsIndexed s
    → IsIndexed (ClientStore.consume_authorization_code s now c).0
unfolding ClientStore.consume_authorization_code
consume_authorization_code-IsIndexed s now c h = IsIndexed-same s _ (ground arith) (ground arith) h

revoke_refresh_token-IsIndexed :
    (s : ClientStore) (r : String) → IsIndexed s → IsIndexed (ClientStore.revoke_refresh_token s r)
unfolding ClientStore.revoke_refresh_token
revoke_refresh_token-IsIndexed s r h = elim (Option-cases (JsMap.get s.refresh_tokens r)) [
  | inl e ↦ rw (e, ClientStore.revoke_refresh_token) h
  | inr (entry, e) ↦
      rw (e, ClientStore.revoke_refresh_token)
        (drop_refresh_token-IsIndexed _ r (some entry) (IsIndexed-same s _ refl refl h))
]

step-IsIndexed : (s : ClientStore) (e : Event) → IsIndexed s → IsIndexed (step s e)
unfolding step ClientStore.register_client ClientStore.save_authorization_code
    ClientStore.remove_client
step-IsIndexed s (register_client client) h = IsIndexed-same s _ refl refl h
step-IsIndexed s (save_authorization_code code) h = IsIndexed-same s _ refl refl h
step-IsIndexed s (consume_authorization_code now code) h =
    consume_authorization_code-IsIndexed s now code h
step-IsIndexed s (save_token now uuid token family) h =
    save_token-IsIndexed s now uuid token family h
step-IsIndexed s (get_token now access_token) h = get_token-IsIndexed s now access_token h
step-IsIndexed s (consume_refresh_token now r) h = consume_refresh_token-IsIndexed s now r h
step-IsIndexed s (revoke_token_family family) h = revoke_token_family-IsIndexed s family h
step-IsIndexed s (revoke_refresh_token r) h = revoke_refresh_token-IsIndexed s r h
step-IsIndexed s (remove_token access_token) h = remove_token-IsIndexed s access_token h
step-IsIndexed s (remove_client client_id) h = IsIndexed-same s _ refl refl h

run-IsIndexed_from : (s : ClientStore) (es : List Event) → IsIndexed s → IsIndexed (run s es)
unfolding run
run-IsIndexed_from s [] h = h
run-IsIndexed_from s (e ∷ es) h = run-IsIndexed_from (step s e) es (step-IsIndexed s e h)

new_store-IsIndexed : IsIndexed new_store
unfolding JsMap.get
new_store-IsIndexed = record { indexed = λ r entry found. absurd (ground (arith, found)) }

pub run-IsIndexed : (es : List Event) → IsIndexed (run new_store es)
run-IsIndexed es = run-IsIndexed_from new_store es new_store-IsIndexed

-- Whatever calls are made on a new client store, every refresh token that it holds stands in the
-- index, under its own family.
pub run_indexed :
    (es : List Event) (r : String) (entry : RefreshTokenEntry)
    → JsMap.get (run new_store es).refresh_tokens r ≡ some entry
    → includes (members (run new_store es) entry.family) r ≡ true
run_indexed es r entry found = (run-IsIndexed es).indexed r entry found
