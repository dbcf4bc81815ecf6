-- ===== src/OAuth2/ClientStore/Rotation.antt =====
-- src/extras/oauth2/client-store.ts, refresh tokens: a token is accepted once, a second use is
-- noticed, and revocation is complete.
use luoluo_auth.Common.{
  ℕ, String, ◌≡◌, refl, ap, ◌∙◌, inl, inr, true, false, none, some, List, [], ◌∷◌, if◌then◌else◌,
  includes, ◌==◌, arith, eq_iff, Bool-cases, Option-cases,
}
use luoluo_auth.Common.JsMap
use luoluo_auth.Common.JsMap.{JsMap}
use luoluo_auth.OAuth2.Types.{OAuth2Token, RefreshTokenEntry, success, reuse_detected, unknown}
use luoluo_auth.OAuth2.ClientStore.{
  ClientStore, is_expired, get_token, consume_entry, consume_refresh_token, revoke_member,
  revoke_members, revoke_token_family,
}
use luoluo_auth.OAuth2.ClientStore.Families.{IsIndexed, members}

pub consume_present :
    (s : ClientStore) (now : ℕ) (r : String) {entry : RefreshTokenEntry} {token : OAuth2Token}
    → JsMap.get s.refresh_tokens r ≡ some entry
    → JsMap.get s.tokens entry.access_token ≡ some token
    → consume_refresh_token s now r ≡ consume_entry s now r entry token
unfolding consume_refresh_token
consume_present s now r e f = rw (e, consume_refresh_token) (rw (f, consume_refresh_token))

-- A refresh token that is accepted was there, with its access token, neither expired nor used
-- before.
pub consume-success :
    (s : ClientStore) (now : ℕ) (r : String) {token : OAuth2Token} {family : String}
    → (consume_refresh_token s now r).1 ≡ success token family
    → (entry : RefreshTokenEntry) × (JsMap.get s.refresh_tokens r ≡ some entry)
      × (JsMap.get s.tokens entry.access_token ≡ some token)
      × (entry.family ≡ family)
      × (entry.used ≡ false)
      × (is_expired now token.expires_at ≡ false)
unfolding consume_refresh_token consume_entry
consume-success s now r h = elim (Option-cases (JsMap.get s.refresh_tokens r)) [
  | inl e ↦ absurd (cc (rw (e, consume_refresh_token) at h))
  | inr (entry, e) ↦ elim (Option-cases (JsMap.get s.tokens entry.access_token)) [
    | inl f ↦ absurd (ground arith)
    | inr (token, f) ↦ (entry, e, ground arith, ground arith, ground arith, ground arith)
  ]
]

pub consume_entry_fresh :
    (s : ClientStore) (now : ℕ) (r : String) (entry : RefreshTokenEntry) (token : OAuth2Token)
    → is_expired now token.expires_at ≡ false
    → entry.used ≡ false
    → consume_entry s now r entry token ≡ (
      record s { refresh_tokens = JsMap.set s.refresh_tokens r (record entry { used = true }) },
      success token entry.family,
    )
unfolding consume_entry
consume_entry_fresh s now r entry token e f = rw e (rw f)

pub consume_entry_used :
    (s : ClientStore) (now : ℕ) (r : String) (entry : RefreshTokenEntry) (token : OAuth2Token)
    → entry.used ≡ true
    → (consume_entry s now r entry token).1
      ≡ (if is_expired now token.expires_at then unknown else reuse_detected entry.family)
unfolding consume_entry
consume_entry_used s now r entry token e = ground arith

-- A refresh token that is presented again directly after it was accepted: until its access token
-- expires, the second use is reported with the family, and after that the token is unknown.
pub consume-consume :
    (s : ClientStore) (now later : ℕ) (r : String) {token : OAuth2Token} {family : String}
    → (consume_refresh_token s now r).1 ≡ success token family
    → (consume_refresh_token (consume_refresh_token s now r).0 later r).1
      ≡ (if is_expired later token.expires_at then unknown else reuse_detected family)
consume-consume s now later r {token} {family} h =
    let (entry, found, live, same, fresh, current) = consume-success s now r h in
    let used = record entry { used = true } in
    let s' = record s { refresh_tokens = JsMap.set s.refresh_tokens r used } in
    let marked : JsMap.get s'.refresh_tokens r ≡ some used =
      JsMap.get-set s.refresh_tokens r used r ∙ ground (arith, eq_iff r r) in
    rw (consume_present s now r found live, consume_entry_fresh s now r entry token current fresh)
      (rw (consume_present s' later r {entry = used} marked live) (
        consume_entry_used s' later r used token refl
        ∙ ap (λ f. if is_expired later token.expires_at then unknown else reuse_detected f) same))

revoke_member-refresh_tokens :
    (s : ClientStore) (r k : String)
    → JsMap.get (revoke_member s r).refresh_tokens k
      ≡ (if r == k then none else JsMap.get s.refresh_tokens k)
unfolding revoke_member
revoke_member-refresh_tokens s r k = elim (Option-cases (JsMap.get s.refresh_tokens r)) [
  | inl e ↦ rw (e, revoke_member) (ground (arith, eq_iff r k))
  | inr (entry, e) ↦ rw (e, revoke_member) (JsMap.get-delete s.refresh_tokens r k)
]

pub revoke_members-refresh_tokens :
    (rs : List String) (s : ClientStore) (k : String)
    → JsMap.get (revoke_members rs s).refresh_tokens k
      ≡ (if includes rs k then none else JsMap.get s.refresh_tokens k)
unfolding revoke_members
revoke_members-refresh_tokens [] s k = refl
revoke_members-refresh_tokens (r ∷ rs) s k =
    revoke_members-refresh_tokens rs (revoke_member s r) k
    ∙ ground (arith, revoke_member-refresh_tokens s r k)

revoke_member-tokens_none :
    (s : ClientStore) (r a : String)
    → JsMap.get s.tokens a ≡ none
    → JsMap.get (revoke_member s r).tokens a ≡ none
unfolding revoke_member
revoke_member-tokens_none s r a h = elim (Option-cases (JsMap.get s.refresh_tokens r)) [
  | inl e ↦ rw (e, revoke_member) h
  | inr (entry, e) ↦
      rw (e, revoke_member) (ground (arith, JsMap.get-delete s.tokens entry.access_token a))
]

revoke_members-tokens_none :
    (rs : List String) (s : ClientStore) (a : String)
    → JsMap.get s.tokens a ≡ none
    → JsMap.get (revoke_members rs s).tokens a ≡ none
unfolding revoke_members
revoke_members-tokens_none [] s a h = h
revoke_members-tokens_none (r ∷ rs) s a h =
    revoke_members-tokens_none rs (revoke_member s r) a (revoke_member-tokens_none s r a h)

revoke_member-tokens_self :
    (s : ClientStore) (r : String) (entry : RefreshTokenEntry)
    → JsMap.get s.refresh_tokens r ≡ some entry
    → JsMap.get (revoke_member s r).tokens entry.access_token ≡ none
unfolding revoke_member
revoke_member-tokens_self s r entry e =
    rw (e, revoke_member)
      (rw JsMap.get-delete (ground (arith, eq_iff entry.access_token entry.access_token)))

revoke_members-tokens :
    (rs : List String) (s : ClientStore) (r : String) (entry : RefreshTokenEntry)
    → includes rs r ≡ true
    → JsMap.get s.refresh_tokens r ≡ some entry
    → JsMap.get (revoke_members rs s).tokens entry.access_token ≡ none
unfolding revoke_members
revoke_members-tokens [] s r entry i e = cc
revoke_members-tokens (x ∷ rs) s r entry i e = elim (Bool-cases (x == r)) [
  | inl same ↦
      revoke_members-tokens_none rs (revoke_member s x) entry.access_token
        (revoke_member-tokens_self s x entry (rw ((eq_iff x r).0 same) e))
  | inr other ↦
      revoke_members-tokens rs (revoke_member s x) r entry (rw other at i)
        (rw (revoke_member-refresh_tokens s x r, other) e)
]

-- In an indexed store, once the family of a stored refresh token is revoked, the token is
-- unknown, its access token is gone, and the index no longer has the family.
pub revoke_token_family_complete :
    (s : ClientStore) (r : String) (entry : RefreshTokenEntry) (later : ℕ)
    → IsIndexed s
    → JsMap.get s.refresh_tokens r ≡ some entry
    → ((consume_refresh_token (revoke_token_family s entry.family) later r).1 ≡ unknown)
      × ((get_token (revoke_token_family s entry.family) later entry.access_token).1 ≡ none)
      × (members (revoke_token_family s entry.family) entry.family ≡ [])
unfolding revoke_token_family
revoke_token_family_complete s r entry later h found =
    let listed = h.indexed r entry found in
    elim (Option-cases (JsMap.get s.token_families entry.family)) [
      | inl e ↦ absurd (cc (rw e at listed))
      | inr (rs, e) ↦
          let inside : includes rs r ≡ true = rw e at listed in
          rw (e, revoke_token_family)
            (
              unfold consume_refresh_token in
                  rw (revoke_members-refresh_tokens rs s r, consume_refresh_token)
                    (rw (inside, consume_refresh_token)),
              unfold get_token in rw (revoke_members-tokens rs s r entry inside found, get_token),
              rw JsMap.get-delete (ground (arith, eq_iff entry.family entry.family)),
            )
    ]
