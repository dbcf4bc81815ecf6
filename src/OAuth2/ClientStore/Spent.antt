-- ===== src/OAuth2/ClientStore/Spent.antt =====
-- src/extras/oauth2/client-store.ts: a refresh token that was used stays so in every operation.
pub mod Histories
use luoluo_auth.Common.{
  ℕ, String, ◌≡◌, ◌⊎◌, inl, inr, refl, Bool, true, false, ◌&&◌, ◌||◌, Option, none, some, List, [],
  ◌∷◌, truthy, get_or, if◌then◌else◌, ◌==◌, arith, eq_iff, eq_refl, Bool-cases, Option-cases,
}
use luoluo_auth.Common.JsMap
use luoluo_auth.Common.JsMap.{JsMap}
use luoluo_auth.OAuth2.Types.{OAuth2Token, RefreshTokenEntry, success, reuse_detected, unknown}
use luoluo_auth.OAuth2.ClientStore.{
  ClientStore, save_authorization_code, consume_authorization_code, save_token, store_token,
  evict_from, remove_token, drop_refresh_token, evict_expired_tokens, is_expired, refresh_of,
  consume_entry, consume_refresh_token, get_token, revoke_members, revoke_token_family,
  revoke_refresh_token, register_client, remove_client,
}
use luoluo_auth.OAuth2.ClientStore.Rotation.{
  revoke_members-refresh_tokens, consume-success, consume-consume, consume_present,
  consume_entry_fresh,
}
use luoluo_auth.OAuth2.ClientStore.Reach
use luoluo_auth.OAuth2.ClientStore.Reach.{Event, step, run}

-- A refresh token is unknown, or marked as used and of this family.
pub record IsSpent (r family : String) (s : ClientStore) : Type 0 where
  pub spent :
      (entry : RefreshTokenEntry)
      → JsMap.get s.refresh_tokens r ≡ some entry
      → (entry.used ≡ true) × (entry.family ≡ family)

-- Whether a token is saved with this refresh token.
abbrev pub saves : String → OAuth2Token → Bool
saves r token = truthy token.refresh_token && (get_or token.refresh_token "" == r)

module _ (r family : String) where
  pub IsSpent-same :
      (s s' : ClientStore)
      → s'.refresh_tokens ≡ s.refresh_tokens
      → IsSpent r family s
      → IsSpent r family s'
  IsSpent-same s s' e h = record { spent = λ entry found. h.spent entry (rw e at found) }

  pub drop_refresh_token-IsSpent :
      (s : ClientStore) (k : String) (o : Option RefreshTokenEntry)
      → IsSpent r family s
      → IsSpent r family (drop_refresh_token s k o)
  unfolding drop_refresh_token
  drop_refresh_token-IsSpent s k none h = record {
    spent =
        λ entry found. h.spent entry (ground (arith, found, JsMap.get-delete s.refresh_tokens k r));
  }
  drop_refresh_token-IsSpent s k (some old) h = record {
    spent =
        λ entry found. h.spent entry (ground (arith, found, JsMap.get-delete s.refresh_tokens k r));
  }

  pub remove_token-IsSpent :
      (s : ClientStore) (a : String) → IsSpent r family s → IsSpent r family (remove_token s a)
  unfolding remove_token
  remove_token-IsSpent s a h = elim (Bool-cases (truthy (refresh_of (JsMap.get s.tokens a)))) [
    | inl e ↦ rw e (drop_refresh_token-IsSpent _ _ _ (IsSpent-same s _ refl h))
    | inr e ↦ rw e (IsSpent-same s _ refl h)
  ]

  pub evict_from-IsSpent :
      (entries : JsMap OAuth2Token) (now : ℕ) (s : ClientStore)
      → IsSpent r family s
      → IsSpent r family (evict_from entries now s)
  unfolding evict_from
  evict_from-IsSpent [] now s h = h
  evict_from-IsSpent ((a, token) ∷ entries) now s h =
      evict_from-IsSpent entries now
        (if is_expired now token.expires_at then remove_token s a else s)
        (elim (Bool-cases (is_expired now token.expires_at)) [
          | inl e ↦ rw e (remove_token-IsSpent s a h)
          | inr e ↦ rw e h
        ])

  pub store_token-IsSpent :
      (s : ClientStore) (token : OAuth2Token) (f : String)
      → saves r token ≡ false
      → IsSpent r family s
      → IsSpent r family (store_token s token f)
  unfolding store_token
  store_token-IsSpent s token f n h = elim (Bool-cases (truthy token.refresh_token)) [
    | inr e ↦ rw e (IsSpent-same s _ refl h)
    | inl e ↦ rw e (record {
      spent = λ entry found. h.spent entry (
          ground (
            arith,
            rw e at n,
            found,
            JsMap.get-set s.refresh_tokens (get_or token.refresh_token "")
                (record { access_token = token.access_token; family = f; used = false }) r,
          ));
    })
  ]

  consume_entry-IsSpent :
      (s : ClientStore) (now : ℕ) (k : String) (old : RefreshTokenEntry) (token : OAuth2Token)
      → JsMap.get s.refresh_tokens k ≡ some old
      → IsSpent r family s
      → IsSpent r family (consume_entry s now k old token).0
  unfolding consume_entry
  consume_entry-IsSpent s now k old token there h = record {
    spent = λ entry found.
        let seen = JsMap.get-set s.refresh_tokens k (record old { used = true }) r in
        let gone = JsMap.get-delete s.refresh_tokens k r in
        elim (Bool-cases (k == r)) [
          | inl same ↦
              let mine = h.spent old (rw⁻¹ ((eq_iff k r).0 same) there) in
              ground (arith, found, seen, gone, same, mine, h.spent entry)
          | inr other ↦ ground (arith, found, seen, gone, other, h.spent entry)
        ];
  }

  pub consume_refresh_token-IsSpent :
      (s : ClientStore) (now : ℕ) (k : String)
      → IsSpent r family s
      → IsSpent r family (consume_refresh_token s now k).0
  unfolding consume_refresh_token
  consume_refresh_token-IsSpent s now k h = elim (Option-cases (JsMap.get s.refresh_tokens k)) [
    | inl e ↦ rw (e, consume_refresh_token) h
    | inr (entry, e) ↦ elim (Option-cases (JsMap.get s.tokens entry.access_token)) [
      | inl f ↦ rw (e, consume_refresh_token) (rw (f, consume_refresh_token) h)
      | inr (token, f) ↦
          rw (e, consume_refresh_token)
            (rw (f, consume_refresh_token) (consume_entry-IsSpent s now k entry token e h))
    ]
  ]

  pub revoke_members-IsSpent :
      (rs : List String) (s : ClientStore)
      → IsSpent r family s
      → IsSpent r family (revoke_members rs s)
  revoke_members-IsSpent rs s h = record {
    spent =
        λ entry found. h.spent entry (ground (arith, found, revoke_members-refresh_tokens rs s r));
  }
