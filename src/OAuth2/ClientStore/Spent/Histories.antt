-- ===== src/OAuth2/ClientStore/Spent/Histories.antt =====
-- src/extras/oauth2/client-store.ts: a refresh token that was accepted, over every history of calls
-- of the client store.
use luoluo_auth.Common.{
  ℕ, String, ◌≡◌, ◌⊎◌, inl, inr, refl, Bool, true, false, ◌||◌, some, List, [], ◌∷◌, if◌then◌else◌,
  arith, eq_refl, Bool-cases, Option-cases,
}
use luoluo_auth.Common.JsMap
use luoluo_auth.Common.JsMap.{JsMap}
use luoluo_auth.OAuth2.Types.{OAuth2Token, success, reuse_detected, unknown}
use luoluo_auth.OAuth2.ClientStore.{
  ClientStore, save_authorization_code, consume_authorization_code, save_token,
  evict_expired_tokens, is_expired, consume_entry, consume_refresh_token, get_token,
  revoke_token_family, revoke_refresh_token, register_client, remove_client,
}
use luoluo_auth.OAuth2.ClientStore.Rotation.{
  consume-success, consume-consume, consume_present, consume_entry_fresh,
}
use luoluo_auth.OAuth2.ClientStore.Reach
use luoluo_auth.OAuth2.ClientStore.Reach.{Event, step, run}
use luoluo_auth.OAuth2.ClientStore.Spent.{
  IsSpent, saves, IsSpent-same, drop_refresh_token-IsSpent, remove_token-IsSpent,
  evict_from-IsSpent, store_token-IsSpent, consume_refresh_token-IsSpent, revoke_members-IsSpent,
}

-- Whether a history saves a token with this refresh token.
abbrev pub saves_again : String → List Event → Bool
saves_again r [] = false
saves_again r (Reach.save_token now uuid token family ∷ es) = saves r token || saves_again r es
saves_again r (e ∷ es) = saves_again r es

module _ (r family : String) where
  step-IsSpent :
      (s : ClientStore) (e : Event)
      → saves_again r (e ∷ []) ≡ false
      → IsSpent r family s
      → IsSpent r family (step s e)
  unfolding step register_client remove_client save_authorization_code consume_authorization_code
      save_token evict_expired_tokens get_token revoke_token_family revoke_refresh_token
  step-IsSpent s (Reach.register_client client) n h = IsSpent-same r family s _ refl h
  step-IsSpent s (Reach.save_authorization_code code) n h = IsSpent-same r family s _ refl h
  step-IsSpent s (Reach.consume_authorization_code now code) n h =
      IsSpent-same r family s _ (ground arith) h
  step-IsSpent s (Reach.save_token now uuid token f) n h =
      evict_from-IsSpent r family _ now _ (store_token-IsSpent r family s _ _ (ground (arith, n)) h)
  step-IsSpent s (Reach.get_token now a) n h = IsSpent-same r family s _ (ground arith) h
  step-IsSpent s (Reach.consume_refresh_token now k) n h =
      consume_refresh_token-IsSpent r family s now k h
  step-IsSpent s (Reach.revoke_token_family f) n h =
      elim (Option-cases (JsMap.get s.token_families f)) [
        | inl e ↦ rw (e, revoke_token_family) h
        | inr (rs, e) ↦
            rw (e, revoke_token_family)
              (IsSpent-same r family _ _ refl (revoke_members-IsSpent r family rs s h))
      ]
  step-IsSpent s (Reach.revoke_refresh_token k) n h =
      elim (Option-cases (JsMap.get s.refresh_tokens k)) [
        | inl e ↦ rw (e, revoke_refresh_token) h
        | inr (entry, e) ↦
            rw (e, revoke_refresh_token)
              (drop_refresh_token-IsSpent r family _ k (some entry)
                (IsSpent-same r family s _ refl h))
      ]
  step-IsSpent s (Reach.remove_token a) n h = remove_token-IsSpent r family s a h
  step-IsSpent s (Reach.remove_client client_id) n h = IsSpent-same r family s _ refl h

  saves_again-cons :
      (e : Event) (es : List Event)
      → saves_again r (e ∷ es) ≡ false
      → (saves_again r (e ∷ []) ≡ false) × (saves_again r es ≡ false)
  saves_again-cons (Reach.save_token now uuid token f) es n = (ground (arith, n), ground (arith, n))
  saves_again-cons (Reach.register_client client) es n = (refl, n)
  saves_again-cons (Reach.save_authorization_code code) es n = (refl, n)
  saves_again-cons (Reach.consume_authorization_code now code) es n = (refl, n)
  saves_again-cons (Reach.get_token now a) es n = (refl, n)
  saves_again-cons (Reach.consume_refresh_token now k) es n = (refl, n)
  saves_again-cons (Reach.revoke_token_family f) es n = (refl, n)
  saves_again-cons (Reach.revoke_refresh_token k) es n = (refl, n)
  saves_again-cons (Reach.remove_token a) es n = (refl, n)
  saves_again-cons (Reach.remove_client client_id) es n = (refl, n)

  run-IsSpent :
      (es : List Event) (s : ClientStore)
      → saves_again r es ≡ false
      → IsSpent r family s
      → IsSpent r family (run s es)
  unfolding run
  run-IsSpent [] s n h = h
  run-IsSpent (e ∷ es) s n h =
      let (first, rest) = saves_again-cons e es n in
      run-IsSpent es (step s e) rest (step-IsSpent s e first h)

  IsSpent-consume :
      (s : ClientStore) (now : ℕ)
      → IsSpent r family s
      → ((consume_refresh_token s now r).1 ≡ reuse_detected family)
        ⊎ ((consume_refresh_token s now r).1 ≡ unknown)
  unfolding consume_refresh_token consume_entry
  IsSpent-consume s now h = elim (Option-cases (JsMap.get s.refresh_tokens r)) [
    | inl e ↦ inr (rw (e, consume_refresh_token) refl)
    | inr (entry, e) ↦
        let (used, mine) = h.spent entry e in
        elim (Option-cases (JsMap.get s.tokens entry.access_token)) [
          | inl f ↦ inr (rw (e, consume_refresh_token) (rw (f, consume_refresh_token) refl))
          | inr (token, f) ↦ elim (Bool-cases (is_expired now token.expires_at)) [
            | inl x ↦ inr (ground arith)
            | inr x ↦ inl (ground arith)
          ]
        ]
  ]

  consume-IsSpent :
      (s : ClientStore) (now : ℕ) (token : OAuth2Token)
      → (consume_refresh_token s now r).1 ≡ success token family
      → IsSpent r family (consume_refresh_token s now r).0
  consume-IsSpent s now token h =
      let (entry, found, live, same, fresh, current) = consume-success s now r h in
      let marked = record entry { used = true } in
      let seen = JsMap.get-set s.refresh_tokens r marked r in
      rw (consume_present s now r found live, consume_entry_fresh s now r entry token current fresh)
        (record {
          spent = λ other e.
              let mine : marked ≡ other = ground (arith, e, seen, eq_refl r) in
              (rw⁻¹ mine refl, rw⁻¹ mine same);
        })

-- A refresh token that was accepted is accepted by no later call, whatever calls of the store
-- come in between, other than one that saves the same refresh token again: it is reported as
-- reused, with its family, or unknown. Called directly after, it is reported until its access
-- token expires, and unknown from then on.
pub consume-run :
    (s : ClientStore) (now soon later : ℕ) (r : String) (token : OAuth2Token) (family : String)
    (es : List Event)
    → (consume_refresh_token s now r).1 ≡ success token family
    → saves_again r es ≡ false
    → (let s' = (consume_refresh_token s now r).0 in
        ((consume_refresh_token s' soon r).1
          ≡ (if is_expired soon token.expires_at then unknown else reuse_detected family))
        × (((consume_refresh_token (run s' es) later r).1 ≡ reuse_detected family)
            ⊎ ((consume_refresh_token (run s' es) later r).1 ≡ unknown)))
consume-run s now soon later r token family es h n = (
  consume-consume s now soon r h,
  IsSpent-consume r family _ later
      (run-IsSpent r family es _ n (consume-IsSpent r family s now token h)),
)
