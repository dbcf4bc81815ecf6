-- ===== src/OAuth2/ClientStore/Families.antt =====
-- The index of the token families, and the operations on single tokens that keep it complete.
use luoluo_auth.Common.{
  ℕ, String, ◌≡◌, refl, inl, inr, true, false, ◌&&◌, ◌||◌, Option, none, some, List, [], ◌∷◌, ◌++◌,
  if◌then◌else◌, get_or, truthy, includes, ◌==◌, arith, eq_iff, Bool-cases, Option-cases,
}
use luoluo_auth.Common.JsMap
use luoluo_auth.Common.JsMap.{JsMap}
use luoluo_auth.OAuth2.Types.{OAuth2Token, RefreshTokenEntry}
use luoluo_auth.OAuth2.ClientStore.{
  ClientStore, is_expired, without, put_family, remove_from_family, add_to_family,
  drop_refresh_token, refresh_of, remove_token, evict_from, evict_expired_tokens, store_token,
  save_token, consume_entry, consume_refresh_token,
}

-- The members of a family, in the index.
abbrev pub members : ClientStore → String → List String
members s family = get_or (JsMap.get s.token_families family) []

-- Every refresh token stands in the index, under its own family.
pub record IsIndexed (s : ClientStore) : Type 0 where
  pub indexed :
      (r : String) (entry : RefreshTokenEntry)
      → JsMap.get s.refresh_tokens r ≡ some entry
      → includes (members s entry.family) r ≡ true

includes-without :
    (r x : String) (rs : List String)
    → includes (without r rs) x ≡ (if r == x then false else includes rs x)
includes-without r x [] = ground arith
includes-without r x (y ∷ rs) =
    ground (arith, eq_iff r x, eq_iff y r, eq_iff y x, includes-without r x rs)

includes-append :
    (x r : String) (rs : List String) → includes (rs ++ r ∷ []) x ≡ includes rs x || (r == x)
includes-append x r [] = ground arith
includes-append x r (y ∷ rs) = ground (arith, includes-append x r rs)

get-put_family :
    (families : JsMap (List String)) (family : String) (rs : List String) (g : String)
    → get_or (JsMap.get (put_family families family rs) g) []
      ≡ (if family == g then rs else get_or (JsMap.get families g) [])
get-put_family families family [] g = ground (arith, JsMap.get-delete families family g)
get-put_family families family (r ∷ rs) g = ground (arith, JsMap.get-set families family (r ∷ rs) g)

-- The members of a family once `r` is gone from another.
members-remove_from_family :
    (families : JsMap (List String)) (family r g x : String)
    → includes (get_or (JsMap.get (remove_from_family families family r) g) []) x
      ≡ (if (family == g) && (r == x) then false else includes (get_or (JsMap.get families g) []) x)
unfolding remove_from_family
members-remove_from_family families family r g x = elim (Option-cases (JsMap.get families family)) [
  | inl e ↦ rw (e, remove_from_family) (ground (arith, eq_iff family g))
  | inr (rs, e) ↦
      rw (e, remove_from_family)
        (rw (get-put_family families family (without r rs) g)
          (ground (arith, eq_iff family g, includes-without r x rs)))
]

members-add_to_family :
    (families : JsMap (List String)) (family r g x : String)
    → includes (get_or (JsMap.get (add_to_family families family r) g) []) x
      ≡ ((family == g) && (r == x)) || includes (get_or (JsMap.get families g) []) x
unfolding add_to_family
members-add_to_family families family r g x = rw (JsMap.get-set families family _ g) (
    ground (
      arith,
      eq_iff family g,
      eq_iff r x,
      includes-append x r (get_or (JsMap.get families family) []),
    ))

-- To drop a token keeps the index right, whatever entry it is dropped for.
pub drop_refresh_token-IsIndexed :
    (s : ClientStore) (r : String) (o : Option RefreshTokenEntry)
    → IsIndexed s
    → IsIndexed (drop_refresh_token s r o)
unfolding drop_refresh_token
drop_refresh_token-IsIndexed s r none h = record {
  indexed =
      λ k entry found. ground (arith, h.indexed k entry, JsMap.get-delete s.refresh_tokens r k);
}
drop_refresh_token-IsIndexed s r (some old) h = record {
  indexed = λ k entry found. ground (
    arith,
    h.indexed k entry,
    JsMap.get-delete s.refresh_tokens r k,
    members-remove_from_family s.token_families old.family r entry.family k,
  );
}

store_token-IsIndexed :
    (s : ClientStore) (token : OAuth2Token) (family : String)
    → IsIndexed s
    → IsIndexed (store_token s token family)
unfolding store_token
store_token-IsIndexed s token family h = record {
  indexed = λ k entry found. ground (
    arith,
    h.indexed k entry,
    eq_iff (get_or token.refresh_token "") k,
    eq_iff family entry.family,
    JsMap.get-set s.refresh_tokens (get_or token.refresh_token "")
        (record { access_token = token.access_token; family = family; used = false }) k,
    members-add_to_family s.token_families family (get_or token.refresh_token "") entry.family k,
  );
}

-- The codes, the clients and the access tokens are no part of the index.
pub IsIndexed-same :
    (s s' : ClientStore)
    → s'.refresh_tokens ≡ s.refresh_tokens
    → s'.token_families ≡ s.token_families
    → IsIndexed s
    → IsIndexed s'
IsIndexed-same s s' e f h = record {
  indexed = λ k entry found. rw f (h.indexed k entry (rw e at found));
}

pub remove_token-IsIndexed :
    (s : ClientStore) (access_token : String)
    → IsIndexed s
    → IsIndexed (remove_token s access_token)
unfolding remove_token
remove_token-IsIndexed s access_token h =
    elim (Bool-cases (truthy (refresh_of (JsMap.get s.tokens access_token)))) [
      | inl e ↦ rw e (drop_refresh_token-IsIndexed _ _ _ (IsIndexed-same s _ refl refl h))
      | inr e ↦ rw e (IsIndexed-same s _ refl refl h)
    ]

evict_from-IsIndexed :
    (entries : JsMap OAuth2Token) (now : ℕ) (s : ClientStore)
    → IsIndexed s
    → IsIndexed (evict_from entries now s)
unfolding evict_from
evict_from-IsIndexed [] now s h = h
evict_from-IsIndexed ((access_token, token) ∷ entries) now s h =
    evict_from-IsIndexed entries now
      (if is_expired now token.expires_at then remove_token s access_token else s)
      (elim (Bool-cases (is_expired now token.expires_at)) [
        | inl e ↦ rw e (remove_token-IsIndexed s access_token h)
        | inr e ↦ rw e h
      ])

pub save_token-IsIndexed :
    (s : ClientStore) (now : ℕ) (uuid : String) (token : OAuth2Token) (family : Option String)
    → IsIndexed s
    → IsIndexed (save_token s now uuid token family).0
unfolding save_token evict_expired_tokens
save_token-IsIndexed s now uuid token family h =
    evict_from-IsIndexed _ now _ (store_token-IsIndexed s _ _ h)

consume_entry-IsIndexed :
    (s : ClientStore) (now : ℕ) (r : String) (entry : RefreshTokenEntry) (token : OAuth2Token)
    → JsMap.get s.refresh_tokens r ≡ some entry
    → IsIndexed s
    → IsIndexed (consume_entry s now r entry token).0
unfolding consume_entry
consume_entry-IsIndexed s now r entry token found h = record {
  indexed = λ k other p. ground (
    arith,
    h.indexed k other,
    h.indexed r entry,
    eq_iff r k,
    JsMap.get-delete s.refresh_tokens r k,
    JsMap.get-set s.refresh_tokens r (record entry { used = true }) k,
    members-remove_from_family s.token_families entry.family r other.family k,
  );
}

pub consume_refresh_token-IsIndexed :
    (s : ClientStore) (now : ℕ) (r : String)
    → IsIndexed s
    → IsIndexed (consume_refresh_token s now r).0
unfolding consume_refresh_token
consume_refresh_token-IsIndexed s now r h = elim (Option-cases (JsMap.get s.refresh_tokens r)) [
  | inl e ↦ rw (e, consume_refresh_token) h
  | inr (entry, e) ↦ elim (Option-cases (JsMap.get s.tokens entry.access_token)) [
    | inl f ↦ rw (e, consume_refresh_token) (rw (f, consume_refresh_token) h)
    | inr (token, f) ↦
        rw (e, consume_refresh_token)
          (rw (f, consume_refresh_token) (consume_entry-IsIndexed s now r entry token e h))
  ]
]
