-- ===== src/Sso/Laws.antt =====
-- src/extras/sso/sso.service.ts: the order of the token sources, and the callback.
use luoluo_auth.Common.{
  String, true, false, ◌≡◌, ◌⊎◌, inl, inr, refl, Option, none, some, List, [], ◌∷◌, ◌++◌, truthy,
  get_or, or_text, ◌==◌, arith, All, Bool-cases, Option-cases,
}
use luoluo_auth.MemoryStore.Data.{SessionData}
use luoluo_auth.Auth.Errors.{Outcome, ok, throw}
use luoluo_auth.Auth.Service.{World, Deps}
use luoluo_auth.Auth.Service.Tokens.{validate_token}
use luoluo_auth.Sso.{
  SsoServiceConfig, SsoRequest, SsoUserInfo, SsoCallbackQuery, SsoCodeExchangeResult, user,
  TokenSource, header, cookie, query, extract_token_from_source, first_token,
  extract_token_from_request, exchanged, of_session, handle_callback,
}

module _ (config : SsoServiceConfig) where
  abbrev pub name_of : String
  name_of = or_text config.token_param_name "token"

  abbrev pub sources_of : List TokenSource
  sources_of = get_or config.token_strategy (header ∷ cookie ∷ query ∷ [])

  -- The first source of the list with a token.
  pub record IsFirst (q : SsoRequest) (sources : List TokenSource) (token : String) : Type 0 where
    pub before : List TokenSource
    pub source : TokenSource
    pub later : List TokenSource
    pub order : sources ≡ before ++ source ∷ later
    pub nothing_before :
        All (λ x. truthy (extract_token_from_source config q x name_of) ≡ false) before
    pub found : extract_token_from_source config q source name_of ≡ some token
    pub filled : truthy (some token) ≡ true

  first_token-IsFirst :
      (q : SsoRequest) (sources : List TokenSource) (token : String)
      → first_token config q name_of sources ≡ some token
      → IsFirst q sources token
  unfolding first_token
  first_token-IsFirst q [] token h = absurd (ground (arith, h))
  first_token-IsFirst q (x ∷ sources) token h =
      elim (Bool-cases (truthy (extract_token_from_source config q x name_of))) [
        | inl t ↦
            let found = rw t at h in
            record {
              before = [];
              source = x;
              later = sources;
              order = refl;
              nothing_before = tt;
              found = found;
              filled = rw found at t;
            }
        | inr t ↦
            let r = first_token-IsFirst q sources token (rw t at h) in
            record {
              before = x ∷ r.before;
              source = r.source;
              later = r.later;
              order = rw r.order refl;
              nothing_before = (t, r.nothing_before);
              found = r.found;
              filled = r.filled;
            }
      ]

  -- A token that is read from a request is the one of the first source, in the configured order,
  -- that has a token which is not empty.
  pub extract_token_from_request-IsFirst :
      (q : SsoRequest) (token : String)
      → extract_token_from_request config q ≡ some token
      → IsFirst q sources_of token
  unfolding extract_token_from_request
  extract_token_from_request-IsFirst q token h = first_token-IsFirst q sources_of token h

  module _ {S L K R : Type 0} (d : Deps S L K R) where
    -- Where the user of a callback comes from.
    abbrev pub Origin : SsoCallbackQuery → World S L K R → SsoUserInfo → Type 0
    Origin q w info =
        ((handler : String → Option String → Option SsoCodeExchangeResult)
          × (config.code_exchange_handler ≡ some handler)
          × ((result : SsoCodeExchangeResult) × (handler (get_or q.code "") q.state ≡ some result)
              × ((result.user_id == "") ≡ false)
              × (info.user_id ≡ result.user_id)
              × (info.roles ≡ result.roles)
              × (info.permissions ≡ result.permissions)))
        ⊎ ((config.code_exchange_handler ≡ none)
            × ((session : SessionData) × ((validate_token d (get_or q.code "") none none w).1
                  ≡ ok session)
                × (info.user_id ≡ session.user_id)
                × (info.roles ≡ session.roles)
                × (info.permissions ≡ session.permissions)))

    exchanged-user :
        (r : Option SsoCodeExchangeResult) (info : SsoUserInfo)
        → exchanged config r ≡ user info
        → (result : SsoCodeExchangeResult) × (r ≡ some result)
          × ((result.user_id == "") ≡ false)
          × (info.user_id ≡ result.user_id)
          × (info.roles ≡ result.roles)
          × (info.permissions ≡ result.permissions)
    unfolding exchanged
    exchanged-user none info h = absurd (ground (arith, h))
    exchanged-user (some result) info h = elim (Bool-cases (result.user_id == "")) [
      | inl e ↦ absurd (ground (arith, rw e at h))
      | inr e ↦
          let k = rw e at h in
          (result, refl, e, ground (arith, k), ground (arith, k), ground (arith, k))
    ]

    of_session-user :
        (r : World S L K R × Outcome SessionData) (info : SsoUserInfo)
        → (of_session config d r).1 ≡ user info
        → (session : SessionData) × (r.1 ≡ ok session)
          × (info.user_id ≡ session.user_id)
          × (info.roles ≡ session.roles)
          × (info.permissions ≡ session.permissions)
    of_session-user (w, throw e) info h = absurd (ground (arith, h))
    of_session-user (w, ok session) info h =
        (session, refl, ground (arith, h), ground (arith, h), ground (arith, h))

    -- The callback answers a user only for a query without an error and with a code: where a
    -- code handler is configured, the user of its result, and otherwise that of the session for
    -- which the code is a valid token.
    pub handle_callback-Origin :
        (q : SsoCallbackQuery) (w : World S L K R) (info : SsoUserInfo)
        → (handle_callback config d q w).1 ≡ user info
        → (truthy q.error ≡ false) × (truthy q.code ≡ true) × Origin q w info
    unfolding handle_callback
    handle_callback-Origin q w info h = elim (Bool-cases (truthy q.error)) [
      | inl a ↦ absurd (ground (arith, rw a at h))
      | inr a ↦ elim (Bool-cases (truthy q.code)) [
        | inr b ↦ absurd (ground (arith, rw (a, b) at h))
        | inl b ↦ elim (Option-cases config.code_exchange_handler) [
          | inl e ↦ (
            a,
            b,
            inr (
              e,
              of_session-user (validate_token d (get_or q.code "") none none w) info
                  (rw (a, b, e) at h),
            ),
          )
          | inr (handler, e) ↦ (
            a,
            b,
            inl (
              handler,
              e,
              exchanged-user (handler (get_or q.code "") q.state) info (rw (a, b, e) at h),
            ),
          )
        ]
      ]
    ]
