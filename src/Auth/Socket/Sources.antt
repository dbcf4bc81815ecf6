-- ===== src/Auth/Socket/Sources.antt =====
-- src/auth/ws/ws-auth.guard.ts: where the token of a socket comes from.
use Prim.Native.Char.{code}
use Prim.Native.String
use Prim.Native.String.append
use text.Mathlib.TextEquality.{Char-path}
use luoluo_auth.Common.{
  String, true, false, ◌≡◌, ◌≢◌, inl, inr, refl, sym, ap, ◌∙◌, Option, none, some, List, [], ◌∷◌,
  truthy, get_or, nat_eq, arith, Bool-cases, Option-cases,
}
use luoluo_auth.Permission.{split}
use luoluo_auth.MemoryStore.Data.{SessionData}
use luoluo_auth.Auth.Errors.{Outcome, ok, throw}
use luoluo_auth.Auth.Service.{World, Deps}
use luoluo_auth.Auth.Service.Tokens.{validate_token}
use luoluo_auth.Auth.Guard.{extract_bearer_token}
use luoluo_auth.Auth.Socket.{
  Handshake, SocketClient, joined, strip_prefix, trim, find_cookie, read_cookie, from_handshake,
  extract_token, extract_client_info, answer_of, can_activate,
}

-- The value of the first part that starts with a text once the white space around it is gone, if
-- one does.
pub data IsCookie (prefix : String) : List String → Option String → Type 0 where
  no_part : IsCookie prefix [] none
  this_part :
      {part value : String} {parts : List String}
      → trim part ≡ String.◌++◌ prefix value
      → IsCookie prefix (part ∷ parts) (some value)
  later_part :
      {part : String} {parts : List String} {found : Option String}
      → ((value : String) → trim part ≢ String.◌++◌ prefix value)
      → IsCookie prefix parts found
      → IsCookie prefix (part ∷ parts) found

abbrev pub decoded : (String → String) → Option String → Option String
decoded decode none = none
decoded decode (some value) = some (decode value)

strip_prefix-some : (p s value : String) → strip_prefix p s ≡ some value → s ≡ String.◌++◌ p value
unfolding strip_prefix
strip_prefix-some String.[] s value h =
    let same : s ≡ value = ground (arith, h) in same ∙ sym (append.nil value)
strip_prefix-some (String.◌∷◌ c p) String.[] value h = absurd (ground (arith, h))
strip_prefix-some (String.◌∷◌ c p) (String.◌∷◌ d s) value h =
    elim (Bool-cases (nat_eq (code c) (code d))) [
      | inr e ↦ absurd (ground (arith, rw e at h))
      | inl e ↦
          let tail = strip_prefix-some p s value (rw e at h) in
          let head = Char-path d c (ground (arith, e)) in
          ap (λ x. String.◌∷◌ x s) head
          ∙ ap (λ x. String.◌∷◌ c x) tail
          ∙ sym (append.cons c p value)
    ]

strip_prefix-append : (p value : String) → strip_prefix p (String.◌++◌ p value) ≡ some value
unfolding strip_prefix
strip_prefix-append String.[] value = ap some (append.nil value)
strip_prefix-append (String.◌∷◌ c p) value =
    rw (append.cons c p value) (ground (arith, strip_prefix-append p value))

find_cookie-IsCookie :
    (prefix : String) (parts : List String) → IsCookie prefix parts (find_cookie prefix parts)
unfolding find_cookie
find_cookie-IsCookie prefix [] = no_part
find_cookie-IsCookie prefix (part ∷ parts) = elim (Option-cases (strip_prefix prefix (trim part))) [
  | inr (value, e) ↦ rw (e, find_cookie) (this_part (strip_prefix-some prefix (trim part) value e))
  | inl e ↦
      rw (e, find_cookie)
        (later_part
          (λ value same. ground (arith, e, rw same at e, strip_prefix-append prefix value))
          (find_cookie-IsCookie prefix parts))
]

module _ (name : String) (decode : String → String) (token_in : String → Option String) where
  read_cookie-decoded :
      (text : String)
      → read_cookie name decode token_in text
        ≡ decoded decode (find_cookie (String.◌++◌ name "=") (split b';' text))
  unfolding read_cookie
  read_cookie-decoded text =
      elim (Option-cases (find_cookie (String.◌++◌ name "=") (split b';' text))) [
        | inl e ↦ rw (e, read_cookie) refl
        | inr (value, e) ↦ rw (e, read_cookie) refl
      ]

  -- Without a token in the handshake's auth and header, with cookies enabled, a cookie header
  -- that is not empty decides alone, whatever the query says: the token is the decoded value of
  -- the first of its parts that starts with the name of the cookie and =, and there is none if
  -- no part does.
  pub extract_token-IsCookie :
      (client : SocketClient) (h : Handshake)
      → client.handshake ≡ some h
      → truthy h.auth_token ≡ false
      → truthy (extract_bearer_token h.authorization) ≡ false
      → truthy h.cookie_header ≡ true
      → (found : Option String) × IsCookie
          (String.◌++◌ name "=")
          (split b';' (get_or h.cookie_header ""))
          found
        × (extract_token name decode token_in true client ≡ decoded decode found)
  unfolding extract_token from_handshake
  extract_token-IsCookie client h e a b k =
      let parts = split b';' (get_or h.cookie_header "") in
      let prefix = String.◌++◌ name "=" in
      (
        find_cookie prefix parts,
        find_cookie-IsCookie prefix parts,
        rw e (rw (a, b, k) (read_cookie-decoded (get_or h.cookie_header ""))),
      )

  module _ {S L K R : Type 0} (d : Deps S L K R) where
    abbrev checked : SocketClient → World S L K R → World S L K R × Outcome SessionData
    checked client w =
        validate_token d (get_or (extract_token name decode token_in d.cookies_enabled client) "")
          (extract_client_info name decode token_in client).0
          (extract_client_info name decode token_in client).1 w

    answer_of-joined :
        (r : World S L K R × Outcome SessionData) (session : SessionData)
        → (answer_of name decode token_in d r).1 ≡ joined session
        → r.1 ≡ ok session
    answer_of-joined (w, throw e) session h = absurd (ground (arith, h))
    answer_of-joined (w, ok found) session h = ground (arith, h)

    -- A socket is let in only with a token that is not empty and that the service accepts, from
    -- the address and the agent of the socket, for the session that is put on it.
    pub can_activate-joined :
        (client : SocketClient) (w : World S L K R) (session : SessionData)
        → (can_activate name decode token_in d client w).1 ≡ joined session
        → (truthy (extract_token name decode token_in d.cookies_enabled client) ≡ true)
          × ((checked client w).1 ≡ ok session)
    unfolding can_activate
    can_activate-joined client w session h =
        elim (Bool-cases (truthy (extract_token name decode token_in d.cookies_enabled client))) [
          | inr t ↦ absurd (ground (arith, rw t at h))
          | inl t ↦ (t, answer_of-joined (checked client w) session (rw t at h))
        ]
