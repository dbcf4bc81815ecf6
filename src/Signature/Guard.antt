-- ===== src/Signature/Guard.antt =====
-- src/auth/signature/signature.guard.ts, `SignatureGuard`, over any nonce store.
use luoluo_auth.Common.{
  ℕ, ◌*◌, String, Bool, true, not, ◌||◌, Option, none, some, List, [], ◌∷◌, if◌then◌else◌, truthy,
  get_or, or_text, or_number,
}
use luoluo_auth.Common.JsMap
use luoluo_auth.Common.JsMap.{JsMap}
use luoluo_auth.Common.Text.{ℤ, to_lower_case, to_upper_case, parse_int}
use luoluo_auth.Signature.{SignatureConfig, SignaturePayload, is_timestamp_valid, verify_signature}

-- The methods of `NonceStore` that the guard calls.
pub record NonceStoreApi (N : Type 0) : Type 0 where
  pub set_if_absent : N → ℕ → String → ℕ → N × Bool

-- The value of a header: a text, or a list of texts.
pub data HeaderValue : Type 0 where
  text : String → HeaderValue
  texts : List String → HeaderValue

-- A parsed body: none or a primitive value, or an object with its keys and its JSON text.
pub data Body : Type 0 where
  no_object : Body
  object : (keys : List String) (json : String) → Body

pub record SignedRequest : Type 0 where
  pub headers : JsMap HeaderValue
  pub method : String
  pub original_url : Option String
  pub url : String
  pub body : Body

-- `true`, or the ForbiddenException by its message.
pub data Verdict : Type 0 where
  pass missing_headers invalid_format timestamp_expired duplicate_nonce invalid_signature : Verdict

abbrev pub header_text : Option HeaderValue → Option String
header_text none = none
header_text (some (text s)) = some s
header_text (some (texts [])) = none
header_text (some (texts (s ∷ ss))) = some s

unfoldable pub extract_header : SignedRequest → String → Option String
extract_header q name = header_text (JsMap.get q.headers (to_lower_case name))

abbrev pub body_text : Body → Option String
body_text no_object = none
body_text (object [] json) = none
body_text (object (k ∷ ks) json) = some json

-- The settings of the constructor.
abbrev pub header_name : SignatureConfig → String
header_name c = or_text c.header_name "X-Signature"

abbrev pub timestamp_header : SignatureConfig → String
timestamp_header c = or_text c.timestamp_header "X-Timestamp"

abbrev pub nonce_header : SignatureConfig → String
nonce_header c = or_text c.nonce_header "X-Nonce"

abbrev pub tolerance : SignatureConfig → ℕ
tolerance c = or_number c.timestamp_tolerance (5 * 60 * 1000)

unfoldable pub payload_of : SignedRequest → ℤ → String → SignaturePayload
unfolding to_upper_case
payload_of q timestamp nonce = record {
  method = to_upper_case q.method;
  path = or_text q.original_url q.url;
  timestamp = timestamp;
  nonce = nonce;
  body = body_text q.body;
}

module _ (hmac : String → String → String) (bytes : String → List ℕ) (c : SignatureConfig)
    {N : Type 0} (api : Option (NonceStoreApi N)) where
  -- The nonce, where there is a store.
  unfoldable pub check_nonce : N → ℕ → String → N × Bool
  check_nonce s now nonce = elim api [
    | none ↦ (s, true)
    | some store ↦ store.set_if_absent s now nonce (tolerance c)
  ]

  unfoldable pub check_signature : SignedRequest → ℤ → String → String → Verdict
  unfolding payload_of verify_signature
  check_signature q timestamp nonce signature =
      if verify_signature hmac bytes (payload_of q timestamp nonce) signature c.secret
      then pass
      else invalid_signature

  unfoldable pub with_timestamp : N → ℕ → SignedRequest → ℤ → String → String → N × Verdict
  unfolding check_nonce check_signature
  with_timestamp s now q timestamp nonce signature =
      if not (is_timestamp_valid now timestamp (tolerance c))
      then (s, timestamp_expired)
      else let (s', added) = check_nonce s now nonce in
        if not added
        then (s', duplicate_nonce)
        else (s', check_signature q timestamp nonce signature)

  unfoldable pub can_activate : N → ℕ → SignedRequest → N × Verdict
  unfolding with_timestamp extract_header
  can_activate s now q =
      let signature = extract_header q (header_name c) in
      let timestamp_str = extract_header q (timestamp_header c) in
      let nonce = extract_header q (nonce_header c) in
      if not (truthy signature) || not (truthy timestamp_str) || not (truthy nonce)
      then (s, missing_headers)
      else elim (parse_int (get_or timestamp_str "")) [
        | none ↦ (s, invalid_format)
        | some timestamp ↦ with_timestamp s now q timestamp (get_or nonce "") (get_or signature "")
      ]
