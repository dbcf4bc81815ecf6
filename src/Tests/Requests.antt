-- ===== src/Tests/Requests.antt =====
-- Signed requests, calls between services, single sign-on and sockets, on concrete inputs.
use luoluo_auth.Common.{◌≡◌, ◌↔◌, refl, String, true, none, some, [], ◌∷◌, arith}
use luoluo_auth.Common.JsMap
use luoluo_auth.Common.Text.{ℤ, pos, negsuc, parse_int, show_int, to_lower_case, to_upper_case}
use luoluo_auth.NonceStore
use luoluo_auth.NonceStore.{MemoryNonceStore, set_if_absent}
use luoluo_auth.NonceStore.Replay
use luoluo_auth.NonceStore.Runs.{IsSpaced, HasRoom}
use luoluo_auth.OAuth2.Pkce.{char_codes, generate_code_challenge, verify_code_verifier}
use luoluo_auth.OAuth2.Types.{s256}
use luoluo_auth.Signature.{SignatureConfig}
use luoluo_auth.Signature
use luoluo_auth.Signature.Guard.{SignedRequest, text, no_object, pass, duplicate_nonce}
use luoluo_auth.Signature.Guard
use luoluo_auth.Signature.Laws.{IsSigned, can_activate_iff, value}
use luoluo_auth.Signature.Replay.{
  memory_nonces, activate, calls, asks, Requests, let_through, let_through-IsSpaced,
  can_activate_again,
}

-- `parseInt` and the number in a template.
parsed : parse_int " 42px" ≡ some (pos 42)
unfolding parse_int
parsed = refl

negative : parse_int "-7" ≡ some (negsuc 6)
unfolding parse_int
negative = refl

not_a_number : parse_int "px" ≡ none
unfolding parse_int
not_a_number = refl

shown : show_int (negsuc 299) ≡ "-300"
unfolding show_int
shown = refl

-- The text itself as its digest, and its characters as its bytes.
abbrev hmac : String → String → String
hmac secret raw = raw

abbrev config : SignatureConfig
config = record {
  secret = "k";
  header_name = none;
  timestamp_header = none;
  nonce_header = none;
  timestamp_tolerance = none;
}

-- Its timestamp is 300000 ms after the time 5.
abbrev signed : SignedRequest
signed = record {
  headers =
      ("x-signature", text "GET\n/a\n300005\nn1\n")
      ∷ ("x-timestamp", text "300005")
      ∷ ("x-nonce", text "n1")
      ∷ [];
  method = "get";
  original_url = some "/a";
  url = "/b";
  body = no_object;
}

abbrev empty_nonces : MemoryNonceStore
empty_nonces = NonceStore.new_store 10

empty_nonces-IsValid : Replay.IsValid empty_nonces
empty_nonces-IsValid = record { unique = tt; room = ground arith; bounded = ground arith }

let_in : (activate hmac char_codes config empty_nonces 5 signed).1 ≡ pass
unfolding JsMap.has Guard.can_activate JsMap.get to_lower_case parse_int
    Signature.is_timestamp_valid Guard.check_nonce set_if_absent NonceStore.drop_expired JsMap.set
    Guard.check_signature to_upper_case Signature.verify_signature char_codes
let_in = refl

can_activate_iff_example :
    ((Guard.can_activate hmac char_codes config (some memory_nonces) empty_nonces 5 signed).1
      ≡ pass)
    ↔ ((timestamp : ℤ) × IsSigned hmac char_codes config
          (some memory_nonces)
          empty_nonces
          5
          signed
          timestamp)
can_activate_iff_example =
    can_activate_iff hmac char_codes config (some memory_nonces) empty_nonces 5 signed

stamped : parse_int (value signed "X-Timestamp") ≡ some (pos 300005)
unfolding Guard.extract_header JsMap.get to_lower_case parse_int
stamped = refl

can_activate_again_example :
    (activate hmac char_codes config
      (activate hmac char_codes config empty_nonces 5 signed).0
      400000
      signed).1
    ≡ pass
can_activate_again_example =
    can_activate_again hmac char_codes config empty_nonces 5 400000 300005 signed
      empty_nonces-IsValid let_in stamped refl (omega arith) (omega arith)

-- The same request at three times: the second is refused, the third is let through again.
abbrev thrice : Requests
thrice = (5, signed) ∷ (6, signed) ∷ (400000, signed) ∷ []

thrice-calls : calls hmac char_codes config thrice ≡ (5, "n1") ∷ (6, "n1") ∷ (400000, "n1") ∷ []
unfolding calls asks Guard.extract_header JsMap.get to_lower_case parse_int
    Signature.is_timestamp_valid
thrice-calls = refl

thrice_room : HasRoom 300000 empty_nonces ((5, "n1") ∷ (6, "n1") ∷ (400000, "n1") ∷ [])
unfolding set_if_absent NonceStore.evict_expired JsMap.has JsMap.get NonceStore.drop_expired
    JsMap.set
thrice_room = ground arith

let_through-IsSpaced_example :
    IsSpaced 300000 (let_through hmac char_codes config "n1" empty_nonces thrice)
let_through-IsSpaced_example =
    let_through-IsSpaced hmac char_codes config "n1" 10 thrice (ground arith) (ground arith)
      (rw thrice-calls thrice_room)

let_through_times : let_through hmac char_codes config "n1" empty_nonces thrice ≡ 5 ∷ 400000 ∷ []
unfolding JsMap.has let_through Guard.can_activate JsMap.get to_lower_case parse_int
    Signature.is_timestamp_valid Guard.check_nonce set_if_absent NonceStore.drop_expired JsMap.set
    Guard.check_signature to_upper_case Signature.verify_signature char_codes
let_through_times = refl

-- A digest with `+`, `/` and padding.
abbrev sha256 : String → String
sha256 verifier = "ab+/=="

challenge : generate_code_challenge sha256 "v" s256 ≡ "ab-_"
unfolding generate_code_challenge char_codes
challenge = refl

verified : verify_code_verifier sha256 "v" "ab-_" s256 ≡ true
unfolding verify_code_verifier generate_code_challenge
verified = refl
