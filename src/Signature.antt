-- ===== src/Signature.antt =====
-- src/auth/signature/signature.util.ts. `hmac` is the base64 digest of HMAC-SHA256 under a secret,
-- and `bytes` what `Buffer.from(_, 'base64')` reads.
pub mod Guard
pub mod Laws
pub mod Replay
use Prim.Native.String
use luoluo_auth.Common.{
  ℕ, ◌+◌, ◌-◌, String, Bool, true, false, ◌&&◌, Option, none, some, List, [], ◌∷◌, leb, nat_eq,
  length, get_or, if◌then◌else◌,
}
use luoluo_auth.Common.Text.{ℤ, pos, negsuc, show_int}

pub record SignatureConfig : Type 0 where
  pub secret : String
  pub header_name : Option String
  pub timestamp_header : Option String
  pub nonce_header : Option String
  pub timestamp_tolerance : Option ℕ

pub record SignaturePayload : Type 0 where
  pub method : String
  pub path : String
  pub timestamp : ℤ
  pub nonce : String
  pub body : Option String

abbrev pub line : String → String → String
line s rest = String.◌++◌ s (String.◌++◌ "\n" rest)

-- The text that is signed: `body || ''` is the body, or the empty text without one.
unfoldable pub raw_text : SignaturePayload → String
unfolding show_int
raw_text p =
    line p.method (line p.path (line (show_int p.timestamp) (line p.nonce (get_or p.body ""))))

-- `timingSafeEqual` on two buffers of one length.
abbrev pub same_bytes : List ℕ → List ℕ → Bool
same_bytes [] [] = true
same_bytes [] (b ∷ ys) = false
same_bytes (a ∷ xs) [] = false
same_bytes (a ∷ xs) (b ∷ ys) = nat_eq a b && same_bytes xs ys

-- `Math.abs(now - timestamp)`.
abbrev pub distance : ℕ → ℤ → ℕ
distance now (pos t) = (now - t) + (t - now)
distance now (negsuc n) = now + n + 1

unfoldable pub is_timestamp_valid : ℕ → ℤ → ℕ → Bool
is_timestamp_valid now timestamp tolerance = leb (distance now timestamp) tolerance

module _ (hmac : String → String → String) (bytes : String → List ℕ) where
  unfoldable pub generate_signature : SignaturePayload → String → String
  unfolding raw_text
  generate_signature payload secret = hmac secret (raw_text payload)

  unfoldable pub verify_signature : SignaturePayload → String → String → Bool
  unfolding generate_signature
  verify_signature payload signature secret =
      let expected = bytes (generate_signature payload secret) in
      let given = bytes signature in
      if nat_eq (length expected) (length given) then same_bytes expected given else false
