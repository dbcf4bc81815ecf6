-- ===== src/OAuth2/Pkce.antt =====
-- src/extras/oauth2/pkce.util.ts. `sha256` is the base64 digest of SHA-256.
pub mod Equality
use Prim.Native.Char.{Char, code}
use Prim.Native.Nat.{ℕ, zero, suc, ◌+◌, bit_or, bit_xor}
use Prim.Native.String
use luoluo_auth.Common.{
  String, Bool, false, ◌&&◌, ◌||◌, List, [], ◌∷◌, leb, nat_eq, length, if◌then◌else◌,
}
use luoluo_auth.OAuth2.Types.{PkceMethod, plain, s256}

-- `s.charCodeAt(i)` for every i, on characters of one code unit.
unfoldable pub char_codes : String → List ℕ
char_codes String.[] = []
char_codes (String.◌∷◌ c s) = code c ∷ char_codes s

-- `.replace(/[^A-Za-z0-9\-_]/g, '')`
abbrev pub is_url_safe : ℕ → Bool
is_url_safe n =
    leb b'A' n && leb n b'Z'
    || leb b'a' n && leb n b'z'
    || leb b'0' n && leb n b'9'
    || nat_eq n b'-'
    || nat_eq n b'_'

unfoldable pub keep_url_safe : String → String
keep_url_safe String.[] = String.[]
keep_url_safe (String.◌∷◌ c s) =
    let rest = keep_url_safe s in if is_url_safe (code c) then String.◌∷◌ c rest else rest

-- `.slice(0, length)`
unfoldable pub take_chars : ℕ → String → String
take_chars zero s = String.[]
take_chars (suc n) String.[] = String.[]
take_chars (suc n) (String.◌∷◌ c s) = String.◌∷◌ c (take_chars n s)

-- Base64 with `-` for `+`, `_` for `/`, and without the `=` at the end.
unfoldable pub url_characters : String → String
url_characters String.[] = String.[]
url_characters (String.◌∷◌ c s) =
    let rest = url_characters s in
    if nat_eq (code c) b'+'
    then String.◌++◌ "-" rest
    else if nat_eq (code c) b'/'
    then String.◌++◌ "_" rest
    else String.◌∷◌ c rest

-- The text without the run of `=` at its end.
unfoldable pub trim_padding : String → String
trim_padding String.[] = String.[]
trim_padding (String.◌∷◌ c s) =
    let rest = trim_padding s in
    if nat_eq (code c) b'=' && nat_eq (length (char_codes rest)) 0
    then String.[]
    else String.◌∷◌ c rest

unfoldable pub base64_url_encode : String → String
unfolding url_characters trim_padding
base64_url_encode base64 = trim_padding (url_characters base64)

-- `random` is the base64 text of the random bytes.
unfoldable pub generate_code_verifier : String → ℕ → String
unfolding base64_url_encode take_chars keep_url_safe
generate_code_verifier random n = keep_url_safe (take_chars n (base64_url_encode random))

-- The loop over two lists of one length.
unfoldable pub differences : ℕ → List ℕ → List ℕ → ℕ
differences result [] bs = result
differences result (a ∷ xs) [] = result
differences result (a ∷ xs) (b ∷ ys) = differences (bit_or result (bit_xor a b)) xs ys

unfoldable pub timing_safe_equal : String → String → Bool
unfolding char_codes differences
timing_safe_equal a b =
    let xs = char_codes a in
    let ys = char_codes b in
    if nat_eq (length xs) (length ys) then nat_eq (differences 0 xs ys) 0 else false

module _ (sha256 : String → String) where
  unfoldable pub generate_code_challenge : String → PkceMethod → String
  unfolding base64_url_encode
  generate_code_challenge verifier plain = verifier
  generate_code_challenge verifier s256 = base64_url_encode (sha256 verifier)

  unfoldable pub verify_code_verifier : String → String → PkceMethod → Bool
  unfolding generate_code_challenge timing_safe_equal
  verify_code_verifier verifier challenge method =
      timing_safe_equal (generate_code_challenge verifier method) challenge
