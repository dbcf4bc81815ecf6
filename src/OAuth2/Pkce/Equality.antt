-- ===== src/OAuth2/Pkce/Equality.antt =====
-- src/extras/oauth2/pkce.util.ts: the loop that compares in constant time decides equality.

use Prim.Native.Nat.{ℕ, bit_or, bit_xor}
use text.Mathlib.TextEquality.{Char-path}
use luoluo_auth.Common.{String, true, ◌≡◌, ◌↔◌, refl, List, [], ◌∷◌, length, arith}
use luoluo_auth.Common.Bits.{bit_or_zero, bit_xor_zero, bit_xor_self}
use luoluo_auth.OAuth2.Types.{PkceMethod}
use luoluo_auth.OAuth2.Pkce.{
  char_codes, differences, timing_safe_equal, generate_code_challenge, verify_code_verifier,
}

-- The result of the loop is 0 only if it was 0 at the start and the lists are the same.
differences-zero :
    (result : ℕ) (xs ys : List ℕ)
    → length xs ≡ length ys
    → differences result xs ys ≡ 0
    → (result ≡ 0) × (xs ≡ ys)
unfolding differences
differences-zero result [] [] l h = (h, refl)
differences-zero result [] (b ∷ ys) l h = absurd (omega (arith, l))
differences-zero result (a ∷ xs) [] l h = absurd (omega (arith, l))
differences-zero result (a ∷ xs) (b ∷ ys) l h =
    let (now, rest) = differences-zero (bit_or result (bit_xor a b)) xs ys (omega (arith, l)) h in
    let (before, same) = bit_or_zero result (bit_xor a b) now in
    (before, rw (bit_xor_zero a b same, rest) refl)

zero-differences : (xs : List ℕ) → differences 0 xs xs ≡ 0
unfolding differences
zero-differences [] = refl
zero-differences (a ∷ xs) = rw (bit_xor_self a) (zero-differences xs)

char_codes-injective : (a b : String) → char_codes a ≡ char_codes b → a ≡ b
unfolding char_codes
char_codes-injective String.[] String.[] h = refl
char_codes-injective String.[] (String.◌∷◌ d t) h = absurd (ground (arith, h))
char_codes-injective (String.◌∷◌ c s) String.[] h = absurd (ground (arith, h))
char_codes-injective (String.◌∷◌ c s) (String.◌∷◌ d t) h =
    let same : c ≡ d = Char-path c d (ground (arith, h)) in
    let rest : s ≡ t = char_codes-injective s t (ground (arith, h)) in rw (same, rest) refl

timing_safe_equal_iff : (a b : String) → (timing_safe_equal a b ≡ true) ↔ (a ≡ b)
unfolding timing_safe_equal
timing_safe_equal_iff a b = (
  λ h.
      char_codes-injective a b
        (differences-zero 0 (char_codes a) (char_codes b) (ground arith) (ground arith)).1,
  λ e. rw e (ground (arith, zero-differences (char_codes b))),
)

-- A code verifier is accepted exactly if the challenge is the one that its method makes of it.
pub verify_code_verifier_iff :
    (sha256 : String → String) (verifier challenge : String) (method : PkceMethod)
    → (verify_code_verifier sha256 verifier challenge method ≡ true)
      ↔ (generate_code_challenge sha256 verifier method ≡ challenge)
unfolding verify_code_verifier
verify_code_verifier_iff sha256 verifier challenge method =
    timing_safe_equal_iff (generate_code_challenge sha256 verifier method) challenge
