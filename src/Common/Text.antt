-- ===== src/Common/Text.antt =====
-- JavaScript's operations on texts: case, `parseInt`, a number in a template, an index.
use Prim.Native.Nat.{ℕ, zero, suc, ◌+◌, ◌-◌, ◌*◌, ◌/◌, ◌%◌}
use Prim.Native.Char.{Char, code}
use Prim.Native.String
use Prim.Native.String.{String}
use mathlib.Core.Bool.{Bool, ◌&&◌, ◌||◌}
use mathlib.Core.Option.{Option, none, some}
use luoluo_auth.Common.Tests.{leb, ltb, nat_eq, if◌then◌else◌, get_or}

-- The character of `to` that stands where `from` has `c`.
abbrev pub translate : String → String → Char → Char
translate String.[] to c = c
translate (String.◌∷◌ a from) String.[] c = c
translate (String.◌∷◌ a from) (String.◌∷◌ b to) c =
    if nat_eq (code a) (code c) then b else translate from to c

-- `toLowerCase()` and `toUpperCase()`, on the letters of ASCII.
unfoldable pub to_lower_case : String → String
to_lower_case String.[] = String.[]
to_lower_case (String.◌∷◌ c s) =
    String.◌∷◌ (translate "ABCDEFGHIJKLMNOPQRSTUVWXYZ" "abcdefghijklmnopqrstuvwxyz" c)
      (to_lower_case s)

unfoldable pub to_upper_case : String → String
to_upper_case String.[] = String.[]
to_upper_case (String.◌∷◌ c s) =
    String.◌∷◌ (translate "abcdefghijklmnopqrstuvwxyz" "ABCDEFGHIJKLMNOPQRSTUVWXYZ" c)
      (to_upper_case s)

-- `s[i]`.
unfoldable pub char_at : String → ℕ → Option String
char_at String.[] i = none
char_at (String.◌∷◌ c s) zero = some (String.◌∷◌ c String.[])
char_at (String.◌∷◌ c s) (suc i) = char_at s i

-- An integer: `negsuc n` is -(n + 1).
pub data ℤ : Type 0 where
  pos negsuc : ℕ → ℤ

abbrev pub negate : ℕ → ℤ
negate zero = pos 0
negate (suc n) = negsuc n

abbrev pub is_digit : Char → Bool
is_digit c = leb b'0' (code c) && leb (code c) b'9'

-- The digits at the start of a text, after those that make `n`.
unfoldable pub more_digits : ℕ → String → ℕ
more_digits n String.[] = n
more_digits n (String.◌∷◌ c s) = if is_digit c then more_digits (n * 10 + (code c - b'0')) s else n

unfoldable pub read_digits : String → Option ℕ
unfolding more_digits
read_digits String.[] = none
read_digits (String.◌∷◌ c s) = if is_digit c then some (more_digits (code c - b'0') s) else none

abbrev pub signed : (ℕ → ℤ) → Option ℕ → Option ℤ
signed f none = none
signed f (some n) = some (f n)

-- Space, the controls from tab to carriage return, and the no-break space.
abbrev pub is_white : Char → Bool
is_white c = nat_eq (code c) 32 || leb 9 (code c) && leb (code c) 13 || nat_eq (code c) 160

-- `parseInt(s, 10)`; `none` is NaN.
unfoldable pub parse_int : String → Option ℤ
unfolding read_digits
parse_int String.[] = none
parse_int (String.◌∷◌ c s) =
    if is_white c
    then parse_int s
    else if nat_eq (code c) b'-'
    then signed negate (read_digits s)
    else if nat_eq (code c) b'+'
    then signed pos (read_digits s)
    else signed pos (read_digits (String.◌∷◌ c s))

abbrev pub digit : ℕ → String
digit n = get_or (char_at "0123456789" n) ""

-- The decimal digits of n; a fuel above n is enough.
unfoldable pub decimal_digits : ℕ → ℕ → String
unfolding char_at
decimal_digits zero n = ""
decimal_digits (suc fuel) n =
    if ltb n 10 then digit n else String.◌++◌ (decimal_digits fuel (n / 10)) (digit (n % 10))

-- `${n}`.
unfoldable pub show_int : ℤ → String
unfolding decimal_digits
show_int (pos n) = decimal_digits (suc n) n
show_int (negsuc n) = String.◌++◌ "-" (decimal_digits (suc (suc n)) (suc n))
