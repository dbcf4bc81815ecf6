-- ===== src/Common/Bits.antt =====
-- When `|` and `^` of two numbers are 0.
use Prim.Native.Nat.{
  ℕ, zero, suc, ◌/◌, ◌%◌, ◌≤◌, max, differ, bit_or, bit_xor, digits, bit_or-bitwise,
  bit_xor-bitwise,
}
use mathlib.Core.Path.{◌≡◌, refl, ◌∙◌, sym}
use native.Mathlib.Omega.{arith}

max_zero : (x y : ℕ) → max x y ≡ 0 → (x ≡ 0) × (y ≡ 0)
max_zero x y h = (omega arith, omega arith)

differ_zero : (x y : ℕ) → differ x y ≡ 0 → x ≡ y
differ_zero zero y h = sym h
differ_zero (suc x) zero h = h
differ_zero (suc x) (suc y) h = omega (arith, differ_zero x y h)

differ_self : (x : ℕ) → differ x x ≡ 0
differ_self zero = refl
differ_self (suc x) = differ_self x

digits-max : (n a b : ℕ) → a ≤ n → digits (λ c. c) max n a b ≡ 0 → (a ≡ 0) × (b ≡ 0)
digits-max zero zero b p h = (refl, h)
digits-max (suc n) zero b p h = (refl, h)
digits-max zero (suc a) b p h = absurd (omega arith)
digits-max (suc n) (suc a) b p h =
    let high = digits-max n (suc a / 2) (b / 2) (omega arith) (omega (arith, h)) in
    let low = max_zero (suc a % 2) (b % 2) (omega (arith, h)) in
    (omega (arith, high.0, low.0), omega (arith, high.1, low.1))

digits-differ : (n a b : ℕ) → a ≤ n → digits (λ c. c) differ n a b ≡ 0 → a ≡ b
digits-differ zero zero b p h = sym h
digits-differ (suc n) zero b p h = sym h
digits-differ zero (suc a) b p h = absurd (omega arith)
digits-differ (suc n) (suc a) b p h =
    let high = digits-differ n (suc a / 2) (b / 2) (omega arith) (omega (arith, h)) in
    let low = differ_zero (suc a % 2) (b % 2) (omega (arith, h)) in omega (arith, high, low)

digits-differ_self : (n a : ℕ) → a ≤ n → digits (λ c. c) differ n a a ≡ 0
digits-differ_self zero zero p = refl
digits-differ_self (suc n) zero p = refl
digits-differ_self zero (suc a) p = absurd (omega arith)
digits-differ_self (suc n) (suc a) p =
    omega (arith, digits-differ_self n (suc a / 2) (omega arith), differ_self (suc a % 2))

pub bit_or_zero : (a b : ℕ) → bit_or a b ≡ 0 → (a ≡ 0) × (b ≡ 0)
bit_or_zero a b h = digits-max a a b (omega arith) (sym (bit_or-bitwise a b) ∙ h)

pub bit_xor_zero : (a b : ℕ) → bit_xor a b ≡ 0 → a ≡ b
bit_xor_zero a b h = digits-differ a a b (omega arith) (sym (bit_xor-bitwise a b) ∙ h)

pub bit_xor_self : (a : ℕ) → bit_xor a a ≡ 0
bit_xor_self a = bit_xor-bitwise a a ∙ digits-differ_self a a (omega arith)
