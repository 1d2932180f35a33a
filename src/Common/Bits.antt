-- ===== src/Common/Bits.antt =====
-- The bit operations that the WebSocket frames use: masks of a byte, and exclusive or taken twice.
use Prim.Native.Nat.{
  ℕ, zero, suc, ◌+◌, ◌*◌, ◌/◌, ◌%◌, ◌≤◌, ◌<◌, min, bit_and, bit_xor, digits, differ,
  bit_and-bitwise, bit_xor-bitwise,
}
use mathlib.Core.Path.{◌≡◌, refl, ap, sym, ◌∙◌}
use mathlib.Core.Logic.{inl, inr}
use native.Mathlib.Omega.{arith}
use agentic_collab.Common.Tests.{◌==◌, Bool-cases}

-- For any operation on digits: a count of digits above the number's own changes nothing.
module _ (rest : ℕ → ℕ) (op : ℕ → ℕ → ℕ) (no_rest : (b : ℕ) → digits rest op 0 0 b ≡ rest b) where
  abbrev all_digits : ℕ → ℕ → ℕ
  all_digits a b = digits rest op a a b

  settled :
      (bound count a b : ℕ) → count ≤ bound → a ≤ count → digits rest op count a b ≡ all_digits a b
  settled bound zero zero b k l = refl
  settled bound (suc c) zero b k l = sym (no_rest b)
  settled zero (suc c) (suc a) b k l = absurd (omega arith)
  settled bound zero (suc a) b k l = absurd (omega arith)
  settled (suc bound) (suc c) (suc a) b k l =
      let left = settled bound c (suc a / 2) (b / 2) (omega arith) (omega arith) in
      let right = settled bound a (suc a / 2) (b / 2) (omega arith) (omega arith) in
      ap (λ t. t * 2 + op (suc a % 2) (b % 2)) (left ∙ sym right)

  lowest_digit :
      (a b : ℕ) → all_digits (suc a) b ≡ all_digits (suc a / 2) (b / 2) * 2 + op (suc a % 2) (b % 2)
  lowest_digit a b =
      ap (λ t. t * 2 + op (suc a % 2) (b % 2))
        (settled a a (suc a / 2) (b / 2) (omega arith) (omega arith))

-- No digit of the first number: `bit_and` is 0, and `bit_xor` the second number.
none_and : (m : ℕ) → bit_and 0 m ≡ 0
none_and m = bit_and-bitwise 0 m

none_xor : (m : ℕ) → bit_xor 0 m ≡ m
none_xor m = bit_xor-bitwise 0 m

halve_and : (a m : ℕ) → bit_and a m ≡ bit_and (a / 2) (m / 2) * 2 + min (a % 2) (m % 2)
halve_and zero m = omega (arith, none_and m, none_and (m / 2))
halve_and (suc a) m =
    bit_and-bitwise (suc a) m
    ∙ lowest_digit (λ b. 0) min (λ b. refl) a m
    ∙ ap (λ t. t * 2 + min (suc a % 2) (m % 2)) (sym (bit_and-bitwise (suc a / 2) (m / 2)))

differ_none : (m : ℕ) → differ 0 m ≡ m
differ_none m = refl

halve_xor : (a m : ℕ) → bit_xor a m ≡ bit_xor (a / 2) (m / 2) * 2 + differ (a % 2) (m % 2)
halve_xor zero m = omega (arith, none_xor m, none_xor (m / 2), differ_none (m % 2))
halve_xor (suc a) m =
    bit_xor-bitwise (suc a) m
    ∙ lowest_digit (λ b. b) differ (λ b. refl) a m
    ∙ ap (λ t. t * 2 + differ (suc a % 2) (m % 2)) (sym (bit_xor-bitwise (suc a / 2) (m / 2)))

no_mask_below : (bound a : ℕ) → a < bound → bit_and a 0 ≡ 0
no_mask_below zero a h = absurd (omega arith)
no_mask_below (suc bound) a h = elim (Bool-cases (a == 0)) [
  | inl e ↦ let z : a ≡ 0 = ground arith in ap (λ t. bit_and t 0) z ∙ none_and 0
  | inr e ↦ omega (arith, halve_and a 0, no_mask_below bound (a / 2) (ground arith))
]

no_mask : (a : ℕ) → bit_and a 0 ≡ 0
no_mask a = no_mask_below (suc a) a (omega arith)

half_odd : (k : ℕ) → (k * 2 + 1) / 2 ≡ k
half_odd k = omega arith

half_even : (k : ℕ) → (k * 2) / 2 ≡ k
half_even k = omega arith

-- One more digit in a mask, a one or a zero at its low end.
mask_one : (a m : ℕ) → bit_and a (m * 2 + 1) ≡ bit_and (a / 2) m * 2 + a % 2
mask_one a m = omega (arith, halve_and a (m * 2 + 1), ap (λ t. bit_and (a / 2) t) (half_odd m))

mask_zero : (a m : ℕ) → bit_and a (m * 2) ≡ bit_and (a / 2) m * 2
mask_zero a m = omega (arith, halve_and a (m * 2), ap (λ t. bit_and (a / 2) t) (half_even m))

mask_3 : (a : ℕ) → bit_and a 3 ≡ a % 4
mask_3 a = omega (arith, mask_one a 1, mask_one (a / 2) 0, no_mask (a / 2 / 2))

pub bit_and-fifteen : (a : ℕ) → bit_and a 15 ≡ a % 16
bit_and-fifteen a = omega (arith, mask_one a 7, mask_one (a / 2) 3, mask_3 (a / 2 / 2))

pub bit_and-127 : (a : ℕ) → bit_and a 127 ≡ a % 128
bit_and-127 a = omega (
  arith,
  mask_one a 63,
  mask_one (a / 2) 31,
  mask_one (a / 2 / 2) 15,
  bit_and-fifteen (a / 2 / 2 / 2),
)

mask_4 : (a : ℕ) → bit_and a 4 ≡ a / 4 % 2 * 4
mask_4 a =
    omega
      (arith, mask_zero a 2, mask_zero (a / 2) 1, mask_one (a / 2 / 2) 0, no_mask (a / 2 / 2 / 2))

mask_16 : (a : ℕ) → bit_and a 16 ≡ a / 16 % 2 * 16
mask_16 a = omega (arith, mask_zero a 8, mask_zero (a / 2) 4, mask_4 (a / 2 / 2))

pub bit_and-64 : (a : ℕ) → bit_and a 64 ≡ a / 64 % 2 * 64
bit_and-64 a = omega (arith, mask_zero a 32, mask_zero (a / 2) 16, mask_16 (a / 2 / 2))

pub bit_and-128 : (a : ℕ) → bit_and a 128 ≡ a / 128 % 2 * 128
bit_and-128 a = omega (arith, mask_zero a 64, bit_and-64 (a / 2))

differ_lt : (a b : ℕ) → a < 2 → b < 2 → differ a b < 2
differ_lt zero b p q = q
differ_lt (suc a) zero p q = p
differ_lt (suc zero) (suc zero) p q = omega arith
differ_lt (suc zero) (suc (suc b)) p q = absurd (omega arith)
differ_lt (suc (suc a)) (suc b) p q = absurd (omega arith)

differ_twice : (a b : ℕ) → a < 2 → b < 2 → differ (differ a b) b ≡ a
differ_twice zero zero p q = refl
differ_twice zero (suc zero) p q = refl
differ_twice zero (suc (suc b)) p q = absurd (omega arith)
differ_twice (suc a) zero p q = refl
differ_twice (suc zero) (suc zero) p q = refl
differ_twice (suc zero) (suc (suc b)) p q = absurd (omega arith)
differ_twice (suc (suc a)) (suc b) p q = absurd (omega arith)

bit_xor_half : (a b : ℕ) → bit_xor a b / 2 ≡ bit_xor (a / 2) (b / 2)
bit_xor_half a b =
    omega (arith, halve_xor a b, differ_lt (a % 2) (b % 2) (omega arith) (omega arith))

bit_xor_mod : (a b : ℕ) → bit_xor a b % 2 ≡ differ (a % 2) (b % 2)
bit_xor_mod a b =
    omega (arith, halve_xor a b, differ_lt (a % 2) (b % 2) (omega arith) (omega arith))

-- The two digits of a mask taken twice.
digit_twice : (a k : ℕ) → differ (bit_xor a k % 2) (k % 2) ≡ a % 2
digit_twice a k = rw (bit_xor_mod a k) (differ_twice (a % 2) (k % 2) (omega arith) (omega arith))

bit_xor_twice_zero : (a k : ℕ) → (a ≡ 0) × (k ≡ 0) → bit_xor (bit_xor a k) k ≡ a
bit_xor_twice_zero a k (p, q) = rw (p, q) refl

bit_xor_twice_fuel : (n a k : ℕ) → a + k ≤ n → bit_xor (bit_xor a k) k ≡ a
bit_xor_twice_fuel zero a k h = bit_xor_twice_zero a k (omega arith, omega arith)
bit_xor_twice_fuel (suc n) a k h = elim (Bool-cases (a + k == 0)) [
  | inl e ↦ bit_xor_twice_zero a k (ground arith)
  | inr e ↦ omega (
    arith,
    halve_xor (bit_xor a k) k,
    digit_twice a k,
    ap (λ x. bit_xor x (k / 2)) (bit_xor_half a k),
    bit_xor_twice_fuel n (a / 2) (k / 2) (ground arith),
  )
]

pub bit_xor_twice : (a k : ℕ) → bit_xor (bit_xor a k) k ≡ a
bit_xor_twice a k = bit_xor_twice_fuel (a + k) a k (omega arith)
