-- ===== src/Base/Bits.antt =====
-- The exclusive or of numbers.
use Prim.Native.Nat.{
  ℕ, zero, suc, ◌+◌, ◌*◌, ◌/◌, ◌%◌, ◌≤◌, bit_xor, digits, differ, bit_xor-bitwise,
}
use mathlib.Core.Path.{◌≡◌, refl, ap₂, ◌∙◌}
use native.Mathlib.Omega.{arith}

abbrev xor_digits : ℕ → ℕ → ℕ → ℕ
xor_digits n a b = digits (λ b. b) differ n a b

xor_digits_fuel : (n m a b : ℕ) → a ≤ n → a ≤ m → xor_digits n a b ≡ xor_digits m a b
xor_digits_fuel zero zero a b p q = refl
xor_digits_fuel zero (suc m) zero b p q = refl
xor_digits_fuel zero (suc m) (suc a) b p q = absurd (omega arith)
xor_digits_fuel (suc n) zero zero b p q = refl
xor_digits_fuel (suc n) zero (suc a) b p q = absurd (omega arith)
xor_digits_fuel (suc n) (suc m) zero b p q = refl
xor_digits_fuel (suc n) (suc m) (suc a) b p q =
    omega (arith, xor_digits_fuel n m (suc a / 2) (b / 2) (omega arith) (omega arith))

zero-bit_xor : (b : ℕ) → bit_xor 0 b ≡ b
zero-bit_xor b = bit_xor-bitwise 0 b

bit_xor_step : (a b : ℕ) → bit_xor a b ≡ bit_xor (a / 2) (b / 2) * 2 + differ (a % 2) (b % 2)
bit_xor_step zero b = omega (arith, zero-bit_xor b, zero-bit_xor (b / 2), zero_differ (b % 2))
  where
    zero_differ : (d : ℕ) → differ (0 % 2) d ≡ d
    zero_differ d = refl
bit_xor_step (suc a) b = omega (
  arith,
  bit_xor-bitwise (suc a) b,
  bit_xor-bitwise (suc a / 2) (b / 2),
  xor_digits_fuel a (suc a / 2) (suc a / 2) (b / 2) (omega arith) (omega arith),
)

-- Digits: 0 and 1.
differ_lt : (x y : ℕ) → x ≤ 1 → y ≤ 1 → differ x y ≤ 1
differ_lt zero y p q = q
differ_lt (suc x) zero p q = p
differ_lt (suc x) (suc y) p q = differ_lt x y (omega arith) (omega arith)

differ-differ : (x y : ℕ) → x ≤ 1 → y ≤ 1 → differ (differ x y) y ≡ x
differ-differ zero zero p q = refl
differ-differ zero (suc zero) p q = refl
differ-differ zero (suc (suc y)) p q = absurd (omega arith)
differ-differ (suc zero) zero p q = refl
differ-differ (suc zero) (suc zero) p q = refl
differ-differ (suc zero) (suc (suc y)) p q = absurd (omega arith)
differ-differ (suc (suc x)) y p q = absurd (omega arith)

undone : (n a b : ℕ) → a ≤ n → b ≤ n → bit_xor (bit_xor a b) b ≡ a
undone zero zero zero p q = refl
undone zero (suc a) b p q = absurd (omega arith)
undone zero zero (suc b) p q = absurd (omega arith)
undone (suc n) a b p q =
    let q' = bit_xor (a / 2) (b / 2) in
    let d = differ (a % 2) (b % 2) in
    let lt = differ_lt (a % 2) (b % 2) (omega arith) (omega arith) in
    let e = bit_xor_step a b in
    bit_xor_step (bit_xor a b) b
    ∙ ap₂ (λ x y. bit_xor x (b / 2) * 2 + differ y (b % 2)) (omega (arith, e, lt))
        (omega (arith, e, lt))
    ∙ ap₂ (λ x y. x * 2 + y) (undone n (a / 2) (b / 2) (omega arith) (omega arith))
        (differ-differ (a % 2) (b % 2) (omega arith) (omega arith))
    ∙ omega arith

-- Twice is not at all.
pub bit_xor-bit_xor : (a b : ℕ) → bit_xor (bit_xor a b) b ≡ a
bit_xor-bit_xor a b = undone (a + b) a b (omega arith) (omega arith)
