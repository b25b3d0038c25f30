-- ===== src/Bits/Step.antt =====
-- The native bit operations stand for `bitwise`, a recursion on binary digits with fuel. Here they
-- get one equation for the lowest digit, without the fuel.
use Prim.Native.Nat.{digits, bitwise, bit_and-bitwise, bit_or-bitwise, bit_xor-bitwise}
use ascii_serial_com_c.Prelude.{
  ℕ, zero, suc, ◌+◌, ◌*◌, ◌/◌, ◌%◌, ◌≤◌, ◌<◌, min, max, bit_and, bit_or, bit_xor, ◌≡◌, refl, ap,
  arith,
}
use Prim.Native.Nat.{differ}

-- One digit at a time, if running out of digits agrees with zero digits.
module _ (z : ℕ → ℕ) (f : ℕ → ℕ → ℕ) where
  -- Any fuel from the first number on is enough.
  fuel_irrelevant :
      (a b fuel fuel' : ℕ) → a ≤ fuel → a ≤ fuel' → digits z f fuel a b ≡ digits z f fuel' a b
  fuel_irrelevant zero b fuel fuel' h h' = ends fuel fuel'
    where
      ends : (k l : ℕ) → digits z f k 0 b ≡ digits z f l 0 b
      ends zero zero = refl
      ends zero (suc l) = refl
      ends (suc k) zero = refl
      ends (suc k) (suc l) = refl
  fuel_irrelevant (suc a) b zero fuel' h h' = absurd (omega arith)
  fuel_irrelevant (suc a) b (suc fuel) zero h h' = absurd (omega arith)
  fuel_irrelevant (suc a) b (suc fuel) (suc fuel') h h' =
      ap (λ d. d * 2 + f (suc a % 2) (b % 2))
        (fuel_irrelevant (suc a / 2) (b / 2) fuel fuel' (omega arith) (omega arith))

  bitwise_step :
      ((b : ℕ) → z b ≡ z (b / 2) * 2 + f 0 (b % 2))
      → (a b : ℕ) → bitwise z f a b ≡ bitwise z f (a / 2) (b / 2) * 2 + f (a % 2) (b % 2)
  bitwise_step h zero b = h b
  bitwise_step h (suc a) b =
      ap (λ d. d * 2 + f (suc a % 2) (b % 2))
        (fuel_irrelevant (suc a / 2) (b / 2) a (suc a / 2) (omega arith) (omega arith))

pub bit_or_step : (a b : ℕ) → bit_or a b ≡ max (a % 2) (b % 2) + 2 * bit_or (a / 2) (b / 2)
bit_or_step a b = omega (arith, step)
  where
    step : bit_or a b ≡ bit_or (a / 2) (b / 2) * 2 + max (a % 2) (b % 2)
    step = simp bit_or-bitwise (bitwise_step (λ b'. b') max (λ b'. omega arith) a b)

pub bit_and_step : (a b : ℕ) → bit_and a b ≡ min (a % 2) (b % 2) + 2 * bit_and (a / 2) (b / 2)
bit_and_step a b = omega (arith, step)
  where
    step : bit_and a b ≡ bit_and (a / 2) (b / 2) * 2 + min (a % 2) (b % 2)
    step = simp bit_and-bitwise (bitwise_step (λ b'. 0) min (λ b'. omega arith) a b)

differ_bits : (x y : ℕ) → x < 2 → y < 2 → differ x y ≡ (x + y) % 2
differ_bits zero zero p q = refl
differ_bits zero (suc zero) p q = refl
differ_bits (suc zero) zero p q = refl
differ_bits (suc zero) (suc zero) p q = refl
differ_bits (suc (suc x)) y p q = absurd (omega arith)
differ_bits zero (suc (suc y)) p q = absurd (omega arith)
differ_bits (suc zero) (suc (suc y)) p q = absurd (omega arith)

pub bit_xor_step : (a b : ℕ) → bit_xor a b ≡ bit_xor (a / 2) (b / 2) * 2 + (a + b) % 2
bit_xor_step a b = omega (arith, differ_bits (a % 2) (b % 2) (omega arith) (omega arith), step)
  where
    step : bit_xor a b ≡ bit_xor (a / 2) (b / 2) * 2 + differ (a % 2) (b % 2)
    step = simp bit_xor-bitwise (bitwise_step (λ b. b) differ (λ b. omega arith) a b)
