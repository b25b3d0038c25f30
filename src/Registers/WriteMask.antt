-- ===== src/Registers/WriteMask.antt =====
-- The write mask of a register: which bits of it a write can change.
use native.Mathlib.Nat.{pow-suc}
use ascii_serial_com_c.Prelude.{
  ℕ, zero, suc, ◌+◌, ◌-◌, ◌*◌, ◌/◌, ◌%◌, ◌^◌, ◌<◌, min, max, bit_and, bit_or, ◌≡◌, ◌∙◌, sym, ap,
  ap₂, arith,
}
use ascii_serial_com_c.Bits.{bit_and_step, bit_or_step, bit_and-zero}
use ascii_serial_com_c.Registers.Pointers.{masked}

complement_half : (k m : ℕ) → m < 2 ^ suc k → (2 ^ suc k - 1 - m) / 2 ≡ 2 ^ k - 1 - m / 2
complement_half k m h = omega (arith, pow-suc 2 k)

complement_low : (k m : ℕ) → m < 2 ^ suc k → (2 ^ suc k - 1 - m) % 2 ≡ 1 - m % 2
complement_low k m h = omega (arith, pow-suc 2 k)

-- The lowest bit comes from the new value if it is in the mask, from the old one if it is not.
abbrev chosen : ℕ → ℕ → ℕ → ℕ
chosen new mask old = max (min (new % 2) (mask % 2)) (min (old % 2) (1 - mask % 2))

masked_step :
    (k new mask old : ℕ)
    → mask < 2 ^ suc k
    → masked (suc k) new mask old
      ≡ chosen new mask old + 2 * masked k (new / 2) (mask / 2) (old / 2)
unfolding masked
masked_step k new mask old h = omega (
  arith,
  bit_or_step (bit_and new mask) (bit_and old (2 ^ suc k - 1 - mask)),
  ap₂ (λ x y. bit_or x y) halves_new halves_old,
  low_new,
  low_old,
)
  where
    low_new : bit_and new mask % 2 ≡ min (new % 2) (mask % 2)
    low_new = omega (arith, bit_and_step new mask)

    halves_new : bit_and new mask / 2 ≡ bit_and (new / 2) (mask / 2)
    halves_new = omega (arith, bit_and_step new mask)

    step_old :
        bit_and old (2 ^ suc k - 1 - mask)
        ≡ min (old % 2) (1 - mask % 2) + 2 * bit_and (old / 2) (2 ^ k - 1 - mask / 2)
    step_old =
        bit_and_step old (2 ^ suc k - 1 - mask)
        ∙ ap₂ (λ x y. min (old % 2) x + 2 * bit_and (old / 2) y) (complement_low k mask h)
            (complement_half k mask h)

    low_old : bit_and old (2 ^ suc k - 1 - mask) % 2 ≡ min (old % 2) (1 - mask % 2)
    low_old = omega (arith, step_old)

    halves_old : bit_and old (2 ^ suc k - 1 - mask) / 2 ≡ bit_and (old / 2) (2 ^ k - 1 - mask / 2)
    halves_old = omega (arith, step_old)

written_bits :
    (k new mask old : ℕ) → mask < 2 ^ k → bit_and (masked k new mask old) mask ≡ bit_and new mask
written_bits zero new zero old h = bit_and-zero (masked 0 new 0 old) ∙ sym (bit_and-zero new)
written_bits zero new (suc mask) old h = absurd (omega arith)
written_bits (suc k) new mask old h = omega (
  arith,
  bit_and_step (masked (suc k) new mask old) mask,
  bit_and_step new mask,
  masked_step k new mask old h,
  ap (λ x. bit_and x (mask / 2)) half,
  written_bits k (new / 2) (mask / 2) (old / 2) (omega (arith, pow-suc 2 k)),
)
  where
    half : masked (suc k) new mask old / 2 ≡ masked k (new / 2) (mask / 2) (old / 2)
    half = omega (arith, masked_step k new mask old h)

kept_bits :
    (k new mask old : ℕ)
    → mask < 2 ^ k
    → bit_and (masked k new mask old) (2 ^ k - 1 - mask) ≡ bit_and old (2 ^ k - 1 - mask)
kept_bits zero new zero old h = bit_and-zero (masked 0 new 0 old) ∙ sym (bit_and-zero old)
kept_bits zero new (suc mask) old h = absurd (omega arith)
kept_bits (suc k) new mask old h = omega (
  arith,
  bit_and_step (masked (suc k) new mask old) rest,
  bit_and_step old rest,
  masked_step k new mask old h,
  ap₂ bit_and half (complement_half k mask h),
  ap (bit_and (old / 2)) (complement_half k mask h),
  complement_low k mask h,
  kept_bits k (new / 2) (mask / 2) (old / 2) (omega (arith, pow-suc 2 k)),
)
  where
    rest : ℕ
    rest = 2 ^ suc k - 1 - mask

    half : masked (suc k) new mask old / 2 ≡ masked k (new / 2) (mask / 2) (old / 2)
    half = omega (arith, masked_step k new mask old h)

-- What a write through a pointer stores agrees with the new value on the bits of a mask of the
-- register's width, and with the old value on the others.
pub masked_lem :
    (k new mask old : ℕ)
    → mask < 2 ^ k
    → (bit_and (masked k new mask old) mask ≡ bit_and new mask)
      × (bit_and (masked k new mask old) (2 ^ k - 1 - mask) ≡ bit_and old (2 ^ k - 1 - mask))
masked_lem k new mask old h = (written_bits k new mask old h, kept_bits k new mask old h)
