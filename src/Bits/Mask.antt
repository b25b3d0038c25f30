-- ===== src/Bits/Mask.antt =====
-- `&` with a low mask is a remainder, `|` of disjoint fields a sum.
use native.Mathlib.Nat.{div-div-eq-div-mul, pow-suc, one-le-pow}
use ascii_serial_com_c.Prelude.{
  ℕ, zero, suc, ◌+◌, ◌-◌, ◌*◌, ◌/◌, ◌%◌, ◌^◌, ◌≤◌, ◌<◌, bit_and, bit_or, ◌≡◌, ◌∙◌, ◌⊎◌, inl, inr,
  refl, arith, ap, ap₂, sym, min,
}
use ascii_serial_com_c.Bits.Step.{bit_or_step, bit_and_step}

bit_and-zero_below : (n a : ℕ) → a ≤ n → bit_and a 0 ≡ 0
bit_and-zero_below n zero h = refl
bit_and-zero_below zero (suc a) h = absurd (omega arith)
bit_and-zero_below (suc n) (suc a) h =
    omega (arith, bit_and_step (suc a) 0, bit_and-zero_below n (suc a / 2) (omega arith))

bit_or-zero_below : (n a : ℕ) → a ≤ n → bit_or a 0 ≡ a
bit_or-zero_below n zero h = refl
bit_or-zero_below zero (suc a) h = absurd (omega arith)
bit_or-zero_below (suc n) (suc a) h =
    omega (arith, bit_or_step (suc a) 0, bit_or-zero_below n (suc a / 2) (omega arith))

pub bit_and-zero : (a : ℕ) → bit_and a 0 ≡ 0
bit_and-zero a = bit_and-zero_below a a (omega arith)

pub bit_or-zero : (a : ℕ) → bit_or a 0 ≡ a
bit_or-zero a = bit_or-zero_below a a (omega arith)

double_field : (q k : ℕ) → q * 2 ^ suc k ≡ 2 * (q * 2 ^ k)
double_field q k = grind (arith, pow-suc 2 k)

-- A number read as a field above `k` low digits, and masked to those.
bit_and_low : (k q r : ℕ) → r < 2 ^ k → bit_and (q * 2 ^ k + r) (2 ^ k - 1) ≡ r
bit_and_low zero q r h = omega (arith, bit_and-zero (q * 2 ^ 0 + r))
bit_and_low (suc k) q r h = ground (
  arith,
  bit_and_step (q * 2 ^ suc k + r) (2 ^ suc k - 1),
  double_field q k,
  pow-suc 2 k,
  one-le-pow k 2,
  bit_and_low k q (r / 2) (omega (arith, pow-suc 2 k)),
)

-- `a & (2^k - 1)` keeps the low `k` digits.
pub bit_and_mask : (k a : ℕ) → bit_and a (2 ^ k - 1) ≡ a % 2 ^ k
bit_and_mask k a =
    ground
      (arith, one-le-pow k 2, bit_and_low k (a / 2 ^ k) (a % 2 ^ k) (omega (arith, one-le-pow k 2)))

-- `(q << k) | r` is a sum if `r` has at most `k` digits.
pub bit_or_field : (k q r : ℕ) → r < 2 ^ k → bit_or (q * 2 ^ k) r ≡ q * 2 ^ k + r
bit_or_field zero q r h = ground (arith, bit_or-zero (q * 2 ^ 0))
bit_or_field (suc k) q r h = ground (
  arith,
  bit_or_step (q * 2 ^ suc k) r,
  double_field q k,
  bit_or_field k q (r / 2) (omega (arith, pow-suc 2 k)),
)

-- The digits of `a` and those of its complement to `2^k - 1` have none in common.
bit_and_complement : (k a : ℕ) → a < 2 ^ k → bit_and a (2 ^ k - 1 - a) ≡ 0
bit_and_complement zero a h = ground (arith, bit_and-zero a)
bit_and_complement (suc k) a h = ground (
  arith,
  bit_and_step a (2 ^ suc k - 1 - a),
  pow-suc 2 k,
  one-le-pow k 2,
  bit_and_complement k (a / 2) (omega (arith, pow-suc 2 k)),
)

-- `x` is a power of two.
abbrev pub IsPow2 : ℕ → Type 0
IsPow2 x = (k : ℕ) × (x ≡ 2 ^ k)

-- Both arguments even, or `x` odd with its two's complement.
bit_and_neg_even :
    (k x : ℕ)
    → x % 2 ≡ 0
    → x < 2 ^ suc k
    → bit_and x (2 ^ suc k - x) ≡ 2 * bit_and (x / 2) (2 ^ k - x / 2)
bit_and_neg_even k x e h = ground (arith, bit_and_step x (2 ^ suc k - x), pow-suc 2 k)

bit_and_neg_odd : (k x : ℕ) → x % 2 ≡ 1 → x < 2 ^ suc k → bit_and x (2 ^ suc k - x) ≡ 1
bit_and_neg_odd k x e h = ground (
  arith,
  bit_and_step x (2 ^ suc k - x),
  pow-suc 2 k,
  one-le-pow k 2,
  bit_and_complement k (x / 2) (omega (arith, pow-suc 2 k)),
)

IsPow2-double : (x : ℕ) → x % 2 ≡ 0 → IsPow2 (x / 2) → IsPow2 x
IsPow2-double x e (j, h) = (suc j, omega (arith, pow-suc 2 j))

parity : (x : ℕ) → (x % 2 ≡ 0) ⊎ (x % 2 ≡ 1)
parity x = grind arith

pub bit_and_neg-IsPow2 : (k x : ℕ) → 0 < x → x < 2 ^ k → bit_and x (2 ^ k - x) ≡ x → IsPow2 x
bit_and_neg-IsPow2 zero x p h e = absurd (omega arith)
bit_and_neg-IsPow2 (suc k) x p h e = elim (parity x) [
  | inl even ↦ IsPow2-double x even (
      bit_and_neg-IsPow2 k (x / 2) (omega arith) (omega (arith, pow-suc 2 k))
        (omega (arith, bit_and_neg_even k x even h)))
  | inr odd ↦ (0, omega (arith, bit_and_neg_odd k x odd h))
]

pub bit_and_neg_pow : (k j : ℕ) → 2 ^ j < 2 ^ k → bit_and (2 ^ j) (2 ^ k - 2 ^ j) ≡ 2 ^ j
bit_and_neg_pow zero j h = absurd (omega (arith, one-le-pow j 2))
bit_and_neg_pow (suc k) zero h = bit_and_neg_odd k (2 ^ 0) refl h
bit_and_neg_pow (suc k) (suc j) h = ground (
  arith,
  pow-suc 2 j,
  pow-suc 2 k,
  bit_and_neg_even k (2 ^ suc j) (omega (arith, pow-suc 2 j)) h,
  bit_and_neg_pow k j (omega (arith, pow-suc 2 k, pow-suc 2 j)),
)

bit_or_comm_below : (n a b : ℕ) → a ≤ n → b ≤ n → bit_or a b ≡ bit_or b a
bit_or_comm_below zero zero zero p q = refl
bit_or_comm_below zero zero (suc b) p q = absurd (omega arith)
bit_or_comm_below zero (suc a) b p q = absurd (omega arith)
bit_or_comm_below (suc n) a b p q = omega (
  arith,
  bit_or_step a b,
  bit_or_step b a,
  bit_or_comm_below n (a / 2) (b / 2) (omega arith) (omega arith),
)

pub bit_or_comm : (a b : ℕ) → bit_or a b ≡ bit_or b a
bit_or_comm a b = bit_or_comm_below (a + b) a b (omega arith) (omega arith)

-- The fields the other way round.
pub bit_or_field_low : (k q r : ℕ) → r < 2 ^ k → bit_or r (q * 2 ^ k) ≡ q * 2 ^ k + r
bit_or_field_low k q r h = bit_or_comm r (q * 2 ^ k) ∙ bit_or_field k q r h

-- One digit of a number.
pub bit_and_pow : (k x : ℕ) → bit_and x (2 ^ k) ≡ x / 2 ^ k % 2 * 2 ^ k
bit_and_pow zero x = omega (arith, bit_and_mask 1 x)
bit_and_pow (suc k) x =
    bit_and_step x (2 ^ suc k)
    ∙ ap₂ (λ m y. m + 2 * bit_and (x / 2) y) low (high k)
    ∙ ap (λ t. 0 + 2 * t) (bit_and_pow k (x / 2))
    ∙ ap (λ t. 0 + 2 * (t % 2 * 2 ^ k))
        (div-div-eq-div-mul x 2 (2 ^ k) ∙ ap (λ t. x / t) (sym (doubled k)))
    ∙ (omega (arith, double_field (x / 2 ^ suc k % 2) k))
  where
    doubled : (j : ℕ) → 2 ^ suc j ≡ 2 * 2 ^ j
    doubled j = omega (arith, pow-suc 2 j)

    low : min (x % 2) (2 ^ suc k % 2) ≡ 0
    low = omega (arith, doubled k)

    high : (j : ℕ) → 2 ^ suc j / 2 ≡ 2 ^ j
    high j = omega (arith, doubled j)
