-- ===== src/Bits/Xor.antt =====
-- `^` is commutative and associative, and goes digit by digit through shifts and masks.
use ascii_serial_com_c.Prelude.{
  ℕ, zero, suc, ◌+◌, ◌*◌, ◌/◌, ◌%◌, ◌^◌, ◌≤◌, ◌<◌, bit_xor, ◌≡◌, refl, arith, ap, ap₂, ◌∙◌, sym,
}
use native.Mathlib.Nat.{pow-suc, one-le-pow}
use ascii_serial_com_c.Bits.Step.{bit_xor_step}

pub zero-bit_xor : (b : ℕ) → bit_xor 0 b ≡ b
zero-bit_xor b = omega (arith, below b b (omega arith))
  where
    below : (n b : ℕ) → b ≤ n → bit_xor 0 b ≡ b
    below n zero h = refl
    below zero (suc b) h = absurd (omega arith)
    below (suc n) (suc b) h =
        omega (arith, bit_xor_step 0 (suc b), below n (suc b / 2) (omega arith))

comm_below : (n a b : ℕ) → a ≤ n → b ≤ n → bit_xor a b ≡ bit_xor b a
comm_below zero zero zero p q = refl
comm_below zero zero (suc b) p q = absurd (omega arith)
comm_below zero (suc a) b p q = absurd (omega arith)
comm_below (suc n) a b p q = omega (
  arith,
  bit_xor_step a b,
  bit_xor_step b a,
  comm_below n (a / 2) (b / 2) (omega arith) (omega arith),
)

pub bit_xor_comm : (a b : ℕ) → bit_xor a b ≡ bit_xor b a
bit_xor_comm a b = comm_below (a + b) a b (omega arith) (omega arith)

pub bit_xor-zero : (a : ℕ) → bit_xor a 0 ≡ a
bit_xor-zero a = omega (arith, bit_xor_comm a 0, zero-bit_xor a)

pub bit_xor_half : (a b : ℕ) → bit_xor a b / 2 ≡ bit_xor (a / 2) (b / 2)
bit_xor_half a b = omega (arith, bit_xor_step a b)

pub bit_xor_parity : (a b : ℕ) → bit_xor a b % 2 ≡ (a + b) % 2
bit_xor_parity a b = omega (arith, bit_xor_step a b)

assoc_below :
    (n a b c : ℕ) → a ≤ n → b ≤ n → c ≤ n → bit_xor (bit_xor a b) c ≡ bit_xor a (bit_xor b c)
assoc_below zero zero b c p q r = ground (arith, zero-bit_xor b, zero-bit_xor (bit_xor b c))
assoc_below zero (suc a) b c p q r = absurd (omega arith)
assoc_below (suc n) a b c p q r = ground (
  arith,
  bit_xor_step (bit_xor a b) c,
  bit_xor_step a (bit_xor b c),
  bit_xor_half a b,
  bit_xor_half b c,
  bit_xor_parity a b,
  bit_xor_parity b c,
  assoc_below n (a / 2) (b / 2) (c / 2) (omega arith) (omega arith) (omega arith),
)

pub bit_xor_assoc : (a b c : ℕ) → bit_xor (bit_xor a b) c ≡ bit_xor a (bit_xor b c)
bit_xor_assoc a b c = assoc_below (a + b + c) a b c (omega arith) (omega arith) (omega arith)

self_below : (n a : ℕ) → a ≤ n → bit_xor a a ≡ 0
self_below n zero h = refl
self_below zero (suc a) h = absurd (omega arith)
self_below (suc n) (suc a) h =
    omega (arith, bit_xor_step (suc a) (suc a), self_below n (suc a / 2) (omega arith))

pub bit_xor_self : (a : ℕ) → bit_xor a a ≡ 0
bit_xor_self a = self_below a a (omega arith)

-- `^` with one number loses nothing.
pub bit_xor_cancel : (c a b : ℕ) → bit_xor c a ≡ bit_xor c b → a ≡ b
bit_xor_cancel c a b e = sym (twice a) ∙ ap (bit_xor c) e ∙ twice b
  where
    twice : (x : ℕ) → bit_xor c (bit_xor c x) ≡ x
    twice x = sym (bit_xor_assoc c c x) ∙ ap (λ t. bit_xor t x) (bit_xor_self c) ∙ zero-bit_xor x

pub bit_xor-is_zero : (a b : ℕ) → bit_xor a b ≡ 0 → a ≡ b
bit_xor-is_zero a b e = sym (bit_xor_cancel a b a (e ∙ sym (bit_xor_self a)))

pub bit_xor-lt_pow : (k a b : ℕ) → a < 2 ^ k → b < 2 ^ k → bit_xor a b < 2 ^ k
bit_xor-lt_pow zero zero zero p q = omega (arith, zero-bit_xor 0)
bit_xor-lt_pow zero zero (suc b) p q = absurd (omega arith)
bit_xor-lt_pow zero (suc a) b p q = absurd (omega arith)
bit_xor-lt_pow (suc k) a b p q = omega (
  arith,
  pow-suc 2 k,
  bit_xor_step a b,
  bit_xor-lt_pow k (a / 2) (b / 2) (omega (arith, pow-suc 2 k)) (omega (arith, pow-suc 2 k)),
)

double_field : (q k : ℕ) → q * 2 ^ suc k ≡ 2 * (q * 2 ^ k)
double_field q k = omega (arith, ap (λ (t : ℕ). q * t) (pow-suc 2 k))

-- `^` works on the high and on the low digits apart.
pub bit_xor_fields :
    (k p a q b : ℕ)
    → a < 2 ^ k
    → b < 2 ^ k
    → bit_xor (p * 2 ^ k + a) (q * 2 ^ k + b) ≡ bit_xor p q * 2 ^ k + bit_xor a b
bit_xor_fields zero p zero q zero h i =
    omega (arith, zero-bit_xor 0, ap₂ bit_xor (mul_one p) (mul_one q))
  where
    mul_one : (n : ℕ) → n * 2 ^ 0 + 0 ≡ n
    mul_one n = omega arith
bit_xor_fields zero p (suc a) q b h i = absurd (omega arith)
bit_xor_fields zero p zero q (suc b) h i = absurd (omega arith)
bit_xor_fields (suc k) p a q b h i = ground (
  arith,
  bit_xor_step (p * 2 ^ suc k + a) (q * 2 ^ suc k + b),
  bit_xor_step a b,
  double_field p k,
  double_field q k,
  double_field (bit_xor p q) k,
  bit_xor_fields k p (a / 2) q (b / 2) (omega (arith, pow-suc 2 k)) (omega (arith, pow-suc 2 k)),
)

split_at : (k a : ℕ) → a ≡ a / 2 ^ k * 2 ^ k + a % 2 ^ k
split_at k a = omega arith

split_xor :
    (k a b : ℕ)
    → bit_xor a b ≡ bit_xor (a / 2 ^ k) (b / 2 ^ k) * 2 ^ k + bit_xor (a % 2 ^ k) (b % 2 ^ k)
split_xor k a b =
    ap₂ bit_xor (split_at k a) (split_at k b)
    ∙ bit_xor_fields k (a / 2 ^ k) (a % 2 ^ k) (b / 2 ^ k) (b % 2 ^ k) (mod_small k a)
        (mod_small k b)
  where
    mod_small : (k a : ℕ) → a % 2 ^ k < 2 ^ k
    mod_small k a = omega (arith, one-le-pow k 2)

pub bit_xor_shift4 : (a b : ℕ) → bit_xor a b / 16 ≡ bit_xor (a / 16) (b / 16)
bit_xor_shift4 a b =
    omega (arith, split_xor 4 a b, bit_xor-lt_pow 4 (a % 16) (b % 16) (omega arith) (omega arith))

pub bit_xor_low4 : (a b : ℕ) → bit_xor a b % 16 ≡ bit_xor (a % 16) (b % 16)
bit_xor_low4 a b =
    omega (arith, split_xor 4 a b, bit_xor-lt_pow 4 (a % 16) (b % 16) (omega arith) (omega arith))

pub bit_xor_shift8 : (a b : ℕ) → bit_xor a b / 256 ≡ bit_xor (a / 256) (b / 256)
bit_xor_shift8 a b =
    omega (arith, split_xor 8 a b, bit_xor-lt_pow 8 (a % 256) (b % 256) (omega arith) (omega arith))

pub bit_xor_low8 : (a b : ℕ) → bit_xor a b % 256 ≡ bit_xor (a % 256) (b % 256)
bit_xor_low8 a b =
    omega (arith, split_xor 8 a b, bit_xor-lt_pow 8 (a % 256) (b % 256) (omega arith) (omega arith))

pub bit_xor_low16 : (a b : ℕ) → bit_xor a b % 65536 ≡ bit_xor (a % 65536) (b % 65536)
bit_xor_low16 a b =
    omega (
      arith,
      split_xor 16 a b,
      bit_xor-lt_pow 16 (a % 65536) (b % 65536) (omega arith) (omega arith),
    )

pub bit_xor_shift15 : (a b : ℕ) → bit_xor a b / 32768 ≡ bit_xor (a / 32768) (b / 32768)
bit_xor_shift15 a b =
    omega (
      arith,
      split_xor 15 a b,
      bit_xor-lt_pow 15 (a % 32768) (b % 32768) (omega arith) (omega arith),
    )
