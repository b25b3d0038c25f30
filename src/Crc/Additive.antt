-- ===== src/Crc/Additive.antt =====
-- Functions of numbers that respect `^`. Two of them that agree on the low and on the high bytes
-- agree on sixteen bits.
use ascii_serial_com_c.Prelude.{
  ℕ, zero, suc, ◌+◌, ◌*◌, ◌/◌, ◌%◌, ◌<◌, bit_xor, ◌≡◌, ◌∙◌, sym, ap, ap₂, true, ◌==◌, ◌&&◌, arith,
  all_below, at_each,
}
use ascii_serial_com_c.Bits.{
  bit_xor_comm, bit_xor_assoc, bit_xor_self, bit_xor-zero, zero-bit_xor, bit_xor_half, bit_xor_step,
  bit_xor_fields, bit_xor_parity, bit_xor_low16, bit_xor-lt_pow,
}

pub record IsAdditive (f : ℕ → ℕ) : Type 0 where
  pub splits : (x y : ℕ) → f (bit_xor x y) ≡ bit_xor (f x) (f y)

-- Four terms in another order.
pub bit_xor_swap :
    (a b c d : ℕ) → bit_xor (bit_xor a b) (bit_xor c d) ≡ bit_xor (bit_xor a c) (bit_xor b d)
bit_xor_swap a b c d =
    bit_xor_assoc a b (bit_xor c d)
    ∙ ap (bit_xor a)
        (sym (bit_xor_assoc b c d) ∙ ap (λ t. bit_xor t d) (bit_xor_comm b c) ∙ bit_xor_assoc c b d)
    ∙ sym (bit_xor_assoc a c (bit_xor b d))

pub bit_xor-IsAdditive :
    {f g : ℕ → ℕ} → IsAdditive f → IsAdditive g → IsAdditive (λ x. bit_xor (f x) (g x))
bit_xor-IsAdditive {f} {g} hf hg = record {
  splits =
      λ x y. ap₂ bit_xor (hf.splits x y) (hg.splits x y) ∙ bit_xor_swap (f x) (f y) (g x) (g y);
}

pub compose-IsAdditive : {f g : ℕ → ℕ} → IsAdditive f → IsAdditive g → IsAdditive (λ x. f (g x))
compose-IsAdditive {f} {g} hf hg = record {
  splits = λ x y. ap f (hg.splits x y) ∙ hf.splits (g x) (g y);
}

pub half-IsAdditive : IsAdditive (λ x. x / 2)
half-IsAdditive = record { splits = bit_xor_half }

double_xor : (x y : ℕ) → bit_xor x y * 2 ≡ bit_xor (x * 2) (y * 2)
double_xor x y = omega (arith, bit_xor_step (x * 2) (y * 2), halves)
  where
    halves : bit_xor (x * 2 / 2) (y * 2 / 2) ≡ bit_xor x y
    halves = ap₂ bit_xor (undouble x) (undouble y)
      where
        undouble : (n : ℕ) → n * 2 / 2 ≡ n
        undouble n = omega arith

pub double-IsAdditive : IsAdditive (λ x. x * 2)
double-IsAdditive = record { splits = double_xor }

pub low16-IsAdditive : IsAdditive (λ x. x % 65536)
low16-IsAdditive = record { splits = bit_xor_low16 }

none_of : (n : ℕ) → 0 * n ≡ 0
none_of n = omega arith

one_of : (n : ℕ) → 1 * n ≡ n
one_of n = omega arith

parity_bits : (u v p : ℕ) → u < 2 → v < 2 → (u + v) % 2 * p ≡ bit_xor (u * p) (v * p)
parity_bits zero zero p h k = omega (arith, zero-bit_xor 0, ap₂ bit_xor (none_of p) (none_of p))
parity_bits zero (suc zero) p h k =
    omega (arith, zero-bit_xor p, ap₂ bit_xor (none_of p) (one_of p))
parity_bits (suc zero) zero p h k =
    omega (arith, bit_xor-zero p, ap₂ bit_xor (one_of p) (none_of p))
parity_bits (suc zero) (suc zero) p h k = omega (arith, bit_xor_self (1 * p))
parity_bits zero (suc (suc v)) p h k = absurd (omega arith)
parity_bits (suc zero) (suc (suc v)) p h k = absurd (omega arith)
parity_bits (suc (suc u)) v p h k = absurd (omega arith)

parity_split : (s t p : ℕ) → (s + t) % 2 * p ≡ bit_xor (s % 2 * p) (t % 2 * p)
parity_split s t p =
    ap (λ n. n * p) parities ∙ parity_bits (s % 2) (t % 2) p (omega arith) (omega arith)
  where
    parities : (s + t) % 2 ≡ (s % 2 + t % 2) % 2
    parities = omega arith

-- A constant, if the lowest bit is set.
pub if_odd-IsAdditive : (p : ℕ) → IsAdditive (λ x. x % 2 * p)
if_odd-IsAdditive p = record {
  splits = λ x y. ap (λ t. t * p) (bit_xor_parity x y) ∙ parity_split x y p;
}

pub parity-IsAdditive : IsAdditive (λ x. x % 2)
parity-IsAdditive = record { splits = λ x y. bit_xor_parity x y ∙ parities x y }
  where
    parities : (x y : ℕ) → (x + y) % 2 ≡ bit_xor (x % 2) (y % 2)
    parities x y = omega (
      arith,
      bit_xor_parity (x % 2) (y % 2),
      bit_xor-lt_pow 1 (x % 2) (y % 2) (omega arith) (omega arith),
    )

pub split_bytes : (x : ℕ) → bit_xor (x / 256 * 256) (x % 256) ≡ x
split_bytes x = omega (
  arith,
  bit_xor_fields 8 (x / 256) 0 0 (x % 256) (omega arith) (omega arith),
  bit_xor-zero (x / 256),
  zero-bit_xor (x % 256),
  ap₂ bit_xor high low,
)
  where
    high : x / 256 * 256 + 0 ≡ x / 256 * 256
    high = omega arith

    low : 0 * 256 + x % 256 ≡ x % 256
    low = omega arith

pub split_words : (x : ℕ) → bit_xor (x / 65536 * 65536) (x % 65536) ≡ x
split_words x = omega (
  arith,
  bit_xor_fields 16 (x / 65536) 0 0 (x % 65536) (omega arith) (omega arith),
  bit_xor-zero (x / 65536),
  zero-bit_xor (x % 65536),
  ap₂ bit_xor high low,
)
  where
    high : x / 65536 * 65536 + 0 ≡ x / 65536 * 65536
    high = omega arith

    low : 0 * 65536 + x % 65536 ≡ x % 65536
    low = omega arith

pub agree :
    {f g : ℕ → ℕ}
    → IsAdditive f
    → IsAdditive g
    → all_below (λ b. (f b == g b) && (f (b * 256) == g (b * 256))) 256 ≡ true
    → (x : ℕ) → x < 65536
    → f x ≡ g x
agree {f} {g} hf hg checked x h =
    ap f (sym (split_bytes x))
    ∙ hf.splits (x / 256 * 256) (x % 256)
    ∙ ap₂ bit_xor (at (x / 256) (omega arith)).1 (at (x % 256) (omega arith)).0
    ∙ sym (hg.splits (x / 256 * 256) (x % 256))
    ∙ ap g (split_bytes x)
  where
    at : (b : ℕ) → b < 256 → (f b ≡ g b) × (f (b * 256) ≡ g (b * 256))
    at b lt = both (at_each _ 256 checked b lt)
      where
        both :
            ((f b == g b) && (f (b * 256) == g (b * 256))) ≡ true
            → (f b ≡ g b) × (f (b * 256) ≡ g (b * 256))
        both e = ground arith
