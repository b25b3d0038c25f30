-- ===== src/Crc/Register.antt =====
-- The shift register of the bit-by-bit implementations, and its mirror image.
use ascii_serial_com_c.Prelude.{
  ℕ, zero, suc, ◌+◌, ◌*◌, ◌/◌, ◌%◌, ◌^◌, ◌<◌, bit_or, bit_xor, ◌≡◌, refl, ◌∙◌, sym, ap, ap₂, true,
  ◌==◌, ◌&&◌, get_or, arith, all_below, at_each, u8,
}
use native.Mathlib.Nat.{pow-suc}
use ascii_serial_com_c.Bits.{
  bit_xor_step, bit_or_step, bit_or-zero, bit_xor-zero, zero-bit_xor, bit_xor_shift15,
  bit_xor_shift8, bit_xor_low8, bit_xor_comm, bit_xor_assoc, bit_xor-lt_pow,
}
use ascii_serial_com_c.Crc.Additive.{
  IsAdditive, bit_xor-IsAdditive, compose-IsAdditive, half-IsAdditive, double-IsAdditive,
  low16-IsAdditive, parity-IsAdditive, if_odd-IsAdditive, split_bytes, split_words, agree,
}
use ascii_serial_com_c.Crc.Crcmod.{table, byte_step}

-- One shift to the left, and one to the right of the mirrored register.
unfoldable pub shift_left : ℕ → ℕ
shift_left x = bit_xor (x * 2 % 65536) (x / 32768 % 2 * 0x3d65)

unfoldable pub shift_right : ℕ → ℕ
shift_right x = bit_xor (x / 2) (x % 2 * 0xa6bc)

unfoldable pub times : ℕ → (ℕ → ℕ) → ℕ → ℕ
times zero f x = x
times (suc n) f x = times n f (f x)

-- The digits of `bits` behind its lowest, in reverse behind those of `ret`.
unfoldable pub mirror_loop : ℕ → ℕ → ℕ → ℕ
mirror_loop zero ret bits = ret
mirror_loop (suc left) ret bits = mirror_loop left (bit_xor (ret * 2) (bits / 2 % 2)) (bits / 2)

unfoldable pub mirror : ℕ → ℕ
unfolding mirror_loop
mirror x = mirror_loop 15 (x % 2) x

top-IsAdditive : IsAdditive (λ x. x / 32768)
top-IsAdditive = record { splits = bit_xor_shift15 }

pub shift_left-IsAdditive : IsAdditive shift_left
unfolding shift_left
shift_left-IsAdditive = record {
  splits =
      (bit_xor-IsAdditive (compose-IsAdditive low16-IsAdditive double-IsAdditive)
        (compose-IsAdditive (if_odd-IsAdditive 0x3d65) top-IsAdditive)).splits;
}

pub shift_right-IsAdditive : IsAdditive shift_right
unfolding shift_right
shift_right-IsAdditive = record {
  splits = (bit_xor-IsAdditive half-IsAdditive (if_odd-IsAdditive 0xa6bc)).splits;
}

pub times-IsAdditive : (n : ℕ) {f : ℕ → ℕ} → IsAdditive f → IsAdditive (times n f)
unfolding times
times-IsAdditive zero h = record { splits = λ x y. refl }
times-IsAdditive (suc n) h = record {
  splits = (compose-IsAdditive (times-IsAdditive n h) h).splits;
}

mirror_loop-IsAdditive :
    (left : ℕ) {f g : ℕ → ℕ}
    → IsAdditive f
    → IsAdditive g
    → IsAdditive (λ x. mirror_loop left (f x) (g x))
unfolding mirror_loop
mirror_loop-IsAdditive zero hf hg = record { splits = hf.splits }
mirror_loop-IsAdditive (suc left) {f} {g} hf hg = record {
  splits =
      (mirror_loop-IsAdditive left
        (bit_xor-IsAdditive (compose-IsAdditive double-IsAdditive hf)
          (compose-IsAdditive parity-IsAdditive (compose-IsAdditive half-IsAdditive hg)))
        (compose-IsAdditive half-IsAdditive hg)).splits;
}

pub mirror-IsAdditive : IsAdditive mirror
unfolding mirror
mirror-IsAdditive = record {
  splits = (mirror_loop-IsAdditive 15 parity-IsAdditive (record { splits = λ x y. refl })).splits;
}

zero_fields : (left ret e : ℕ) → mirror_loop left ret (e * 2 ^ suc left) ≡ mirror_loop left ret 0
unfolding mirror_loop
zero_fields zero ret e = refl
zero_fields (suc left) ret e =
    ap₂ (λ b n. mirror_loop left (bit_xor (ret * 2) b) n)
      (omega (arith, field (suc left), field left)) (omega (arith, field (suc left)))
    ∙ zero_fields left (bit_xor (ret * 2) 0) e
  where
    field : (k : ℕ) → e * 2 ^ suc k ≡ 2 * (e * 2 ^ k)
    field k = omega (arith, ap (λ (t : ℕ). e * t) (pow-suc 2 k))

-- The mirror has the low 16 bits.
pub mirror_low : (x : ℕ) → mirror x ≡ mirror (x % 65536)
unfolding mirror mirror_loop
mirror_low x =
    ap mirror (sym (split_words x))
    ∙ mirror-IsAdditive.splits (x / 65536 * 65536) (x % 65536)
    ∙ ap (λ t. bit_xor t (mirror (x % 65536))) (high (x / 65536))
    ∙ zero-bit_xor (mirror (x % 65536))
  where
    high : (e : ℕ) → mirror (e * 65536) ≡ 0
    high e = ap (λ b. mirror_loop 15 b (e * 65536)) even ∙ zero_fields 15 0 e
      where
        even : e * 65536 % 2 ≡ 0
        even = omega arith

mirrored_shifts :
    all_below
      (λ b.
        (mirror (shift_left b) == shift_right (mirror b))
        && (mirror (shift_left (b * 256)) == shift_right (mirror (b * 256))))
      256
    ≡ true
unfolding all_below mirror shift_left shift_right
mirrored_shifts = refl

-- The two registers run alike.
pub mirror-shift_left : (x : ℕ) → x < 65536 → mirror (shift_left x) ≡ shift_right (mirror x)
mirror-shift_left =
    agree (compose-IsAdditive mirror-IsAdditive shift_left-IsAdditive)
      (compose-IsAdditive shift_right-IsAdditive mirror-IsAdditive) mirrored_shifts

byte_shifts :
    all_below
      (λ b. (times 8 shift_right b == get_or table b 0) && (times 8 shift_right (b * 256) == b))
      256
    ≡ true
unfolding all_below times shift_right
byte_shifts = refl

-- Eight shifts of the mirrored register are a step by the table of 256.
pub shifts-table :
    (x : ℕ) → x < 65536 → times 8 shift_right x ≡ bit_xor (get_or table (x % 256) 0) (x / 256)
shifts-table x h =
    ap (times 8 shift_right) (sym (split_bytes x))
    ∙ (times-IsAdditive 8 shift_right-IsAdditive).splits (x / 256 * 256) (x % 256)
    ∙ ap₂ bit_xor (at (x / 256) (omega arith)).1 (at (x % 256) (omega arith)).0
    ∙ bit_xor_comm (x / 256) (get_or table (x % 256) 0)
  where
    at :
        (b : ℕ)
        → b < 256
        → (times 8 shift_right b ≡ get_or table b 0) × (times 8 shift_right (b * 256) ≡ b)
    at b lt = both (at_each _ 256 byte_shifts b lt)
      where
        both :
            ((times 8 shift_right b == get_or table b 0) && (times 8 shift_right (b * 256) == b))
              ≡ true
            → (times 8 shift_right b ≡ get_or table b 0) × (times 8 shift_right (b * 256) ≡ b)
        both e = ground arith

-- The mirrored register with the bits of `d` put in at its low end, the low one first.
unfoldable pub steps : ℕ → ℕ → ℕ → ℕ
steps zero r d = r
steps (suc k) r d = steps k (shift_right (bit_xor r (d % 2))) (d / 2)

-- An even number shifts to its half.
shift_right_even : (e : ℕ) → shift_right (e * 2) ≡ e
unfolding shift_right
shift_right_even e = ap₂ bit_xor half none ∙ bit_xor-zero e
  where
    half : e * 2 / 2 ≡ e
    half = omega arith

    none : e * 2 % 2 * 0xa6bc ≡ 0
    none = omega arith

split_low : (d : ℕ) → d ≡ bit_xor (d % 2) (d / 2 * 2)
split_low d =
    omega (arith, bit_xor_step (d % 2) (d / 2 * 2), zero-bit_xor (d / 2), ap₂ bit_xor gone halved)
  where
    gone : d % 2 / 2 ≡ 0
    gone = omega arith

    halved : d / 2 * 2 / 2 ≡ d / 2
    halved = omega arith

-- A digit behind a doubled number.
pub bit_xor_digit : (r b : ℕ) → b < 2 → bit_xor (r * 2) b ≡ r * 2 + b
bit_xor_digit r b h =
    omega (arith, bit_xor_step (r * 2) b, bit_xor-zero r, ap₂ bit_xor undoubled gone)
  where
    undoubled : r * 2 / 2 ≡ r
    undoubled = omega arith

    gone : b / 2 ≡ 0
    gone = omega arith

pub bit_or_digit : (r b : ℕ) → b < 2 → bit_or (r * 2) b ≡ r * 2 + b
bit_or_digit r b h = omega (arith, bit_or_step (r * 2) b, bit_or-zero r, ap₂ bit_or undoubled gone)
  where
    undoubled : r * 2 / 2 ≡ r
    undoubled = omega arith

    gone : b / 2 ≡ 0
    gone = omega arith

-- All the bits may be put in before the shifts.
steps-times : (k r d : ℕ) → d < 2 ^ k → steps k r d ≡ times k shift_right (bit_xor r d)
unfolding steps times
steps-times zero r zero h = sym (bit_xor-zero r)
steps-times zero r (suc d) h = absurd (omega arith)
steps-times (suc k) r d h =
    steps-times k (shift_right (bit_xor r (d % 2))) (d / 2) (omega (arith, pow-suc 2 k))
    ∙ ap (times k shift_right) (
        ap (bit_xor (shift_right (bit_xor r (d % 2)))) (sym (shift_right_even (d / 2)))
        ∙ sym (shift_right-IsAdditive.splits (bit_xor r (d % 2)) (d / 2 * 2))
        ∙ ap shift_right (bit_xor_assoc r (d % 2) (d / 2 * 2) ∙ ap (bit_xor r) (sym (split_low d))))

pub times-byte_step :
    (r d : ℕ) → r < 65536 → d < 256 → times 8 shift_right (bit_xor r d) ≡ byte_step r d
unfolding byte_step
times-byte_step r d hr hd =
    shifts-table (bit_xor r d) (bit_xor-lt_pow 16 r d hr (omega arith))
    ∙ ap₂ (λ i t. bit_xor (get_or table i 0) t) index rest
  where
    index : bit_xor r d % 256 ≡ bit_xor d (u8 r)
    index = bit_xor_low8 r d ∙ ap (bit_xor (r % 256)) small ∙ bit_xor_comm (r % 256) d
      where
        small : d % 256 ≡ d
        small = omega arith

    rest : bit_xor r d / 256 ≡ r / 256
    rest = bit_xor_shift8 r d ∙ ap (bit_xor (r / 256)) gone ∙ bit_xor-zero (r / 256)
      where
        gone : d / 256 ≡ 0
        gone = omega arith

pub steps-byte_step : (r d : ℕ) → r < 65536 → d < 256 → steps 8 r d ≡ byte_step r d
steps-byte_step r d hr hd = steps-times 8 r d hd ∙ times-byte_step r d hr hd

-- A byte at the high end is a byte at the low end eight shifts later.
pub times-high_byte : (d : ℕ) → d < 256 → times 8 shift_right (d * 256) ≡ d
times-high_byte d h = high (at_each _ 256 byte_shifts d h)
  where
    high :
        ((times 8 shift_right d == get_or table d 0) && (times 8 shift_right (d * 256) == d)) ≡ true
        → times 8 shift_right (d * 256) ≡ d
    high e = ground arith
