-- ===== src/Crc/Reflected.antt =====
-- bit-by-bit-fast computes the mirror image of the table-driven implementations' register.
use ascii_serial_com_c.Prelude.{
  ℕ, zero, suc, ◌+◌, ◌*◌, ◌/◌, ◌%◌, ◌^◌, ◌≤◌, ◌<◌, bit_and, bit_or, bit_xor, ◌≡◌, refl, ◌∙◌, sym,
  ap, ap₂, true, false, not, Bool, ◌==◌, List, [], ◌∷◌, if◌then◌else◌, arith,
}
use native.Mathlib.Nat.{div-div-eq-div-mul, pow-suc, one-le-pow, pow-le-pow_right}
use mathlib.Core.Path.{subst}
use ascii_serial_com_c.Bits.{bit_and_pow, bit_and_mask, bit_xor_low16, bit_xor-zero, bit_xor_assoc}
use ascii_serial_com_c.Crc.FastWidth.{FastWidth, fast, fast_low, fast_small}
use ascii_serial_com_c.Crc.Register.{
  shift_left, shift_right, mirror_loop, mirror, mirror-IsAdditive, shift_right-IsAdditive,
  mirror-shift_left, steps, steps-byte_step, bit_xor_digit, bit_or_digit,
}
use ascii_serial_com_c.Crc.Agree.{IsBytes, byte_step-lt}
use ascii_serial_com_c.Crc.Crcmod.{byte_step, byte_steps, compute_crc_16_dnp}
use ascii_serial_com_c.Crc.Bbf

abbrev pub num : Bool → ℕ
num true = 1
num false = 0

-- The test of the highest of the 16 bits.
pub top_lem : (crc : ℕ) → num (not (bit_and crc 0x8000 == 0)) ≡ crc % 65536 / 32768 % 2
top_lem crc = ground (arith, bit_and_pow 15 crc)

-- The polynomial, or not, in the low 16 bits.
pub if_low :
    (b : Bool) (s : ℕ)
    → (if b then bit_xor s 0x3d65 else s) % 65536 ≡ bit_xor (s % 65536) (num b * 0x3d65)
if_low true s = bit_xor_low16 s 0x3d65
if_low false s = sym (bit_xor-zero (s % 65536))

pub shifted_low : (w : FastWidth) (crc : ℕ) → fast w (crc * 2) % 65536 ≡ crc % 65536 * 2 % 65536
shifted_low w crc = omega (arith, fast_low w (crc * 2))

toggled :
    (b t : Bool) → num (if b then not t else t) * 0x3d65 ≡ bit_xor (num t * 0x3d65) (num b * 0x3d65)
toggled true true = refl
toggled true false = refl
toggled false true = refl
toggled false false = refl

-- One round of the code, in the low 16 bits.
pub update_bit_lem :
    (w : FastWidth) (c i crc : ℕ)
    → Bbf.update_bit w c i crc % 65536
      ≡ bit_xor (shift_left (crc % 65536)) (num (not (bit_and c i == 0)) * 0x3d65)
unfolding Bbf.update_bit shift_left
update_bit_lem w c i crc =
    if_low (if b then not top else top) (fast w (crc * 2))
    ∙ ap₂ bit_xor (shifted_low w crc)
        (toggled b top ∙ ap (λ t. bit_xor (t * 0x3d65) (num b * 0x3d65)) (top_lem crc))
    ∙ sym (bit_xor_assoc _ _ _)
  where
    b : Bool
    b = not (bit_and c i == 0)

    top : Bool
    top = not (bit_and crc 0x8000 == 0)

mirrored_poly : (b : Bool) → mirror (num b * 0x3d65) ≡ shift_right (num b)
unfolding mirror shift_right
mirrored_poly true = refl
mirrored_poly false = refl

-- The mirrored register after one round, for the bit `b`.
pub mirror-round :
    (x : ℕ) (b : Bool)
    → x < 65536
    → mirror (bit_xor (shift_left x) (num b * 0x3d65)) ≡ shift_right (bit_xor (mirror x) (num b))
mirror-round x b h =
    mirror-IsAdditive.splits (shift_left x) (num b * 0x3d65)
    ∙ ap₂ bit_xor (mirror-shift_left x h) (mirrored_poly b)
    ∙ sym (shift_right-IsAdditive.splits (mirror x) (num b))

-- The bit that the mask 2^j selects.
pub selected : (d j : ℕ) → num (not (bit_and d (2 ^ j) == 0)) ≡ d / 2 ^ j % 2
selected d j = ground (arith, bit_and_pow j d, one-le-pow j 2)

module _ (w : FastWidth) (d : ℕ) where
  mirror-update_bit :
      (j crc : ℕ)
      → mirror (Bbf.update_bit w d (2 ^ j) crc % 65536)
        ≡ shift_right (bit_xor (mirror (crc % 65536)) (d / 2 ^ j % 2))
  mirror-update_bit j crc =
      ap mirror (update_bit_lem w d (2 ^ j) crc)
      ∙ mirror-round (crc % 65536) (not (bit_and d (2 ^ j) == 0)) (omega arith)
      ∙ ap (λ n. shift_right (bit_xor (mirror (crc % 65536)) n)) (selected d j)

  pub goes_on : (j : ℕ) → j < 8 → (bit_and (2 ^ j) 0xff == 0) ≡ false
  goes_on j h = ground (
    arith,
    bit_and_mask 8 (2 ^ j),
    one-le-pow j 2,
    pow-le-pow_right {n = 2} (omega arith) {i = j} {j = 7} (omega arith),
  )

  -- The loop over the bits from the mask 2^j on.
  update_bits-steps :
      (left j crc : ℕ)
      → j + left ≡ 8
      → mirror (Bbf.update_bits w (suc left) d (2 ^ j) crc % 65536)
        ≡ steps left (mirror (crc % 65536)) (d / 2 ^ j)
  unfolding Bbf.update_bits steps
  update_bits-steps zero j crc e = let last : j ≡ 8 = omega arith in rw last refl
  update_bits-steps (suc left) j crc e = rw (goes_on j (omega arith)) (
      ap (λ i. mirror (Bbf.update_bits w (suc left) d i (Bbf.update_bit w d (2 ^ j) crc) % 65536))
        next
      ∙ update_bits-steps left (suc j) (Bbf.update_bit w d (2 ^ j) crc) (omega arith)
      ∙ ap₂ (steps left) (mirror-update_bit j crc) halved)
    where
      next : 2 ^ j * 2 ≡ 2 ^ suc j
      next = omega (arith, pow-suc 2 j)

      halved : d / 2 ^ suc j ≡ d / 2 ^ j / 2
      halved = ap (λ t. d / t) (sym next) ∙ sym (div-div-eq-div-mul d (2 ^ j) 2)

update_loop-byte_steps :
    (w : FastWidth) (bytes : List ℕ) (crc : ℕ)
    → IsBytes bytes
    → mirror (crc % 65536) < 65536
    → mirror (Bbf.update_loop w crc bytes % 65536) ≡ byte_steps (mirror (crc % 65536)) bytes
unfolding Bbf.update_loop byte_steps
update_loop-byte_steps w [] crc h lt = refl
update_loop-byte_steps w (d ∷ bytes) crc h lt =
    update_loop-byte_steps w bytes (bit_and (Bbf.update_bits w 9 d 1 crc) 0xffff) h.1
      (subst (λ t. t < 65536) (sym byte) (byte_step-lt (mirror (crc % 65536)) d h.0 lt))
    ∙ ap (λ r. byte_steps r bytes) byte
  where
    masked :
        bit_and (Bbf.update_bits w 9 d 1 crc) 0xffff % 65536 ≡ Bbf.update_bits w 9 d 1 crc % 65536
    masked = omega (arith, bit_and_mask 16 (Bbf.update_bits w 9 d 1 crc))

    whole : d / 2 ^ 0 ≡ d
    whole = omega arith

    byte :
        mirror (bit_and (Bbf.update_bits w 9 d 1 crc) 0xffff % 65536)
        ≡ byte_step (mirror (crc % 65536)) d
    byte =
        ap mirror masked
        ∙ update_bits-steps w d 8 0 crc refl
        ∙ ap (steps 8 (mirror (crc % 65536))) whole
        ∙ steps-byte_step (mirror (crc % 65536)) d lt h.0

-- The code's reflection is the mirror, at any width.
reflect_loop-mirror_loop :
    (w : FastWidth) (left j ret bits : ℕ)
    → j + left ≤ 16
    → ret < 2 ^ j
    → Bbf.reflect_loop w left ret bits ≡ mirror_loop left ret bits
unfolding Bbf.reflect_loop mirror_loop
reflect_loop-mirror_loop w zero j ret bits h lt = refl
reflect_loop-mirror_loop w (suc left) j ret bits h lt =
    ap (λ r. Bbf.reflect_loop w left r (bits / 2)) digit
    ∙ reflect_loop-mirror_loop w left (suc j) (bit_xor (ret * 2) (bits / 2 % 2)) (bits / 2)
        (omega arith) (omega (arith, pow-suc 2 j, value))
  where
    value : bit_xor (ret * 2) (bits / 2 % 2) ≡ ret * 2 + bits / 2 % 2
    value = bit_xor_digit ret (bits / 2 % 2) (omega arith)

    digit : bit_or (fast w (ret * 2)) (bit_and (bits / 2) 0x01) ≡ bit_xor (ret * 2) (bits / 2 % 2)
    digit =
        ap₂ bit_or
          (fast_small w (ret * 2) (
            omega (
              arith,
              pow-suc 2 j,
              pow-le-pow_right {n = 2} (omega arith) {i = suc j} {j = 16} (omega arith),
            )))
          (bit_and_mask 1 (bits / 2))
        ∙ bit_or_digit ret (bits / 2 % 2) (omega arith)
        ∙ sym value

pub reflect-mirror : (w : FastWidth) (x : ℕ) → Bbf.reflect w x 16 ≡ mirror x
unfolding Bbf.reflect mirror
reflect-mirror w x =
    reflect_loop-mirror_loop w 15 1 (bit_and x 1) x (omega arith) (omega (arith, bit_and_mask 1 x))
    ∙ ap (λ r. mirror_loop 15 r x) (bit_and_mask 1 x)

pub reflect-mirror_loop : (w : FastWidth) (x : ℕ) → Bbf.reflect w x 8 ≡ mirror_loop 7 (x % 2) x
unfolding Bbf.reflect
reflect-mirror_loop w x =
    reflect_loop-mirror_loop w 7 1 (bit_and x 1) x (omega arith) (omega (arith, bit_and_mask 1 x))
    ∙ ap (λ r. mirror_loop 7 r x) (bit_and_mask 1 x)

zero_mirrored : mirror 0 ≡ 0
unfolding mirror
zero_mirrored = refl

pub mirror-update_loop :
    (w : FastWidth) (bytes : List ℕ)
    → IsBytes bytes
    → mirror (Bbf.update_loop w 0 bytes % 65536) ≡ byte_steps 0 bytes
mirror-update_loop w bytes h =
    update_loop-byte_steps w bytes 0 h (omega (arith, zero_mirrored))
    ∙ ap (λ r. byte_steps r bytes) zero_mirrored

-- For every width of the checksum's type and every message of bytes, the checksum bit by bit with
-- the bits added at the high end, from its initial value to its final one, is the one with the
-- table of 256 entries started at 0xffff.
pub bbf-crcmod :
    (w : FastWidth) (bytes : List ℕ)
    → IsBytes bytes
    → Bbf.finalize w (Bbf.update w Bbf.init bytes) ≡ compute_crc_16_dnp bytes 0xffff
unfolding Bbf.finalize Bbf.update Bbf.init compute_crc_16_dnp
bbf-crcmod w bytes h =
    ap (λ t. bit_xor t 0xffff)
      (reflect-mirror w (bit_and (Bbf.update_loop w 0 bytes) 0xffff)
        ∙ ap mirror (bit_and_mask 16 (Bbf.update_loop w 0 bytes))
        ∙ mirror-update_loop w bytes h)
