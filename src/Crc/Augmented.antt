-- ===== src/Crc/Augmented.antt =====
-- bit-by-bit: sixteen more shifts bring its register to that of bit-by-bit-fast.
use ascii_serial_com_c.Prelude.{
  ℕ, zero, suc, ◌+◌, ◌-◌, ◌*◌, ◌/◌, ◌%◌, ◌^◌, ◌<◌, bit_and, bit_or, bit_xor, ◌≡◌, refl, ◌∙◌, sym,
  ap, ap₂, true, not, Bool, ◌==◌, List, [], ◌∷◌, arith, all_below, at_each, u8, ==_iff,
}
use native.Mathlib.Nat.{pow-suc}
use ascii_serial_com_c.Bits.{
  bit_and_mask, bit_xor_low16, bit_xor_comm, bit_xor_assoc, bit_xor-lt_pow,
}
use ascii_serial_com_c.Crc.FastWidth.{FastWidth, fast, fast_double}
use ascii_serial_com_c.Crc.Register.{
  shift_left, times, times-IsAdditive, shift_left-IsAdditive, mirror, mirror_loop, mirror_low,
  bit_or_digit, bit_xor_digit,
}
use ascii_serial_com_c.Crc.Reflected.{
  num, top_lem, if_low, shifted_low, reflect-mirror, reflect-mirror_loop, goes_on, selected,
  mirror-update_loop, bbf-crcmod,
}
use ascii_serial_com_c.Crc.Reflected
use ascii_serial_com_c.Crc.Agree.{IsBytes, byte_steps-lt}
use ascii_serial_com_c.Crc.Bbf
use ascii_serial_com_c.Crc.Crcmod.{byte_steps, compute_crc_16_dnp}
use ascii_serial_com_c.Crc.Bbb

-- One round, for the bit `b`.
update_bit_lem :
    (w : FastWidth) (c i crc : ℕ)
    → Bbb.update_bit w c i crc % 65536 ≡ bit_xor (shift_left (crc % 65536)) (c / 2 ^ (7 - i) % 2)
unfolding Bbb.update_bit shift_left
update_bit_lem w c i crc =
    if_low top (bit_or (fast w (crc * 2)) (bit_and (c / 2 ^ (7 - i)) 0x01))
    ∙ ap₂ bit_xor low (ap (λ t. t * 0x3d65) (top_lem crc))
    ∙ bit_xor_assoc (crc % 65536 * 2 % 65536) bit (crc % 65536 / 32768 % 2 * 0x3d65)
    ∙ ap (bit_xor (crc % 65536 * 2 % 65536)) (bit_xor_comm bit (crc % 65536 / 32768 % 2 * 0x3d65))
    ∙ sym (bit_xor_assoc (crc % 65536 * 2 % 65536) (crc % 65536 / 32768 % 2 * 0x3d65) bit)
  where
    top : Bool
    top = not (bit_and crc 0x8000 == 0)

    bit : ℕ
    bit = c / 2 ^ (7 - i) % 2

    even : ℕ
    even = fast w (crc * 2) / 2

    either :
        bit_or (fast w (crc * 2)) (bit_and (c / 2 ^ (7 - i)) 0x01) ≡ bit_xor (fast w (crc * 2)) bit
    either =
        ap₂ bit_or (fast_double w crc) (bit_and_mask 1 (c / 2 ^ (7 - i)))
        ∙ bit_or_digit even bit (omega arith)
        ∙ sym (bit_xor_digit even bit (omega arith))
        ∙ ap (λ t. bit_xor t bit) (sym (fast_double w crc))

    small : bit % 65536 ≡ bit
    small = omega arith

    low :
        bit_or (fast w (crc * 2)) (bit_and (c / 2 ^ (7 - i)) 0x01) % 65536
        ≡ bit_xor (crc % 65536 * 2 % 65536) bit
    low =
        ap (λ t. t % 65536) either
        ∙ bit_xor_low16 (fast w (crc * 2)) bit
        ∙ ap₂ bit_xor (shifted_low w crc) small

-- Sixteen shifts.
abbrev augmented : ℕ → ℕ
augmented x = times 16 shift_left x

times-commute : (n x : ℕ) → times n shift_left (shift_left x) ≡ shift_left (times n shift_left x)
unfolding times
times-commute zero x = refl
times-commute (suc n) x = times-commute n (shift_left x)

-- The bit itself becomes the polynomial.
augmented_bit : (b : ℕ) → b < 2 → augmented b ≡ b * 0x3d65
unfolding times shift_left
augmented_bit zero h = refl
augmented_bit (suc zero) h = refl
augmented_bit (suc (suc b)) h = absurd (omega arith)

augmented_zero : augmented (0 % 65536) ≡ 0 % 65536
augmented_zero = augmented_bit 0 (omega arith)

-- A bit put in at the low end has become one put in at the high end.
augmented-round :
    (x b : ℕ)
    → b < 2
    → augmented (bit_xor (shift_left x) b) ≡ bit_xor (shift_left (augmented x)) (b * 0x3d65)
augmented-round x b h =
    (times-IsAdditive 16 shift_left-IsAdditive).splits (shift_left x) b
    ∙ ap₂ bit_xor (times-commute 16 x) (augmented_bit b h)

-- The first digits of a byte, reflected, are its last.
reflected_bits :
    all_below
      (λ d. all_below (λ i. u8 (mirror_loop 7 (d % 2) d) / 2 ^ (7 - i) % 2 == d / 2 ^ i % 2) 8)
      256
    ≡ true
unfolding all_below mirror_loop
reflected_bits = refl

reflect_loop_lem :
    (w : FastWidth) (left ret bits : ℕ)
    → Bbb.reflect_loop w left ret bits ≡ Bbf.reflect_loop w left ret bits
unfolding Bbb.reflect_loop Bbf.reflect_loop
reflect_loop_lem w zero ret bits = refl
reflect_loop_lem w (suc left) ret bits =
    reflect_loop_lem w left (bit_or (fast w (ret * 2)) (bit_and (bits / 2) 0x01)) (bits / 2)

reflect_lem : (w : FastWidth) (bits n : ℕ) → Bbb.reflect w bits n ≡ Bbf.reflect w bits n
unfolding Bbb.reflect Bbf.reflect
reflect_lem w bits n = reflect_loop_lem w (n - 1) (bit_and bits 1) bits

-- The byte that the loop takes its bits from.
abbrev reversed : FastWidth → ℕ → ℕ
reversed w d = u8 (Bbb.reflect w d 8)

reversed_bit :
    (w : FastWidth) (d i : ℕ) → d < 256 → i < 8 → reversed w d / 2 ^ (7 - i) % 2 ≡ d / 2 ^ i % 2
reversed_bit w d i hd hi =
    ap (λ c. u8 c / 2 ^ (7 - i) % 2) (reflect_lem w d 8 ∙ reflect-mirror_loop w d)
    ∙ (==_iff _ _).0 (at_each _ 8 (at_each _ 256 reflected_bits d hd) i hi)

-- The loop over the bits from bit `i` on, beside that of bit-by-bit-fast.
update_bits_lem :
    (w : FastWidth) (d left i crc crc' : ℕ)
    → d < 256
    → i + left ≡ 8
    → augmented (crc % 65536) ≡ crc' % 65536
    → augmented (Bbb.update_bits w left (reversed w d) i crc % 65536)
      ≡ Bbf.update_bits w (suc left) d (2 ^ i) crc' % 65536
unfolding Bbb.update_bits Bbf.update_bits
update_bits_lem w d zero i crc crc' h e same = let last : i ≡ 8 = omega arith in rw last same
update_bits_lem w d (suc left) i crc crc' h e same = rw (goes_on w d i (omega arith)) (
    update_bits_lem w d left (i + 1) (Bbb.update_bit w (reversed w d) i crc)
      (Bbf.update_bit w d (2 ^ i) crc') h (omega arith) round
    ∙ ap (λ m. Bbf.update_bits w (suc left) d m (Bbf.update_bit w d (2 ^ i) crc') % 65536) next)
  where
    next : 2 ^ (i + 1) ≡ 2 ^ i * 2
    next = omega (arith, pow-suc 2 i, ap (λ k. 2 ^ k) one_more)
      where
        one_more : i + 1 ≡ suc i
        one_more = omega arith

    bit : ℕ
    bit = d / 2 ^ i % 2

    round :
        augmented (Bbb.update_bit w (reversed w d) i crc % 65536)
        ≡ Bbf.update_bit w d (2 ^ i) crc' % 65536
    round =
        ap augmented (
          update_bit_lem w (reversed w d) i crc
          ∙ ap (bit_xor (shift_left (crc % 65536))) (reversed_bit w d i h (omega arith)))
        ∙ augmented-round (crc % 65536) bit (omega arith)
        ∙ ap₂ (λ x n. bit_xor (shift_left x) (n * 0x3d65)) same (sym (selected d i))
        ∙ sym (Reflected.update_bit_lem w d (2 ^ i) crc')

update_loop_lem :
    (w : FastWidth) (bytes : List ℕ) (crc crc' : ℕ)
    → IsBytes bytes
    → augmented (crc % 65536) ≡ crc' % 65536
    → augmented (Bbb.update_loop w crc bytes % 65536) ≡ Bbf.update_loop w crc' bytes % 65536
unfolding Bbb.update_loop Bbf.update_loop
update_loop_lem w [] crc crc' h same = same
update_loop_lem w (d ∷ bytes) crc crc' h same =
    update_loop_lem w bytes (bit_and (Bbb.update_bits w 8 (reversed w d) 0 crc) 0xffff)
      (bit_and (Bbf.update_bits w 9 d 1 crc') 0xffff) h.1
      (ap augmented (masked (Bbb.update_bits w 8 (reversed w d) 0 crc))
        ∙ update_bits_lem w d 8 0 crc crc' h.0 refl same
        ∙ sym (masked (Bbf.update_bits w 9 d 1 crc')))
  where
    masked : (x : ℕ) → bit_and x 0xffff % 65536 ≡ x % 65536
    masked x = omega (arith, bit_and_mask 16 x)

shift_loop_lem :
    (w : FastWidth) (left crc : ℕ)
    → Bbb.shift_loop w left crc % 65536 ≡ times left shift_left (crc % 65536)
unfolding Bbb.shift_loop times shift_left
shift_loop_lem w zero crc = refl
shift_loop_lem w (suc left) crc =
    shift_loop_lem w left _
    ∙ ap (times left shift_left) (
        if_low (not (bit_and crc 0x8000 == 0)) (fast w (crc * 2))
        ∙ ap₂ (λ s t. bit_xor s (t * 0x3d65)) (shifted_low w crc) (top_lem crc))

bbb-crcmod :
    (w : FastWidth) (bytes : List ℕ)
    → IsBytes bytes
    → Bbb.finalize w (Bbb.update w Bbb.init bytes) ≡ compute_crc_16_dnp bytes 0xffff
unfolding Bbb.finalize Bbb.update Bbb.init compute_crc_16_dnp
bbb-crcmod w bytes h =
    bit_and_mask 16 (bit_xor (Bbb.reflect w shifted 16) 0xffff)
    ∙ ap (λ t. bit_xor t 0xffff % 65536) register
    ∙ omega (
      arith,
      bit_xor-lt_pow 16 (byte_steps 0 bytes) 0xffff (byte_steps-lt bytes 0 h (omega arith))
          (omega arith),
    )
  where
    shifted : ℕ
    shifted = Bbb.shift_loop w 16 (bit_and (Bbb.update_loop w 0 bytes) 0xffff)

    masked : bit_and (Bbb.update_loop w 0 bytes) 0xffff % 65536 ≡ Bbb.update_loop w 0 bytes % 65536
    masked = omega (arith, bit_and_mask 16 (Bbb.update_loop w 0 bytes))

    register : Bbb.reflect w shifted 16 ≡ byte_steps 0 bytes
    register =
        reflect_lem w shifted 16
        ∙ reflect-mirror w shifted
        ∙ mirror_low shifted
        ∙ ap mirror (
            shift_loop_lem w 16 (bit_and (Bbb.update_loop w 0 bytes) 0xffff)
            ∙ ap augmented masked
            ∙ update_loop_lem w bytes 0 0 h augmented_zero)
        ∙ mirror-update_loop w bytes h

-- For every width of the checksum's type and every message of bytes, the two checksums bit by bit,
-- with the bits added at the high end and with the bits shifted in at the low end, from their
-- initial value to their final one, are the one with the table of 256 entries started at 0xffff.
pub bit_by_bit-crcmod :
    (w : FastWidth) (bytes : List ℕ)
    → IsBytes bytes
    → (Bbf.finalize w (Bbf.update w Bbf.init bytes) ≡ compute_crc_16_dnp bytes 0xffff)
      × (Bbb.finalize w (Bbb.update w Bbb.init bytes) ≡ compute_crc_16_dnp bytes 0xffff)
bit_by_bit-crcmod w bytes h = (bbf-crcmod w bytes h, bbb-crcmod w bytes h)
