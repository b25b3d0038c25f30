-- ===== src/Crc/Detects.antt =====
-- What the checksum detects: its register loses nothing, so a change of two adjacent bytes shows.
use ascii_serial_com_c.Prelude.{
  ℕ, zero, suc, ◌+◌, ◌*◌, ◌/◌, ◌%◌, ◌<◌, bit_xor, ◌≡◌, ◌≢◌, ◌∙◌, sym, ap, ap₂, List, [], ◌∷◌, ◌++◌,
  arith,
}
use ascii_serial_com_c.Bits.{
  bit_xor_cancel, bit_xor-is_zero, bit_xor_comm, bit_xor_assoc, bit_xor_self, bit_xor-lt_pow,
}
use ascii_serial_com_c.Crc.Additive.{split_bytes}
use ascii_serial_com_c.Crc.Register.{
  shift_right, times, shift_right-IsAdditive, times-IsAdditive, times-byte_step, times-high_byte,
}
use ascii_serial_com_c.Crc.Tbl4bit
use ascii_serial_com_c.Crc.Crcmod.{byte_step, byte_steps}
use ascii_serial_com_c.Crc.Agree.{
  IsBytes, IsBytes-append, byte_steps-append, byte_steps-lt, byte_step-lt, update-byte_steps,
}

shift_right-lt : (z : ℕ) → z < 65536 → shift_right z < 65536
unfolding shift_right
shift_right-lt z h = bit_xor-lt_pow 16 (z / 2) (z % 2 * 0xa6bc) (omega arith) (omega arith)

times-lt : (n z : ℕ) → z < 65536 → times n shift_right z < 65536
unfolding times
times-lt zero z h = h
times-lt (suc n) z h = times-lt n (shift_right z) (shift_right-lt z h)

shift_right-is_zero : (z : ℕ) → z < 65536 → shift_right z ≡ 0 → z ≡ 0
unfolding shift_right
shift_right-is_zero z h e = omega (arith, bit_xor-is_zero (z / 2) (z % 2 * 0xa6bc) e)

times-is_zero : (n z : ℕ) → z < 65536 → times n shift_right z ≡ 0 → z ≡ 0
unfolding times
times-is_zero zero z h e = e
times-is_zero (suc n) z h e =
    shift_right-is_zero z h (times-is_zero n (shift_right z) (shift_right-lt z h) e)

times-injective :
    (n x y : ℕ) → x < 65536 → y < 65536 → times n shift_right x ≡ times n shift_right y → x ≡ y
times-injective n x y hx hy e = bit_xor-is_zero x y (
    times-is_zero n (bit_xor x y) (bit_xor-lt_pow 16 x y hx hy) (
      (times-IsAdditive n shift_right-IsAdditive).splits x y
      ∙ ap (λ t. bit_xor t (times n shift_right y)) e
      ∙ bit_xor_self (times n shift_right y)))

byte_step-injective :
    (r s d : ℕ) → r < 65536 → s < 65536 → d < 256 → byte_step r d ≡ byte_step s d → r ≡ s
byte_step-injective r s d hr hs hd e = bit_xor_cancel d r s (
    bit_xor_comm d r
    ∙ times-injective 8 (bit_xor r d) (bit_xor s d) (bit_xor-lt_pow 16 r d hr (omega arith))
        (bit_xor-lt_pow 16 s d hs (omega arith))
        (times-byte_step r d hr hd ∙ e ∙ sym (times-byte_step s d hs hd))
    ∙ bit_xor_comm s d)

byte_steps-injective :
    (bytes : List ℕ) (r s : ℕ)
    → IsBytes bytes
    → r < 65536
    → s < 65536
    → byte_steps r bytes ≡ byte_steps s bytes
    → r ≡ s
unfolding byte_steps
byte_steps-injective [] r s h hr hs e = e
byte_steps-injective (d ∷ bytes) r s h hr hs e = byte_step-injective r s d hr hs h.0 (
    byte_steps-injective bytes (byte_step r d) (byte_step s d) h.1 (byte_step-lt r d h.0 hr)
      (byte_step-lt s d h.0 hs) e)

-- Two bytes as one field of sixteen bits, eight shifts before the second is put in.
two_bytes :
    (r x y : ℕ)
    → r < 65536
    → x < 256
    → y < 256
    → times 8 shift_right (times 8 shift_right (bit_xor r (bit_xor x (y * 256))))
      ≡ byte_step (byte_step r x) y
two_bytes r x y hr hx hy =
    ap (times 8 shift_right) (
      ap (times 8 shift_right) (sym (bit_xor_assoc r x (y * 256)))
      ∙ (times-IsAdditive 8 shift_right-IsAdditive).splits (bit_xor r x) (y * 256)
      ∙ ap₂ bit_xor (times-byte_step r x hr hx) (times-high_byte y hy))
    ∙ times-byte_step (byte_step r x) y (byte_step-lt r x hx hr) hy

as_field : (x y : ℕ) → x < 256 → bit_xor x (y * 256) ≡ y * 256 + x
as_field x y h =
    bit_xor_comm x (y * 256) ∙ ap₂ bit_xor (ap (λ t. t * 256) high) low ∙ split_bytes (y * 256 + x)
  where
    high : y ≡ (y * 256 + x) / 256
    high = omega arith

    low : x ≡ (y * 256 + x) % 256
    low = omega arith

same_bytes :
    (x y x' y' : ℕ)
    → x < 256
    → x' < 256
    → bit_xor x (y * 256) ≡ bit_xor x' (y' * 256)
    → (x ≡ x') × (y ≡ y')
same_bytes x y x' y' hx hx' e = (omega (arith, whole), omega (arith, whole))
  where
    whole : y * 256 + x ≡ y' * 256 + x'
    whole = sym (as_field x y hx) ∙ e ∙ as_field x' y' hx'

-- From the same register, two bytes lead to the same register only if they are the same.
two_steps-injective :
    (r x y x' y' : ℕ)
    → r < 65536
    → x < 256
    → y < 256
    → x' < 256
    → y' < 256
    → byte_step (byte_step r x) y ≡ byte_step (byte_step r x') y'
    → (x ≡ x') × (y ≡ y')
two_steps-injective r x y x' y' hr hx hy hx' hy' e = same_bytes x y x' y' hx hx' (
    bit_xor_cancel r (bit_xor x (y * 256)) (bit_xor x' (y' * 256)) (
      times-injective 8 (put_in x y) (put_in x' y') (in_range x y hx hy) (in_range x' y' hx' hy') (
        times-injective 8 (times 8 shift_right (put_in x y)) (times 8 shift_right (put_in x' y'))
          (times-lt 8 (put_in x y) (in_range x y hx hy))
          (times-lt 8 (put_in x' y') (in_range x' y' hx' hy'))
          (two_bytes r x y hr hx hy ∙ e ∙ sym (two_bytes r x' y' hr hx' hy')))))
  where
    put_in : ℕ → ℕ → ℕ
    put_in a b = bit_xor r (bit_xor a (b * 256))

    in_range : (a b : ℕ) → a < 256 → b < 256 → put_in a b < 65536
    in_range a b ha hb =
        bit_xor-lt_pow 16 r (bit_xor a (b * 256)) hr (omega (arith, as_field a b ha))

finalize-injective : (r s : ℕ) → Tbl4bit.finalize r ≡ Tbl4bit.finalize s → r ≡ s
unfolding Tbl4bit.finalize
finalize-injective r s e =
    bit_xor_cancel 0xffff r s (bit_xor_comm 0xffff r ∙ e ∙ bit_xor_comm s 0xffff)

-- The same checksum, the same bytes.
checksum-injective :
    (p q : List ℕ) (x y x' y' : ℕ)
    → IsBytes (p ++ (x ∷ y ∷ q))
    → IsBytes (p ++ (x' ∷ y' ∷ q))
    → Tbl4bit.finalize (Tbl4bit.update Tbl4bit.init (p ++ (x ∷ y ∷ q)))
      ≡ Tbl4bit.finalize (Tbl4bit.update Tbl4bit.init (p ++ (x' ∷ y' ∷ q)))
    → (x ≡ x') × (y ≡ y')
unfolding Tbl4bit.init byte_steps
checksum-injective p q x y x' y' h h' e =
    let (hp, (hx, (hy, hq))) = IsBytes-append p (x ∷ y ∷ q) h in
    let (hp', (hx', (hy', hq'))) = IsBytes-append p (x' ∷ y' ∷ q) h' in
    let r = byte_steps 0 p in
    let hr = byte_steps-lt p 0 hp (omega arith) in
    two_steps-injective r x y x' y' hr hx hy hx' hy' (
      byte_steps-injective q (byte_step (byte_step r x) y) (byte_step (byte_step r x') y') hq
        (byte_step-lt (byte_step r x) y hy (byte_step-lt r x hx hr))
        (byte_step-lt (byte_step r x') y' hy' (byte_step-lt r x' hx' hr))
        (sym (byte_steps-append p (x ∷ y ∷ q) 0)
          ∙ sym (update-byte_steps (p ++ (x ∷ y ∷ q)) 0 h (omega arith))
          ∙ finalize-injective _ _ e
          ∙ update-byte_steps (p ++ (x' ∷ y' ∷ q)) 0 h' (omega arith)
          ∙ byte_steps-append p (x' ∷ y' ∷ q) 0))

-- Two messages of bytes that are the same but for two adjacent bytes, of which at least one
-- differs, have different checksums.
pub checksum-detects :
    (p q : List ℕ) (x y x' y' : ℕ)
    → IsBytes (p ++ (x ∷ y ∷ q))
    → IsBytes (p ++ (x' ∷ y' ∷ q))
    → ¬ ((x ≡ x') × (y ≡ y'))
    → Tbl4bit.finalize (Tbl4bit.update Tbl4bit.init (p ++ (x ∷ y ∷ q)))
      ≢ Tbl4bit.finalize (Tbl4bit.update Tbl4bit.init (p ++ (x' ∷ y' ∷ q)))
checksum-detects p q x y x' y' h h' changed e = changed (checksum-injective p q x y x' y' h h' e)
