-- ===== src/Hex/Read32.antt =====
-- Eight digits are read as the 32-bit number whose digits they are.
use ascii_serial_com_c.Prelude.{
  ℕ, zero, suc, ◌+◌, ◌-◌, ◌*◌, ◌/◌, ◌%◌, ◌^◌, ◌≤◌, ◌<◌, ◌≡◌, ◌∙◌, ap, Bool, true, List, [], ◌∷◌,
  length, get_elem?, some, ok, arith, bit_or, Reads,
}
use ascii_serial_com_c.Bits.{bit_or_field_low}
use ascii_serial_com_c.Hex.{
  convert_hex_to_uint8, hex_to_bytes_loop, convert_hex_to_uint32, convert_uint32_to_hex,
}
use ascii_serial_com_c.Hex.Digits.{digits_of, put_all, put_all-Reads, convert_uint32_put}
use ascii_serial_com_c.Hex.RoundTrip.{digit, convert_hex_to_uint8_lem}

-- Two digits of a number in an array.
pub byte_read :
    {S : Type 0} (x k off : ℕ) (caps : Bool) (instr : List ℕ) (s : S)
    → get_elem? instr off ≡ some (digit x (suc k) caps)
    → get_elem? instr (off + 1) ≡ some (digit x k caps)
    → convert_hex_to_uint8 off instr s ≡ (ok (16 * (x / 16 ^ suc k % 16) + x / 16 ^ k % 16), s)
byte_read x k off caps instr s h l =
    convert_hex_to_uint8_lem (x / 16 ^ suc k % 16) (x / 16 ^ k % 16) off instr caps s (omega arith)
      (omega arith) h l
    ∙ ap (λ n. (ok n, s)) (omega arith)

-- One more byte above the bytes so far.
joined :
    (r b k : ℕ) → r < 2 ^ k → b * 2 ^ k + r < 2 ^ 32 → bit_or r (b * 2 ^ k) % 2 ^ 32 ≡ b * 2 ^ k + r
joined r b k h lt = omega (arith, bit_or_field_low k b r h)

module _ (x o : ℕ) (caps : Bool) where
  pub convert_hex_to_uint32_lem :
      {S : Type 0} (instr : List ℕ) (s : S)
      → x < 2 ^ 32
      → ((j : ℕ) → j < 8 → get_elem? instr (o + j) ≡ some (digit x (7 - j) caps))
      → convert_hex_to_uint32 o instr s ≡ (ok x, s)
  unfolding convert_hex_to_uint32 hex_to_bytes_loop
  convert_hex_to_uint32_lem {S} instr s lt at =
      rw (byte_0, byte_1, byte_2, byte_3) (ap (λ n. (ok n, s)) value)
    where
      reads : (i j : ℕ) → j < 8 → i ≡ o + j → get_elem? instr i ≡ some (digit x (7 - j) caps)
      reads i j h e = ap (get_elem? instr) e ∙ at j h

      byte_0 : convert_hex_to_uint8 (o + 6 - 0) instr s ≡ (ok (x % 256), s)
      byte_0 =
          byte_read x 0 (o + 6 - 0) caps instr s (reads (o + 6 - 0) 6 (omega arith) (omega arith))
            (reads (o + 6 - 0 + 1) 7 (omega arith) (omega arith))
          ∙ ap (λ n. (ok n, s)) (omega arith)

      byte_1 : convert_hex_to_uint8 (o + 6 - (0 + 1) * 2) instr s ≡ (ok (x / 256 % 256), s)
      byte_1 =
          byte_read x 2 (o + 6 - (0 + 1) * 2) caps instr s
            (reads (o + 6 - (0 + 1) * 2) 4 (omega arith) (omega arith))
            (reads (o + 6 - (0 + 1) * 2 + 1) 5 (omega arith) (omega arith))
          ∙ ap (λ n. (ok n, s)) (omega arith)

      byte_2 : convert_hex_to_uint8 (o + 6 - (0 + 1 + 1) * 2) instr s ≡ (ok (x / 65536 % 256), s)
      byte_2 =
          byte_read x 4 (o + 6 - (0 + 1 + 1) * 2) caps instr s
            (reads (o + 6 - (0 + 1 + 1) * 2) 2 (omega arith) (omega arith))
            (reads (o + 6 - (0 + 1 + 1) * 2 + 1) 3 (omega arith) (omega arith))
          ∙ ap (λ n. (ok n, s)) (omega arith)

      byte_3 : convert_hex_to_uint8 (o + 6 - (0 + 1 + 1 + 1) * 2) instr s ≡ (ok (x / 16777216), s)
      byte_3 =
          byte_read x 6 (o + 6 - (0 + 1 + 1 + 1) * 2) caps instr s
            (reads (o + 6 - (0 + 1 + 1 + 1) * 2) 0 (omega arith) (omega arith))
            (reads (o + 6 - (0 + 1 + 1 + 1) * 2 + 1) 1 (omega arith) (omega arith))
          ∙ ap (λ n. (ok n, s)) (omega arith)

      one_byte : bit_or 0 (x % 256 * 2 ^ 0) % 2 ^ 32 ≡ x % 256
      one_byte = joined 0 (x % 256) 0 (omega arith) (omega arith) ∙ omega arith

      two_bytes : bit_or (x % 256) (x / 256 % 256 * 2 ^ 8) % 2 ^ 32 ≡ x % 65536
      two_bytes = joined (x % 256) (x / 256 % 256) 8 (omega arith) (omega arith) ∙ omega arith

      three_bytes : bit_or (x % 65536) (x / 65536 % 256 * 2 ^ 16) % 2 ^ 32 ≡ x % 16777216
      three_bytes =
          joined (x % 65536) (x / 65536 % 256) 16 (omega arith) (omega arith) ∙ omega arith

      value :
          bit_or
              (bit_or
                  (bit_or (bit_or 0 (x % 256 * 2 ^ 0) % 2 ^ 32) (x / 256 % 256 * 2 ^ 8) % 2 ^ 32)
                  (x / 65536 % 256 * 2 ^ 16)
                % 2 ^ 32)
              (x / 16777216 * 2 ^ 24)
            % 2 ^ 32
          ≡ x
      value =
          rw (one_byte, two_bytes, three_bytes)
            (joined (x % 16777216) (x / 16777216) 24 (omega arith) (omega arith) ∙ omega arith)

pub Reads-at :
    (array : List ℕ) (i : ℕ) (xs : List ℕ) (j : ℕ)
    → Reads array i xs
    → j < length xs
    → get_elem? array (i + j) ≡ get_elem? xs j
Reads-at array i [] j h lt = elim lt [ ]
Reads-at array i (x ∷ xs) zero h lt = ap (get_elem? array) (omega arith) ∙ h.0
Reads-at array i (x ∷ xs) (suc j) h lt =
    ap (get_elem? array) next ∙ Reads-at array (suc i) xs j h.1 (omega arith)
  where
    next : i + suc j ≡ suc i + j
    next = omega arith

pub digits_of-at :
    (k x j : ℕ) → j < k → get_elem? (digits_of k x) j ≡ some (digit x (k - 1 - j) true)
digits_of-at zero x j h = elim h [ ]
digits_of-at (suc k) x zero h = ap (λ i. some (digit x i true)) (omega arith)
digits_of-at (suc k) x (suc j) h =
    digits_of-at k x j (omega arith) ∙ ap (λ i. some (digit x i true)) (omega arith)

pub read_digits32 :
    {S : Type 0} (x o : ℕ) (instr : List ℕ) (s : S)
    → x < 2 ^ 32
    → Reads instr o (digits_of 8 x)
    → convert_hex_to_uint32 o instr s ≡ (ok x, s)
read_digits32 x o instr s lt r =
    convert_hex_to_uint32_lem x o true instr s lt
      (λ j h. Reads-at instr o (digits_of 8 x) j r h ∙ digits_of-at 8 x j h)

-- A 32-bit number written in upper-case digits at any offset of an array with room for them is
-- read back from there.
pub hex32_round_trip :
    {S : Type 0} (x o : ℕ) (outstr : List ℕ) (s : S)
    → x < 2 ^ 32
    → o + 8 ≤ length outstr
    → convert_hex_to_uint32 o (convert_uint32_to_hex x o true outstr) s ≡ (ok x, s)
hex32_round_trip x o outstr s lt room = rw (convert_uint32_put x o outstr) (
    read_digits32 x o (put_all (digits_of 8 x) o outstr) s lt
      (put_all-Reads (digits_of 8 x) o outstr room))
