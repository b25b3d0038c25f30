-- ===== src/Hex.antt =====
-- ascii_serial_com.c: numbers to hexadecimal digits and back.
-- An array of characters is the list of their bytes; `outstr + k` is the array with the offset `k`.
-- `char` may be signed: a byte from 0x80 on then fails every range test, as it does here.
pub mod RoundTrips
pub mod RoundTrip
pub mod Pure
pub mod Digits
pub mod Read32
use ascii_serial_com_c.Prelude.{
  ℕ, zero, suc, ◌+◌, ◌-◌, ◌*◌, ◌/◌, ◌^◌, bit_and, bit_or, Bool, ◌&&◌, List, Option, none, some,
  get_elem?, set, ◌%◌, ltb, leb, if◌then◌else◌, M, ◌>>=◌, pure, ok, throw, fault, not_hex_char, u8,
}

pub nibble_char : ℕ → Bool → ℕ
nibble_char nibble caps =
    if ltb nibble 10 then 0x30 + nibble else if caps then 0x41 + nibble - 10 else 0x61 + nibble - 10

-- `left` rounds are to go, from `i` on.
pub uint8_to_hex_loop : ℕ → ℕ → ℕ → ℕ → Bool → List ℕ → List ℕ
uint8_to_hex_loop zero i num offset caps outstr = outstr
uint8_to_hex_loop (suc left) i num offset caps outstr =
    uint8_to_hex_loop left (i + 1) num offset caps
      (set outstr (offset + (1 - i)) (nibble_char (bit_and (num / 2 ^ (4 * i)) 0xf) caps))

unfoldable pub convert_uint8_to_hex : ℕ → ℕ → Bool → List ℕ → List ℕ
unfolding uint8_to_hex_loop nibble_char
convert_uint8_to_hex num = uint8_to_hex_loop 2 0 num

-- The loops of the wider conversions: `last` is the offset of the byte for i = 0.
pub bytes_to_hex_loop : ℕ → ℕ → ℕ → ℕ → Bool → List ℕ → List ℕ
bytes_to_hex_loop zero i num last caps outstr = outstr
bytes_to_hex_loop (suc left) i num last caps outstr =
    bytes_to_hex_loop left (i + 1) num last caps
      (convert_uint8_to_hex (bit_and (num / 2 ^ (8 * i)) 0xff) (last - i * 2) caps outstr)

unfoldable pub convert_uint16_to_hex : ℕ → ℕ → Bool → List ℕ → List ℕ
unfolding bytes_to_hex_loop convert_uint8_to_hex
convert_uint16_to_hex num offset = bytes_to_hex_loop 2 0 num (offset + 2)

unfoldable pub convert_uint32_to_hex : ℕ → ℕ → Bool → List ℕ → List ℕ
unfolding bytes_to_hex_loop convert_uint8_to_hex
convert_uint32_to_hex num offset = bytes_to_hex_loop 4 0 num (offset + 6)

-- The value of one digit, `none` for a character that is none.
pub char_nibble : ℕ → Option ℕ
char_nibble c =
    if leb 0x30 c && leb c 0x39
    then some (c - 0x30)
    else if leb 0x41 c && leb c 0x46
    then some (c - 0x41 + 10)
    else if leb 0x61 c && leb c 0x66
    then some (c - 0x61 + 10)
    else none

-- A read past the array is a `fault`.
pub hex_to_uint8_loop : {S : Type 0} → ℕ → ℕ → ℕ → ℕ → List ℕ → M S ℕ
hex_to_uint8_loop zero i result offset instr s = (ok result, s)
hex_to_uint8_loop (suc left) i result offset instr s = elim (get_elem? instr (offset + (1 - i))) [
  | none ↦ (fault, s)
  | some c ↦ elim (char_nibble c) [
    | none ↦ (throw not_hex_char, s)
    | some n ↦ hex_to_uint8_loop left (i + 1) (u8 (bit_or result (n * 2 ^ (i * 4)))) offset instr s
  ]
]

unfoldable pub convert_hex_to_uint8 : {S : Type 0} → ℕ → List ℕ → M S ℕ
unfolding hex_to_uint8_loop char_nibble
convert_hex_to_uint8 offset instr = hex_to_uint8_loop 2 0 0 offset instr

pub hex_to_bytes_loop : {S : Type 0} → ℕ → ℕ → ℕ → ℕ → ℕ → List ℕ → M S ℕ
hex_to_bytes_loop zero width i result last instr s = (ok result, s)
hex_to_bytes_loop (suc left) width i result last instr s =
    (do
      byte ← convert_hex_to_uint8 (last - i * 2) instr
      hex_to_bytes_loop left width (i + 1) (bit_or result (byte * 2 ^ (8 * i)) % 2 ^ width) last
          instr)
      s

unfoldable pub convert_hex_to_uint16 : {S : Type 0} → ℕ → List ℕ → M S ℕ
unfolding hex_to_bytes_loop convert_hex_to_uint8
convert_hex_to_uint16 offset instr = hex_to_bytes_loop 2 16 0 0 (offset + 2) instr

unfoldable pub convert_hex_to_uint32 : {S : Type 0} → ℕ → List ℕ → M S ℕ
unfolding hex_to_bytes_loop convert_hex_to_uint8
convert_hex_to_uint32 offset instr = hex_to_bytes_loop 4 32 0 0 (offset + 6) instr
