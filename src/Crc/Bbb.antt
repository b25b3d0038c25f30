-- ===== src/Crc/Bbb.antt =====
-- crc_16_dnp_bbb.c and .h: bit by bit, the message's bits shifted in at the low end, with sixteen
-- more shifts at the end.
use ascii_serial_com_c.Prelude.{
  ℕ, zero, suc, ◌+◌, ◌-◌, ◌*◌, ◌/◌, ◌^◌, bit_and, bit_or, bit_xor, not, List, [], ◌∷◌, ◌==◌, u8,
  if◌then◌else◌,
}
use ascii_serial_com_c.Crc.FastWidth.{FastWidth, fast}

-- `for (i = 1; i < data_len; i++)`, with that many rounds to go.
unfoldable pub reflect_loop : FastWidth → ℕ → ℕ → ℕ → ℕ
reflect_loop w zero ret bits = ret
reflect_loop w (suc left) ret bits =
    let next = bits / 2 in reflect_loop w left (bit_or (fast w (ret * 2)) (bit_and next 0x01)) next

unfoldable pub reflect : FastWidth → ℕ → ℕ → ℕ
unfolding reflect_loop
reflect w bits data_len = reflect_loop w (data_len - 1) (bit_and bits 0x01) bits

unfoldable pub init : ℕ
init = 0x0000

-- One round of the loop over the bits.
unfoldable pub update_bit : FastWidth → ℕ → ℕ → ℕ → ℕ
update_bit w c i crc =
    let bit = not (bit_and crc 0x8000 == 0) in
    let shifted = bit_or (fast w (crc * 2)) (bit_and (c / 2 ^ (7 - i)) 0x01) in
    if bit then bit_xor shifted 0x3d65 else shifted

-- `for (i = 0; i < 8; i++)`, with that many rounds to go from `i` on.
unfoldable pub update_bits : FastWidth → ℕ → ℕ → ℕ → ℕ → ℕ
update_bits w zero c i crc = crc
update_bits w (suc left) c i crc = update_bits w left c (i + 1) (update_bit w c i crc)

unfoldable pub update_loop : FastWidth → ℕ → List ℕ → ℕ
update_loop w crc [] = crc
update_loop w crc (d ∷ bytes) =
    let c = u8 (reflect w d 8) in update_loop w (bit_and (update_bits w 8 c 0 crc) 0xffff) bytes

-- `bytes` are the `data_len` bytes at `data`.
unfoldable pub update : FastWidth → ℕ → List ℕ → ℕ
unfolding update_loop update_bits update_bit reflect
update w crc bytes = bit_and (update_loop w crc bytes) 0xffff

-- The loop of finalize, with that many rounds to go.
unfoldable pub shift_loop : FastWidth → ℕ → ℕ → ℕ
shift_loop w zero crc = crc
shift_loop w (suc left) crc =
    let bit = not (bit_and crc 0x8000 == 0) in
    let shifted = fast w (crc * 2) in
    shift_loop w left (if bit then bit_xor shifted 0x3d65 else shifted)

unfoldable pub finalize : FastWidth → ℕ → ℕ
unfolding shift_loop reflect
finalize w crc = bit_and (bit_xor (reflect w (shift_loop w 16 crc) 16) 0xffff) 0xffff
