-- ===== src/Crc/Bbf.antt =====
-- crc_16_dnp_bbf.c and .h: bit by bit, the message's bits added at the high end.
use ascii_serial_com_c.Prelude.{
  ℕ, zero, suc, ◌-◌, ◌*◌, ◌/◌, bit_and, bit_or, bit_xor, not, List, [], ◌∷◌, ◌==◌, if◌then◌else◌,
}
use ascii_serial_com_c.Crc.FastWidth.{FastWidth, fast}

-- `for (i = 1; i < data_len; i++)`, with that many rounds to go.
unfoldable pub reflect_loop : FastWidth → ℕ → ℕ → ℕ → ℕ
reflect_loop w zero ret bits = ret
reflect_loop w (suc left) ret bits =
    reflect_loop w left (bit_or (fast w (ret * 2)) (bit_and (bits / 2) 0x01)) (bits / 2)

unfoldable pub reflect : FastWidth → ℕ → ℕ → ℕ
unfolding reflect_loop
reflect w bits data_len = reflect_loop w (data_len - 1) (bit_and bits 0x01) bits

unfoldable pub init : ℕ
init = 0x0000

-- One round of the loop over the bits, for the mask `i`.
unfoldable pub update_bit : FastWidth → ℕ → ℕ → ℕ → ℕ
update_bit w c i crc =
    let top = not (bit_and crc 0x8000 == 0) in
    let bit = if not (bit_and c i == 0) then not top else top in
    let shifted = fast w (crc * 2) in if bit then bit_xor shifted 0x3d65 else shifted

-- `for (i = 0x01; i & 0xff; i <<= 1)`; the ninth test fails.
unfoldable pub update_bits : FastWidth → ℕ → ℕ → ℕ → ℕ → ℕ
update_bits w zero c i crc = crc
update_bits w (suc fuel) c i crc =
    let rest = update_bits w fuel c (i * 2) (update_bit w c i crc) in
    if bit_and i 0xff == 0 then crc else rest

unfoldable pub update_loop : FastWidth → ℕ → List ℕ → ℕ
update_loop w crc [] = crc
update_loop w crc (d ∷ bytes) = update_loop w (bit_and (update_bits w 9 d 0x01 crc) 0xffff) bytes

-- `bytes` are the `data_len` bytes at `data`.
unfoldable pub update : FastWidth → ℕ → List ℕ → ℕ
unfolding update_loop update_bits update_bit
update w crc bytes = bit_and (update_loop w crc bytes) 0xffff

unfoldable pub finalize : FastWidth → ℕ → ℕ
unfolding reflect
finalize w crc = bit_xor (reflect w crc 16) 0xffff
