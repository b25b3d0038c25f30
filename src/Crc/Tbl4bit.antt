-- ===== src/Crc/Tbl4bit.antt =====
-- crc_16_dnp_tbl4bit.c and .h: a nibble at a time, by a table of 16 entries.
use ascii_serial_com_c.Prelude.{ℕ, ◌/◌, bit_and, bit_xor, List, [], ◌∷◌, get_or}

abbrev pub crc_table : List ℕ
crc_table =
    0x0000 ∷ 0xb26b ∷ 0x29af ∷ 0x9bc4 ∷ 0x535e ∷ 0xe135 ∷ 0x7af1 ∷ 0xc89a ∷ 0xa6bc ∷ 0x14d7 ∷ 0x8f13
    ∷ 0x3d78 ∷ 0xf5e2 ∷ 0x4789 ∷ 0xdc4d ∷ 0x6e26 ∷ []

unfoldable pub init : ℕ
init = 0x0000

-- One round of the loop over the bytes.
unfoldable pub update_byte : ℕ → ℕ → ℕ
update_byte crc d =
    let tbl_idx = bit_xor crc d in
    let half = bit_xor (get_or crc_table (bit_and tbl_idx 0x0f) 0) (crc / 16) in
    let tbl_idx' = bit_xor half (d / 16) in
    bit_xor (get_or crc_table (bit_and tbl_idx' 0x0f) 0) (half / 16)

unfoldable pub update_loop : ℕ → List ℕ → ℕ
update_loop crc [] = crc
update_loop crc (d ∷ bytes) = update_loop (update_byte crc d) bytes

-- `bytes` are the `data_len` bytes at `data`.
unfoldable pub update : ℕ → List ℕ → ℕ
unfolding update_loop update_byte
update crc bytes = bit_and (update_loop crc bytes) 0xffff

unfoldable pub finalize : ℕ → ℕ
finalize crc = bit_xor crc 0xffff
