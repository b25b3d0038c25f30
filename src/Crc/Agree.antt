-- ===== src/Crc/Agree.antt =====
-- The table-driven implementations compute the same: the step of a byte by two nibbles is the step
-- by the table of 256.
use ascii_serial_com_c.Prelude.{
  ℕ, ◌/◌, ◌%◌, ◌<◌, bit_and, bit_xor, ◌≡◌, refl, ◌∙◌, sym, ap, ap₂, true, List, [], ◌∷◌, ◌++◌,
  get_or, ◌==◌, ltb, ==_iff, ltb→lt, u8, arith, all_below, at_each,
}
use ascii_serial_com_c.Bits.{
  bit_and_mask, bit_xor_comm, bit_xor_assoc, bit_xor_shift4, bit_xor_low4, bit_xor_low8,
  bit_xor-lt_pow,
}
use ascii_serial_com_c.Crc.Tbl4bit
use ascii_serial_com_c.Crc.Tbl4bit.{crc_table, update_byte, update_loop}
use ascii_serial_com_c.Crc.Crcmod.{table, byte_step, byte_steps, compute_crc_16_dnp}

-- Every byte of a list is below 256.
abbrev pub IsBytes : List ℕ → Type 0
IsBytes [] = Unit
IsBytes (x ∷ q) = (x < 256) × IsBytes q

abbrev entry : ℕ → ℕ
entry y = get_or crc_table y 0

-- The large table from the small one.
abbrev from_nibbles : ℕ → ℕ
from_nibbles y = bit_xor (entry (bit_xor (entry (y % 16) % 16) (y / 16))) (entry (y % 16) / 16)

tables_agree : all_below (λ y. get_or table y 0 == from_nibbles y) 256 ≡ true
unfolding all_below
tables_agree = refl

table_bounded : all_below (λ y. ltb (get_or table y 0) 65536) 256 ≡ true
unfolding all_below
table_bounded = refl

table-from_nibbles : (y : ℕ) → y < 256 → get_or table y 0 ≡ from_nibbles y
table-from_nibbles y h = (==_iff _ _).0 (at_each _ 256 tables_agree y h)

table-lt : (y : ℕ) → y < 256 → get_or table y 0 < 65536
table-lt y h = ltb→lt _ _ (at_each _ 256 table_bounded y h)

module _ (crc d : ℕ) (small : d < 256) where
  x : ℕ
  x = bit_xor crc d

  -- The index into the large table.
  index_lem : bit_xor d (u8 crc) ≡ x % 256
  unfolding x
  index_lem = omega (arith, bit_xor_low8 crc d, bit_xor_comm d (crc % 256), d_small)
    where
      d_small : bit_xor (crc % 256) (d % 256) ≡ bit_xor (crc % 256) d
      d_small = ap (bit_xor (crc % 256)) (omega arith)

  low_nibble : ℕ
  low_nibble = entry (x % 16)

  half_lem : bit_xor (entry (bit_and x 0x0f)) (crc / 16) ≡ bit_xor low_nibble (crc / 16)
  unfolding low_nibble
  half_lem = ap (λ i. bit_xor (entry i) (crc / 16)) (bit_and_mask 4 x)

  second_index :
      bit_and (bit_xor (bit_xor low_nibble (crc / 16)) (d / 16)) 0x0f
      ≡ bit_xor (low_nibble % 16) (x / 16 % 16)
  unfolding x
  second_index =
      bit_and_mask 4 (bit_xor (bit_xor low_nibble (crc / 16)) (d / 16))
      ∙ ap (λ t. t % 16)
          (bit_xor_assoc low_nibble (crc / 16) (d / 16)
            ∙ ap (bit_xor low_nibble) (sym (bit_xor_shift4 crc d)))
      ∙ bit_xor_low4 low_nibble (bit_xor crc d / 16)

  half_shifted : bit_xor low_nibble (crc / 16) / 16 ≡ bit_xor (low_nibble / 16) (crc / 256)
  half_shifted = bit_xor_shift4 low_nibble (crc / 16) ∙ ap (bit_xor (low_nibble / 16)) (omega arith)

  -- Two nibbles by the small table are one byte by the large one.
  pub update_byte-byte_step : update_byte crc d ≡ byte_step crc d
  unfolding update_byte byte_step x low_nibble
  update_byte-byte_step =
      ap (λ h. bit_xor (entry (bit_and (bit_xor h (d / 16)) 0x0f)) (h / 16)) half_lem
      ∙ ap₂ (λ i t. bit_xor (entry i) t) second_index half_shifted
      ∙ sym (
          bit_xor_assoc (entry (bit_xor (low_nibble % 16) (x / 16 % 16))) (low_nibble / 16)
            (crc / 256))
      ∙ ap (λ t. bit_xor t (crc / 256)) (by_table ∙ ap (λ i. get_or table i 0) (sym index_lem))
    where
      by_table :
          bit_xor (entry (bit_xor (low_nibble % 16) (x / 16 % 16))) (low_nibble / 16)
          ≡ get_or table (x % 256) 0
      by_table = sym (
          table-from_nibbles (x % 256) (omega arith)
          ∙ ap₂ (λ i j. bit_xor (entry (bit_xor (entry i % 16) j)) (entry i / 16)) (omega arith)
              (omega arith))

  pub byte_step-lt : crc < 65536 → byte_step crc d < 65536
  unfolding byte_step
  byte_step-lt h =
      bit_xor-lt_pow 16 (get_or table (bit_xor d (u8 crc)) 0) (crc / 256)
        (table-lt (bit_xor d (u8 crc)) (omega (arith, index_lem))) (omega arith)

update_loop-byte_steps :
    (bytes : List ℕ) (crc : ℕ) → IsBytes bytes → update_loop crc bytes ≡ byte_steps crc bytes
unfolding update_loop byte_steps
update_loop-byte_steps [] crc h = refl
update_loop-byte_steps (d ∷ bytes) crc h =
    rw (update_byte-byte_step crc d h.0) (update_loop-byte_steps bytes (byte_step crc d) h.1)

pub byte_steps-lt :
    (bytes : List ℕ) (crc : ℕ) → IsBytes bytes → crc < 65536 → byte_steps crc bytes < 65536
unfolding byte_steps
byte_steps-lt [] crc h lt = lt
byte_steps-lt (d ∷ bytes) crc h lt =
    byte_steps-lt bytes (byte_step crc d) h.1 (byte_step-lt crc d h.0 lt)

-- A started checksum is continued by both alike.
pub update-byte_steps :
    (bytes : List ℕ) (crc : ℕ)
    → IsBytes bytes
    → crc < 65536
    → Tbl4bit.update crc bytes ≡ byte_steps crc bytes
unfolding Tbl4bit.update
update-byte_steps bytes crc h lt =
    bit_and_mask 16 (update_loop crc bytes)
    ∙ ap (λ t. t % 65536) (update_loop-byte_steps bytes crc h)
    ∙ omega (arith, byte_steps-lt bytes crc h lt)

-- On every message of bytes the checksum with the table of 16 entries, from its initial value to
-- its final one, is the one with the table of 256 entries started at 0xffff.
pub tbl4bit-crcmod :
    (bytes : List ℕ)
    → IsBytes bytes
    → Tbl4bit.finalize (Tbl4bit.update Tbl4bit.init bytes) ≡ compute_crc_16_dnp bytes 0xffff
unfolding Tbl4bit.finalize Tbl4bit.init compute_crc_16_dnp
tbl4bit-crcmod bytes h = ap (λ t. bit_xor t 0xffff) (update-byte_steps bytes 0 h (omega arith))

pub byte_steps-append :
    (p q : List ℕ) (crc : ℕ) → byte_steps crc (p ++ q) ≡ byte_steps (byte_steps crc p) q
unfolding byte_steps
byte_steps-append [] q crc = refl
byte_steps-append (d ∷ p) q crc = byte_steps-append p q (byte_step crc d)

pub IsBytes-append : (p q : List ℕ) → IsBytes (p ++ q) → IsBytes p × IsBytes q
IsBytes-append [] q h = (tt, h)
IsBytes-append (x ∷ p) q h = let (hp, hq) = IsBytes-append p q h.1 in ((h.0, hp), hq)

-- From any 16-bit value, updating the checksum with one list of bytes and then with another is
-- updating it with the two joined.
pub update-append :
    (p q : List ℕ) (crc : ℕ)
    → IsBytes (p ++ q)
    → crc < 65536
    → Tbl4bit.update (Tbl4bit.update crc p) q ≡ Tbl4bit.update crc (p ++ q)
update-append p q crc h lt =
    let (hp, hq) = IsBytes-append p q h in
    ap (λ c. Tbl4bit.update c q) (update-byte_steps p crc hp lt)
    ∙ update-byte_steps q (byte_steps crc p) hq (byte_steps-lt p crc hp lt)
    ∙ sym (byte_steps-append p q crc)
    ∙ sym (update-byte_steps (p ++ q) crc h lt)
