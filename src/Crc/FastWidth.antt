-- ===== src/Crc/FastWidth.antt =====
-- uint_fast16_t, in which the bit-by-bit implementations keep the checksum: 16 bits with avr-libc,
-- 32 with newlib on ARM and RISC-V, 64 with glibc.
use ascii_serial_com_c.Prelude.{ℕ, ◌*◌, ◌/◌, ◌%◌, ◌^◌, ◌<◌, ◌≡◌, arith}

pub data FastWidth : Type 0 where
  sixteen thirty_two sixty_four : FastWidth

-- A value assigned to such a variable.
abbrev pub fast : FastWidth → ℕ → ℕ
fast FastWidth.sixteen x = x % 2 ^ 16
fast FastWidth.thirty_two x = x % 2 ^ 32
fast FastWidth.sixty_four x = x % 2 ^ 64

-- No width loses the low 16 bits.
pub fast_low : (w : FastWidth) (x : ℕ) → fast w x % 65536 ≡ x % 65536
fast_low FastWidth.sixteen x = omega arith
fast_low FastWidth.thirty_two x = omega arith
fast_low FastWidth.sixty_four x = omega arith

pub fast_small : (w : FastWidth) (x : ℕ) → x < 65536 → fast w x ≡ x
fast_small FastWidth.sixteen x h = omega arith
fast_small FastWidth.thirty_two x h = omega arith
fast_small FastWidth.sixty_four x h = omega arith

-- A doubled value stays even.
pub fast_double : (w : FastWidth) (x : ℕ) → fast w (x * 2) ≡ fast w (x * 2) / 2 * 2
fast_double FastWidth.sixteen x = omega arith
fast_double FastWidth.thirty_two x = omega arith
fast_double FastWidth.sixty_four x = omega arith
