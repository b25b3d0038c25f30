-- ===== src/Prelude/SizeT.antt =====
-- Arithmetic of `size_t` at 64 bits, and of the narrower unsigned types.
use Prim.Native.Nat.{ℕ, ◌+◌, ◌-◌, ◌%◌, ◌^◌}

abbrev pub size_mod : ℕ
size_mod = 2 ^ 64

abbrev pub add_size : ℕ → ℕ → ℕ
add_size a b = (a + b) % size_mod

-- `-` on ℕ stops at 0, so the modulus is added first.
abbrev pub sub_size : ℕ → ℕ → ℕ
sub_size a b = (a + size_mod - b) % size_mod

-- (uint8_t)n and (uint16_t)n
abbrev pub u8 : ℕ → ℕ
u8 n = n % 2 ^ 8

abbrev pub u16 : ℕ → ℕ
u16 n = n % 2 ^ 16

-- `uint32_t`.
abbrev pub u32 : ℕ → ℕ
u32 n = n % 4294967296

abbrev pub sub_u32 : ℕ → ℕ → ℕ
sub_u32 a b = (a + (4294967296 - b)) % 4294967296
