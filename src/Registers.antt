-- ===== src/Registers.antt =====
-- What ascii_serial_com_register_block.c and ascii_serial_com_register_pointers.c share: the width
-- of a register, its value as digits, and the arguments of a message handler.
pub mod Block
pub mod Pointers
pub mod WriteMask
pub mod Unchanged
pub mod Guarded
pub mod Reply
pub mod Requests
use ascii_serial_com_c.Prelude.{
  ℕ, ◌+◌, ◌*◌, ◌^◌, ◌-◌, Bool, true, List, Outcome, M, ltb, length, set, ok, fault, if◌then◌else◌,
}
use ascii_serial_com_c.Asc.{Asc}
use ascii_serial_com_c.Hex.{
  convert_uint8_to_hex, convert_uint16_to_hex, convert_uint32_to_hex, convert_hex_to_uint8,
  convert_hex_to_uint16, convert_hex_to_uint32,
}

-- REGWIDTHBYTES: the three values that the files provide for.
pub data RegWidth : Type 0 where
  one two four : RegWidth

abbrev pub width_bytes : RegWidth → ℕ
width_bytes RegWidth.one = 1
width_bytes RegWidth.two = 2
width_bytes RegWidth.four = 4

abbrev pub width_bits : RegWidth → ℕ
width_bits w = 8 * width_bytes w

unfoldable pub put_val_into_bytes : RegWidth → ℕ → ℕ → List ℕ → List ℕ
put_val_into_bytes RegWidth.one x b bytes = convert_uint8_to_hex x b true bytes
put_val_into_bytes RegWidth.two x b bytes = convert_uint16_to_hex x b true bytes
put_val_into_bytes RegWidth.four x b bytes = convert_uint32_to_hex x b true bytes

unfoldable pub get_val_from_bytes : {S : Type 0} → RegWidth → ℕ → List ℕ → M S ℕ
get_val_from_bytes RegWidth.one b bytes = convert_hex_to_uint8 b bytes
get_val_from_bytes RegWidth.two b bytes = convert_hex_to_uint16 b bytes
get_val_from_bytes RegWidth.four b bytes = convert_hex_to_uint32 b bytes

-- What a handler may change: the interface, the data of the message, and its own state.
pub record Call (St : Type 0) : Type 0 where
  pub asc : Asc
  pub bytes : List ℕ
  pub state : St

abbrev pub with_asc : {St A : Type 0} → Call St → Outcome A × Asc → Outcome A × Call St
with_asc call (r, asc) = (r, record call { asc = asc })

-- A call on the interface.
abbrev pub on_asc : {St A : Type 0} → M Asc A → M (Call St) A
on_asc m call = with_asc call (m call.asc)

-- `data[4] = ','; put_val_into_bytes(reg_val, data + 5);`. A write past the end of the data is a
-- `fault`.
unfoldable pub put_reg_val : {St : Type 0} → RegWidth → ℕ → M (Call St) (Unit {0})
unfolding put_val_into_bytes
put_reg_val w reg_val call =
    if ltb (length call.bytes) (5 + width_bytes w * 2)
    then (fault, call)
    else (ok tt, record call { bytes = put_val_into_bytes w reg_val 5 (set call.bytes 4 b',') })

-- A handler: the versions, the command and the length of the data.
abbrev pub Handler : Type 0 → Type 0
Handler St = ℕ → ℕ → ℕ → ℕ → M (Call St) (Unit {0})
