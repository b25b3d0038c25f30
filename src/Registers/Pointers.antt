-- ===== src/Registers/Pointers.antt =====
-- ascii_serial_com_register_pointers.c: registers anywhere in memory, with write masks.
-- A pointer is `none` or an address; two registers may have the same one. The memory is a function
-- of the address.
use ascii_serial_com_c.Prelude.{
  ℕ, ◌+◌, ◌*◌, ◌-◌, ◌^◌, not, List, Option, none, some, get_elem?, ltb, leb, ◌==◌, ◌&&◌,
  if◌then◌else◌, bit_and, bit_or, M, ◌>>=◌, ◌>>◌, gets, modify, ok, AscException, reg_block_null,
  unexpected_command, data_too_short, regnum_oob, regval_len,
}
use ascii_serial_com_c.Asc.{put_message_in_output_buffer, put_error_in_output_buffer, or_fault}
use ascii_serial_com_c.Hex.{convert_hex_to_uint16}
use ascii_serial_com_c.Registers.{
  RegWidth, width_bytes, width_bits, put_reg_val, get_val_from_bytes, Call, on_asc, Handler,
}

pub record RegisterPointers : Type 0 where
  pub pointers : List (Option ℕ)
  pub write_masks : List ℕ
  pub n_regs : ℕ

unfoldable pub init : List (Option ℕ) → List ℕ → ℕ → RegisterPointers → RegisterPointers
init pointers write_masks n_regs state = record state {
  pointers = pointers;
  write_masks = write_masks;
  n_regs = n_regs;
}

-- The state behind the `void *`, and the memory that its pointers point to.
pub record Registers : Type 0 where
  pub register_pointers : Option RegisterPointers
  pub memory : ℕ → ℕ

-- `(new_reg_val & mask) | (*pointer & ~mask)` on registers of that many bits.
unfoldable pub masked : ℕ → ℕ → ℕ → ℕ → ℕ
masked bits new_reg_val mask old =
    bit_or (bit_and new_reg_val mask) (bit_and old (2 ^ bits - 1 - mask))

abbrev pub store : (ℕ → ℕ) → ℕ → ℕ → ℕ → ℕ
store memory address value other = if other == address then value else memory other

-- `REGTYPE reg_val = 0; if (pointer) reg_val = *pointer;`
abbrev pub reg_val : Option ℕ → (ℕ → ℕ) → ℕ
reg_val none memory = 0
reg_val (some address) memory = memory address

module _ (w : RegWidth) (rp : RegisterPointers) (asc_version app_version command data_len : ℕ) where
  abbrev put_error : AscException → M (Call Registers) (Unit {0})
  put_error error call =
      on_asc (put_error_in_output_buffer asc_version app_version command call.bytes data_len error)
        call

  abbrev reply : ℕ → M (Call Registers) (Unit {0})
  reply len call =
      on_asc (put_message_in_output_buffer asc_version app_version command call.bytes len) call

  unfoldable pub read_register : Option ℕ → M (Call Registers) (Unit {0})
  read_register pointer = do
    memory ← gets (λ call. call.state.memory)
    put_reg_val w (reg_val pointer memory)
    reply (5 + width_bytes w * 2)

  -- The assignment under `if (pointer)`.
  unfoldable pub write_pointer : ℕ → Option ℕ → M (Call Registers) (Unit {0})
  unfolding masked
  write_pointer reg_num none call = (ok tt, call)
  write_pointer reg_num (some address) call =
      (do
        new_reg_val ← get_val_from_bytes w 5 call.bytes
        mask ← or_fault (get_elem? rp.write_masks reg_num)
        modify λ call'. record call' {
          state = record (call'.state) {
            memory =
                store call'.state.memory address
                  (masked (width_bits w) new_reg_val mask (call'.state.memory address));
          };
        })
        call

  unfoldable pub write_register : ℕ → Option ℕ → M (Call Registers) (Unit {0})
  unfolding write_pointer
  write_register reg_num pointer =
      if ltb data_len (5 + width_bytes w)
      then put_error regval_len
      else (do write_pointer reg_num pointer; reply 4)

  -- With the number of a register.
  unfoldable pub access : ℕ → M (Call Registers) (Unit {0})
  unfolding read_register write_register
  access reg_num = if leb rp.n_regs reg_num then put_error regnum_oob else (do
    pointer ← or_fault (get_elem? rp.pointers reg_num)
    if command == b'r' then read_register pointer else write_register reg_num pointer)

  -- The function after the check of the pointer to its state.
  unfoldable pub handle_with : M (Call Registers) (Unit {0})
  unfolding access
  handle_with =
      if not (command == b'r') && not (command == b'w')
      then put_error unexpected_command
      else if ltb data_len 4
      then put_error data_too_short
      else (do
        bytes ← gets (λ call. call.bytes)
        reg_num ← convert_hex_to_uint16 0 bytes
        access reg_num)

-- The function on the pointer to its state.
unfoldable pub handle_for : RegWidth → Option RegisterPointers → Handler Registers
unfolding handle_with
handle_for w none asc_version app_version command data_len call =
    on_asc
      (put_error_in_output_buffer asc_version app_version command call.bytes data_len
        reg_block_null)
      call
handle_for w (some rp) asc_version app_version command data_len call =
    handle_with w rp asc_version app_version command data_len call

unfoldable pub handle_message : RegWidth → Handler Registers
unfolding handle_for
handle_message w asc_version app_version command data_len call =
    handle_for w call.state.register_pointers asc_version app_version command data_len call
