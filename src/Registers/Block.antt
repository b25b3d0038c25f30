-- ===== src/Registers/Block.antt =====
-- ascii_serial_com_register_block.c: registers in one block of memory.
use ascii_serial_com_c.Prelude.{
  ℕ, ◌+◌, ◌*◌, not, List, Option, none, some, get_elem?, set, length, ltb, leb, ◌==◌, ◌&&◌,
  if◌then◌else◌, M, ◌>>=◌, ◌>>◌, pure, gets, throw_if, ok, throw, fault, reg_block_null,
  unexpected_command, data_too_short, regnum_oob, regval_len,
}
use ascii_serial_com_c.Asc.{put_message_in_output_buffer, or_fault}
use ascii_serial_com_c.Hex.{convert_hex_to_uint16}
use ascii_serial_com_c.Registers.{
  RegWidth, width_bytes, put_reg_val, get_val_from_bytes, Call, on_asc, Handler,
}

pub record RegisterBlock : Type 0 where
  pub block : List ℕ
  pub n_regs : ℕ

unfoldable pub init : List ℕ → ℕ → RegisterBlock → RegisterBlock
init block n_regs state = record state { block = block; n_regs = n_regs }

module _ (w : RegWidth) (rb : RegisterBlock) where
  -- The answer to 'r' is put into the data.
  unfoldable pub read_register : ℕ → M (Call (Option RegisterBlock)) ℕ
  read_register reg_num = do
    reg_val ← or_fault (get_elem? rb.block reg_num)
    put_reg_val w reg_val
    pure (5 + width_bytes w * 2)

  -- `register_block_state->block[reg_num] = new_reg_val;`
  unfoldable pub store : ℕ → ℕ → M (Call (Option RegisterBlock)) (Unit {0})
  store reg_num new_reg_val call =
      if ltb reg_num (length rb.block)
      then (
        ok tt,
        record call { state = some (record rb { block = set rb.block reg_num new_reg_val }) },
      )
      else (fault, call)

  unfoldable pub write_register : ℕ → ℕ → M (Call (Option RegisterBlock)) ℕ
  unfolding store
  write_register reg_num data_len = do
    throw_if (ltb data_len (5 + width_bytes w)) regval_len
    bytes ← gets (λ call. call.bytes)
    new_reg_val ← get_val_from_bytes w 5 bytes
    store reg_num new_reg_val
    pure 4

  -- The function after the check of the pointer to its state.
  unfoldable pub handle_with : Handler (Option RegisterBlock)
  unfolding read_register write_register
  handle_with asc_version app_version command data_len = do
    throw_if (not (command == b'r') && not (command == b'w')) unexpected_command
    throw_if (ltb data_len 4) data_too_short
    bytes ← gets (λ call. call.bytes)
    reg_num ← convert_hex_to_uint16 0 bytes
    throw_if (leb rb.n_regs reg_num) regnum_oob
    data_len' ← if command == b'r' then read_register reg_num else write_register reg_num data_len
    bytes' ← gets (λ call. call.bytes)
    on_asc (put_message_in_output_buffer asc_version app_version command bytes' data_len')

unfoldable pub handle_message : RegWidth → Handler (Option RegisterBlock)
unfolding handle_with
handle_message w asc_version app_version command data_len call = elim call.state [
  | none ↦ (throw reg_block_null, call)
  | some rb ↦ handle_with w rb asc_version app_version command data_len call
]
