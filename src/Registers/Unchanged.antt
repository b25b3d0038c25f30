-- ===== src/Registers/Unchanged.antt =====
-- What a message handler cannot change: the registers, unless the command is 'w'; and for any
-- command what no register points to.
use ascii_serial_com_c.Prelude.{
  ℕ, ◌≡◌, ◌≢◌, refl, ◌∙◌, sym, ap, Bool, true, false, not, Option, none, some, get_elem?, ltb, leb,
  ◌==◌, ◌&&◌, if◌then◌else◌, M, Outcome, continue_kept, either, length, ◌+◌, ◌*◌, arith, Bool-cases,
  inl, inr,
}
use ascii_serial_com_c.Asc.{or_fault}
use ascii_serial_com_c.Hex.{convert_hex_to_uint16}
use ascii_serial_com_c.Hex.Pure.{convert_hex_to_uint16_kept}
use ascii_serial_com_c.Registers.{RegWidth, width_bytes, put_reg_val, Call}
use ascii_serial_com_c.Registers.Pointers.{
  Registers, RegisterPointers, reg_val, read_register, access, handle_with, handle_for,
  handle_message,
}

abbrev state_of : Call Registers → Registers
state_of call = call.state

or_fault_kept : {S A : Type 0} (o : Option A) (s : S) → (or_fault o s).1 ≡ s
or_fault_kept none s = refl
or_fault_kept (some a) s = refl

if_kept :
    {S A T : Type 0} (f : S → T) (t : T) (b : Bool) (m n : M S A) (s : S)
    → (b ≡ true → f (m s).1 ≡ t)
    → (b ≡ false → f (n s).1 ≡ t)
    → f ((if b then m else n) s).1 ≡ t
if_kept f t true m n s h k = h refl
if_kept f t false m n s h k = k refl

pub put_reg_val_kept :
    {St : Type 0} (w : RegWidth) (x : ℕ) (call : Call St)
    → (put_reg_val w x call).1.state ≡ call.state
unfolding put_reg_val
put_reg_val_kept {St} w x call =
    either (λ (r : Outcome (Unit {0}) × Call St). r.1.state ≡ call.state)
      (ltb (length call.bytes) (5 + width_bytes w * 2)) refl refl

module _ (w : RegWidth) (rp : RegisterPointers) (v a c data_len : ℕ) where
  read_register_kept :
      (pointer : Option ℕ) (call : Call Registers)
      → (read_register w rp v a c data_len pointer call).1.state ≡ call.state
  unfolding read_register
  read_register_kept pointer call =
      continue_kept state_of call.state (put_reg_val w (reg_val pointer call.state.memory) call) _
        (put_reg_val_kept w (reg_val pointer call.state.memory) call) (λ done call' e. e)

  access_kept :
      (reg_num : ℕ) (call : Call Registers)
      → (c == b'r') ≡ true
      → (access w rp v a c data_len reg_num call).1.state ≡ call.state
  unfolding access
  access_kept reg_num call reads = elim (Bool-cases (leb rp.n_regs reg_num)) [
    | inl out ↦ rw out refl
    | inr inside ↦
        rw (inside, reads)
          (continue_kept state_of call.state (or_fault (get_elem? rp.pointers reg_num) call) _
            (ap state_of (or_fault_kept (get_elem? rp.pointers reg_num) call))
            (λ pointer call' e. read_register_kept pointer call' ∙ e))
  ]

  handle_with_kept :
      (call : Call Registers)
      → (c == b'w') ≡ false
      → (handle_with w rp v a c data_len call).1.state ≡ call.state
  unfolding handle_with
  handle_with_kept call other =
      if_kept state_of call.state (not (c == b'r') && not (c == b'w')) _ _ call (λ bad. refl)
        (λ good.
          if_kept state_of call.state (ltb data_len 4) _ _ call (λ short. refl)
            (λ long.
              continue_kept state_of call.state (convert_hex_to_uint16 0 call.bytes call) _
                (ap state_of (convert_hex_to_uint16_kept 0 call.bytes call))
                (λ reg_num call' e.
                  access_kept reg_num call' (reads (c == b'r') (c == b'w') good other) ∙ e)))
    where
      reads : (r w' : Bool) → (not r && not w') ≡ false → w' ≡ false → r ≡ true
      reads true w' h h' = refl
      reads false true h h' = sym h'
      reads false false h h' = sym h

handle_for_kept :
    (w : RegWidth) (o : Option RegisterPointers) (v a c data_len : ℕ) (call : Call Registers)
    → (c == b'w') ≡ false
    → (handle_for w o v a c data_len call).1.state ≡ call.state
unfolding handle_for
handle_for_kept w none v a c data_len call other = refl
handle_for_kept w (some rp) v a c data_len call other =
    handle_with_kept w rp v a c data_len call other

-- On any data and any state, a message whose command is not 'w' changes neither the memory nor the
-- table of the register pointers, however the handler returns.
pub handle_message_unchanged :
    (w : RegWidth) (v a c data_len : ℕ) (call : Call Registers)
    → c ≢ b'w'
    → (handle_message w v a c data_len call).1.state ≡ call.state
unfolding handle_message
handle_message_unchanged w v a c data_len call ne =
    handle_for_kept w call.state.register_pointers v a c data_len call (ground arith)
