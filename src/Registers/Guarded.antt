-- ===== src/Registers/Guarded.antt =====
-- What the write masks guard: bits that no message can change.
use mathlib.Core.Path.{subst}
use ascii_serial_com_c.Prelude.{
  ℕ, ◌+◌, ◌≡◌, refl, ◌∙◌, sym, ap, not, Option, none, some, get_elem?, ltb, leb, ◌==◌, ◌&&◌,
  bit_and, arith, Bool-cases, M, continue, continue_invariant, if_invariant, List, inl, inr,
}
use ascii_serial_com_c.Asc.{or_fault}
use ascii_serial_com_c.Hex.{convert_hex_to_uint16}
use ascii_serial_com_c.Hex.Pure.{
  convert_hex_to_uint8_kept, convert_hex_to_uint16_kept, convert_hex_to_uint32_kept,
}
use ascii_serial_com_c.Registers.{
  RegWidth, width_bytes, width_bits, Call, put_reg_val, get_val_from_bytes,
}
use ascii_serial_com_c.Registers.Unchanged.{put_reg_val_kept}
use ascii_serial_com_c.Registers.Pointers.{
  reg_val, Registers, RegisterPointers, masked, store, read_register, write_pointer, write_register,
  access, handle_with, handle_for, handle_message,
}

-- The bits `fixed` of each address are outside the masks of the registers that point there.
unfoldable pub AreOutside : RegWidth → RegisterPointers → (ℕ → ℕ) → Type 0
AreOutside w rp fixed =
    (reg_num address mask : ℕ)
    → get_elem? rp.pointers reg_num ≡ some (some address)
    → get_elem? rp.write_masks reg_num ≡ some mask
    → (new old : ℕ)
    → bit_and (masked (width_bits w) new mask old) (fixed address) ≡ bit_and old (fixed address)

-- The table is `rp`, and the memory's bits `fixed` are those of `memory`.
pub record IsGuarded (rp : RegisterPointers) (fixed memory : ℕ → ℕ) (st : Registers) : Type 0 where
  pub table : st.register_pointers ≡ some rp
  pub kept :
      (address : ℕ)
      → bit_and (st.memory address) (fixed address) ≡ bit_and (memory address) (fixed address)

or_fault_invariant :
    {S A B : Type 0} (P : S → Type 0) (o : Option A) (s : S) (g : A → M S B)
    → P s
    → ((a : A) → o ≡ some a → P (g a s).1)
    → P (continue (or_fault o s) g).1
or_fault_invariant P none s g h k = h
or_fault_invariant P (some a) s g h k = k a refl

get_val_kept :
    {S : Type 0} (w : RegWidth) (b : ℕ) (bytes : List ℕ) (s : S)
    → (get_val_from_bytes w b bytes s).1 ≡ s
unfolding get_val_from_bytes
get_val_kept RegWidth.one b bytes s = convert_hex_to_uint8_kept b bytes s
get_val_kept RegWidth.two b bytes s = convert_hex_to_uint16_kept b bytes s
get_val_kept RegWidth.four b bytes s = convert_hex_to_uint32_kept b bytes s

store_kept :
    (fixed memory memory' : ℕ → ℕ) (address value other : ℕ)
    → bit_and value (fixed address) ≡ bit_and (memory' address) (fixed address)
    → bit_and (memory' other) (fixed other) ≡ bit_and (memory other) (fixed other)
    → bit_and (store memory' address value other) (fixed other)
      ≡ bit_and (memory other) (fixed other)
store_kept fixed memory memory' address value other h k = elim (Bool-cases (other == address)) [
  | inl same ↦
      let s : other ≡ address = ground arith in
      rw same (
        ap (λ t. bit_and value (fixed t)) s
        ∙ h
        ∙ ap (λ t. bit_and (memory' t) (fixed t)) (sym s)
        ∙ k)
  | inr ne ↦ rw ne k
]

module _ (w : RegWidth) (rp : RegisterPointers) (fixed memory : ℕ → ℕ)
    (outside : AreOutside w rp fixed) where
  abbrev Guards : Call Registers → Type 0
  Guards call = IsGuarded rp fixed memory call.state

  module _ (v a c data_len : ℕ) where
    write_pointer-Guards :
        (reg_num : ℕ) (pointer : Option ℕ) (call : Call Registers)
        → get_elem? rp.pointers reg_num ≡ some pointer
        → Guards call
        → Guards (write_pointer w rp v a c data_len reg_num pointer call).1
    unfolding write_pointer AreOutside
    write_pointer-Guards reg_num none call e g = g
    write_pointer-Guards reg_num (some address) call e g =
        continue_invariant Guards (get_val_from_bytes w 5 call.bytes call) _
          (subst Guards (sym (get_val_kept w 5 call.bytes call)) g)
          (λ new call' g'.
            or_fault_invariant Guards (get_elem? rp.write_masks reg_num) call' _ g' (λ mask m.
              record {
                table = g'.table;
                kept = λ other.
                    store_kept fixed memory call'.state.memory address _ other
                      (outside reg_num address mask e m new (call'.state.memory address))
                      (g'.kept other);
              }))

    write_register-Guards :
        (reg_num : ℕ) (pointer : Option ℕ) (call : Call Registers)
        → get_elem? rp.pointers reg_num ≡ some pointer
        → Guards call
        → Guards (write_register w rp v a c data_len reg_num pointer call).1
    unfolding write_register
    write_register-Guards reg_num pointer call e g =
        if_invariant Guards (ltb data_len (5 + width_bytes w)) _ _ call g (
          continue_invariant Guards (write_pointer w rp v a c data_len reg_num pointer call) _
            (write_pointer-Guards reg_num pointer call e g) (λ done call' g'. g'))

    read_register-Guards :
        (pointer : Option ℕ) (call : Call Registers)
        → Guards call
        → Guards (read_register w rp v a c data_len pointer call).1
    unfolding read_register
    read_register-Guards pointer call g =
        continue_invariant Guards (put_reg_val w (reg_val pointer call.state.memory) call) _
          (subst (IsGuarded rp fixed memory)
            (sym (put_reg_val_kept w (reg_val pointer call.state.memory) call)) g)
          (λ done call' g'. g')

    access-Guards :
        (reg_num : ℕ) (call : Call Registers)
        → Guards call
        → Guards (access w rp v a c data_len reg_num call).1
    unfolding access
    access-Guards reg_num call g = if_invariant Guards (leb rp.n_regs reg_num) _ _ call g (
        or_fault_invariant Guards (get_elem? rp.pointers reg_num) call _ g (λ pointer e.
          if_invariant Guards (c == b'r') _ _ call (read_register-Guards pointer call g)
            (write_register-Guards reg_num pointer call e g)))

    handle_with-Guards :
        (call : Call Registers) → Guards call → Guards (handle_with w rp v a c data_len call).1
    unfolding handle_with
    handle_with-Guards call g =
        if_invariant Guards (not (c == b'r') && not (c == b'w')) _ _ call g (
          if_invariant Guards (ltb data_len 4) _ _ call g (
            continue_invariant Guards (convert_hex_to_uint16 0 call.bytes call) _
              (subst Guards (sym (convert_hex_to_uint16_kept 0 call.bytes call)) g) access-Guards))

    handle_for-Guards :
        (o : Option RegisterPointers) (call : Call Registers)
        → o ≡ some rp
        → Guards call
        → Guards (handle_for w o v a c data_len call).1
    unfolding handle_for
    handle_for-Guards none call e g = g
    handle_for-Guards (some rp') call e g =
        let same : rp' ≡ rp = cc in rw same (handle_with-Guards call g)

    -- However the handler returns, a message of any command and data keeps the guarded bits and the
    -- table.
    pub handle_message-IsGuarded :
        (call : Call Registers)
        → IsGuarded rp fixed memory call.state
        → IsGuarded rp fixed memory (handle_message w v a c data_len call).1.state
    unfolding handle_message
    handle_message-IsGuarded call g = handle_for-Guards call.state.register_pointers call g.table g
