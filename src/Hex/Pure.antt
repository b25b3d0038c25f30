-- ===== src/Hex/Pure.antt =====
-- Reading digits writes nothing.
use ascii_serial_com_c.Prelude.{
  ℕ, zero, suc, ◌+◌, ◌*◌, ◌-◌, ◌^◌, ◌≡◌, ◌∙◌, refl, List, get_elem?, continue_kept, Option-cases,
  inl, inr, bit_or, u8,
}
use ascii_serial_com_c.Hex.{
  char_nibble, hex_to_uint8_loop, convert_hex_to_uint8, hex_to_bytes_loop, convert_hex_to_uint16,
  convert_hex_to_uint32,
}

hex_to_uint8_loop_kept :
    {S : Type 0} (left i result offset : ℕ) (instr : List ℕ) (s : S)
    → (hex_to_uint8_loop left i result offset instr s).1 ≡ s
unfolding hex_to_uint8_loop
hex_to_uint8_loop_kept zero i result offset instr s = refl
hex_to_uint8_loop_kept (suc left) i result offset instr s =
    elim (Option-cases (get_elem? instr (offset + (1 - i)))) [
      | inl e ↦ rw (e, hex_to_uint8_loop) refl
      | inr (c, e) ↦ elim (Option-cases (char_nibble c)) [
        | inl e' ↦ rw (e, e', hex_to_uint8_loop) refl
        | inr (n, e') ↦
            rw (e, e', hex_to_uint8_loop)
              (hex_to_uint8_loop_kept left (i + 1) (u8 (bit_or result (n * 2 ^ (i * 4)))) offset
                instr s)
      ]
    ]

pub convert_hex_to_uint8_kept :
    {S : Type 0} (offset : ℕ) (instr : List ℕ) (s : S) → (convert_hex_to_uint8 offset instr s).1 ≡ s
unfolding convert_hex_to_uint8
convert_hex_to_uint8_kept offset instr s = hex_to_uint8_loop_kept 2 0 0 offset instr s

hex_to_bytes_loop_kept :
    {S : Type 0} (left width i result last : ℕ) (instr : List ℕ) (s : S)
    → (hex_to_bytes_loop left width i result last instr s).1 ≡ s
unfolding hex_to_bytes_loop
hex_to_bytes_loop_kept zero width i result last instr s = refl
hex_to_bytes_loop_kept {S} (suc left) width i result last instr s =
    continue_kept (λ s'. s') s (convert_hex_to_uint8 (last - i * 2) instr s) _
      (convert_hex_to_uint8_kept (last - i * 2) instr s)
      (λ byte s' e. hex_to_bytes_loop_kept left width (i + 1) _ last instr s' ∙ e)

pub convert_hex_to_uint16_kept :
    {S : Type 0} (offset : ℕ) (instr : List ℕ) (s : S)
    → (convert_hex_to_uint16 offset instr s).1 ≡ s
unfolding convert_hex_to_uint16
convert_hex_to_uint16_kept offset instr s = hex_to_bytes_loop_kept 2 16 0 0 (offset + 2) instr s

pub convert_hex_to_uint32_kept :
    {S : Type 0} (offset : ℕ) (instr : List ℕ) (s : S)
    → (convert_hex_to_uint32 offset instr s).1 ≡ s
unfolding convert_hex_to_uint32
convert_hex_to_uint32_kept offset instr s = hex_to_bytes_loop_kept 4 32 0 0 (offset + 6) instr s
