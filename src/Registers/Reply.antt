-- ===== src/Registers/Reply.antt =====
-- The answers of the register pointers to reads and writes of a register.
use mathlib.Core.Path.{subst}
use ascii_serial_com_c.Prelude.{
  ℕ, ◌+◌, ◌*◌, ◌^◌, ◌≤◌, ◌<◌, ◌≡◌, refl, ◌∙◌, sym, Bool, false, not, List, [], ◌∷◌, ◌++◌, length,
  set, get_elem?, get_elem?-set_self, get_elem?-set_ne, length-set, Option, ltb, ◌==◌, ◌&&◌, Reads,
  Outcome, ok, arith,
}
use ascii_serial_com_c.CircularBuffer.{CircularBuffer}
use ascii_serial_com_c.CircularBuffer.Pushes.{HoldsAt}
use ascii_serial_com_c.Hex.RoundTrip.{digit, ReadsHex16, convert_hex_to_uint16_lem}
use ascii_serial_com_c.Hex.Digits.{
  digits_of, length-digits_of, put_all, put_all_below, put_all-Reads, convert_uint8_put,
  convert_uint16_put, convert_uint32_put,
}
use ascii_serial_com_c.Asc.{max_message_len, put_message_in_output_buffer}
use ascii_serial_com_c.Asc.Frame.{frame, IsSendable}
use ascii_serial_com_c.Asc.Send.{Sent, put_message-Sent}
use ascii_serial_com_c.Registers.{
  RegWidth, width_bytes, width_bits, put_val_into_bytes, put_reg_val, Call,
}
use ascii_serial_com_c.Registers.Pointers.{
  Registers, RegisterPointers, reg_val, read_register, access, handle_with,
}

-- The digits of a value, and of the number of a register.
abbrev pub value_digits : RegWidth → ℕ → List ℕ
value_digits w x = digits_of (width_bytes w * 2) x

abbrev pub number : ℕ → Bool → List ℕ
number n caps = digit n 3 caps ∷ digit n 2 caps ∷ digit n 1 caps ∷ digit n 0 caps ∷ []

put_val_put :
    (w : RegWidth) (x o : ℕ) (out : List ℕ)
    → x < 2 ^ width_bits w
    → put_val_into_bytes w x o out ≡ put_all (value_digits w x) o out
unfolding put_val_into_bytes
put_val_put RegWidth.one x o out h = convert_uint8_put x o out h
put_val_put RegWidth.two x o out h = convert_uint16_put x o out
put_val_put RegWidth.four x o out h = convert_uint32_put x o out

pub ReadsHex16-Reads :
    {bytes : List ℕ} {n : ℕ} {caps : Bool}
    → ReadsHex16 bytes 0 n caps
    → Reads bytes 0 (number n caps)
ReadsHex16-Reads r = (r.at_0, (r.at_1, (r.at_2, (r.at_3, tt))))

-- The data after a read: the number as it came, a comma, the value.
reply_data :
    (w : RegWidth) (bytes : List ℕ) (n x : ℕ) (caps : Bool)
    → ReadsHex16 bytes 0 n caps
    → x < 2 ^ width_bits w
    → 5 + width_bytes w * 2 ≤ length bytes
    → Reads
        (put_val_into_bytes w x 5 (set bytes 4 b','))
        0
        (number n caps ++ (b',' ∷ value_digits w x))
reply_data w bytes n x caps r lt room =
    subst (λ l. Reads l 0 (number n caps ++ (b',' ∷ value_digits w x)))
      (sym (put_val_put w x 5 (set bytes 4 b',') lt))
      (
        kept 0 (omega arith) ∙ r.at_0,
        (
          kept 1 (omega arith) ∙ r.at_1,
          (
            kept 2 (omega arith) ∙ r.at_2,
            (
              kept 3 (omega arith) ∙ r.at_3,
              (
                put_all_below (value_digits w x) 5 (set bytes 4 b',') 4 (omega arith)
                    ∙ get_elem?-set_self bytes 4 b',' (omega arith),
                put_all-Reads (value_digits w x) 5 (set bytes 4 b',') (
                    omega (arith, length-set bytes 4 b',', length-digits_of (width_bytes w * 2) x)),
              ),
            ),
          ),
        ),
      )
  where
    kept :
        (j : ℕ)
        → j < 4
        → get_elem? (put_all (value_digits w x) 5 (set bytes 4 b',')) j ≡ get_elem? bytes j
    kept j lt' =
        put_all_below (value_digits w x) 5 (set bytes 4 b',') j (omega arith)
        ∙ get_elem?-set_ne bytes b',' (omega arith)

-- The reply is in the output buffer, behind what it held, and the state is as given.
pub record Replied (v a c : ℕ) (payload pre : List ℕ) (start : ℕ) (call : Call Registers)
    (state : Registers) (result : Outcome (Unit {0}) × Call Registers) : Type 0 where
  pub out : CircularBuffer
  pub bytes : List ℕ
  pub returns : result ≡ (
    ok tt,
    record call { asc = record (call.asc) { out_buf = out }; bytes = bytes; state = state },
  )
  pub holds : HoldsAt max_message_len start (pre ++ frame v a c payload) out

length-read_reply :
    (w : RegWidth) (n x : ℕ) (caps : Bool)
    → length (number n caps ++ (b',' ∷ value_digits w x)) ≡ 5 + width_bytes w * 2
length-read_reply w n x caps = omega (arith, length-digits_of (width_bytes w * 2) x)

module _ (w : RegWidth) (rp : RegisterPointers) (call : Call Registers) (n : ℕ) (caps : Bool)
    (v a data_len : ℕ) where
  pub read_register-Replied :
      (pointer : Option ℕ) (pre : List ℕ) (start : ℕ)
      → ReadsHex16 call.bytes 0 n caps
      → let x = reg_val pointer call.state.memory in
        let payload = number n caps ++ (b',' ∷ value_digits w x) in
        x < 2 ^ width_bits w
        → 5 + width_bytes w * 2 ≤ length call.bytes
        → IsSendable v a b'r' payload
        → HoldsAt max_message_len start pre call.asc.out_buf
        → length pre + length payload + 10 ≤ max_message_len
        → start + length pre ≤ max_message_len
        → Replied v a b'r' payload pre start call call.state
            (read_register w rp v a b'r' data_len pointer call)
  unfolding read_register put_reg_val
  read_register-Replied pointer pre start digits lt room s h fits before =
      let x = reg_val pointer call.state.memory in
      let payload = number n caps ++ (b',' ∷ value_digits w x) in
      let bytes = put_val_into_bytes w x 5 (set call.bytes 4 b',') in
      let sent =
        subst
          (λ k.
            Sent v a b'r' payload pre start call.asc
              (put_message_in_output_buffer v a b'r' bytes k call.asc))
          (length-read_reply w n x caps)
          (put_message-Sent s bytes call.asc h (reply_data w call.bytes n x caps digits lt room)
            fits before) in
      let inside : ltb (length call.bytes) (5 + width_bytes w * 2) ≡ false = ground arith in
      record {
        out = sent.out;
        bytes = bytes;
        returns = rw (inside, sent.returns) refl;
        holds = sent.holds;
      }

  -- The number is read, and it is that of a register.
  pub to_access :
      (c : ℕ)
      → ReadsHex16 call.bytes 0 n caps
      → n < 65536
      → 4 ≤ data_len
      → (not (c == b'r') && not (c == b'w')) ≡ false
      → handle_with w rp v a c data_len call ≡ access w rp v a c data_len n call
  unfolding handle_with
  to_access c digits lt long known =
      let enough : ltb data_len 4 ≡ false = ground arith in
      rw (known, enough, convert_hex_to_uint16_lem n 0 caps call.bytes call lt digits) refl
