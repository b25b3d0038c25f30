-- ===== src/Registers/Requests.antt =====
-- Whole requests to read and to write a register, from the message to the reply.
use mathlib.Core.Path.{subst}
use ascii_serial_com_c.Prelude.{
  ℕ, zero, suc, ◌+◌, ◌*◌, ◌/◌, ◌%◌, ◌^◌, ◌≤◌, ◌<◌, ◌≡◌, ◌≢◌, refl, ◌∙◌, sym, ap, Bool, true, false,
  List, [], ◌∷◌, ◌++◌, length, get_elem?, Option, some, ltb, leb, Absent, Reads, ok, arith,
}
use ascii_serial_com_c.CircularBuffer.Pushes.{HoldsAt}
use ascii_serial_com_c.Hex.Read32.{byte_read, read_digits32}
use ascii_serial_com_c.Hex.RoundTrip.{
  convert_hex_to_uint16_lem, digit, ReadsHex16, nibble_char_avoids,
}
use ascii_serial_com_c.Hex.Digits.{digits_of, length-digits_of}
use ascii_serial_com_c.Crc.Agree.{IsBytes}
use ascii_serial_com_c.Asc.{max_message_len, put_message_in_output_buffer}
use ascii_serial_com_c.Asc.Frame.{IsSendable}
use ascii_serial_com_c.Asc.Send.{Sent, put_message-Sent}
use ascii_serial_com_c.Registers.{
  RegWidth, width_bytes, width_bits, get_val_from_bytes, Call, on_asc,
}
use ascii_serial_com_c.Registers.Pointers.{
  Registers, RegisterPointers, masked, store, reg_val, read_register, write_pointer, write_register,
  access, handle_for, handle_message,
}
use ascii_serial_com_c.Registers.Reply.{
  value_digits, number, Replied, ReadsHex16-Reads, read_register-Replied, to_access,
}

-- Characters that a payload may have.
abbrev Plain : List ℕ → Type 0
Plain [] = Unit
Plain (x ∷ xs) = ((x ≢ b'>') × ((x ≢ b'.') × ((x ≢ 0x0a) × (x < 256)))) × Plain xs

digit-Plain : (n k : ℕ) (caps : Bool) (xs : List ℕ) → Plain xs → Plain (digit n k caps ∷ xs)
digit-Plain n k caps xs h =
    let (p, q, r, t) = nibble_char_avoids (n / 16 ^ k % 16) caps (omega arith) in
    ((p, (q, (r, t))), h)

digits_of-Plain : (k x : ℕ) → Plain (digits_of k x)
digits_of-Plain zero x = tt
digits_of-Plain (suc k) x = digit-Plain x k true (digits_of k x) (digits_of-Plain k x)

number-Plain : (n : ℕ) (caps : Bool) (xs : List ℕ) → Plain xs → Plain (number n caps ++ xs)
number-Plain n caps xs h =
    digit-Plain n 3 caps (digit n 2 caps ∷ digit n 1 caps ∷ digit n 0 caps ∷ xs) (
      digit-Plain n 2 caps (digit n 1 caps ∷ digit n 0 caps ∷ xs)
        (digit-Plain n 1 caps (digit n 0 caps ∷ xs) (digit-Plain n 0 caps xs h)))

Plain-Absent_start : (xs : List ℕ) → Plain xs → Absent b'>' xs
Plain-Absent_start [] h = tt
Plain-Absent_start (x ∷ xs) h = (h.0.0, Plain-Absent_start xs h.1)

Plain-Absent_period : (xs : List ℕ) → Plain xs → Absent b'.' xs
Plain-Absent_period [] h = tt
Plain-Absent_period (x ∷ xs) h = (h.0.1.0, Plain-Absent_period xs h.1)

Plain-Absent_newline : (xs : List ℕ) → Plain xs → Absent 0x0a xs
Plain-Absent_newline [] h = tt
Plain-Absent_newline (x ∷ xs) h = (h.0.1.1.0, Plain-Absent_newline xs h.1)

Plain-IsBytes : (xs : List ℕ) → Plain xs → IsBytes xs
Plain-IsBytes [] h = tt
Plain-IsBytes (x ∷ xs) h = (h.0.1.1.1, Plain-IsBytes xs h.1)

Plain-IsSendable :
    (v a c : ℕ) (payload : List ℕ) → Plain (v ∷ a ∷ c ∷ payload) → IsSendable v a c payload
Plain-IsSendable v a c payload h = record {
  bytes = (omega arith, Plain-IsBytes (v ∷ a ∷ c ∷ payload) h);
  no_start = Plain-Absent_start (v ∷ a ∷ c ∷ payload) h;
  no_period = Plain-Absent_period (v ∷ a ∷ c ∷ payload) h;
  no_newline = Plain-Absent_newline (v ∷ a ∷ c ∷ payload) h;
}

comma-Plain : (xs : List ℕ) → Plain xs → Plain (b',' ∷ xs)
comma-Plain xs h = ((omega arith, (omega arith, (omega arith, omega arith))), h)

-- More payload for a message that could be sent without any.
extended :
    {v a c : ℕ} (payload : List ℕ) → IsSendable v a c [] → Plain payload → IsSendable v a c payload
extended {v} {a} {c} payload s h = Plain-IsSendable v a c payload (
  (s.no_start.0, (s.no_period.0, (s.no_newline.0, s.bytes.1.0))),
  (
    (s.no_start.1.0, (s.no_period.1.0, (s.no_newline.1.0, s.bytes.1.1.0))),
    ((s.no_start.1.1.0, (s.no_period.1.1.0, (s.no_newline.1.1.0, s.bytes.1.1.1.0))), h),
  ),
)

module _ (w : RegWidth) (rp : RegisterPointers) (call : Call Registers) (n : ℕ) (caps : Bool)
    (v a data_len : ℕ) where
  access_read :
      (pointer : Option ℕ)
      → n < rp.n_regs
      → get_elem? rp.pointers n ≡ some pointer
      → access w rp v a b'r' data_len n call ≡ read_register w rp v a b'r' data_len pointer call
  unfolding access
  access_read pointer inside here =
      let known : leb rp.n_regs n ≡ false = ground arith in rw (known, here) refl

  to_handle_with :
      (c : ℕ)
      → call.state.register_pointers ≡ some rp
      → handle_message w v a c data_len call ≡ handle_for w (some rp) v a c data_len call
  unfolding handle_message
  to_handle_with c e = ap (λ o. handle_for w o v a c data_len call) e

  pub read_request-Replied :
      (pointer : Option ℕ) (pre : List ℕ) (start : ℕ)
      → call.state.register_pointers ≡ some rp
      → ReadsHex16 call.bytes 0 n caps
      → n < 65536
      → 4 ≤ data_len
      → n < rp.n_regs
      → get_elem? rp.pointers n ≡ some pointer
      → reg_val pointer call.state.memory < 2 ^ width_bits w
      → 5 + width_bytes w * 2 ≤ length call.bytes
      → IsSendable v a b'r' []
      → HoldsAt max_message_len start pre call.asc.out_buf
      → length pre + width_bytes w * 2 + 15 ≤ max_message_len
      → start + length pre ≤ max_message_len
      → Replied v a b'r'
          (number n caps ++ (b',' ∷ value_digits w (reg_val pointer call.state.memory)))
          pre
          start
          call
          call.state
          (handle_message w v a b'r' data_len call)
  unfolding handle_for
  read_request-Replied pointer pre start e digits lt long inside here small room s h fits before =
      let x = reg_val pointer call.state.memory in
      subst
        (Replied v a b'r' (number n caps ++ (b',' ∷ value_digits w x)) pre start call call.state)
        (sym (
          to_handle_with b'r' e
          ∙ to_access w rp call n caps v a data_len b'r' digits lt long refl
          ∙ access_read pointer inside here))
        (read_register-Replied w rp call n caps v a data_len pointer pre start digits small room
          (extended (number n caps ++ (b',' ∷ value_digits w x)) s (
            number-Plain n caps (b',' ∷ value_digits w x)
              (comma-Plain (value_digits w x) (digits_of-Plain (width_bytes w * 2) x))))
          h (omega (arith, length-digits_of (width_bytes w * 2) x)) before)

value_read :
    {S : Type 0} (w : RegWidth) (x : ℕ) (bytes : List ℕ) (s : S)
    → x < 2 ^ width_bits w
    → Reads bytes 5 (value_digits w x)
    → get_val_from_bytes w 5 bytes s ≡ (ok x, s)
unfolding get_val_from_bytes
value_read RegWidth.one x bytes s lt r =
    byte_read x 0 5 true bytes s r.0 r.1.0 ∙ ap (λ n. (ok n, s)) (omega arith)
value_read RegWidth.two x bytes s lt r =
    convert_hex_to_uint16_lem x 5 true bytes s lt
      (record { at_0 = r.0; at_1 = r.1.0; at_2 = r.1.1.0; at_3 = r.1.1.1.0 })
value_read RegWidth.four x bytes s lt r = read_digits32 x 5 bytes s lt r

-- The registers after a write through a pointer.
abbrev pub written : RegWidth → Registers → ℕ → ℕ → ℕ → Registers
written w state address x mask = record state {
  memory = store state.memory address (masked (width_bits w) x mask (state.memory address));
}

module _ (w : RegWidth) (rp : RegisterPointers) (call : Call Registers) (n : ℕ) (caps : Bool)
    (v a data_len : ℕ) where
  access_write :
      (address x mask : ℕ)
      → n < rp.n_regs
      → get_elem? rp.pointers n ≡ some (some address)
      → get_elem? rp.write_masks n ≡ some mask
      → x < 2 ^ width_bits w
      → Reads call.bytes 5 (value_digits w x)
      → 5 + width_bytes w ≤ data_len
      → access w rp v a b'w' data_len n call
        ≡ on_asc
            (put_message_in_output_buffer v a b'w' call.bytes 4)
            (record call { state = written w call.state address x mask })
  unfolding access write_register write_pointer
  access_write address x mask inside here masks lt r long =
      let known : leb rp.n_regs n ≡ false = ground arith in
      let enough : ltb data_len (5 + width_bytes w) ≡ false = ground arith in
      rw (known, here, enough, value_read w x call.bytes call lt r, masks) refl

  pub write_request-Replied :
      (address x mask : ℕ) (pre : List ℕ) (start : ℕ)
      → call.state.register_pointers ≡ some rp
      → ReadsHex16 call.bytes 0 n caps
      → n < 65536
      → 5 + width_bytes w ≤ data_len
      → n < rp.n_regs
      → get_elem? rp.pointers n ≡ some (some address)
      → get_elem? rp.write_masks n ≡ some mask
      → x < 2 ^ width_bits w
      → Reads call.bytes 5 (value_digits w x)
      → IsSendable v a b'w' []
      → HoldsAt max_message_len start pre call.asc.out_buf
      → length pre + 14 ≤ max_message_len
      → start + length pre ≤ max_message_len
      → Replied v a b'w'
          (number n caps)
          pre
          start
          call
          (written w call.state address x mask)
          (handle_message w v a b'w' data_len call)
  unfolding handle_for
  write_request-Replied address x mask pre start e digits lt long inside here masks small r s h fits
        before =
      subst (Replied v a b'w' (number n caps) pre start call (written w call.state address x mask))
        (sym (
          to_handle_with w rp call n caps v a data_len b'w' e
          ∙ to_access w rp call n caps v a data_len b'w' digits lt (omega arith) refl
          ∙ access_write address x mask inside here masks small r long))
        (record {
          out = sent.out;
          bytes = call.bytes;
          returns = rw sent.returns refl;
          holds = sent.holds;
        })
    where
      sent :
          Sent v a b'w'
            (number n caps)
            pre
            start
            call.asc
            (put_message_in_output_buffer v a b'w' call.bytes 4 call.asc)
      sent =
          put_message-Sent (extended (number n caps) s (number-Plain n caps [] tt)) call.bytes
            call.asc h (ReadsHex16-Reads digits) (omega arith) before

pub number-IsSendable :
    {v a c : ℕ} (n : ℕ) (caps : Bool) → IsSendable v a c [] → IsSendable v a c (number n caps)
number-IsSendable n caps s = extended (number n caps) s (number-Plain n caps [] tt)

pub value-IsSendable :
    {v a c : ℕ} (w : RegWidth) (n x : ℕ) (caps : Bool)
    → IsSendable v a c []
    → IsSendable v a c (number n caps ++ (b',' ∷ value_digits w x))
value-IsSendable w n x caps s = extended (number n caps ++ (b',' ∷ value_digits w x)) s (
    number-Plain n caps (b',' ∷ value_digits w x)
      (comma-Plain (value_digits w x) (digits_of-Plain (width_bytes w * 2) x)))

pub length-value :
    (w : RegWidth) (n x : ℕ) (caps : Bool)
    → length (number n caps ++ (b',' ∷ value_digits w x)) ≡ 5 + width_bytes w * 2
length-value w n x caps = omega (arith, length-digits_of (width_bytes w * 2) x)
