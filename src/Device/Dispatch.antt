-- ===== src/Device/Dispatch.antt =====
-- A device with register pointers, from the bytes received to the bytes of the reply.
use mathlib.Core.Path.{subst}
use ascii_serial_com_c.Prelude.{
  ℕ, ◌+◌, ◌*◌, ◌^◌, ◌≤◌, ◌<◌, ◌≡◌, refl, ◌∙◌, ap, Bool, true, false, List, [], ◌∷◌, ◌++◌, length,
  get_elem?, Option, none, some, sym, ◌==◌, ◌||◌, Absent, Reads, Outcome, ok, arith,
}
use ascii_serial_com_c.CircularBuffer.{CircularBuffer}
use ascii_serial_com_c.CircularBuffer.Becomes.{Holds}
use ascii_serial_com_c.CircularBuffer.Pushes.{HoldsAt}
use ascii_serial_com_c.Hex.RoundTrip.{ReadsHex16}
use ascii_serial_com_c.Asc.{max_message_len}
use ascii_serial_com_c.Asc.Frame.{frame, IsSendable}
use ascii_serial_com_c.Asc.Receive.{Message, get_message_from_input_buffer}
use ascii_serial_com_c.Asc.Receive.Parts.{fill, fill-Reads, length-fill}
use ascii_serial_com_c.Asc.Receive.Deliver.{Delivered, get_message-Delivered}
use ascii_serial_com_c.Registers.{RegWidth, width_bytes, width_bits, Call}
use ascii_serial_com_c.Registers.Pointers.{Registers, RegisterPointers, reg_val, handle_message}
use ascii_serial_com_c.Registers.Reply.{number, value_digits, Replied}
use ascii_serial_com_c.Registers.Requests.{
  read_request-Replied, write_request-Replied, written, number-IsSendable, value-IsSendable,
  length-value,
}
use ascii_serial_com_c.Device.{Device, dispatch, call_or_error, after_call, receive}

-- The reply is in the output buffer, the bytes behind the request in the input buffer.
pub record Answered {S Nf : Type 0} (cap : ℕ) (q : List ℕ) (start : ℕ) (output : List ℕ)
    (registers : Registers) (ascd : Device Registers S Nf)
    (result : Outcome (Unit {0}) × Device Registers S Nf) : Type 0 where
  pub in_buf : CircularBuffer
  pub out_buf : CircularBuffer
  pub message : Message
  pub returns : result ≡ (
    ok tt,
    record ascd {
      asc = record (ascd.asc) { in_buf = in_buf; out_buf = out_buf };
      message = message;
      config = record (ascd.config) { state_rw = registers };
    },
  )
  pub in_holds : Holds cap q in_buf
  pub out_holds : HoldsAt max_message_len start output out_buf

Reads-ReadsHex16 :
    {bytes : List ℕ} {n : ℕ} {caps : Bool}
    → Reads bytes 0 (number n caps)
    → ReadsHex16 bytes 0 n caps
Reads-ReadsHex16 r = record { at_0 = r.0; at_1 = r.1.0; at_2 = r.1.1.0; at_3 = r.1.1.1.0 }

pub receive-Delivered :
    {Rw S Nf : Type 0} (ascd : Device Rw S Nf) {cap v a c : ℕ} {payload q : List ℕ}
    → (d : Delivered cap v a c payload q ascd.asc ascd.message
        (get_message_from_input_buffer (record { asc = ascd.asc; message = ascd.message })))
    → receive ascd
      ≡ dispatch (record ascd {
        asc = record (ascd.asc) { in_buf = d.after };
        message = record {
          asc_version = v;
          app_version = a;
          command = c;
          bytes = fill ascd.message.bytes 0 payload;
          data_len = length payload;
        };
      })
unfolding receive
receive-Delivered ascd d = rw d.returns refl

module _ {S Nf : Type 0} (w : RegWidth) (ascd : Device Registers S Nf) where
  -- The handler for 'r' and 'w' has the message, and its state.
  dispatch_rw :
      ascd.config.func_rw ≡ some (handle_message w)
      → (ascd.message.command == 0) ≡ false
      → ((ascd.message.command == b'r') || (ascd.message.command == b'w')) ≡ true
      → dispatch ascd
        ≡ after_call
            (λ st. record (ascd.config) { state_rw = st })
            ascd
            (handle_message w ascd.message.asc_version ascd.message.app_version ascd.message.command
              ascd.message.data_len
              (record { asc = ascd.asc; bytes = ascd.message.bytes; state = ascd.config.state_rw }))
  unfolding dispatch call_or_error
  dispatch_rw func some_message reads_or_writes =
      rw (some_message, reads_or_writes)
        (ap
          (λ o.
            call_or_error o ascd.config.state_rw (λ st. record (ascd.config) { state_rw = st })
              ascd)
          func)

-- A delivered message for the handler, and the handler's reply, make the device's answer.
module _ {S Nf : Type 0} (w : RegWidth) (ascd : Device Registers S Nf) {cap v a c : ℕ}
    {payload q : List ℕ}
    (d : Delivered cap v a c payload q ascd.asc ascd.message
      (get_message_from_input_buffer (record { asc = ascd.asc; message = ascd.message }))) where
  abbrev delivered : Device Registers S Nf
  delivered = record ascd {
    asc = record (ascd.asc) { in_buf = d.after };
    message = record {
      asc_version = v;
      app_version = a;
      command = c;
      bytes = fill ascd.message.bytes 0 payload;
      data_len = length payload;
    };
  }

  abbrev request : Call Registers
  request = record {
    asc = delivered.asc;
    bytes = delivered.message.bytes;
    state = ascd.config.state_rw;
  }

  receive-Answered :
      {reply pre : List ℕ} {start : ℕ} {st : Registers}
      → ascd.config.func_rw ≡ some (handle_message w)
      → (c == 0) ≡ false
      → ((c == b'r') || (c == b'w')) ≡ true
      → Replied v a c reply pre start request st (handle_message w v a c (length payload) request)
      → Answered cap q start (pre ++ frame v a c reply) st ascd (receive ascd)
  receive-Answered func some_message reads_or_writes answer = record {
    in_buf = d.after;
    out_buf = answer.out;
    message = record (delivered.message) { bytes = answer.bytes };
    returns =
        receive-Delivered ascd d
        ∙ dispatch_rw w delivered func some_message reads_or_writes
        ∙ ap (after_call (λ st. record (ascd.config) { state_rw = st }) delivered) answer.returns;
    in_holds = d.holds;
    out_holds = answer.holds;
  }

width-le : (w : RegWidth) → width_bytes w ≤ 4
width-le RegWidth.one = omega arith
width-le RegWidth.two = omega arith
width-le RegWidth.four = omega arith

-- What a read of a register shows: 0 for a null pointer, else what the memory has at the address.
abbrev pub shown : Option ℕ → (ℕ → ℕ) → ℕ
shown none memory = 0
shown (some address) memory = memory address

reg_val-shown :
    (pointer : Option ℕ) (memory : ℕ → ℕ) → reg_val pointer memory ≡ shown pointer memory
reg_val-shown none memory = refl
reg_val-shown (some address) memory = refl

-- Let a device have the handler of register pointers, of any of the three widths, for 'r' and 'w',
-- and let its input buffer hold bytes without a line feed, the frame of an 'r' message with the
-- number of a register in range, in digits of either case, and anything. If the value that the
-- memory holds at the register's address is of the width, the frame of the reply fits into the
-- output buffer and starts in the part of the storage that has not wrapped around, and the data
-- buffer has room for the reply, then ascii_serial_com_device_receive returns normally, appends an
-- 'r' frame with the number, a comma and the digits of that value, 0 for a null pointer, to the
-- output, changes no register, and leaves in the input what followed the request.
pub receive_read-Answered :
    {S Nf : Type 0} (w : RegWidth) (ascd : Device Registers S Nf) (rp : RegisterPointers) {cap : ℕ}
    (v a n : ℕ) (caps : Bool) (pointer : Option ℕ) (junk q pre : List ℕ) (start : ℕ)
    → ascd.config.func_rw ≡ some (handle_message w)
    → ascd.config.state_rw.register_pointers ≡ some rp
    → IsSendable v a b'r' []
    → n < 65536
    → n < rp.n_regs
    → get_elem? rp.pointers n ≡ some pointer
    → shown pointer ascd.config.state_rw.memory < 2 ^ width_bits w
    → Holds cap (junk ++ (frame v a b'r' (number n caps) ++ q)) ascd.asc.in_buf
    → Absent 0x0a junk
    → 5 + width_bytes w * 2 ≤ length ascd.message.bytes
    → HoldsAt max_message_len start pre ascd.asc.out_buf
    → length pre + width_bytes w * 2 + 15 ≤ max_message_len
    → start + length pre ≤ max_message_len
    → Answered cap q start
        (pre
          ++ frame v a b'r' (
              number n caps ++ (b',' ∷ value_digits w (shown pointer ascd.config.state_rw.memory))))
        ascd.config.state_rw
        ascd
        (receive ascd)
receive_read-Answered w ascd rp v a n caps pointer junk q pre start func e s lt inside here small
      holds clean room h fits before =
    let d =
      get_message-Delivered (number-IsSendable n caps s) junk q ascd.asc ascd.message holds clean
        (omega arith) (omega arith) in
    let stored = fill-Reads (number n caps) ascd.message.bytes 0 (omega arith) in
    let same = reg_val-shown pointer ascd.config.state_rw.memory in
    receive-Answered w ascd d func refl refl (
      subst
        (λ x.
          Replied v a b'r' (number n caps ++ (b',' ∷ value_digits w x)) pre start (request w ascd d)
            ascd.config.state_rw (handle_message w v a b'r' 4 (request w ascd d)))
        same
        (read_request-Replied w rp (request w ascd d) n caps v a 4 pointer pre start e
          (Reads-ReadsHex16 stored) lt (omega arith) inside here
          (subst (λ x. x < 2 ^ width_bits w) (sym same) small)
          (omega (arith, length-fill (number n caps) ascd.message.bytes 0)) s h fits before))

-- Let a device have the handler of register pointers, of any of the three widths, for 'r' and 'w',
-- and let its input buffer hold bytes without a line feed, the frame of a 'w' message with the
-- number of a register in range, in digits of either case, a comma and the upper-case digits of a
-- value of the width, and anything. If the register's pointer is not null, the frame of the reply
-- fits into the output buffer and starts in the part of the storage that has not wrapped around,
-- and the data buffer has room for the request, then ascii_serial_com_device_receive returns
-- normally, stores at the register's address the value with the bits outside the write mask kept,
-- changes no other address, appends a 'w' frame with the number to the output, and leaves in the
-- input what followed the request.
pub receive_write-Answered :
    {S Nf : Type 0} (w : RegWidth) (ascd : Device Registers S Nf) (rp : RegisterPointers) {cap : ℕ}
    (v a n : ℕ) (caps : Bool) (address x mask : ℕ) (junk q pre : List ℕ) (start : ℕ)
    → ascd.config.func_rw ≡ some (handle_message w)
    → ascd.config.state_rw.register_pointers ≡ some rp
    → IsSendable v a b'w' []
    → n < 65536
    → n < rp.n_regs
    → get_elem? rp.pointers n ≡ some (some address)
    → get_elem? rp.write_masks n ≡ some mask
    → x < 2 ^ width_bits w
    → Holds cap
        (junk ++ (frame v a b'w' (number n caps ++ (b',' ∷ value_digits w x)) ++ q))
        ascd.asc.in_buf
    → Absent 0x0a junk
    → 5 + width_bytes w * 2 ≤ length ascd.message.bytes
    → HoldsAt max_message_len start pre ascd.asc.out_buf
    → length pre + 14 ≤ max_message_len
    → start + length pre ≤ max_message_len
    → Answered cap q start
        (pre ++ frame v a b'w' (number n caps))
        (written w ascd.config.state_rw address x mask)
        ascd
        (receive ascd)
receive_write-Answered w ascd rp v a n caps address x mask junk q pre start func e s lt inside here
      masks small holds clean room h fits before =
    let payload : List ℕ = number n caps ++ (b',' ∷ value_digits w x) in
    let sizes = length-value w n x caps in
    let d =
      get_message-Delivered (value-IsSendable w n x caps s) junk q ascd.asc ascd.message holds clean
        (omega (arith, sizes, width-le w)) (omega (arith, sizes)) in
    let stored = fill-Reads payload ascd.message.bytes 0 (omega (arith, sizes)) in
    receive-Answered w ascd d func refl refl (
      write_request-Replied w rp (request w ascd d) n caps v a (length payload) address x mask pre
        start e
        (record { at_0 = stored.0; at_1 = stored.1.0; at_2 = stored.1.1.0; at_3 = stored.1.1.1.0 })
        lt (omega (arith, sizes)) inside here masks small stored.1.1.1.1.1 s h fits before)
