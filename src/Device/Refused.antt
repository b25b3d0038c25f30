-- ===== src/Device/Refused.antt =====
-- A message with a command that the device does not know is answered by an error.
use ascii_serial_com_c.Prelude.{
  ℕ, ◌+◌, ◌≤◌, ◌≡◌, ◌≢◌, ◌∙◌, ap, false, List, ◌++◌, length, min, ◌==◌, Absent, Outcome, ok, arith,
  command_not_implemented,
}
use ascii_serial_com_c.CircularBuffer.{CircularBuffer}
use ascii_serial_com_c.CircularBuffer.Becomes.{Holds}
use ascii_serial_com_c.CircularBuffer.Pushes.{HoldsAt}
use ascii_serial_com_c.Asc.{max_message_len}
use ascii_serial_com_c.Asc.Frame.{frame, IsSendable}
use ascii_serial_com_c.Asc.PutError.{error_data, put_error-Sent}
use ascii_serial_com_c.Asc.Receive.{Message}
use ascii_serial_com_c.Asc.Receive.Parts.{fill, fill-Reads}
use ascii_serial_com_c.Asc.Receive.Deliver.{get_message-Delivered}
use ascii_serial_com_c.Device.{Device, with_asc, put_error, dispatch, receive}
use ascii_serial_com_c.Device.Dispatch.{receive-Delivered}

-- The reply is in the output buffer, the message in the device, and its configuration unchanged.
pub record Refused {Rw S Nf : Type 0} (cap : ℕ) (q : List ℕ) (start : ℕ) (output : List ℕ)
    (ascd : Device Rw S Nf) (result : Outcome (Unit {0}) × Device Rw S Nf) : Type 0 where
  pub in_buf : CircularBuffer
  pub out_buf : CircularBuffer
  pub message : Message
  pub returns : result ≡ (
    ok tt,
    record ascd {
      asc = record (ascd.asc) { in_buf = in_buf; out_buf = out_buf };
      message = message;
    },
  )
  pub in_holds : Holds cap q in_buf
  pub out_holds : HoldsAt max_message_len start output out_buf

-- None of the commands that receive tests for.
pub record IsUnknown (c : ℕ) : Type 0 where
  pub not_zero : c ≢ 0
  pub not_r : c ≢ b'r'
  pub not_w : c ≢ b'w'
  pub not_s : c ≢ b's'
  pub not_n : c ≢ b'n'
  pub not_f : c ≢ b'f'
  pub not_z : c ≢ b'z'

module _ {Rw S Nf : Type 0} where
  dispatch-put_error :
      (ascd : Device Rw S Nf) → IsUnknown ascd.message.command → dispatch ascd ≡ put_error ascd
  unfolding dispatch
  dispatch-put_error ascd u =
      let zero_lem : (ascd.message.command == 0) ≡ false = ground (arith, u.not_zero) in
      let r_lem : (ascd.message.command == b'r') ≡ false = ground (arith, u.not_r) in
      let w_lem : (ascd.message.command == b'w') ≡ false = ground (arith, u.not_w) in
      let s_lem : (ascd.message.command == b's') ≡ false = ground (arith, u.not_s) in
      let n_lem : (ascd.message.command == b'n') ≡ false = ground (arith, u.not_n) in
      let f_lem : (ascd.message.command == b'f') ≡ false = ground (arith, u.not_f) in
      let z_lem : (ascd.message.command == b'z') ≡ false = ground (arith, u.not_z) in
      simp (zero_lem, r_lem, w_lem, s_lem, n_lem, f_lem, z_lem)

  -- Let the input buffer of a device, whatever handlers it has, hold bytes without a line feed,
  -- then the frame of a sendable message of at most 54 bytes of payload with a command that is
  -- neither the zero byte nor one of r, w, s, n, f and z, then anything. If the data buffer has
  -- room for the payload, and the reply fits into the output buffer and starts in the part of the
  -- storage that has not wrapped around, then ascii_serial_com_device_receive returns normally,
  -- appends an 'e' frame with the number of ASC_ERROR_COMMAND_NOT_IMPLEMENTED in two digits, the
  -- command between commas and the first nine bytes of the payload, leaves in the input what
  -- followed the message, and does not change the configuration.
  pub receive-Refused :
      (ascd : Device Rw S Nf) {cap v a c : ℕ} {payload : List ℕ}
      → IsSendable v a c payload
      → IsUnknown c
      → (junk q pre : List ℕ) (start : ℕ)
      → Holds cap (junk ++ (frame v a c payload ++ q)) ascd.asc.in_buf
      → Absent 0x0a junk
      → length payload ≤ 54
      → length payload ≤ length ascd.message.bytes
      → HoldsAt max_message_len start pre ascd.asc.out_buf
      → length pre + min 9 (length payload) + 15 ≤ max_message_len
      → start + length pre ≤ max_message_len
      → Refused cap q start
          (pre ++ frame v a b'e' (error_data c command_not_implemented payload))
          ascd
          (receive ascd)
  unfolding put_error
  receive-Refused ascd {v = v} {a = a} {c = c} {payload = payload} s u junk q pre start holds clean
        short room h fits before =
      let d = get_message-Delivered s junk q ascd.asc ascd.message holds clean short room in
      let sent =
        put_error-Sent s command_not_implemented (fill ascd.message.bytes 0 payload) _
          (fill-Reads payload ascd.message.bytes 0 (omega arith)) h fits before in
      let delivered : Device Rw S Nf = record ascd {
        asc = record (ascd.asc) { in_buf = d.after };
        message = record {
          asc_version = v;
          app_version = a;
          command = c;
          bytes = fill ascd.message.bytes 0 payload;
          data_len = length payload;
        };
      } in
      record {
        in_buf = d.after;
        out_buf = sent.out;
        message = delivered.message;
        returns =
            receive-Delivered ascd d
            ∙ dispatch-put_error delivered u
            ∙ ap (with_asc delivered) sent.returns;
        in_holds = d.holds;
        out_holds = sent.holds;
      }
