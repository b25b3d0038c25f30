-- ===== src/Echo/Echoed.antt =====
-- A frame in the input buffer is sent back.
use ascii_serial_com_c.Prelude.{
  ℕ, ◌+◌, ◌≤◌, ◌<◌, ◌≡◌, refl, false, List, ◌++◌, length, length-append, ◌==◌, Absent, Outcome, ok,
  arith,
}
use ascii_serial_com_c.CircularBuffer.{CircularBuffer, is_empty, get_size}
use ascii_serial_com_c.CircularBuffer.Becomes.{Holds, size-Holds}
use ascii_serial_com_c.CircularBuffer.Pushes.{HoldsAt}
use ascii_serial_com_c.Asc.{Asc, max_message_len, put_message_in_output_buffer}
use ascii_serial_com_c.Asc.Frame.{frame, IsSendable, length-frame}
use ascii_serial_com_c.Asc.Send.{put_message-Sent}
use ascii_serial_com_c.Asc.Receive.{Message, Receiver, get_message_from_input_buffer}
use ascii_serial_com_c.Asc.Receive.Parts.{fill, fill-Reads}
use ascii_serial_com_c.Asc.Receive.Deliver.{get_message-Delivered}
use ascii_serial_com_c.Echo.{send_back, send_back_message, echo}

-- The frame is behind what the output buffer held, and the input buffer holds what followed it.
pub record Echoed (cap v a c : ℕ) (payload q pre : List ℕ) (start : ℕ) (asc : Asc)
    (result : Outcome (Unit {0}) × Receiver) : Type 0 where
  pub in_buf : CircularBuffer
  pub out_buf : CircularBuffer
  pub message : Message
  pub returns : result ≡ (
    ok tt,
    record { asc = record asc { in_buf = in_buf; out_buf = out_buf }; message = message },
  )
  pub in_holds : Holds cap q in_buf
  pub out_holds : HoldsAt max_message_len start (pre ++ frame v a c payload) out_buf

echo-returns :
    (rx : Receiver) (received : Asc) (sent : Asc) (m : Message)
    → is_empty rx.asc.in_buf ≡ false
    → get_message_from_input_buffer rx ≡ (ok tt, record { asc = received; message = m })
    → (m.command == 0) ≡ false
    → put_message_in_output_buffer m.asc_version m.app_version m.command m.bytes m.data_len received
      ≡ (ok tt, sent)
    → echo rx ≡ (ok tt, record { asc = sent; message = m })
unfolding echo send_back_message send_back
echo-returns rx received sent m some_in got command put = rw (some_in, got, command, put) refl

-- A ring with a frame in it is not empty.
pub is_empty-frame :
    {cap : ℕ} (v a c : ℕ) (payload junk q : List ℕ) {cb : CircularBuffer}
    → Holds cap (junk ++ (frame v a c payload ++ q)) cb
    → is_empty cb ≡ false
unfolding is_empty get_size
is_empty-frame v a c payload junk q h = ground (
  arith,
  size-Holds h,
  length-append {0} junk (frame v a c payload ++ q),
  length-append {0} (frame v a c payload) q,
  length-frame v a c payload,
)

module _ {cap v a c : ℕ} {payload : List ℕ} (s : IsSendable v a c payload) where
  -- If the input buffer holds bytes without a line feed, then the frame of a sendable message with
  -- a command other than the zero byte, then anything, the array has room for the payload, and the
  -- frame fits into the output buffer and starts in the part of the storage that has not wrapped
  -- around, then the loopback programs' step returns normally, appends the same frame to the
  -- output, and leaves in the input what followed it.
  pub echo-Echoed :
      (junk q pre : List ℕ) (start : ℕ) (asc : Asc) (m : Message)
      → 0 < c
      → Holds cap (junk ++ (frame v a c payload ++ q)) asc.in_buf
      → Absent 0x0a junk
      → length payload ≤ length m.bytes
      → HoldsAt max_message_len start pre asc.out_buf
      → length pre + length payload + 10 ≤ max_message_len
      → start + length pre ≤ max_message_len
      → Echoed cap v a c payload q pre start asc (echo (record { asc = asc; message = m }))
  echo-Echoed junk q pre start asc m command holds clean room h fits before =
      let d = get_message-Delivered s junk q asc m holds clean (omega arith) room in
      let sent =
        put_message-Sent s (fill m.bytes 0 payload) (record asc { in_buf = d.after }) h
          (fill-Reads payload m.bytes 0 (omega arith)) fits before in
      record {
        in_buf = d.after;
        out_buf = sent.out;
        message = _;
        returns =
            echo-returns (record { asc = asc; message = m }) _ _ _
              (is_empty-frame v a c payload junk q holds) d.returns (ground arith) sent.returns;
        in_holds = d.holds;
        out_holds = sent.holds;
      }
