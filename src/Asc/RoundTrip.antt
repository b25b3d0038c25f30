-- ===== src/Asc/RoundTrip.antt =====
-- What put_message_in_output_buffer sends, get_message_from_input_buffer receives.
use mathlib.Core.Path.{subst}
use mathlib.Core.List.{append-nil}
use ascii_serial_com_c.Prelude.{
  ℕ, ◌+◌, ◌≤◌, ◌≡◌, refl, sym, ap, ◌∙◌, List, [], ◌++◌, length, Absent, Reads, arith,
}
use ascii_serial_com_c.CircularBuffer.Becomes.{Holds}
use ascii_serial_com_c.CircularBuffer.Pushes.{HoldsAt, push_all, push_all-HoldsAt}
use ascii_serial_com_c.CircularBuffer.Refine.{contents}
use ascii_serial_com_c.Asc.{Asc, max_message_len, put_message_in_output_buffer}
use ascii_serial_com_c.Asc.Frame.{frame, IsSendable, length-frame}
use ascii_serial_com_c.Asc.Send.{put_message-Sent}
use ascii_serial_com_c.Asc.Receive.{Message, get_message_from_input_buffer}
use ascii_serial_com_c.Asc.Receive.Parts.{receiver}
use ascii_serial_com_c.Asc.Receive.Deliver.{Delivered, get_message-Delivered}

module _ {v a c : ℕ} {payload : List ℕ} (s : IsSendable v a c payload) where
  put_message-contents :
      (bytes : List ℕ) (tx : Asc) (start : ℕ)
      → HoldsAt max_message_len start [] tx.out_buf
      → start ≤ max_message_len
      → Reads bytes 0 payload
      → length payload ≤ 54
      → contents (put_message_in_output_buffer v a c bytes (length payload) tx).1.out_buf
        ≡ frame v a c payload
  put_message-contents bytes tx start empty before reads short =
      let sent = put_message-Sent s bytes tx empty reads (omega arith) (omega arith) in
      ap (λ r. contents r.1.out_buf) sent.returns ∙ sent.holds.holds.held

  -- Let a message of at most 54 bytes of payload, whose characters after the '>' are bytes other
  -- than '>', '.' and line feed, be put into an empty output buffer of 64 bytes, wherever that
  -- starts in its storage. When the bytes of that buffer are pushed onto an input buffer that
  -- holds only bytes other than line feeds and has room for them, get_message_from_input_buffer
  -- returns without an exception, writes the two versions, the command, the payload and its length
  -- to the caller's variables, and leaves the input buffer empty.
  pub round_trip :
      (bytes : List ℕ) (tx : Asc) (start : ℕ)
      → HoldsAt max_message_len start [] tx.out_buf
      → start ≤ max_message_len
      → Reads bytes 0 payload
      → length payload ≤ 54
      → (junk : List ℕ) (rx : Asc) (m : Message) {cap : ℕ} → Holds cap junk rx.in_buf
      → Absent 0x0a junk
      → length junk + length payload + 10 ≤ cap
      → length payload ≤ length m.bytes
      → let tx' = (put_message_in_output_buffer v a c bytes (length payload) tx).1 in
        Delivered cap v a c payload [] rx m (
          get_message_from_input_buffer (receiver rx (push_all (contents tx'.out_buf) rx.in_buf) m))
  round_trip bytes tx start empty before reads short junk rx m {cap} h clean room fits =
      let d =
        get_message-Delivered s junk []
          (record rx { in_buf = push_all (frame v a c payload) rx.in_buf }) m arrived clean short
          fits in
      rw (put_message-contents bytes tx start empty before reads short)
        (record { after = d.after; returns = d.returns; holds = d.holds })
    where
      pushed :
          HoldsAt cap rx.in_buf.i_start
            (junk ++ frame v a c payload)
            (push_all (frame v a c payload) rx.in_buf)
      pushed =
          push_all-HoldsAt (frame v a c payload) (record { holds = h; same_start = refl })
            (omega (arith, length-frame v a c payload))

      arrived :
          Holds cap (junk ++ (frame v a c payload ++ [])) (push_all (frame v a c payload) rx.in_buf)
      arrived =
          subst (λ l. Holds cap (junk ++ l) (push_all (frame v a c payload) rx.in_buf))
            (sym (append-nil (frame v a c payload))) pushed.holds
