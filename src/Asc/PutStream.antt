-- ===== src/Asc/PutStream.antt =====
-- ascii_serial_com_put_s_message_in_output_buffer sends the counter of the stream and the data.
use mathlib.Core.Path.{subst}
use ascii_serial_com_c.Prelude.{
  ℕ, ◌+◌, ◌≤◌, ◌<◌, ◌≡◌, ◌≢◌, sym, ap, true, false, List, ◌∷◌, length, set, replicate, get_elem?,
  ltb, Absent, Reads, if◌then◌else◌, u8, arith,
}
use ascii_serial_com_c.CircularBuffer.Pushes.{HoldsAt}
use ascii_serial_com_c.Hex.{convert_uint8_to_hex}
use ascii_serial_com_c.Hex.RoundTrip.{digit, nibble_char_avoids}
use ascii_serial_com_c.Hex.Digits.{convert_uint8_put}
use ascii_serial_com_c.Asc.{
  Asc, max_message_len, put_message_in_output_buffer, put_s_message_in_output_buffer,
}
use ascii_serial_com_c.Asc.Frame.{IsSendable}
use ascii_serial_com_c.Asc.Send.{Sent, put_message-Sent}
use ascii_serial_com_c.Asc.PutError.{copy_payload-fill}
use ascii_serial_com_c.Asc.Receive.Parts.{fill, fill_below, fill-Reads}

-- Two digits of the counter, a comma, the data.
abbrev pub s_data : ℕ → List ℕ → List ℕ
s_data counter payload = digit counter 1 true ∷ digit counter 0 true ∷ b',' ∷ payload

module _ {v a : ℕ} {payload : List ℕ} (s : IsSendable v a b's' payload) (counter : ℕ) where
  s_data-IsSendable : IsSendable v a b's' (s_data counter payload)
  s_data-IsSendable = record {
    bytes = (
      omega arith,
      (
        s.bytes.1.0,
        (
          s.bytes.1.1.0,
          (omega arith, ((avoids 1).3, ((avoids 0).3, (omega arith, s.bytes.1.1.1.1)))),
        ),
      ),
    );
    no_start = within b'>' s.no_start (avoids 1).0 (avoids 0).0 (omega arith);
    no_period = within b'.' s.no_period (avoids 1).1 (avoids 0).1 (omega arith);
    no_newline = within 0x0a s.no_newline (avoids 1).2 (avoids 0).2 (omega arith);
  }
    where
      avoids :
          (k : ℕ)
          → (digit counter k true ≢ b'>')
            × (digit counter k true ≢ b'.')
            × (digit counter k true ≢ 0x0a)
            × (digit counter k true < 256)
      avoids k = nibble_char_avoids _ true (omega arith)

      within :
          (x : ℕ)
          → Absent x (v ∷ a ∷ b's' ∷ payload)
          → digit counter 1 true ≢ x
          → digit counter 0 true ≢ x
          → b',' ≢ x
          → Absent x (v ∷ a ∷ b's' ∷ s_data counter payload)
      within x h d_1 d_0 comma = (h.0, (h.1.0, (h.1.1.0, (d_1, (d_0, (comma, h.1.1.1))))))

  headed : List ℕ
  headed = digit counter 1 true ∷ digit counter 0 true ∷ b',' ∷ replicate 51 0

  headed-Reads : length payload ≤ 51 → Reads (fill headed 3 payload) 0 (s_data counter payload)
  unfolding headed
  headed-Reads short = (
    kept 0 (omega arith),
    (
      kept 1 (omega arith),
      (kept 2 (omega arith), fill-Reads payload headed 3 (omega (arith, short))),
    ),
  )
    where
      kept : (j : ℕ) → j < 3 → get_elem? (fill headed 3 payload) j ≡ get_elem? headed j
      kept j h = fill_below payload headed 3 j (omega (arith, short)) h

  headed_lem :
      counter < 256 → set (convert_uint8_to_hex counter 0 true (replicate 54 0)) 2 b',' ≡ headed
  unfolding headed
  headed_lem lt = ap (λ l. set l 2 b',') (convert_uint8_put counter 0 (replicate 54 0) lt)

-- With the counter of the next message.
abbrev pub counted : Asc → Asc
counted asc = record asc { send_stream_frame_counter = u8 (asc.send_stream_frame_counter + 1) }

module _ {v a : ℕ} {payload : List ℕ} (s : IsSendable v a b's' payload) (bytes : List ℕ)
    (asc : Asc) where
  put_s-put_message :
      asc.send_stream_frame_counter < 256
      → length payload ≤ 51
      → Reads bytes 0 payload
      → put_s_message_in_output_buffer v a bytes (length payload) asc
        ≡ put_message_in_output_buffer v a b's'
            (fill (headed s asc.send_stream_frame_counter) 3 payload)
            (length (s_data asc.send_stream_frame_counter payload))
            (counted asc)
  unfolding put_s_message_in_output_buffer
  put_s-put_message lt short reads =
      let in_range : ltb 51 (length payload) ≡ false = ground arith in
      let all : (if ltb (length payload) 51 then length payload else 51) ≡ length payload =
        ground arith in
      rw
        (
          in_range,
          all,
          headed_lem s asc.send_stream_frame_counter lt,
          copy_payload-fill payload bytes (headed s asc.send_stream_frame_counter) 0 3 reads,
        )
        (ap
          (λ n.
            put_message_in_output_buffer v a b's'
              (fill (headed s asc.send_stream_frame_counter) 3 payload) n (counted asc))
          (omega arith))

  -- If the data makes a sendable 's' message, its frame with three more bytes fits behind what a
  -- valid output buffer of 64 bytes holds and does not start in the part of the storage that has
  -- wrapped around, and the 8-bit counter of the stream is in range, then
  -- put_s_message_in_output_buffer returns normally, appends the 's' frame of two digits of the
  -- counter, a comma and the data, increments the counter, from 255 to 0, and changes nothing
  -- else.
  pub put_s_message-Sent :
      {pre : List ℕ} {start : ℕ}
      → asc.send_stream_frame_counter < 256
      → Reads bytes 0 payload
      → HoldsAt max_message_len start pre asc.out_buf
      → length pre + length payload + 13 ≤ max_message_len
      → start + length pre ≤ max_message_len
      → Sent v a b's'
          (s_data asc.send_stream_frame_counter payload)
          pre
          start
          (counted asc)
          (put_s_message_in_output_buffer v a bytes (length payload) asc)
  put_s_message-Sent {pre} {start} lt reads h fits before =
      subst (Sent v a b's' (s_data asc.send_stream_frame_counter payload) pre start (counted asc))
        (sym (put_s-put_message lt (omega arith) reads))
        (put_message-Sent (s_data-IsSendable s asc.send_stream_frame_counter)
          (fill (headed s asc.send_stream_frame_counter) 3 payload) (counted asc) h
          (headed-Reads s asc.send_stream_frame_counter (omega arith)) (omega arith) before)
