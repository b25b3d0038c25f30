-- ===== src/Asc/Receive/Deliver.antt =====
-- A frame at the front of the input buffer, or behind bytes that are not one, is delivered.
use mathlib.Core.Path.{subst}
use mathlib.Core.List.{append_assoc}
use ascii_serial_com_c.Prelude.{
  ℕ, ◌≤◌, ◌≡◌, ◌∙◌, true, List, ◌++◌, length, replicate, ◌||◌, Absent, Outcome, ok, arith,
  Bool-cases, inl, inr,
}
use ascii_serial_com_c.CircularBuffer.{CircularBuffer}
use ascii_serial_com_c.CircularBuffer.Becomes.{Holds}
use ascii_serial_com_c.Asc.{Asc, n_char_checksum}
use ascii_serial_com_c.Asc.Frame.{hex4, crc_of, checked, ending, frame, IsSendable}
use ascii_serial_com_c.Asc.Receive.{
  Message, Receiver, same_chars, expected_checksum, get_message_from_input_buffer,
}
use ascii_serial_com_c.Asc.Receive.Parts.{receiver, fill, same_chars_refl}
use ascii_serial_com_c.Asc.Receive.Parsed.{read_frame-Parsed}
use ascii_serial_com_c.Asc.Receive.Line.{
  line, get_message-AtFront, expected_checksum-crc, read_ended-read_frame,
}

-- What the caller finds: the message in its variables, the rest of the buffer untouched.
pub record Delivered (cap v a c : ℕ) (payload q : List ℕ) (asc : Asc) (m : Message)
    (result : Outcome (Unit {0}) × Receiver) : Type 0 where
  pub after : CircularBuffer
  pub returns : result ≡ (
    ok tt,
    receiver asc after (record {
      asc_version = v;
      app_version = a;
      command = c;
      bytes = fill m.bytes 0 payload;
      data_len = length payload;
    }),
  )
  pub holds : Holds cap q after

as_line :
    (v a c : ℕ) (payload q : List ℕ)
    → frame v a c payload ++ q ≡ line v a c payload (crc_of (checked v a c payload)) q
unfolding ending
as_line v a c payload q = simp append_assoc

module _ {cap v a c : ℕ} {payload : List ℕ} (s : IsSendable v a c payload) where
  -- The parser has the checksum of the frame, unless it ignores it.
  expected :
      (q : List ℕ) (asc : Asc) (m : Message) (cb : CircularBuffer)
      → Holds cap (line v a c payload (crc_of (checked v a c payload)) q) cb
      → length payload ≤ 54
      → (computed : List ℕ) × (expected_checksum (receiver asc cb m)
          ≡ (ok computed, receiver asc cb m))
        × ((asc.ignore_crc_mismatch || same_chars (hex4 (crc_of (checked v a c payload))) computed)
            ≡ true)
  unfolding expected_checksum
  expected q asc m cb h short = elim (Bool-cases asc.ignore_crc_mismatch) [
    | inl on ↦ (replicate n_char_checksum 0, ground arith, rw on)
    | inr off ↦ (
      hex4 (crc_of (checked v a c payload)),
      expected_checksum-crc s (crc_of (checked v a c payload)) q asc m cb h off short,
      rw (off, same_chars_refl),
    )
  ]

  -- If a valid input buffer holds bytes without a line feed, then the frame of a sendable message
  -- of at most 54 bytes of payload, then anything, and the caller's array has room for the
  -- payload, then get_message_from_input_buffer returns normally, delivers the message, removes
  -- the bytes up to the end of its frame, and leaves all that follows; this whether or not a
  -- checksum mismatch is ignored.
  pub get_message-Delivered :
      (junk q : List ℕ) (asc : Asc) (m : Message)
      → Holds cap (junk ++ (frame v a c payload ++ q)) asc.in_buf
      → Absent 0x0a junk
      → length payload ≤ 54
      → length payload ≤ length m.bytes
      → Delivered cap v a c payload q asc m
          (get_message_from_input_buffer (record { asc = asc; message = m }))
  get_message-Delivered junk q asc m h clean short fits =
      let at =
        get_message-AtFront s (crc_of (checked v a c payload)) junk q asc m
          (subst (λ l. Holds cap (junk ++ l) asc.in_buf) (as_line v a c payload q) h) clean short in
      let (computed, obtained, agree) = expected q asc m at.front at.holds short in
      let parsed =
        read_frame-Parsed payload q asc m (crc_of (checked v a c payload)) at.front computed
          at.holds s.no_period.1.1.1 fits (omega arith) in
      record {
        after = parsed.after;
        returns =
            at.goes_on
            ∙ read_ended-read_frame s (crc_of (checked v a c payload)) q asc m at.front at.holds
                computed obtained (omega arith)
            ∙ parsed.agreed agree;
        holds = parsed.holds;
      }
