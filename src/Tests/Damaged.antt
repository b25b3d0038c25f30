-- ===== src/Tests/Damaged.antt =====
-- Witnesses for the checksum of damaged messages.
use ascii_serial_com_c.Prelude.{ℕ, ◌≢◌, arith, refl, List, [], ◌∷◌}
use ascii_serial_com_c.CircularBuffer.Becomes.{Holds}
use ascii_serial_com_c.CircularBuffer.Pushes.{push_all, push_all-HoldsAt}
use ascii_serial_com_c.Crc.Tbl4bit
use ascii_serial_com_c.Crc.Detects.{checksum-detects}
use ascii_serial_com_c.Asc.{Asc}
use ascii_serial_com_c.Asc.Frame.{crc_of, checked, hex4, IsSendable}
use ascii_serial_com_c.Asc.Receive.{get_message_from_input_buffer}
use ascii_serial_com_c.Asc.Receive.Line.{line}
use ascii_serial_com_c.Asc.Receive.Damaged.{Dropped, get_message-Dropped, get_message-Detected}
use ascii_serial_com_c.Tests.{ring_at-HoldsAt, asc, payload, payload-IsSendable}
use ascii_serial_com_c.Tests.Native.{no_message}

checksum-detects_example :
    Tbl4bit.finalize (Tbl4bit.update Tbl4bit.init (1 ∷ 5 ∷ 6 ∷ 2 ∷ []))
    ≢ Tbl4bit.finalize (Tbl4bit.update Tbl4bit.init (1 ∷ 5 ∷ 7 ∷ 2 ∷ []))
checksum-detects_example =
    checksum-detects (1 ∷ []) (2 ∷ []) 5 6 5 7
      (omega arith, (omega arith, (omega arith, (omega arith, tt))))
      (omega arith, (omega arith, (omega arith, (omega arith, tt)))) (λ e. ground (arith, e.1))

-- The line of the message with another checksum, and a byte after it.
abbrev wrong_line : List ℕ
wrong_line = line b'0' b'1' b'm' payload 0x1234 (9 ∷ [])

abbrev receiving_wrong : Asc
receiving_wrong = record asc { in_buf = push_all wrong_line asc.in_buf }

receiving_wrong-Holds : Holds 64 wrong_line receiving_wrong.in_buf
unfolding hex4
receiving_wrong-Holds =
    (push_all-HoldsAt wrong_line (ring_at-HoldsAt 60 (omega arith)) (omega arith)).holds

is_wrong : 0x1234 ≢ crc_of (checked b'0' b'1' b'm' payload)
unfolding crc_of Tbl4bit.finalize Tbl4bit.update Tbl4bit.init
is_wrong e = ground (arith, e)

get_message-Dropped_example :
    Dropped 64
      (9 ∷ [])
      receiving_wrong
      no_message
      (get_message_from_input_buffer (record { asc = receiving_wrong; message = no_message }))
get_message-Dropped_example =
    get_message-Dropped payload-IsSendable 0x1234 [] (9 ∷ []) receiving_wrong no_message
      receiving_wrong-Holds tt (omega arith) (omega arith) refl (omega arith) is_wrong

-- The two bytes of the payload have changed.
abbrev changed : List ℕ
changed = b'a' ∷ b'c' ∷ []

changed-IsSendable : IsSendable b'0' b'1' b'm' changed
changed-IsSendable = ground arith

abbrev changed_line : List ℕ
changed_line = line b'0' b'1' b'm' changed (crc_of (checked b'0' b'1' b'm' payload)) (9 ∷ [])

abbrev receiving_changed : Asc
receiving_changed = record asc { in_buf = push_all changed_line asc.in_buf }

receiving_changed-Holds : Holds 64 changed_line receiving_changed.in_buf
unfolding hex4
receiving_changed-Holds =
    (push_all-HoldsAt changed_line (ring_at-HoldsAt 60 (omega arith)) (omega arith)).holds

get_message-Detected_example :
    Dropped 64
      (9 ∷ [])
      receiving_changed
      no_message
      (get_message_from_input_buffer (record { asc = receiving_changed; message = no_message }))
get_message-Detected_example =
    get_message-Detected payload-IsSendable changed-IsSendable (b'>' ∷ b'0' ∷ b'1' ∷ b'm' ∷ [])
      (b'.' ∷ []) b'a' b'b' b'a' b'c' refl refl (λ e. ground (arith, e.1)) [] (9 ∷ [])
      receiving_changed no_message receiving_changed-Holds tt (omega arith) (omega arith) refl
