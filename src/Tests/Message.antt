-- ===== src/Tests/Message.antt =====
-- Witnesses for the messages, the checksums and the digits.
use ascii_serial_com_c.Prelude.{
  ℕ, true, ◌≡◌, arith, refl, ok, fault, replicate, List, [], ◌∷◌, ◌++◌, false, Absent, ◌>>=◌,
}
use ascii_serial_com_c.CircularBuffer.{CircularBuffer}
use ascii_serial_com_c.CircularBuffer.Inv.{IsValid}
use ascii_serial_com_c.CircularBuffer.Becomes.{Holds}
use ascii_serial_com_c.CircularBuffer.Block.{get_blocks}
use ascii_serial_com_c.CircularBuffer.Pushes.{push_all, push_all-HoldsAt}
use ascii_serial_com_c.CircularBuffer.Refine.{contents}
use ascii_serial_com_c.Hex.{
  convert_uint8_to_hex, convert_hex_to_uint8, convert_uint32_to_hex, convert_hex_to_uint32,
  convert_uint16_to_hex, convert_hex_to_uint16,
}
use ascii_serial_com_c.Hex.RoundTrips.{hex_round_trips}
use ascii_serial_com_c.Crc.Tbl4bit
use ascii_serial_com_c.Crc.FastWidth.{FastWidth}
use ascii_serial_com_c.Crc.Bbf
use ascii_serial_com_c.Crc.Bbb
use ascii_serial_com_c.Crc.Augmented.{bit_by_bit-crcmod}
use ascii_serial_com_c.Crc.Crcmod.{compute_crc_16_dnp}
use ascii_serial_com_c.Crc.Agree.{tbl4bit-crcmod}
use ascii_serial_com_c.Asc.{
  Asc, put_message_in_output_buffer, put_s_message_in_output_buffer, update_blocks,
}
use ascii_serial_com_c.Asc.Frame.{IsSendable, frame, ending, hex4}
use ascii_serial_com_c.Asc.PutStream.{s_data, counted, put_s_message-Sent}
use ascii_serial_com_c.Asc.Send.{Sent, put_message-Sent}
use ascii_serial_com_c.Asc.Slice.{update_slice, update_past_end}
use ascii_serial_com_c.Asc.Receive.{Message, get_message_from_input_buffer}
use ascii_serial_com_c.Asc.Receive.Parts.{receiver}
use ascii_serial_com_c.Asc.Receive.Deliver.{Delivered, get_message-Delivered}
use ascii_serial_com_c.Asc.RoundTrip.{round_trip}
use ascii_serial_com_c.Tests.{
  ring_at-HoldsAt, wrapped, wrapped-IsValid, asc, payload, payload-IsSendable,
}

abbrev no_message : Message
no_message = record {
  asc_version = 0;
  app_version = 0;
  command = 0;
  bytes = replicate 54 0;
  data_len = 0;
}

abbrev junk : List ℕ
junk = 7 ∷ b'>' ∷ 8 ∷ []

abbrev message : List ℕ
message = frame b'0' b'1' b'm' payload

-- The frame behind an unfinished one, with a byte after it.
abbrev received : List ℕ
received = junk ++ (message ++ (9 ∷ []))

abbrev receiving : Asc
receiving = record asc { in_buf = push_all received asc.in_buf }

receiving-Holds : Holds 64 received receiving.in_buf
unfolding ending hex4
receiving-Holds = (push_all-HoldsAt received (ring_at-HoldsAt 60 (omega arith)) (omega arith)).holds

junk-Absent : Absent 10 junk
junk-Absent = (omega arith, (omega arith, (omega arith, tt)))

get_message-Delivered_example :
    Delivered 64 b'0' b'1' b'm' payload
      (9 ∷ [])
      receiving
      no_message
      (get_message_from_input_buffer (record { asc = receiving; message = no_message }))
get_message-Delivered_example =
    get_message-Delivered payload-IsSendable junk (9 ∷ []) receiving no_message receiving-Holds
      junk-Absent (omega arith) (omega arith)

put_message-Sent_example :
    Sent b'0' b'1' b'm' payload [] 10 asc
      (put_message_in_output_buffer b'0' b'1' b'm' payload 2 asc)
put_message-Sent_example =
    put_message-Sent payload-IsSendable payload asc (ring_at-HoldsAt 10 (omega arith))
      (refl, (refl, tt)) (omega arith) (omega arith)

noisy : Asc
noisy = record asc { in_buf = push_all junk asc.in_buf }

noisy-Holds : Holds 64 junk noisy.in_buf
unfolding noisy
noisy-Holds = (push_all-HoldsAt junk (ring_at-HoldsAt 60 (omega arith)) (omega arith)).holds

round_trip_example :
    let tx' = (put_message_in_output_buffer b'0' b'1' b'm' payload 2 asc).1 in
    Delivered 64 b'0' b'1' b'm' payload [] noisy no_message (
      get_message_from_input_buffer
        (receiver noisy (push_all (contents tx'.out_buf) noisy.in_buf) no_message))
round_trip_example =
    round_trip payload-IsSendable payload asc 10 (ring_at-HoldsAt 10 (omega arith)) (omega arith)
      (refl, (refl, tt)) (omega arith) junk noisy no_message noisy-Holds junk-Absent (omega arith)
      (omega arith)

hex_round_trips_example :
    let out : List ℕ = replicate 9 0 in
    (convert_hex_to_uint8 {S = Unit {0}} 1 (convert_uint8_to_hex 0xa5 1 false out) tt
      ≡ (ok 0xa5, tt))
    × (convert_hex_to_uint16 {S = Unit {0}} 1 (convert_uint16_to_hex 0xbeef 1 false out) tt
        ≡ (ok 0xbeef, tt))
    × (convert_hex_to_uint32 {S = Unit {0}} 1 (convert_uint32_to_hex 0xdeadbeef 1 true out) tt
        ≡ (ok 0xdeadbeef, tt))
hex_round_trips_example =
    hex_round_trips 0xa5 0xbeef 0xdeadbeef 1 false (replicate 9 0) tt (omega arith) (omega arith)
      (omega arith) (omega arith)

tbl4bit-crcmod_example :
    Tbl4bit.finalize (Tbl4bit.update Tbl4bit.init payload) ≡ compute_crc_16_dnp payload 0xffff
tbl4bit-crcmod_example = tbl4bit-crcmod payload (omega arith, (omega arith, tt))

bit_by_bit-crcmod_example :
    (Bbf.finalize FastWidth.sixteen (Bbf.update FastWidth.sixteen Bbf.init payload)
      ≡ compute_crc_16_dnp payload 0xffff)
    × (Bbb.finalize FastWidth.sixteen (Bbb.update FastWidth.sixteen Bbb.init payload)
        ≡ compute_crc_16_dnp payload 0xffff)
bit_by_bit-crcmod_example =
    bit_by_bit-crcmod FastWidth.sixteen payload (omega arith, (omega arith, tt))

s_payload-IsSendable : IsSendable b'0' b'0' b's' payload
s_payload-IsSendable = ground arith

put_s_message-Sent_example :
    Sent b'0' b'0' b's'
      (s_data 0 payload)
      []
      10
      (counted asc)
      (put_s_message_in_output_buffer b'0' b'0' payload 2 asc)
put_s_message-Sent_example =
    put_s_message-Sent s_payload-IsSendable payload asc (omega arith) (refl, (refl, tt))
      (ring_at-HoldsAt 10 (omega arith)) (omega arith) (omega arith)

update_slice_example :
    (do blocks ← get_blocks 1 2; update_blocks 0 blocks) wrapped
    ≡ (ok (Tbl4bit.update 0 (2 ∷ 3 ∷ [])), wrapped)
update_slice_example =
    update_slice (1 ∷ []) (2 ∷ 3 ∷ []) [] {cb = wrapped} 0
      (record { valid = wrapped-IsValid; held = refl; same_capacity = refl }) (omega arith)
      (omega arith, (omega arith, tt)) (omega arith)

-- The same ring turned by two: its second byte stands behind the end of the storage.
abbrev turned : CircularBuffer
turned = record { capacity = 4; size = 3; i_start = 3; i_stop = 2; buffer = 2 ∷ 3 ∷ 0 ∷ 1 ∷ [] }

turned-IsValid : IsValid turned
turned-IsValid = record {
  pow = (2, refl);
  shape = record {
    small = omega arith;
    positive = omega arith;
    storage = omega arith;
    start_in = omega arith;
    size_in = omega arith;
    stop_at = refl;
  };
}

update_past_end_example :
    (do blocks ← get_blocks 2 1; update_blocks 0 blocks) turned ≡ (fault, turned)
update_past_end_example =
    update_past_end 2 1 0 turned-IsValid refl (omega arith) (omega arith) (omega arith)
