-- ===== src/Tests/Device.antt =====
-- Witnesses for the registers and the device.
use ascii_serial_com_c.Prelude.{
  ℕ, ◌+◌, ◌*◌, ◌≡◌, ◌-◌, ◌^◌, ◌<◌, arith, refl, replicate, List, [], ◌∷◌, ◌++◌, Bool, true, false,
  none, some, command_not_implemented, Absent, bit_and,
}
use ascii_serial_com_c.CircularBuffer.Becomes.{Holds}
use ascii_serial_com_c.CircularBuffer.Pushes.{push_all, push_all-HoldsAt}
use ascii_serial_com_c.Asc.Frame.{frame, ending, hex4, IsSendable}
use ascii_serial_com_c.Registers.{RegWidth, Call}
use ascii_serial_com_c.Registers.Pointers.{Registers, RegisterPointers, masked, handle_message}
use ascii_serial_com_c.Registers.WriteMask.{masked_lem}
use ascii_serial_com_c.Registers.Unchanged.{handle_message_unchanged}
use ascii_serial_com_c.Registers.Reply.{number, value_digits}
use ascii_serial_com_c.Registers.Requests.{written}
use ascii_serial_com_c.Device.{Device, receive}
use ascii_serial_com_c.Device.Polling.{ascd_config}
use ascii_serial_com_c.Device.Dispatch.{Answered, receive_read-Answered, receive_write-Answered}
use ascii_serial_com_c.Asc.PutError.{error_data}
use ascii_serial_com_c.Device.Refused.{IsUnknown, Refused, receive-Refused}
use ascii_serial_com_c.Tests.{ring_at, ring_at-HoldsAt, asc}

masked_lem_example :
    (bit_and (masked 8 0xff 0x0f 0x30) 0x0f ≡ bit_and 0xff 0x0f)
    × (bit_and (masked 8 0xff 0x0f 0x30) (2 ^ 8 - 1 - 0x0f) ≡ bit_and 0x30 (2 ^ 8 - 1 - 0x0f))
masked_lem_example = masked_lem 8 0xff 0x0f 0x30 (omega arith)

abbrev register_pointers : RegisterPointers
register_pointers = record {
  pointers = none ∷ some 7 ∷ [];
  write_masks = 0 ∷ 0xff ∷ [];
  n_regs = 2;
}

abbrev registers : Registers
registers = record {
  register_pointers = some register_pointers;
  memory = λ address. address * 0x100 + 0x34;
}

abbrev device : List ℕ → Device Registers (Unit {0}) Bool
device input = record {
  asc = record asc { in_buf = push_all input (ring_at 60) };
  message = record {
    asc_version = 0;
    app_version = 0;
    command = 0;
    bytes = replicate 54 0;
    data_len = 0;
  };
  config = ascd_config RegWidth.four registers false;
}

versions :
    (c : ℕ)
    → Absent b'>' (c ∷ [])
    → Absent b'.' (c ∷ [])
    → Absent 0x0a (c ∷ [])
    → c < 256
    → IsSendable b'0' b'0' c []
versions c p q r lt = record {
  bytes = (omega arith, (omega arith, (omega arith, (lt, tt))));
  no_start = (omega arith, (omega arith, p));
  no_period = (omega arith, (omega arith, q));
  no_newline = (omega arith, (omega arith, r));
}

read_versions : IsSendable b'0' b'0' b'r' []
read_versions = versions b'r' (omega arith, tt) (omega arith, tt) (omega arith, tt) (omega arith)

write_versions : IsSendable b'0' b'0' b'w' []
write_versions = versions b'w' (omega arith, tt) (omega arith, tt) (omega arith, tt) (omega arith)

junk-Absent : Absent 0x0a (7 ∷ [])
junk-Absent = (omega arith, tt)

abbrev read_input : List ℕ
read_input = (7 ∷ []) ++ (frame b'0' b'0' b'r' (number 1 false) ++ (9 ∷ []))

read_input-Holds : Holds 64 read_input (device read_input).asc.in_buf
unfolding ending hex4
read_input-Holds =
    (push_all-HoldsAt read_input (ring_at-HoldsAt 60 (omega arith)) (omega arith)).holds

receive_read-Answered_example :
    Answered 64
      (9 ∷ [])
      10
      (frame b'0' b'0' b'r' (number 1 false ++ (b',' ∷ value_digits RegWidth.four 0x734)))
      registers
      (device read_input)
      (receive (device read_input))
receive_read-Answered_example =
    receive_read-Answered RegWidth.four (device read_input) register_pointers b'0' b'0' 1 false
      (some 7) (7 ∷ []) (9 ∷ []) [] 10 refl refl read_versions (omega arith) (omega arith) refl
      (omega arith) read_input-Holds junk-Absent (omega arith) (ring_at-HoldsAt 10 (omega arith))
      (omega arith) (omega arith)

abbrev write_input : List ℕ
write_input =
    (7 ∷ [])
    ++ (frame b'0' b'0' b'w' (number 1 false ++ (b',' ∷ value_digits RegWidth.four 0xab))
        ++ (9 ∷ []))

write_input-Holds : Holds 64 write_input (device write_input).asc.in_buf
unfolding ending hex4
write_input-Holds =
    (push_all-HoldsAt write_input (ring_at-HoldsAt 60 (omega arith)) (omega arith)).holds

receive_write-Answered_example :
    Answered 64
      (9 ∷ [])
      10
      (frame b'0' b'0' b'w' (number 1 false))
      (written RegWidth.four registers 7 0xab 0xff)
      (device write_input)
      (receive (device write_input))
receive_write-Answered_example =
    receive_write-Answered RegWidth.four (device write_input) register_pointers b'0' b'0' 1 false 7
      0xab 0xff (7 ∷ []) (9 ∷ []) [] 10 refl refl write_versions (omega arith) (omega arith) refl
      refl (omega arith) write_input-Holds junk-Absent (omega arith)
      (ring_at-HoldsAt 10 (omega arith)) (omega arith) (omega arith)

abbrev call : Call Registers
call = record { asc = asc; bytes = number 1 true ++ replicate 50 0; state = registers }

handle_message_unchanged_example :
    (handle_message RegWidth.four b'0' b'0' b'r' 4 call).1.state ≡ registers
handle_message_unchanged_example =
    handle_message_unchanged RegWidth.four b'0' b'0' b'r' 4 call (omega arith)

q_versions : IsSendable b'0' b'0' b'q' (1 ∷ [])
q_versions = ground arith

abbrev q_input : List ℕ
q_input = (7 ∷ []) ++ (frame b'0' b'0' b'q' (1 ∷ []) ++ (9 ∷ []))

q_input-Holds : Holds 64 q_input (device q_input).asc.in_buf
unfolding ending hex4
q_input-Holds = (push_all-HoldsAt q_input (ring_at-HoldsAt 60 (omega arith)) (omega arith)).holds

q-IsUnknown : IsUnknown b'q'
q-IsUnknown = ground arith

receive-Refused_example :
    Refused 64
      (9 ∷ [])
      10
      (frame b'0' b'0' b'e' (error_data b'q' command_not_implemented (1 ∷ [])))
      (device q_input)
      (receive (device q_input))
receive-Refused_example =
    receive-Refused (device q_input) q_versions q-IsUnknown (7 ∷ []) (9 ∷ []) [] 10 q_input-Holds
      junk-Absent (omega arith) (omega arith) (ring_at-HoldsAt 10 (omega arith)) (omega arith)
      (omega arith)
