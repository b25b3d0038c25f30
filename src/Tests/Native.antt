-- ===== src/Tests/Native.antt =====
-- Witnesses for the programs of native/.
use ascii_serial_com_c.Prelude.{
  ℕ, ◌-◌, true, arith, refl, replicate, List, [], ◌∷◌, ◌++◌, none, some,
}
use ascii_serial_com_c.CircularBuffer.{push_back}
use ascii_serial_com_c.CircularBuffer.Becomes.{Holds}
use ascii_serial_com_c.CircularBuffer.Pushes.{push_all, push_all-HoldsAt}
use ascii_serial_com_c.Asc.{Asc}
use ascii_serial_com_c.Asc.Frame.{frame, ending, hex4}
use ascii_serial_com_c.Asc.Receive.{Message}
use ascii_serial_com_c.Echo.{echo}
use ascii_serial_com_c.Echo.Echoed.{Echoed, echo-Echoed}
use ascii_serial_com_c.IoFdPoll.{no_flags, Flags, IoFdPoll}
use ascii_serial_com_c.Native.{Round}
use ascii_serial_com_c.Native.Loopback.{loop_body}
use ascii_serial_com_c.Native.Loopback.Echoes.{Echoes, echoing, loop_body-Echoes}
use ascii_serial_com_c.Native.Profiler.{main}
use ascii_serial_com_c.Native.Profiler.Rounds.{Profiled, main-Profiled}
use ascii_serial_com_c.Tests.{ring_at, ring_at-HoldsAt, wrapped, asc, payload, payload-IsSendable}

abbrev pub no_message : Message
no_message = record {
  asc_version = 0;
  app_version = 0;
  command = 0;
  bytes = replicate 54 0;
  data_len = 0;
}

-- strtoul of a single digit.
abbrev digit : List ℕ → ℕ
digit [] = 0
digit (d ∷ argument) = d - b'0'

main-Profiled_example :
    Profiled 3
      (replicate 128 0)
      (record { asc = asc; message = no_message })
      (main (replicate 128 0) digit ((b'3' ∷ []) ∷ []) (record { asc = asc; message = no_message }))
main-Profiled_example =
    main-Profiled (replicate 128 0) digit (b'3' ∷ []) []
      (record { asc = asc; message = no_message }) refl (omega arith)

-- The frame behind two other bytes, with a byte after it.
abbrev line : List ℕ
line = (7 ∷ 8 ∷ []) ++ (frame b'0' b'1' b'm' payload ++ (9 ∷ []))

abbrev receiving : Asc
receiving = record asc { in_buf = push_all line asc.in_buf }

receiving-Holds : Holds 64 line receiving.in_buf
unfolding ending hex4
receiving-Holds = (push_all-HoldsAt line (ring_at-HoldsAt 60 (omega arith)) (omega arith)).holds

echo-Echoed_example :
    Echoed 64 b'0' b'1' b'm' payload
      (9 ∷ [])
      []
      10
      receiving
      (echo (record { asc = receiving; message = no_message }))
echo-Echoed_example =
    echo-Echoed payload-IsSendable (7 ∷ 8 ∷ []) (9 ∷ []) [] 10 receiving no_message (omega arith)
      receiving-Holds (omega arith, (omega arith, tt)) (omega arith)
      (ring_at-HoldsAt 10 (omega arith)) (omega arith) (omega arith)

abbrev can_read : Flags
can_read = record no_flags { pollin = true }

-- The rest of a frame arrives, behind what the input buffer holds.
abbrev rest_of_line : List ℕ
rest_of_line = frame b'0' b'1' b'm' payload ++ (9 ∷ [])

abbrev arriving : Round
arriving = record {
  poll = λ timeout in_events out_events. some (can_read, no_flags);
  read = λ fd count. some rest_of_line;
  write = λ fd block. none;
}

abbrev started : Asc
started = record asc { in_buf = push_all (7 ∷ 8 ∷ []) (ring_at 10) }

started-Holds : Holds 64 (7 ∷ 8 ∷ []) started.in_buf
started-Holds =
    (push_all-HoldsAt (7 ∷ 8 ∷ []) (ring_at-HoldsAt 10 (omega arith)) (omega arith)).holds

abbrev cb_io : IoFdPoll
cb_io = record {
  in_buf = ring_at 0;
  out_buf = ring_at 0;
  fd_in = 0;
  fd_out = 1;
  fds_in = record { events = can_read; revents = no_flags };
  fds_out = record { events = no_flags; revents = no_flags };
}

loop_body-Echoes_example : Echoes b'0' b'1' b'm' payload (9 ∷ []) [] 10 (
    loop_body arriving
      (echoing wrapped (record { asc = started; message = no_message }) cb_io none))
unfolding ending hex4 push_all push_back
loop_body-Echoes_example =
    loop_body-Echoes payload-IsSendable arriving wrapped started no_message cb_io none can_read
      no_flags (7 ∷ 8 ∷ []) rest_of_line (7 ∷ 8 ∷ []) (9 ∷ []) [] 10 refl refl refl refl refl
      started-Holds refl (omega arith) (omega arith) refl (omega arith, (omega arith, tt))
      (omega arith) (omega arith) (ring_at-HoldsAt 10 (omega arith)) (omega arith) (omega arith)
