-- ===== src/Native/Loopback/Echoes.antt =====
-- One round of the loopback program, from the bytes read to the frame that waits to be written.
use ascii_serial_com_c.Prelude.{
  ℕ, ◌+◌, ◌≤◌, ◌<◌, ◌≡◌, refl, ◌∙◌, true, false, not, List, ◌++◌, length, Absent, Outcome, Option,
  none, some, ok, arith, if◌then◌else◌,
}
use mathlib.Core.Path.{subst}
use ascii_serial_com_c.CircularBuffer.{CircularBuffer, is_empty}
use ascii_serial_com_c.CircularBuffer.Becomes.{Holds}
use ascii_serial_com_c.CircularBuffer.Pushes.{HoldsAt, push_all, push_all-HoldsAt}
use ascii_serial_com_c.CircularBuffer.Fd.{push_back_from_fd}
use ascii_serial_com_c.CircularBuffer.Fd.Read.{available, push_back_from_fd-some}
use ascii_serial_com_c.Asc.{Asc, max_message_len}
use ascii_serial_com_c.Asc.Frame.{frame, IsSendable}
use ascii_serial_com_c.Asc.Receive.{Message, Receiver}
use ascii_serial_com_c.Echo.{echo}
use ascii_serial_com_c.Echo.Echoed.{echo-Echoed}
use ascii_serial_com_c.IoFdPoll.{Flags, IoFdPoll, do_input, do_output}
use ascii_serial_com_c.IoFdPoll.Polled.{asked, fails, failed, do_poll_fine}
use ascii_serial_com_c.Native.{Round}
use ascii_serial_com_c.Native.Loopback.{Loopback, input, output, transfer, loop_body}

-- The program without -l.
abbrev pub echoing : CircularBuffer → Receiver → IoFdPoll → Option ℕ → Loopback
echoing buffer rx cb_io timeout = record {
  buffer = buffer;
  rx = rx;
  cb_io = cb_io;
  raw_loopback = false;
  timeout = timeout;
}

abbrev rings : IoFdPoll → Receiver → IoFdPoll
rings cb_io rx = record cb_io { in_buf = rx.asc.in_buf; out_buf = rx.asc.out_buf }

-- The calls of the Try block when there is nothing to write.
transfer-returns :
    (round : Round) (buffer in_buf : CircularBuffer) (rx rx' : Receiver) (cb_io : IoFdPoll)
    (timeout : Option ℕ) (n_read : ℕ)
    → cb_io.fds_in.revents.pollin ≡ true
    → cb_io.fds_out.revents.pollout ≡ false
    → push_back_from_fd (round.read cb_io.fd_in) rx.asc.in_buf ≡ (ok n_read, in_buf)
    → echo (record rx { asc = record (rx.asc) { in_buf = in_buf } }) ≡ (ok tt, rx')
    → transfer round (echoing buffer rx cb_io timeout) ≡ (
      ok none,
      echoing buffer rx' (rings cb_io rx') (if not (is_empty rx'.asc.in_buf) then some 5 else none),
    )
unfolding transfer input output do_input do_output
transfer-returns round buffer in_buf rx rx' cb_io timeout n_read ready idle i e =
    simp (ready, idle, i, e)

-- With the rings and what poll gave back.
abbrev polled : IoFdPoll → Receiver → Flags → Flags → IoFdPoll
polled cb_io rx in_flags out_flags = record (rings cb_io rx) {
  fds_in = record (cb_io.fds_in) { revents = in_flags };
  fds_out = record { events = asked (is_empty rx.asc.out_buf); revents = out_flags };
}

loop_body-transfer :
    (round : Round) (buffer : CircularBuffer) (rx : Receiver) (cb_io : IoFdPoll)
    (timeout : Option ℕ) (in_flags out_flags : Flags)
    → round.poll timeout cb_io.fds_in.events (asked (is_empty rx.asc.out_buf))
      ≡ some (in_flags, out_flags)
    → fails (rings cb_io rx) in_flags out_flags ≡ false
    → loop_body round (echoing buffer rx cb_io timeout)
      ≡ transfer round (echoing buffer rx (polled cb_io rx in_flags out_flags) timeout)
unfolding loop_body
loop_body-transfer round buffer rx cb_io timeout in_flags out_flags polls fine =
    rw (do_poll_fine (round.poll timeout) (rings cb_io rx) in_flags out_flags polls fine) refl

-- The round ends normally, the frame waits in the output behind what was there, and the input
-- buffer holds what followed it; if that is something, the next poll waits 5 ms at most.
pub record Echoes (v a c : ℕ) (payload q pre : List ℕ) (start : ℕ)
    (result : Outcome (Option ℕ) × Loopback) : Type 0 where
  pub buffer : CircularBuffer
  pub rx : Receiver
  pub cb_io : IoFdPoll
  pub returns :
      result
      ≡ (ok none, echoing buffer rx cb_io (if not (is_empty rx.asc.in_buf) then some 5 else none))
  pub in_holds : Holds max_message_len q rx.asc.in_buf
  pub out_holds : HoldsAt max_message_len start (pre ++ frame v a c payload) rx.asc.out_buf

module _ {v a c : ℕ} {payload : List ℕ} (s : IsSendable v a c payload) where
  -- Let the loopback program run without -l, let poll report that the input can be read and the
  -- output cannot be written, without an error, and let read give bytes that complete, behind
  -- those that the input buffer holds, a frame with only bytes other than line feeds in front. If
  -- the bytes fit into the input buffer, the command is not the zero byte, the program's array has
  -- room for the payload, and the frame fits into the output buffer and starts in the part of the
  -- storage that has not wrapped around, then one round of the main loop ends without an
  -- exception, with the same frame appended to the output, what followed the frame in the input,
  -- and a timeout of 5 ms exactly if that is not empty.
  pub loop_body-Echoes :
      (round : Round) (buffer : CircularBuffer) (asc : Asc) (m : Message) (cb_io : IoFdPoll)
      (timeout : Option ℕ) (in_flags out_flags : Flags) (held bytes junk q pre : List ℕ) (start : ℕ)
      → round.poll timeout cb_io.fds_in.events (asked (is_empty asc.out_buf))
        ≡ some (in_flags, out_flags)
      → failed in_flags ≡ false
      → failed out_flags ≡ false
      → in_flags.pollin ≡ true
      → out_flags.pollout ≡ false
      → Holds max_message_len held asc.in_buf
      → round.read cb_io.fd_in (available asc.in_buf) ≡ some bytes
      → length bytes ≤ available asc.in_buf
      → length held + length bytes ≤ max_message_len
      → held ++ bytes ≡ junk ++ (frame v a c payload ++ q)
      → Absent 0x0a junk
      → 0 < c
      → length payload ≤ length m.bytes
      → HoldsAt max_message_len start pre asc.out_buf
      → length pre + length payload + 10 ≤ max_message_len
      → start + length pre ≤ max_message_len
      → Echoes v a c payload q pre start
          (loop_body round (echoing buffer (record { asc = asc; message = m }) cb_io timeout))
  loop_body-Echoes round buffer asc m cb_io timeout in_flags out_flags held bytes junk q pre start
        polls in_fine out_fine ready idle holds reads fits room line clean command array h space
        before =
      let rx : Receiver = record { asc = asc; message = m } in
      let pushed =
        push_all-HoldsAt {start = asc.in_buf.i_start} bytes
          (record { holds = holds; same_start = refl }) room in
      let echoed =
        echo-Echoed s junk q pre start (record asc { in_buf = push_all bytes asc.in_buf }) m command
          (subst (λ l. Holds max_message_len l (push_all bytes asc.in_buf)) line pushed.holds) clean
          array h space before in
      record {
        buffer = buffer;
        rx = record { asc = _; message = echoed.message };
        cb_io = _;
        returns =
            loop_body-transfer round buffer rx cb_io timeout in_flags out_flags polls
              (ground (arith, in_fine, out_fine))
            ∙ transfer-returns round buffer _ rx _ (polled cb_io rx in_flags out_flags) timeout
                (length bytes) ready idle
                (push_back_from_fd-some (round.read cb_io.fd_in) bytes holds.valid
                  (omega (arith, holds.same_capacity)) reads fits)
                echoed.returns;
        in_holds = echoed.in_holds;
        out_holds = echoed.out_holds;
      }
