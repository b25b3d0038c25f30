-- ===== src/Native/Loopback.antt =====
-- native/ascii_serial_com_dummy_loopback_device.c: sends back each message or, raw, each byte.
-- The rings of `cb_io` are those of `asc` or, in the raw mode, `buffer` as both: they are lent to it
-- for each call, which changes at most one of the two.
pub mod Echoes
use ascii_serial_com_c.Prelude.{
  ℕ, Bool, true, false, not, List, [], ◌∷◌, Option, none, some, ◌==◌, ◌&&◌, if◌then◌else◌, Outcome,
  M, ◌>>=◌, ◌>>◌, pure, gets, modify, when, ok, length,
}
use ascii_serial_com_c.CircularBuffer
use ascii_serial_com_c.CircularBuffer.{CircularBuffer, is_empty}
use ascii_serial_com_c.IoFdPoll
use ascii_serial_com_c.IoFdPoll.{IoFdPoll, do_poll, do_input, do_output}
use ascii_serial_com_c.Asc
use ascii_serial_com_c.Asc.{Asc}
use ascii_serial_com_c.Asc.Receive.{Receiver}
use ascii_serial_com_c.Echo.{echo}
use ascii_serial_com_c.Native.{Files, Round, is_option, open_files, try_catch}

abbrev pub buf_cap : ℕ
buf_cap = 64

-- The static variables; `rx` has `asc` and those for a message.
pub record Loopback : Type 0 where
  pub buffer : CircularBuffer
  pub rx : Receiver
  pub cb_io : IoFdPoll
  pub raw_loopback : Bool
  pub timeout : Option ℕ

abbrev pub in_ring : Loopback → CircularBuffer
in_ring p = if p.raw_loopback then p.buffer else p.rx.asc.in_buf

abbrev pub out_ring : Loopback → CircularBuffer
out_ring p = if p.raw_loopback then p.buffer else p.rx.asc.out_buf

abbrev pub with_in_ring : CircularBuffer → Loopback → Loopback
with_in_ring cb p =
    if p.raw_loopback
    then record p { buffer = cb }
    else record p { rx = record (p.rx) { asc = record (p.rx.asc) { in_buf = cb } } }

abbrev pub with_out_ring : CircularBuffer → Loopback → Loopback
with_out_ring cb p =
    if p.raw_loopback
    then record p { buffer = cb }
    else record p { rx = record (p.rx) { asc = record (p.rx.asc) { out_buf = cb } } }

abbrev pub lent : Loopback → IoFdPoll
lent p = record (p.cb_io) { in_buf = in_ring p; out_buf = out_ring p }

abbrev after_input : Loopback → {A : Type 0} → Outcome A × IoFdPoll → Outcome A × Loopback
after_input p (r, io) = (r, with_in_ring io.in_buf (record p { cb_io = io }))

abbrev after_output : Loopback → {A : Type 0} → Outcome A × IoFdPoll → Outcome A × Loopback
after_output p (r, io) = (r, with_out_ring io.out_buf (record p { cb_io = io }))

-- circular_buffer_io_fd_poll_do_input and do_output on `cb_io`.
unfoldable pub input : Round → M Loopback ℕ
input round p = after_input p (do_input (round.read p.cb_io.fd_in) (lent p))

unfoldable pub output : Round → M Loopback ℕ
output round p = after_output p (do_output (round.write p.cb_io.fd_out) (lent p))

abbrev with_rx : Loopback → {A : Type 0} → Outcome A × Receiver → Outcome A × Loopback
with_rx p (r, rx) = (r, record p { rx = rx })

abbrev pub on_rx : {A : Type 0} → M Receiver A → M Loopback A
on_rx m p = with_rx p (m p.rx)

abbrev with_asc : Loopback → {A : Type 0} → Outcome A × Asc → Outcome A × Loopback
with_asc p (r, asc) = (r, record p { rx = record (p.rx) { asc = asc } })

abbrev with_buffer : Loopback → {A : Type 0} → Outcome A × CircularBuffer → Outcome A × Loopback
with_buffer p (r, cb) = (r, record p { buffer = cb })

-- The Try block before the loop, with the memory of the rings.
unfoldable pub setup : List ℕ → List ℕ → ℕ → ℕ → M Loopback (Option ℕ)
setup buffer_raw raw_buffer infileno outfileno = do
  λ p. with_buffer p (CircularBuffer.init buf_cap buffer_raw p.buffer)
  λ p. with_asc p (Asc.init raw_buffer p.rx.asc)
  modify λ p. record p { cb_io = IoFdPoll.init (in_ring p) (out_ring p) infileno outfileno p.cb_io }
  pure none

-- The Try block of the loop, after a poll without an error.
unfoldable pub transfer : Round → M Loopback (Option ℕ)
unfolding input output
transfer round = do
  n_read ← input round
  raw ← gets (λ p. p.raw_loopback)
  when (not raw) (on_rx echo)
  n_written ← output round
  modify λ p. record p {
    timeout = if not p.raw_loopback && not (is_empty p.rx.asc.in_buf) then some 5 else none;
  }
  pure none

unfoldable pub loop_body : Round → M Loopback (Option ℕ)
unfolding transfer
loop_body round p =
    let (code, io) = do_poll (round.poll p.timeout) (lent p) in
    let polled = record p { cb_io = io } in
    if not (code == 0) then (ok (some 1), polled) else transfer round polled

-- `while (true)`: after an exception the loop goes on.
unfoldable pub main_loop : List Round → M Loopback (Option ℕ)
unfolding loop_body
main_loop [] = pure none
main_loop (round ∷ rounds) = do
  status ← try_catch (loop_body round) (λ e. pure none)
  elim status [ none ↦ main_loop rounds | some n ↦ pure (some n) ]

-- After the check of the arguments.
unfoldable pub run : List ℕ → List ℕ → Option (ℕ × ℕ) → List Round → M Loopback (Option ℕ)
unfolding setup main_loop
run buffer_raw raw_buffer none rounds = pure (some 1)
run buffer_raw raw_buffer (some (infileno, outfileno)) rounds = do
  status ← try_catch (setup buffer_raw raw_buffer infileno outfileno) (λ e. pure (some 1))
  elim status [ none ↦ main_loop rounds | some n ↦ pure (some n) ]

-- `arguments` stand after the program's name.
unfoldable pub main : List ℕ → List ℕ → Files → List (List ℕ) → List Round → M Loopback (Option ℕ)
unfolding run open_files
main buffer_raw raw_buffer files [] rounds = do
  modify λ p. record p { raw_loopback = false }
  run buffer_raw raw_buffer (open_files files []) rounds
main buffer_raw raw_buffer files (argument ∷ arguments) rounds = do
  modify λ p. record p { raw_loopback = false }
  if is_option b'-' b'h' argument then pure (some 0) else (do
    let raw = is_option b'-' b'l' argument
    modify λ p. record p { raw_loopback = raw }
    if (length arguments == 0) && not raw
        then pure (some 1)
        else run buffer_raw raw_buffer (open_files files (argument ∷ arguments)) rounds)
