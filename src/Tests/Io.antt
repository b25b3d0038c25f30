-- ===== src/Tests/Io.antt =====
-- Witnesses for writes to a file descriptor and for polling.
use ascii_serial_com_c.Prelude.{
  ℕ, zero, suc, sym, file_read, ◌≡◌, ◌≤◌, ◌⊎◌, arith, refl, true, List, [], ◌∷◌, length, drop,
  Option, none, some, ok, throw, file_write,
}
use ascii_serial_com_c.CircularBuffer.{is_empty}
use ascii_serial_com_c.CircularBuffer.Becomes.{Holds}
use ascii_serial_com_c.CircularBuffer.Refine.{contents}
use ascii_serial_com_c.CircularBuffer.Fd.{pop_front_to_fd, push_back_from_fd}
use ascii_serial_com_c.CircularBuffer.Fd.Read.{available, push_back_from_fd_lem}
use ascii_serial_com_c.CircularBuffer.Pushes.{push_all}
use ascii_serial_com_c.CircularBuffer.Fd.Written.{offered, pop_front_to_fd_lem}
use ascii_serial_com_c.IoFdPoll.{no_flags, IoFdPoll, Poll, do_poll}
use ascii_serial_com_c.IoFdPoll.Polled.{IsPolled, asked, do_poll-IsPolled}
use ascii_serial_com_c.Tests.{ring_at, wrapped, wrapped-IsValid}

-- A descriptor that takes one byte at a time, and fails without any.
abbrev write_one : List ℕ → Option ℕ
write_one [] = none
write_one (x ∷ block) = some 1

write_one-bounded : (block : List ℕ) (n : ℕ) → write_one block ≡ some n → n ≤ length block
write_one-bounded [] n e = ground (arith, e)
write_one-bounded (x ∷ block) n e = ground (arith, e)

pop_front_to_fd_lem_example :
    let (result, cb') = pop_front_to_fd write_one wrapped in
    ((write_one (offered wrapped-IsValid) ≡ none) × ((result ≡ throw file_write) × (cb' ≡ wrapped)))
    ⊎ ((n : ℕ) × ((write_one (offered wrapped-IsValid) ≡ some n)
          × ((result ≡ ok n) × Holds 4 (drop n (contents wrapped)) cb')))
pop_front_to_fd_lem_example = pop_front_to_fd_lem wrapped-IsValid write_one write_one-bounded

-- A descriptor that gives one byte, and fails when asked for none.
abbrev read_one : ℕ → Option (List ℕ)
read_one zero = none
read_one (suc count) = some (5 ∷ [])

read_one-bounded : (count : ℕ) (bytes : List ℕ) → read_one count ≡ some bytes → length bytes ≤ count
read_one-bounded zero bytes e = ground (arith, e)
read_one-bounded (suc count) bytes e = let same : 5 ∷ [] ≡ bytes = cc in rw (sym same) (omega arith)

push_back_from_fd_lem_example :
    ((read_one (available wrapped) ≡ none)
      × (push_back_from_fd read_one wrapped ≡ (throw file_read, wrapped)))
    ⊎ ((bytes : List ℕ) × ((read_one (available wrapped) ≡ some bytes)
          × (push_back_from_fd read_one wrapped ≡ (ok (length bytes), push_all bytes wrapped))))
push_back_from_fd_lem_example =
    push_back_from_fd_lem read_one wrapped-IsValid (omega arith) read_one-bounded

abbrev cb_io : IoFdPoll
cb_io = record {
  in_buf = ring_at 0;
  out_buf = wrapped;
  fd_in = 0;
  fd_out = 1;
  fds_in = record { events = record no_flags { pollin = true }; revents = no_flags };
  fds_out = record { events = no_flags; revents = no_flags };
}

abbrev echo : Poll
echo in_events out_events = some (in_events, out_events)

do_poll-IsPolled_example :
    IsPolled cb_io
      (record no_flags { pollin = true })
      (asked (is_empty wrapped))
      (do_poll echo cb_io)
do_poll-IsPolled_example =
    do_poll-IsPolled echo cb_io (record no_flags { pollin = true }) (asked (is_empty wrapped)) refl
