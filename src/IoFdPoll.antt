-- ===== src/IoFdPoll.antt =====
-- circular_buffer_io_fd_poll.c: two rings and two file descriptors, with poll(2).
-- The flags of poll are independent bits, here one field each. poll itself is an argument: what it
-- gives back for the events asked for, `none` for the -1 of an error. read and write are as in
-- CircularBuffer/Fd. The messages to stderr and the print function are left out.
pub mod Polled
use ascii_serial_com_c.Prelude.{
  ℕ, Bool, true, false, not, Option, none, some, List, ◌&&◌, ◌||◌, if◌then◌else◌, Outcome, M, ok,
  throw,
}
use ascii_serial_com_c.CircularBuffer.{CircularBuffer, is_empty}
use ascii_serial_com_c.CircularBuffer.Fd.{push_back_from_fd, pop_front_to_fd}

pub record Flags : Type 0 where
  pub pollin : Bool
  pub pollout : Bool
  pub pollerr : Bool
  pub pollhup : Bool
  pub pollnval : Bool

abbrev pub no_flags : Flags
no_flags = record {
  pollin = false;
  pollout = false;
  pollerr = false;
  pollhup = false;
  pollnval = false;
}

-- struct pollfd, without the descriptor.
pub record PollFd : Type 0 where
  pub events : Flags
  pub revents : Flags

pub record IoFdPoll : Type 0 where
  pub in_buf : CircularBuffer
  pub out_buf : CircularBuffer
  pub fd_in : ℕ
  pub fd_out : ℕ
  pub fds_in : PollFd
  pub fds_out : PollFd

abbrev pub Poll : Type 0
Poll = Flags → Flags → Option (Flags × Flags)

unfoldable pub init : CircularBuffer → CircularBuffer → ℕ → ℕ → IoFdPoll → IoFdPoll
init in_buf out_buf fd_in fd_out cb_io = record {
  in_buf = in_buf;
  out_buf = out_buf;
  fd_in = fd_in;
  fd_out = fd_out;
  fds_in = record { events = record no_flags { pollin = true }; revents = no_flags };
  fds_out = record { events = record no_flags { pollhup = true }; revents = no_flags };
}

-- The events to ask for on the output.
unfoldable pub output_events : IoFdPoll → Flags
output_events cb_io =
    if not (is_empty cb_io.out_buf)
    then record no_flags { pollout = true; pollhup = true }
    else record no_flags { pollhup = true }

-- The status after poll: 1 for a descriptor in error.
unfoldable pub status : IoFdPoll → ℕ
status cb_io =
    let in_flags = cb_io.fds_in.revents in
    let out_flags = cb_io.fds_out.revents in
    if is_empty cb_io.out_buf
      && is_empty cb_io.in_buf
      && (in_flags.pollerr || in_flags.pollhup || in_flags.pollnval)
    then 1
    else if out_flags.pollerr
    then 1
    else if out_flags.pollhup
    then 1
    else if out_flags.pollnval
    then 1
    else 0

-- With what poll gave back.
unfoldable pub after_poll : Option (Flags × Flags) → IoFdPoll → ℕ × IoFdPoll
unfolding status
after_poll none cb_io = (1, cb_io)
after_poll (some (in_flags, out_flags)) cb_io =
    let polled = record cb_io {
      fds_in = record (cb_io.fds_in) { revents = in_flags };
      fds_out = record (cb_io.fds_out) { revents = out_flags };
    } in
    (status polled, polled)

unfoldable pub do_poll : Poll → IoFdPoll → ℕ × IoFdPoll
unfolding after_poll output_events
do_poll poll cb_io =
    let asked = record cb_io {
      fds_out = record (cb_io.fds_out) { events = output_events cb_io };
    } in
    after_poll (poll asked.fds_in.events asked.fds_out.events) asked

abbrev with_out : IoFdPoll → Outcome ℕ × CircularBuffer → Outcome ℕ × IoFdPoll
with_out cb_io (r, cb) = (r, record cb_io { out_buf = cb })

abbrev with_in : IoFdPoll → Outcome ℕ × CircularBuffer → Outcome ℕ × IoFdPoll
with_in cb_io (r, cb) = (r, record cb_io { in_buf = cb })

unfoldable pub do_output : (List ℕ → Option ℕ) → M IoFdPoll ℕ
do_output write cb_io =
    if not cb_io.fds_out.revents.pollout
    then (ok 0, cb_io)
    else with_out cb_io (pop_front_to_fd write cb_io.out_buf)

unfoldable pub do_input : (ℕ → Option (List ℕ)) → M IoFdPoll ℕ
do_input read cb_io =
    if not cb_io.fds_in.revents.pollin
    then (ok 0, cb_io)
    else with_in cb_io (push_back_from_fd read cb_io.in_buf)
