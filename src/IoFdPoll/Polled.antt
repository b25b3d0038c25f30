-- ===== src/IoFdPoll/Polled.antt =====
-- What a poll asks for and when it succeeds.
use mathlib.Core.Path.{subst}
use ascii_serial_com_c.Prelude.{
  ℕ, ◌≡◌, refl, ◌∙◌, sym, ap, Bool, true, false, not, some, ◌&&◌, ◌||◌, if◌then◌else◌, arith,
}
use ascii_serial_com_c.CircularBuffer.{is_empty}
use ascii_serial_com_c.IoFdPoll.{
  Flags, no_flags, IoFdPoll, Poll, output_events, status, after_poll, do_poll,
}

-- An error that ends the program.
abbrev pub failed : Flags → Bool
failed flags = flags.pollerr || flags.pollhup || flags.pollnval

-- The status is 0 unless the output failed, or the input did with nothing left in the rings.
abbrev pub fails : IoFdPoll → Flags → Flags → Bool
fails cb_io in_flags out_flags =
    failed out_flags || (failed in_flags && is_empty cb_io.in_buf && is_empty cb_io.out_buf)

-- The flags asked for on the output: to write only if there is something to write.
abbrev pub asked : Bool → Flags
asked empty = record no_flags { pollout = not empty; pollhup = true }

output_events_lem : (cb_io : IoFdPoll) → output_events cb_io ≡ asked (is_empty cb_io.out_buf)
unfolding output_events
output_events_lem cb_io = cases (is_empty cb_io.out_buf)
  where
    cases :
        (empty : Bool)
        → (if not empty
            then record no_flags { pollout = true; pollhup = true }
            else record no_flags { pollhup = true })
          ≡ asked empty
    cases true = refl
    cases false = refl

status_cases :
    (empty_out empty_in in_failed err hup nval : Bool)
    → ◌≡◌ {A = ℕ}
        (if empty_out && empty_in && in_failed
          then 1
          else if err
          then 1
          else if hup
          then 1
          else if nval
          then 1
          else 0)
        (if (err || hup || nval) || (in_failed && empty_in && empty_out) then 1 else 0)
status_cases empty_out empty_in in_failed err hup nval = ground arith

-- The poll returned, and this is what the rings and the flags are then.
pub record IsPolled (cb_io : IoFdPoll) (in_flags out_flags : Flags) (result : ℕ × IoFdPoll)
    : Type 0 where
  pub returned : result.0 ≡ (if fails cb_io in_flags out_flags then 1 else 0)
  pub same_in_buf : result.1.in_buf ≡ cb_io.in_buf
  pub same_out_buf : result.1.out_buf ≡ cb_io.out_buf
  pub in_revents : result.1.fds_in.revents ≡ in_flags
  pub out_revents : result.1.fds_out.revents ≡ out_flags

-- do_poll asks for writing on the output exactly if the output buffer is not empty, and always for
-- its hang-up. If poll then returns flags, the status is 1 exactly if the output has an error, a
-- hang-up or an invalid descriptor, or if the input has one and both buffers are empty; otherwise
-- it is 0. The buffers are unchanged and the flags are recorded.
pub do_poll-IsPolled :
    (poll : Poll) (cb_io : IoFdPoll) (in_flags out_flags : Flags)
    → poll cb_io.fds_in.events (asked (is_empty cb_io.out_buf)) ≡ some (in_flags, out_flags)
    → IsPolled cb_io in_flags out_flags (do_poll poll cb_io)
unfolding do_poll after_poll status
do_poll-IsPolled poll cb_io in_flags out_flags e =
    subst (IsPolled cb_io in_flags out_flags)
      (sym (
        ap
          (λ o.
            after_poll o
              (record cb_io { fds_out = record (cb_io.fds_out) { events = output_events cb_io } }))
          (ap (poll cb_io.fds_in.events) (output_events_lem cb_io) ∙ e)))
      (record {
        returned =
            status_cases (is_empty cb_io.out_buf) (is_empty cb_io.in_buf) (failed in_flags)
              out_flags.pollerr out_flags.pollhup out_flags.pollnval;
        same_in_buf = refl;
        same_out_buf = refl;
        in_revents = refl;
        out_revents = refl;
      })

-- A poll without an error: the status is 0, and the flags are recorded.
pub do_poll_fine :
    (poll : Poll) (cb_io : IoFdPoll) (in_flags out_flags : Flags)
    → poll cb_io.fds_in.events (asked (is_empty cb_io.out_buf)) ≡ some (in_flags, out_flags)
    → fails cb_io in_flags out_flags ≡ false
    → do_poll poll cb_io ≡ (
      0,
      record cb_io {
        fds_in = record (cb_io.fds_in) { revents = in_flags };
        fds_out = record { events = asked (is_empty cb_io.out_buf); revents = out_flags };
      },
    )
unfolding do_poll after_poll status
do_poll_fine poll cb_io in_flags out_flags e fine =
    ap
      (λ events.
        after_poll (poll cb_io.fds_in.events events)
          (record cb_io { fds_out = record (cb_io.fds_out) { events = events } }))
      (output_events_lem cb_io)
    ∙ ap
        (λ o. after_poll o (record cb_io {
          fds_out = record (cb_io.fds_out) { events = asked (is_empty cb_io.out_buf) };
        }))
        e
    ∙ ap
        (λ code. (
          code,
          record cb_io {
            fds_in = record (cb_io.fds_in) { revents = in_flags };
            fds_out = record { events = asked (is_empty cb_io.out_buf); revents = out_flags };
          },
        ))
        (status_cases (is_empty cb_io.out_buf) (is_empty cb_io.in_buf) (failed in_flags)
            out_flags.pollerr out_flags.pollhup out_flags.pollnval
          ∙ ap (λ b. if b then 1 else 0) fine)
