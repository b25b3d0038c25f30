-- ===== src/Native/Profiler/Rounds.antt =====
-- Every round of the profiler decodes what it encoded.
use mathlib.Core.Path.{subst}
use mathlib.Core.List.{append-nil, append_assoc}
use ascii_serial_com_c.Prelude.{
  ℕ, zero, suc, ◌+◌, ◌≤◌, ◌≡◌, refl, ◌∙◌, sym, ap, false, List, [], ◌∷◌, ◌++◌, length,
  length-append, Outcome, ok, arith,
}
use ascii_serial_com_c.CircularBuffer.{CircularBuffer, push_back, get_size}
use ascii_serial_com_c.CircularBuffer.Becomes.{
  Holds, size-Holds, pop_front-Becomes, push_back-Holds,
}
use ascii_serial_com_c.CircularBuffer.Pushes.{HoldsAt}
use ascii_serial_com_c.Asc
use ascii_serial_com_c.Asc.Init.{init-Initialized}
use ascii_serial_com_c.Asc.{Asc, max_message_len, put_message_in_output_buffer}
use ascii_serial_com_c.Asc.Frame.{frame, IsSendable, length-frame}
use ascii_serial_com_c.Asc.Send.{put_message-Sent}
use ascii_serial_com_c.Asc.Receive.{Receiver, on_asc, with_asc, get_message_from_input_buffer}
use ascii_serial_com_c.Asc.Receive.Parts.{fill}
use ascii_serial_com_c.Asc.Receive.Deliver.{get_message-Delivered}
use ascii_serial_com_c.Native.Profiler.{move_char, move_chars, loop_body, main_loop, main}
use ascii_serial_com_c.Native.{is_option}

-- All that the output buffer held stands behind what the input buffer held.
record Moved (in_cap out_cap : ℕ) (q : List ℕ) (asc : Asc) (result : Outcome (Unit {0}) × Asc)
    : Type 0 where
  in_buf : CircularBuffer
  out_buf : CircularBuffer
  returns : result ≡ (ok tt, record asc { in_buf = in_buf; out_buf = out_buf })
  in_holds : Holds in_cap q in_buf
  out_holds : Holds out_cap [] out_buf

move_chars-Moved :
    {in_cap out_cap : ℕ} (p q : List ℕ) (asc : Asc)
    → Holds in_cap p asc.in_buf
    → Holds out_cap q asc.out_buf
    → length p + length q ≤ in_cap
    → Moved in_cap out_cap (p ++ q) asc (move_chars (length q) asc)
unfolding move_chars move_char
move_chars-Moved {in_cap = in_cap} p [] asc i o room = record {
  in_buf = asc.in_buf;
  out_buf = asc.out_buf;
  returns = refl;
  in_holds = subst (λ l. Holds in_cap l asc.in_buf) (sym (append-nil p)) i;
  out_holds = o;
}
move_chars-Moved {in_cap = in_cap} {out_cap = out_cap} p (x ∷ q) asc i o room =
    let popped = pop_front-Becomes o in
    let asc' : Asc = record asc { in_buf = push_back x asc.in_buf; out_buf = popped.after } in
    let rest =
      move_chars-Moved {in_cap = in_cap} {out_cap = out_cap} (p ++ (x ∷ [])) q asc'
        (push_back-Holds x i (omega arith)) popped.holds
        (omega (arith, length-append {0} p (x ∷ []))) in
    record {
      in_buf = rest.in_buf;
      out_buf = rest.out_buf;
      returns = rw popped.returns rest.returns;
      in_holds = subst (λ l. Holds in_cap l rest.in_buf) (append_assoc p (x ∷ []) q) rest.in_holds;
      out_holds = rest.out_holds;
    }

-- Both buffers are empty.
pub record IsIdle (rx : Receiver) : Type 0 where
  pub in_empty : Holds max_message_len [] rx.asc.in_buf
  pub out_empty : Holds max_message_len [] rx.asc.out_buf

z-IsSendable : IsSendable b'0' b'0' b'z' []
z-IsSendable = ground arith

-- The program's variables hold the 'z' message.
pub record Decoded (rx : Receiver) : Type 0 where
  pub asc_version : rx.message.asc_version ≡ b'0'
  pub app_version : rx.message.app_version ≡ b'0'
  pub command : rx.message.command ≡ b'z'
  pub data_len : rx.message.data_len ≡ 0

-- `n` rounds, each of which returns normally and decodes the message.
pub data Rounds : ℕ → Receiver → Receiver → Type 0 where
  finished : {rx : Receiver} → Rounds 0 rx rx
  round :
      {n : ℕ} {rx next last : Receiver}
      → loop_body rx ≡ (ok tt, next)
      → Decoded next
      → Rounds n next last
      → Rounds (suc n) rx last

record Decodes (result : Outcome (Unit {0}) × Receiver) : Type 0 where
  next : Receiver
  returns : result ≡ (ok tt, next)
  decoded : Decoded next
  idle : IsIdle next

loop_body-returns :
    (rx last : Receiver) (sent moved : Asc)
    → put_message_in_output_buffer b'0' b'0' b'z' [] 0 rx.asc ≡ (ok tt, sent)
    → move_chars sent.out_buf.size sent ≡ (ok tt, moved)
    → get_message_from_input_buffer (record { asc = moved; message = rx.message }) ≡ (ok tt, last)
    → loop_body rx ≡ (ok tt, last)
unfolding loop_body get_size
loop_body-returns rx last sent moved p m g = rw (p, m) g

loop_body-Decodes : (rx : Receiver) → IsIdle rx → Decodes (loop_body rx)
unfolding fill
loop_body-Decodes rx idle =
    let sent =
      put_message-Sent {pre = []} z-IsSendable [] rx.asc out_at tt (omega arith)
        (omega (arith, start_lem)) in
    let size_lem : sent.out.size ≡ length line = size-Holds sent.holds.holds in
    let moved =
      move_chars-Moved {in_cap = 64} {out_cap = 64} [] line (record (rx.asc) { out_buf = sent.out })
        idle.in_empty sent.holds.holds (omega (arith, length-frame b'0' b'0' b'z' [])) in
    let d =
      get_message-Delivered {cap = 64} z-IsSendable [] []
        (record (rx.asc) { in_buf = moved.in_buf; out_buf = moved.out_buf }) rx.message
        (subst (λ l. Holds 64 l moved.in_buf) (sym (append-nil line)) moved.in_holds) tt
        (omega arith) (omega arith) in
    record {
      next = record {
        asc = record (rx.asc) { in_buf = d.after; out_buf = moved.out_buf };
        message = record (rx.message) {
          asc_version = b'0';
          app_version = b'0';
          command = b'z';
          data_len = 0;
        };
      };
      returns =
          loop_body-returns rx _ _ _ sent.returns
            (ap (λ n. move_chars n (record (rx.asc) { out_buf = sent.out })) size_lem
              ∙ moved.returns)
            d.returns;
      decoded = record { asc_version = refl; app_version = refl; command = refl; data_len = refl };
      idle = record { in_empty = d.holds; out_empty = moved.out_holds };
    }
  where
    line : List ℕ
    line = frame b'0' b'0' b'z' []

    out_at : HoldsAt max_message_len rx.asc.out_buf.i_start [] rx.asc.out_buf
    out_at = record { holds = idle.out_empty; same_start = refl }

    start_lem : rx.asc.out_buf.i_start ≤ 64
    start_lem = omega (arith, idle.out_empty.valid.shape.start_in, idle.out_empty.same_capacity)

-- A run of `n` rounds that decodes in each, and ends as the loop does.
record AllDecode (n : ℕ) (rx : Receiver) (result : Outcome (Unit {0}) × Receiver) : Type 0 where
  last : Receiver
  returns : result ≡ (ok tt, last)
  rounds : Rounds n rx last
  idle : IsIdle last

main_loop-AllDecode : (n : ℕ) (rx : Receiver) → IsIdle rx → AllDecode n rx (main_loop n rx)
unfolding main_loop
main_loop-AllDecode zero rx idle = record {
  last = rx;
  returns = refl;
  rounds = finished;
  idle = idle;
}
main_loop-AllDecode (suc n) rx idle =
    let first = loop_body-Decodes rx idle in
    let rest = main_loop-AllDecode n first.next first.idle in
    record {
      last = rest.last;
      returns = rw first.returns rest.returns;
      rounds = round first.returns first.decoded rest.rounds;
      idle = rest.idle;
    }

-- The program returns 0 after `n` such rounds from the initialized interface.
pub record Profiled (n : ℕ) (raw_buffer : List ℕ) (rx : Receiver) (result : Outcome ℕ × Receiver)
    : Type 0 where
  pub started : Receiver
  pub last : Receiver
  pub begins : on_asc (Asc.init raw_buffer) rx ≡ (ok tt, started)
  pub rounds : Rounds n started last
  pub idle : IsIdle last
  pub returns : result ≡ (ok 0, last)

main-returns :
    (raw_buffer : List ℕ) (strtoul : List ℕ → ℕ) (argument : List ℕ) (arguments : List (List ℕ))
    (rx last : Receiver) (asc : Asc)
    → is_option b'-' b'h' argument ≡ false
    → Asc.init raw_buffer rx.asc ≡ (ok tt, asc)
    → main_loop (strtoul argument) (record rx { asc = asc }) ≡ (ok tt, last)
    → main raw_buffer strtoul (argument ∷ arguments) rx ≡ (ok 0, last)
unfolding main
main-returns raw_buffer strtoul argument arguments rx last asc no_help init loop =
    rw (no_help, init, loop) refl

-- Run with a first argument that does not begin with "-h", and with the 128 bytes of memory of the
-- buffers, the profiler returns 0, whatever number n strtoul reads from the argument: after the
-- initialization it makes n iterations, in each of which all calls return without an exception and
-- the 'z' message that was encoded is decoded from the input buffer, and both buffers are empty at
-- the end.
pub main-Profiled :
    (raw_buffer : List ℕ) (strtoul : List ℕ → ℕ) (argument : List ℕ) (arguments : List (List ℕ))
    (rx : Receiver)
    → is_option b'-' b'h' argument ≡ false
    → 128 ≤ length raw_buffer
    → Profiled (strtoul argument) raw_buffer rx (main raw_buffer strtoul (argument ∷ arguments) rx)
main-Profiled raw_buffer strtoul argument arguments rx no_help fits =
    let begun = init-Initialized raw_buffer rx.asc fits in
    let run =
      main_loop-AllDecode (strtoul argument) (record rx { asc = begun.asc })
        (record {
          in_empty = begun.fresh.in_empty.holds;
          out_empty = begun.fresh.out_empty.holds;
        }) in
    record {
      started = record rx { asc = begun.asc };
      last = run.last;
      begins = ap (with_asc rx) begun.returns;
      rounds = run.rounds;
      idle = run.idle;
      returns =
          main-returns raw_buffer strtoul argument arguments rx run.last begun.asc no_help
            begun.returns run.returns;
    }
