-- ===== src/Native/Profiler.antt =====
-- native/ascii_serial_com_encode_decode_profiler.c: one message after another from the output
-- buffer into the input buffer of the same interface. strtoul is an argument.
pub mod Rounds
use ascii_serial_com_c.Prelude.{
  ℕ, zero, suc, List, [], ◌∷◌, Option, none, some, if◌then◌else◌, Outcome, M, ◌>>=◌, ◌>>◌, pure,
  gets, ok,
}
use ascii_serial_com_c.CircularBuffer.{get_size, push_back, pop_front}
use ascii_serial_com_c.Asc
use ascii_serial_com_c.Asc.{Asc, put_message_in_output_buffer, with_out}
use ascii_serial_com_c.Asc.Receive.{Receiver, on_asc, get_message_from_input_buffer}
use ascii_serial_com_c.Native.{is_option, try_catch}

-- `circular_buffer_push_back_uint8(asc_in_buf, circular_buffer_pop_front_uint8(asc_out_buf));`
unfoldable pub move_char : M Asc (Unit {0})
move_char = do
  element ← λ asc. with_out asc (pop_front asc.out_buf)
  λ asc. (ok tt, record asc { in_buf = push_back element asc.in_buf })

-- The loop over the characters, with that many rounds to go.
unfoldable pub move_chars : ℕ → M Asc (Unit {0})
move_chars zero asc = (ok tt, asc)
move_chars (suc left) asc = (do move_char; move_chars left) asc

-- The Try block of the loop. A null pointer with length 0 is an array without elements.
unfoldable pub loop_body : M Receiver (Unit {0})
unfolding move_chars move_char
loop_body = do
  on_asc (put_message_in_output_buffer b'0' b'0' b'z' [] 0)
  message_len ← gets (λ rx. get_size rx.asc.out_buf)
  on_asc (move_chars message_len)
  get_message_from_input_buffer

-- `for (iIteration = 0; iIteration < nIterations; iIteration++)`, with that many rounds to go.
unfoldable pub main_loop : ℕ → M Receiver (Unit {0})
unfolding loop_body
main_loop zero rx = (ok tt, rx)
main_loop (suc left) rx = (do try_catch loop_body (λ e. pure tt); main_loop left) rx

unfoldable pub main : List ℕ → (List ℕ → ℕ) → List (List ℕ) → M Receiver ℕ
unfolding main_loop
main raw_buffer strtoul [] = pure 1
main raw_buffer strtoul (argument ∷ arguments) =
    if is_option b'-' b'h' argument then pure 0 else (do
      status ← try_catch (do on_asc (Asc.init raw_buffer); pure none) (λ e. pure (some 1))
      elim status [ none ↦ (do main_loop (strtoul argument); pure 0) | some n ↦ pure n ])
