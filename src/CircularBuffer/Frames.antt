-- ===== src/CircularBuffer/Frames.antt =====
-- circular_buffer_remove_front_unfinished_frames_uint8: bring the first finished frame to the front.
-- `start_char` and `end_char` are the bits of the two arguments of type `char`. The searches take
-- them as a uint8_t; the loop compares a byte with the `char` itself.
pub mod Resync
pub mod Sign
pub mod Total
use ascii_serial_com_c.Prelude.{
  ℕ, zero, suc, ◌+◌, ◌-◌, Bool, ltb, ◌&&◌, Option, none, some, ◌==◌, leb, if◌then◌else◌, add_size,
  M, ◌>>=◌, ◌>>◌, pure, gets, modify, fault, ok,
}
use ascii_serial_com_c.CircularBuffer.{CircularBuffer, get_element, pop_front, clear}
use ascii_serial_com_c.CircularBuffer.Search.{discard, find_first, find_last}
use ascii_serial_com_c.CircularBuffer.Block.{pop_front_times}

-- What a `char` of 0x80 or more means: a negative number with GCC on x86 and AVR, not one on ARM and
-- RISC-V.
pub data CharSign : Type 0 where
  signed unsigned : CharSign

-- `x == start_char` after the promotion of a uint8_t and a char to int.
unfoldable pub char_is : CharSign → ℕ → ℕ → Bool
char_is CharSign.signed x start_char = (x == start_char) && ltb start_char 128
char_is CharSign.unsigned x start_char = x == start_char

-- The `while (true)` loop: back from `i_element` to a `start_char`, `none` if there is none.
pub back_to_start : CharSign → ℕ → ℕ → M CircularBuffer (Option ℕ)
back_to_start sign start_char zero = do
  x ← get_element 0
  pure (if char_is sign x start_char then some 0 else none)
back_to_start sign start_char (suc i) =
    let rest = back_to_start sign start_char i in
    do x ← get_element (suc i); if char_is sign x start_char then pure (some (suc i)) else rest

-- No `end_char`: keep what stands from the last `start_char` on.
pub without_end : ℕ → M CircularBuffer ℕ
without_end start_char = do
  i_last_start ← find_last start_char
  size ← gets (λ cb. cb.size)
  if leb size i_last_start
      then (do modify clear; pure size)
      else (do pop_front_times i_last_start; pure i_last_start)

-- Each call of the function itself drops a byte, so the fuel is the size.
pub remove_loop : CharSign → ℕ → ℕ → ℕ → M CircularBuffer ℕ
remove_loop sign start_char end_char zero cb = (fault, cb)
remove_loop sign start_char end_char (suc fuel) cb =
    let again = remove_loop sign start_char end_char fuel in
    (do
      i_end ← find_first end_char
      size ← gets (λ cb'. cb'.size)
      if leb size i_end
          then without_end start_char
          else if i_end == 0
          then (do discard pop_front; again)
          else (do
            found ← back_to_start sign start_char (i_end - 1)
            elim found [
              | none ↦ (do pop_front_times (i_end + 1); n ← again; pure (add_size (i_end + 1) n))
              | some i ↦ (do pop_front_times i; pure i)
            ]))
      cb

unfoldable pub remove_front_unfinished_frames : CharSign → ℕ → ℕ → M CircularBuffer ℕ
unfolding remove_loop without_end back_to_start
remove_front_unfinished_frames sign start_char end_char cb =
    remove_loop sign start_char end_char (suc cb.size) cb
