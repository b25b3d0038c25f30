-- ===== src/CircularBuffer/Frames/Sign.antt =====
-- Where the sign of `char` does not matter to remove_front_unfinished_frames.
use ascii_serial_com_c.Prelude.{
  ℕ, zero, suc, ◌+◌, ◌-◌, ◌<◌, ◌≡◌, refl, ◌==◌, leb, if◌then◌else◌, none, some, ◌>>=◌, ◌>>◌, pure,
  gets, add_size, arith,
}
use ascii_serial_com_c.CircularBuffer.{CircularBuffer, get_element, pop_front}
use ascii_serial_com_c.CircularBuffer.Block.{pop_front_times}
use ascii_serial_com_c.CircularBuffer.Search.{discard, find_first}
use ascii_serial_com_c.CircularBuffer.Frames.{
  CharSign, char_is, back_to_start, without_end, remove_loop, remove_front_unfinished_frames,
}

char_is-unsigned :
    (sign : CharSign) (x start_char : ℕ)
    → start_char < 128
    → char_is sign x start_char ≡ char_is CharSign.unsigned x start_char
unfolding char_is
char_is-unsigned CharSign.signed x start_char h = ground arith
char_is-unsigned CharSign.unsigned x start_char h = refl

module _ (sign : CharSign) (start_char : ℕ) (h : start_char < 128) where
  back_to_start-unsigned :
      (i : ℕ) → back_to_start sign start_char i ≡ back_to_start CharSign.unsigned start_char i
  unfolding back_to_start
  back_to_start-unsigned zero = λ j. do
    x ← get_element 0
    pure (if char_is-unsigned sign x start_char h j then some 0 else none)
  back_to_start-unsigned (suc i) = λ j. do
    x ← get_element (suc i)
    if char_is-unsigned sign x start_char h j
        then pure (some (suc i))
        else back_to_start-unsigned i j

  remove_loop-unsigned :
      (end_char fuel : ℕ) (cb : CircularBuffer)
      → remove_loop sign start_char end_char fuel cb
        ≡ remove_loop CharSign.unsigned start_char end_char fuel cb
  unfolding remove_loop
  remove_loop-unsigned end_char zero cb = refl
  remove_loop-unsigned end_char (suc fuel) cb = λ j.
      let again : remove_loop sign start_char end_char fuel
          ≡ remove_loop CharSign.unsigned start_char end_char fuel =
        λ k cb'. remove_loop-unsigned end_char fuel cb' k in
      (do
        i_end ← find_first end_char
        size ← gets (λ cb'. cb'.size)
        if leb size i_end
            then without_end start_char
            else if i_end == 0
            then (do discard pop_front; again j)
            else (do
              found ← back_to_start-unsigned (i_end - 1) j
              elim found [
                | none ↦ (do
                  pop_front_times (i_end + 1)
                  n ← again j
                  pure (add_size (i_end + 1) n))
                | some i ↦ (do pop_front_times i; pure i)
              ]))
        cb

  pub remove_front-unsigned :
      (end_char : ℕ) (cb : CircularBuffer)
      → remove_front_unfinished_frames sign start_char end_char cb
        ≡ remove_front_unfinished_frames CharSign.unsigned start_char end_char cb
  unfolding remove_front_unfinished_frames
  remove_front-unsigned end_char cb = remove_loop-unsigned end_char (suc cb.size) cb
