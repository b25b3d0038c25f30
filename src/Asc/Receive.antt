-- ===== src/Asc/Receive.antt =====
-- ascii_serial_com_get_message_from_input_buffer.
-- The pointer parameters are the caller's variables: they keep what was written to them when the
-- function throws.
pub mod Parts
pub mod Line
pub mod Parsed
pub mod Damaged
pub mod Deliver
use ascii_serial_com_c.Prelude.{
  ℕ, zero, suc, ◌+◌, ◌-◌, Bool, true, false, not, List, [], ◌∷◌, get_or, set, replicate, length,
  ◌==◌, ltb, leb, ◌&&◌, ◌||◌, if◌then◌else◌, sub_size, Outcome, M, ◌>>=◌, ◌>>◌, pure, gets, modify,
  raise, throw_if, when, ok, throw, fault, invalid_frame, invalid_frame_period,
}
use ascii_serial_com_c.CircularBuffer.{CircularBuffer, get_size, pop_front, get_element}
use ascii_serial_com_c.CircularBuffer.Block.{pop_front_times}
use ascii_serial_com_c.CircularBuffer.Search.{discard, find_first}
use ascii_serial_com_c.CircularBuffer.Frames.{CharSign, remove_front_unfinished_frames}
use ascii_serial_com_c.Asc.{Asc, n_char_checksum, compute_checksum}

-- That of x86 and AVR. '>' is below 128, so the other leads to the same (Frames/Sign).
abbrev pub char_sign : CharSign
char_sign = CharSign.signed

-- The variables behind the pointers.
pub record Message : Type 0 where
  pub asc_version : ℕ
  pub app_version : ℕ
  pub command : ℕ
  pub bytes : List ℕ
  pub data_len : ℕ

pub record Receiver : Type 0 where
  pub asc : Asc
  pub message : Message

abbrev pub with_asc : Receiver → {A : Type 0} → Outcome A × Asc → Outcome A × Receiver
with_asc rx (r, asc) = (r, record rx { asc = asc })

abbrev pub on_asc : {A : Type 0} → M Asc A → M Receiver A
on_asc m rx = with_asc rx (m rx.asc)

-- A call on the input buffer.
abbrev pub with_input : Receiver → {A : Type 0} → Outcome A × CircularBuffer → Outcome A × Receiver
with_input rx (r, cb) = (r, record rx { asc = record (rx.asc) { in_buf = cb } })

abbrev pub on_input : {A : Type 0} → M CircularBuffer A → M Receiver A
on_input m rx = with_input rx (m rx.asc.in_buf)

abbrev pub write : (Message → Message) → M Receiver (Unit {0})
write f rx = (ok tt, record rx { message = f rx.message })

-- `*command = '\0'; *dataLen = 0;`
abbrev pub no_message : M Receiver (Unit {0})
no_message = write (λ m. record m { command = 0; data_len = 0 })

-- The loop over the payload, `left` rounds to go from index `i` on. A byte past the end of the
-- caller's array is a `fault`.
unfoldable pub payload_loop : ℕ → ℕ → M Receiver (Unit {0})
payload_loop zero i rx = (ok tt, rx)
payload_loop (suc left) i rx =
    let rest = payload_loop left (i + 1) in
    (do
      byte ← on_input pop_front
      if byte == b'.' then pure tt else λ rx'.
          if ltb i (length rx'.message.bytes)
          then (do
            write (λ m. record m { bytes = set m.bytes i byte; data_len = m.data_len + 1 })
            rest)
              rx'
          else (fault, rx'))
      rx

-- `receiveChecksum[iChk] = pop_front` for `left` rounds.
unfoldable pub pop_chars : ℕ → M CircularBuffer (List ℕ)
pop_chars zero cb = (ok [], cb)
pop_chars (suc left) cb = (do x ← pop_front; xs ← pop_chars left; pure (x ∷ xs)) cb

-- The comparison of the two checksums.
abbrev pub same_chars : List ℕ → List ℕ → Bool
same_chars [] [] = true
same_chars (x ∷ xs) (y ∷ ys) = (x == y) && same_chars xs ys
same_chars xs ys = false

-- `size < NCHARCHECKSUM + 1 || get_element(NCHARCHECKSUM) != '\n'`
unfoldable pub end_misplaced : M CircularBuffer Bool
end_misplaced cb =
    if ltb (get_size cb) (n_char_checksum + 1)
    then (ok true, cb)
    else (do x ← get_element n_char_checksum; pure (not (x == 0x0a))) cb

-- From the start of the frame on: `>` and the header, the payload, the period, the checksum.
unfoldable pub read_frame : ℕ → List ℕ → M Receiver (Unit {0})
unfolding payload_loop pop_chars end_misplaced
read_frame i_period compute_checksum = do
  on_input (discard pop_front)
  v ← on_input pop_front
  write λ m. record m { asc_version = v }
  a ← on_input pop_front
  write λ m. record m { app_version = a }
  c ← on_input pop_front
  write λ m. record m { command = c }
  write λ m. record m { data_len = 0 }
  payload_loop (sub_size i_period 4) 0
  on_input (discard pop_front)
  misplaced ← on_input end_misplaced
  throw_if misplaced invalid_frame
  receive_checksum ← on_input (pop_chars n_char_checksum)
  ignore ← gets (λ rx. rx.asc.ignore_crc_mismatch)
  if ignore || same_chars receive_checksum compute_checksum
      then on_input (discard pop_front)
      else (do on_input (discard pop_front); no_message)

-- `if (!asc->ignoreCRCMismatch) ascii_serial_com_compute_checksum(...);`
unfoldable pub expected_checksum : M Receiver (List ℕ)
expected_checksum rx =
    if rx.asc.ignore_crc_mismatch
    then (ok (replicate n_char_checksum 0), rx)
    else on_asc (compute_checksum (replicate n_char_checksum 0) false) rx

-- With an end of frame in the buffer.
unfoldable pub read_ended : ℕ → M Receiver (Unit {0})
unfolding expected_checksum read_frame
read_ended i_end = do
  i_period ← on_input (find_first b'.')
  if ltb i_end i_period
      then (do on_input (pop_front_times (i_end + 1)); raise invalid_frame_period)
      else (do checksum ← expected_checksum; read_frame i_period checksum)

unfoldable pub get_message_from_input_buffer : M Receiver (Unit {0})
unfolding read_ended
get_message_from_input_buffer = do
  buf_size ← gets (λ rx. get_size rx.asc.in_buf)
  if buf_size == 0 then no_message else (do
    on_input (discard (remove_front_unfinished_frames char_sign b'>' 0x0a))
    buf_size' ← gets (λ rx. get_size rx.asc.in_buf)
    i_end ← on_input (find_first 0x0a)
    if leb buf_size' i_end then no_message else read_ended i_end)
