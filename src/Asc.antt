-- ===== src/Asc.antt =====
-- ascii_serial_com.h and ascii_serial_com.c: the interface state, the checksum of a message, and
-- messages into the output buffer.
-- The two halves of `raw_buffer` are the storages of the two rings; they do not overlap.
pub mod Receive
pub mod Slice
pub mod Frame
pub mod Checksum
pub mod Send
pub mod PutError
pub mod PutStream
pub mod RoundTrip
pub mod Init
use ascii_serial_com_c.Prelude.{
  ℕ, zero, suc, ◌+◌, ◌-◌, Bool, true, false, List, [], ◌∷◌, ◌++◌, Option, none, some, get_elem?,
  set, replicate, take, drop, ◌==◌, ltb, leb, ◌&&◌, ◌||◌, if◌then◌else◌, add_size, sub_size, u8,
  Outcome, M, ◌>>=◌, ◌>>◌, pure, gets, modify, throw_if, when, ok, throw, fault, data_too_long,
  checksum_problem, invalid_frame, invalid_frame_period, AscException, error_code,
}
use ascii_serial_com_c.CircularBuffer
use ascii_serial_com_c.CircularBuffer.{CircularBuffer, get_size, push_back}
use ascii_serial_com_c.CircularBuffer.Block.{Block, Blocks, get_blocks}
use ascii_serial_com_c.CircularBuffer.Search.{find_first, find_last}
use ascii_serial_com_c.Hex.{convert_uint8_to_hex, convert_uint16_to_hex}
use ascii_serial_com_c.Crc.Tbl4bit

abbrev pub max_message_len : ℕ
max_message_len = 64

abbrev pub max_data_len : ℕ
max_data_len = 54

abbrev pub max_s_payload_len : ℕ
max_s_payload_len = max_data_len - 3

abbrev pub n_char_checksum : ℕ
n_char_checksum = 4

pub record Asc : Type 0 where
  pub in_buf : CircularBuffer
  pub out_buf : CircularBuffer
  pub send_stream_frame_counter : ℕ
  pub receive_stream_frame_counter : ℕ
  pub receive_stream_frame_counter_initialized : Bool
  pub ignore_crc_mismatch : Bool

-- A call on one of the two buffers.
abbrev pub with_in : Asc → {A : Type 0} → Outcome A × CircularBuffer → Outcome A × Asc
with_in asc (r, cb) = (r, record asc { in_buf = cb })

abbrev pub with_out : Asc → {A : Type 0} → Outcome A × CircularBuffer → Outcome A × Asc
with_out asc (r, cb) = (r, record asc { out_buf = cb })

abbrev pub on_in : {A : Type 0} → M CircularBuffer A → M Asc A
on_in m asc = with_in asc (m asc.in_buf)

abbrev pub on_out : {A : Type 0} → M CircularBuffer A → M Asc A
on_out m asc = with_out asc (m asc.out_buf)

-- `raw_buffer` is split into its halves.
unfoldable pub init : List ℕ → M Asc (Unit {0})
init raw_buffer = do
  on_in (CircularBuffer.init max_message_len (take max_message_len raw_buffer))
  on_out (CircularBuffer.init max_message_len (drop max_message_len raw_buffer))
  modify λ asc. record asc {
    send_stream_frame_counter = 0;
    receive_stream_frame_counter = 0;
    receive_stream_frame_counter_initialized = false;
    ignore_crc_mismatch = false;
  }

-- The bytes of a block, `none` if it leaves the storage.
unfoldable pub read_block : List ℕ → ℕ → ℕ → Option (List ℕ)
read_block buffer start zero = some []
read_block buffer start (suc len) =
    let rest = read_block buffer (start + 1) len in
    elim (get_elem? buffer start) [
      | none ↦ none
      | some x ↦ elim rest [ none ↦ none | some xs ↦ some (x ∷ xs) ]
    ]

-- `crc = crc_update(crc, blocks[iBlock], blocks_sizes[iBlock]);`
pub update_block : ℕ → Block → M CircularBuffer ℕ
update_block crc block cb = elim (read_block cb.buffer block.start block.len) [
  | none ↦ (fault, cb)
  | some bytes ↦ (ok (Tbl4bit.update crc bytes), cb)
]

-- The loop over the one or two blocks.
pub update_blocks : ℕ → Blocks → M CircularBuffer ℕ
update_blocks crc blocks = do
  crc' ← update_block crc blocks.first
  elim blocks.second [ none ↦ pure crc' | some block ↦ update_block crc' block ]

-- ascii_serial_com_compute_checksum, on the buffer that `output_buffer` selects.
unfoldable pub checksum_of : Bool → List ℕ → M CircularBuffer (List ℕ)
unfolding update_blocks update_block
checksum_of output_buffer checksum_out = do
  size ← gets get_size
  last_start ← find_last b'>'
  last_stop ← find_last b'.'
  i_start ← if output_buffer then pure last_start else find_first b'>'
  i_stop ← if output_buffer then pure last_stop else find_first b'.'
  throw_if (leb size i_start) invalid_frame
  throw_if (leb size i_stop) invalid_frame_period
  throw_if (leb (max_message_len - n_char_checksum - 1) i_stop) checksum_problem
  throw_if (leb i_stop i_start || ltb (sub_size i_stop i_start) 4) invalid_frame_period
  blocks ← get_blocks i_start (add_size (sub_size i_stop i_start) 1)
  crc ← update_blocks Tbl4bit.init blocks
  pure (convert_uint16_to_hex (Tbl4bit.finalize crc) 0 true checksum_out)

unfoldable pub compute_checksum : List ℕ → Bool → M Asc (List ℕ)
unfolding checksum_of
compute_checksum checksum_out true = on_out (checksum_of true checksum_out)
compute_checksum checksum_out false = on_in (checksum_of false checksum_out)

-- `for (i = 0; i < n; i++) circular_buffer_push_back_uint8(&asc->out_buf, array[i]);`, `left`
-- rounds to go from `i` on.
pub push_chars : List ℕ → ℕ → ℕ → M CircularBuffer (Unit {0})
push_chars array zero i cb = (ok tt, cb)
push_chars array (suc left) i cb = elim (get_elem? array i) [
  | none ↦ (fault, cb)
  | some x ↦ push_chars array left (i + 1) (push_back x cb)
]

unfoldable pub put_message_in_output_buffer : ℕ → ℕ → ℕ → List ℕ → ℕ → M Asc (Unit {0})
unfolding push_chars
put_message_in_output_buffer asc_version app_version command bytes data_len = do
  throw_if (ltb max_data_len data_len) data_too_long
  on_out (modify (push_back b'>'))
  on_out (modify (push_back asc_version))
  on_out (modify (push_back app_version))
  on_out (modify (push_back command))
  on_out (push_chars bytes data_len 0)
  on_out (modify (push_back b'.'))
  checksum ← compute_checksum (replicate n_char_checksum 0) true
  on_out (push_chars checksum n_char_checksum 0)
  on_out (modify (push_back 0x0a))

-- `outData[i + at] = data[i]`, while `i < dataLen && i < limit`.
pub copy_payload : ℕ → ℕ → ℕ → List ℕ → List ℕ → Option (List ℕ)
copy_payload zero i at bytes out_data = some out_data
copy_payload (suc left) i at bytes out_data = elim (get_elem? bytes i) [
  | none ↦ none
  | some x ↦ copy_payload left (i + 1) at bytes (set out_data (i + at) x)
]

abbrev pub or_fault : {S A : Type 0} → Option A → M S A
or_fault none s = (fault, s)
or_fault (some a) s = (ok a, s)

abbrev smaller : ℕ → ℕ → ℕ
smaller a b = if ltb a b then a else b

unfoldable pub put_s_message_in_output_buffer : ℕ → ℕ → List ℕ → ℕ → M Asc (Unit {0})
unfolding copy_payload
put_s_message_in_output_buffer asc_version app_version bytes data_len = do
  throw_if (ltb max_s_payload_len data_len) data_too_long
  counter ← gets (λ asc. asc.send_stream_frame_counter)
  let counted = convert_uint8_to_hex counter 0 true (replicate max_data_len 0)
  modify λ asc. record asc { send_stream_frame_counter = u8 (asc.send_stream_frame_counter + 1) }
  out_data ←
      or_fault (copy_payload (smaller data_len (max_data_len - 3)) 0 3 bytes (set counted 2 b','))
  put_message_in_output_buffer asc_version app_version b's' out_data (data_len + 3)

abbrev pub error_message_max_copy_data_len : ℕ
error_message_max_copy_data_len = 9

unfoldable pub put_error_in_output_buffer : ℕ → ℕ → ℕ → List ℕ → ℕ → AscException → M Asc (Unit {0})
unfolding copy_payload
put_error_in_output_buffer asc_version app_version command bytes data_len error = do
  let coded =
      convert_uint8_to_hex (u8 (error_code error)) 0 true
        (replicate (error_message_max_copy_data_len + 5) 0)
  let headed = set (set (set coded 2 b',') 3 command) 4 b','
  let copied = smaller data_len error_message_max_copy_data_len
  out_data ← or_fault (copy_payload copied 0 5 bytes headed)
  put_message_in_output_buffer asc_version app_version b'e' out_data (5 + copied)

unfoldable pub set_ignore_crc_mismatch : Asc → Asc
set_ignore_crc_mismatch asc = record asc { ignore_crc_mismatch = true }

unfoldable pub unset_ignore_crc_mismatch : Asc → Asc
unset_ignore_crc_mismatch asc = record asc { ignore_crc_mismatch = false }
