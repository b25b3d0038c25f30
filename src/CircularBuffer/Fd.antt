-- ===== src/CircularBuffer/Fd.antt =====
-- circular_buffer.c, its Linux part: one POSIX read into the ring and one write out of it.
-- `read` and `write` are arguments: what the call gives back for a count of bytes, or for a block;
-- `none` is the -1 of an error.
pub mod Written
pub mod Read
use ascii_serial_com_c.Prelude.{
  ℕ, ◌+◌, List, [], ◌∷◌, Option, none, some, get_or, set, leb, if◌then◌else◌, length, add_size,
  sub_size, M, ok, throw, file_read, file_write, span,
}
use ascii_serial_com_c.CircularBuffer.{CircularBuffer, wrap_index}
use ascii_serial_com_c.CircularBuffer.Block.{first_block_size, drop_block}

-- What read(2) does to the storage: the bytes from index `i` on.
pub store_bytes : List ℕ → ℕ → List ℕ → List ℕ
store_bytes buffer i [] = buffer
store_bytes buffer i (x ∷ xs) = store_bytes (set buffer i x) (i + 1) xs

pub block_size_available : CircularBuffer → ℕ
block_size_available cb =
    if leb cb.i_start cb.i_stop
    then sub_size cb.capacity cb.i_stop
    else sub_size cb.i_start cb.i_stop

-- The struct after a read of `n` bytes.
pub grow_by : ℕ → CircularBuffer → CircularBuffer
unfolding wrap_index
grow_by n cb =
    let i_stop = wrap_index cb (add_size cb.i_stop n) in
    let size = add_size cb.size n in
    if leb cb.capacity size
    then record cb {
      i_stop = i_stop;
      i_start = wrap_index cb (sub_size (add_size cb.i_start size) cb.capacity);
      size = cb.capacity;
    }
    else record cb { i_stop = i_stop; size = size }

-- With what read(2) gave back.
unfoldable pub after_read : Option (List ℕ) → M CircularBuffer ℕ
unfolding store_bytes grow_by
after_read none cb = (throw file_read, cb)
after_read (some bytes) cb = (
  ok (length bytes),
  grow_by (length bytes) (record cb { buffer = store_bytes cb.buffer cb.i_stop bytes }),
)

unfoldable pub push_back_from_fd : (ℕ → Option (List ℕ)) → M CircularBuffer ℕ
unfolding block_size_available after_read
push_back_from_fd read cb = after_read (read (block_size_available cb)) cb

-- The bytes of a block of the storage.
abbrev pub block_bytes : List ℕ → ℕ → ℕ → List ℕ
block_bytes buffer start len = span (λ i. get_or buffer i 0) start len

-- With what write(2) gave back.
unfoldable pub after_write : Option ℕ → M CircularBuffer ℕ
unfolding drop_block
after_write none cb = (throw file_write, cb)
after_write (some n_written) cb = (ok n_written, drop_block n_written cb)

unfoldable pub pop_front_to_fd : (List ℕ → Option ℕ) → M CircularBuffer ℕ
unfolding first_block_size after_write
pop_front_to_fd write cb =
    after_write (write (block_bytes cb.buffer cb.i_start (first_block_size cb))) cb
