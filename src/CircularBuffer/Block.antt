-- ===== src/CircularBuffer/Block.antt =====
-- circular_buffer.c: the operations on whole blocks of memory.
-- A pointer into the storage is its index there.
use ascii_serial_com_c.Prelude.{
  ℕ, zero, suc, ◌+◌, Bool, List, Option, none, some, get_elem?, get_or, set, ◌==◌, ltb,
  if◌then◌else◌, add_size, sub_size, M, ◌>>◌, pure, fault, ok, throw, cb_oob,
}
use ascii_serial_com_c.CircularBuffer.{CircularBuffer, get_size, pop_front, push_back, wrap_index}
use ascii_serial_com_c.CircularBuffer.Search.{discard}

-- The first block reaches to the end of the storage, or to the end of the data.
unfoldable pub wraps : CircularBuffer → Bool
wraps cb = ltb cb.capacity (add_size cb.i_start cb.size)

unfoldable pub first_block_size : CircularBuffer → ℕ
unfolding wraps
first_block_size cb = if wraps cb then sub_size cb.capacity cb.i_start else cb.size

pub record Block : Type 0 where
  pub start : ℕ
  pub len : ℕ

unfoldable pub get_first_block : CircularBuffer → Block
unfolding first_block_size
get_first_block cb = record { start = cb.i_start; len = first_block_size cb }

-- `for (i = 0; i < n; i++) circular_buffer_pop_front_uint8(circ_buf);`
unfoldable pub pop_front_times : ℕ → M CircularBuffer (Unit {0})
pop_front_times zero cb = (ok tt, cb)
pop_front_times (suc n) cb = (do discard pop_front; pop_front_times n) cb

unfoldable pub delete_first_block : M CircularBuffer ℕ
unfolding wraps
delete_first_block cb =
    let to_pop = sub_size cb.capacity cb.i_start in
    if wraps cb
    then (do pop_front_times to_pop; pure to_pop) cb
    else (ok cb.size, record cb { size = 0; i_start = 0; i_stop = 0 })

-- `left` rounds of the loop are to go, from index `i` on.
pub push_back_block_loop : List ℕ → ℕ → ℕ → M CircularBuffer (Unit {0})
push_back_block_loop source zero i cb = (ok tt, cb)
push_back_block_loop source (suc left) i cb =
    let rest = push_back_block_loop source left (i + 1) in
    elim (get_elem? source i) [ none ↦ (fault, cb) | some x ↦ rest (push_back x cb) ]

unfoldable pub push_back_block : List ℕ → ℕ → M CircularBuffer (Unit {0})
unfolding push_back_block_loop
push_back_block source source_size = push_back_block_loop source source_size 0

-- `destination[i] = outBlock[i]` for `left` indices from `i` on.
pub copy_loop : List ℕ → ℕ → ℕ → ℕ → List ℕ → List ℕ
copy_loop buffer out_block zero i destination = destination
copy_loop buffer out_block (suc left) i destination =
    copy_loop buffer out_block left (i + 1) (set destination i (get_or buffer (out_block + i) 0))

-- What `n` bytes less at the front leave in the struct.
unfoldable pub drop_block : ℕ → CircularBuffer → CircularBuffer
unfolding wrap_index
drop_block n cb =
    let size = sub_size cb.size n in
    if size == 0
    then record cb { size = size; i_start = 0; i_stop = 0 }
    else record cb { size = size; i_start = wrap_index cb (add_size cb.i_start n) }

-- The number of bytes written, and the destination after them.
unfoldable pub pop_front_block : List ℕ → ℕ → CircularBuffer → (ℕ × List ℕ) × CircularBuffer
unfolding first_block_size copy_loop drop_block
pop_front_block destination dest_size cb =
    let n_block = first_block_size cb in
    let n_written = if ltb dest_size n_block then dest_size else n_block in
    ((n_written, copy_loop cb.buffer cb.i_start n_written 0 destination), drop_block n_written cb)

-- `*string` until the NUL.
pub push_back_string_loop : List ℕ → ℕ → M CircularBuffer ℕ
push_back_string_loop List.[] n_pushed cb = (fault, cb)
push_back_string_loop (List.◌∷◌ c string) n_pushed cb =
    let rest = push_back_string_loop string n_pushed in
    if c == 0 then (ok n_pushed, cb) else rest (push_back c cb)

unfoldable pub push_back_string : List ℕ → M CircularBuffer ℕ
unfolding push_back_string_loop
push_back_string string = push_back_string_loop string 0

-- The blocks that hold `n_elem` elements from `i_start` on: one, or two.
pub record Blocks : Type 0 where
  pub n_blocks : ℕ
  pub first : Block
  pub second : Option Block

unfoldable pub get_blocks : ℕ → ℕ → M CircularBuffer Blocks
unfolding get_size
get_blocks i_start n_elem cb =
    if ltb (get_size cb) (add_size i_start n_elem)
    then (throw cb_oob, cb)
    else let wraps = ltb cb.capacity (add_size (add_size cb.i_start i_start) n_elem) in
      let start = add_size cb.i_start i_start in
      let len = sub_size (sub_size cb.capacity cb.i_start) i_start in
      if wraps
      then (
        ok (record {
          n_blocks = 2;
          first = record { start = start; len = len };
          second = some (record { start = 0; len = sub_size n_elem len });
        }),
        cb,
      )
      else (
        ok (record { n_blocks = 1; first = record { start = start; len = n_elem }; second = none }),
        cb,
      )
