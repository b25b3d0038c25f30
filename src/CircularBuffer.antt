-- ===== src/CircularBuffer.antt =====
-- circular_buffer.c: the struct, its index helpers, and the operations on one element.
-- A function that takes a pointer to the struct is a computation on it. Reads and writes through
-- `buffer` are total here: Inv shows that the indices lie inside the array.
pub mod Inv
pub mod Window
pub mod Deque
pub mod Steps
pub mod Preserve
pub mod Refine
pub mod Becomes
pub mod Pushes
pub mod Search
pub mod Block
pub mod Fd
pub mod Init
pub mod Reach
pub mod Frames
use ascii_serial_com_c.Prelude.{
  ℕ, zero, suc, ◌+◌, bit_and, Bool, not, ◌&&◌, List, get_or, set, ◌==◌, leb, if◌then◌else◌,
  add_size, sub_size, M, ◌>>◌, modify, throw_if, cb_oob, cb_pop_empty, cb_bad_capacity, ok, throw,
}

pub record CircularBuffer : Type 0 where
  pub capacity : ℕ
  pub size : ℕ
  pub i_start : ℕ
  pub i_stop : ℕ
  pub buffer : List ℕ

-- `i & (capacity - 1)`
pub wrap_index : CircularBuffer → ℕ → ℕ
wrap_index cb i = bit_and i (sub_size cb.capacity 1)

pub inc_i_start : CircularBuffer → CircularBuffer
inc_i_start cb = record cb { i_start = wrap_index cb (add_size cb.i_start 1) }

pub inc_i_stop : CircularBuffer → CircularBuffer
inc_i_stop cb = record cb { i_stop = wrap_index cb (add_size cb.i_stop 1) }

pub dec_i_start : CircularBuffer → CircularBuffer
dec_i_start cb =
    if cb.i_start == 0
    then record cb { i_start = sub_size cb.capacity 1 }
    else record cb { i_start = wrap_index cb (sub_size cb.i_start 1) }

pub dec_i_stop : CircularBuffer → CircularBuffer
dec_i_stop cb =
    if cb.i_stop == 0
    then record cb { i_stop = sub_size cb.capacity 1 }
    else record cb { i_stop = wrap_index cb (sub_size cb.i_stop 1) }

-- The macro isPowerOfTwo: `~x + 1` is the two's complement of `x`.
unfoldable pub is_power_of_two : ℕ → Bool
is_power_of_two x = not (x == 0) && (bit_and x (sub_size 0 x) == x)

-- `for (i = 0; i < capacity; i++) buffer[i] = 0x40;` with `left` rounds to go.
unfoldable pub fill_loop : ℕ → ℕ → List ℕ → List ℕ
fill_loop zero i buffer = buffer
fill_loop (suc left) i buffer = fill_loop left (i + 1) (set buffer i 0x40)

unfoldable pub init : ℕ → List ℕ → M CircularBuffer (Unit {0})
unfolding fill_loop is_power_of_two
init capacity buffer = do
  throw_if (not (is_power_of_two capacity)) cb_bad_capacity
  modify λ cb. record {
    capacity = capacity;
    size = 0;
    i_start = 0;
    i_stop = 0;
    buffer = fill_loop capacity 0 buffer;
  }

unfoldable pub get_size : CircularBuffer → ℕ
get_size cb = cb.size

unfoldable pub is_full : CircularBuffer → Bool
unfolding get_size
is_full cb = get_size cb == cb.capacity

unfoldable pub is_empty : CircularBuffer → Bool
unfolding get_size
is_empty cb = get_size cb == 0

unfoldable pub get_element : ℕ → M CircularBuffer ℕ
unfolding get_size wrap_index
get_element i_element cb =
    if leb (get_size cb) i_element
    then (throw cb_oob, cb)
    else (ok (get_or cb.buffer (wrap_index cb (add_size cb.i_start i_element)) 0), cb)

unfoldable pub push_front : ℕ → CircularBuffer → CircularBuffer
unfolding dec_i_start dec_i_stop wrap_index
push_front element cb =
    let moved = dec_i_start cb in
    let stored = record moved { buffer = set moved.buffer moved.i_start element } in
    if stored.size == stored.capacity
    then dec_i_stop stored
    else record stored { size = add_size stored.size 1 }

unfoldable pub push_back : ℕ → CircularBuffer → CircularBuffer
unfolding inc_i_start inc_i_stop wrap_index
push_back element cb =
    let stored = record cb { buffer = set cb.buffer cb.i_stop element } in
    let moved = inc_i_stop stored in
    if moved.size == moved.capacity
    then inc_i_start moved
    else record moved { size = add_size moved.size 1 }

unfoldable pub pop_front : M CircularBuffer ℕ
unfolding inc_i_start wrap_index
pop_front cb =
    if cb.size == 0
    then (throw cb_pop_empty, cb)
    else let result = get_or cb.buffer cb.i_start 0 in
      let moved = inc_i_start cb in (ok result, record moved { size = sub_size moved.size 1 })

unfoldable pub pop_back : M CircularBuffer ℕ
unfolding dec_i_stop wrap_index
pop_back cb =
    if cb.size == 0
    then (throw cb_pop_empty, cb)
    else let moved = dec_i_stop cb in
      let shrunk = record moved { size = sub_size moved.size 1 } in
      (ok (get_or shrunk.buffer shrunk.i_stop 0), shrunk)

unfoldable pub clear : CircularBuffer → CircularBuffer
clear cb = record cb { size = 0; i_start = 0; i_stop = 0 }
