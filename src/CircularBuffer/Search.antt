-- ===== src/CircularBuffer/Search.antt =====
-- circular_buffer.c: the loops that look for a byte, and those that drop bytes up to one.
-- A `for` loop recurs on the rounds left, a `while (size > 0)` loop on fuel, `fault` when that is
-- used up.
pub mod Found
use ascii_serial_com_c.Prelude.{
  ℕ, zero, suc, ◌+◌, ◌-◌, Bool, ◌==◌, leb, if◌then◌else◌, M, ◌>>=◌, ◌>>◌, pure, gets, fault, ok,
  when, sub_size,
}
use ascii_serial_com_c.CircularBuffer.{CircularBuffer, get_element, pop_front, pop_back}

-- What the loop bodies do with the byte they popped.
abbrev pub discard : M CircularBuffer ℕ → M CircularBuffer (Unit {0})
discard m = do _ ← m; pure tt

pub find_first_loop : ℕ → ℕ → ℕ → M CircularBuffer ℕ
find_first_loop value zero i_element cb = (ok cb.size, cb)
find_first_loop value (suc left) i_element cb =
    let rest = find_first_loop value left (i_element + 1) in
    (do i_value ← get_element i_element; if i_value == value then pure i_element else rest) cb

unfoldable pub find_first : ℕ → M CircularBuffer ℕ
unfolding find_first_loop
find_first value cb = find_first_loop value cb.size 0 cb

-- `left` is the value of `iElement` at the test of the loop.
pub find_last_loop : ℕ → ℕ → M CircularBuffer ℕ
find_last_loop value zero cb = (ok cb.size, cb)
find_last_loop value (suc left) cb =
    let rest = find_last_loop value left in
    (do i_value ← get_element left; if i_value == value then pure left else rest) cb

unfoldable pub find_last : ℕ → M CircularBuffer ℕ
unfolding find_last_loop
find_last value cb = find_last_loop value cb.size cb

pub count_loop : ℕ → ℕ → ℕ → ℕ → M CircularBuffer ℕ
count_loop value zero i_element result cb = (ok result, cb)
count_loop value (suc left) i_element result cb =
    let rest = count_loop value left (i_element + 1) in
    (do i_value ← get_element i_element; rest (if i_value == value then result + 1 else result)) cb

unfoldable pub count : ℕ → M CircularBuffer ℕ
unfolding count_loop
count value cb = count_loop value cb.size 0 0 cb

pub remove_front_loop : ℕ → Bool → ℕ → M CircularBuffer (Unit {0})
remove_front_loop value inclusive zero cb = (fault, cb)
remove_front_loop value inclusive (suc fuel) cb =
    let rest = remove_front_loop value inclusive fuel in
    if cb.size == 0
    then (ok tt, cb)
    else (do
      i_value ← get_element 0
      if i_value == value then when inclusive (discard pop_front) else (do discard pop_front; rest))
        cb

unfoldable pub remove_front_to : ℕ → Bool → M CircularBuffer (Unit {0})
unfolding remove_front_loop
remove_front_to value inclusive cb = remove_front_loop value inclusive (suc cb.size) cb

pub remove_back_loop : ℕ → Bool → ℕ → M CircularBuffer (Unit {0})
remove_back_loop value inclusive zero cb = (fault, cb)
remove_back_loop value inclusive (suc fuel) cb =
    let rest = remove_back_loop value inclusive fuel in
    if cb.size == 0
    then (ok tt, cb)
    else (do
      i_value ← get_element (sub_size cb.size 1)
      if i_value == value then when inclusive (discard pop_back) else (do discard pop_back; rest))
        cb

unfoldable pub remove_back_to : ℕ → Bool → M CircularBuffer (Unit {0})
unfolding remove_back_loop
remove_back_to value inclusive cb = remove_back_loop value inclusive (suc cb.size) cb
