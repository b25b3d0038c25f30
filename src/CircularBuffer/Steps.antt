-- ===== src/CircularBuffer/Steps.antt =====
-- Each operation on a valid ring, with its index arithmetic done; and that it keeps the invariant.
use ascii_serial_com_c.Prelude.{
  ℕ, ◌+◌, ◌-◌, ◌≤◌, ◌<◌, ◌≡◌, ◌==◌, if◌then◌else◌, get_or, set, arith, add_size, sub_size, ok,
  throw, cb_oob, cb_pop_empty,
}
use ascii_serial_com_c.CircularBuffer.{
  CircularBuffer, get_element, push_front, push_back, pop_front, pop_back,
}
use ascii_serial_com_c.CircularBuffer.Inv.{wrap, IsValid, stop_in, wrap_index-wrap}

-- The index before `i`.
abbrev pub before : ℕ → ℕ → ℕ
before cap i = if i == 0 then cap - 1 else i - 1

module _ {cb : CircularBuffer} (v : IsValid cb) where
  open v use {pow, shape}

  pub pop_front_nonempty :
      0 < cb.size
      → pop_front cb ≡ (
        ok (get_or cb.buffer cb.i_start 0),
        record cb { i_start = wrap cb.capacity (cb.i_start + 1); size = cb.size - 1 },
      )
  unfolding pop_front
  pop_front_nonempty h = ground (arith, shape, wrap_index-wrap cb (add_size cb.i_start 1) pow)

  pub pop_back_nonempty :
      0 < cb.size
      → pop_back cb ≡ (
        ok (get_or cb.buffer (before cb.capacity cb.i_stop) 0),
        record cb { i_stop = before cb.capacity cb.i_stop; size = cb.size - 1 },
      )
  unfolding pop_back
  pop_back_nonempty h =
      ground (arith, shape, stop_in shape, wrap_index-wrap cb (sub_size cb.i_stop 1) pow)

  pub push_back_room :
      (x : ℕ)
      → cb.size < cb.capacity
      → push_back x cb ≡ record cb {
        buffer = set cb.buffer cb.i_stop x;
        i_stop = wrap cb.capacity (cb.i_stop + 1);
        size = cb.size + 1;
      }
  unfolding push_back
  push_back_room x h =
      ground (arith, shape, stop_in shape, wrap_index-wrap cb (add_size cb.i_stop 1) pow)

  pub push_back_full :
      (x : ℕ)
      → cb.size ≡ cb.capacity
      → push_back x cb ≡ record cb {
        buffer = set cb.buffer cb.i_stop x;
        i_stop = wrap cb.capacity (cb.i_stop + 1);
        i_start = wrap cb.capacity (cb.i_start + 1);
      }
  unfolding push_back
  push_back_full x h = ground (
    arith,
    shape,
    stop_in shape,
    wrap_index-wrap cb (add_size cb.i_stop 1) pow,
    wrap_index-wrap cb (add_size cb.i_start 1) pow,
  )

  pub push_front_room :
      (x : ℕ)
      → cb.size < cb.capacity
      → push_front x cb ≡ record cb {
        buffer = set cb.buffer (before cb.capacity cb.i_start) x;
        i_start = before cb.capacity cb.i_start;
        size = cb.size + 1;
      }
  unfolding push_front
  push_front_room x h = ground (arith, shape, wrap_index-wrap cb (sub_size cb.i_start 1) pow)

  pub push_front_full :
      (x : ℕ)
      → cb.size ≡ cb.capacity
      → push_front x cb ≡ record cb {
        buffer = set cb.buffer (before cb.capacity cb.i_start) x;
        i_start = before cb.capacity cb.i_start;
        i_stop = before cb.capacity cb.i_stop;
      }
  unfolding push_front
  push_front_full x h = ground (
    arith,
    shape,
    stop_in shape,
    wrap_index-wrap cb (sub_size cb.i_start 1) pow,
    wrap_index-wrap cb (sub_size cb.i_stop 1) pow,
  )

  pub get_element_in :
      (i : ℕ)
      → i < cb.size
      → get_element i cb ≡ (ok (get_or cb.buffer (wrap cb.capacity (cb.i_start + i)) 0), cb)
  unfolding get_element
  get_element_in i h = ground (arith, shape, wrap_index-wrap cb (add_size cb.i_start i) pow)

pub pop_front_empty : (cb : CircularBuffer) → cb.size ≡ 0 → pop_front cb ≡ (throw cb_pop_empty, cb)
unfolding pop_front
pop_front_empty cb e = ground arith

pub pop_back_empty : (cb : CircularBuffer) → cb.size ≡ 0 → pop_back cb ≡ (throw cb_pop_empty, cb)
unfolding pop_back
pop_back_empty cb e = ground arith

pub get_element_out :
    (cb : CircularBuffer) (i : ℕ) → cb.size ≤ i → get_element i cb ≡ (throw cb_oob, cb)
unfolding get_element
get_element_out cb i h = ground arith
