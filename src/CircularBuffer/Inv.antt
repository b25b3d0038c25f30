-- ===== src/CircularBuffer/Inv.antt =====
-- The representation invariant of circular_buffer_uint8, and that the indices stay in bounds.
use ascii_serial_com_c.Prelude.{
  ℕ, ◌+◌, ◌-◌, ◌%◌, ◌^◌, ◌≤◌, ◌<◌, ◌≡◌, ◌==◌, ltb, if◌then◌else◌, length, arith, add_size, sub_size,
}
use native.Mathlib.Nat.{mod-eq_of_lt, mod-eq-sub-mod, one-le-pow}
use ascii_serial_com_c.Bits.{IsPow2, bit_and_mask}
use ascii_serial_com_c.CircularBuffer.{
  CircularBuffer, wrap_index, inc_i_start, inc_i_stop, dec_i_start, dec_i_stop,
}

-- An index below twice the capacity, brought back into the array.
abbrev pub wrap : ℕ → ℕ → ℕ
wrap cap i = if ltb i cap then i else i - cap

-- The fields that the operations move.
pub record IsShaped (cb : CircularBuffer) : Type 0 where
  pub small : cb.capacity ≤ 2 ^ 63
  pub positive : 0 < cb.capacity
  pub storage : cb.capacity ≤ length cb.buffer
  pub start_in : cb.i_start < cb.capacity
  pub size_in : cb.size ≤ cb.capacity
  pub stop_at : cb.i_stop ≡ wrap cb.capacity (cb.i_start + cb.size)

pub record IsValid (cb : CircularBuffer) : Type 0 where
  pub pow : IsPow2 cb.capacity
  pub shape : IsShaped cb

mod_wrap : (cap i : ℕ) → 0 < cap → i < cap + cap → i % cap ≡ wrap cap i
mod_wrap cap i p h = ground (
  arith,
  mod-eq_of_lt {n = i} {m = cap},
  mod-eq-sub-mod {n = i} {m = cap},
  mod-eq_of_lt {n = i - cap} {m = cap},
)

-- The mask does what a remainder would do.
pub wrap_index-wrap :
    (cb : CircularBuffer) (i : ℕ)
    → IsPow2 cb.capacity
    → cb.capacity ≤ 2 ^ 63
    → i < cb.capacity + cb.capacity
    → wrap_index cb i ≡ wrap cb.capacity i
unfolding wrap_index
wrap_index-wrap cb i (k, e) small h =
    ground (arith, bit_and_mask k i, one-le-pow k 2, mod_wrap cb.capacity i)

-- `stop` alone: it lies in the array too.
pub stop_in : {cb : CircularBuffer} → IsShaped cb → cb.i_stop < cb.capacity
stop_in s = ground arith

module _ {cb : CircularBuffer} (v : IsValid cb) where
  open v use {pow, shape}

  -- What the index helpers leave in the struct.
  pub inc_i_start_lem : inc_i_start cb ≡ record cb { i_start = wrap cb.capacity (cb.i_start + 1) }
  unfolding inc_i_start
  inc_i_start_lem = ground (arith, wrap_index-wrap cb (add_size cb.i_start 1) pow)

  pub inc_i_stop_lem : inc_i_stop cb ≡ record cb { i_stop = wrap cb.capacity (cb.i_stop + 1) }
  unfolding inc_i_stop
  inc_i_stop_lem = ground (arith, stop_in shape, wrap_index-wrap cb (add_size cb.i_stop 1) pow)

  pub dec_i_start_lem :
      dec_i_start cb
      ≡ record cb { i_start = if cb.i_start == 0 then cb.capacity - 1 else cb.i_start - 1 }
  unfolding dec_i_start
  dec_i_start_lem = ground (arith, shape, wrap_index-wrap cb (sub_size cb.i_start 1) pow)

  pub dec_i_stop_lem :
      dec_i_stop cb
      ≡ record cb { i_stop = if cb.i_stop == 0 then cb.capacity - 1 else cb.i_stop - 1 }
  unfolding dec_i_stop
  dec_i_stop_lem = ground (arith, stop_in shape, wrap_index-wrap cb (sub_size cb.i_stop 1) pow)
