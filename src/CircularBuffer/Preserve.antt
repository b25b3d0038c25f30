-- ===== src/CircularBuffer/Preserve.antt =====
-- The operations on one element keep the invariant.
use ascii_serial_com_c.Prelude.{ℕ, zero, suc, ◌<◌, ◌≡◌, ◌⊎◌, inl, inr, refl, length-set, arith}
use ascii_serial_com_c.CircularBuffer.{
  CircularBuffer, push_front, push_back, pop_front, pop_back, clear,
}
use ascii_serial_com_c.CircularBuffer.Inv.{IsValid, stop_in}
use ascii_serial_com_c.CircularBuffer.Steps.{
  before, pop_front_nonempty, pop_back_nonempty, push_back_room, push_back_full, push_front_room,
  push_front_full, pop_front_empty, pop_back_empty,
}

-- A valid ring is empty or not, and full or not.
pub zero_or_pos : (n : ℕ) → (n ≡ 0) ⊎ (0 < n)
zero_or_pos zero = inl refl
zero_or_pos (suc n) = inr (omega arith)

pub room_or_full :
    {cb : CircularBuffer} → IsValid cb → (cb.size < cb.capacity) ⊎ (cb.size ≡ cb.capacity)
room_or_full v = grind (arith, v.shape)

module _ {cb : CircularBuffer} (v : IsValid cb) where
  open v use {pow, shape}

  -- push_back leaves a valid buffer valid.
  pub push_back-IsValid : (x : ℕ) → IsValid (push_back x cb)
  push_back-IsValid x = elim (room_or_full v) [
    | inl room ↦
        rw (push_back_room v x room)
          (record { pow = pow; shape = ground (arith, shape, length-set cb.buffer cb.i_stop x) })
    | inr full ↦
        rw (push_back_full v x full)
          (record { pow = pow; shape = ground (arith, shape, length-set cb.buffer cb.i_stop x) })
  ]

  -- push_front leaves a valid buffer valid.
  pub push_front-IsValid : (x : ℕ) → IsValid (push_front x cb)
  push_front-IsValid x = elim (room_or_full v) [
    | inl room ↦ rw (push_front_room v x room) (record {
      pow = pow;
      shape = ground (arith, shape, length-set cb.buffer (before cb.capacity cb.i_start) x);
    })
    | inr full ↦ rw (push_front_full v x full) (record {
      pow = pow;
      shape = ground (arith, shape, length-set cb.buffer (before cb.capacity cb.i_start) x);
    })
  ]

  -- pop_front leaves a valid buffer valid, also when it throws.
  pub pop_front-IsValid : IsValid (pop_front cb).1
  pop_front-IsValid = elim (zero_or_pos cb.size) [
    | inl e ↦ rw (pop_front_empty cb e) v
    | inr p ↦ rw (pop_front_nonempty v p) (record { pow = pow; shape = ground (arith, shape) })
  ]

  -- pop_back leaves a valid buffer valid, also when it throws.
  pub pop_back-IsValid : IsValid (pop_back cb).1
  pop_back-IsValid = elim (zero_or_pos cb.size) [
    | inl e ↦ rw (pop_back_empty cb e) v
    | inr p ↦
        rw (pop_back_nonempty v p)
          (record { pow = pow; shape = ground (arith, shape, stop_in shape) })
  ]

  pub clear-IsValid : IsValid (clear cb)
  unfolding clear
  clear-IsValid = record { pow = pow; shape = ground (arith, shape) }
