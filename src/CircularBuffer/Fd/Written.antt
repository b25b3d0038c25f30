-- ===== src/CircularBuffer/Fd/Written.antt =====
-- What a write out of the ring sends, and what it leaves in the ring.
use ascii_serial_com_c.Prelude.{
  ℕ, zero, suc, ◌∷◌, ◌+◌, ◌-◌, ◌≤◌, min, ◌≡◌, refl, ◌∙◌, sym, ap, false, List, [], Option, none,
  some, get_or, ◌==◌, length, take, drop, add_size, sub_size, ok, throw, file_write, span, span_ext,
  length-span, drop-span, take-span, arith, Bool-cases, ◌⊎◌, inl, inr,
}
use ascii_serial_com_c.CircularBuffer.{CircularBuffer, wrap_index}
use ascii_serial_com_c.CircularBuffer.Window.{byte_at, window}
use ascii_serial_com_c.CircularBuffer.Inv.{IsValid, wrap, wrap_index-wrap}
use ascii_serial_com_c.CircularBuffer.Refine.{contents}
use ascii_serial_com_c.CircularBuffer.Becomes.{Holds}
use ascii_serial_com_c.CircularBuffer.Block.{wraps, first_block_size, drop_block}
use ascii_serial_com_c.CircularBuffer.Fd.{block_bytes, after_write, pop_front_to_fd}

take-min : (n : ℕ) (xs : List ℕ) → take n xs ≡ take (min n (length xs)) xs
take-min zero xs =
    let none_left : 0 ≡ min 0 (length xs) = omega arith in ap (λ k. take k xs) none_left
take-min (suc n) [] =
    let none_left : 0 ≡ min (suc n) 0 = omega arith in ap (λ (k : ℕ). take {A = ℕ} k []) none_left
take-min (suc n) (x ∷ xs) =
    let more : suc (min n (length xs)) ≡ min (suc n) (suc (length xs)) = omega arith in
    ap (λ l. x ∷ l) (take-min n xs) ∙ ap (λ k. take k (x ∷ xs)) more

module _ {cb : CircularBuffer} (v : IsValid cb) where
  open cb use {capacity, size, i_start, buffer}
  open v use {pow, shape}

  first_block_size-min : first_block_size cb ≡ min size (capacity - i_start)
  unfolding first_block_size wraps
  first_block_size-min = ground (arith, shape)

  -- The block is the front of what the ring holds.
  block_bytes-take :
      (n : ℕ) → n ≤ first_block_size cb → block_bytes buffer i_start n ≡ take n (contents cb)
  block_bytes-take n h =
      span_ext _ (byte_at buffer capacity i_start) i_start 0 n
        (λ j lt. ap (λ i. get_or buffer i 0) (ground (arith, first_block_size-min, shape)))
      ∙ sym (
          take-span (byte_at buffer capacity i_start) 0 size n
            (omega (arith, first_block_size-min)))

  slid :
      (n : ℕ)
      → n ≤ size
      → window buffer capacity (wrap capacity (i_start + n)) (size - n) ≡ drop n (contents cb)
  slid n h =
      span_ext _ (byte_at buffer capacity i_start) 0 (0 + n) (size - n)
        (λ j lt. ap (λ i. get_or buffer i 0) (ground (arith, shape)))
      ∙ sym (drop-span (byte_at buffer capacity i_start) 0 size n h)

  slid_index : (n : ℕ) → n ≤ size → wrap_index cb (add_size i_start n) ≡ wrap capacity (i_start + n)
  slid_index n h =
      ap (wrap_index cb) (omega (arith, shape))
      ∙ wrap_index-wrap cb (i_start + n) pow shape.small (omega (arith, shape))

  left_over : (n : ℕ) → n ≤ size → sub_size size n ≡ size - n
  left_over n h = omega (arith, shape)

  drop_all : (n : ℕ) → n ≡ size → drop n (contents cb) ≡ []
  drop_all n e =
      drop-span (byte_at buffer capacity i_start) 0 size n (omega arith)
      ∙ ap (span (byte_at buffer capacity i_start) (0 + n)) none_left
    where
      none_left : size - n ≡ 0
      none_left = omega arith

  drop_block-Holds :
      (n : ℕ) → n ≤ first_block_size cb → Holds capacity (drop n (contents cb)) (drop_block n cb)
  unfolding drop_block
  drop_block-Holds n h = elim (Bool-cases (n == size)) [
    | inl all ↦
        let gone : sub_size size n ≡ 0 = ground (arith, shape) in
        rw gone (record {
          valid = record { pow = pow; shape = ground (arith, shape) };
          held = sym (drop_all n (ground arith));
          same_capacity = refl;
        })
    | inr some_left ↦
        let fewer : sub_size size n ≡ size - n =
          left_over n (omega (arith, first_block_size-min)) in
        let not_gone : (size - n == 0) ≡ false = ground (arith, first_block_size-min) in
        rw (fewer, not_gone, slid_index n (omega (arith, first_block_size-min)))
          (record {
            valid = record { pow = pow; shape = ground (arith, shape, first_block_size-min) };
            held = slid n (omega (arith, first_block_size-min));
            same_capacity = refl;
          })
  ]

  -- The sequence that the ring holds, as far as it lies before the end of the storage.
  abbrev pub offered : List ℕ
  offered = take (capacity - i_start) (contents cb)

  offered_lem : offered ≡ take (first_block_size cb) (contents cb)
  offered_lem =
      take-min (capacity - i_start) (contents cb)
      ∙ ap (λ n. take n (contents cb))
          (omega
            (arith, first_block_size-min, length-span (byte_at buffer capacity i_start) 0 size))

  offered-length : length offered ≡ first_block_size cb
  offered-length =
      ap length (offered_lem ∙ sym (block_bytes-take (first_block_size cb) (omega arith)))
      ∙ length-span _ i_start (first_block_size cb)

  after_write_lem :
      (o : Option ℕ)
      → ((n : ℕ) → o ≡ some n → n ≤ first_block_size cb)
      → let (result, cb') = after_write o cb in
        ((o ≡ none) × ((result ≡ throw file_write) × (cb' ≡ cb)))
        ⊎ ((n : ℕ) × ((o ≡ some n) × ((result ≡ ok n) × Holds capacity (drop n (contents cb)) cb')))
  unfolding after_write
  after_write_lem none bounded = inl (refl, (refl, refl))
  after_write_lem (some n) bounded = inr (n, (refl, (refl, drop_block-Holds n (bounded n refl))))

  -- Let write never report more bytes than it was given. On a valid buffer pop_front_to_fd offers
  -- it, in order, the sequence that the buffer holds, cut to as many bytes as the storage has from
  -- the start index to its end. If write fails, it throws ASC_ERROR_FILE_WRITE and changes
  -- nothing; otherwise it returns the number of bytes written and leaves a valid buffer of the
  -- same capacity that holds the sequence without so many bytes at the front.
  pub pop_front_to_fd_lem :
      (write : List ℕ → Option ℕ)
      → ((block : List ℕ) (n : ℕ) → write block ≡ some n → n ≤ length block)
      → let (result, cb') = pop_front_to_fd write cb in
        ((write offered ≡ none) × ((result ≡ throw file_write) × (cb' ≡ cb)))
        ⊎ ((n : ℕ) × ((write offered ≡ some n)
              × ((result ≡ ok n) × Holds capacity (drop n (contents cb)) cb')))
  unfolding pop_front_to_fd
  pop_front_to_fd_lem write bounded =
      rw (block_bytes-take (first_block_size cb) (omega arith) ∙ sym offered_lem) (
        after_write_lem (write offered)
          (λ n wrote. omega (arith, bounded offered n wrote, offered-length)))
