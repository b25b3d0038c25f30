-- ===== src/CircularBuffer/Fd/Read.antt =====
-- A read into the ring stores what push_back would, one byte after another.
use ascii_serial_com_c.Prelude.{
  ℕ, suc, ◌+◌, ◌-◌, ◌^◌, ◌≤◌, ◌<◌, ◌≡◌, refl, ◌∙◌, sym, ap, ap₂, ◌⊎◌, List, [], ◌∷◌, Option, none,
  some, set, ltb, length, add_size, sub_size, ok, throw, file_read, arith, inl, inr, if◌then◌else◌,
}
use ascii_serial_com_c.CircularBuffer.{CircularBuffer, push_back}
use ascii_serial_com_c.CircularBuffer.Inv.{IsValid, wrap, wrap_index-wrap, stop_in}
use ascii_serial_com_c.CircularBuffer.Steps.{push_back_room, push_back_full}
use ascii_serial_com_c.CircularBuffer.Preserve.{room_or_full, push_back-IsValid}
use ascii_serial_com_c.CircularBuffer.Pushes.{push_all}
use ascii_serial_com_c.CircularBuffer.Fd.{
  store_bytes, block_size_available, grow_by, after_read, push_back_from_fd,
}

-- The place that a read may fill.
abbrev pub available : CircularBuffer → ℕ
available cb = if ltb cb.i_stop cb.i_start then cb.i_start - cb.i_stop else cb.capacity - cb.i_stop

-- The indices after `n` more bytes.
abbrev grown : ℕ → CircularBuffer → CircularBuffer
grown n cb =
    if ltb cb.capacity (cb.size + n)
    then record cb {
      i_stop = wrap cb.capacity (cb.i_stop + n);
      i_start = wrap cb.capacity (cb.i_start + (cb.size + n - cb.capacity));
    }
    else record cb { i_stop = wrap cb.capacity (cb.i_stop + n); size = cb.size + n }

module _ {cb : CircularBuffer} (v : IsValid cb) where
  open v use {pow, shape}

  block_size_available_lem : block_size_available cb ≡ available cb
  unfolding block_size_available
  block_size_available_lem = ground (arith, shape, stop_in shape)

  grow_by-grown :
      (n : ℕ) (buffer : List ℕ)
      → cb.capacity < 2 ^ 63
      → n ≤ available cb
      → grow_by n (record cb { buffer = buffer }) ≡ grown n (record cb { buffer = buffer })
  unfolding grow_by
  grow_by-grown n buffer less h = ground (
    arith,
    shape,
    stop_in shape,
    wrap_index-wrap (record cb { buffer = buffer }) (add_size cb.i_stop n) pow,
    wrap_index-wrap (record cb { buffer = buffer })
        (sub_size (add_size cb.i_start (add_size cb.size n)) cb.capacity) pow,
  )

  grown_zero : grown 0 cb ≡ cb
  grown_zero = ground (arith, shape, stop_in shape)

  grown_step :
      (n x : ℕ) (buffer : List ℕ)
      → suc n ≤ available cb
      → grown (suc n) (record cb { buffer = buffer })
        ≡ grown n (record (push_back x cb) { buffer = buffer })
  grown_step n x buffer h = elim (room_or_full v) [
    | inl room ↦ rw (push_back_room v x room) (ground (arith, shape, stop_in shape))
    | inr full ↦ rw (push_back_full v x full) (ground (arith, shape, stop_in shape))
  ]

  available-push_back : (n x : ℕ) → suc (suc n) ≤ available cb → suc n ≤ available (push_back x cb)
  available-push_back n x h = elim (room_or_full v) [
    | inl room ↦ rw (push_back_room v x room) (ground (arith, shape, stop_in shape))
    | inr full ↦ rw (push_back_full v x full) (ground (arith, shape, stop_in shape))
  ]

  -- The next byte's place, while there is one without wrapping around.
  stop-push_back : (n x : ℕ) → suc (suc n) ≤ available cb → (push_back x cb).i_stop ≡ cb.i_stop + 1
  stop-push_back n x h = elim (room_or_full v) [
    | inl room ↦ rw (push_back_room v x room) (ground (arith, shape, stop_in shape))
    | inr full ↦ rw (push_back_full v x full) (ground (arith, shape, stop_in shape))
  ]

  buffer-push_back : (x : ℕ) → (push_back x cb).buffer ≡ set cb.buffer cb.i_stop x
  buffer-push_back x = elim (room_or_full v) [
    | inl room ↦ rw (push_back_room v x room)
    | inr full ↦ rw (push_back_full v x full)
  ]

grown-push_all :
    (xs : List ℕ) {cb : CircularBuffer}
    → IsValid cb
    → length xs ≤ available cb
    → grown (length xs) (record cb { buffer = store_bytes cb.buffer cb.i_stop xs }) ≡ push_all xs cb
unfolding push_all store_bytes
grown-push_all [] v h = grown_zero v
grown-push_all (x ∷ []) {cb} v h =
    grown_step v 0 x (set cb.buffer cb.i_stop x) h
    ∙ ap (λ b. grown 0 (record (push_back x cb) { buffer = b })) (sym (buffer-push_back v x))
    ∙ grown_zero (push_back-IsValid v x)
grown-push_all (x ∷ y ∷ xs) {cb} v h =
    grown_step v (suc (length xs)) x
      (store_bytes (set cb.buffer cb.i_stop x) (cb.i_stop + 1) (y ∷ xs)) h
    ∙ ap₂
        (λ b i.
          grown (suc (length xs)) (record (push_back x cb) { buffer = store_bytes b i (y ∷ xs) }))
        (sym (buffer-push_back v x)) (sym (stop-push_back v (length xs) x h))
    ∙ grown-push_all (y ∷ xs) (push_back-IsValid v x) (available-push_back v (length xs) x h)

after_read-some :
    (bytes : List ℕ) {cb : CircularBuffer}
    → IsValid cb
    → cb.capacity < 2 ^ 63
    → length bytes ≤ available cb
    → after_read (some bytes) cb ≡ (ok (length bytes), push_all bytes cb)
unfolding after_read
after_read-some bytes {cb} v less fits =
    ap (λ r. (ok (length bytes), r))
      (grow_by-grown v (length bytes) (store_bytes cb.buffer cb.i_stop bytes) less fits
        ∙ grown-push_all bytes v fits)

after_read_lem :
    (o : Option (List ℕ)) {cb : CircularBuffer}
    → IsValid cb
    → cb.capacity < 2 ^ 63
    → ((bytes : List ℕ) → o ≡ some bytes → length bytes ≤ available cb)
    → ((o ≡ none) × (after_read o cb ≡ (throw file_read, cb)))
      ⊎ ((bytes : List ℕ) × ((o ≡ some bytes)
            × (after_read o cb ≡ (ok (length bytes), push_all bytes cb))))
unfolding after_read
after_read_lem none v less bounded = inl (refl, refl)
after_read_lem (some bytes) v less bounded =
    inr (bytes, (refl, after_read-some bytes v less (bounded bytes refl)))

-- The read that succeeds.
pub push_back_from_fd-some :
    (read : ℕ → Option (List ℕ)) (bytes : List ℕ) {cb : CircularBuffer}
    → IsValid cb
    → cb.capacity < 2 ^ 63
    → read (available cb) ≡ some bytes
    → length bytes ≤ available cb
    → push_back_from_fd read cb ≡ (ok (length bytes), push_all bytes cb)
unfolding push_back_from_fd
push_back_from_fd-some read bytes v less reads fits =
    rw (block_size_available_lem v, reads) (after_read-some bytes v less fits)

-- Let read never give more bytes than it was asked for. On a valid buffer of fewer than 2^63 bytes
-- push_back_from_fd asks for the bytes that fit from the stop index on, up to the start index if
-- that lies behind it and to the end of the storage otherwise. If read fails, it throws
-- ASC_ERROR_FILE_READ and changes nothing; otherwise it returns the number of bytes read and
-- leaves exactly what pushing them one by one would leave, the oldest bytes of a full buffer
-- overwritten.
pub push_back_from_fd_lem :
    (read : ℕ → Option (List ℕ)) {cb : CircularBuffer}
    → IsValid cb
    → cb.capacity < 2 ^ 63
    → ((count : ℕ) (bytes : List ℕ) → read count ≡ some bytes → length bytes ≤ count)
    → ((read (available cb) ≡ none) × (push_back_from_fd read cb ≡ (throw file_read, cb)))
      ⊎ ((bytes : List ℕ) × ((read (available cb) ≡ some bytes)
            × (push_back_from_fd read cb ≡ (ok (length bytes), push_all bytes cb))))
unfolding push_back_from_fd
push_back_from_fd_lem read {cb} v less bounded =
    rw (block_size_available_lem v)
      (after_read_lem (read (available cb)) v less (bounded (available cb)))
