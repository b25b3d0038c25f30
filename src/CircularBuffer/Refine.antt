-- ===== src/CircularBuffer/Refine.antt =====
-- A valid ring behaves as the deque of the bytes that it holds.
use ascii_serial_com_c.Prelude.{
  ℕ, zero, suc, ◌+◌, ◌-◌, ◌≤◌, ◌<◌, ◌≡◌, inl, inr, refl, ◌∙◌, ap, List, [], ◌∷◌, ◌++◌, ltb, length,
  set, get_or, get_elem?, take, arith, ok, span, take_all, take-append, Bool-cases, some, none,
}
use ascii_serial_com_c.CircularBuffer.{
  CircularBuffer, get_element, push_front, push_back, pop_front, pop_back,
}
use ascii_serial_com_c.CircularBuffer.Deque
use ascii_serial_com_c.CircularBuffer.Deque.{Deque, last_of, but_last}
use ascii_serial_com_c.CircularBuffer.Inv.{wrap, IsValid}
use ascii_serial_com_c.CircularBuffer.Window.{
  byte_at, window, length-window, window_snoc, window_slide, window-set_stop, window-set_start,
}
use ascii_serial_com_c.CircularBuffer.Steps.{
  before, pop_front_nonempty, pop_back_nonempty, push_back_room, push_back_full, push_front_room,
  push_front_full, pop_front_empty, pop_back_empty, get_element_in, get_element_out,
}
use ascii_serial_com_c.CircularBuffer.Preserve.{zero_or_pos, room_or_full}

abbrev pub contents : CircularBuffer → Deque
contents cb = window cb.buffer cb.capacity cb.i_start cb.size

pub length-contents : (cb : CircularBuffer) → length (contents cb) ≡ cb.size
length-contents cb = length-window cb.buffer cb.capacity cb.i_start cb.size

-- The window of a positive number of bytes, in the forms that the code's `size - 1` meets.
slide_pos :
    (buf : List ℕ) (cap start n : ℕ)
    → start < cap
    → 0 < n
    → n ≤ cap
    → window buf cap start n ≡ get_or buf start 0 ∷ window buf cap (wrap cap (start + 1)) (n - 1)
slide_pos buf cap start zero hs p h = absurd (omega arith)
slide_pos buf cap start (suc n) hs p h =
    window_slide buf cap start n hs h
    ∙ ap (λ k. get_or buf start 0 ∷ window buf cap (wrap cap (start + 1)) k) (omega arith)

snoc_pos :
    (buf : List ℕ) (cap start n : ℕ)
    → 0 < n
    → window buf cap start n ≡ window buf cap start (n - 1) ++ (byte_at buf cap start (n - 1) ∷ [])
snoc_pos buf cap start zero p = absurd (omega arith)
snoc_pos buf cap start (suc n) p =
    window_snoc buf cap start n
    ∙ ap (λ k. window buf cap start k ++ (byte_at buf cap start k ∷ [])) (omega arith)

stop_pos :
    (buf : List ℕ) (cap start n stop x : ℕ)
    → cap ≤ length buf
    → start < cap
    → 0 < n
    → n ≤ cap
    → stop ≡ wrap cap (start + (n - 1))
    → window (set buf stop x) cap start n ≡ window buf cap start (n - 1) ++ (x ∷ [])
stop_pos buf cap start zero stop x hb hs p h e = absurd (omega arith)
stop_pos buf cap start (suc n) stop x hb hs p h e =
    window-set_stop buf cap start n stop x hb hs h (ground arith)
    ∙ ap (λ k. window buf cap start k ++ (x ∷ [])) (omega arith)

start_pos :
    (buf : List ℕ) (cap start n i x : ℕ)
    → cap ≤ length buf
    → start < cap
    → 0 < n
    → n ≤ cap
    → i < cap
    → start ≡ wrap cap (i + 1)
    → window (set buf i x) cap i n ≡ x ∷ window buf cap start (n - 1)
start_pos buf cap start zero i x hb hs p h hi e = absurd (omega arith)
start_pos buf cap start (suc n) i x hb hs p h hi e =
    window-set_start buf cap start n i x hb hs h hi e
    ∙ ap (λ k. x ∷ window buf cap start k) (omega arith)

last-snoc :
    (q : Deque) (x y : ℕ) → (last_of x (q ++ (y ∷ [])) ≡ y) × (but_last x (q ++ (y ∷ [])) ≡ x ∷ q)
last-snoc [] x y = (refl, refl)
last-snoc (z ∷ q) x y = ((last-snoc q z y).0, ap (λ l. x ∷ l) (last-snoc q z y).1)

pub pop_back-snoc : (q : Deque) (y : ℕ) → Deque.pop_back (q ++ (y ∷ [])) ≡ (ok y, q)
unfolding Deque.pop_back
pop_back-snoc [] y = refl
pop_back-snoc (x ∷ q) y = ground (arith, last-snoc q x y)

take-cons_snoc : (n x y : ℕ) (q : Deque) → length q + 1 ≡ n → take n (x ∷ (q ++ (y ∷ []))) ≡ x ∷ q
take-cons_snoc zero x y q e = absurd (omega arith)
take-cons_snoc (suc n) x y q e =
    ap (λ l. x ∷ l) (ap (λ k. take k (q ++ (y ∷ []))) (omega arith) ∙ take-append q (y ∷ []))

module _ {cb : CircularBuffer} (v : IsValid cb) where
  open v use {pow, shape}
  open cb use {capacity, size, i_start, i_stop, buffer}

  -- On a valid buffer push_back appends the byte to the sequence that the buffer holds, and drops
  -- the front byte of that if the buffer is full.
  pub push_back_refines :
      (x : ℕ) → contents (push_back x cb) ≡ Deque.push_back capacity x (contents cb)
  unfolding Deque.push_back
  push_back_refines x = elim (room_or_full v) [
    | inl room ↦ rw (push_back_room v x room) (
        ground
          (arith, shape, length-contents cb, window-set_stop buffer capacity i_start size i_stop x))
    | inr full ↦ rw (push_back_full v x full) (
        ground (
          arith,
          shape,
          length-contents cb,
          slide_pos buffer capacity i_start size,
          stop_pos buffer capacity (wrap capacity (i_start + 1)) size i_stop x,
        ))
  ]

  -- On a valid buffer pop_front returns the first byte of the sequence that the buffer holds and
  -- leaves the rest; on an empty one it throws ASC_ERROR_CB_POP_EMPTY and leaves it empty.
  pub pop_front_refines :
      let (r, cb') = pop_front cb in (r, contents cb') ≡ Deque.pop_front (contents cb)
  unfolding Deque.pop_front
  pop_front_refines = elim (zero_or_pos size) [
    | inl e ↦ rw (pop_front_empty cb e, e) refl
    | inr p ↦
        rw (pop_front_nonempty v p)
          (rw (slide_pos buffer capacity i_start size shape.start_in p shape.size_in) refl)
  ]

  -- On a valid buffer pop_back returns the last byte of the sequence that the buffer holds and
  -- leaves those before it; on an empty one it throws ASC_ERROR_CB_POP_EMPTY and leaves it empty.
  pub pop_back_refines :
      let (r, cb') = pop_back cb in (r, contents cb') ≡ Deque.pop_back (contents cb)
  pop_back_refines = elim (zero_or_pos size) [
    | inl e ↦ rw (pop_back_empty cb e, e) (unfold Deque.pop_back in refl)
    | inr p ↦
        rw (pop_back_nonempty v p, snoc_pos buffer capacity i_start size p, pop_back-snoc)
          (ap (λ k. (ok (get_or buffer k 0), window buffer capacity i_start (size - 1)))
            (ground (arith, shape)))
  ]

  -- On a valid buffer push_front puts the byte before the sequence that the buffer holds, and
  -- drops the back byte of that if the buffer is full.
  pub push_front_refines :
      (x : ℕ) → contents (push_front x cb) ≡ Deque.push_front capacity x (contents cb)
  unfolding Deque.push_front
  push_front_refines x = elim (room_or_full v) [
    | inl room ↦ rw (push_front_room v x room) (
        ground (
          arith,
          shape,
          length-contents cb,
          take_all capacity (x ∷ contents cb),
          window-set_start buffer capacity i_start size (before capacity i_start) x,
        ))
    | inr full ↦ rw (push_front_full v x full) (
        ground (
          arith,
          shape,
          snoc_pos buffer capacity i_start size,
          length-window buffer capacity i_start (size - 1),
          start_pos buffer capacity i_start size (before capacity i_start) x,
          take-cons_snoc capacity x (byte_at buffer capacity i_start (size - 1))
              (window buffer capacity i_start (size - 1)),
        ))
  ]

get_elem?-span : (f : ℕ → ℕ) (i n j : ℕ) → j < n → get_elem? (span f i n) j ≡ some (f (i + j))
get_elem?-span f i zero j h = elim h [ ]
get_elem?-span f i (suc n) zero h = ground arith
get_elem?-span f i (suc n) (suc j) h = ground (arith, get_elem?-span f (i + 1) n j (omega arith))

pub get_elem?-out : (q : Deque) (j : ℕ) → length q ≤ j → get_elem? q j ≡ none
get_elem?-out [] j h = refl
get_elem?-out (x ∷ q) zero h = absurd (omega arith)
get_elem?-out (x ∷ q) (suc j) h = get_elem?-out q j (omega arith)

-- On a valid buffer get_element returns the byte at that position of the sequence that the buffer
-- holds, and throws ASC_ERROR_CB_OOB at or beyond its length; the buffer is unchanged.
pub get_element_refines :
    {cb : CircularBuffer} (i : ℕ)
    → IsValid cb
    → get_element i cb ≡ (Deque.get_element i (contents cb), cb)
unfolding Deque.get_element
get_element_refines {cb} i v = elim (Bool-cases (ltb i cb.size)) [
  | inl h ↦ ground (
    arith,
    get_element_in v i,
    get_elem?-span (byte_at cb.buffer cb.capacity cb.i_start) 0 cb.size i,
  )
  | inr h ↦ ground (arith, get_element_out cb i, get_elem?-out (contents cb) i, length-contents cb)
]
