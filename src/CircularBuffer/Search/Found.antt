-- ===== src/CircularBuffer/Search/Found.antt =====
-- The searching loops find what the searches on the held sequence find.
use ascii_serial_com_c.Prelude.{
  ℕ, zero, suc, ◌+◌, ◌≤◌, ◌<◌, ◌≡◌, inl, inr, ◌∙◌, ap, [], ◌∷◌, ◌++◌, ◌==◌, if◌then◌else◌, length,
  arith, ok, span, span_snoc, length-span, Bool-cases, length-append,
}
use ascii_serial_com_c.CircularBuffer.{CircularBuffer}
use ascii_serial_com_c.CircularBuffer.Deque
use ascii_serial_com_c.CircularBuffer.Deque.{Deque}
use ascii_serial_com_c.CircularBuffer.Inv.{IsValid}
use ascii_serial_com_c.CircularBuffer.Window.{byte_at}
use ascii_serial_com_c.CircularBuffer.Steps.{get_element_in}
use ascii_serial_com_c.CircularBuffer.Refine.{contents}
use ascii_serial_com_c.CircularBuffer.Search.{
  find_first_loop, find_first, find_last_loop, find_last, count_loop, count,
}

module _ {cb : CircularBuffer} (v : IsValid cb) (value : ℕ) where
  open cb use {capacity, size, i_start, buffer}

  abbrev at : ℕ → ℕ
  at = byte_at buffer capacity i_start

  find_first_loop_lem :
      (left i : ℕ)
      → i + left ≡ size
      → find_first_loop value left i cb ≡ (ok (i + Deque.find_first value (span at i left)), cb)
  unfolding find_first_loop
  find_first_loop_lem zero i e = ground arith
  find_first_loop_lem (suc left) i e =
      ground (arith, get_element_in v i, find_first_loop_lem left (i + 1))

  pub find_first_lem : find_first value cb ≡ (ok (Deque.find_first value (contents cb)), cb)
  unfolding find_first
  find_first_lem = find_first_loop_lem size 0 (omega arith) ∙ ground arith

  count_loop_lem :
      (left i n : ℕ)
      → i + left ≡ size
      → count_loop value left i n cb ≡ (ok (n + Deque.count value (span at i left)), cb)
  unfolding count_loop
  count_loop_lem zero i n e = ground arith
  count_loop_lem (suc left) i n e = elim (Bool-cases (at i == value)) [
    | inl same ↦ ground (arith, get_element_in v i, count_loop_lem left (i + 1) (n + 1))
    | inr other ↦ ground (arith, get_element_in v i, count_loop_lem left (i + 1) n)
  ]

  count_lem : count value cb ≡ (ok (Deque.count value (contents cb)), cb)
  unfolding count
  count_lem = count_loop_lem size 0 0 (omega arith) ∙ ground arith

pub find_first-le : (value : ℕ) (q : Deque) → Deque.find_first value q ≤ length q
find_first-le value [] = omega arith
find_first-le value (x ∷ q) = ground (arith, find_first-le value q)

pub find_last-le : (value : ℕ) (q : Deque) → Deque.find_last value q ≤ length q
find_last-le value [] = omega arith
find_last-le value (x ∷ q) = ground (arith, find_last-le value q)

-- From the back: one more byte there comes first.
find_last-snoc :
    (value x : ℕ) (q : Deque)
    → Deque.find_last value (q ++ (x ∷ [])) ≡ (
        if x == value
        then length q
        else (if Deque.find_last value q == length q
            then length q + 1
            else Deque.find_last value q))
find_last-snoc value x [] = ground arith
find_last-snoc value x (y ∷ q) =
    ground (arith, find_last-snoc value x q, length-append {0} q (x ∷ []), find_last-le value q)

find_last-span :
    (value : ℕ) (f : ℕ → ℕ) (n : ℕ)
    → Deque.find_last value (span f 0 (suc n)) ≡ (
        if f n == value
        then n
        else (if Deque.find_last value (span f 0 n) == n
            then n + 1
            else Deque.find_last value (span f 0 n)))
find_last-span value f n =
    ap (Deque.find_last value) (span_snoc f 0 n)
    ∙ find_last-snoc value (f (0 + n)) (span f 0 n)
    ∙ ground (arith, length-span f 0 n)

module _ {cb : CircularBuffer} (v : IsValid cb) (value : ℕ) where
  open cb use {capacity, size, i_start, buffer}

  -- One round of the loop.
  find_last_loop-suc :
      (n : ℕ)
      → n < size
      → find_last_loop value (suc n) cb ≡ (
          if byte_at buffer capacity i_start n == value
          then (ok n, cb)
          else find_last_loop value n cb)
  unfolding find_last_loop
  find_last_loop-suc n h = ground (arith, get_element_in v n)

  find_last_loop_lem :
      (n : ℕ)
      → n ≤ size
      → let i = Deque.find_last value (span (byte_at buffer capacity i_start) 0 n) in
        find_last_loop value n cb ≡ (ok (if i == n then size else i), cb)
  find_last_loop_lem zero h = unfold find_last_loop in ground arith
  find_last_loop_lem (suc n) h =
      rw (find_last_loop-suc n h, find_last_loop_lem n (omega arith))
        (ground (
          arith,
          find_last-span value (byte_at buffer capacity i_start) n,
          find_last-le value (span (byte_at buffer capacity i_start) 0 n),
          length-span (byte_at buffer capacity i_start) 0 n,
        ))

  pub find_last_lem : find_last value cb ≡ (ok (Deque.find_last value (contents cb)), cb)
  unfolding find_last
  find_last_lem = find_last_loop_lem size (omega arith) ∙ ground arith

  -- On a valid buffer find_first and find_last return normally the position of the first and of
  -- the last occurrence of the byte in the sequence that the buffer holds, or its length if there
  -- is none, and count the number of its occurrences; the buffer is unchanged.
  pub searches_lem :
      (find_first value cb ≡ (ok (Deque.find_first value (contents cb)), cb))
      × (find_last value cb ≡ (ok (Deque.find_last value (contents cb)), cb))
      × (count value cb ≡ (ok (Deque.count value (contents cb)), cb))
  searches_lem = (find_first_lem v value, find_last_lem, count_lem v value)
