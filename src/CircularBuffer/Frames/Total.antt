-- ===== src/CircularBuffer/Frames/Total.antt =====
-- The recursion of remove_front_unfinished_frames, on valid rings.
use mathlib.Core.Path.{subst}
use ascii_serial_com_c.Prelude.{
  ℕ, zero, suc, ◌+◌, ◌-◌, ◌≤◌, ◌<◌, ◌≡◌, ◌⊎◌, inl, inr, refl, ◌∙◌, sym, ap, [], ◌∷◌, leb, length,
  drop, length-drop, get_or, arith, Outcome, ok, none, some, Bool-cases, add_size,
}
use ascii_serial_com_c.CircularBuffer.{CircularBuffer, clear, pop_front}
use ascii_serial_com_c.CircularBuffer.Deque
use ascii_serial_com_c.CircularBuffer.Deque.{Deque}
use ascii_serial_com_c.CircularBuffer.Block.{pop_front_times}
use ascii_serial_com_c.CircularBuffer.Search.{discard, find_first}
use ascii_serial_com_c.CircularBuffer.Preserve.{clear-IsValid}
use ascii_serial_com_c.CircularBuffer.Becomes.{
  Holds, Becomes, size-Holds, pop_front-Becomes, get_element-Holds, find_first-Holds,
  find_last-Holds,
}
use ascii_serial_com_c.CircularBuffer.Frames.{
  CharSign, char_is, back_to_start, without_end, remove_loop, remove_front_unfinished_frames,
}
use ascii_serial_com_c.CircularBuffer.Frames.Resync.{
  round_found, round_no_start, round_leading, round_no_end,
}

-- A call that returns, and leaves a back part of what the ring held.
pub record Shortened (cap : ℕ) (q : Deque) (result : Outcome ℕ × CircularBuffer) : Type 0 where
  pub count : ℕ
  pub dropped : ℕ
  pub after : CircularBuffer
  pub returns : result ≡ (ok count, after)
  pub holds : Holds cap (drop dropped q) after

pop_front_times-drop :
    {cap : ℕ} (n : ℕ) (q : Deque) {cb : CircularBuffer}
    → Holds cap q cb
    → n ≤ length q
    → Becomes cap (pop_front_times n cb) tt (drop n q)
unfolding pop_front_times
pop_front_times-drop zero q {cb = cb} h le = record { after = cb; returns = refl; holds = h }
pop_front_times-drop (suc n) [] {cb = cb} h le = elim le [ ]
pop_front_times-drop (suc n) (x ∷ q) {cb = cb} h le =
    let first = pop_front-Becomes h in
    let rest = pop_front_times-drop n q first.holds (omega arith) in
    record { after = rest.after; returns = rw first.returns rest.returns; holds = rest.holds }

discard-drop :
    {cap : ℕ} (q : Deque) {cb : CircularBuffer}
    → Holds cap q cb
    → 0 < length q
    → Becomes cap (discard pop_front cb) tt (drop 1 q)
discard-drop [] h lt = elim lt [ ]
discard-drop (x ∷ q) h lt =
    let first = pop_front-Becomes h in
    record { after = first.after; returns = rw first.returns refl; holds = first.holds }

-- Where the way back from `i` ends.
back_to_start-cases :
    {cap : ℕ} {cb : CircularBuffer} {q : Deque} (h : Holds cap q cb) (sign : CharSign)
    (start_char i : ℕ)
    → i < length q
    → ((j : ℕ) × ((j ≤ i) × (back_to_start sign start_char i cb ≡ (ok (some j), cb))))
      ⊎ (back_to_start sign start_char i cb ≡ (ok none, cb))
unfolding back_to_start
back_to_start-cases {q = q} h sign start_char zero lt =
    elim (Bool-cases (char_is sign (get_or q 0 0) start_char)) [
      | inl here ↦ inl (0, (omega arith, rw (get_element-Holds 0 q h lt, here) refl))
      | inr other ↦ inr (rw (get_element-Holds 0 q h lt, other) refl)
    ]
back_to_start-cases {q = q} h sign start_char (suc i) lt =
    elim (Bool-cases (char_is sign (get_or q (suc i) 0) start_char)) [
      | inl here ↦ inl (suc i, (omega arith, rw (get_element-Holds (suc i) q h lt, here) refl))
      | inr other ↦ elim (back_to_start-cases h sign start_char i (omega arith)) [
        | inl (j, (le, found)) ↦
            inl (j, (omega arith, rw (get_element-Holds (suc i) q h lt, other) found))
        | inr nowhere ↦ inr (rw (get_element-Holds (suc i) q h lt, other) nowhere)
      ]
    ]

drop-nil : (k : ℕ) → drop {A = ℕ} k [] ≡ []
drop-nil zero = refl
drop-nil (suc k) = refl

drop-drop : (m n : ℕ) (q : Deque) → drop n (drop m q) ≡ drop (m + n) q
drop-drop zero n q = ap (λ k. drop k q) (omega arith)
drop-drop (suc m) n [] = drop-nil n ∙ sym (drop-nil (suc m + n))
drop-drop (suc m) n (x ∷ q) = drop-drop m n q ∙ ap (λ k. drop k (x ∷ q)) next
  where
    next : suc (m + n) ≡ suc m + n
    next = omega arith

later :
    {cap : ℕ} {q : Deque} {result : Outcome ℕ × CircularBuffer} (m : ℕ)
    → Shortened cap (drop m q) result
    → Shortened cap q result
later {cap} {q} m r = record {
  count = r.count;
  dropped = m + r.dropped;
  after = r.after;
  returns = r.returns;
  holds = subst (λ l. Holds cap l r.after) (drop-drop m r.dropped q) r.holds;
}

-- Any end and start character, with the searches on what the ring holds.
module _ {cap : ℕ} (sign : CharSign) (start_char end_char : ℕ) where
  without_end-Shortened :
      {q : Deque} {cb : CircularBuffer}
      → Holds cap q cb
      → Shortened cap q (without_end start_char cb)
  unfolding without_end clear
  without_end-Shortened {q} {cb} h =
      elim (Bool-cases (leb cb.size (Deque.find_last start_char q))) [
        | inl nowhere ↦ record {
          count = cb.size;
          dropped = length q;
          after = clear cb;
          returns = rw (find_last-Holds start_char h, nowhere) refl;
          holds = record {
            valid = clear-IsValid h.valid;
            held = sym (drop-all q);
            same_capacity = h.same_capacity;
          };
        }
        | inr found ↦
            let popped =
              pop_front_times-drop (Deque.find_last start_char q) q {cb = cb} h
                (ground (arith, size-Holds h)) in
            record {
              count = Deque.find_last start_char q;
              dropped = Deque.find_last start_char q;
              after = popped.after;
              returns = rw (find_last-Holds start_char h, found, popped.returns) refl;
              holds = popped.holds;
            }
      ]
    where
      drop-all : (l : Deque) → drop (length l) l ≡ []
      drop-all [] = refl
      drop-all (x ∷ l) = drop-all l

  remove_loop-Shortened :
      (fuel : ℕ) {q : Deque} {cb : CircularBuffer}
      → Holds cap q cb
      → length q < fuel
      → Shortened cap q (remove_loop sign start_char end_char fuel cb)
  remove_loop-Shortened zero h lt = elim lt [ ]
  remove_loop-Shortened (suc fuel) {q} {cb} h lt = elim (order_cases cb.size i_end) [
    | inl out ↦
        rw (round_no_end sign start_char end_char fuel i_end searched out) (without_end-Shortened h)
    | inr inside ↦ elim (order_cases i_end 0) [
      | inl leading ↦
          let popped = discard-drop q {cb = cb} h (omega (arith, size-Holds h)) in
          let rest =
            remove_loop-Shortened fuel popped.holds
              (omega (arith, length-drop 1 q, size-Holds h)) in
          later 1 (record {
            count = rest.count;
            dropped = rest.dropped;
            after = rest.after;
            returns =
                round_leading sign start_char end_char fuel i_end searched inside (omega arith)
                ∙ rw (popped.returns, rest.returns) refl;
            holds = rest.holds;
          })
      | inr further ↦
          elim (back_to_start-cases h sign start_char (i_end - 1) (omega (arith, size-Holds h))) [
            | inl (j, (le, found)) ↦
                let popped = pop_front_times-drop j q {cb = cb} h (omega (arith, size-Holds h)) in
                record {
                  count = j;
                  dropped = j;
                  after = popped.after;
                  returns =
                      round_found sign start_char end_char fuel i_end j searched inside further
                        found
                      ∙ rw popped.returns refl;
                  holds = popped.holds;
                }
            | inr nowhere ↦
                let popped =
                  pop_front_times-drop (i_end + 1) q {cb = cb} h (omega (arith, size-Holds h)) in
                let rest =
                  remove_loop-Shortened fuel popped.holds
                    (omega (arith, length-drop (i_end + 1) q, size-Holds h)) in
                later (i_end + 1) (record {
                  count = add_size (i_end + 1) rest.count;
                  dropped = rest.dropped;
                  after = rest.after;
                  returns =
                      round_no_start sign start_char end_char fuel i_end searched inside further
                        nowhere
                      ∙ rw (popped.returns, rest.returns) refl;
                  holds = rest.holds;
                })
          ]
    ]
  ]
    where
      i_end : ℕ
      i_end = Deque.find_first end_char q

      searched : find_first end_char cb ≡ (ok i_end, cb)
      searched = find_first-Holds end_char h

      order_cases : (a b : ℕ) → (a ≤ b) ⊎ (b < a)
      order_cases a b = ground arith

  -- On every valid buffer, for any start and end character, and whether `char` is signed or not,
  -- remove_front_unfinished_frames returns normally, and leaves a valid buffer of the same
  -- capacity that holds a back part of what it held.
  pub remove_front-Shortened :
      {q : Deque} {cb : CircularBuffer}
      → Holds cap q cb
      → Shortened cap q (remove_front_unfinished_frames sign start_char end_char cb)
  unfolding remove_front_unfinished_frames
  remove_front-Shortened {q} {cb} h =
      remove_loop-Shortened (suc cb.size) h (omega (arith, size-Holds h))
