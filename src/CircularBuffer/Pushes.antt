-- ===== src/CircularBuffer/Pushes.antt =====
-- Bytes pushed one after another onto a ring with room for them.
use mathlib.Core.Path.{subst}
use mathlib.Core.List.{append-nil, append_assoc}
use ascii_serial_com_c.Prelude.{
  ℕ, ◌+◌, ◌≤◌, ◌<◌, ◌≡◌, refl, ◌∙◌, sym, List, [], ◌∷◌, ◌++◌, length, length-append, arith,
}
use ascii_serial_com_c.CircularBuffer.{CircularBuffer, push_back}
use ascii_serial_com_c.CircularBuffer.Deque.{Deque}
use ascii_serial_com_c.CircularBuffer.Steps.{push_back_room}
use ascii_serial_com_c.CircularBuffer.Becomes.{Holds, size-Holds, push_back-Holds}

-- A ring that holds `q` from index `start` of its storage on.
pub record HoldsAt (cap start : ℕ) (q : Deque) (cb : CircularBuffer) : Type 0 where
  pub holds : Holds cap q cb
  pub same_start : cb.i_start ≡ start

unfoldable pub push_all : List ℕ → CircularBuffer → CircularBuffer
push_all [] cb = cb
push_all (x ∷ xs) cb = push_all xs (push_back x cb)

module _ {cap start : ℕ} where
  pub push_back-HoldsAt :
      (x : ℕ) {q : Deque} {cb : CircularBuffer}
      → HoldsAt cap start q cb
      → length q < cap
      → HoldsAt cap start (q ++ (x ∷ [])) (push_back x cb)
  push_back-HoldsAt x {q} {cb} h room = record {
    holds = push_back-Holds x h.holds room;
    same_start = unchanged ∙ h.same_start;
  }
    where
      unchanged : (push_back x cb).i_start ≡ cb.i_start
      unchanged = rw (
          push_back_room h.holds.valid x (omega (arith, size-Holds h.holds, h.holds.same_capacity)))

  pub push_all-HoldsAt :
      (xs : List ℕ) {q : Deque} {cb : CircularBuffer}
      → HoldsAt cap start q cb
      → length q + length xs ≤ cap
      → HoldsAt cap start (q ++ xs) (push_all xs cb)
  unfolding push_all
  push_all-HoldsAt [] {q} {cb} h room = subst (λ l. HoldsAt cap start l cb) (sym (append-nil q)) h
  push_all-HoldsAt (x ∷ xs) {q} {cb} h room =
      subst (λ l. HoldsAt cap start l (push_all xs (push_back x cb))) (append_assoc q (x ∷ []) xs)
        (push_all-HoldsAt xs (push_back-HoldsAt x h (omega arith))
          (omega (arith, length-append {0} q (x ∷ []))))

pub push_all-append :
    (xs ys : List ℕ) (cb : CircularBuffer) → push_all (xs ++ ys) cb ≡ push_all ys (push_all xs cb)
unfolding push_all
push_all-append [] ys cb = refl
push_all-append (x ∷ xs) ys cb = push_all-append xs ys (push_back x cb)
