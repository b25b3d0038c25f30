-- ===== src/CircularBuffer/Becomes.antt =====
-- Calls described by the sequences that a ring holds before and after.
use ascii_serial_com_c.Prelude.{
  ℕ, ◌<◌, ◌≡◌, inl, inr, refl, ◌∙◌, sym, ap, [], ◌∷◌, ◌++◌, length, arith, Outcome, ok, get_or,
  get_elem?-eq-get_or,
}
use ascii_serial_com_c.CircularBuffer.{CircularBuffer, get_element, push_back, pop_front, pop_back}
use ascii_serial_com_c.CircularBuffer.Block.{pop_front_times}
use ascii_serial_com_c.CircularBuffer.Deque
use ascii_serial_com_c.CircularBuffer.Deque.{Deque}
use ascii_serial_com_c.CircularBuffer.Search.{find_first, find_last}
use ascii_serial_com_c.CircularBuffer.Search.Found.{find_first_lem, find_last_lem}
use ascii_serial_com_c.CircularBuffer.Inv.{IsValid}
use ascii_serial_com_c.CircularBuffer.Steps.{
  pop_front_nonempty, pop_back_nonempty, push_back_room, push_back_full, pop_front_empty,
  pop_back_empty,
}
use ascii_serial_com_c.CircularBuffer.Preserve.{
  zero_or_pos, room_or_full, push_back-IsValid, pop_front-IsValid, pop_back-IsValid,
}
use ascii_serial_com_c.CircularBuffer.Refine.{
  contents, length-contents, push_back_refines, pop_front_refines, pop_back_refines, pop_back-snoc,
  get_element_refines,
}

-- `cb` is a valid ring of that capacity that holds `q`.
pub record Holds (cap : ℕ) (q : Deque) (cb : CircularBuffer) : Type 0 where
  pub valid : IsValid cb
  pub held : contents cb ≡ q
  pub same_capacity : cb.capacity ≡ cap

-- The call returns `a` and leaves a ring that holds `q`.
pub record Becomes (cap : ℕ) {A : Type 0} (result : Outcome A × CircularBuffer) (a : A) (q : Deque)
    : Type 0 where
  pub after : CircularBuffer
  pub returns : result ≡ (ok a, after)
  pub holds : Holds cap q after

pub size-Holds : {cap : ℕ} {q : Deque} {cb : CircularBuffer} → Holds cap q cb → cb.size ≡ length q
size-Holds {cb = cb} h = sym (length-contents cb) ∙ ap length h.held

pub capacity-pop_front :
    {cb : CircularBuffer} → IsValid cb → (pop_front cb).1.capacity ≡ cb.capacity
capacity-pop_front {cb} v = elim (zero_or_pos cb.size) [
  | inl e ↦ rw (pop_front_empty cb e)
  | inr p ↦ rw (pop_front_nonempty v p)
]

pub capacity-pop_back : {cb : CircularBuffer} → IsValid cb → (pop_back cb).1.capacity ≡ cb.capacity
capacity-pop_back {cb} v = elim (zero_or_pos cb.size) [
  | inl e ↦ rw (pop_back_empty cb e)
  | inr p ↦ rw (pop_back_nonempty v p)
]

pub capacity-push_back :
    {cb : CircularBuffer} (x : ℕ) → IsValid cb → (push_back x cb).capacity ≡ cb.capacity
capacity-push_back x v = elim (room_or_full v) [
  | inl room ↦ rw (push_back_room v x room)
  | inr full ↦ rw (push_back_full v x full)
]

deque_push_back :
    {cap : ℕ} (x : ℕ) (q : Deque) → length q < cap → Deque.push_back cap x q ≡ q ++ (x ∷ [])
unfolding Deque.push_back
deque_push_back x q h = ground arith

module _ {cap : ℕ} {cb : CircularBuffer} where
  pub pop_front-Becomes :
      {x : ℕ} {q : Deque} → Holds cap (x ∷ q) cb → Becomes cap (pop_front cb) x q
  pop_front-Becomes {x} {q} h = record {
    after = (pop_front cb).1;
    returns = ap (λ r. (r, (pop_front cb).1)) (ap (λ p. p.0) popped);
    holds = record {
      valid = pop_front-IsValid h.valid;
      held = ap (λ p. p.1) popped;
      same_capacity = capacity-pop_front h.valid ∙ h.same_capacity;
    };
  }
    where
      popped :
          let (r, cb') = pop_front cb in ◌≡◌ {A = Outcome ℕ × Deque} (r, contents cb') (ok x, q)
      popped =
          pop_front_refines h.valid ∙ ap Deque.pop_front h.held ∙ (unfold Deque.pop_front in refl)

  pub push_back-Holds :
      {q : Deque} (x : ℕ)
      → Holds cap q cb
      → length q < cap
      → Holds cap (q ++ (x ∷ [])) (push_back x cb)
  push_back-Holds {q} x h room = record {
    valid = push_back-IsValid h.valid x;
    held = push_back_refines h.valid x ∙ rw (h.held, h.same_capacity) (deque_push_back x q room);
    same_capacity = capacity-push_back x h.valid ∙ h.same_capacity;
  }

  pub pop_back-Becomes :
      {x : ℕ} (q : Deque) → Holds cap (q ++ (x ∷ [])) cb → Becomes cap (pop_back cb) x q
  pop_back-Becomes {x} q h = record {
    after = (pop_back cb).1;
    returns = ap (λ r. (r, (pop_back cb).1)) (ap (λ p. p.0) popped);
    holds = record {
      valid = pop_back-IsValid h.valid;
      held = ap (λ p. p.1) popped;
      same_capacity = capacity-pop_back h.valid ∙ h.same_capacity;
    };
  }
    where
      popped : let (r, cb') = pop_back cb in ◌≡◌ {A = Outcome ℕ × Deque} (r, contents cb') (ok x, q)
      popped = pop_back_refines h.valid ∙ ap Deque.pop_back h.held ∙ pop_back-snoc q x

deque_get : (i : ℕ) (q : Deque) → i < length q → Deque.get_element i q ≡ ok (get_or q i 0)
unfolding Deque.get_element
deque_get i q lt = ground (arith, get_elem?-eq-get_or q i 0 lt)

module _ {cap : ℕ} {cb : CircularBuffer} where
  pub get_element-Holds :
      (i : ℕ) (q : Deque)
      → Holds cap q cb
      → i < length q
      → get_element i cb ≡ (ok (get_or q i 0), cb)
  get_element-Holds i q h lt =
      get_element_refines i h.valid ∙ rw h.held (ap (λ r. (r, cb)) (deque_get i q lt))

-- The searches on what a ring holds.
pub find_first-Holds :
    {cap : ℕ} {cb : CircularBuffer} {q : Deque} (value : ℕ)
    → Holds cap q cb
    → find_first value cb ≡ (ok (Deque.find_first value q), cb)
find_first-Holds value h = find_first_lem h.valid value ∙ rw h.held refl

pub find_last-Holds :
    {cap : ℕ} {cb : CircularBuffer} {q : Deque} (value : ℕ)
    → Holds cap q cb
    → find_last value cb ≡ (ok (Deque.find_last value q), cb)
find_last-Holds value h = find_last_lem h.valid value ∙ rw h.held refl

-- `n` pops drop the first `n` bytes.
pub pop_front_times-Becomes :
    {cap : ℕ} (p q : Deque) {cb : CircularBuffer}
    → Holds cap (p ++ q) cb
    → Becomes cap (pop_front_times (length p) cb) tt q
unfolding pop_front_times
pop_front_times-Becomes [] q {cb} h = record { after = cb; returns = refl; holds = h }
pop_front_times-Becomes (x ∷ p) q {cb} h =
    let first = pop_front-Becomes h in
    let rest = pop_front_times-Becomes p q first.holds in
    record { after = rest.after; returns = rw first.returns rest.returns; holds = rest.holds }
