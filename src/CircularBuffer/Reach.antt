-- ===== src/CircularBuffer/Reach.antt =====
-- The rings that a program can reach from init.
use ascii_serial_com_c.Prelude.{
  ℕ, ◌^◌, ◌≤◌, ◌<◌, ◌≡◌, refl, ◌∙◌, List, [], ◌∷◌, Option, some, length, arith, inl, inr,
}
use ascii_serial_com_c.Bits.{IsPow2}
use ascii_serial_com_c.CircularBuffer.{
  CircularBuffer, init, push_front, push_back, pop_front, pop_back, clear,
}
use ascii_serial_com_c.CircularBuffer.Inv.{IsValid}
use ascii_serial_com_c.CircularBuffer.Steps.{push_front_room, push_front_full}
use ascii_serial_com_c.CircularBuffer.Preserve.{
  room_or_full, push_back-IsValid, push_front-IsValid, pop_front-IsValid, pop_back-IsValid,
  clear-IsValid,
}
use ascii_serial_com_c.CircularBuffer.Becomes.{
  capacity-push_back, capacity-pop_front, capacity-pop_back,
}
use ascii_serial_com_c.CircularBuffer.Pushes.{push_all}
use ascii_serial_com_c.CircularBuffer.Fd.{push_back_from_fd, pop_front_to_fd}
use ascii_serial_com_c.CircularBuffer.Fd.Read.{push_back_from_fd_lem}
use ascii_serial_com_c.CircularBuffer.Fd.Written.{pop_front_to_fd_lem}
use ascii_serial_com_c.CircularBuffer.Init.{init-HoldsAt}

-- One call, whether it returns or throws.
pub data Step : CircularBuffer → CircularBuffer → Type 0 where
  pushes_back : (x : ℕ) (cb : CircularBuffer) → Step cb (push_back x cb)
  pushes_front : (x : ℕ) (cb : CircularBuffer) → Step cb (push_front x cb)
  pops_front : (cb : CircularBuffer) → Step cb (pop_front cb).1
  pops_back : (cb : CircularBuffer) → Step cb (pop_back cb).1
  clears : (cb : CircularBuffer) → Step cb (clear cb)
  reads :
      (read : ℕ → Option (List ℕ)) (cb : CircularBuffer)
      → ((count : ℕ) (bytes : List ℕ) → read count ≡ some bytes → length bytes ≤ count)
      → Step cb (push_back_from_fd read cb).1
  writes :
      (write : List ℕ → Option ℕ) (cb : CircularBuffer)
      → ((block : List ℕ) (n : ℕ) → write block ≡ some n → n ≤ length block)
      → Step cb (pop_front_to_fd write cb).1

pub data Reach (start : CircularBuffer) : CircularBuffer → Type 0 where
  here : Reach start start
  next : {cb cb' : CircularBuffer} → Reach start cb → Step cb cb' → Reach start cb'

-- A valid ring of that capacity.
pub record IsRing (cap : ℕ) (cb : CircularBuffer) : Type 0 where
  pub valid : IsValid cb
  pub same_capacity : cb.capacity ≡ cap

capacity-push_front :
    {cb : CircularBuffer} (x : ℕ) → IsValid cb → (push_front x cb).capacity ≡ cb.capacity
capacity-push_front x v = elim (room_or_full v) [
  | inl room ↦ rw (push_front_room v x room)
  | inr full ↦ rw (push_front_full v x full)
]

capacity-clear : (cb : CircularBuffer) → (clear cb).capacity ≡ cb.capacity
unfolding clear
capacity-clear cb = refl

push_all-IsRing :
    {cap : ℕ} (xs : List ℕ) {cb : CircularBuffer} → IsRing cap cb → IsRing cap (push_all xs cb)
unfolding push_all
push_all-IsRing [] r = r
push_all-IsRing (x ∷ xs) r = push_all-IsRing xs (record {
  valid = push_back-IsValid r.valid x;
  same_capacity = capacity-push_back x r.valid ∙ r.same_capacity;
})

Step-IsRing :
    {cap : ℕ} {cb cb' : CircularBuffer}
    → cap < 2 ^ 63
    → Step cb cb'
    → IsRing cap cb
    → IsRing cap cb'
Step-IsRing less (pushes_back x cb) r = record {
  valid = push_back-IsValid r.valid x;
  same_capacity = capacity-push_back x r.valid ∙ r.same_capacity;
}
Step-IsRing less (pushes_front x cb) r = record {
  valid = push_front-IsValid r.valid x;
  same_capacity = capacity-push_front x r.valid ∙ r.same_capacity;
}
Step-IsRing less (pops_front cb) r = record {
  valid = pop_front-IsValid r.valid;
  same_capacity = capacity-pop_front r.valid ∙ r.same_capacity;
}
Step-IsRing less (pops_back cb) r = record {
  valid = pop_back-IsValid r.valid;
  same_capacity = capacity-pop_back r.valid ∙ r.same_capacity;
}
Step-IsRing less (clears cb) r = record {
  valid = clear-IsValid r.valid;
  same_capacity = capacity-clear cb ∙ r.same_capacity;
}
Step-IsRing less (reads read cb bounded) r =
    elim (push_back_from_fd_lem read r.valid (omega (arith, r.same_capacity)) bounded) [
      | inl (e, result) ↦ rw result r
      | inr (bytes, (e, result)) ↦ rw result (push_all-IsRing bytes r)
    ]
Step-IsRing less (writes write cb bounded) r = elim (pop_front_to_fd_lem r.valid write bounded) [
  | inl (e, (result, same)) ↦ rw same r
  | inr (n, (e, (result, h))) ↦ record {
    valid = h.valid;
    same_capacity = h.same_capacity ∙ r.same_capacity;
  }
]

Reach-IsRing :
    {cap : ℕ} {start cb : CircularBuffer}
    → cap < 2 ^ 63
    → IsRing cap start
    → Reach start cb
    → IsRing cap cb
Reach-IsRing less r here = r
Reach-IsRing less r (next before step) = Step-IsRing less step (Reach-IsRing less r before)

-- Let init be called with a power of two below 2^63 as the capacity and an array at least that
-- long. After any sequence of calls of push_back, push_front, pop_front, pop_back, clear,
-- push_back_from_fd and pop_front_to_fd, whether they return or throw, where read gives and write
-- takes no more bytes than asked, the buffer is valid, its indices inside its storage, and has
-- that capacity.
pub init-Reach-IsRing :
    (cap : ℕ) (buffer : List ℕ) (uninitialized : CircularBuffer) {cb : CircularBuffer}
    → cap < 2 ^ 63
    → IsPow2 cap
    → cap ≤ length buffer
    → Reach (init cap buffer uninitialized).1 cb
    → IsRing cap cb
init-Reach-IsRing cap buffer uninitialized less pow fits reached =
    let (returns, h) = init-HoldsAt cap buffer uninitialized (omega arith) pow fits in
    Reach-IsRing less (record { valid = h.holds.valid; same_capacity = h.holds.same_capacity })
      reached
