-- ===== src/Tests/Ring.antt =====
-- Witnesses for the ring.
use ascii_serial_com_c.Prelude.{
  ℕ, ◌≡◌, ◌↔◌, arith, refl, ok, throw, Outcome, replicate, [], ◌∷◌, true, cb_bad_capacity,
}
use native.Mathlib.Nat.{one-le-pow}
use ascii_serial_com_c.Bits.{IsPow2}
use ascii_serial_com_c.CircularBuffer.{
  CircularBuffer, push_back, push_front, pop_front, pop_back, get_element, init, is_power_of_two,
}
use ascii_serial_com_c.CircularBuffer.Deque
use ascii_serial_com_c.CircularBuffer.Deque.{Deque}
use ascii_serial_com_c.CircularBuffer.Search.{find_first, find_last, count}
use ascii_serial_com_c.CircularBuffer.Search.Found.{searches_lem}
use ascii_serial_com_c.CircularBuffer.Frames.{CharSign, remove_front_unfinished_frames}
use ascii_serial_com_c.CircularBuffer.Frames.Resync.{resync}
use ascii_serial_com_c.CircularBuffer.Frames.Total.{Shortened, remove_front-Shortened}
use ascii_serial_com_c.CircularBuffer.Init.{is_power_of_two_iff, init-HoldsAt, init_bad}
use ascii_serial_com_c.CircularBuffer.Becomes.{Holds, Becomes}
use ascii_serial_com_c.CircularBuffer.Pushes.{HoldsAt, push_all, push_all-HoldsAt}
use ascii_serial_com_c.CircularBuffer.Reach.{pushes_back, here, next, IsRing, init-Reach-IsRing}
use ascii_serial_com_c.CircularBuffer.Refine.{
  contents, push_back_refines, push_front_refines, pop_front_refines, pop_back_refines,
  get_element_refines,
}
use ascii_serial_com_c.Tests.{ring_at, ring_at-HoldsAt, wrapped, wrapped-IsValid}

push_back_refines_example : contents (push_back 9 wrapped) ≡ 1 ∷ 2 ∷ 3 ∷ 9 ∷ []
unfolding Deque.push_back
push_back_refines_example = push_back_refines wrapped-IsValid 9

push_front_refines_example : contents (push_front 9 wrapped) ≡ 9 ∷ 1 ∷ 2 ∷ 3 ∷ []
unfolding Deque.push_front
push_front_refines_example = push_front_refines wrapped-IsValid 9

pop_front_refines_example :
    let (r, cb') = pop_front wrapped in
    ◌≡◌ {A = Outcome ℕ × Deque} (r, contents cb') (ok 1, 2 ∷ 3 ∷ [])
unfolding Deque.pop_front
pop_front_refines_example = pop_front_refines wrapped-IsValid

pop_back_refines_example :
    let (r, cb') = pop_back wrapped in
    ◌≡◌ {A = Outcome ℕ × Deque} (r, contents cb') (ok 3, 1 ∷ 2 ∷ [])
unfolding Deque.pop_back
pop_back_refines_example = pop_back_refines wrapped-IsValid

get_element_refines_example : get_element 2 wrapped ≡ (ok 3, wrapped)
unfolding Deque.get_element
get_element_refines_example = get_element_refines 2 wrapped-IsValid

searches_lem_example :
    (find_first 2 wrapped ≡ (ok 1, wrapped))
    × (find_last 2 wrapped ≡ (ok 1, wrapped))
    × (count 2 wrapped ≡ (ok 1, wrapped))
searches_lem_example = searches_lem wrapped-IsValid 2

is_power_of_two_iff_example : (is_power_of_two 64 ≡ true) ↔ IsPow2 64
is_power_of_two_iff_example = is_power_of_two_iff 64 (omega arith)

init-HoldsAt_example :
    let (result, cb') = init 8 (replicate 8 0) wrapped in (result ≡ ok tt) × HoldsAt 8 0 [] cb'
init-HoldsAt_example = init-HoldsAt 8 (replicate 8 0) wrapped (omega arith) (3, refl) (omega arith)

zero-not_pow : ¬ IsPow2 0
zero-not_pow (k, e) = omega (arith, one-le-pow k 2)

init_bad_example : init 0 [] wrapped ≡ (throw cb_bad_capacity, wrapped)
init_bad_example = init_bad 0 [] wrapped (omega arith) zero-not_pow

-- Two bytes of an unfinished frame, and a frame.
abbrev noisy : CircularBuffer
noisy = push_all (b'>' ∷ 5 ∷ b'>' ∷ 6 ∷ 10 ∷ 7 ∷ []) (ring_at 60)

noisy-Holds : Holds 64 (b'>' ∷ 5 ∷ b'>' ∷ 6 ∷ 10 ∷ 7 ∷ []) noisy
noisy-Holds =
    (push_all-HoldsAt (b'>' ∷ 5 ∷ b'>' ∷ 6 ∷ 10 ∷ 7 ∷ []) (ring_at-HoldsAt 60 (omega arith))
      (omega arith)).holds

resync_example :
    Becomes 64
      (remove_front_unfinished_frames CharSign.unsigned b'>' 10 noisy)
      2
      (b'>' ∷ 6 ∷ 10 ∷ 7 ∷ [])
resync_example =
    resync (b'>' ∷ 5 ∷ []) b'>' (6 ∷ []) 10 (7 ∷ []) {cap = 64} {cb = noisy} CharSign.unsigned
      (omega arith) noisy-Holds (omega arith, (omega arith, tt)) (omega arith) (omega arith, tt)
      (omega arith, tt)

remove_front-Shortened_example :
    Shortened 64
      (b'>' ∷ 5 ∷ b'>' ∷ 6 ∷ 10 ∷ 7 ∷ [])
      (remove_front_unfinished_frames CharSign.unsigned b'>' 7 noisy)
remove_front-Shortened_example = remove_front-Shortened CharSign.unsigned b'>' 7 noisy-Holds

-- A ring of one byte, after the second byte is pushed onto the first.
init-Reach-IsRing_example :
    let ring = (init 1 (0 ∷ []) wrapped).1 in IsRing 1 (push_back 6 (push_back 5 ring))
init-Reach-IsRing_example =
    let ring = (init 1 (0 ∷ []) wrapped).1 in
    init-Reach-IsRing 1 (0 ∷ []) wrapped (omega arith) (0, refl) (omega arith)
      (next (next here (pushes_back 5 ring)) (pushes_back 6 (push_back 5 ring)))
