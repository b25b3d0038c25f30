-- ===== src/Asc/Receive/Parts.antt =====
-- The pieces of the parser on a buffer that holds what they expect.
use mathlib.Core.Path.{subst}
use ascii_serial_com_c.Prelude.{
  ℕ, suc, ◌+◌, ◌≤◌, ◌<◌, ◌≡◌, refl, ◌∙◌, ap, true, false, List, [], ◌∷◌, ◌++◌, length, set,
  get_elem?, get_elem?-set, length-set, ltb, ◌==◌, Absent, Reads, Outcome, ok, arith,
}
use ascii_serial_com_c.CircularBuffer.{CircularBuffer, get_size}
use ascii_serial_com_c.CircularBuffer.Deque.{Deque}
use ascii_serial_com_c.CircularBuffer.Becomes.{
  Holds, Becomes, size-Holds, pop_front-Becomes, get_element-Holds,
}
use ascii_serial_com_c.Asc.{Asc}
use ascii_serial_com_c.Asc.Frame.{hex4}
use ascii_serial_com_c.Asc.Receive.{
  Message, Receiver, payload_loop, pop_chars, same_chars, end_misplaced,
}

-- A receiver by its parts.
abbrev pub receiver : Asc → CircularBuffer → Message → Receiver
receiver asc cb m = record { asc = record asc { in_buf = cb }; message = m }

-- What the loop stores.
unfoldable pub fill : List ℕ → ℕ → List ℕ → List ℕ
fill bytes i [] = bytes
fill bytes i (x ∷ xs) = fill (set bytes i x) (i + 1) xs

pub length-fill : (xs bytes : List ℕ) (i : ℕ) → length (fill bytes i xs) ≡ length bytes
unfolding fill
length-fill [] bytes i = refl
length-fill (x ∷ xs) bytes i = length-fill xs (set bytes i x) (i + 1) ∙ length-set bytes i x

pub fill_below :
    (xs bytes : List ℕ) (i j : ℕ)
    → i + length xs ≤ length bytes
    → j < i
    → get_elem? (fill bytes i xs) j ≡ get_elem? bytes j
unfolding fill
fill_below [] bytes i j h lt = refl
fill_below (x ∷ xs) bytes i j h lt =
    fill_below xs (set bytes i x) (i + 1) j (omega (arith, length-set bytes i x)) (omega arith)
    ∙ ground (arith, get_elem?-set bytes i j x)

pub fill-Reads :
    (xs bytes : List ℕ) (i : ℕ) → i + length xs ≤ length bytes → Reads (fill bytes i xs) i xs
unfolding fill
fill-Reads [] bytes i h = tt
fill-Reads (x ∷ xs) bytes i h = (
  fill_below xs (set bytes i x) (i + 1) i (omega (arith, length-set bytes i x)) (omega arith)
      ∙ ground (arith, get_elem?-set bytes i i x),
  subst (λ k. Reads (fill (set bytes i x) (i + 1) xs) k xs) next
      (fill-Reads xs (set bytes i x) (i + 1) (omega (arith, length-set bytes i x))),
)
  where
    next : i + 1 ≡ suc i
    next = omega arith

-- The result of the payload loop: a payload without a period is copied to the caller's array.
pub record Copied (cap : ℕ) (asc : Asc) (m : Message) (i : ℕ) (payload q : Deque)
    (result : Outcome (Unit {0}) × Receiver) : Type 0 where
  pub after : CircularBuffer
  pub returns : result ≡ (
    ok tt,
    receiver asc after
        (record m { bytes = fill m.bytes i payload; data_len = m.data_len + length payload }),
  )
  pub holds : Holds cap q after

pub payload_loop-Copied :
    {cap : ℕ} (payload q : Deque) (asc : Asc) (cb : CircularBuffer) (m : Message) (i : ℕ)
    → Holds cap (payload ++ q) cb
    → Absent b'.' payload
    → i + length payload ≤ length m.bytes
    → Copied cap asc m i payload q (payload_loop (length payload) i (receiver asc cb m))
unfolding payload_loop fill
payload_loop-Copied [] q asc cb m i h a fits = record {
  after = cb;
  returns = ap (λ n. (ok tt, receiver asc cb (record m { data_len = n }))) (omega arith);
  holds = h;
}
payload_loop-Copied (x ∷ payload) q asc cb m i h a fits =
    let popped = pop_front-Becomes h in
    let m' : Message = record m { bytes = set m.bytes i x; data_len = m.data_len + 1 } in
    let rest =
      payload_loop-Copied payload q asc popped.after m' (i + 1) popped.holds a.1
        (omega (arith, length-set m.bytes i x)) in
    let other : (x == b'.') ≡ false = ground (arith, a.0) in
    let inside : ltb i (length m.bytes) ≡ true = ground arith in
    record {
      after = rest.after;
      returns =
          rw (popped.returns, other, inside)
            (rest.returns
              ∙ ap
                  (λ n. (
                    ok tt,
                    receiver asc rest.after
                        (record m { bytes = fill (set m.bytes i x) (i + 1) payload; data_len = n }),
                  ))
                  (omega arith));
      holds = rest.holds;
    }

pub end_misplaced-false :
    {cap : ℕ} {cb : CircularBuffer} (w x y z : ℕ) (q : Deque)
    → Holds cap (w ∷ x ∷ y ∷ z ∷ 0x0a ∷ q) cb
    → end_misplaced cb ≡ (ok false, cb)
unfolding end_misplaced get_size
end_misplaced-false {cb = cb} w x y z q h =
    ground (arith, size-Holds h, get_element-Holds 4 (w ∷ x ∷ y ∷ z ∷ 0x0a ∷ q) h (omega arith))

pub pop_chars-Becomes :
    {cap : ℕ} (p q : Deque) {cb : CircularBuffer}
    → Holds cap (p ++ q) cb
    → Becomes cap (pop_chars (length p) cb) p q
unfolding pop_chars
pop_chars-Becomes [] q {cb} h = record { after = cb; returns = refl; holds = h }
pop_chars-Becomes (x ∷ p) q {cb} h =
    let first = pop_front-Becomes h in
    let rest = pop_chars-Becomes p q first.holds in
    record { after = rest.after; returns = rw (first.returns, rest.returns); holds = rest.holds }

pub same_chars_refl : (p : List ℕ) → same_chars p p ≡ true
same_chars_refl [] = refl
same_chars_refl (x ∷ p) = ground (arith, same_chars_refl p)

-- The four digits and the line feed at the front of the buffer.
module _ {cap : ℕ} (n : ℕ) (q : Deque) {cb : CircularBuffer} where
  pub hex4_misplaced-false : Holds cap (hex4 n ++ (0x0a ∷ q)) cb → end_misplaced cb ≡ (ok false, cb)
  unfolding hex4
  hex4_misplaced-false h = end_misplaced-false _ _ _ _ q h

  pub pop_hex4-Becomes :
      Holds cap (hex4 n ++ (0x0a ∷ q)) cb → Becomes cap (pop_chars 4 cb) (hex4 n) (0x0a ∷ q)
  unfolding hex4
  pop_hex4-Becomes h = pop_chars-Becomes (hex4 n) (0x0a ∷ q) h
