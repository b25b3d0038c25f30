-- ===== src/CircularBuffer/Deque.antt =====
-- What circular_buffer.h promises: a sequence of at most `cap` bytes, front first. A push onto a
-- full buffer drops the byte at the other end.
use ascii_serial_com_c.Prelude.{
  ℕ, ◌+◌, List, [], ◌∷◌, ◌++◌, ◌==◌, if◌then◌else◌, length, take, drop, Outcome, ok, throw,
  cb_pop_empty, cb_oob, get_elem?, none, some, Bool, ◌≡◌, refl, arith, Absent, length-append,
}

abbrev pub Deque : Type 0
Deque = List ℕ

unfoldable pub push_back : ℕ → ℕ → Deque → Deque
push_back cap x q = let q' = q ++ (x ∷ []) in if length q == cap then drop 1 q' else q'

unfoldable pub push_front : ℕ → ℕ → Deque → Deque
push_front cap x q = take cap (x ∷ q)

unfoldable pub pop_front : Deque → Outcome ℕ × Deque
pop_front [] = (throw cb_pop_empty, [])
pop_front (x ∷ q) = (ok x, q)

-- The last byte, and those before it.
abbrev pub last_of : ℕ → Deque → ℕ
last_of x [] = x
last_of x (y ∷ q) = last_of y q

abbrev pub but_last : ℕ → Deque → Deque
but_last x [] = []
but_last x (y ∷ q) = x ∷ but_last y q

unfoldable pub pop_back : Deque → Outcome ℕ × Deque
pop_back [] = (throw cb_pop_empty, [])
pop_back (x ∷ q) = (ok (last_of x q), but_last x q)

unfoldable pub get_element : ℕ → Deque → Outcome ℕ
get_element i q = elim (get_elem? q i) [ none ↦ throw cb_oob | some x ↦ ok x ]

-- Searches on the sequence. A byte that does not occur is at the length.
abbrev pub find_first : ℕ → Deque → ℕ
find_first value [] = 0
find_first value (x ∷ q) = if x == value then 0 else find_first value q + 1

abbrev pub find_last : ℕ → Deque → ℕ
find_last value [] = 0
find_last value (x ∷ q) =
    let i = find_last value q in
    if i == length q then (if x == value then 0 else length q + 1) else i + 1

abbrev pub count : ℕ → Deque → ℕ
count value [] = 0
count value (x ∷ q) = (if x == value then 1 else 0) + count value q

-- What is left from the first occurrence on, or after it.
abbrev pub remove_front_to : ℕ → Bool → Deque → Deque
remove_front_to value inclusive [] = []
remove_front_to value inclusive (x ∷ q) =
    if x == value then (if inclusive then q else x ∷ q) else remove_front_to value inclusive q

-- Where a search stops when the part before it has no such byte.
pub find_first-append :
    (value : ℕ) (p q : Deque) → Absent value p → find_first value (p ++ (value ∷ q)) ≡ length p
find_first-append value [] q h = ground arith
find_first-append value (x ∷ p) q h = ground (arith, find_first-append value p q h.1)

pub find_first-Absent : (value : ℕ) (q : Deque) → Absent value q → find_first value q ≡ length q
find_first-Absent value [] h = refl
find_first-Absent value (x ∷ q) h = ground (arith, find_first-Absent value q h.1)

pub find_last-Absent : (value : ℕ) (q : Deque) → Absent value q → find_last value q ≡ length q
find_last-Absent value [] h = refl
find_last-Absent value (x ∷ q) h = ground (arith, find_last-Absent value q h.1)

pub find_last-append :
    (value : ℕ) (p q : Deque) → Absent value q → find_last value (p ++ (value ∷ q)) ≡ length p
find_last-append value [] q h = ground (arith, find_last-Absent value q h)
find_last-append value (x ∷ p) q h =
    ground (arith, find_last-append value p q h, length-append {0} p (value ∷ q))
