-- ===== src/Prelude/Parts.antt =====
-- A byte that does not occur in a list, and reads in a list put together from parts.
use Prim.Native.Nat.{ℕ, zero, suc, ◌+◌, ◌<◌}
use mathlib.Core.Path.{◌≡◌, refl, ◌∙◌, ap}
use mathlib.Core.Logic.{◌≢◌}
use mathlib.Core.List.{List, [], ◌∷◌, ◌++◌}
use mathlib.Core.Option.{some}
use native.Mathlib.Omega.{arith}
use ascii_serial_com_c.Prelude.Lists.{length, get_or, get_elem?}

abbrev pub Absent : ℕ → List ℕ → Type 0
Absent x [] = Unit
Absent x (y ∷ q) = (y ≢ x) × Absent x q

pub Absent-append : (x : ℕ) (p q : List ℕ) → Absent x p → Absent x q → Absent x (p ++ q)
Absent-append x [] q hp hq = hq
Absent-append x (y ∷ p) q hp hq = (hp.0, Absent-append x p q hp.1 hq)

pub get_or-Absent : (x : ℕ) (q : List ℕ) (k d : ℕ) → Absent x q → k < length q → get_or q k d ≢ x
get_or-Absent x [] k d h lt = elim lt [ ]
get_or-Absent x (y ∷ q) zero d h lt = h.0
get_or-Absent x (y ∷ q) (suc k) d h lt = get_or-Absent x q k d h.1 (omega arith)

pub get_or-append_left :
    (p q : List ℕ) (k d : ℕ) → k < length p → get_or (p ++ q) k d ≡ get_or p k d
get_or-append_left [] q k d h = elim h [ ]
get_or-append_left (x ∷ p) q zero d h = refl
get_or-append_left (x ∷ p) q (suc k) d h = get_or-append_left p q k d (omega arith)

pub get_or-append_right : (p q : List ℕ) (k d : ℕ) → get_or (p ++ q) (length p + k) d ≡ get_or q k d
get_or-append_right [] q k d = ap (λ i. get_or q i d) (omega arith)
get_or-append_right (x ∷ p) q k d =
    ap (λ i. get_or (x ∷ (p ++ q)) i d) step ∙ get_or-append_right p q k d
  where
    step : suc (length p) + k ≡ suc (length p + k)
    step = omega arith

-- The array holds `xs` from index `i` on.
abbrev pub Reads : List ℕ → ℕ → List ℕ → Type 0
Reads array i [] = Unit
Reads array i (x ∷ xs) = (get_elem? array i ≡ some x) × Reads array (suc i) xs

Reads-cons :
    (y : ℕ) (array : List ℕ) (i : ℕ) (xs : List ℕ) → Reads array i xs → Reads (y ∷ array) (suc i) xs
Reads-cons y array i [] h = tt
Reads-cons y array i (x ∷ xs) h = (h.0, Reads-cons y array (suc i) xs h.1)

-- A list holds its own front.
pub Reads-append : (xs post : List ℕ) → Reads (xs ++ post) 0 xs
Reads-append [] post = tt
Reads-append (x ∷ xs) post = (refl, Reads-cons x (xs ++ post) 0 xs (Reads-append xs post))
