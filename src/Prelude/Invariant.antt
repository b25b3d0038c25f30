-- ===== src/Prelude/Invariant.antt =====
-- Invariants of computations: what holds of the state before holds of it after, however they end.
use mathlib.Core.Bool.{Bool, true, false}
use ascii_serial_com_c.Prelude.Exception.{Outcome, ok, throw, fault, M, continue, when}
use ascii_serial_com_c.Prelude.Tests.{if◌then◌else◌}

pub continue_invariant :
    {S A B : Type 0} (P : S → Type 0) (r : Outcome A × S) (g : A → M S B)
    → P r.1
    → ((a : A) (s : S) → P s → P (g a s).1)
    → P (continue r g).1
continue_invariant P (ok a, s) g h k = k a s h
continue_invariant P (throw e, s) g h k = h
continue_invariant P (fault, s) g h k = h

pub if_invariant :
    {S A : Type 0} (P : S → Type 0) (b : Bool) (m n : M S A) (s : S)
    → P (m s).1
    → P (n s).1
    → P ((if b then m else n) s).1
if_invariant P true m n s h k = h
if_invariant P false m n s h k = k

pub when_invariant :
    {S : Type 0} (P : S → Type 0) (b : Bool) (m : M S (Unit {0})) (s : S)
    → P s
    → P (m s).1
    → P (when b m s).1
when_invariant P true m s h k = k
when_invariant P false m s h k = h

pub either : {A : Type 0} (P : A → Type 0) (b : Bool) {x y : A} → P x → P y → P (if b then x else y)
either P true h k = h
either P false h k = k
