-- ===== src/Prelude/Check.antt =====
-- A law of small numbers, checked at every one of them.
use Prim.Native.Nat.{ℕ, zero, suc, ◌<◌}
use mathlib.Core.Path.{◌≡◌}
use mathlib.Core.Bool.{Bool, true, ◌&&◌}
use native.Mathlib.Omega.{arith}

module _ (p : ℕ → Bool) where
  -- `p` holds of the numbers below.
  unfoldable pub all_below : ℕ → Bool
  all_below zero = true
  all_below (suc n) = p n && all_below n

  pub at_each : (n : ℕ) → all_below n ≡ true → (x : ℕ) → x < n → p x ≡ true
  unfolding all_below
  at_each zero checked x lt = elim lt [ ]
  at_each (suc n) checked x lt = ground (arith, at_each n (ground arith) x)
