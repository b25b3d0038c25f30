-- ===== src/Prelude/Decimal.antt =====
-- What printf writes for %u.
use Prim.Native.Nat.{ℕ, zero, suc, ◌+◌, ◌/◌, ◌%◌}
use mathlib.Core.List.{List, [], ◌∷◌}
use ascii_serial_com_c.Prelude.Tests.{ltb, if◌then◌else◌}

-- The digits in front of `after`; the number itself is enough fuel.
unfoldable pub decimal_loop : ℕ → ℕ → List ℕ → List ℕ
decimal_loop zero n after = (b'0' + n % 10) ∷ after
decimal_loop (suc fuel) n after =
    let rest = decimal_loop fuel (n / 10) ((b'0' + n % 10) ∷ after) in
    if ltb n 10 then (b'0' + n % 10) ∷ after else rest

unfoldable pub decimal : ℕ → List ℕ
unfolding decimal_loop
decimal n = decimal_loop n n []
