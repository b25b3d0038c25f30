-- ===== src/CircularBuffer/Init.antt =====
-- circular_buffer_init_uint8 accepts the powers of two, and gives an empty ring.
use ascii_serial_com_c.Prelude.{
  ℕ, zero, suc, ◌+◌, ◌^◌, ◌≤◌, ◌<◌, ◌≡◌, ◌↔◌, refl, ◌∙◌, true, List, [], length, set, length-set,
  ok, throw, cb_bad_capacity, arith, Bool-cases, inl, inr, ◌⊎◌,
}
use native.Mathlib.Nat.{one-le-pow, pow-le-pow_right}
use ascii_serial_com_c.Bits.{IsPow2, bit_and_neg-IsPow2, bit_and_neg_pow}
use ascii_serial_com_c.CircularBuffer.{CircularBuffer, is_power_of_two, fill_loop, init}
use ascii_serial_com_c.CircularBuffer.Pushes.{HoldsAt}

-- Below 2^64 the test isPowerOfTwo holds exactly for the powers of two.
pub is_power_of_two_iff : (x : ℕ) → x < 2 ^ 64 → (is_power_of_two x ≡ true) ↔ IsPow2 x
unfolding is_power_of_two
is_power_of_two_iff x h = (
  (λ e. bit_and_neg-IsPow2 64 x (ground arith) h (ground arith)),
  (λ (k, e). ground (arith, bit_and_neg_pow 64 k, one-le-pow k 2)),
)

length-fill_loop : (left i : ℕ) (buffer : List ℕ) → length (fill_loop left i buffer) ≡ length buffer
unfolding fill_loop
length-fill_loop zero i buffer = refl
length-fill_loop (suc left) i buffer =
    length-fill_loop left (i + 1) (set buffer i 0x40) ∙ length-set buffer i 0x40

order_cases : (a b : ℕ) → (a ≤ b) ⊎ (b < a)
order_cases a b = ground arith

pow_bound : (cap : ℕ) → cap < 2 ^ 64 → IsPow2 cap → cap ≤ 2 ^ 63
pow_bound cap lt (k, e) = elim (order_cases k 63) [
  | inl small ↦ omega (arith, pow-le-pow_right {n = 2} (omega arith) {i = k} {j = 63} small)
  | inr large ↦
      absurd (omega (arith, pow-le-pow_right {n = 2} (omega arith) {i = 64} {j = k} (omega arith)))
]

module _ (cap : ℕ) (buffer : List ℕ) (cb : CircularBuffer) where
  -- For a capacity below 2^64 that is a power of two, and an array at least that long, init
  -- returns normally and leaves a valid empty buffer of that capacity that starts at index 0.
  pub init-HoldsAt :
      cap < 2 ^ 64
      → IsPow2 cap
      → cap ≤ length buffer
      → let (result, cb') = init cap buffer cb in (result ≡ ok tt) × HoldsAt cap 0 [] cb'
  unfolding init
  init-HoldsAt lt pow fits =
      let accepted = is_power_of_two_iff cap lt in
      rw (accepted.1 pow) (
        refl,
        record {
          holds = record {
            valid = record {
              pow = pow;
              shape = record {
                small = pow_bound cap lt pow;
                positive = positive pow;
                storage = omega (arith, length-fill_loop cap 0 buffer);
                start_in = positive pow;
                size_in = omega arith;
                stop_at = ground (arith, positive pow);
              };
            };
            held = refl;
            same_capacity = refl;
          };
          same_start = refl;
        },
      )
    where
      positive : IsPow2 cap → 0 < cap
      positive (k, e) = omega (arith, one-le-pow k 2)

  -- For a capacity below 2^64 that is not a power of two, init throws ASC_ERROR_CB_BAD_CAPACITY
  -- and writes nothing.
  pub init_bad : cap < 2 ^ 64 → ¬ IsPow2 cap → init cap buffer cb ≡ (throw cb_bad_capacity, cb)
  unfolding init
  init_bad lt none = elim (Bool-cases (is_power_of_two cap)) [
    | inl good ↦ absurd (none ((is_power_of_two_iff cap lt).0 good))
    | inr bad ↦ rw bad refl
  ]
