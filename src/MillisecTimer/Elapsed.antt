-- ===== src/MillisecTimer/Elapsed.antt =====
-- The tests of the timer against the time elapsed since it was set.
use ascii_serial_com_c.Prelude.{
  ℕ, ◌+◌, ◌-◌, ◌≤◌, ◌<◌, ◌≡◌, refl, ◌∙◌, sym, ap, ap₂, Bool, true, false, not, ltb, leb, ◌==◌, ◌&&◌,
  ◌||◌, if◌then◌else◌, u32, sub_u32, arith, ◌⊎◌, inl, inr,
}
use ascii_serial_com_c.MillisecTimer.{
  MillisecTimer, set_rel, is_outside, is_expired, is_expired_repeat,
}

-- The two times are 32-bit numbers.
pub record IsTimer (timer : MillisecTimer) : Type 0 where
  pub set_lt : timer.set_time < 4294967296
  pub expire_lt : timer.expire_time < 4294967296

-- The time from `start` to `now` on a clock that wraps around.
abbrev pub elapsed : ℕ → ℕ → ℕ
elapsed start now = sub_u32 now start

-- The interval a timer waits.
abbrev pub interval : MillisecTimer → ℕ
interval timer = elapsed timer.set_time timer.expire_time

-- The elapsed time without a remainder.
elapsed_after : (start now : ℕ) → start ≤ now → now < 4294967296 → elapsed start now ≡ now - start
elapsed_after start now le lt = omega arith

elapsed_wrapped :
    (start now : ℕ)
    → now < start
    → start < 4294967296
    → elapsed start now ≡ now + (4294967296 - start)
elapsed_wrapped start now lt b = omega arith

order_cases : (a b : ℕ) → (a ≤ b) ⊎ (b < a)
order_cases a b = ground arith

passed :
    (set_time expire_time now : ℕ)
    → set_time < 4294967296
    → expire_time < 4294967296
    → now < 4294967296
    → ((expire_time == set_time)
        || ((ltb set_time expire_time && (leb expire_time now || ltb now set_time))
            || (ltb expire_time set_time && leb expire_time now && ltb now set_time)))
      ≡ leb (elapsed set_time expire_time) (elapsed set_time now)
passed s e n ls le ln = elim (order_cases s e) [
  | inl a ↦ elim (order_cases s n) [
    | inl b ↦ rw (elapsed_after s e a le, elapsed_after s n b ln) (ground arith)
    | inr b ↦ rw (elapsed_after s e a le, elapsed_wrapped s n b ls) (ground arith)
  ]
  | inr a ↦ elim (order_cases s n) [
    | inl b ↦ rw (elapsed_wrapped s e a ls, elapsed_after s n b ln) (ground arith)
    | inr b ↦ rw (elapsed_wrapped s e a ls, elapsed_wrapped s n b ls) (ground arith)
  ]
]

abbrev with_enabled : ℕ → ℕ → Bool → MillisecTimer
with_enabled s x e = record { enabled = e; set_time = s; expire_time = x }

switched :
    (s x : ℕ) (e b : Bool)
    → ◌≡◌ {A = Bool × MillisecTimer}
        (if e
          then if b then (true, with_enabled s x false) else (false, with_enabled s x e)
          else (false, with_enabled s x e))
        (e && b, with_enabled s x (e && not (e && b)))
switched s x true true = refl
switched s x true false = refl
switched s x false b = refl

-- The timer for the next interval.
abbrev pub repeated : MillisecTimer → MillisecTimer
repeated timer = record timer {
  set_time = timer.expire_time;
  expire_time = u32 (timer.expire_time + interval timer);
}

rearmed :
    (e same out : Bool) (t r : MillisecTimer)
    → (same ≡ true → t ≡ r)
    → ◌≡◌ {A = Bool × MillisecTimer}
        (if e
          then if same then (true, t) else if out then (true, r) else (false, t)
          else (false, t))
        (if e && (same || out) then (true, r) else (false, t))
rearmed true true out t r h = ap (λ u. (true, u)) (h refl)
rearmed true false true t r h = refl
rearmed true false false t r h = refl
rearmed false same out t r h = refl

module _ (now : ℕ) (timer : MillisecTimer) where
  -- An enabled timer whose interval has elapsed.
  abbrev pub due : Bool
  due = timer.enabled && leb (interval timer) (elapsed timer.set_time now)

  passed_lem :
      IsTimer timer
      → now < 4294967296
      → ((timer.expire_time == timer.set_time) || is_outside now timer)
        ≡ leb (interval timer) (elapsed timer.set_time now)
  unfolding is_outside
  passed_lem t lt = passed timer.set_time timer.expire_time now t.set_lt t.expire_lt lt

  -- For 32-bit times, is_expired answers true exactly if the timer is enabled and the time elapsed
  -- since set_time, on a clock that wraps around, is at least the interval from set_time to
  -- expire_time; it then disables the timer, and changes nothing else in any case.
  pub is_expired_lem :
      IsTimer timer
      → now < 4294967296
      → is_expired now timer ≡ (due, record timer { enabled = timer.enabled && not due })
  unfolding is_expired
  is_expired_lem t lt = rw (passed_lem t lt) (
      switched timer.set_time timer.expire_time timer.enabled
        (leb (interval timer) (elapsed timer.set_time now)))

  -- For 32-bit times, is_expired_repeat answers true exactly if the timer is enabled and the time
  -- elapsed since set_time, on a clock that wraps around, is at least the interval from set_time
  -- to expire_time; then set_time becomes the old expire_time and expire_time that plus the
  -- interval, modulo 2^32; otherwise the timer is unchanged.
  pub is_expired_repeat_lem :
      IsTimer timer
      → now < 4294967296
      → is_expired_repeat now timer ≡ (if due then (true, repeated timer) else (false, timer))
  unfolding is_expired_repeat
  is_expired_repeat_lem t lt =
      rearmed timer.enabled (timer.expire_time == timer.set_time) (is_outside now timer) timer
        (repeated timer) (λ same. renewed (ground (arith, same)))
      ∙ ap (λ late. if timer.enabled && late then (true, repeated timer) else (false, timer))
          (passed_lem t lt)
    where
      renewed : timer.expire_time ≡ timer.set_time → timer ≡ repeated timer
      renewed equal =
          ap₂ (λ s x. with_enabled s x timer.enabled) (sym equal) (omega (arith, equal, t.set_lt))

-- A timer set at a 32-bit time to expire a given number of milliseconds later is found expired
-- exactly if at least so many have elapsed since, on a clock that wraps around.
pub is_expired-set_rel :
    (now rel later : ℕ) (timer : MillisecTimer)
    → now < 4294967296
    → rel < 4294967296
    → later < 4294967296
    → (is_expired later (set_rel now rel timer)).0 ≡ leb rel (elapsed now later)
unfolding set_rel
is_expired-set_rel now rel later timer ln lr ll =
    ap (λ p. p.0)
      (is_expired_lem later (set_rel now rel timer)
        (record { set_lt = ln; expire_lt = omega arith }) ll)
    ∙ ap (λ i. leb i (elapsed now later)) (omega (arith, ln, lr))
