-- ===== src/MillisecTimer/Drift.antt =====
-- A repeating timer does not drift, however late it is polled.
use ascii_serial_com_c.Prelude.{
  ℕ, ◌+◌, ◌*◌, ◌<◌, ◌≡◌, refl, ◌∙◌, ap₂, List, [], ◌∷◌, if◌then◌else◌, u32, arith, Bool-cases, inl,
  inr,
}
use ascii_serial_com_c.MillisecTimer.{MillisecTimer, is_expired_repeat}
use ascii_serial_com_c.MillisecTimer.Elapsed.{
  IsTimer, interval, due, repeated, is_expired_repeat_lem,
}

-- The timer after a sequence of polls, and how many of them found it expired.
pub poll : List ℕ → MillisecTimer → ℕ × MillisecTimer
poll [] timer = (0, timer)
poll (now ∷ times) timer =
    let (fired, timer') = is_expired_repeat now timer in
    let (n, timer'') = poll times timer' in ((if fired then 1 + n else n), timer'')

abbrev pub AreTimes : List ℕ → Type 0
AreTimes [] = Unit
AreTimes (now ∷ times) = (now < 4294967296) × AreTimes times

-- The interval and what it stands on after `n` expirations.
pub record Advanced (n : ℕ) (timer timer' : MillisecTimer) : Type 0 where
  pub timer_ok : IsTimer timer'
  pub same_interval : interval timer' ≡ interval timer
  pub no_drift : timer'.set_time ≡ u32 (timer.set_time + n * interval timer)

Advanced-none : {timer : MillisecTimer} → IsTimer timer → Advanced 0 timer timer
Advanced-none t = record { timer_ok = t; same_interval = refl; no_drift = omega (arith, t.set_lt) }

Advanced-one : {timer : MillisecTimer} → IsTimer timer → Advanced 1 timer (repeated timer)
Advanced-one t = record {
  timer_ok = record { set_lt = t.expire_lt; expire_lt = omega arith };
  same_interval = omega (arith, t.set_lt, t.expire_lt);
  no_drift = omega (arith, t.set_lt, t.expire_lt);
}

steps_add : (s i m n : ℕ) → u32 (u32 (s + m * i) + n * i) ≡ u32 (s + (m + n) * i)
steps_add s i m n = grind arith

Advanced-then :
    {m n : ℕ} {timer timer' timer'' : MillisecTimer}
    → Advanced m timer timer'
    → Advanced n timer' timer''
    → Advanced (m + n) timer timer''
Advanced-then {m} {n} {timer} {timer'} f g = record {
  timer_ok = g.timer_ok;
  same_interval = g.same_interval ∙ f.same_interval;
  no_drift =
      g.no_drift
      ∙ ap₂ (λ s i. u32 (s + n * i)) f.no_drift f.same_interval
      ∙ steps_add timer.set_time (interval timer) m n;
}

-- After any sequence of polls of a repeating timer at 32-bit times, its interval is the one it
-- had, and its set_time is the first set_time plus that interval times the number of polls that
-- found it expired, modulo 2^32.
pub poll-Advanced :
    (times : List ℕ) (timer : MillisecTimer)
    → AreTimes times
    → IsTimer timer
    → let (fired, timer') = poll times timer in Advanced fired timer timer'
unfolding poll
poll-Advanced [] timer h t = Advanced-none t
poll-Advanced (now ∷ times) timer h t = elim (Bool-cases (due now timer)) [
  | inl on ↦
      rw (is_expired_repeat_lem now timer t h.0, on)
        (Advanced-then (Advanced-one t)
          (poll-Advanced times (repeated timer) h.1 (Advanced-one t).timer_ok))
  | inr off ↦ rw (is_expired_repeat_lem now timer t h.0, off) (poll-Advanced times timer h.1 t)
]
