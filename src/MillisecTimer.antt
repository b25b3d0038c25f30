-- ===== src/MillisecTimer.antt =====
-- millisec_timer.c: a timer on a 32-bit count of milliseconds that wraps around.
-- The set-up of the ARM and AVR hardware is left out.
pub mod Elapsed
pub mod Drift
use ascii_serial_com_c.Prelude.{
  ℕ, ◌+◌, ◌-◌, Bool, true, false, ltb, leb, ◌==◌, ◌&&◌, ◌||◌, if◌then◌else◌, u32, sub_u32,
}

pub record MillisecTimer : Type 0 where
  pub enabled : Bool
  pub set_time : ℕ
  pub expire_time : ℕ

unfoldable pub set_rel : ℕ → ℕ → MillisecTimer → MillisecTimer
set_rel now rel timer = record timer {
  enabled = true;
  set_time = now;
  expire_time = u32 (now + rel);
}

-- The last two disjuncts of the condition: no wrap between the two times, or one.
unfoldable pub is_outside : ℕ → MillisecTimer → Bool
is_outside now timer =
    (ltb timer.set_time timer.expire_time && (leb timer.expire_time now || ltb now timer.set_time))
    || (ltb timer.expire_time timer.set_time && leb timer.expire_time now && ltb now timer.set_time)

unfoldable pub is_expired : ℕ → MillisecTimer → Bool × MillisecTimer
unfolding is_outside
is_expired now timer =
    if timer.enabled
    then if (timer.expire_time == timer.set_time) || is_outside now timer
      then (true, record timer { enabled = false })
      else (false, timer)
    else (false, timer)

unfoldable pub is_expired_repeat : ℕ → MillisecTimer → Bool × MillisecTimer
unfolding is_outside
is_expired_repeat now timer =
    if timer.enabled
    then if timer.expire_time == timer.set_time
      then (true, timer)
      else if is_outside now timer
      then (
        true,
        record timer {
          set_time = timer.expire_time;
          expire_time = u32 (timer.expire_time + sub_u32 timer.expire_time timer.set_time);
        },
      )
      else (false, timer)
    else (false, timer)
