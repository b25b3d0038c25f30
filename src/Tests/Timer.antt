-- ===== src/Tests/Timer.antt =====
-- Witnesses for the timer.
use ascii_serial_com_c.Prelude.{◌≡◌, arith, true, false, [], ◌∷◌}
use ascii_serial_com_c.MillisecTimer.{MillisecTimer, set_rel, is_expired, is_expired_repeat}
use ascii_serial_com_c.MillisecTimer.Elapsed.{
  IsTimer, is_expired_lem, is_expired_repeat_lem, is_expired-set_rel,
}
use ascii_serial_com_c.MillisecTimer.Drift.{poll, Advanced, poll-Advanced}

-- An interval of 20 ms over the wrap-around.
abbrev timer : MillisecTimer
timer = record { enabled = true; set_time = 4294967290; expire_time = 14 }

timer-IsTimer : IsTimer timer
timer-IsTimer = record { set_lt = omega arith; expire_lt = omega arith }

is_expired_lem_example : is_expired 13 timer ≡ (false, timer)
is_expired_lem_example = is_expired_lem 13 timer timer-IsTimer (omega arith)

is_expired_repeat_lem_example :
    is_expired_repeat 15 timer ≡ (true, record timer { set_time = 14; expire_time = 34 })
is_expired_repeat_lem_example = is_expired_repeat_lem 15 timer timer-IsTimer (omega arith)

is_expired-set_rel_example : (is_expired 14 (set_rel 4294967290 20 timer)).0 ≡ true
is_expired-set_rel_example =
    is_expired-set_rel 4294967290 20 14 timer (omega arith) (omega arith) (omega arith)

poll-Advanced_example :
    let (fired, timer') = poll (13 ∷ 15 ∷ 30 ∷ 40 ∷ []) timer in Advanced fired timer timer'
poll-Advanced_example =
    poll-Advanced (13 ∷ 15 ∷ 30 ∷ 40 ∷ []) timer
      (omega arith, (omega arith, (omega arith, (omega arith, tt)))) timer-IsTimer
