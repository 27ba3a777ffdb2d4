-- ===== src/Timing/Tests.antt =====
-- Timers at concrete time spans (server/shared/Utilities/Timer.h).
use landlord.Prelude.{◌≡◌, refl, true, false}
use landlord.Timing.{get_ms_time_diff, t_update, t_passed, t_reset, update_small, small_passed}

-- Ten milliseconds across the overflow are counted as nine.
overflow_run : get_ms_time_diff 4294967290 4 ≡ 9
unfolding get_ms_time_diff
overflow_run = refl

t_run : t_passed (t_reset 10 50 (t_update 30 (record { period = 0; expire_time = 20 }))) ≡ false
unfolding t_passed t_reset t_update
t_run = refl

small_run : small_passed (update_small 30 20) ≡ true
unfolding small_passed update_small
small_run = refl
