-- ===== src/Box/Time/Tests.antt =====
-- Limits near the infinite time, and the theorem at one.
use serverbox.Prelude.{◌+◌, ◌-◌, min, ◌≡◌, refl, some, arith}
use serverbox.Box.Time.{infinite_time, point_from_now, limit_to_duration, point_from_now-min, point}

saturated : point_from_now 100 (infinite_time - 50) ≡ infinite_time
unfolding point_from_now
saturated = refl

past_point : limit_to_duration 100 (point 40) ≡ some 0
unfolding limit_to_duration
past_point = refl

point_from_now-min_example :
    point_from_now 100 18446744073709551600 ≡ min (18446744073709551600 + 100) infinite_time
point_from_now-min_example = point_from_now-min 100 18446744073709551600 (omega arith)
