-- ===== src/Box/Time.antt =====
-- src/mg/box/Time.h: points in time, durations, and limits that are the one or the other, all in
-- milliseconds, as 64-bit numbers. `now` is what GetMilliseconds() answers.
mod Tests
use serverbox.Prelude.{
  ℕ, zero, suc, ◌+◌, ◌-◌, ◌≤◌, ◌<◌, min, ◌≡◌, refl, sym, ap, ◌∙◌, subst, ◌≢◌, ◌⊎◌, inl, inr, Bool,
  true, false, ◌&&◌, ◌||◌, not, Option, none, some, List, [], ◌∷◌, ◌++◌, arith, ltb, leb, ◌==◌,
  if◌then◌else◌, ltb→lt, lt→ltb, leb→le, tests, Bool-cases, Option-cases, ◌>>=◌, length, take, drop,
  replicate, length-append, length-take, length-drop, length-replicate, take-append-drop,
  take-append_short, take-append_long, drop-append_short, drop-append_long, drop-take, take_all,
  drop_all, take-take, take_add, append-nil, append_assoc,
}

-- MG_TIME_INFINITE, which is UINT64_MAX
abbrev pub infinite_time : ℕ
infinite_time = 18446744073709551615

-- TimeDuration(int64_t): a number that is not negative, or one that is
abbrev pub from_signed : ℕ ⊎ ℕ → ℕ
from_signed (inl n) = n
from_signed (inr below) = 0

pub data TimeLimit : Type 0 where
  no_limit : TimeLimit
  duration : ℕ → TimeLimit
  point : ℕ → TimeLimit

-- TimeDuration::ToPointFromNow()
pub point_from_now : ℕ → ℕ → ℕ
point_from_now now d = if leb (infinite_time - d) now then infinite_time else d + now

-- TimeLimit::ToPointFromNow()
pub limit_to_point : ℕ → TimeLimit → Option ℕ
limit_to_point now no_limit = none
limit_to_point now (duration d) = some (point_from_now now d)
limit_to_point now (point p) = some p

-- TimeLimit::ToDurationFromNow()
pub limit_to_duration : ℕ → TimeLimit → Option ℕ
limit_to_duration now no_limit = none
limit_to_duration now (duration d) = some d
limit_to_duration now (point p) =
    some (if p == infinite_time then infinite_time else if leb p now then 0 else p - now)

-- A duration from now ends at the sum, or at the infinite time if the sum is not below it: the
-- 64-bit sum never wraps around.
pub point_from_now-min :
    (now d : ℕ) → d ≤ infinite_time → point_from_now now d ≡ min (d + now) infinite_time
unfolding point_from_now
point_from_now-min now d h = elim (Bool-cases (leb (infinite_time - d) now)) [
  | inl y ↦ let le = leb→le (infinite_time - d) now y in rw y (omega (arith, le, h))
  | inr y ↦ let lt : now < infinite_time - d = ground (arith, y) in rw y (omega (arith, lt))
]

-- A duration that becomes a point, and then a duration again at the same time, is the same if the
-- point is not the infinite time.
pub limit_to_duration-point :
    (now d : ℕ)
    → d + now < infinite_time
    → limit_to_duration now (point (point_from_now now d)) ≡ some d
unfolding limit_to_duration
limit_to_duration-point now d h =
    let sum : point_from_now now d ≡ d + now =
      point_from_now-min now d (omega (arith, h)) ∙ omega (arith, h) in
    let finite : (d + now == infinite_time) ≡ false = ground (arith, h) in
    rw (sum, finite) (ap some (left_of d now))
  where
    left_of : (d now : ℕ) → (if leb (d + now) now then 0 else d + now - now) ≡ d
    left_of d now = ground arith
