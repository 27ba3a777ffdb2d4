-- ===== src/Timing.antt =====
-- Timers (server/shared/Utilities/Timer.h). A time_t is its 64-bit pattern, an int32 its 32-bit one;
-- sums of them wrap around.
pub mod Elapsed
pub mod Events
pub mod EventMap
pub mod Tests
use landlord.Prelude.{
  ℕ, zero, suc, ◌+◌, ◌-◌, ◌*◌, ◌/◌, ◌%◌, ◌^◌, ◌≤◌, ◌<◌, min, ◌≡◌, refl, sym, ap, ◌∙◌, ◌≢◌, ◌↔◌, ◌⊎◌,
  inl, inr, Bool, true, false, not, ◌&&◌, ◌||◌, Option, none, some, List, [], ◌∷◌, ◌++◌, map, arith,
  ltb, leb, ◌==◌, if◌then◌else◌, ==_iff, Bool-cases, Option-cases, bind, length, get_elem?, set,
  take, drop, replicate, length-append, length-set, take-append-drop, length-take, length-drop,
  length-replicate, get_elem?_total, get_elem?-set_self, get_elem?-set_ne, one_if_eq, count,
  count-append, count-set, u32_mod, add32, sub32, minus_one, is_negative, is_positive, signed_key,
  max32,
}

abbrev i64_mod : ℕ
i64_mod = 2 ^ 64

abbrev add64 : ℕ → ℕ → ℕ
add64 a b = (a + b) % i64_mod

abbrev sub64 : ℕ → ℕ → ℕ
sub64 a b = (a + i64_mod - b) % i64_mod

-- `w < 0` for a time_t.
abbrev is_negative64 : ℕ → Bool
is_negative64 w = leb (2 ^ 63) w

-- The order of time_t is the order of the patterns moved by half the range.
abbrev signed_key64 : ℕ → ℕ
signed_key64 w = (w + 2 ^ 63) % i64_mod

abbrev magnitude64 : ℕ → ℕ
magnitude64 w = if is_negative64 w then i64_mod - w else w

-- `a % b` of two time_t: the remainder has the sign of `a`. Division by zero, and of the least number
-- by -1, is a fault.
pub remainder64 : ℕ → ℕ → Option ℕ
remainder64 a b =
    if b == 0
    then none
    else if a == 2 ^ 63 && b == i64_mod - 1
    then none
    else (let r = magnitude64 a % magnitude64 b in
        some (if is_negative64 a then (i64_mod - r) % i64_mod else r))

-- getMSTime, of the milliseconds since the start.
abbrev pub get_ms_time : ℕ → ℕ
get_ms_time ms = ms % u32_mod

pub get_ms_time_diff : ℕ → ℕ → ℕ
get_ms_time_diff old_time new_time =
    if ltb new_time old_time
    then add32 (sub32 minus_one old_time) new_time
    else sub32 new_time old_time

pub record IntervalTimer : Type 0 where
  pub interval : ℕ
  pub current : ℕ

-- IntervalTimer::Update
pub update_interval : ℕ → IntervalTimer → IntervalTimer
update_interval diff t =
    let c = add64 t.current diff in record t { current = if is_negative64 c then 0 else c }

-- IntervalTimer::Passed
pub interval_passed : IntervalTimer → Bool
interval_passed t = leb (signed_key64 t.interval) (signed_key64 t.current)

-- IntervalTimer::Reset
pub reset_interval : IntervalTimer → Option IntervalTimer
unfolding interval_passed remainder64
reset_interval t =
    if interval_passed t
    then bind (remainder64 t.current t.interval) (λ c. some (record t { current = c }))
    else some t

-- A TimeTracker is its `i_expiryTime`: Update and Passed.
pub update_tracker : ℕ → ℕ → ℕ
update_tracker diff expiry = sub64 expiry diff

pub tracker_passed : ℕ → Bool
tracker_passed expiry = leb (signed_key64 expiry) (signed_key64 0)

-- A TimeTrackerSmall is its `i_expiryTime`, an int32: Update and Passed.
pub update_small : ℕ → ℕ → ℕ
update_small diff expiry = sub32 expiry diff

pub small_passed : ℕ → Bool
small_passed expiry = not (is_positive expiry)

pub record PeriodicTimer : Type 0 where
  pub period : ℕ
  pub expire_time : ℕ

-- `period > diff ? period : diff` of two int32.
abbrev longer : ℕ → ℕ → ℕ
longer period diff = if ltb (signed_key diff) (signed_key period) then period else diff

-- PeriodicTimer::Update; the Boolean says that the time is up.
pub update_periodic : ℕ → PeriodicTimer → Bool × PeriodicTimer
update_periodic diff t =
    let e = sub32 t.expire_time diff in
    if is_positive e
    then (false, record t { expire_time = e })
    else (true, record t { expire_time = add32 e (longer t.period diff) })

-- PeriodicTimer::TUpdate, TPassed and TReset
pub t_update : ℕ → PeriodicTimer → PeriodicTimer
t_update diff t = record t { expire_time = sub32 t.expire_time diff }

pub t_passed : PeriodicTimer → Bool
t_passed t = not (is_positive t.expire_time)

pub t_reset : ℕ → ℕ → PeriodicTimer → PeriodicTimer
t_reset diff period t = record t { expire_time = add32 t.expire_time (longer period diff) }
