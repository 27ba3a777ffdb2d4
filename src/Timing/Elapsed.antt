-- ===== src/Timing/Elapsed.antt =====
-- What the timers of Timer.h measure.
use native.Mathlib.Nat.{mod-lt, mod-eq_of_lt, mod-add-mod}
use landlord.Prelude.{
  ℕ, ◌+◌, ◌-◌, ◌%◌, ◌^◌, ◌<◌, ◌≡◌, sym, ap, ◌∙◌, inl, inr, false, Option, some, List, [], ◌∷◌,
  arith, ltb, leb, if◌then◌else◌, Bool-cases, bind,
}
use landlord.Timing.{
  get_ms_time, get_ms_time_diff, IntervalTimer, update_interval, interval_passed, reset_interval,
  remainder64, update_tracker, tracker_passed, update_periodic,
}

-- The difference of two clock readings `d` milliseconds apart, for d below 2^32, is d if the 32-bit
-- clock did not wrap around between them, and one millisecond short of d if it did.
get_ms_time_diff-elapsed :
    (t d : ℕ)
    → d < 2 ^ 32
    → get_ms_time_diff (get_ms_time t) (get_ms_time (t + d))
      ≡ (if ltb (get_ms_time (t + d)) (get_ms_time t) then d - 1 else d)
unfolding get_ms_time_diff
get_ms_time_diff-elapsed t d h = ground arith

-- One step of a loop that uses an IntervalTimer: Update, then Reset, which tests Passed itself.
tick : ℕ → IntervalTimer → Option IntervalTimer
unfolding update_interval reset_interval
tick d t = reset_interval (update_interval d t)

ticks : List ℕ → IntervalTimer → Option IntervalTimer
unfolding tick
ticks [] t = some t
ticks (d ∷ ds) t = bind (tick d t) (ticks ds)

abbrev pub sum : List ℕ → ℕ
sum [] = 0
sum (d ∷ ds) = d + sum ds

abbrev pub AllBelow : ℕ → List ℕ → Type 0
AllBelow n [] = Unit
AllBelow n (d ∷ ds) = (d < n) × AllBelow n ds

update_interval_lem :
    (d i c : ℕ)
    → c + d < 2 ^ 63
    → update_interval d (record { interval = i; current = c })
      ≡ record { interval = i; current = c + d }
unfolding update_interval
update_interval_lem d i c h = ap (λ x. record { interval = i; current = x }) (ground arith)

interval_passed_lem :
    (i x : ℕ)
    → i < 2 ^ 63
    → x < 2 ^ 63
    → interval_passed (record { interval = i; current = x }) ≡ leb i x
unfolding interval_passed
interval_passed_lem i x hi hx = ground arith

remainder64_lem : (x i : ℕ) → x < 2 ^ 63 → 0 < i → i < 2 ^ 63 → remainder64 x i ≡ some (x % i)
unfolding remainder64
remainder64_lem x i hx hi hi' = ground arith

below : (i x : ℕ) → leb i x ≡ false → x < i
below i x e = ground arith

reset_interval_lem :
    (i x : ℕ)
    → 0 < i
    → i < 2 ^ 63
    → x < 2 ^ 63
    → reset_interval (record { interval = i; current = x })
      ≡ some (record { interval = i; current = x % i })
unfolding reset_interval
reset_interval_lem i x h hi hx = elim (Bool-cases (leb i x)) [
  | inl e ↦ rw (interval_passed_lem i x hi hx, e, remainder64_lem x i hx h hi)
  | inr e ↦ rw (interval_passed_lem i x hi hx, e, mod-eq_of_lt (below i x e))
]

sums_agree : (c d n i : ℕ) → 0 < i → ((c + d) % i + n) % i ≡ (c + (d + n)) % i
sums_agree c d n i h = mod-add-mod (c + d) i n ∙ ap (λ x. x % i) (omega arith)

tick_lem :
    (d i c : ℕ)
    → 0 < i
    → i < 2 ^ 62
    → c < i
    → d < 2 ^ 62
    → tick d (record { interval = i; current = c })
      ≡ some (record { interval = i; current = (c + d) % i })
unfolding tick
tick_lem d i c h hi hc hd =
    ap reset_interval (update_interval_lem d i c (omega arith))
    ∙ reset_interval_lem i (c + d) h (omega arith) (omega arith)

-- An IntervalTimer that is updated and reset along any sequence of time spans keeps its phase:
-- `current` is the time since the start modulo the interval. The interval is positive, and it and
-- each time span are below 2^62.
ticks-phase :
    (ds : List ℕ) (i c : ℕ)
    → 0 < i
    → i < 2 ^ 62
    → c < i
    → AllBelow (2 ^ 62) ds
    → ticks ds (record { interval = i; current = c })
      ≡ some (record { interval = i; current = (c + sum ds) % i })
unfolding ticks
ticks-phase [] i c h hi hc hds =
    ap (λ x. some (record { interval = i; current = x }))
      (sym (ap (λ x. x % i) (omega arith) ∙ mod-eq_of_lt hc))
ticks-phase (d ∷ ds) i c h hi hc hds = rw (
  tick_lem d i c h hi hc hds.0,
  ticks-phase ds i ((c + d) % i) h hi (mod-lt (c + d) h) hds.1,
  sums_agree c d (sum ds) i h,
)

tracker_after : List ℕ → ℕ → ℕ
unfolding update_tracker
tracker_after [] expiry = expiry
tracker_after (d ∷ ds) expiry = tracker_after ds (update_tracker d expiry)

tracker_after_lem :
    (ds : List ℕ) (e : ℕ)
    → e < 2 ^ 64
    → sum ds < 2 ^ 63
    → tracker_after ds e ≡ (e + 2 ^ 64 - sum ds) % 2 ^ 64
unfolding tracker_after update_tracker
tracker_after_lem [] e h hs = ground arith
tracker_after_lem (d ∷ ds) e h hs =
    omega (arith, tracker_after_lem ds ((e + 2 ^ 64 - d) % 2 ^ 64) (omega arith) (omega arith))

-- A TimeTracker that is updated along any sequence of time spans has passed exactly when they add up
-- to its expiry at least. The expiry and the sum of the spans are below 2^63.
tracker-passed_iff :
    (ds : List ℕ) (e : ℕ)
    → e < 2 ^ 63
    → sum ds < 2 ^ 63
    → tracker_passed (tracker_after ds e) ≡ leb e (sum ds)
unfolding tracker_passed
tracker-passed_iff ds e he hs = ground (arith, tracker_after_lem ds e (omega arith) hs)

-- PeriodicTimer::Update with a positive period and time to go, both below 2^30, and a time span below
-- 2^30: it says that the time is up exactly when the span reaches the time to go; and afterwards
-- the time to go is again positive and below 2^30.
update_periodic_lem :
    (p e d : ℕ)
    → 0 < p
    → p < 2 ^ 30
    → 0 < e
    → e < 2 ^ 30
    → d < 2 ^ 30
    → ((update_periodic d (record { period = p; expire_time = e })).0 ≡ leb e d)
      × (0 < (update_periodic d (record { period = p; expire_time = e })).1.expire_time)
      × ((update_periodic d (record { period = p; expire_time = e })).1.expire_time < 2 ^ 30)
      × ((update_periodic d (record { period = p; expire_time = e })).1.period ≡ p)
unfolding update_periodic
update_periodic_lem p e d hp hp' he he' hd = ground arith
