-- ===== src/Threads/Updater/Progress.antt =====
-- That RoomUpdater::wait returns.
use landlord.Prelude.{
  ℕ, suc, ◌+◌, ◌*◌, ◌≤◌, ◌<◌, ◌≡◌, refl, ap, ◌∙◌, ◌⊎◌, inl, inr, true, false, none, some, ◌∷◌,
  arith, ltb, Bool-cases, length, get_elem?, get_elem?_total,
}
use landlord.Threads.Queues.{can_return, wait_and_pop, no_items}
use landlord.Threads.Updater.{
  Worker, waiting, holding, updating, finishing, ended, Updater, next, work, work_at, set_worker,
  update_finished, Reached, step, works, wait_over,
}
use landlord.Threads.Updater.Totals.{total, total-member, total-set, total-find, busy, lost}
use landlord.Threads.Updater.Moves.{Move, takes, begins, updates, reports, work-Move}
use landlord.Threads.Updater.Rounds.{IsRound, Reached-IsRound}

-- The steps that a thread still has to take for its request, and all threads for all requests.
abbrev weight : Worker → ℕ
weight (holding (some r)) = 3
weight (updating r) = 2
weight (finishing r) = 1
weight _ = 0

unfoldable pub work_left : Updater → ℕ
work_left u = 4 * length u.queue.queue + total weight u.workers

-- `k` steps of threads, in any order, while nothing is scheduled.
pub data Runs : ℕ → Updater → Updater → Type 0 where
  stop : {u : Updater} → Runs 0 u u
  run : {k : ℕ} {u v w : Updater} (i : ℕ) → Runs k u v → work_at i v ≡ next w → Runs (k + 1) u w

Runs-Reached : {n k : ℕ} {u v : Updater} → Reached n u → Runs k u v → Reached n v
Runs-Reached r stop = r
Runs-Reached r (run i runs e) = step (Runs-Reached r runs) (works i e)

-- Each step is one of those left.
Move-work_left : (i : ℕ) {u v : Updater} → Move i u v → work_left v + 1 ≡ work_left u
unfolding work_left update_finished
Move-work_left i {u} (takes r rest at more) =
    let taken : length u.queue.queue ≡ suc (length rest) = rw more refl in
    omega (arith, total-set weight u.workers i waiting (holding (some r)) at)
Move-work_left i {u} (begins r at) =
    omega (arith, total-set weight u.workers i (holding (some r)) (updating r) at)
Move-work_left i {u} (updates r at) =
    omega (arith, total-set weight u.workers i (updating r) (finishing r) at)
Move-work_left i {u} (reports r at) =
    omega (arith, total-set weight u.workers i (finishing r) waiting at)

Runs-work_left :
    {n k : ℕ} {u v : Updater} → Reached n u → Runs k u v → k + work_left v ≡ work_left u
Runs-work_left r stop = omega arith
Runs-work_left r (run {k} i runs e) =
    let before = Runs-work_left r runs in
    let h = (Reached-IsRound (Runs-Reached r runs)).open_updater in
    omega (arith, before, Move-work_left i (work-Move i h e))

abbrev CanMove : Updater → Type 0
CanMove u = (i : ℕ) × (v : Updater) × (work_at i u ≡ next v)

busy-CanMove :
    (i : ℕ) (w : Worker) (u : Updater)
    → get_elem? u.workers i ≡ some w
    → u.cancelation_token ≡ false
    → 0 < busy w
    → CanMove u
unfolding work_at work
busy-CanMove i waiting u at t h = absurd (omega arith)
busy-CanMove i (holding none) u at t h = absurd (omega arith)
busy-CanMove i (holding (some r)) u at t h =
    (i, set_worker i (updating r) u, rw (work_at, at, work, t) refl)
busy-CanMove i (updating r) u at t h =
    (i, set_worker i (finishing r) (record u { updated = r ∷ u.updated }), rw (work_at, at) refl)
busy-CanMove i (finishing r) u at t h =
    (i, set_worker i waiting (update_finished u), rw (work_at, at) refl)
busy-CanMove i ended u at t h = absurd (omega arith)

idle : (w : Worker) → busy w ≡ 0 → lost w ≡ 0 → w ≡ waiting
idle waiting h l = refl
idle (holding none) h l = absurd (omega arith)
idle (holding (some r)) h l = absurd (omega arith)
idle (updating r) h l = absurd (omega arith)
idle (finishing r) h l = absurd (omega arith)
idle ended h l = absurd (omega arith)

-- A thread that waits for a request takes one when there is one.
waiting-CanMove :
    (u : Updater) → get_elem? u.workers 0 ≡ some waiting → 0 < length u.queue.queue → CanMove u
unfolding work_at work can_return no_items
waiting-CanMove u at h =
    let can : can_return u.queue ≡ true = ground arith in
    (
      0,
      set_worker 0 (holding (wait_and_pop u.queue).0)
          (record u { queue = (wait_and_pop u.queue).1 }),
      rw (work_at, at, work, can) refl,
    )

-- With a thread at all, one of them can go on as long as a request is pending.
pending-CanMove : {n : ℕ} (u : Updater) → 0 < n → IsRound n u → wait_over u ≡ false → CanMove u
pending-CanMove u room h waits = elim (Bool-cases (ltb 0 (total busy u.workers))) [
  | inl some_busy ↦
      let (i, w, at, more) = total-find busy u.workers (ground arith) in
      busy-CanMove i w u at h.open_updater.kept more
  | inr none_busy ↦
      let (w, at) = get_elem?_total u.workers 0 (omega (arith, h.threads)) in
      let free =
        idle w (ground (arith, none_busy, total-member busy u.workers 0 w at))
          (omega (arith, h.open_updater.none_lost, total-member lost u.workers 0 w at)) in
      waiting-CanMove u (at ∙ ap some free) (ground (arith, h.all_pending))
]

-- RoomUpdater::wait returns when there is a thread: while nothing is scheduled, the threads take at
-- most as many steps as are left, in any order, and as long as `wait` has to wait one of them can
-- take its next step. Each call of the room's update is taken to return.
pub Runs-wait_over :
    {n k : ℕ} {u v : Updater}
    → 0 < n
    → Reached n u
    → Runs k u v
    → (k ≤ work_left u)
      × ((wait_over v ≡ true) ⊎ ((i : ℕ) × (w : Updater) × (work_at i v ≡ next w)))
Runs-wait_over {v = v} room r runs = (
  omega (arith, Runs-work_left r runs),
  elim (Bool-cases (wait_over v)) [
    | inl over ↦ inl over
    | inr waits ↦ inr (pending-CanMove v room (Reached-IsRound (Runs-Reached r runs)) waits)
  ],
)
