-- ===== src/Threads/Updater/Shutdown.antt =====
-- RoomUpdater::deactivate: no thread follows the null pointer that the canceled queue leaves it.
use landlord.Prelude.{
  ℕ, ◌+◌, ◌-◌, ◌%◌, ◌^◌, ◌≤◌, ◌<◌, ◌≡◌, refl, sym, ◌∙◌, ◌≢◌, inl, inr, Bool, true, false, none,
  some, List, [], ◌∷◌, arith, ltb, Bool-cases, Option-cases, get_elem?, set,
}
use landlord.Threads.Queues.{ProducerConsumerQueue, can_return, wait_and_pop, pop, no_items, cancel}
use landlord.Threads.Updater.{
  Worker, waiting, holding, updating, finishing, ended, Updater, fault, next, work, work_at,
  set_worker, cancel_queue, update_finished, Reached, Stopping, running, step, ShutdownStep,
  sets_token, cancels, works,
}
use landlord.Threads.Updater.Totals.{total, total-member, total-set, total-monotone, lost}
use landlord.Threads.Updater.Rounds.{Reached-IsRound}

-- A thread that got the null pointer.
abbrev has_null : Worker → ℕ
has_null (holding none) = 1
has_null _ = 0

-- The queue is canceled, and a null pointer held, only after the token was set.
record IsGuarded (u : Updater) : Type 0 where
  canceled_late : u.queue.shutdown ≡ true → u.cancelation_token ≡ true
  null_late : 0 < total has_null u.workers → u.cancelation_token ≡ true

has_null-le-lost : (w : Worker) → has_null w ≤ lost w
has_null-le-lost waiting = omega arith
has_null-le-lost (holding none) = omega arith
has_null-le-lost (holding (some r)) = omega arith
has_null-le-lost (updating r) = omega arith
has_null-le-lost (finishing r) = omega arith
has_null-le-lost ended = omega arith

Reached-IsGuarded : {n : ℕ} {u : Updater} → Reached n u → IsGuarded u
Reached-IsGuarded {u = u} r =
    let h = (Reached-IsRound r).open_updater in
    record {
      canceled_late = λ e. ground (arith, h.open_queue, e);
      null_late = λ e.
          absurd (
            omega (arith, h.none_lost, e, total-monotone has_null lost u.workers has_null-le-lost));
    }

next_inj : {u v : Updater} → next u ≡ next v → u ≡ v
next_inj e = cc

-- A thread goes from `w` to `v`, and the queue keeps its flag.
placed :
    (i : ℕ) (w v : Worker) (u : Updater) (queue : ProducerConsumerQueue ℕ) (pending : ℕ)
    (updated : List ℕ)
    → get_elem? u.workers i ≡ some w
    → IsGuarded u
    → queue.shutdown ≡ u.queue.shutdown
    → (0 < has_null v → u.cancelation_token ≡ true)
    → IsGuarded (record u {
      queue = queue;
      workers = set u.workers i v;
      pending_requests = pending;
      updated = updated;
    })
placed i w v u queue pending updated at h same late = record {
  canceled_late = λ e. h.canceled_late (sym same ∙ e);
  null_late = λ e. elim (Bool-cases (ltb 0 (has_null v))) [
    | inl new ↦ late (ground arith)
    | inr old ↦ h.null_late (ground (arith, total-set has_null u.workers i w v at))
  ];
}

-- Without the shutdown flag, WaitAndPop brings a request.
pop_some :
    (u : Updater) (queue : List ℕ) (b : Bool)
    → u.queue.queue ≡ queue
    → u.queue.shutdown ≡ b
    → can_return u.queue ≡ true
    → IsGuarded u
    → 0 < has_null (holding (wait_and_pop u.queue).0)
    → u.cancelation_token ≡ true
unfolding wait_and_pop pop can_return no_items
pop_some u queue true q s can h null = h.canceled_late s
pop_some u [] false q s can h null = absurd (ground (arith, q, s, can))
pop_some u (r ∷ rest) false q s can h null = absurd (omega (arith, rw (q, s) at null))

wait_and_pop-shutdown :
    (queue : List ℕ) (b : Bool)
    → (wait_and_pop (record { queue = queue; shutdown = b })).1.shutdown ≡ b
unfolding wait_and_pop pop
wait_and_pop-shutdown [] b = refl
wait_and_pop-shutdown (r ∷ rest) true = refl
wait_and_pop-shutdown (r ∷ rest) false = refl

work-IsGuarded :
    (i : ℕ) (w : Worker) (u v : Updater)
    → get_elem? u.workers i ≡ some w
    → IsGuarded u
    → work i w u ≡ next v
    → IsGuarded v
unfolding work update_finished
work-IsGuarded i waiting u v at h e = elim (Bool-cases (can_return u.queue)) [
  | inl can ↦
      let (request, queue) = wait_and_pop u.queue in
      let went : next (set_worker i (holding request) (record u { queue = queue })) ≡ next v =
        sym (rw (work, can) refl) ∙ e in
      rw (sym (next_inj went)) (
        placed i waiting (holding request) u queue u.pending_requests u.updated at h
          (wait_and_pop-shutdown u.queue.queue u.queue.shutdown)
          (pop_some u u.queue.queue u.queue.shutdown refl refl can h))
  | inr cannot ↦ absurd (ground (arith, cannot, e))
]
work-IsGuarded i (holding none) u v at h e = elim (Bool-cases u.cancelation_token) [
  | inl set ↦
      let went : next (set_worker i ended u) ≡ next v = sym (rw (work, set) refl) ∙ e in
      rw (sym (next_inj went))
        (placed i (holding none) ended u u.queue u.pending_requests u.updated at h refl (λ l. set))
  | inr unset ↦ absurd (ground (arith, unset, e))
]
work-IsGuarded i (holding (some r)) u v at h e = elim (Bool-cases u.cancelation_token) [
  | inl set ↦
      let went : next (set_worker i ended u) ≡ next v = sym (rw (work, set) refl) ∙ e in
      rw (sym (next_inj went)) (
        placed i (holding (some r)) ended u u.queue u.pending_requests u.updated at h refl
          (λ l. set))
  | inr unset ↦
      let went : next (set_worker i (updating r) u) ≡ next v = sym (rw (work, unset) refl) ∙ e in
      rw (sym (next_inj went)) (
        placed i (holding (some r)) (updating r) u u.queue u.pending_requests u.updated at h refl
          (λ l. absurd (omega arith)))
]
work-IsGuarded i (updating r) u v at h e = rw (sym (next_inj e)) (
    placed i (updating r) (finishing r) u u.queue u.pending_requests (r ∷ u.updated) at h refl
      (λ l. absurd (omega arith)))
work-IsGuarded i (finishing r) u v at h e = rw (sym (next_inj e)) (
    placed i (finishing r) waiting u u.queue ((u.pending_requests + 2 ^ 64 - 1) % 2 ^ 64) u.updated
      at h refl (λ l. absurd (omega arith)))
work-IsGuarded i ended u v at h e = absurd (ground (arith, e))

step-IsGuarded : {u v : Updater} → IsGuarded u → ShutdownStep u v → IsGuarded v
unfolding work_at cancel_queue cancel
step-IsGuarded h (sets_token u idle) = record { canceled_late = λ e. refl; null_late = λ e. refl }
step-IsGuarded h (cancels u set idle) = record { canceled_late = λ e. set; null_late = λ e. set }
step-IsGuarded h (works i {u} {v} e) = elim (Option-cases (get_elem? u.workers i)) [
  | inl none_there ↦ absurd (ground (arith, none_there, e))
  | inr (w, at) ↦ work-IsGuarded i w u v at h (sym (rw (work_at, at) refl) ∙ e)
]

Stopping-IsGuarded : {n : ℕ} {u : Updater} → Stopping n u → IsGuarded u
Stopping-IsGuarded (running r) = Reached-IsGuarded r
Stopping-IsGuarded (step s t) = step-IsGuarded (Stopping-IsGuarded s) t

work-safe :
    (i : ℕ) (w : Worker) (u : Updater)
    → get_elem? u.workers i ≡ some w
    → IsGuarded u
    → work i w u ≢ fault
unfolding work
work-safe i waiting u at h e = ground arith
work-safe i (holding none) u at h e =
    let set = h.null_late (omega (arith, total-member has_null u.workers i (holding none) at)) in
    ground (arith, set, e)
work-safe i (holding (some r)) u at h e = ground arith
work-safe i (updating r) u at h e = ground arith
work-safe i (finishing r) u at h e = ground arith
work-safe i ended u at h e = ground arith

-- No thread of a RoomUpdater ever calls a request that is the null pointer, neither while the
-- server runs nor while deactivate stops it: in every state that can be reached, the next step of
-- every thread is not such a call, if deactivate is called while no update is pending.
pub Stopping-safe : {n : ℕ} {u : Updater} → Stopping n u → (i : ℕ) → work_at i u ≢ fault
unfolding work_at
Stopping-safe {u = u} s i e = elim (Option-cases (get_elem? u.workers i)) [
  | inl none_there ↦ ground (arith, none_there, e)
  | inr (w, at) ↦ work-safe i w u at (Stopping-IsGuarded s) (sym (rw (work_at, at) refl) ∙ e)
]
