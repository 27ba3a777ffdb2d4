-- ===== src/Threads/Updater/Rounds.antt =====
-- The invariant of a RoomUpdater between activate and deactivate.
use landlord.Prelude.{
  ℕ, suc, ◌+◌, ◌-◌, ◌%◌, ◌^◌, ◌≤◌, ◌<◌, ◌≡◌, refl, ◌∙◌, true, some, List, [], ◌∷◌, arith, ==_iff,
  length, get_elem?, set, length-append, length-set, length-replicate, count, count-append,
}
use landlord.Threads.Queues.{push}
use landlord.Threads.Updater.{
  Worker, waiting, holding, updating, finishing, Updater, update_finished, schedule_update,
  activate, schedules, works, Reached, start, step, wait_over,
}
use landlord.Threads.Updater.Totals.{
  total, total-member, total-set, total-replicate, total-monotone, busy, lost, carries,
  carries-le-busy,
}
use landlord.Threads.Updater.Moves.{Move, takes, begins, updates, reports, IsOpen, work-Move}

count-le-length : (c : ℕ) (xs : List ℕ) → count c xs ≤ length xs
count-le-length c [] = omega arith
count-le-length c (x ∷ xs) = ground (arith, count-le-length c xs)

-- Every request that was scheduled is in the queue, with one thread, or done; and
-- `pending_requests` counts those in the queue or with a thread.
pub record IsRound (n : ℕ) (u : Updater) : Type 0 where
  pub open_updater : IsOpen u
  pub threads : length u.workers ≡ n
  pub in_range : u.pending_requests < 2 ^ 64
  pub all_pending : u.pending_requests ≡ length u.queue.queue + total busy u.workers
  pub all_scheduled :
      (r : ℕ)
      → count r u.scheduled
        ≡ count r u.queue.queue + total (carries r) u.workers + count r u.updated

activate-IsRound : (n : ℕ) → IsRound n (activate n)
unfolding activate
activate-IsRound n = record {
  open_updater = record {
    kept = refl;
    open_queue = refl;
    none_lost = total-replicate lost n waiting refl;
  };
  threads = length-replicate n waiting;
  in_range = omega arith;
  all_pending = omega (arith, total-replicate busy n waiting refl);
  all_scheduled = λ r. omega (arith, total-replicate (carries r) n waiting refl);
}

schedule_update-IsRound :
    {n : ℕ} (request : ℕ) (u : Updater)
    → u.pending_requests + 1 < 2 ^ 64
    → IsRound n u
    → IsRound n (schedule_update request u)
unfolding schedule_update push
schedule_update-IsRound request u room h = record {
  open_updater = record {
    kept = h.open_updater.kept;
    open_queue = h.open_updater.open_queue;
    none_lost = h.open_updater.none_lost;
  };
  threads = h.threads;
  in_range = omega arith;
  all_pending = omega (arith, h.all_pending, length-append u.queue.queue (request ∷ []), room);
  all_scheduled =
      λ r. omega (arith, h.all_scheduled r, count-append r u.queue.queue (request ∷ []));
}

-- A thread goes from `w` to `v`, and the queue, the count and the rooms updated change with it.
moved :
    {n : ℕ} {u : Updater} (i : ℕ) (w v : Worker) (queue : List ℕ) (pending : ℕ) (updated : List ℕ)
    → IsRound n u
    → get_elem? u.workers i ≡ some w
    → lost v ≡ 0
    → pending < 2 ^ 64
    → length queue + busy v + u.pending_requests ≡ pending + length u.queue.queue + busy w
    → ((c : ℕ)
        → count c queue + carries c v + count c updated
          ≡ count c u.queue.queue + carries c w + count c u.updated)
    → IsRound n (record u {
      queue = record u.queue { queue = queue };
      workers = set u.workers i v;
      pending_requests = pending;
      updated = updated;
    })
moved {u = u} i w v queue pending updated h at fine room balance counts = record {
  open_updater = record {
    kept = h.open_updater.kept;
    open_queue = h.open_updater.open_queue;
    none_lost = omega (arith, total-set lost u.workers i w v at, h.open_updater.none_lost);
  };
  threads = length-set u.workers i v ∙ h.threads;
  in_range = room;
  all_pending = omega (arith, total-set busy u.workers i w v at, h.all_pending);
  all_scheduled =
      λ c. omega (arith, total-set (carries c) u.workers i w v at, h.all_scheduled c, counts c);
}

-- Each step of a thread keeps the invariant.
moved-IsRound : {n : ℕ} (i : ℕ) {u v : Updater} → IsRound n u → Move i u v → IsRound n v
unfolding update_finished
moved-IsRound i {u} h (takes r rest at more) =
    let taken : length u.queue.queue ≡ suc (length rest) = rw more refl in
    moved i waiting (holding (some r)) rest u.pending_requests u.updated h at refl h.in_range
      (omega arith) (λ c. rw more (omega arith))
moved-IsRound i {u} h (begins r at) =
    moved i (holding (some r)) (updating r) u.queue.queue u.pending_requests u.updated h at refl
      h.in_range (omega arith) (λ c. omega arith)
moved-IsRound i {u} h (updates r at) =
    moved i (updating r) (finishing r) u.queue.queue u.pending_requests (r ∷ u.updated) h at refl
      h.in_range (omega arith) (λ c. omega arith)
moved-IsRound i {u} h (reports r at) =
    moved i (finishing r) waiting u.queue.queue ((u.pending_requests + 2 ^ 64 - 1) % 2 ^ 64)
      u.updated h at refl (omega arith)
      (omega (arith, h.all_pending, h.in_range, total-member busy u.workers i (finishing r) at))
      (λ c. omega arith)

pub Reached-IsRound : {n : ℕ} {u : Updater} → Reached n u → IsRound n u
Reached-IsRound {n} start = activate-IsRound n
Reached-IsRound (step r (schedules request u room)) =
    schedule_update-IsRound request u room (Reached-IsRound r)
Reached-IsRound (step r (works i e)) =
    let h = Reached-IsRound r in moved-IsRound i h (work-Move i h.open_updater e)

-- Whenever RoomUpdater::wait may return before the shutdown, each room has been updated exactly as
-- often as it was scheduled, whatever the order in which the threads have worked; with at most
-- 2 ^ 64 - 1 requests at a time.
pub wait_over-updated :
    {n : ℕ} {u : Updater}
    → Reached n u
    → wait_over u ≡ true
    → (request : ℕ) → count request u.updated ≡ count request u.scheduled
wait_over-updated {u = u} r over request =
    let h = Reached-IsRound r in
    omega (
      arith,
      h.all_pending,
      (==_iff u.pending_requests 0).0 over,
      h.all_scheduled request,
      total-monotone (carries request) busy u.workers (carries-le-busy request),
      count-le-length request u.queue.queue,
    )
