-- ===== src/Threads/Updater.antt =====
-- class RoomUpdater (server/game/Room/RoomUpdater.h and RoomUpdater.cpp): the threads that update
-- rooms, as steps that any of them may take next.
pub mod Totals
pub mod Moves
pub mod Rounds
pub mod Progress
pub mod Shutdown
use landlord.Prelude.{
  ℕ, zero, suc, ◌+◌, ◌-◌, ◌*◌, ◌/◌, ◌%◌, ◌^◌, ◌≤◌, ◌<◌, min, ◌≡◌, refl, sym, ap, ◌∙◌, ◌≢◌, ◌↔◌, ◌⊎◌,
  inl, inr, Bool, true, false, not, ◌&&◌, ◌||◌, Option, none, some, List, [], ◌∷◌, ◌++◌, map, arith,
  ltb, leb, ◌==◌, if◌then◌else◌, ==_iff, Bool-cases, Option-cases, bind, length, get_elem?, set,
  take, drop, replicate, length-append, length-set, take-append-drop, length-take, length-drop,
  length-replicate, get_elem?_total, get_elem?-set_self, get_elem?-set_ne, one_if_eq, count,
  count-append, count-set, u32_mod, add32, sub32, minus_one, is_negative, is_positive, signed_key,
  max32,
}
use landlord.Threads.Queues.{ProducerConsumerQueue, push, wait_and_pop, can_return, cancel}

-- Where a thread is in WorkerThread: before WaitAndPop; with what it got from there, `none` for the
-- null pointer; in Room::Update; before update_finished; or at its end. A request is the number of
-- the object.
pub data Worker : Type 0 where
  waiting : Worker
  holding : Option ℕ → Worker
  updating : ℕ → Worker
  finishing : ℕ → Worker
  ended : Worker

-- RoomUpdater. `scheduled` and `updated` are the requests of schedule_update so far and those whose
-- room has been updated, the newest first.
pub record Updater : Type 0 where
  pub queue : ProducerConsumerQueue ℕ
  pub workers : List Worker
  pub cancelation_token : Bool
  pub pending_requests : ℕ
  pub scheduled : List ℕ
  pub updated : List ℕ

-- What a thread does next: it has to wait, follows a null pointer, or goes on.
pub data Outcome : Type 0 where
  blocked fault : Outcome
  next : Updater → Outcome

-- RoomUpdater::RoomUpdater and activate
unfoldable pub activate : ℕ → Updater
activate num_threads = record {
  queue = record { queue = []; shutdown = false };
  workers = replicate num_threads waiting;
  cancelation_token = false;
  pending_requests = 0;
  scheduled = [];
  updated = [];
}

-- RoomUpdater::activated
abbrev activated : Updater → Bool
activated u = ltb 0 (length u.workers)

-- RoomUpdater::schedule_update; `pending_requests` is a size_t.
unfoldable pub schedule_update : ℕ → Updater → Updater
unfolding push
schedule_update request u = record u {
  pending_requests = (u.pending_requests + 1) % 2 ^ 64;
  queue = push request u.queue;
  scheduled = request ∷ u.scheduled;
}

-- RoomUpdater::update_finished
unfoldable pub update_finished : Updater → Updater
update_finished u = record u { pending_requests = (u.pending_requests + 2 ^ 64 - 1) % 2 ^ 64 }

abbrev pub set_worker : ℕ → Worker → Updater → Updater
set_worker i w u = record u { workers = set u.workers i w }

-- The next step of the thread `i`, which is at `w`.
unfoldable pub work : ℕ → Worker → Updater → Outcome
unfolding wait_and_pop can_return update_finished
work i waiting u =
    if can_return u.queue
    then (let (request, queue) = wait_and_pop u.queue in
        next (set_worker i (holding request) (record u { queue = queue })))
    else blocked
work i (holding request) u =
    if u.cancelation_token
    then next (set_worker i ended u)
    else elim request [ none ↦ fault | some r ↦ next (set_worker i (updating r) u) ]
work i (updating r) u = next (set_worker i (finishing r) (record u { updated = r ∷ u.updated }))
work i (finishing r) u = next (set_worker i waiting (update_finished u))
work i ended u = blocked

-- The next step of the thread `i`; there is no thread beyond the last.
unfoldable pub work_at : ℕ → Updater → Outcome
unfolding work
work_at i u = elim (get_elem? u.workers i) [ none ↦ blocked | some w ↦ work i w u ]

-- RoomUpdater::wait may return.
abbrev pub wait_over : Updater → Bool
wait_over u = u.pending_requests == 0

-- The parts of RoomUpdater::deactivate: the token is set, and, after the wait, the queue canceled.
abbrev pub set_token : Updater → Updater
set_token u = record u { cancelation_token = true }

unfoldable pub cancel_queue : Updater → Updater
unfolding cancel
cancel_queue u = record u { queue = cancel u.queue }

-- The steps while the server runs: RoomManager::Update schedules rooms, and the threads work.
pub data Step : Updater → Updater → Type 0 where
  schedules :
      (request : ℕ) (u : Updater)
      → u.pending_requests + 1 < 2 ^ 64
      → Step u (schedule_update request u)
  works : (i : ℕ) {u v : Updater} → work_at i u ≡ next v → Step u v

-- The steps of the shutdown: deactivate is called when no update is under way, since
-- RoomManager::Update waits before it returns.
pub data ShutdownStep : Updater → Updater → Type 0 where
  sets_token : (u : Updater) → u.pending_requests ≡ 0 → ShutdownStep u (set_token u)
  cancels :
      (u : Updater)
      → u.cancelation_token ≡ true
      → u.pending_requests ≡ 0
      → ShutdownStep u (cancel_queue u)
  works : (i : ℕ) {u v : Updater} → work_at i u ≡ next v → ShutdownStep u v

-- What can be reached from an active updater, before and after the shutdown begins.
pub data Reached (n : ℕ) : Updater → Type 0 where
  start : Reached n (activate n)
  step : {u v : Updater} → Reached n u → Step u v → Reached n v

pub data Stopping (n : ℕ) : Updater → Type 0 where
  running : {u : Updater} → Reached n u → Stopping n u
  step : {u v : Updater} → Stopping n u → ShutdownStep u v → Stopping n v
