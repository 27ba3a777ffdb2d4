-- ===== src/Threads/Tests.antt =====
-- Runs of the queues and of the room updater.
use landlord.Prelude.{
  ℕ, ◌≤◌, ◌≡◌, refl, ◌≢◌, ◌⊎◌, true, false, none, some, List, [], ◌∷◌, ◌++◌, arith, ltb, count,
}
use landlord.Threads.Queues.{next_checked, push, can_return, wait_and_pop, cancel}
use landlord.Threads.Queues.Fifo.{
  Call, puts, gets, calls, given, locked_fifo, producer_fifo, queues-refine_fifo,
}
use landlord.Threads.Updater.{
  waiting, holding, finishing, Updater, fault, next, activate, schedule_update, update_finished,
  work, work_at, set_token, cancel_queue, wait_over, schedules, works, Reached, start, step,
  Stopping, running, sets_token, cancels,
}
use landlord.Threads.Updater.Rounds.{wait_over-updated}
use landlord.Threads.Updater.Progress.{Runs, stop, run, work_left, Runs-wait_over}
use landlord.Threads.Updater.Shutdown.{Stopping-safe}

-- A checker that refuses the first item leaves it and those behind it; it is assigned all the same.
next_checked_keeps :
    next_checked (λ x. ltb x 5) (record { items = 7 ∷ 2 ∷ []; canceled = false })
    ≡ (false, some 7, record { items = 7 ∷ 2 ∷ []; canceled = false })
unfolding next_checked
next_checked_keeps = refl

abbrev two_calls : List (Call ℕ)
two_calls = puts 5 ∷ gets ∷ puts 6 ∷ []

queues-refine_fifo_example :
    ((calls locked_fifo two_calls (record { items = 4 ∷ []; canceled = false })).0
        ++ (calls locked_fifo two_calls (record { items = 4 ∷ []; canceled = false })).1.items
      ≡ 4 ∷ 5 ∷ 6 ∷ [])
    × ((calls producer_fifo two_calls (record { queue = 4 ∷ []; shutdown = false })).0
          ++ (calls producer_fifo two_calls (record { queue = 4 ∷ []; shutdown = false })).1.queue
        ≡ 4 ∷ 5 ∷ 6 ∷ [])
unfolding given
queues-refine_fifo_example =
    queues-refine_fifo two_calls (record { items = 4 ∷ []; canceled = false })
      (record { queue = 4 ∷ []; shutdown = false })

-- Two threads and the rooms 8 and 9; the thread 1 updates the room 8.
abbrev two_rooms : Updater
two_rooms = record {
  queue = record { queue = 8 ∷ 9 ∷ []; shutdown = false };
  workers = waiting ∷ waiting ∷ [];
  cancelation_token = false;
  pending_requests = 2;
  scheduled = 9 ∷ 8 ∷ [];
  updated = [];
}

two_rooms-Reached : Reached 2 two_rooms
unfolding activate schedule_update push
two_rooms-Reached =
    step (step start (schedules 8 (activate 2) (omega arith)))
      (schedules 9 (schedule_update 8 (activate 2)) (omega arith))

-- After the steps 1, 0, 1 and 1 the thread 1 has updated the room 8, and the thread 0 has room 9.
abbrev first_done : Updater
first_done = record {
  queue = record { queue = []; shutdown = false };
  workers = holding (some 9) ∷ finishing 8 ∷ [];
  cancelation_token = false;
  pending_requests = 2;
  scheduled = 9 ∷ 8 ∷ [];
  updated = 8 ∷ [];
}

first_done-Runs : Runs 4 two_rooms first_done
unfolding work_at work wait_and_pop can_return
first_done-Runs = run 1 (run 1 (run 0 (run 1 stop refl) refl) refl) refl

Runs-wait_over_example :
    (4 ≤ 8)
    × ((wait_over first_done ≡ true) ⊎ ((i : ℕ) × (w : Updater) × (work_at i first_done ≡ next w)))
unfolding work_left
Runs-wait_over_example = Runs-wait_over (omega arith) two_rooms-Reached first_done-Runs

-- The state after all eight steps.
abbrev all_done : Updater
all_done = record {
  queue = record { queue = []; shutdown = false };
  workers = waiting ∷ waiting ∷ [];
  cancelation_token = false;
  pending_requests = 0;
  scheduled = 9 ∷ 8 ∷ [];
  updated = 9 ∷ 8 ∷ [];
}

all_done-Reached : Reached 2 all_done
unfolding work_at work wait_and_pop can_return update_finished
all_done-Reached =
    step
      (step
        (step
          (step
            (step
              (step (step (step two_rooms-Reached (works 1 refl)) (works 0 refl)) (works 1 refl))
              (works 1 refl))
            (works 1 refl))
          (works 0 refl))
        (works 0 refl))
      (works 0 refl)

wait_over-updated_example : count 8 (9 ∷ 8 ∷ []) ≡ count 8 (9 ∷ 8 ∷ [])
wait_over-updated_example = wait_over-updated all_done-Reached refl 8

-- deactivate, and the thread 0 has got the null pointer.
abbrev shut : Updater
shut = record {
  queue = record { queue = []; shutdown = true };
  workers = holding none ∷ waiting ∷ [];
  cancelation_token = true;
  pending_requests = 0;
  scheduled = 9 ∷ 8 ∷ [];
  updated = 9 ∷ 8 ∷ [];
}

shut-Stopping : Stopping 2 shut
unfolding work_at work wait_and_pop can_return cancel_queue cancel
shut-Stopping =
    step
      (step (step (running all_done-Reached) (sets_token all_done refl))
        (cancels (set_token all_done) refl refl))
      (works 0 refl)

Stopping-safe_example : work_at 0 shut ≢ fault
Stopping-safe_example = Stopping-safe shut-Stopping 0
