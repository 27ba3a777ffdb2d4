-- ===== src/Timing/Events/Tests.antt =====
-- Runs of an EventProcessor.
use landlord.Prelude.{
  ℕ, ◌+◌, ◌≡◌, refl, inl, inr, true, false, not, some, [], ◌∷◌, arith, ◌==◌, if◌then◌else◌,
  Bool-cases, bind,
}
use landlord.Timing.Events.{
  BasicEvent, new_event, executes, aborts, deletes, EventProcessor, insert, add_event, add_events,
  Methods, run_event, run_events, update,
}
use landlord.Timing.Events.Order.{IsSorted}
use landlord.Timing.Events.Due.{due, handled, AllLater, update-due}

-- The event 1 adds itself again a second later; the others are done. The event 3 is not deletable.
abbrev repeating : Methods
repeating = record {
  execute = λ event time p_time objects.
      if event == 1 then (false, (1, time + 1000, true) ∷ [], objects) else (true, [], objects);
  abort = λ event time objects. objects;
  is_deletable = λ event. not (event == 3);
}

-- At the time 500: the events 2 and 1, then 3 and 4, of which 2 is to be aborted.
abbrev four_events : EventProcessor
four_events = record {
  time = 500;
  events = (600, 2) ∷ (600, 1) ∷ (700, 3) ∷ (900, 4) ∷ [];
  aborting = false;
  objects = λ e. if e == 2 then record new_event { to_abort = true } else new_event;
  calls = [];
}

four_events-IsSorted : IsSorted four_events.events
four_events-IsSorted = ground arith

update_runs :
    bind (update repeating 4 200 four_events) (λ p. some p.calls)
    ≡ some (aborts 2 ∷ deletes 2 ∷ executes 1 ∷ executes 3 ∷ deletes 3 ∷ [])
unfolding update run_events run_event add_events add_event insert
update_runs = refl

repeating-later :
    (event : ℕ) (objects : ℕ → BasicEvent)
    → AllLater 700 (repeating.execute event 700 200 objects).1
repeating-later event objects = elim (Bool-cases (event == 1)) [
  | inl e ↦ rw e (omega arith, tt)
  | inr e ↦ rw e tt
]

update-due_example :
    (q : EventProcessor) × (update repeating 4 200 four_events ≡ some q)
    × (q.time ≡ 700)
    × (handled q.calls ≡ 2 ∷ 1 ∷ 3 ∷ [])
    × (due 700 q.events ≡ [])
    × IsSorted q.events
update-due_example = update-due repeating 200 four_events four_events-IsSorted repeating-later
