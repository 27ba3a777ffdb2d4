-- ===== src/Timing/EventMap/Tests.antt =====
-- Runs of an EventMap.
use landlord.Prelude.{ℕ, ◌≡◌, refl, Option, none, some, List, [], ◌∷◌}
use landlord.Timing.Events.{insert}
use landlord.Timing.Events.Order.{IsSorted}
use landlord.Timing.EventMap.{
  new_event_map, event_data, schedule_event, set_phase, update_time, execute_event, next_event,
  is_blocked, id_of,
}
use landlord.Timing.EventMap.Order.{Operation, schedules, sets_phase, updates, operate, operate_all}
use landlord.Timing.EventMap.Next.{Takes, execute_event-Takes}

-- The event 7 is for phase 2 and comes first, the event 5 for all phases; the map is in phase 1.
abbrev two_events : List Operation
two_events = schedules 5 200 0 0 ∷ schedules 7 100 0 2 ∷ sets_phase 1 ∷ updates 300 ∷ []

execute_event_runs : (execute_event (operate_all two_events new_event_map)).0 ≡ 5
unfolding operate_all operate schedule_event event_data insert set_phase update_time execute_event
    next_event is_blocked id_of
execute_event_runs = refl

execute_event-Takes_example :
    let m = operate_all two_events new_event_map in
    IsSorted m.events
    × ((taken : Option ℕ) × Takes m.time m.phase m.events
          ((execute_event m).0, taken, (execute_event m).1.events)
        × ((execute_event m).1.last_event ≡ elim taken [ none ↦ m.last_event | some d ↦ d ])
        × ((execute_event m).1.time ≡ m.time))
execute_event-Takes_example = execute_event-Takes two_events
