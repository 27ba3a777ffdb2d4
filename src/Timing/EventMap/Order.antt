-- ===== src/Timing/EventMap/Order.antt =====
-- The order of the events of an EventMap.
use landlord.Prelude.{
  ℕ, ◌-◌, ◌^◌, inl, inr, Bool, true, false, List, [], ◌∷◌, ltb, leb, ◌==◌, if◌then◌else◌,
  Bool-cases, add32,
}
use landlord.Timing.Events.{insert}
use landlord.Timing.Events.Order.{NotBefore, IsSorted, insert-IsSorted}
use landlord.Timing.EventMap.{
  EventMap, new_event_map, reset, update_time, set_phase, add_phase, remove_phase, schedule_event,
  reschedule_event, repeat, is_blocked, next_event, execute_event, delay_events, insert_all,
  take_delayed, delay_group, erase, in_group, id_of, cancel_event, cancel_event_group,
}

-- The operations that change an EventMap.
pub data Operation : Type 0 where
  resets executes : Operation
  updates delays repeats cancels cancels_group : ℕ → Operation
  sets_phase adds_phase removes_phase : ℕ → Operation
  delays_group : ℕ → ℕ → Operation
  schedules reschedules : ℕ → ℕ → ℕ → ℕ → Operation

-- What an operation leaves.
unfoldable pub operate : Operation → EventMap → EventMap
operate resets m = reset m
operate executes m = (execute_event m).1
operate (updates time) m = update_time time m
operate (delays delay) m = delay_events delay m
operate (repeats time) m = repeat time m
operate (cancels event_id) m = cancel_event event_id m
operate (cancels_group group) m = cancel_event_group group m
operate (sets_phase phase) m = set_phase phase m
operate (adds_phase phase) m = add_phase phase m
operate (removes_phase phase) m = remove_phase phase m
operate (delays_group delay group) m = delay_group delay group m
operate (schedules event_id time group phase) m = schedule_event event_id time group phase m
operate (reschedules event_id time group phase) m = reschedule_event event_id time group phase m

unfoldable pub operate_all : List Operation → EventMap → EventMap
unfolding operate
operate_all [] m = m
operate_all (o ∷ os) m = operate_all os (operate o m)

erase-NotBefore :
    (t : ℕ) (gone : ℕ → Bool) (l : List (ℕ × ℕ)) → NotBefore t l → NotBefore t (erase gone l)
unfolding erase
erase-NotBefore t gone [] h = tt
erase-NotBefore t gone ((k, d) ∷ l) h = elim (Bool-cases (gone d)) [
  | inl e ↦ rw e (erase-NotBefore t gone l h.1)
  | inr e ↦ rw e (h.0, erase-NotBefore t gone l h.1)
]

erase-IsSorted : (gone : ℕ → Bool) (l : List (ℕ × ℕ)) → IsSorted l → IsSorted (erase gone l)
unfolding erase
erase-IsSorted gone [] h = tt
erase-IsSorted gone ((k, d) ∷ l) h = elim (Bool-cases (gone d)) [
  | inl e ↦ rw e (erase-IsSorted gone l h.1)
  | inr e ↦ rw e (erase-NotBefore k gone l h.0, erase-IsSorted gone l h.1)
]

insert_all-IsSorted : (d l : List (ℕ × ℕ)) → IsSorted l → IsSorted (insert_all d l)
insert_all-IsSorted [] l h = h
insert_all-IsSorted ((k, e) ∷ d) l h =
    insert_all-IsSorted d (insert k e l) (insert-IsSorted k e l h)

next_event-IsSorted :
    (time phase : ℕ) (l : List (ℕ × ℕ)) → IsSorted l → IsSorted (next_event time phase l).2
unfolding next_event
next_event-IsSorted time phase [] h = tt
next_event-IsSorted time phase ((k, d) ∷ l) h = elim (Bool-cases (ltb time k)) [
  | inl e ↦ rw (next_event, e) h
  | inr e ↦ elim (Bool-cases (is_blocked phase d)) [
    | inl b ↦ rw (next_event, e, b) (next_event-IsSorted time phase l h.1)
    | inr b ↦ rw (next_event, e, b) h.1
  ]
]

if-IsSorted :
    (b : Bool) (m n : EventMap)
    → IsSorted m.events
    → IsSorted n.events
    → IsSorted (if b then m else n).events
if-IsSorted true m n h k = h
if-IsSorted false m n h k = k

operate-IsSorted :
    (o : Operation) (m : EventMap) → IsSorted m.events → IsSorted (operate o m).events
unfolding operate execute_event update_time delay_events repeat cancel_event cancel_event_group
    set_phase add_phase remove_phase delay_group schedule_event reschedule_event
operate-IsSorted resets m h = tt
operate-IsSorted executes m h = next_event-IsSorted m.time m.phase m.events h
operate-IsSorted (updates time) m h = h
operate-IsSorted (delays delay) m h = h
operate-IsSorted (repeats time) m h = insert-IsSorted (add32 m.time time) m.last_event m.events h
operate-IsSorted (cancels event_id) m h = erase-IsSorted (λ d. event_id == id_of d) m.events h
operate-IsSorted (cancels_group group) m h =
    if-IsSorted _ _ m (erase-IsSorted (in_group group) m.events h) h
operate-IsSorted (sets_phase phase) m h =
    if-IsSorted (phase == 0) (record m { phase = 0 })
      (if leb phase 8 then record m { phase = 2 ^ (phase - 1) } else m) h
      (if-IsSorted (leb phase 8) (record m { phase = 2 ^ (phase - 1) }) m h h)
operate-IsSorted (adds_phase phase) m h = if-IsSorted _ _ m h h
operate-IsSorted (removes_phase phase) m h = if-IsSorted _ _ m h h
operate-IsSorted (delays_group delay group) m h =
    if-IsSorted _ _ m
      (insert_all-IsSorted (take_delayed delay (in_group group) m.events [])
        (erase (in_group group) m.events) (erase-IsSorted (in_group group) m.events h))
      h
operate-IsSorted (schedules event_id time group phase) m h =
    insert-IsSorted (add32 m.time time) _ m.events h
operate-IsSorted (reschedules event_id time group phase) m h =
    insert-IsSorted (add32 m.time time) _ (erase (λ d. event_id == id_of d) m.events)
      (erase-IsSorted (λ d. event_id == id_of d) m.events h)

operate_all-IsSorted :
    (os : List Operation) (m : EventMap) → IsSorted m.events → IsSorted (operate_all os m).events
unfolding operate_all
operate_all-IsSorted [] m h = h
operate_all-IsSorted (o ∷ os) m h = operate_all-IsSorted os (operate o m) (operate-IsSorted o m h)

-- Whatever is done with a new EventMap, its events are in the order of their times.
pub event_map-IsSorted : (os : List Operation) → IsSorted (operate_all os new_event_map).events
event_map-IsSorted os = operate_all-IsSorted os new_event_map tt
