-- ===== src/Timing/EventMap.antt =====
-- class EventMap (server/shared/Utilities/Util.h and Util.cpp).
pub mod Order
pub mod Next
pub mod Tests
use Prim.Native.Nat.{bit_and, bit_or}
use landlord.Prelude.{
  ℕ, zero, suc, ◌+◌, ◌-◌, ◌*◌, ◌/◌, ◌%◌, ◌^◌, ◌≤◌, ◌<◌, min, ◌≡◌, refl, sym, ap, ◌∙◌, ◌≢◌, ◌↔◌, ◌⊎◌,
  inl, inr, Bool, true, false, not, ◌&&◌, ◌||◌, Option, none, some, List, [], ◌∷◌, ◌++◌, map, arith,
  ltb, leb, ◌==◌, if◌then◌else◌, ==_iff, Bool-cases, Option-cases, bind, length, get_elem?, set,
  take, drop, replicate, length-append, length-set, take-append-drop, length-take, length-drop,
  length-replicate, get_elem?_total, get_elem?-set_self, get_elem?-set_ne, one_if_eq, count,
  count-append, count-set, u32_mod, add32, sub32, minus_one, is_negative, is_positive, signed_key,
  max32,
}
use landlord.Timing.Events.{insert}

-- `events` is the multimap from times to data, in its order.
pub record EventMap : Type 0 where
  pub time : ℕ
  pub phase : ℕ
  pub events : List (ℕ × ℕ)
  pub last_event : ℕ

-- EventMap::EventMap
abbrev pub new_event_map : EventMap
new_event_map = record { time = 0; phase = 0; events = []; last_event = 0 }

-- EventMap::Reset
abbrev pub reset : EventMap → EventMap
reset m = record m { events = []; time = 0; phase = 0 }

-- EventMap::Update
pub update_time : ℕ → EventMap → EventMap
update_time time m = record m { time = add32 m.time time }

-- EventMap::Empty
abbrev pub is_empty : EventMap → Bool
is_empty m = elim m.events [ [] ↦ true | _ ∷ _ ↦ false ]

-- EventMap::SetPhase, AddPhase and RemovePhase
pub set_phase : ℕ → EventMap → EventMap
set_phase phase m =
    if phase == 0
    then record m { phase = 0 }
    else if leb phase 8
    then record m { phase = 2 ^ (phase - 1) }
    else m

abbrev is_phase : ℕ → Bool
is_phase phase = not (phase == 0) && leb phase 8

pub add_phase : ℕ → EventMap → EventMap
add_phase phase m =
    if is_phase phase then record m { phase = bit_or m.phase (2 ^ (phase - 1)) } else m

pub remove_phase : ℕ → EventMap → EventMap
remove_phase phase m =
    if is_phase phase then record m { phase = bit_and m.phase (255 - 2 ^ (phase - 1)) } else m

-- EventMap::IsInPhase
is_in_phase : ℕ → EventMap → Bool
is_in_phase phase m = leb phase 8 && (phase == 0 || not (bit_and m.phase (2 ^ (phase - 1)) == 0))

-- The data of an event: its id, and the bits of its group and its phase.
pub event_data : ℕ → ℕ → ℕ → ℕ
event_data event_id group phase =
    let with_group = if is_phase group then bit_or event_id (2 ^ (group + 15)) else event_id in
    if is_phase phase then bit_or with_group (2 ^ (phase + 23)) else with_group

-- EventMap::ScheduleEvent
pub schedule_event : ℕ → ℕ → ℕ → ℕ → EventMap → EventMap
unfolding event_data
schedule_event event_id time group phase m = record m {
  events = insert (add32 m.time time) (event_data event_id group phase) m.events;
}

-- `data & 0x0000FFFF`
pub id_of : ℕ → ℕ
id_of value = bit_and value 0xFFFF

-- The loops of CancelEvent and CancelEventGroup: what `gone` does not name stays.
pub erase : (ℕ → Bool) → List (ℕ × ℕ) → List (ℕ × ℕ)
erase gone [] = []
erase gone ((k, d) ∷ rest) = if gone d then erase gone rest else (k, d) ∷ erase gone rest

-- EventMap::CancelEvent
pub cancel_event : ℕ → EventMap → EventMap
unfolding erase id_of
cancel_event event_id m = record m { events = erase (λ d. event_id == id_of d) m.events }

pub in_group : ℕ → ℕ → Bool
in_group group value = not (bit_and value (2 ^ (group + 15)) == 0)

-- EventMap::CancelEventGroup
pub cancel_event_group : ℕ → EventMap → EventMap
unfolding erase in_group
cancel_event_group group m =
    if is_phase group then record m { events = erase (in_group group) m.events } else m

-- EventMap::RescheduleEvent
pub reschedule_event : ℕ → ℕ → ℕ → ℕ → EventMap → EventMap
unfolding cancel_event schedule_event
reschedule_event event_id time group phase m =
    schedule_event event_id time group phase (cancel_event event_id m)

-- EventMap::Repeat
pub repeat : ℕ → EventMap → EventMap
repeat time m = record m { events = insert (add32 m.time time) m.last_event m.events }

-- The event is planned for other phases than those of the map.
pub is_blocked : ℕ → ℕ → Bool
is_blocked phase value =
    not (phase == 0) && not (bit_and value 0xFF000000 == 0) && bit_and (value / 2 ^ 24) phase == 0

-- The loop of EventMap::ExecuteEvent over the events: what it returns, the data of the event that is
-- executed, and the events left.
pub next_event : ℕ → ℕ → List (ℕ × ℕ) → ℕ × Option ℕ × List (ℕ × ℕ)
unfolding is_blocked id_of
next_event time phase [] = (0, none, [])
next_event time phase ((k, d) ∷ rest) = elim (ltb time k) [
  | true ↦ (0, none, (k, d) ∷ rest)
  | false ↦ elim (is_blocked phase d) [
    | true ↦ next_event time phase rest
    | false ↦ (id_of d, some d, rest)
  ]
]

-- EventMap::ExecuteEvent
pub execute_event : EventMap → ℕ × EventMap
unfolding next_event
execute_event m =
    let (event_id, value, events) = next_event m.time m.phase m.events in
    (
      event_id,
      record m { events = events; last_event = elim value [ none ↦ m.last_event | some d ↦ d ] },
    )

-- EventMap::DelayEvents
pub delay_events : ℕ → EventMap → EventMap
delay_events delay m = record m { time = if ltb delay m.time then m.time - delay else 0 }

-- The loop of DelayEvents for a group, and the insertion of the events that were taken out.
abbrev pub insert_all : List (ℕ × ℕ) → List (ℕ × ℕ) → List (ℕ × ℕ)
insert_all [] events = events
insert_all ((k, d) ∷ delayed) events = insert_all delayed (insert k d events)

abbrev pub take_delayed : ℕ → (ℕ → Bool) → List (ℕ × ℕ) → List (ℕ × ℕ) → List (ℕ × ℕ)
take_delayed delay group [] delayed = delayed
take_delayed delay group ((k, d) ∷ rest) delayed =
    take_delayed delay group rest (if group d then insert (add32 k delay) d delayed else delayed)

pub delay_group : ℕ → ℕ → EventMap → EventMap
unfolding erase in_group
delay_group delay group m =
    if is_phase group
    then record m {
      events =
          insert_all (take_delayed delay (in_group group) m.events [])
            (erase (in_group group) m.events);
    }
    else m

-- EventMap::GetNextEventTime of an event, and of all; 0 if there is none.
event_time : ℕ → List (ℕ × ℕ) → Option ℕ
unfolding id_of
event_time event_id [] = none
event_time event_id ((k, d) ∷ rest) =
    if event_id == id_of d then some k else event_time event_id rest

get_next_event_time : ℕ → EventMap → ℕ
unfolding event_time
get_next_event_time event_id m = elim (event_time event_id m.events) [ none ↦ 0 | some k ↦ k ]

abbrev get_first_event_time : EventMap → ℕ
get_first_event_time m = elim m.events [ [] ↦ 0 | x ∷ rest ↦ x.0 ]

-- EventMap::GetTimeUntilEvent
get_time_until_event : ℕ → EventMap → ℕ
unfolding event_time
get_time_until_event event_id m = elim (event_time event_id m.events) [
  | none ↦ 2 ^ 32 - 1
  | some k ↦ sub32 k m.time
]
