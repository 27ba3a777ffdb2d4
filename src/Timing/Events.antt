-- ===== src/Timing/Events.antt =====
-- class EventProcessor and BasicEvent (server/shared/Utilities/EventProcessor.h and .cpp).
pub mod Order
pub mod Due
pub mod Abort
pub mod Tests
use landlord.Prelude.{
  ℕ, zero, suc, ◌+◌, ◌-◌, ◌*◌, ◌/◌, ◌%◌, ◌^◌, ◌≤◌, ◌<◌, min, ◌≡◌, refl, sym, ap, ◌∙◌, ◌≢◌, ◌↔◌, ◌⊎◌,
  inl, inr, Bool, true, false, not, ◌&&◌, ◌||◌, Option, none, some, List, [], ◌∷◌, ◌++◌, map, arith,
  ltb, leb, ◌==◌, if◌then◌else◌, ==_iff, Bool-cases, Option-cases, bind, length, get_elem?, set,
  take, drop, replicate, length-append, length-set, take-append-drop, length-take, length-drop,
  length-replicate, get_elem?_total, get_elem?-set_self, get_elem?-set_ne, one_if_eq, count,
  count-append, count-set, u32_mod, add32, sub32, minus_one, is_negative, is_positive, signed_key,
  max32,
}

-- The fields of a BasicEvent.
pub record BasicEvent : Type 0 where
  pub to_abort : Bool
  pub add_time : ℕ
  pub exec_time : ℕ

-- BasicEvent::BasicEvent
abbrev pub new_event : BasicEvent
new_event = record { to_abort = false; add_time = 0; exec_time = 0 }

-- What the processor does with an event, by the number of the object.
pub data Call : Type 0 where
  executes aborts deletes : ℕ → Call

-- EventProcessor with the events that it can reach. `events` is the multimap, in its order; `calls`
-- is what was done so far, the oldest first.
pub record EventProcessor : Type 0 where
  pub time : ℕ
  pub events : List (ℕ × ℕ)
  pub aborting : Bool
  pub objects : ℕ → BasicEvent
  pub calls : List Call

-- EventProcessor::EventProcessor
abbrev new_processor : (ℕ → BasicEvent) → EventProcessor
new_processor objects = record {
  time = 0;
  events = [];
  aborting = false;
  objects = objects;
  calls = [];
}

-- `m_events.insert`: behind all that have the same time.
unfoldable pub insert : ℕ → ℕ → List (ℕ × ℕ) → List (ℕ × ℕ)
insert e_time event [] = (e_time, event) ∷ []
insert e_time event ((k, e) ∷ rest) =
    if ltb e_time k then (e_time, event) ∷ (k, e) ∷ rest else (k, e) ∷ insert e_time event rest

abbrev pub change : ℕ → (BasicEvent → BasicEvent) → (ℕ → BasicEvent) → ℕ → BasicEvent
change event f objects = λ e. if e == event then f (objects e) else objects e

-- EventProcessor::AddEvent
pub add_event : ℕ → ℕ → Bool → EventProcessor → EventProcessor
unfolding insert
add_event event e_time set_addtime p = record p {
  objects =
      change event
        (λ b. record b {
          add_time = if set_addtime then p.time else b.add_time;
          exec_time = e_time;
        })
        p.objects;
  events = insert e_time event p.events;
}

-- EventProcessor::CalculateTime
abbrev calculate_time : ℕ → EventProcessor → ℕ
calculate_time t_offset p = (p.time + t_offset) % 2 ^ 64

abbrev pub log : Call → EventProcessor → EventProcessor
log call p = record p { calls = p.calls ++ (call ∷ []) }

-- The calls of AddEvent that an event makes: the event, its time, and whether to set the time.
pub add_events : List (ℕ × ℕ × Bool) → EventProcessor → EventProcessor
unfolding add_event
add_events [] p = p
add_events ((event, e_time, set_addtime) ∷ adds) p =
    add_events adds (add_event event e_time set_addtime p)

-- The events are classes of their own. `execute` of an event, of m_time and of p_time says what it
-- returns, which events it adds and how it leaves the objects; `abort` changes objects only.
pub record Methods : Type 0 where
  pub execute : ℕ → ℕ → ℕ → (ℕ → BasicEvent) → Bool × List (ℕ × ℕ × Bool) × (ℕ → BasicEvent)
  pub abort : ℕ → ℕ → (ℕ → BasicEvent) → ℕ → BasicEvent
  pub is_deletable : ℕ → Bool

module _ (methods : Methods) where
  open methods use {execute, abort, is_deletable}

  -- What the loop does with the event that it took.
  pub run_event : ℕ → ℕ → EventProcessor → EventProcessor
  unfolding add_events
  run_event p_time event p = elim (p.objects event).to_abort [
    | false ↦
        let (finished, adds, objects) = execute event p.time p_time p.objects in
        let p' = add_events adds (record (log (executes event) p) { objects = objects }) in
        if finished then log (deletes event) p' else p'
    | true ↦
        log (deletes event)
          (record (log (aborts event) p) { objects = abort event p.time p.objects })
  ]

  -- The main event loop; `none` when the fuel is used up.
  pub run_events : ℕ → ℕ → EventProcessor → Option EventProcessor
  unfolding run_event
  run_events zero p_time p = none
  run_events (suc n) p_time p = elim p.events [
    | [] ↦ some p
    | (k, event) ∷ rest ↦ elim (leb k p.time) [
      | false ↦ some p
      | true ↦ run_events n p_time (run_event p_time event (record p { events = rest }))
    ]
  ]

  -- EventProcessor::Update
  pub update : ℕ → ℕ → EventProcessor → Option EventProcessor
  unfolding run_events
  update fuel p_time p = run_events fuel p_time (record p { time = (p.time + p_time) % 2 ^ 64 })

  -- The loop of KillAllEvents: what is left of the list, and the processor.
  pub kill_events : Bool → List (ℕ × ℕ) → EventProcessor → List (ℕ × ℕ) × EventProcessor
  kill_events force [] p = ([], p)
  kill_events force ((k, event) ∷ rest) p =
      let marked = change event (λ b. record b { to_abort = true }) p.objects in
      let p' = record (log (aborts event) p) { objects = abort event p.time marked } in
      let gone = force || is_deletable event in
      let (left, p'') = kill_events force rest (if gone then log (deletes event) p' else p') in
      (if gone && not force then left else (k, event) ∷ left, p'')

  -- EventProcessor::KillAllEvents
  pub kill_all_events : Bool → EventProcessor → EventProcessor
  unfolding kill_events
  kill_all_events force p =
      let (left, p') = kill_events force p.events (record p { aborting = true }) in
      record p' { events = if force then [] else left }
