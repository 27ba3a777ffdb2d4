-- ===== src/Timing/EventMap/Next.antt =====
-- Which event EventMap::ExecuteEvent takes.
use landlord.Prelude.{
  ℕ, ◌+◌, ◌≤◌, ◌≡◌, refl, ap, ◌⊎◌, inl, inr, true, false, Option, none, some, List, [], ◌∷◌, ◌++◌,
  arith, ltb, Bool-cases,
}
use landlord.Timing.Events.Order.{NotBefore, IsSorted, NotBefore-trans}
use landlord.Timing.EventMap.Order.{Operation, operate_all, event_map-IsSorted}
use landlord.Timing.EventMap.{new_event_map, is_blocked, id_of, next_event, execute_event}

-- All these events are due, and planned for other phases.
abbrev AllBlocked : ℕ → ℕ → List (ℕ × ℕ) → Type 0
AllBlocked time phase [] = Unit
AllBlocked time phase ((k, d) ∷ rest) =
    (k ≤ time) × (is_blocked phase d ≡ true) × AllBlocked time phase rest

-- An event is taken, or none is due any more.
abbrev pub Takes : ℕ → ℕ → List (ℕ × ℕ) → ℕ × Option ℕ × List (ℕ × ℕ) → Type 0
Takes time phase events (id, taken, left) =
    ((front : List (ℕ × ℕ)) × (k : ℕ) × (d : ℕ) × (events ≡ front ++ ((k, d) ∷ left))
      × AllBlocked time phase front
      × (k ≤ time)
      × (is_blocked phase d ≡ false)
      × (id ≡ id_of d)
      × (taken ≡ some d))
    ⊎ ((front : List (ℕ × ℕ)) × (events ≡ front ++ left)
        × AllBlocked time phase front
        × NotBefore (time + 1) left
        × (id ≡ 0)
        × (taken ≡ none))

next_event-Takes :
    (time phase : ℕ) (events : List (ℕ × ℕ))
    → IsSorted events
    → Takes time phase events (next_event time phase events)
unfolding next_event
next_event-Takes time phase [] s = inr ([], refl, tt, tt, refl, refl)
next_event-Takes time phase ((k, d) ∷ rest) s = elim (Bool-cases (ltb time k)) [
  | inl late ↦
      let after : time + 1 ≤ k = ground arith in
      rw (next_event, late)
        (inr ([], refl, tt, (after, NotBefore-trans (time + 1) k rest after s.0), refl, refl))
  | inr due ↦
      let early : k ≤ time = ground arith in
      elim (Bool-cases (is_blocked phase d)) [
        | inl b ↦
            rw (next_event, due, b)
              (elim (next_event-Takes time phase rest s.1) [
                | inl (front, j, e, same, blocked, j_due, open_phase, id, taken) ↦ inl (
                  (k, d) ∷ front,
                  j,
                  e,
                  ap (◌∷◌ (k, d)) same,
                  (early, b, blocked),
                  j_due,
                  open_phase,
                  id,
                  taken,
                )
                | inr (front, same, blocked, later, id, taken) ↦
                    inr
                      ((k, d) ∷ front, ap (◌∷◌ (k, d)) same, (early, b, blocked), later, id, taken)
              ])
        | inr b ↦ rw (next_event, due, b) (inl ([], k, d, refl, tt, early, b, refl, refl))
      ]
]

-- Whatever was done with an EventMap, ExecuteEvent takes the first event in the order of their times
-- that is due and not planned for other phases, remembers its data and returns its id; the due events
-- in front of it are dropped, and those behind it stay. If there is none it returns 0, drops the due
-- events, and those left are planned for later.
pub execute_event-Takes :
    (os : List Operation)
    → let m = operate_all os new_event_map in
      IsSorted m.events
      × ((taken : Option ℕ) × Takes m.time m.phase m.events
            ((execute_event m).0, taken, (execute_event m).1.events)
          × ((execute_event m).1.last_event ≡ elim taken [ none ↦ m.last_event | some d ↦ d ])
          × ((execute_event m).1.time ≡ m.time))
unfolding execute_event
execute_event-Takes os =
    let m = operate_all os new_event_map in
    let s = event_map-IsSorted os in
    (
      s,
      (
        (next_event m.time m.phase m.events).1,
        next_event-Takes m.time m.phase m.events s,
        refl,
        refl,
      ),
    )
