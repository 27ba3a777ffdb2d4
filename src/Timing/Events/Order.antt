-- ===== src/Timing/Events/Order.antt =====
-- The order of the events of an EventProcessor.
use landlord.Prelude.{
  ℕ, ◌≤◌, ◌<◌, ◌≡◌, refl, sym, ap, inl, inr, Bool, false, List, [], ◌∷◌, ◌++◌, arith, ltb, ◌==◌,
  if◌then◌else◌, Bool-cases,
}
use mathlib.Core.List.{append-nil}
use landlord.Timing.Events.{EventProcessor, insert, add_event}

-- No event is planned before `t`.
abbrev pub NotBefore : ℕ → List (ℕ × ℕ) → Type 0
NotBefore t [] = Unit
NotBefore t ((k, e) ∷ rest) = (t ≤ k) × NotBefore t rest

abbrev pub IsSorted : List (ℕ × ℕ) → Type 0
IsSorted [] = Unit
IsSorted ((k, e) ∷ rest) = NotBefore k rest × IsSorted rest

-- The events that are planned for a time.
abbrev planned : ℕ → List (ℕ × ℕ) → List ℕ
planned t [] = []
planned t ((k, e) ∷ rest) = if k == t then e ∷ planned t rest else planned t rest

pub NotBefore-trans : (s t : ℕ) (l : List (ℕ × ℕ)) → s ≤ t → NotBefore t l → NotBefore s l
NotBefore-trans s t [] h n = tt
NotBefore-trans s t ((k, e) ∷ l) h n = (omega (arith, h, n.0), NotBefore-trans s t l h n.1)

insert-NotBefore :
    (s t e : ℕ) (l : List (ℕ × ℕ)) → s ≤ t → NotBefore s l → NotBefore s (insert t e l)
unfolding insert
insert-NotBefore s t e [] h n = (h, tt)
insert-NotBefore s t e ((k, f) ∷ l) h n = elim (Bool-cases (ltb t k)) [
  | inl c ↦ rw c (h, n)
  | inr c ↦ rw c (n.0, insert-NotBefore s t e l h n.1)
]

pub insert-IsSorted : (t e : ℕ) (l : List (ℕ × ℕ)) → IsSorted l → IsSorted (insert t e l)
unfolding insert
insert-IsSorted t e [] h = (tt, tt)
insert-IsSorted t e ((k, f) ∷ l) h = elim (Bool-cases (ltb t k)) [
  | inl c ↦ let early : t ≤ k = ground arith in rw c ((early, NotBefore-trans t k l early h.0), h)
  | inr c ↦
      let late : k ≤ t = ground arith in
      rw c (insert-NotBefore k t e l late h.0, insert-IsSorted t e l h.1)
]

-- Nothing is planned for a time before all events.
planned-early : (s t : ℕ) (l : List (ℕ × ℕ)) → s < t → NotBefore t l → planned s l ≡ []
planned-early s t [] h n = refl
planned-early s t ((k, e) ∷ l) h n =
    let other : (k == s) ≡ false = ground (arith, h, n.0) in rw other (planned-early s t l h n.1)

insert-planned :
    (s t e : ℕ) (l : List (ℕ × ℕ))
    → IsSorted l
    → planned s (insert t e l) ≡ planned s l ++ (if t == s then e ∷ [] else [])
unfolding insert
insert-planned s t e [] h = refl
insert-planned s t e ((k, f) ∷ l) h = elim (Bool-cases (ltb t k)) [
  | inl c ↦ elim (Bool-cases (t == s)) [
    | inl same ↦
        let early : s < k = ground arith in
        let none_there : planned s ((k, f) ∷ l) ≡ [] =
          planned-early s k ((k, f) ∷ l) early (omega arith, h.0) in
        rw (c, same, none_there) refl
    | inr other ↦ rw (c, other) (sym (append-nil (planned s ((k, f) ∷ l))))
  ]
  | inr c ↦ elim (Bool-cases (k == s)) [
    | inl same ↦ rw (c, same) (ap (◌∷◌ f) (insert-planned s t e l h.1))
    | inr other ↦ rw (c, other) (insert-planned s t e l h.1)
  ]
]

-- AddEvent keeps the events in the order of their times, and puts the new event behind those of the
-- same time: seen as a map from each time to its events in the order in which they were added, the
-- list gets the event at the end of the entry of its time, and no other entry changes.
add_event-planned :
    (event e_time : ℕ) (set_addtime : Bool) (p : EventProcessor)
    → IsSorted p.events
    → IsSorted (add_event event e_time set_addtime p).events
      × ((t : ℕ)
          → planned t (add_event event e_time set_addtime p).events
            ≡ planned t p.events ++ (if e_time == t then event ∷ [] else []))
unfolding add_event
add_event-planned event e_time set_addtime p h =
    (insert-IsSorted e_time event p.events h, λ t. insert-planned t e_time event p.events h)
