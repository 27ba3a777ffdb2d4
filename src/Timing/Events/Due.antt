-- ===== src/Timing/Events/Due.antt =====
-- Which events EventProcessor::Update handles, and that it returns.
use landlord.Prelude.{
  ℕ, zero, suc, ◌+◌, ◌%◌, ◌^◌, ◌<◌, ◌≡◌, refl, sym, ap, ◌∙◌, ◌⊎◌, inl, inr, Bool, some, List, [],
  ◌∷◌, ◌++◌, arith, ltb, leb, if◌then◌else◌, Bool-cases, length,
}
use mathlib.Core.Path.{subst}
use mathlib.Core.List.{append_assoc, append-nil}
use landlord.Timing.Events.{
  BasicEvent, Call, executes, aborts, deletes, EventProcessor, insert, add_event, add_events, log,
  Methods, run_event, run_events, update,
}
use landlord.Timing.Events.Order.{IsSorted, insert-IsSorted}

-- The events whose time has come, in their order.
abbrev pub due : ℕ → List (ℕ × ℕ) → List ℕ
due t [] = []
due t ((k, e) ∷ rest) = if leb k t then e ∷ due t rest else []

-- The events that were executed or aborted.
abbrev pub handled : List Call → List ℕ
handled [] = []
handled (executes e ∷ calls) = e ∷ handled calls
handled (aborts e ∷ calls) = e ∷ handled calls
handled (deletes e ∷ calls) = handled calls

List-cases :
    (l : List (ℕ × ℕ))
    → (l ≡ []) ⊎ ((k : ℕ) × (event : ℕ) × (rest : List (ℕ × ℕ)) × (l ≡ (k, event) ∷ rest))
List-cases [] = inl refl
List-cases ((k, event) ∷ rest) = inr (k, event, rest, refl)

-- All events that are added are planned for later than `t`.
abbrev pub AllLater : ℕ → List (ℕ × ℕ × Bool) → Type 0
AllLater t [] = Unit
AllLater t ((e, k, b) ∷ adds) = (t < k) × AllLater t adds

insert-due : (t k e : ℕ) (l : List (ℕ × ℕ)) → t < k → due t (insert k e l) ≡ due t l
unfolding insert
insert-due t k e [] h = ground arith
insert-due t k e ((j, f) ∷ l) h = elim (Bool-cases (ltb k j)) [
  | inl c ↦ ground arith
  | inr c ↦ rw c (ap (λ r. if leb j t then f ∷ r else []) (insert-due t k e l h))
]

handled-append : (a b : List Call) → handled (a ++ b) ≡ handled a ++ handled b
handled-append [] b = refl
handled-append (executes e ∷ a) b = ap (◌∷◌ e) (handled-append a b)
handled-append (aborts e ∷ a) b = ap (◌∷◌ e) (handled-append a b)
handled-append (deletes e ∷ a) b = handled-append a b

-- Two processors at the same time with the same events due.
record IsLater (q p : EventProcessor) : Type 0 where
  same_time : q.time ≡ p.time
  same_due : due p.time q.events ≡ due p.time p.events
  same_calls : q.calls ≡ p.calls
  sorted : IsSorted q.events

add_events-IsLater :
    (adds : List (ℕ × ℕ × Bool)) (p : EventProcessor)
    → AllLater p.time adds
    → IsSorted p.events
    → IsLater (add_events adds p) p
unfolding add_events add_event
add_events-IsLater [] p h s = record {
  same_time = refl;
  same_due = refl;
  same_calls = refl;
  sorted = s;
}
add_events-IsLater ((e, k, b) ∷ adds) p h s =
    let r = add_events-IsLater adds (add_event e k b p) h.1 (insert-IsSorted k e p.events s) in
    record {
      same_time = r.same_time;
      same_due = r.same_due ∙ insert-due p.time k e p.events h.0;
      same_calls = r.same_calls;
      sorted = r.sorted;
    }

-- The event that is handled first and those that are handled after it.
joined :
    (calls calls' : List Call) (event now : ℕ) (events events' rest : List (ℕ × ℕ))
    → handled calls' ≡ handled calls ++ (event ∷ [])
    → due now events' ≡ due now rest
    → due now events ≡ event ∷ due now rest
    → handled calls' ++ due now events' ≡ handled calls ++ due now events
joined calls calls' event now events events' rest c d first =
    rw (c, d, first) (append_assoc (handled calls) (event ∷ []) (due now rest))

module _ (methods : Methods) where
  open methods use {execute}

  -- One event is handled, and the others that are due stay due.
  run_event-due :
      (p_time event : ℕ) (p : EventProcessor)
      → IsSorted p.events
      → AllLater p.time (execute event p.time p_time p.objects).1
      → let q = run_event methods p_time event p in
        (q.time ≡ p.time)
        × (due p.time q.events ≡ due p.time p.events)
        × (handled q.calls ≡ handled p.calls ++ (event ∷ []))
        × IsSorted q.events
  unfolding run_event
  run_event-due p_time event p s later = elim (Bool-cases (p.objects event).to_abort) [
    | inl gone ↦
        rw (run_event, gone)
          (
            refl,
            refl,
            handled-append (p.calls ++ (aborts event ∷ [])) (deletes event ∷ [])
                ∙ append-nil (handled (p.calls ++ (aborts event ∷ [])))
                ∙ handled-append p.calls (aborts event ∷ []),
            s,
          )
    | inr there ↦
        let (finished, adds, objects) = execute event p.time p_time p.objects in
        let r =
          add_events-IsLater adds (record (log (executes event) p) { objects = objects }) later s in
        let once = ap handled r.same_calls ∙ handled-append p.calls (executes event ∷ []) in
        elim (Bool-cases finished) [
          | inl f ↦
              rw (run_event, there, f)
                (
                  r.same_time,
                  r.same_due,
                  handled-append
                        (add_events adds
                          (record (log (executes event) p) { objects = objects })).calls
                        (deletes event ∷ [])
                      ∙ append-nil _
                      ∙ once,
                  r.sorted,
                )
          | inr f ↦ rw (run_event, there, f) (r.same_time, r.same_due, once, r.sorted)
        ]
  ]

  -- What the loop leaves.
  abbrev Handles : ℕ → EventProcessor → EventProcessor → Type 0
  Handles now p q =
      (q.time ≡ now)
      × (handled q.calls ≡ handled p.calls ++ due now p.events)
      × (due now q.events ≡ [])
      × IsSorted q.events

  run_events-due :
      (n p_time now : ℕ) (p : EventProcessor)
      → p.time ≡ now
      → IsSorted p.events
      → ((event : ℕ) (objects : ℕ → BasicEvent) → AllLater now (execute event now p_time objects).1)
      → length (due now p.events) < n
      → (q : EventProcessor) × (run_events methods n p_time p ≡ some q) × Handles now p q
  unfolding run_events
  run_events-due zero p_time now p t s later h = absurd (omega arith)
  run_events-due (suc n) p_time now p t s later h = elim (List-cases p.events) [
    | inl none_there ↦ (
      p,
      simp (run_events, none_there),
      (t, rw none_there (sym (append-nil (handled p.calls))), rw none_there refl, s),
    )
    | inr (k, event, rest, more) ↦ elim (Bool-cases (leb k now)) [
      | inl early ↦
          let tail : IsSorted ((k, event) ∷ rest) = subst IsSorted more s in
          let p1 : EventProcessor = run_event methods p_time event (record p { events = rest }) in
          let soon : AllLater p.time (execute event p.time p_time p.objects).1 =
            rw t (later event p.objects) in
          let (t1, d1, c1, s1) =
            run_event-due p_time event (record p { events = rest }) tail.1 soon in
          let d2 : due now p1.events ≡ due now rest =
            subst (λ x. due x p1.events ≡ due x rest) t d1 in
          let first : due now p.events ≡ event ∷ due now rest = rw (more, early) refl in
          let (q, e, (t2, c2, d3, s2)) =
            run_events-due n p_time now p1 (t1 ∙ t) s1 later
              (omega (arith, h, ap length d2, ap length first)) in
          (
            q,
            rw (run_events, more, t, early) e,
            (
              t2,
              c2 ∙ joined p.calls p1.calls event now p.events p1.events rest c1 d2 first,
              d3,
              s2,
            ),
          )
      | inr late ↦ (
        p,
        simp (run_events, more, t, late),
        (t, rw (more, late) (sym (append-nil (handled p.calls))), rw (more, late) refl, s),
      )
    ]
  ]

-- EventProcessor::Update returns, and executes or aborts exactly the events whose time has come, each
-- once and in the order of the list. Those that it leaves are in order, and none of them is due. An
-- event may add others, but only for later than the time of the update.
pub update-due :
    (methods : Methods) (p_time : ℕ) (p : EventProcessor)
    → IsSorted p.events
    → ((event : ℕ) (objects : ℕ → BasicEvent)
        → AllLater
            ((p.time + p_time) % 2 ^ 64)
            (methods.execute event ((p.time + p_time) % 2 ^ 64) p_time objects).1)
    → let now = (p.time + p_time) % 2 ^ 64 in
      (q : EventProcessor) × (update methods (suc (length (due now p.events))) p_time p ≡ some q)
      × (q.time ≡ now)
      × (handled q.calls ≡ handled p.calls ++ due now p.events)
      × (due now q.events ≡ [])
      × IsSorted q.events
unfolding update
update-due methods p_time p s later =
    let now = (p.time + p_time) % 2 ^ 64 in
    let (q, e, (t, c, d, o)) =
      run_events-due methods (suc (length (due now p.events))) p_time now (record p { time = now })
        refl s later (omega arith) in
    (q, e, t, c, d, o)
