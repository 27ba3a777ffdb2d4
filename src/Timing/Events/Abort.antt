-- ===== src/Timing/Events/Abort.antt =====
-- What EventProcessor::KillAllEvents leaves.
use landlord.Prelude.{
  ℕ, ◌≡◌, refl, sym, ap, ◌∙◌, inl, inr, Bool, true, false, ◌||◌, List, [], ◌∷◌, ◌++◌, if◌then◌else◌,
  Bool-cases,
}
use mathlib.Core.List.{append_assoc, append-nil}
use landlord.Timing.Events.{
  Call, aborts, deletes, EventProcessor, change, log, Methods, kill_events, kill_all_events,
}

-- The calls that an event gets.
abbrev end_calls : Bool → ℕ → List Call
end_calls gone event = if gone then aborts event ∷ deletes event ∷ [] else aborts event ∷ []

-- The calls that all events get, and those that are not deleted.
abbrev all_calls : (ℕ → Bool) → List (ℕ × ℕ) → List Call
all_calls gone [] = []
all_calls gone ((k, e) ∷ rest) = end_calls (gone e) e ++ all_calls gone rest

abbrev survivors : (ℕ → Bool) → List (ℕ × ℕ) → List (ℕ × ℕ)
survivors gone [] = []
survivors gone ((k, e) ∷ rest) =
    if gone e then survivors gone rest else (k, e) ∷ survivors gone rest

survivors-none : (l : List (ℕ × ℕ)) → survivors (λ e. true) l ≡ []
survivors-none [] = refl
survivors-none ((k, e) ∷ l) = survivors-none l

module _ (methods : Methods) where
  open methods use {is_deletable}

  -- The processor after the loop has dealt with one event.
  abbrev killed : Bool → ℕ → EventProcessor → EventProcessor
  killed gone e p =
      let marked = change e (λ b. record b { to_abort = true }) p.objects in
      let p' : EventProcessor = record (log (aborts e) p) {
        objects = methods.abort e p.time marked;
      } in
      if gone then log (deletes e) p' else p'

  after_calls :
      (b : Bool) (e : ℕ) (p : EventProcessor) (l : List (ℕ × ℕ)) (gone : ℕ → Bool)
      → (killed b e p).calls ++ all_calls gone l ≡ p.calls ++ (end_calls b e ++ all_calls gone l)
  after_calls true e p l gone =
      append_assoc (p.calls ++ (aborts e ∷ [])) (deletes e ∷ []) (all_calls gone l)
      ∙ append_assoc p.calls (aborts e ∷ []) (deletes e ∷ all_calls gone l)
  after_calls false e p l gone = append_assoc p.calls (aborts e ∷ []) (all_calls gone l)

  kill_events-all :
      (force : Bool) (l : List (ℕ × ℕ)) (p : EventProcessor)
      → let r = kill_events methods force l p in
        (r.1.time ≡ p.time)
        × (r.1.aborting ≡ p.aborting)
        × (r.1.calls ≡ p.calls ++ all_calls (λ e. force || is_deletable e) l)
        × (r.0 ≡ (if force then l else survivors is_deletable l))
  unfolding kill_events
  kill_events-all true [] p = (refl, refl, sym (append-nil p.calls), refl)
  kill_events-all false [] p = (refl, refl, sym (append-nil p.calls), refl)
  kill_events-all true ((k, e) ∷ l) p =
      let (t, a, c, left) = kill_events-all true l (killed true e p) in
      (t, a, c ∙ after_calls true e p l (λ e. true), ap (◌∷◌ (k, e)) left)
  kill_events-all false ((k, e) ∷ l) p = elim (Bool-cases (is_deletable e)) [
    | inl gone ↦
        let (t, a, c, left) = kill_events-all false l (killed true e p) in
        rw gone (t, a, c ∙ after_calls true e p l is_deletable, left)
    | inr stays ↦
        let (t, a, c, left) = kill_events-all false l (killed false e p) in
        rw stays (t, a, c ∙ after_calls false e p l is_deletable, ap (◌∷◌ (k, e)) left)
  ]

-- KillAllEvents aborts every event of the list once, in order, and deletes it unless it is not to be
-- deleted and `force` is not set; exactly the events that it does not delete stay in the list, which
-- with `force` is empty afterwards. It marks the processor as aborting and keeps its time.
kill_all_events_lem :
    (methods : Methods) (force : Bool) (p : EventProcessor)
    → let q = kill_all_events methods force p in
      (q.time ≡ p.time)
      × (q.aborting ≡ true)
      × (q.calls ≡ p.calls ++ all_calls (λ e. force || methods.is_deletable e) p.events)
      × (q.events ≡ survivors (λ e. force || methods.is_deletable e) p.events)
unfolding kill_all_events
kill_all_events_lem methods true p =
    let (t, a, c, left) = kill_events-all methods true p.events (record p { aborting = true }) in
    (t, a, c, sym (survivors-none p.events))
kill_all_events_lem methods false p =
    kill_events-all methods false p.events (record p { aborting = true })
