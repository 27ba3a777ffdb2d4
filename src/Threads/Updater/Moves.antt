-- ===== src/Threads/Updater/Moves.antt =====
-- The steps of a thread of a RoomUpdater while nobody has shut it down.
use landlord.Prelude.{
  ℕ, ◌≡◌, refl, sym, ◌∙◌, ◌⊎◌, inl, inr, false, none, some, List, [], ◌∷◌, arith, Option-cases,
  get_elem?, set,
}
use landlord.Threads.Queues.{can_return, wait_and_pop, pop, no_items}
use landlord.Threads.Updater.{
  Worker, waiting, holding, updating, finishing, ended, Updater, next, work, work_at, set_worker,
  update_finished,
}
use landlord.Threads.Updater.Totals.{total, total-member, lost}

-- A thread takes the oldest request, begins it, updates the room, and reports it.
pub data Move (i : ℕ) (u : Updater) : Updater → Type 0 where
  takes :
      (r : ℕ) (rest : List ℕ)
      → get_elem? u.workers i ≡ some waiting
      → u.queue.queue ≡ r ∷ rest
      → Move i u (record u {
        queue = record u.queue { queue = rest };
        workers = set u.workers i (holding (some r));
      })
  begins :
      (r : ℕ)
      → get_elem? u.workers i ≡ some (holding (some r))
      → Move i u (set_worker i (updating r) u)
  updates :
      (r : ℕ)
      → get_elem? u.workers i ≡ some (updating r)
      → Move i u (set_worker i (finishing r) (record u { updated = r ∷ u.updated }))
  reports :
      (r : ℕ)
      → get_elem? u.workers i ≡ some (finishing r)
      → Move i u (set_worker i waiting (update_finished u))

-- Nobody has begun the shutdown, and no thread is lost.
pub record IsOpen (u : Updater) : Type 0 where
  pub kept : u.cancelation_token ≡ false
  pub open_queue : u.queue.shutdown ≡ false
  pub none_lost : total lost u.workers ≡ 0

List-cases : (xs : List ℕ) → (xs ≡ []) ⊎ ((x : ℕ) × (rest : List ℕ) × (xs ≡ x ∷ rest))
List-cases [] = inl refl
List-cases (x ∷ rest) = inr (x, rest, refl)

next_inj : {u v : Updater} → next u ≡ next v → u ≡ v
next_inj e = cc

worker-Move :
    (i : ℕ) (u v : Updater) (w : Worker)
    → get_elem? u.workers i ≡ some w
    → IsOpen u
    → work i w u ≡ next v
    → Move i u v
unfolding work wait_and_pop pop can_return no_items
worker-Move i u v waiting at h e = elim (List-cases u.queue.queue) [
  | inl empty ↦ absurd (ground (arith, empty, h.open_queue, e))
  | inr (r, rest, more) ↦
      let went : next (record u {
        queue = record u.queue { queue = rest };
        workers = set u.workers i (holding (some r));
      })
          ≡ next v =
        sym (simp (can_return, no_items, wait_and_pop, pop, more, h.open_queue)) ∙ e in
      rw (sym (next_inj went)) (takes r rest at more)
]
worker-Move i u v (holding none) at h e =
    absurd (omega (arith, total-member lost u.workers i (holding none) at, h.none_lost))
worker-Move i u v (holding (some r)) at h e =
    let went : next (set_worker i (updating r) u) ≡ next v = sym (simp (h.kept)) ∙ e in
    rw (sym (next_inj went)) (begins r at)
worker-Move i u v (updating r) at h e = rw (sym (next_inj e)) (updates r at)
worker-Move i u v (finishing r) at h e = rw (sym (next_inj e)) (reports r at)
worker-Move i u v ended at h e =
    absurd (omega (arith, total-member lost u.workers i ended at, h.none_lost))

-- Each step that a thread can take is one of the four.
pub work-Move : (i : ℕ) {u v : Updater} → IsOpen u → work_at i u ≡ next v → Move i u v
unfolding work_at
work-Move i {u} {v} h e = elim (Option-cases (get_elem? u.workers i)) [
  | inl none_there ↦ absurd (ground (arith, none_there, e))
  | inr (w, at) ↦ worker-Move i u v w at h (sym (rw (work_at, at) refl) ∙ e)
]
