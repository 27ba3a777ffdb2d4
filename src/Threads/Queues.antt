-- ===== src/Threads/Queues.antt =====
-- LockedQueue (server/shared/Threading/LockedQueue.h) and ProducerConsumerQueue
-- (server/shared/Threading/ProducerConsumerQueue.h), each method under its lock.
pub mod Fifo
use landlord.Prelude.{
  ℕ, zero, suc, ◌+◌, ◌-◌, ◌*◌, ◌/◌, ◌%◌, ◌^◌, ◌≤◌, ◌<◌, min, ◌≡◌, refl, sym, ap, ◌∙◌, ◌≢◌, ◌↔◌, ◌⊎◌,
  inl, inr, Bool, true, false, not, ◌&&◌, ◌||◌, Option, none, some, List, [], ◌∷◌, ◌++◌, map, arith,
  ltb, leb, ◌==◌, if◌then◌else◌, ==_iff, Bool-cases, Option-cases, bind, length, get_elem?, set,
  take, drop, replicate, length-append, length-set, take-append-drop, length-take, length-drop,
  length-replicate, get_elem?_total, get_elem?-set_self, get_elem?-set_ne, one_if_eq, count,
  count-append, count-set, u32_mod, add32, sub32, minus_one, is_negative, is_positive, signed_key,
  max32,
}

-- A LockedQueue, the oldest item first.
pub record LockedQueue {ℓ} (A : Type ℓ) : Type ℓ where
  pub items : List A
  pub canceled : Bool

-- The queue of a ProducerConsumerQueue and its `_shutdown`.
pub record ProducerConsumerQueue {ℓ} (A : Type ℓ) : Type ℓ where
  pub queue : List A
  pub shutdown : Bool

module _ {ℓ} {A : Type ℓ} where
  -- LockedQueue::add
  pub add : A → LockedQueue A → LockedQueue A
  add a q = record q { items = q.items ++ (a ∷ []) }

  -- LockedQueue::next
  pub next : LockedQueue A → Option A × LockedQueue A
  next q = elim q.items [ [] ↦ (none, q) | a ∷ rest ↦ (some a, record q { items = rest }) ]

  -- LockedQueue::next with a checker: what is returned, what is assigned to `result`, and the queue.
  -- An item that the checker refuses is assigned and stays.
  unfoldable pub next_checked : (A → Bool) → LockedQueue A → Bool × Option A × LockedQueue A
  next_checked check q = elim q.items [
    | [] ↦ (false, none, q)
    | a ∷ rest ↦ if check a then (true, some a, record q { items = rest }) else (false, some a, q)
  ]

  -- LockedQueue::peek and pop_front; of an empty queue they are a fault.
  peek : LockedQueue A → Option A
  peek q = elim q.items [ [] ↦ none | a ∷ rest ↦ some a ]

  pop_front : LockedQueue A → Option (LockedQueue A)
  pop_front q = elim q.items [ [] ↦ none | a ∷ rest ↦ some (record q { items = rest }) ]

  -- LockedQueue::cancel, cancelled and empty
  unfoldable pub cancel_queue : LockedQueue A → LockedQueue A
  cancel_queue q = record q { canceled = true }

  abbrev cancelled : LockedQueue A → Bool
  cancelled q = q.canceled

  is_empty : LockedQueue A → Bool
  is_empty q = elim q.items [ [] ↦ true | _ ∷ _ ↦ false ]

  -- ProducerConsumerQueue::Push
  unfoldable pub push : A → ProducerConsumerQueue A → ProducerConsumerQueue A
  push a q = record q { queue = q.queue ++ (a ∷ []) }

  -- ProducerConsumerQueue::Empty
  unfoldable pub no_items : ProducerConsumerQueue A → Bool
  no_items q = elim q.queue [ [] ↦ true | _ ∷ _ ↦ false ]

  -- ProducerConsumerQueue::Pop
  unfoldable pub pop : ProducerConsumerQueue A → Option A × ProducerConsumerQueue A
  pop q = elim q.queue [
    | [] ↦ (none, q)
    | a ∷ rest ↦ if q.shutdown then (none, q) else (some a, record q { queue = rest })
  ]

  -- The condition that WaitAndPop waits for.
  unfoldable pub can_return : ProducerConsumerQueue A → Bool
  unfolding no_items
  can_return q = not (no_items q) || q.shutdown

  -- ProducerConsumerQueue::WaitAndPop once it may return: `none` leaves the caller's value alone.
  unfoldable pub wait_and_pop : ProducerConsumerQueue A → Option A × ProducerConsumerQueue A
  unfolding pop
  wait_and_pop q = pop q

  -- ProducerConsumerQueue::Cancel
  unfoldable pub cancel : ProducerConsumerQueue A → ProducerConsumerQueue A
  cancel q = record { queue = []; shutdown = true }
