-- ===== src/Threads/Queues/Fifo.antt =====
-- What a queue between threads promises, and that both queues keep it.
use landlord.Prelude.{
  ◌≡◌, refl, sym, ap, ◌∙◌, inl, inr, Bool, true, false, Option, none, some, List, [], ◌∷◌, ◌++◌,
  Option-cases,
}
use mathlib.Core.List.{append_assoc, append-nil}
use landlord.Threads.Queues.{LockedQueue, ProducerConsumerQueue, add, next, push, pop}

-- A queue of items: what is in it, in the order in which it comes out.
pub record Fifo (Q : Type 0) (A : Type 0) : Type 0 where
  pub contents : Q → List A
  pub put : A → Q → Q
  pub get : Q → Option A × Q
  pub contents-put : (a : A) (q : Q) → contents (put a q) ≡ contents q ++ (a ∷ [])
  pub contents-get :
      (q : Q)
      → contents q ≡ elim (get q).0 [ none ↦ contents (get q).1 | some a ↦ a ∷ contents (get q).1 ]

-- The calls of all threads, in the order in which they get the lock.
pub data Call (A : Type 0) : Type 0 where
  puts : A → Call A
  gets : Call A

module _ {Q A : Type 0} (f : Fifo Q A) where
  open f use {contents, put, get, contents-put, contents-get}

  -- What came out, the oldest first, and the queue afterwards.
  pub calls : List (Call A) → Q → List A × Q
  calls [] q = ([], q)
  calls (puts a ∷ cs) q = calls cs (put a q)
  calls (gets ∷ cs) q =
      let (taken, q') = calls cs (get q).1 in
      (elim (get q).0 [ none ↦ taken | some a ↦ a ∷ taken ], q')

  -- What was put in.
  unfoldable pub given : List (Call A) → List A
  given [] = []
  given (puts a ∷ cs) = a ∷ given cs
  given (gets ∷ cs) = given cs

  calls-given :
      (cs : List (Call A)) (q : Q)
      → (calls cs q).0 ++ contents (calls cs q).1 ≡ contents q ++ given cs
  unfolding calls given
  calls-given [] q = sym (append-nil (contents q))
  calls-given (puts a ∷ cs) q =
      calls-given cs (put a q)
      ∙ ap (λ xs. xs ++ given cs) (contents-put a q)
      ∙ append_assoc (contents q) (a ∷ []) (given cs)
  calls-given (gets ∷ cs) q = elim (Option-cases (get q).0) [
    | inl e ↦
        let was : contents q ≡ contents (get q).1 = contents-get q ∙ rw e in
        rw e (calls-given cs (get q).1 ∙ ap (λ xs. xs ++ given cs) (sym was))
    | inr (a, e) ↦
        let was : contents q ≡ a ∷ contents (get q).1 = contents-get q ∙ rw e in
        rw e (ap (◌∷◌ a) (calls-given cs (get q).1) ∙ ap (λ xs. xs ++ given cs) (sym was))
  ]

pub next-items :
    {A : Type 0} (items : List A) (b : Bool)
    → let q : LockedQueue A = record { items = items; canceled = b } in
      items ≡ elim (next q).0 [ none ↦ (next q).1.items | some a ↦ a ∷ (next q).1.items ]
unfolding next
next-items [] b = refl
next-items (a ∷ items) b = refl

pub pop-queue :
    {A : Type 0} (queue : List A) (b : Bool)
    → let q : ProducerConsumerQueue A = record { queue = queue; shutdown = b } in
      queue ≡ elim (pop q).0 [ none ↦ (pop q).1.queue | some a ↦ a ∷ (pop q).1.queue ]
unfolding pop
pop-queue [] b = refl
pop-queue (a ∷ queue) true = refl
pop-queue (a ∷ queue) false = refl

-- LockedQueue with add and next.
abbrev pub locked_fifo : {A : Type 0} → Fifo (LockedQueue A) A
unfolding add next
locked_fifo = record {
  contents = λ q. q.items;
  put = add;
  get = next;
  contents-put = λ a q. refl;
  contents-get = λ q. next-items q.items q.canceled;
}

-- ProducerConsumerQueue with Push and Pop.
abbrev pub producer_fifo : {A : Type 0} → Fifo (ProducerConsumerQueue A) A
unfolding push pop
producer_fifo = record {
  contents = λ q. q.queue;
  put = push;
  get = pop;
  contents-put = λ a q. refl;
  contents-get = λ q. pop-queue q.queue q.shutdown;
}

-- Both queues between threads are first in, first out: for any calls of `add` and `next` of a
-- LockedQueue, or of `Push` and `Pop` of a ProducerConsumerQueue, by any threads, what came out
-- followed by what is left is what was in the queue followed by what was put in.
pub queues-refine_fifo :
    {A : Type 0} (cs : List (Call A)) (p : LockedQueue A) (q : ProducerConsumerQueue A)
    → ((calls locked_fifo cs p).0 ++ (calls locked_fifo cs p).1.items
        ≡ p.items ++ given locked_fifo cs)
      × ((calls producer_fifo cs q).0 ++ (calls producer_fifo cs q).1.queue
          ≡ q.queue ++ given producer_fifo cs)
unfolding locked_fifo producer_fifo
queues-refine_fifo cs p q = (calls-given locked_fifo cs p, calls-given producer_fifo cs q)
