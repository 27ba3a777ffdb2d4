-- ===== src/Threads/Updater/Totals.antt =====
-- Sums over the threads of a RoomUpdater.
use landlord.Prelude.{
  ℕ, zero, suc, ◌+◌, ◌≤◌, ◌<◌, ◌≡◌, refl, inl, inr, none, some, List, [], ◌∷◌, arith, ltb,
  Bool-cases, get_elem?, set, replicate, one_if_eq,
}
use landlord.Threads.Updater.{Worker, waiting, holding, updating, finishing, ended}

abbrev pub total : (Worker → ℕ) → List Worker → ℕ
total f [] = 0
total f (w ∷ ws) = f w + total f ws

-- A step of one thread changes a sum by what that thread counts.
pub total-set :
    (f : Worker → ℕ) (ws : List Worker) (i : ℕ) (w v : Worker)
    → get_elem? ws i ≡ some w
    → total f (set ws i v) + f w ≡ total f ws + f v
total-set f [] i w v h = ground arith
total-set f (x ∷ ws) zero w v h = ground arith
total-set f (x ∷ ws) (suc i) w v h = omega (arith, total-set f ws i w v h)

pub total-replicate : (f : Worker → ℕ) (n : ℕ) (w : Worker) → f w ≡ 0 → total f (replicate n w) ≡ 0
total-replicate f zero w h = refl
total-replicate f (suc n) w h = omega (arith, h, total-replicate f n w h)

pub total-monotone :
    (f h : Worker → ℕ) (ws : List Worker) → ((w : Worker) → f w ≤ h w) → total f ws ≤ total h ws
total-monotone f h [] le = omega arith
total-monotone f h (w ∷ ws) le = omega (arith, le w, total-monotone f h ws le)

pub total-member :
    (f : Worker → ℕ) (ws : List Worker) (i : ℕ) (w : Worker)
    → get_elem? ws i ≡ some w
    → f w ≤ total f ws
total-member f [] i w h = ground arith
total-member f (x ∷ ws) zero w h = ground arith
total-member f (x ∷ ws) (suc i) w h = omega (arith, total-member f ws i w h)

-- A sum that is not 0 comes from some thread.
pub total-find :
    (f : Worker → ℕ) (ws : List Worker)
    → 0 < total f ws
    → (i : ℕ) × (w : Worker) × (get_elem? ws i ≡ some w) × (0 < f w)
total-find f [] h = absurd (omega arith)
total-find f (x ∷ ws) h = elim (Bool-cases (ltb 0 (f x))) [
  | inl e ↦ (0, x, refl, ground arith)
  | inr e ↦ let (i, w, at, more) = total-find f ws (ground arith) in (suc i, w, at, more)
]

-- A thread that has a request, or has not yet reported it.
abbrev pub busy : Worker → ℕ
busy (holding (some r)) = 1
busy (updating r) = 1
busy (finishing r) = 1
busy _ = 0

-- A thread that got the null pointer, or has ended.
abbrev pub lost : Worker → ℕ
lost (holding none) = 1
lost ended = 1
lost _ = 0

-- A thread that has the request and has not yet updated its room.
abbrev pub carries : ℕ → Worker → ℕ
carries r (holding (some q)) = one_if_eq r q
carries r (updating q) = one_if_eq r q
carries r _ = 0

pub carries-le-busy : (r : ℕ) (w : Worker) → carries r w ≤ busy w
carries-le-busy r waiting = omega arith
carries-le-busy r (holding none) = omega arith
carries-le-busy r (holding (some q)) = ground arith
carries-le-busy r (updating q) = ground arith
carries-le-busy r (finishing q) = omega arith
carries-le-busy r ended = omega arith
