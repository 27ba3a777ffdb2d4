-- ===== src/Game/Room/Holding/Steps.antt =====
-- What the steps that move players do to those who hold them (server/game/Player/Player.cpp,
-- server/game/AI/AiPlayerPool.cpp).
use landlord.Prelude.{
  ℕ, ◌≤◌, ◌<◌, ◌≡◌, refl, some, inl, inr, Option-cases, not, ◌||◌, List, arith, count,
}
use landlord.Game.Types.{Player, Game}
use landlord.Game.Store.Chain.{modify-ok}
use landlord.Game.Store.{◌>>◌, modify, update}
use landlord.Game.Player.{add_player, link, points_to}
use landlord.Game.Room.{Room}
use landlord.Game.Room.Holding.{
  Ends, weaken, alive, IsSound, chain, live_cases, read_chain, when_rule,
}

-- A step that changes players and their fields, but neither makes nor deletes any.
abbrev pub Keeps : Game → Game → Type 0
Keeps g g' = ((q : ℕ) → alive g q ≤ alive g' q) × (g'.idle_ai ≡ g.idle_ai) × (g'.next ≡ g.next)

pub Keeps-IsSound :
    (hand : List ℕ) (room : Room) (g g' : Game)
    → IsSound hand room g
    → Keeps g g'
    → IsSound hand room g'
Keeps-IsSound hand room g g' s k q = rw k.1 (omega (arith, s q, k.0 q))

alive-update :
    (p q : ℕ) (a b : Player) (g : Game)
    → g.cell p ≡ some a
    → alive g q ≤ alive (record g { cell = update g.cell p (some b) }) q
alive-update p q a b g e = ground arith

pub Keeps-refl : (g : Game) → Keeps g g
Keeps-refl g = ((λ q. omega arith), refl, refl)

-- The same after further steps: `g0` is where they began.
pub modify-Keeps :
    (p : ℕ) (f : Player → Player) (g0 g : Game)
    → 0 < alive g0 p
    → Keeps g0 g
    → Ends (λ _ g'. Keeps g0 g') (modify p f g)
modify-Keeps p f g0 g h k =
    let (a, e) = live_cases p g (omega (arith, k.0 p)) in
    rw (modify-ok p f g a e)
      (record { holds = ((λ q. omega (arith, k.0 q, alive-update p q a (f a) g e)), k.1, k.2) })

two_modify-Keeps :
    (p r : ℕ) (f f' : Player → Player) (g0 g : Game)
    → 0 < alive g0 p
    → 0 < alive g0 r
    → Keeps g0 g
    → Ends (λ _ g'. Keeps g0 g') ((modify p f >> modify r f') g)
two_modify-Keeps p r f f' g0 g hp hr k =
    chain (modify p f) g (modify-Keeps p f g0 g hp k) λ _ g' k'. modify-Keeps r f' g0 g' hr k'

link-Keeps :
    (a : Player) (p r : ℕ) (g : Game)
    → 0 < alive g p
    → 0 < alive g r
    → Ends (λ _ g'. Keeps g g') (link a p r g)
unfolding link
link-Keeps a p r g hp hr = elim (Option-cases a.left) [
  | inl e ↦ rw (e, link) (two_modify-Keeps p r _ _ g g hp hr (Keeps-refl g))
  | inr (l, e) ↦ elim (Option-cases a.right) [
    | inl e' ↦ rw (e, link, e') (two_modify-Keeps p r _ _ g g hp hr (Keeps-refl g))
    | inr (r', e') ↦ rw (e, link, e') (record { holds = Keeps-refl g })
  ]
]

-- Player::addPlayer of two that exist.
add_player-Keeps :
    (p r : ℕ) (g : Game)
    → 0 < alive g p
    → 0 < alive g r
    → Ends (λ _ g'. Keeps g g') (add_player p r g)
unfolding add_player
add_player-Keeps p r g hp hr =
    let (a, e) = live_cases p g hp in
    read_chain p _ g a e (
      when_rule (not (points_to a.left r || points_to a.right r)) _ g (Keeps-refl g)
        (chain (link a p r) g (link-Keeps a p r g hp hr) λ _ g' k. modify-Keeps p _ g g' hp k))

-- Who is at hand is alive.
alive_at_hand :
    (p : ℕ) (hand : List ℕ) (room : Room) (g : Game)
    → 0 < count p hand
    → IsSound hand room g
    → 0 < alive g p
alive_at_hand p hand room g h s = omega (arith, s p)

pub add_player-IsSound :
    (p r : ℕ) (hand : List ℕ) (room : Room) (g : Game)
    → 0 < count p hand
    → 0 < count r hand
    → IsSound hand room g
    → Ends (λ _. IsSound hand room) (add_player p r g)
add_player-IsSound p r hand room g hp hr s =
    weaken (add_player p r g) (λ _ g' k. Keeps-IsSound hand room g g' s k)
      (add_player-Keeps p r g (alive_at_hand p hand room g hp s) (alive_at_hand r hand room g hr s))

pub modify-IsSound :
    (p : ℕ) (f : Player → Player) (hand : List ℕ) (room : Room) (g : Game)
    → 0 < count p hand
    → IsSound hand room g
    → Ends (λ _. IsSound hand room) (modify p f g)
modify-IsSound p f hand room g h s =
    weaken (modify p f g) (λ _ g' k. Keeps-IsSound hand room g g' s k)
      (modify-Keeps p f g g (alive_at_hand p hand room g h s) (Keeps-refl g))
