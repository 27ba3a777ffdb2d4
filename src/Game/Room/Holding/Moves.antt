-- ===== src/Game/Room/Holding/Moves.antt =====
-- Deleting a player, and the coming and going of AIs, seen from those who hold the players
-- (server/game/AI/AiPlayerPool.cpp, server/game/Room/Room.cpp).
use landlord.Prelude.{
  ℕ, suc, ◌+◌, ◌≤◌, ◌<◌, none, some, inl, inr, List, ◌∷◌, arith, List-cases, one_if_eq, count, ap,
}
use landlord.Game.Types.{is_ai, Player, Game}
use landlord.Game.Store.{modify, update}
use landlord.Game.Player.{delete_player, new_player, allocate_player, set_start}
use landlord.Game.Room.{Room}
use landlord.Game.Room.Pool.{
  take_ai_player, configure_ai_player, get_ai_player, release_player, release,
}
use landlord.Game.Room.Holding.{
  Ends, alive, IsSound, at_hand, chain, read_chain, if_rule, one_if_eq_self,
}
use landlord.Game.Room.Holding.Steps.{Keeps, Keeps-refl, Keeps-IsSound, modify-Keeps}

alive-delete :
    (p q : ℕ) (g : Game)
    → alive g q ≤ alive (record g { cell = update g.cell p none }) q + one_if_eq q p
alive-delete p q g = ground arith

pub delete_player-IsSound :
    (p : ℕ) (hand : List ℕ) (room : Room) (g : Game)
    → IsSound (p ∷ hand) room g
    → Ends (λ _. IsSound hand room) (delete_player p g)
unfolding delete_player
delete_player-IsSound p hand room g s =
    let (a, e) = at_hand p hand room g s in
    read_chain p _ g a e (record { holds = λ q. omega (arith, s q, alive-delete p q g) })

release_player-IsSound :
    (p : ℕ) (hand : List ℕ) (room : Room) (g : Game)
    → IsSound (p ∷ hand) room g
    → Ends (λ _. IsSound hand room) (release_player p g)
release_player-IsSound p hand room g s = record { holds = λ q. omega (arith, s q) }

alive-new :
    (q : ℕ) (a : Player) (g : Game)
    → alive g q + one_if_eq q g.next
      ≤ alive (record g { cell = update g.cell g.next (some a); next = g.next + 1 }) q
alive-new q a g = ground arith

take_ai_player-IsSound :
    (hand : List ℕ) (room : Room) (g : Game)
    → IsSound hand room g
    → Ends (λ p. IsSound (p ∷ hand) room) (take_ai_player g)
unfolding take_ai_player allocate_player
take_ai_player-IsSound hand room g s = elim (List-cases g.idle_ai) [
  | inl e ↦
      rw (take_ai_player, e)
        (record { holds = λ q. omega (arith, s q, alive-new q (new_player g none) g) })
  | inr (p, rest, e) ↦
      rw (take_ai_player, e) (record { holds = λ q. omega (arith, s q, ap (count q) e) })
]

configure_ai_player-Keeps :
    (p id : ℕ) (g : Game) → 0 < alive g p → Ends (λ _ g'. Keeps g g') (configure_ai_player p id g)
unfolding configure_ai_player set_start
configure_ai_player-Keeps p id g h =
    let g1 : Game = record g { random = λ k. g.random (suc (suc k)) } in
    chain (modify p _) g1 (modify-Keeps p _ g g1 h (Keeps-refl g))
      λ _ g' k. modify-Keeps p _ g g' h k

-- The AI that the pool hands out, old or new, is held by nobody else.
pub get_ai_player-IsSound :
    (id : ℕ) (hand : List ℕ) (room : Room) (g : Game)
    → IsSound hand room g
    → Ends (λ p. IsSound (p ∷ hand) room) (get_ai_player id g)
unfolding get_ai_player
get_ai_player-IsSound id hand room g s =
    chain take_ai_player g (take_ai_player-IsSound hand room g s) λ p g1 s1.
      chain (configure_ai_player p id) g1
        (configure_ai_player-Keeps p id g1 (omega (arith, s1 p, one_if_eq_self p)))
        λ _ g2 k. record { holds = Keeps-IsSound (p ∷ hand) room g1 g2 s1 k }

pub release-IsSound :
    (p : ℕ) (hand : List ℕ) (room : Room) (g : Game)
    → IsSound (p ∷ hand) room g
    → Ends (λ _. IsSound hand room) (release p g)
unfolding release
release-IsSound p hand room g s =
    let (a, e) = at_hand p hand room g s in
    read_chain p _ g a e (
      if_rule (is_ai a.player_type) _ _ g (release_player-IsSound p hand room g s)
        (delete_player-IsSound p hand room g s))
