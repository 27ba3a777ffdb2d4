-- ===== src/Game/Room/Two/Joining.antt =====
-- A pair and its third player (server/game/Room/Room.cpp, Room::UpdateTwo and LogoutTwo).
use landlord.Prelude.{ℕ, ◌≡◌, ◌≢◌, true, false, ◌||◌, none, some, List, [], ◌∷◌, ◌++◌, arith}
use landlord.Game.Types.{is_ai, Player, Game}
use landlord.Game.Spec.{Ensures, links, IsRing}
use landlord.Game.Player.{delete_player, add_player}
use landlord.Game.Room.{Room, enter, logged_out, expired}
use landlord.Game.Room.Pool.{release}
use landlord.Game.Room.One.{get_player_from_one}
use landlord.Game.Room.Two.{complete_two, join_two, logout_two}

complete_two-joins :
    (p0 p1 p2 : ℕ) (rest : List ℕ) (room : Room) (g : Game) (c : Player)
    → links g p0 ≡ some (some p1, none)
    → links g p1 ≡ some (none, some p0)
    → g.cell p2 ≡ some c
    → logged_out c ≡ false
    → room.one ≡ p2 ∷ rest
    → complete_two (p0, p1) room g ≡ join_two p0 p1 p2 (record room { one = rest }) g
unfolding complete_two get_player_from_one
complete_two-joins p0 p1 p2 rest room g c h0 h1 h2 hc ho = ground arith

join_two-IsRing :
    (p0 p1 p2 : ℕ) (room : Room) (g : Game) (c : Player)
    → p0 ≢ p1
    → p1 ≢ p2
    → p0 ≢ p2
    → links g p0 ≡ some (some p1, none)
    → links g p1 ≡ some (none, some p0)
    → g.cell p2 ≡ some c
    → c.left ≡ none
    → c.right ≡ none
    → Ensures
        (λ r g'.
          IsRing g' p0 p1 p2
          × (r.one ≡ room.one)
          × (r.two ≡ room.two)
          × (r.three ≡ room.three ++ ((p0, p1, p2) ∷ [])))
        (join_two p0 p1 p2 room g)
unfolding join_two add_player enter
join_two-IsRing p0 p1 p2 room g c d01 d12 d02 h0 h1 h2 cl cr = ground arith

-- A pair that UpdateOne linked is given the first player who is alone, if that one is there; then
-- the three are linked into the ring that three players alone would be linked into.
pub complete_two-IsRing :
    (p0 p1 p2 : ℕ) (rest : List ℕ) (room : Room) (g : Game) (c : Player)
    → p0 ≢ p1
    → p1 ≢ p2
    → p0 ≢ p2
    → links g p0 ≡ some (some p1, none)
    → links g p1 ≡ some (none, some p0)
    → g.cell p2 ≡ some c
    → c.left ≡ none
    → c.right ≡ none
    → logged_out c ≡ false
    → room.one ≡ p2 ∷ rest
    → Ensures
        (λ r g'.
          IsRing g' p0 p1 p2
          × (r.one ≡ rest)
          × (r.two ≡ room.two)
          × (r.three ≡ room.three ++ ((p0, p1, p2) ∷ [])))
        (complete_two (p0, p1) room g)
complete_two-IsRing p0 p1 p2 rest room g c d01 d12 d02 h0 h1 h2 cl cr hc ho =
    rw (complete_two-joins p0 p1 p2 rest room g c h0 h1 h2 hc ho)
      (join_two-IsRing p0 p1 p2 (record room { one = rest }) g c d01 d12 d02 h0 h1 h2 cl cr)

-- A pair with time left stays as it is while nobody is alone.
complete_two-waits :
    (p0 p1 : ℕ) (room : Room) (g : Game) (a b : Player)
    → g.cell p0 ≡ some a
    → g.cell p1 ≡ some b
    → expired a ≡ false
    → expired b ≡ false
    → room.one ≡ []
    → complete_two (p0, p1) room g ≡ some (record room { two = room.two ++ ((p0, p1) ∷ []) }, g)
unfolding complete_two get_player_from_one
complete_two-waits p0 p1 room g a b h0 h1 ea eb ho = ground arith

-- LogoutTwo breaks a pair up exactly if one of the two has logged out.
logout_two_lem :
    (p0 p1 : ℕ) (room : Room) (g : Game) (a b : Player)
    → p0 ≢ p1
    → g.cell p0 ≡ some a
    → g.cell p1 ≡ some b
    → Ensures (λ r _. r.0 ≡ (logged_out a || logged_out b)) (logout_two (p0, p1) room g)
unfolding logout_two release delete_player
logout_two_lem p0 p1 room g a b d h0 h1 = ground arith

-- A user whose partner, a user too, has logged out is alone again, and the partner is deleted.
logout_two-alone :
    (p0 p1 : ℕ) (room : Room) (g : Game) (a b : Player)
    → p0 ≢ p1
    → g.cell p0 ≡ some a
    → g.cell p1 ≡ some b
    → is_ai a.player_type ≡ false
    → is_ai b.player_type ≡ false
    → logged_out a ≡ true
    → logged_out b ≡ false
    → Ensures
        (λ r g'.
          (r ≡ (true, record room { one = room.one ++ (p1 ∷ []) }))
          × (g'.cell p0 ≡ none)
          × (g'.cell p1 ≡ some b))
        (logout_two (p0, p1) room g)
unfolding logout_two release delete_player
logout_two-alone p0 p1 room g a b d h0 h1 ta tb la lb = ground arith
