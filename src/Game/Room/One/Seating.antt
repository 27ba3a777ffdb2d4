-- ===== src/Game/Room/One/Seating.antt =====
-- How UpdateOne links the players of a table (server/game/Room/Room.cpp, Player::addPlayer).
use landlord.Prelude.{ℕ, ◌≡◌, ◌≢◌, true, false, none, some, List, [], ◌∷◌, ◌++◌, arith}
use landlord.Game.Types.{Player, Game}
use landlord.Game.Spec.{Ensures, links, IsRing}
use landlord.Game.Player.{delete_player, add_player}
use landlord.Game.Room.{Room, logged_out}
use landlord.Game.Room.One.{seat_three, seat_two, one_round}

-- The three addPlayer calls of UpdateOne, for three different players with no neighbours, link them
-- into a ring and put the table at the end of `_threePlayerList`.
seat_three-IsRing :
    (p0 p1 p2 : ℕ) (room : Room) (g : Game)
    → p0 ≢ p1
    → p1 ≢ p2
    → p0 ≢ p2
    → links g p0 ≡ some (none, none)
    → links g p1 ≡ some (none, none)
    → links g p2 ≡ some (none, none)
    → Ensures
        (λ r g'. IsRing g' p0 p1 p2 × (r.three ≡ room.three ++ ((p0, p1, p2) ∷ [])))
        (seat_three (some p0) (some p1) (some p2) room g)
unfolding seat_three add_player
seat_three-IsRing p0 p1 p2 room g d01 d12 d02 h0 h1 h2 = ground arith

-- The two addPlayer calls for a pair make each the neighbour of the other, once.
seat_two-links :
    (p0 p1 : ℕ) (room : Room) (g : Game)
    → p0 ≢ p1
    → links g p0 ≡ some (none, none)
    → links g p1 ≡ some (none, none)
    → Ensures
        (λ r g'.
          (links g' p0 ≡ some (some p1, none))
          × (links g' p1 ≡ some (none, some p0))
          × (r.two ≡ room.two ++ ((p0, p1) ∷ [])))
        (seat_two (some p0) (some p1) room g)
unfolding seat_two add_player
seat_two-links p0 p1 room g d h0 h1 = ground arith

-- With three or more players in the list, the first of them logged out and the next two there, a
-- round of UpdateOne takes all three from the list and seats none of them: the two who are there
-- keep their flag and are in no list any more.
pub one_round_loses :
    (p0 p1 p2 : ℕ) (rest : List ℕ) (room : Room) (g : Game) (a b c : Player)
    → p0 ≢ p1
    → p1 ≢ p2
    → p0 ≢ p2
    → room.one ≡ p0 ∷ p1 ∷ p2 ∷ rest
    → g.cell p0 ≡ some a
    → g.cell p1 ≡ some b
    → g.cell p2 ≡ some c
    → logged_out a ≡ true
    → logged_out b ≡ false
    → logged_out c ≡ false
    → Ensures
        (λ r g'.
          (r.0 ≡ true)
          × (r.1 ≡ record room { one = rest })
          × (g'.cell p0 ≡ none)
          × (g'.cell p1 ≡ some b)
          × (g'.cell p2 ≡ some c))
        (one_round room g)
unfolding one_round delete_player
one_round_loses p0 p1 p2 rest room g a b c d01 d12 d02 e h0 h1 h2 out in1 in2 = ground arith
