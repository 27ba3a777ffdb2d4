-- ===== src/Game/Room/Three/Breaking.antt =====
-- A table that somebody leaves (server/game/Room/Room.cpp, Room::LogoutThree).
use landlord.Prelude.{
  ℕ, ◌<◌, ◌≡◌, ◌≢◌, ◌↔◌, Bool, true, false, ◌&&◌, ◌||◌, some, List, [], ◌∷◌, ◌++◌, arith,
  if◌then◌else◌,
}
use landlord.Game.Types.{is_ai, plays_as_ai, Player, Game}
use landlord.Game.Types.GameStatus
use landlord.Game.Spec.{Ensures}
use landlord.Game.Player.{delete_player}
use landlord.Game.Room.{Room, logged_out, round_is_over}
use landlord.Game.Room.Pool.{release}
use landlord.Game.Room.Three.{logout_three, release_ai_player, round_over, all_wait_deal_cards}

-- Those of three players who have not logged out.
abbrev remaining : ℕ × Bool → ℕ × Bool → ℕ × Bool → List ℕ
remaining (p, x) (q, y) (r, z) =
    (if x then [] else p ∷ []) ++ (if y then [] else q ∷ []) ++ (if z then [] else r ∷ [])

-- The room in which those who remain are a pair or alone.
abbrev regrouped : List ℕ → Room → Room
regrouped [] room = room
regrouped (p ∷ []) room = record room { one = room.one ++ (p ∷ []) }
regrouped (p ∷ q ∷ []) room = record room { two = room.two ++ ((p, q) ∷ []) }
regrouped (p ∷ q ∷ r ∷ rest) room = room

-- LogoutThree breaks a table up exactly if one of the three has logged out; the two who remain are
-- a pair, the one who remains is alone, and those who remain are the same objects as before.
pub logout_three_lem :
    (p0 p1 p2 : ℕ) (room : Room) (g : Game) (a b c : Player)
    → p0 ≢ p1
    → p1 ≢ p2
    → p0 ≢ p2
    → g.cell p0 ≡ some a
    → g.cell p1 ≡ some b
    → g.cell p2 ≡ some c
    → Ensures
        (λ r g'.
          (r.0 ≡ (logged_out a || logged_out b || logged_out c))
          × (r.1
              ≡ regrouped (remaining (p0, logged_out a) (p1, logged_out b) (p2, logged_out c)) room)
          × (logged_out a ≡ false → g'.cell p0 ≡ some a)
          × (logged_out b ≡ false → g'.cell p1 ≡ some b)
          × (logged_out c ≡ false → g'.cell p2 ≡ some c))
        (logout_three (p0, p1, p2) room g)
unfolding logout_three release delete_player
logout_three_lem p0 p1 p2 room g a b c d01 d12 d02 h0 h1 h2 = ground arith

-- A player after releaseAiPlayer.
abbrev released : Player → Player
released a =
    if plays_as_ai a.player_type then record a { game_status = GameStatus.log_outed } else a

-- The pool after releaseAiPlayer: an AI that replaces nobody goes back.
abbrev pooled : ℕ → Player → List ℕ → List ℕ
pooled p a pool = if is_ai a.player_type then p ∷ pool else pool

-- roundOver answers whether the round of all three is over. If it is not, nothing changes. If it is,
-- whoever plays as an AI has logged out, and the AIs that replace nobody are back in the pool.
pub round_over_lem :
    (p0 p1 p2 : ℕ) (g : Game) (a b c : Player)
    → p0 ≢ p1
    → p1 ≢ p2
    → p0 ≢ p2
    → g.cell p0 ≡ some a
    → g.cell p1 ≡ some b
    → g.cell p2 ≡ some c
    → Ensures
        (λ over g'.
          (over ≡ (round_is_over a && round_is_over b && round_is_over c))
          × (over ≡ false → g' ≡ g)
          × (over ≡ true → g'.cell p0 ≡ some (released a))
          × (over ≡ true → g'.cell p1 ≡ some (released b))
          × (over ≡ true → g'.cell p2 ≡ some (released c))
          × (over ≡ true → g'.idle_ai ≡ pooled p2 c (pooled p1 b (pooled p0 a g.idle_ai))))
        (round_over (p0, p1, p2) g)
unfolding round_over release_ai_player
round_over_lem p0 p1 p2 g a b c d01 d12 d02 h0 h1 h2 = ground arith

-- A table with a player in a status from GAME_STATUS_DEALING_CARD on is dealt no cards.
all_wait_deal_cards_lem :
    (p0 p1 p2 : ℕ) (g : Game) (a b c : Player)
    → g.cell p0 ≡ some a
    → g.cell p1 ≡ some b
    → g.cell p2 ≡ some c
    → Ensures
        (λ ready g'.
          (g' ≡ g)
          × ((ready ≡ true) ↔ (
              (a.game_status < GameStatus.dealing_card)
              × (b.game_status < GameStatus.dealing_card)
              × (c.game_status < GameStatus.dealing_card))))
        (all_wait_deal_cards (p0, p1, p2) g)
unfolding all_wait_deal_cards
all_wait_deal_cards_lem p0 p1 p2 g a b c h0 h1 h2 = ground arith
