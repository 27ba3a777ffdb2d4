-- ===== src/Game/Room/Three.antt =====
-- Room::UpdateThree and what it calls (server/game/Room/Room.cpp).
pub mod Dealing
pub mod Breaking
pub mod Parting
pub mod Safety
use landlord.Prelude.{
  ℕ, ◌+◌, Bool, true, false, none, some, List, [], ◌∷◌, ◌++◌, ltb, if◌then◌else◌, take, drop,
}
use landlord.Cards.Shuffle.{shuffle_card}
use landlord.Game.Types.{is_ai, plays_as_ai, is_three, Player}
use landlord.Game.Types.GameStatus
use landlord.Game.Store.{M, ◌>>=◌, ◌>>◌, when, pure, and_then, read}
use landlord.Game.Player.{delete_player, set_status, deal_cards}
use landlord.Game.Room.{Room, logged_out, started, round_is_over}
use landlord.Game.Room.Pool.{release_player, release}

-- A table of three: `first.first`, `first.second` and `second` of a threePlayer.
abbrev pub Table : Type 0
Table = ℕ × ℕ × ℕ

add_one : ℕ → Room → Room
add_one p room = record room { one = room.one ++ (p ∷ []) }

add_two : ℕ → ℕ → Room → Room
add_two p q room = record room { two = room.two ++ ((p, q) ∷ []) }

-- The cases of LogoutThree, by who of the three has logged out.
break_three : Bool → Bool → Bool → Table → Room → M (Bool × Room)
unfolding add_one add_two
break_three false false false t room = pure (false, room)
break_three true false false (p0, p1, p2) room = do
  delete_player p0
  pure (true, add_two p1 p2 room)
break_three false true false (p0, p1, p2) room = do
  delete_player p1
  pure (true, add_two p0 p2 room)
break_three true true false (p0, p1, p2) room = do
  delete_player p0
  delete_player p1
  pure (true, add_one p2 room)
break_three false false true (p0, p1, p2) room = do
  delete_player p2
  pure (true, add_two p0 p1 room)
break_three true false true (p0, p1, p2) room = do
  delete_player p0
  delete_player p2
  pure (true, add_one p1 room)
break_three false true true (p0, p1, p2) room = do
  delete_player p1
  delete_player p2
  pure (true, add_one p0 room)
break_three true true true (p0, p1, p2) room = do
  release p0
  release p1
  release p2
  pure (true, room)

-- Room::LogoutThree; the Boolean says that the table is broken up.
pub logout_three : Table → Room → M (Bool × Room)
unfolding break_three
logout_three (p0, p1, p2) room = do
  a ← read p0
  b ← read p1
  c ← read p2
  break_three (logged_out a) (logged_out b) (logged_out c) (p0, p1, p2) room

-- `p0 && p1 && p2` of a test on the players of a table.
pub all_three : (Player → Bool) → Table → M Bool
all_three test (p0, p1, p2) = do
  a ← read p0
  and_then (test a) do b ← read p1; and_then (test b) do c ← read p2; pure (test c)

abbrev waits_for_cards : Player → Bool
waits_for_cards a = ltb a.game_status GameStatus.dealing_card

-- Room::allStart, allAtThree and allWaitDealCards
all_start : Table → M Bool
unfolding all_three
all_start = all_three started

all_at_three : Table → M Bool
unfolding all_three
all_at_three = all_three λ a. is_three a.queue_flags

pub all_wait_deal_cards : Table → M Bool
unfolding all_three
all_wait_deal_cards = all_three waits_for_cards

-- Room::shuffleCard calls rand() 54 times.
pub shuffled : M (List ℕ)
shuffled g = elim (shuffle_card g.random) [
  | none ↦ none
  | some cards ↦ some (cards, record g { random = λ k. g.random (k + 54) })
]

-- The three hands, and the three cards that all see.
abbrev pub Hands : Type 0
Hands = List ℕ × List ℕ × List ℕ × List ℕ

-- The places `cards`, `cards + 17`, `cards + 34` and `cards + 51` of the array.
pub hands : List ℕ → Hands
hands cards = (take 17 cards, take 17 (drop 17 cards), take 17 (drop 34 cards), drop 51 cards)

-- The three calls of Player::dealCards.
pub deal_hands : Table → Hands → M (Unit {0})
deal_hands (p0, p1, p2) h = do deal_cards p0 h.0 h.3; deal_cards p1 h.1 h.3; deal_cards p2 h.2 h.3

-- Room::dealCards
pub deal_table : Table → M (Unit {0})
unfolding shuffled
deal_table t = do cards ← shuffled; deal_hands t (hands cards)

-- One seat of Room::releaseAiPlayer.
release_seat : ℕ → M (Unit {0})
release_seat p = do
  a ← read p
  when (plays_as_ai a.player_type)
      do set_status p GameStatus.log_outed; when (is_ai a.player_type) (release_player p)

-- Room::releaseAiPlayer
pub release_ai_player : Table → M (Unit {0})
unfolding release_seat
release_ai_player (p0, p1, p2) = do release_seat p0; release_seat p1; release_seat p2

-- Room::roundOver
pub round_over : Table → M Bool
unfolding all_three
round_over t = do over ← all_three round_is_over t; when over (release_ai_player t); pure over

-- What UpdateThree does with a table that nobody has left; the Boolean says that it is erased.
play_table : Table → M Bool
play_table t = do
  start ← all_start t
  seated ← and_then start (all_at_three t)
  ready ← and_then seated (all_wait_deal_cards t)
  when ready (deal_table t)
  round_over t

-- The loop over the tables; `three` of the room collects those that stay.
three_rounds : List Table → Room → M Room
unfolding play_table
three_rounds [] room = pure room
three_rounds (t ∷ ts) room = do
  (broken, r1) ← logout_three t room
  r2 ← if broken then pure r1 else (do
    over ← play_table t
    pure (if over then r1 else record r1 { three = r1.three ++ (t ∷ []) }))
  three_rounds ts r2

-- Room::UpdateThree
pub update_three : Room → M Room
unfolding three_rounds
update_three room = three_rounds room.three (record room { three = [] })
