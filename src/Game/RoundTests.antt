-- ===== src/Game/RoundTests.antt =====
-- The properties of a turn, of leaving and of the end of a round at concrete tables.
use landlord.Prelude.{
  ℕ, ◌-◌, ◌≤◌, ◌<◌, ◌≡◌, refl, ◌≢◌, ◌⊎◌, ◌+◌, count, true, List, none, some, [], ◌∷◌, ◌++◌, arith,
  replicate, u32_mod,
}
use landlord.Cards.Hand.Face.{has_end, face}
use landlord.Game.Types.{high_nibble, PlayerInfo, new_info, PlayerType, Player, Game}
use landlord.Game.Types.GameStatus
use landlord.Game.Spec.{Ensures, Seated}
use landlord.Game.Player.Logout.{check_out_player, log_out_packet}
use landlord.Game.Player.Logout.Leaving.{IsRunning, IsPaused, Leaves, told, check_out_player-users}
use landlord.Game.Player.Playing.{check_out_card, out_packet}
use landlord.Game.Player.Playing.Turn.{turn_status, check_out_card-user}
use landlord.Game.Player.Score.{update_player_level, count_round}
use landlord.Game.Player.Score.Levels.{update_player_level_lem}
use landlord.Game.Player.RoundOver.{check_round_over, round_over_packet}
use landlord.Game.Player.RoundOver.Closing.{AfterRound, reset_player, check_round_over-users}
use landlord.Game.Player.Logout.{log_out_player}
use landlord.Game.Room.{Room}
use landlord.Game.Room.Holding.{IsSound}
use landlord.Game.Room.Update.{room_update, visits}
use landlord.Game.Room.Update.Safety.{room_update-IsSound}
use landlord.Game.Room.Update.Stale.{waiting, fresh, Faults, room_update-fresh_ai}
use landlord.Game.Fixture.{user, game, seat}

-- A user at the table, next to two AIs, who plays the only card in hand.
abbrev player_out : Player
player_out = record (seat 1 2 3) {
  game_status = GameStatus.out_carding;
  cards = 7 ∷ replicate 23 100;
  out_cards = 7 ∷ replicate 23 100;
  card_type = 1;
}

abbrev ai_seat : ℕ → ℕ → ℕ → Player
ai_seat p l r = record (seat p l r) { player_type = PlayerType.ai; session = none }

abbrev out_game : Game
out_game = game player_out (ai_seat 2 3 1) (ai_seat 3 1 2)

first-Seated :
    (a b c : Player) → a.left ≡ some 2 → a.right ≡ some 3 → Seated (game a b c) 1 2 3 a b c
first-Seated a b c l r = record {
  distinct = omega arith;
  me = refl;
  to_left = refl;
  to_right = refl;
  left_link = l;
  right_link = r;
}

check_out_card-user_example :
    ((player_out.game_status ≡ GameStatus.out_carding)
      × ((rest : List ℕ) × (has_end rest ≡ true)
          × ((k : ℕ)
              → count k (face rest) + count k (face player_out.out_cards)
                ≡ count k (face player_out.cards))
          × Ensures
              (λ _ g'.
                (g'.cell 1
                  ≡ some (record player_out { cards = rest; game_status = GameStatus.out_carded }))
                × (g'.cell 2 ≡ some (ai_seat 2 3 1))
                × (g'.cell 3
                    ≡ some (record (ai_seat 3 1 2) { game_status = GameStatus.out_carding }))
                × (g'.sent ≡ (11, out_packet 101 1 (7 ∷ replicate 23 100)) ∷ []))
              (check_out_card 1 out_game)))
    ⊎ ((player_out.game_status ≡ GameStatus.out_carded)
        × Ensures
            (λ _ g'.
              (g'.cell 1 ≡ some (record player_out { game_status = turn_status (ai_seat 3 1 2) }))
              × (g'.cell 2 ≡ some (ai_seat 2 3 1))
              × (g'.cell 3 ≡ some (ai_seat 3 1 2))
              × (g'.sent ≡ []))
            (check_out_card 1 out_game))
    ⊎ ((player_out.game_status ≢ GameStatus.out_carding)
        × (player_out.game_status ≢ GameStatus.out_carded)
        × (check_out_card 1 out_game ≡ some (tt, out_game)))
check_out_card-user_example =
    check_out_card-user 1 2 3 11 12 13 out_game _ _ _ (first-Seated _ _ _ refl refl) refl refl
      (λ e. absurd (ground arith)) (λ e. absurd (ground arith)) refl refl (λ k. omega arith)

-- The landlord, an AI, with 20 cards.
abbrev opener : Player
opener = record (ai_seat 1 2 3) {
  landlord_id = 101;
  cards = 7 ∷ (replicate 19 8 ++ replicate 4 100);
}

abbrev opening : Game
opening = game opener (seat 2 3 1) (seat 3 1 2)

update_player_level_lem_example :
    ((60000 < 100000000)
      × (update_player_level (record new_info { score = 60000 })
          ≡ some (record new_info { score = 60000; level = 3 })))
    ⊎ ((100000000 ≤ 60000) × (update_player_level (record new_info { score = 60000 }) ≡ none))
update_player_level_lem_example = update_player_level_lem (record new_info { score = 60000 })

-- A loss of 10 by a player who has 3.
abbrev loser : Player
loser = record (seat 1 2 3) {
  win_gold = u32_mod - 10;
  game_status = GameStatus.roundovering;
  info = record new_info { id = 101; gold = 3 };
}

abbrev hurried : Player
hurried = record (user 1) { game_status = GameStatus.roundovering }

abbrev hurried_game : Game
hurried_game = game hurried (user 2) (user 3)

abbrev closing_game : Game
closing_game = game loser (seat 2 3 1) (seat 3 1 2)

abbrev closed_info : PlayerInfo
closed_info = record new_info { id = 101; gold = u32_mod - 7; all_chess = 1 }

check_round_over-users_example :
    ((loser.game_status ≡ GameStatus.roundovering)
      × Ensures
          (λ _ g'.
            AfterRound 1 2 3
              (reset_player closing_game closed_info loser)
              (seat 2 3 1)
              (seat 3 1 2)
              ((11, round_over_packet closed_info) ∷ [])
              g')
          (check_round_over 4 1 closing_game))
    ⊎ ((loser.game_status ≡ GameStatus.roundovered)
        × Ensures
            (λ _ g'.
              AfterRound 1 2 3
                (reset_player closing_game loser.info loser)
                (seat 2 3 1)
                (seat 3 1 2)
                []
                g')
            (check_round_over 4 1 closing_game))
    ⊎ ((loser.game_status ≢ GameStatus.roundovering)
        × (loser.game_status ≢ GameStatus.roundovered)
        × (check_round_over 4 1 closing_game ≡ some (tt, closing_game)))
unfolding update_player_level count_round
check_round_over-users_example =
    check_round_over-users 3 1 2 3 11 closing_game _ _ _ closed_info (first-Seated _ _ _ refl refl)
      refl refl refl refl refl

abbrev alone : Player
alone = record (user 1) { game_status = 0x12 }

abbrev leaver : Player
leaver = record (seat 1 2 3) { game_status = 0x17 }

abbrev leaving_game : Game
leaving_game = game leaver (seat 2 3 1) (seat 3 1 2)

check_out_player-users_example :
    ((high_nibble leaver.game_status ≢ GameStatus.log_outing)
      × (check_out_player 4 1 leaving_game ≡ some (tt, leaving_game)))
    ⊎ ((high_nibble leaver.game_status ≡ GameStatus.log_outing)
        × IsRunning leaver.game_status
        × Ensures
            (λ _ g'.
              Leaves 1 2 3 11
                (record leaver { player_type = PlayerType.replace_ai; game_status = 7 })
                (seat 2 3 1)
                (seat 3 1 2)
                g'
              × (g'.sent ≡ told 11 12 13 (log_out_packet 101 4) []))
            (check_out_player 4 1 leaving_game))
    ⊎ ((high_nibble leaver.game_status ≡ GameStatus.log_outing)
        × IsPaused leaver.game_status
        × Ensures
            (λ _ g'.
              Leaves 1 2 3 11
                (record leaver { left = none; right = none; game_status = GameStatus.log_outed })
                (record (seat 2 3 1) { right = none })
                (record (seat 3 1 2) { left = none })
                g'
              × (g'.sent ≡ told 11 12 13 (log_out_packet 101 2) []))
            (check_out_player 4 1 leaving_game))
check_out_player-users_example =
    check_out_player-users 3 1 2 3 11 12 13 leaving_game _ _ _ (first-Seated _ _ _ refl refl)
      (refl, refl) (refl, refl) (refl, refl)

-- A user who waited alone, with the AI that UpdateOne has just made.
abbrev pair_game : Game
pair_game =
    record (game (waiting 1 2 11 (user 1) (user 2)) (fresh 1 2 11 (user 1) (user 2)) (user 3)) {
      session_player = λ s. some 1;
    }

abbrev pair_room : Room
pair_room = record {
  id = 0;
  basic_score = 5000;
  players = (101, 1) ∷ (2031, 2) ∷ [];
  one = [];
  two = (1, 2) ∷ [];
  three = [];
}

room_update-fresh_ai_example :
    (g' : Game) × (log_out_player 4 1 pair_game ≡ some (tt, g')) × Faults 2 100 pair_room g'
room_update-fresh_ai_example =
    room_update-fresh_ai 1 2 11 (user 1) (user 2) 101 2031 100 [] pair_room pair_game (omega arith)
      refl refl refl refl refl

-- A room with a pair and one alone, nobody of them visited.
abbrev calm_room : Room
calm_room = record pair_room { players = []; one = 3 ∷ [] }

room_update-IsSound_example : Ensures (IsSound []) (room_update 100 calm_room pair_game)
unfolding visits
room_update-IsSound_example =
    room_update-IsSound 100 calm_room calm_room pair_game pair_game refl λ q. ground arith
