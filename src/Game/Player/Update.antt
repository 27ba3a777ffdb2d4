-- ===== src/Game/Player/Update.antt =====
-- Player::Update and UpdateAiDelay (server/game/Player/Player.cpp).
use landlord.Prelude.{ℕ, ◌&&◌, ◌||◌, ◌==◌, sub32}
use landlord.Game.Types.{plays_as_ai, is_one_or_two}
use landlord.Game.Types.GameStatus
use landlord.Game.Store.{M, ◌>>=◌, ◌>>◌, when, read, modify}
use landlord.Game.Player.{check_queue_status}
use landlord.Game.Player.Logout.{check_out_player}
use landlord.Game.Player.Deal.{check_start, check_deal_cards}
use landlord.Game.Player.Bidding.{check_grab_landlord}
use landlord.Game.Player.Playing.{check_out_card}
use landlord.Game.Player.RoundOver.{check_round_over}

-- The fuel of the calls between neighbours: a table has three seats.
abbrev table_fuel : ℕ
table_fuel = 4

-- Player::UpdateAiDelay
update_ai_delay : ℕ → ℕ → M (Unit {0})
update_ai_delay this diff = do
  a ← read this
  when
      (plays_as_ai a.player_type
        && (a.game_status == GameStatus.grabing_landlord
            || a.game_status == GameStatus.out_carding))
      (modify this λ p. record p { ai_delay = sub32 p.ai_delay diff })

-- Player::Update
unfoldable pub player_update : ℕ → ℕ → M (Unit {0})
unfolding update_ai_delay
player_update this diff = do
  a ← read this
  when (is_one_or_two a.queue_flags)
      (modify this λ p. record p { expiration = sub32 p.expiration diff })
  update_ai_delay this diff
  check_out_player table_fuel this
  check_queue_status this
  check_start this
  check_deal_cards this
  check_grab_landlord this
  check_out_card this
  check_round_over table_fuel this
