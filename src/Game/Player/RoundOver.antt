-- ===== src/Game/Player/RoundOver.antt =====
-- Player::checkRoundOver (server/game/Player/Player.cpp).
pub mod Closing
use landlord.Prelude.{ℕ, zero, suc, Bool, not, ◌&&◌, [], ◌∷◌, ◌==◌}
use landlord.Game.Types.{is_user, plays_as_ai, Player, Packet, PlayerInfo, player_info, resized}
use landlord.Game.Types.GameStatus
use landlord.Game.Types.Opcodes
use landlord.Game.Store.{M, ◌>>=◌, ◌>>◌, fault, when, read, deref, send}
use landlord.Game.Player.{set_status, reset_game}
use landlord.Game.Player.Score.{update_player_data}

abbrev pub round_over_packet : PlayerInfo → Packet
round_over_packet info = record {
  opcode = Opcodes.cmsg_round_over;
  fields = resized 8 ∷ player_info info ∷ [];
}

-- An AI whose round is still open closes it too.
abbrev still_open : Player → Bool
still_open a = plays_as_ai a.player_type && not (a.game_status == GameStatus.roundovered)

-- The branch of GAME_STATUS_ROUNDOVERING; `again` is checkRoundOver for the right neighbour.
close_round : (ℕ → M (Unit {0})) → ℕ → M (Unit {0})
close_round again this = do
  update_player_data this
  a ← read this
  when (is_user a.player_type) (send this (round_over_packet a.info))
  set_status this GameStatus.roundovered
  l ← deref a.left
  lp ← read l
  when (still_open lp) (set_status l GameStatus.roundovering)
  r ← deref a.right
  rp ← read r
  when (still_open rp) do set_status r GameStatus.roundovering; again r

-- Player::checkRoundOver. The calls for the right neighbour take fuel.
unfoldable pub check_round_over : ℕ → ℕ → M (Unit {0})
unfolding close_round
check_round_over zero this = fault
check_round_over (suc fuel) this = do
  a ← read this
  when (a.game_status == GameStatus.roundovering) (close_round (check_round_over fuel) this)
  b ← read this
  when (b.game_status == GameStatus.roundovered) (reset_game this)
