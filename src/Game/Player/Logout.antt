-- ===== src/Game/Player/Logout.antt =====
-- Player::checkOutPlayer and Player::logOutPlayer (server/game/Player/Player.cpp).
pub mod Leaving
use landlord.Prelude.{ℕ, zero, suc, ◌&&◌, Option, none, some, [], ◌∷◌, ltb, ◌==◌, if◌then◌else◌}
use landlord.Game.Types.{
  PlayerType, is_user, is_ai, Packet, u32, resized, low_nibble, high_nibble, with_log_outing,
}
use landlord.Game.Types.GameStatus
use landlord.Game.Types.Opcodes
use landlord.Game.Store.{
  or_else, pure, M, ◌>>=◌, ◌>>◌, done, fault, when, read, modify, deref, send,
}
use landlord.Game.Player.{set_status}

-- 4 in a running game, else 2.
abbrev pub logout_status : ℕ → ℕ
logout_status s =
    if ltb GameStatus.dealing_card (low_nibble s) && ltb (low_nibble s) GameStatus.roundovering
    then 4
    else 2

abbrev pub log_out_packet : ℕ → ℕ → Packet
log_out_packet id status = record {
  opcode = Opcodes.cmsg_log_out;
  fields = resized 8 ∷ u32 id ∷ u32 status ∷ [];
}

-- `if (p != nullptr && p->getPlayerType() == PLAYER_TYPE_USER) p->GetSession()->SendPacket(&data);`
abbrev pub tell : Option ℕ → Packet → M (Unit {0})
tell none packet = done
tell (some p) packet = do a ← read p; when (is_user a.player_type) (send p packet)

-- The branch of a running game: the AI takes the seat over, unless no user is left at the table.
pub leave_running : ℕ → M (Unit {0})
leave_running this = do
  a ← read this
  l ← deref a.left
  lp ← read l
  stays ←
      or_else (is_user lp.player_type)
        (do r ← deref a.right; rp ← read r; pure (is_user rp.player_type))
  if stays then (modify this λ p. record p { game_status = low_nibble p.game_status }) else (do
    set_status l GameStatus.log_outing
    r ← deref a.right
    set_status r GameStatus.log_outing
    set_status this GameStatus.log_outed)
  modify this λ p. record p { player_type = PlayerType.replace_ai }

-- An AI neighbour leaves too.
dismiss : (ℕ → M (Unit {0})) → ℕ → M (Unit {0})
dismiss again p = do
  a ← read p
  when (is_ai a.player_type) do set_status p GameStatus.log_outing; again p

dismiss_left : (ℕ → M (Unit {0})) → Option ℕ → M (Unit {0})
unfolding dismiss
dismiss_left again none = done
dismiss_left again (some l) = do modify l λ p. record p { right = none }; dismiss again l

dismiss_right : (ℕ → M (Unit {0})) → Option ℕ → M (Unit {0})
unfolding dismiss
dismiss_right again none = done
dismiss_right again (some r) = do modify r λ p. record p { left = none }; dismiss again r

-- The branch outside a running game: the table is left, and with it go its AI players.
pub leave_table : (ℕ → M (Unit {0})) → ℕ → M (Unit {0})
unfolding dismiss_left dismiss_right
leave_table again this = do
  a ← read this
  dismiss_left again a.left
  b ← read this
  dismiss_right again b.right
  modify this λ p. record p { left = none; right = none; game_status = GameStatus.log_outed }

-- The session of a player forgets it.
abbrev clear : Option ℕ → (ℕ → Option ℕ) → ℕ → Option ℕ
clear none players = players
clear (some s) players = λ t. if s == t then none else players t

-- `if (_session != nullptr) GetSession()->setPlayer(nullptr); _session = nullptr;`
detach : ℕ → M (Unit {0})
detach this = do
  a ← read this
  λ g. some (tt, record g { session_player = clear a.session g.session_player })
  modify this λ p. record p { session = none }

-- The body of checkOutPlayer under its test.
leave : (ℕ → M (Unit {0})) → ℕ → M (Unit {0})
unfolding leave_running leave_table detach
leave again this = do
  a ← read this
  let status = logout_status a.game_status
  tell (some this) (log_out_packet a.info.id status)
  tell a.left (log_out_packet a.info.id status)
  tell a.right (log_out_packet a.info.id status)
  if status == 4 then leave_running this else leave_table again this
  detach this

-- Player::checkOutPlayer. The calls for the neighbours take fuel; three rounds are a whole table.
unfoldable pub check_out_player : ℕ → ℕ → M (Unit {0})
unfolding leave
check_out_player zero this = fault
check_out_player (suc fuel) this = do
  a ← read this
  when (high_nibble a.game_status == GameStatus.log_outing) (leave (check_out_player fuel) this)

-- Player::logOutPlayer
unfoldable pub log_out_player : ℕ → ℕ → M (Unit {0})
log_out_player fuel this = do
  modify this λ p. record p { game_status = with_log_outing p.game_status }
  check_out_player fuel this
