-- ===== src/Game/Room/Pool.antt =====
-- AiPlayerPool (server/game/AI/AiPlayerPool.cpp). The head of `idle_ai` is the back of the C++ list,
-- where players come and go.
use landlord.Prelude.{
  ℕ, zero, suc, ◌+◌, ◌*◌, ◌/◌, ◌%◌, none, some, List, [], ◌∷◌, if◌then◌else◌, replicate,
}
use landlord.Game.Types.{PlayerInfo, new_info, PlayerType, is_ai}
use landlord.Game.Types.Configs
use landlord.Game.Store.{M, ◌>>=◌, ◌>>◌, done, pure, read, modify, config, rand}
use landlord.Game.Player.{allocate_player, delete_player, set_start}

-- The decimal digits of a number of six digits and the zero behind them, in 12 chars.
abbrev account_text : ℕ → List ℕ
account_text n =
    (b'0' + n / 100000 % 10)
    ∷ (b'0' + n / 10000 % 10)
    ∷ (b'0' + n / 1000 % 10)
    ∷ (b'0' + n / 100 % 10)
    ∷ (b'0' + n / 10 % 10)
    ∷ (b'0' + n % 10)
    ∷ replicate 6 0

-- The nick name in configureAiPlayer, in the encoding of the source file.
abbrev ai_nick_name : List ℕ
ai_nick_name = 204 ∷ 236 ∷ 204 ∷ 236 ∷ 207 ∷ 242 ∷ 201 ∷ 207 ∷ replicate 4 0

-- The PlayerInfo that configureAiPlayer fills in. `all_Chess * 0.4` in doubles is exact here, and
-- `win_Rate = 0.4` is cut to 0.
abbrev ai_info : ℕ → ℕ → ℕ → ℕ → PlayerInfo
ai_info id sex gold room_id = record new_info {
  id = id;
  sex = sex;
  gold = gold;
  level = room_id * 2 + 1;
  all_chess = room_id * 100 + 80;
  win_chess = (room_id * 100 + 80) * 2 / 5;
  win_rate = 0;
  account = account_text (id + 524288);
  nick_name = ai_nick_name;
}

-- AiPlayerPool::configureAiPlayer
unfoldable pub configure_ai_player : ℕ → ℕ → M (Unit {0})
configure_ai_player player room_id = do
  roll ← rand
  flip ← rand
  gold ← config (Configs.room1_gold + room_id)
  modify player λ p. record p {
    info = ai_info (2000 + roll % 100) (flip % 2) gold room_id;
    player_type = PlayerType.ai;
  }
  set_start player

-- `_aiPlayerList.back()` and `pop_back()`, with a new player if the list is empty.
unfoldable pub take_ai_player : M ℕ
take_ai_player g = elim g.idle_ai [
  | [] ↦ allocate_player none g
  | p ∷ rest ↦ some (p, record g { idle_ai = rest })
]

-- AiPlayerPool::getAiPlayer
unfoldable pub get_ai_player : ℕ → M ℕ
unfolding take_ai_player configure_ai_player
get_ai_player room_id = do player ← take_ai_player; configure_ai_player player room_id; pure player

-- AiPlayerPool::releasePlayer
abbrev pub release_player : ℕ → M (Unit {0})
release_player p g = some (tt, record g { idle_ai = p ∷ g.idle_ai })

-- AiPlayerPool::AiPlayerPool
fill_pool : ℕ → M (Unit {0})
fill_pool zero = done
fill_pool (suc n) = do player ← allocate_player none; release_player player; fill_pool n

new_pool : M (Unit {0})
unfolding fill_pool
new_pool = do n ← config Configs.ai_player_count; fill_pool n

-- RELEASE of Room.cpp: an AI goes back to the pool, any other player is deleted.
unfoldable pub release : ℕ → M (Unit {0})
release p = do a ← read p; if is_ai a.player_type then release_player p else delete_player p
