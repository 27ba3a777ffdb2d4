-- ===== src/Game/Player/Score.antt =====
-- Player::UpdatePlayerData, UpdatePlayerLevel and calcDoubleScore (server/game/Player/Player.cpp).
pub mod Levels
use landlord.Prelude.{
  ℕ, ◌+◌, ◌*◌, ◌%◌, Bool, ◌||◌, Option, none, some, List, [], ◌∷◌, ltb, leb, ◌==◌, if◌then◌else◌,
  bind, get_elem?, u32_mod, add32, minus_one, is_positive,
}
use landlord.Game.Types.{Player, PlayerInfo, Game, get_int_config}
use landlord.Game.Types.Configs
use landlord.Game.Store.{M, ◌>>=◌, read, write}

-- `props_count[i]`; the code reads it at constants below PROPS_COUNT only.
abbrev prop : PlayerInfo → ℕ → ℕ
prop info i = elim (get_elem? info.props_count i) [ none ↦ 0 | some n ↦ n ]

-- Player::calcDoubleScore: a double card and a VIP card each double the score.
calc_double_score : PlayerInfo → ℕ
calc_double_score info =
    let double = if ltb 0 (prop info 0) || prop info 1 == minus_one then 2 else 1 in
    if ltb 0 (prop info 13) || ltb 0 (prop info 14) || prop info 15 == minus_one
    then double * 2
    else double

-- LevelTable
abbrev pub level_table : List ℕ
level_table =
    5000 ∷ 10000 ∷ 50000 ∷ 100000 ∷ 300000 ∷ 800000 ∷ 1500000 ∷ 2000000 ∷ 5000000 ∷ 10000000
    ∷ 15000000 ∷ 30000000 ∷ 50000000 ∷ 100000000 ∷ []

-- `while (score >= LevelTable[level]) level++;`: the list is what is left of the table, and a read
-- past it is a fault.
pub level_from : ℕ → ℕ → List ℕ → Option ℕ
level_from score level [] = none
level_from score level (bound ∷ bounds) =
    let more = level_from score (level + 1) bounds in if leb bound score then more else some level

-- Player::UpdatePlayerLevel
unfoldable pub update_player_level : PlayerInfo → Option PlayerInfo
unfolding level_from
update_player_level info =
    bind (level_from info.score 0 level_table) λ level. some (record info { level = level })

-- `_playerInfo.gold += _winGold`: the uint32 wraps, so the test `gold < 0` behind it never holds.
abbrev won : Player → Bool
won a = is_positive a.win_gold

-- Player::UpdatePlayerData up to the call of UpdatePlayerLevel.
unfoldable pub count_round : Game → Player → PlayerInfo
unfolding calc_double_score
count_round g a =
    let games = add32 a.info.all_chess 1 in
    let wins = if won a then add32 a.info.win_chess 1 else a.info.win_chess in
    let points =
      (a.room_id + 1) * get_int_config g Configs.basic_score * calc_double_score a.info in
    record a.info {
      gold = add32 a.info.gold a.win_gold;
      all_chess = games;
      win_chess = wins;
      win_rate = g.float_ratio (100 * wins % u32_mod) games;
      score = if won a then add32 a.info.score (points % u32_mod) else a.info.score;
    }

-- Player::UpdatePlayerData
unfoldable pub update_player_data : ℕ → M (Unit {0})
unfolding count_round update_player_level
update_player_data this = do
  a ← read this
  λ g. elim (update_player_level (count_round g a)) [
    | none ↦ none
    | some info ↦ write this (record a { info = info }) g
  ]
