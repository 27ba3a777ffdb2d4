-- ===== src/Game/Types.antt =====
-- The data of Player.h, Opcodes.h and the part of World.h that the game reads
-- (server/game/Player, server/game/Server/Protocol, server/game/World).
pub mod GameStatus
pub mod Opcodes
pub mod Configs
use landlord.Prelude.{
  ℕ, zero, suc, ◌+◌, ◌-◌, ◌*◌, ◌/◌, ◌%◌, ◌^◌, ◌≤◌, ◌<◌, min, ◌≡◌, refl, sym, ap, ◌∙◌, ◌≢◌, ◌↔◌, ◌⊎◌,
  inl, inr, Bool, true, false, not, ◌&&◌, ◌||◌, Option, none, some, List, [], ◌∷◌, ◌++◌, map, arith,
  ltb, leb, ◌==◌, if◌then◌else◌, ==_iff, Bool-cases, Option-cases, bind, length, get_elem?, set,
  take, drop, replicate, length-append, length-set, take-append-drop, length-take, length-drop,
  length-replicate, get_elem?_total, get_elem?-set_self, get_elem?-set_ne, one_if_eq, count,
  count-append, count-set, u32_mod, add32, sub32, minus_one, is_negative, is_positive, signed_key,
  max32,
}
use Configs

-- struct PlayerInfo; each number is a uint32 and each text an array of 12 chars.
pub record PlayerInfo : Type 0 where
  pub id : ℕ
  pub icon_id : ℕ
  pub sex : ℕ
  pub gold : ℕ
  pub level : ℕ
  pub score : ℕ
  pub all_chess : ℕ
  pub win_chess : ℕ
  pub win_rate : ℕ
  pub offline_count : ℕ
  pub start : ℕ
  pub type : ℕ
  pub desk_id : ℕ
  pub props_count : List ℕ
  pub account : List ℕ
  pub name : List ℕ
  pub nick_name : List ℕ

-- PlayerInfo::PlayerInfo
abbrev pub new_info : PlayerInfo
new_info = record {
  id = 0;
  icon_id = 0;
  sex = 0;
  gold = 0;
  level = 0;
  score = 0;
  all_chess = 0;
  win_chess = 0;
  win_rate = 0;
  offline_count = 0;
  start = 0;
  type = 0;
  desk_id = 0;
  props_count = replicate 16 0;
  account = replicate 12 0;
  name = replicate 12 0;
  nick_name = replicate 12 0;
}

-- `s & 0x0f` of a uint8.
abbrev pub low_nibble : ℕ → ℕ
low_nibble s = s % 16

-- `s & 0xf0` of a uint8.
abbrev pub high_nibble : ℕ → ℕ
high_nibble s = s / 16 % 16 * 16

-- `s | GAME_STATUS_LOG_OUTING`: sets the bit of value 16.
abbrev pub with_log_outing : ℕ → ℕ
with_log_outing s = if s / 16 % 2 == 1 then s else s + 16

-- enum PlayerType: the values 0x01, 0x11 and 0x10.
pub data PlayerType : Type 0 where
  user replace_ai ai : PlayerType

-- `type == PLAYER_TYPE_USER`
abbrev pub is_user : PlayerType → Bool
is_user PlayerType.user = true
is_user _ = false

-- `type == PLAYER_TYPE_AI`
abbrev pub is_ai : PlayerType → Bool
is_ai PlayerType.ai = true
is_ai _ = false

-- `type & PLAYER_TYPE_AI`
abbrev pub plays_as_ai : PlayerType → Bool
plays_as_ai PlayerType.user = false
plays_as_ai _ = true

-- `type & PLAYER_TYPE_USER`
abbrev pub has_user_bit : PlayerType → Bool
has_user_bit PlayerType.ai = false
has_user_bit _ = true

-- enum AtQueueFlags
pub data AtQueueFlags : Type 0 where
  queue_null queue_one queue_two queue_three : AtQueueFlags

abbrev pub is_null : AtQueueFlags → Bool
is_null AtQueueFlags.queue_null = true
is_null _ = false

abbrev pub is_one_or_two : AtQueueFlags → Bool
is_one_or_two AtQueueFlags.queue_one = true
is_one_or_two AtQueueFlags.queue_two = true
is_one_or_two _ = false

abbrev pub is_two : AtQueueFlags → Bool
is_two AtQueueFlags.queue_two = true
is_two _ = false

abbrev pub is_three : AtQueueFlags → Bool
is_three AtQueueFlags.queue_three = true
is_three _ = false

-- enum CardType; a client may send any other number.
abbrev pub card_type_pass : ℕ
card_type_pass = 0

abbrev pub card_type_single : ℕ
card_type_single = 1

-- class Player. A pointer to a player or to a session is the number of the object, and `none` is
-- the null pointer. An int32 is its bit pattern. `cards` is the memory of `_cards[17]` and of
-- `_baseCards[7]` behind it: OutCardAi walks from the one into the other.
pub record Player : Type 0 where
  pub session : Option ℕ
  pub expiration : ℕ
  pub ai_delay : ℕ
  pub cards : List ℕ
  pub room_id : ℕ
  pub left : Option ℕ
  pub right : Option ℕ
  pub queue_flags : AtQueueFlags
  pub player_type : PlayerType
  pub game_status : ℕ
  pub default_landlord : ℕ
  pub grab_score : ℕ
  pub landlord_id : ℕ
  pub card_type : ℕ
  pub out_cards : List ℕ
  pub win_gold : ℕ
  pub info : PlayerInfo

-- What is put into a packet: a uint32, raw bytes, zeros up to a size (`resize`), the memory of a
-- PlayerInfo.
pub data Field : Type 0 where
  u32 : ℕ → Field
  bytes : List ℕ → Field
  resized : ℕ → Field
  player_info : PlayerInfo → Field

-- class WorldPacket as the sequence of insertions that builds it.
pub record Packet : Type 0 where
  pub opcode : ℕ
  pub fields : List Field

-- The state that the game's code works on. `cell` is the store of Player objects, `next` the number
-- of the next object that `new Player` makes, `idle_ai` the list of AiPlayerPool, `sent` what was
-- handed to WorldSession::SendPacket of each session, the newest first, and `session_player` the `_player` of each WorldSession. From
-- outside come the results of rand(), `random 0` the next one, the float division of
-- Player::UpdatePlayerData, cut to a uint32, and what the memory of a new Player holds where the
-- constructor sets nothing: `_cardType` and `_outCards`.
pub record Game : Type 0 where
  pub cell : ℕ → Option Player
  pub next : ℕ
  pub idle_ai : List ℕ
  pub session_player : ℕ → Option ℕ
  pub sent : List (ℕ × Packet)
  pub int_configs : ℕ → ℕ
  pub random : ℕ → ℕ
  pub float_ratio : ℕ → ℕ → ℕ
  pub raw_card_type : ℕ → ℕ
  pub raw_out_cards : ℕ → List ℕ

-- World::getIntConfig
unfoldable pub get_int_config : Game → ℕ → ℕ
get_int_config g index = if ltb index Configs.int_config_value_count then g.int_configs index else 0
