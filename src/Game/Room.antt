-- ===== src/Game/Room.antt =====
-- class Room (server/game/Room/Room.h and Room.cpp): the players of a room and the lists of those
-- who sit alone, in twos and in threes. The children are Room::Update and the steps that it makes.
pub mod Pool
pub mod One
pub mod Two
pub mod Three
pub mod Update
pub mod Holding
use landlord.Prelude.{
  ℕ, zero, suc, ◌+◌, ◌-◌, ◌*◌, ◌/◌, ◌%◌, ◌^◌, ◌≤◌, ◌<◌, min, ◌≡◌, refl, sym, ap, ◌∙◌, ◌≢◌, ◌↔◌, ◌⊎◌,
  inl, inr, Bool, true, false, not, ◌&&◌, ◌||◌, Option, none, some, List, [], ◌∷◌, ◌++◌, map, arith,
  ltb, leb, ◌==◌, if◌then◌else◌, ==_iff, Bool-cases, Option-cases, bind, length, get_elem?, set,
  take, drop, replicate, length-append, length-set, take-append-drop, length-take, length-drop,
  length-replicate, get_elem?_total, get_elem?-set_self, get_elem?-set_ne, one_if_eq, count,
  count-append, count-set, u32_mod, add32, sub32, minus_one, is_negative, is_positive, signed_key,
  max32,
}
use landlord.Game.Types.{
  PlayerInfo, new_info, low_nibble, high_nibble, with_log_outing, PlayerType, is_user, is_ai,
  plays_as_ai, has_user_bit, AtQueueFlags, is_null, is_one_or_two, is_two, is_three, card_type_pass,
  card_type_single, Player, Field, u32, bytes, resized, player_info, Packet, Game, get_int_config,
}
use landlord.Game.Types.GameStatus
use landlord.Game.Store.{
  M, ◌>>=◌, ◌>>◌, done, fault, when, pure, and_then, or_else, read, write, modify, config, deref,
  rand, send, update,
}
use landlord.Game.Player.{
  no_cards, new_player, allocate_player, delete_player, points_to, set_status, add_player,
  deal_cards, set_start, reset_game, check_queue_status,
}

-- `players` is `_playerMap`, in the order in which an iterator meets its entries.
pub record Room : Type 0 where
  pub id : ℕ
  pub basic_score : ℕ
  pub players : List (ℕ × ℕ)
  pub one : List ℕ
  pub two : List (ℕ × ℕ)
  pub three : List (ℕ × ℕ × ℕ)

-- Room::Room
pub new_room : ℕ → ℕ → Room
new_room id basic_score = record {
  id = id;
  basic_score = basic_score;
  players = [];
  one = [];
  two = [];
  three = [];
}

-- `_playerMap[id] = player`
insert : ℕ → ℕ → List (ℕ × ℕ) → List (ℕ × ℕ)
insert id player [] = (id, player) ∷ []
insert id player ((k, q) ∷ rest) =
    if k == id then (id, player) ∷ rest else (k, q) ∷ insert id player rest

-- Room::AddPlayer with `inOne` false.
pub enter : ℕ → ℕ → Room → Room
unfolding insert
enter id player room = record room { players = insert id player room.players }

-- Room::AddPlayer with `inOne` true.
unfoldable pub enter_in_one : ℕ → ℕ → Room → M Room
unfolding enter
enter_in_one id player room = do
  modify player λ p. record p { queue_flags = AtQueueFlags.queue_one }
  pure (record (enter id player room) { one = room.one ++ (player ∷ []) })

-- Player::LogOut, expiration, started, roundOver and inTheGame (Player.h).
abbrev pub logged_out : Player → Bool
logged_out a = a.game_status == GameStatus.log_outed

abbrev pub expired : Player → Bool
expired a = is_negative a.expiration

abbrev pub started : Player → Bool
started a = a.info.start == 1

abbrev pub round_is_over : Player → Bool
round_is_over a = a.game_status == GameStatus.roundovered

abbrev pub in_the_game : Player → Bool
in_the_game a =
    ltb GameStatus.dealed_card (low_nibble a.game_status)
    && ltb (low_nibble a.game_status) GameStatus.roundovered
