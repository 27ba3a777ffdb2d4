-- ===== src/Game/Player.antt =====
-- class Player (server/game/Player/Player.h and Player.cpp): construction, links and queue state.
-- The steps of Player::Update are in the child modules.
pub mod Score
pub mod Logout
pub mod Deal
pub mod Bidding
pub mod Playing
pub mod RoundOver
pub mod Update
use landlord.Prelude.{
  ℕ, zero, suc, ◌+◌, ◌-◌, ◌*◌, ◌/◌, ◌%◌, ◌^◌, ◌≤◌, ◌<◌, min, ◌≡◌, refl, sym, ap, ◌∙◌, ◌≢◌, ◌↔◌, ◌⊎◌,
  inl, inr, Bool, true, false, not, ◌&&◌, ◌||◌, Option, none, some, List, [], ◌∷◌, ◌++◌, map, arith,
  ltb, leb, ◌==◌, if◌then◌else◌, ==_iff, Bool-cases, Option-cases, bind, length, get_elem?, set,
  take, drop, replicate, length-append, length-set, take-append-drop, length-take, length-drop,
  length-replicate, get_elem?_total, get_elem?-set_self, get_elem?-set_ne, one_if_eq, count,
  count-append, count-set, u32_mod, add32, sub32, minus_one, is_negative, is_positive, signed_key,
  max32,
}
use landlord.Cards.Hand.{card_terminate}
use landlord.Game.Types.{
  PlayerType, AtQueueFlags, is_three, is_two, is_user, has_user_bit, Player, PlayerInfo, Packet,
  Field, new_info, u32, resized, player_info, Game, get_int_config,
}
use landlord.Game.Types.GameStatus
use landlord.Game.Types.Configs
use landlord.Game.Types.Opcodes
use landlord.Game.Store.{
  M, ◌>>=◌, ◌>>◌, done, when, pure, read, write, modify, config, deref, send, update,
}

-- All 24 entries of `_cards` and `_baseCards`.
abbrev pub no_cards : List ℕ
no_cards = replicate 24 card_terminate

-- Player::Player; `n` is the number of the object.
pub new_player : Game → Option ℕ → Player
new_player g session = record {
  session = session;
  expiration = get_int_config g Configs.wait_time;
  ai_delay = get_int_config g Configs.ai_delay;
  cards = no_cards;
  room_id = 0;
  left = none;
  right = none;
  queue_flags = AtQueueFlags.queue_null;
  player_type = PlayerType.user;
  game_status = GameStatus.wait_start;
  default_landlord = 0;
  grab_score = minus_one;
  landlord_id = minus_one;
  card_type = g.raw_card_type g.next;
  out_cards = g.raw_out_cards g.next;
  win_gold = 0;
  info = new_info;
}

-- `new Player(session)`
unfoldable pub allocate_player : Option ℕ → M ℕ
unfolding new_player
allocate_player session g = some (
  g.next,
  record g { cell = update g.cell g.next (some (new_player g session)); next = g.next + 1 },
)

-- `delete player`
unfoldable pub delete_player : ℕ → M (Unit {0})
delete_player p = do _ ← read p; λ g. some (tt, record g { cell = update g.cell p none })

-- `q == p` for a pointer that may be null.
abbrev pub points_to : Option ℕ → ℕ → Bool
points_to none p = false
points_to (some q) p = q == p

abbrev pub set_status : ℕ → ℕ → M (Unit {0})
set_status p s = modify p λ a. record a { game_status = s }

-- The two branches of Player::addPlayer that link.
unfoldable pub link : Player → ℕ → ℕ → M (Unit {0})
link a this player = elim a.left [
  | none ↦ do
    modify this λ p. record p { left = some player }
    modify player λ p. record p { right = some this }
  | some _ ↦ elim a.right [
    | none ↦ do
      modify this λ p. record p { right = some player }
      modify player λ p. record p { left = some this }
    | some _ ↦ done
  ]
]

-- Player::addPlayer
unfoldable pub add_player : ℕ → ℕ → M (Unit {0})
unfolding link
add_player this player = do
  a ← read this
  when (not (points_to a.left player || points_to a.right player)) do
    link a this player
    wait ← config Configs.wait_time
    modify this λ p. record p { expiration = wait }

-- Player::dealCards: the 17 entries of `_cards` and the first three of `_baseCards`.
unfoldable pub deal_cards : ℕ → List ℕ → List ℕ → M (Unit {0})
deal_cards this cards base_cards = modify this λ p. record p {
  cards = cards ++ base_cards ++ drop 20 p.cards;
  game_status = GameStatus.dealing_card;
}

-- Player::setStart
unfoldable pub set_start : ℕ → M (Unit {0})
set_start this =
    modify this
      λ p. record p { game_status = GameStatus.starting; info = record p.info { start = 1 } }

-- Player::resetGame
pub reset_game : ℕ → M (Unit {0})
reset_game this = do
  wait ← config Configs.wait_time
  delay ← config Configs.ai_delay
  modify this λ p. record p {
    cards = no_cards;
    queue_flags = if has_user_bit p.player_type then AtQueueFlags.queue_null else p.queue_flags;
    expiration = wait;
    ai_delay = delay;
    left = none;
    right = none;
    default_landlord = 0;
    grab_score = minus_one;
    landlord_id = minus_one;
    win_gold = 0;
  }

abbrev is_some : {A : Type 0} → Option A → Bool
is_some none = false
is_some (some _) = true

-- `_right != nullptr ? _right : _left`
abbrev right_or_left : Option ℕ → Option ℕ → Option ℕ
right_or_left none left = left
right_or_left (some r) left = some r

-- Player::sendTwoDesk
send_two_desk : ℕ → M (Unit {0})
send_two_desk this = do
  a ← read this
  when (is_user a.player_type) do
    p ← deref (right_or_left a.right a.left)
    b ← read p
    send this (record {
      opcode = Opcodes.smsg_desk_two;
      fields =
          (resized 8 ∷ u32 1 ∷ [])
          ++ (if is_some a.left then resized (8 + 4 + 152) ∷ [] else [])
          ++ (player_info b.info ∷ [])
          ++ (if is_some a.right then resized (8 + 4 + 152 + 152) ∷ [] else []);
    })

-- Player::sendThreeDesk
send_three_desk : ℕ → M (Unit {0})
send_three_desk this = do
  a ← read this
  when (is_user a.player_type) do
    l ← deref a.left
    b ← read l
    r ← deref a.right
    c ← read r
    send this (record {
      opcode = Opcodes.smsg_desk_three;
      fields = resized 8 ∷ u32 1 ∷ player_info b.info ∷ player_info c.info ∷ [];
    })

-- Player::checkQueueStatus
unfoldable pub check_queue_status : ℕ → M (Unit {0})
unfolding send_two_desk send_three_desk
check_queue_status this = do
  a ← read this
  if is_some a.left && is_some a.right
      then when (not (is_three a.queue_flags)) (do
        modify this λ p. record p { queue_flags = AtQueueFlags.queue_three }
        send_three_desk this)
      else when ((is_some a.left || is_some a.right) && not (is_two a.queue_flags))
          do modify this λ p. record p { queue_flags = AtQueueFlags.queue_two }; send_two_desk this
