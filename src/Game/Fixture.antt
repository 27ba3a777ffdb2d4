-- ===== src/Game/Fixture.antt =====
-- The concrete tables of the tests.
use landlord.Prelude.{
  ℕ, ◌+◌, ◌*◌, ◌/◌, refl, Option, none, some, [], arith, ◌==◌, if◌then◌else◌, minus_one,
}
use landlord.Game.Types.{new_info, PlayerType, AtQueueFlags, Player, Game}
use landlord.Game.Types.GameStatus
use landlord.Game.Spec.{Seated}
use landlord.Game.Player.{no_cards}

-- A user with a session, at no table.
abbrev pub user : ℕ → Player
user n = record {
  session = some (10 + n);
  expiration = 4000;
  ai_delay = 2000;
  cards = no_cards;
  room_id = 0;
  left = none;
  right = none;
  queue_flags = AtQueueFlags.queue_one;
  player_type = PlayerType.user;
  game_status = GameStatus.started;
  default_landlord = 0;
  grab_score = minus_one;
  landlord_id = minus_one;
  card_type = 0;
  out_cards = [];
  win_gold = 0;
  info = record new_info { id = 100 + n };
}

-- Three players in the store, under the numbers 1, 2 and 3.
abbrev cells : Player → Player → Player → ℕ → Option Player
cells a b c p =
    if p == 1 then some a else if p == 2 then some b else if p == 3 then some c else none

abbrev pub game : Player → Player → Player → Game
game a b c = record {
  cell = cells a b c;
  next = 4;
  idle_ai = [];
  session_player = λ s. none;
  sent = [];
  int_configs = λ i. 5;
  random = λ k. k * 31 + 7;
  float_ratio = λ a b. a / b;
  raw_card_type = λ n. 0;
  raw_out_cards = λ n. [];
}

abbrev pub strangers : Game
strangers = game (user 1) (user 2) (user 3)

-- The three at one table: 2 sits on the left of 1, and 3 on the right.
abbrev pub seat : ℕ → ℕ → ℕ → Player
seat p l r = record (user p) { left = some l; right = some r }

-- The table with these bids; the first player is about to make the bid known.
abbrev bidder : ℕ → ℕ → ℕ → ℕ → ℕ → Player
bidder p l r status bid = record (seat p l r) { game_status = status; grab_score = bid }

abbrev pub table : ℕ → ℕ → ℕ → Game
table x y z =
    game (bidder 1 2 3 GameStatus.grabing_landlord x) (bidder 2 3 1 GameStatus.grabed_land_lord y)
      (bidder 3 1 2 GameStatus.grabed_land_lord z)

pub table-Seated :
    (x y z : ℕ)
    → Seated
        (table x y z)
        1
        2
        3
        (bidder 1 2 3 GameStatus.grabing_landlord x)
        (bidder 2 3 1 GameStatus.grabed_land_lord y)
        (bidder 3 1 2 GameStatus.grabed_land_lord z)
table-Seated x y z = record {
  distinct = omega arith;
  me = refl;
  to_left = refl;
  to_right = refl;
  left_link = refl;
  right_link = refl;
}
