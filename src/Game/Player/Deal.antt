-- ===== src/Game/Player/Deal.antt =====
-- Player::checkStart, getDefaultLandlordUserId and checkDealCards (server/game/Player/Player.cpp).
pub mod Draw
use landlord.Prelude.{
  ℕ, zero, suc, ◌+◌, ◌-◌, ◌*◌, ◌/◌, ◌%◌, ◌^◌, ◌≤◌, ◌<◌, min, ◌≡◌, refl, sym, ap, ◌∙◌, ◌≢◌, ◌↔◌, ◌⊎◌,
  inl, inr, Bool, true, false, not, ◌&&◌, ◌||◌, Option, none, some, List, [], ◌∷◌, ◌++◌, map, arith,
  ltb, leb, ◌==◌, if◌then◌else◌, ==_iff, Bool-cases, Option-cases, bind, length, get_elem?, set,
  take, drop, replicate, length-append, length-set, take-append-drop, length-take, length-drop,
  length-replicate, get_elem?_total, get_elem?-set_self, get_elem?-set_ne, one_if_eq, count,
  count-append, count-set, u32_mod, add32, sub32, minus_one, is_negative, is_positive, signed_key,
  max32,
}
use landlord.Game.Types.{is_user, plays_as_ai, Player, Packet, u32, bytes, resized}
use landlord.Game.Types.GameStatus
use landlord.Game.Types.Opcodes
use landlord.Game.Store.{M, ◌>>=◌, ◌>>◌, when, pure, read, modify, deref, rand, send}
use landlord.Game.Player.{set_status}
use landlord.Game.Player.Logout.{tell}

abbrev pub wait_start_packet : ℕ → Packet
wait_start_packet id = record { opcode = Opcodes.cmsg_wait_start; fields = resized 8 ∷ u32 id ∷ [] }

-- Player::checkStart
unfoldable pub check_start : ℕ → M (Unit {0})
check_start this = do
  a ← read this
  when (a.game_status == GameStatus.starting) do
    tell a.left (wait_start_packet a.info.id)
    tell a.right (wait_start_packet a.info.id)
    set_status this GameStatus.started

-- The switch over `rand() % 3`.
chosen_id : Player → ℕ → M ℕ
chosen_id a index =
    if index == 0
    then pure a.info.id
    else if index == 1
    then (do l ← deref a.left; b ← read l; pure b.info.id)
    else (do r ← deref a.right; b ← read r; pure b.info.id)

-- Player::getDefaultLandlordUserId: the first who asks draws for the table.
pub get_default_landlord : ℕ → M ℕ
unfolding chosen_id
get_default_landlord this = do
  a ← read this
  when (a.default_landlord == 0) do
    roll ← rand
    id ← chosen_id a (roll % 3)
    modify this λ p. record p { default_landlord = id }
    l ← deref a.left
    modify l λ p. record p { default_landlord = id }
    r ← deref a.right
    modify r λ p. record p { default_landlord = id }
  b ← read this
  pure b.default_landlord

abbrev pub deal_packet : ℕ → List ℕ → Packet
deal_packet landlord cards = record {
  opcode = Opcodes.smsg_card_deal;
  fields = resized 8 ∷ u32 landlord ∷ bytes (take 17 cards) ∷ bytes (drop 17 cards) ∷ [];
}

-- Player::checkDealCards
unfoldable pub check_deal_cards : ℕ → M (Unit {0})
unfolding get_default_landlord
check_deal_cards this = do
  a ← read this
  when (a.game_status == GameStatus.dealing_card) do
    when (is_user a.player_type)
        do id ← get_default_landlord this; b ← read this; send this (deal_packet id b.cards)
    set_status this GameStatus.dealed_card
    first ← get_default_landlord this
    when (first == a.info.id && plays_as_ai a.player_type)
        (set_status this GameStatus.grabing_landlord)
