-- ===== src/Game/Player/Bidding.antt =====
-- The auction for the landlord: Player::aiGrabLandlord, getLandlordId, checkGrabLandlord and
-- beginOutCard (server/game/Player/Player.cpp).
pub mod Election
pub mod Settle
use landlord.Prelude.{
  ℕ, ◌%◌, Bool, not, ◌&&◌, ◌||◌, [], ◌∷◌, ltb, ◌==◌, if◌then◌else◌, minus_one, is_positive, max32,
}
use landlord.Game.Types.{is_user, plays_as_ai, Player, Packet, u32, resized}
use landlord.Game.Types.GameStatus
use landlord.Game.Types.Opcodes
use landlord.Game.Types.Configs
use landlord.Game.Store.{
  M, ◌>>=◌, ◌>>◌, when, pure, and_then, or_else, read, modify, config, deref, rand, send,
}
use landlord.Game.Player.{set_status}

-- `std::max` of two uint32.
abbrev max_u32 : ℕ → ℕ → ℕ
max_u32 a b = if ltb a b then b else a

-- Player::aiGrabLandlord: the scores of the neighbours are compared as uint32.
pub ai_grab_landlord : ℕ → M ℕ
ai_grab_landlord this = do
  a ← read this
  l ← deref a.left
  lp ← read l
  r ← deref a.right
  rp ← read r
  if lp.grab_score == minus_one && rp.grab_score == minus_one
      then (do roll ← rand; pure (roll % 4))
      else pure (if max_u32 lp.grab_score rp.grab_score == 0 then 1 else 0)

-- Whom the bids of the three seats make the landlord, `minus_one` while it is open. The seats are
-- the player's own, the left and the right one, each with its bid and its id.
abbrev pub elected : ℕ → ℕ → ℕ → ℕ → ℕ → ℕ → ℕ
elected own own_id left left_id right right_id =
    let top = max32 (max32 own left) right in
    if (not (own == minus_one) && not (left == minus_one) && not (right == minus_one)) || top == 3
    then if top == own
      then own_id
      else if top == left
      then left_id
      else if top == right
      then right_id
      else minus_one
    else minus_one

-- Player::getLandlordId; once it is known the landlord stays.
unfoldable pub get_landlord_id : ℕ → M ℕ
get_landlord_id this = do
  a ← read this
  if not (a.landlord_id == minus_one) then pure a.landlord_id else (do
    l ← deref a.left
    lp ← read l
    r ← deref a.right
    rp ← read r
    let id = elected a.grab_score a.info.id lp.grab_score lp.info.id rp.grab_score rp.info.id
    modify this λ p. record p { landlord_id = id }
    pure id)

-- `if (getPlayerType() == PLAYER_TYPE_USER) ...` for the player and its two neighbours.
unfoldable pub announce : ℕ → Packet → M (Unit {0})
announce this packet = do
  a ← read this
  when (is_user a.player_type) (send this packet)
  l ← deref a.left
  lp ← read l
  when (is_user lp.player_type) (send l packet)
  r ← deref a.right
  rp ← read r
  when (is_user rp.player_type) (send r packet)

-- `_aiDelay > 0` holds an AI back.
abbrev pub must_wait : Player → Bool
must_wait a = plays_as_ai a.player_type && is_positive a.ai_delay

abbrev bid_packet : ℕ → ℕ → ℕ → Packet
bid_packet id score landlord = record {
  opcode = Opcodes.cmsg_grad_landlord;
  fields = resized 8 ∷ u32 id ∷ u32 score ∷ u32 landlord ∷ [];
}

-- An AI starts to bid as the first bidder, or after its left neighbour.
ai_starts_bid : ℕ → M (Unit {0})
ai_starts_bid this = do
  a ← read this
  when (a.game_status == GameStatus.dealed_card) do
    turn ← and_then (plays_as_ai a.player_type) (
        or_else (a.default_landlord == a.info.id)
          (do l ← deref a.left; lp ← read l; pure (lp.game_status == GameStatus.grabed_land_lord)))
    when turn (set_status this GameStatus.grabing_landlord)

-- The bid is made known.
pub place_bid : ℕ → M (Unit {0})
unfolding ai_grab_landlord get_landlord_id announce
place_bid this = do
  a ← read this
  when (a.game_status == GameStatus.grabing_landlord && not (must_wait a)) do
    when (plays_as_ai a.player_type) do
      score ← ai_grab_landlord this
      delay ← config Configs.ai_delay
      modify this λ p. record p { grab_score = score; ai_delay = delay }
    b ← read this
    landlord ← get_landlord_id this
    announce this (bid_packet b.info.id b.grab_score landlord)
    set_status this GameStatus.grabed_land_lord

-- Player::beginOutCard
pub begin_out_card : ℕ → M (Unit {0})
begin_out_card this = do
  a ← read this
  l ← deref a.left
  modify l λ p. record p { landlord_id = a.landlord_id }
  r ← deref a.right
  modify r λ p. record p { landlord_id = a.landlord_id }
  set_status this GameStatus.wait_out_card
  set_status l GameStatus.wait_out_card
  set_status r GameStatus.wait_out_card

-- `getGrabLandlordScore() == 0 && _left->... == 0 && _right->... == 0`
all_passed : Player → M Bool
all_passed a = and_then (a.grab_score == 0) do
  l ← deref a.left
  lp ← read l
  and_then (lp.grab_score == 0) do r ← deref a.right; rp ← read r; pure (rp.grab_score == 0)

-- The end of the auction: nobody bid, or a landlord is found.
pub settle_bid : ℕ → M (Unit {0})
unfolding all_passed
settle_bid this = do
  a ← read this
  when (a.game_status == GameStatus.grabed_land_lord) do
    again ← all_passed a
    when again (
        modify this λ p. record p {
          default_landlord = 0;
          grab_score = minus_one;
          game_status = GameStatus.started;
        })
    landlord ← get_landlord_id this
    when (not (landlord == minus_one)) (begin_out_card this)

-- Player::checkGrabLandlord
unfoldable pub check_grab_landlord : ℕ → M (Unit {0})
unfolding ai_starts_bid place_bid settle_bid begin_out_card
check_grab_landlord this = do
  a ← read this
  when (a.game_status == GameStatus.dealed_card || a.game_status == GameStatus.grabing_landlord)
      do ai_starts_bid this; place_bid this; settle_bid this
