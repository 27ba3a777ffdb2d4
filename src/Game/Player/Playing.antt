-- ===== src/Game/Player/Playing.antt =====
-- Playing cards: Player::checkOutCard (server/game/Player/Player.cpp) and OutCardAi::OutCard
-- (server/game/AI/OutCardAI.cpp).
pub mod Turn
use landlord.Prelude.{ℕ, Bool, not, ◌&&◌, List, [], ◌∷◌, leb, ◌==◌, if◌then◌else◌, get_elem?, set}
use landlord.Cards.Hand.{get_cards_number, reset_cards, update_cards_face}
use landlord.Game.Types.{
  plays_as_ai, Player, Packet, u32, bytes, resized, card_type_pass, card_type_single,
}
use landlord.Game.Types.GameStatus
use landlord.Game.Types.Opcodes
use landlord.Game.Types.Configs
use landlord.Game.Store.{M, ◌>>=◌, ◌>>◌, when, pure, and_then, or_else, read, modify, config, deref}
use landlord.Game.Player.{set_status}
use landlord.Game.Player.Bidding.{get_landlord_id, announce, must_wait}

-- The landlord opens with all 20 cards in hand.
opens_round : ℕ → M Bool
opens_round this = do
  landlord ← get_landlord_id this
  a ← read this
  and_then (landlord == a.info.id) do n ← deref (get_cards_number a.cards); pure (n == 20)

-- Both neighbours passed.
others_passed : ℕ → M Bool
others_passed this = do
  a ← read this
  l ← deref a.left
  lp ← read l
  and_then (lp.card_type == card_type_pass)
      do r ← deref a.right; rp ← read r; pure (rp.card_type == card_type_pass)

-- OutCardAi::OutCard: the first card of the hand, or a pass.
pub out_card : ℕ → M (Unit {0})
unfolding opens_round others_passed
out_card this = do
  opens ← opens_round this
  leads ← or_else opens (others_passed this)
  a ← read this
  if leads
      then (do
        c ← deref (get_elem? a.cards 0)
        modify this λ p. record p { out_cards = set reset_cards 0 c; card_type = card_type_single })
      else (modify this λ p. record p { out_cards = reset_cards; card_type = card_type_pass })

-- An AI takes its turn: as the landlord at the start, or after its left neighbour.
ai_turn : ℕ → Player → M Bool
ai_turn this a = and_then (plays_as_ai a.player_type) do
  first ←
      and_then (a.game_status == GameStatus.wait_out_card)
        (do landlord ← get_landlord_id this; pure (landlord == a.info.id))
  or_else first do l ← deref a.left; lp ← read l; pure (lp.game_status == GameStatus.out_carded)

abbrev pub out_packet : ℕ → ℕ → List ℕ → Packet
out_packet id card_type out_cards = record {
  opcode = Opcodes.cmsg_card_out;
  fields = resized 8 ∷ u32 id ∷ u32 card_type ∷ bytes out_cards ∷ [];
}

-- The cards leave the hand.
drop_played : ℕ → M (Unit {0})
drop_played this = do
  a ← read this
  rest ← deref (update_cards_face a.cards a.out_cards)
  modify this λ p. record p { cards = rest }

-- The cards are made known and leave the hand; an AI on the right is next.
pub play_cards : ℕ → M (Unit {0})
unfolding out_card drop_played
play_cards this = do
  a ← read this
  when (a.game_status == GameStatus.out_carding && not (must_wait a)) do
    when (plays_as_ai a.player_type) do
      out_card this
      delay ← config Configs.ai_delay
      modify this λ p. record p { ai_delay = delay }
    b ← read this
    announce this (out_packet b.info.id b.card_type b.out_cards)
    set_status this GameStatus.out_carded
    drop_played this
    r ← deref a.right
    rp ← read r
    when (plays_as_ai rp.player_type) (set_status r GameStatus.out_carding)

-- The player waits again once the right neighbour has played.
await_turn : ℕ → M (Unit {0})
await_turn this = do
  a ← read this
  when (a.game_status == GameStatus.out_carded) do
    r ← deref a.right
    rp ← read r
    when (rp.game_status == GameStatus.out_carded) (set_status this GameStatus.wait_out_card)

-- Player::checkOutCard
unfoldable pub check_out_card : ℕ → M (Unit {0})
unfolding ai_turn play_cards await_turn
check_out_card this = do
  a ← read this
  when (leb GameStatus.wait_out_card a.game_status && leb a.game_status GameStatus.out_carded) do
    turn ← ai_turn this a
    when turn (set_status this GameStatus.out_carding)
    play_cards this
    await_turn this
