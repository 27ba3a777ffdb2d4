-- ===== src/Game/Player/Deal/Draw.antt =====
-- Who may bid first, and the hand that a player is sent (server/game/Player/Player.cpp,
-- Player::getDefaultLandlordUserId and checkDealCards).
use landlord.Prelude.{ℕ, ◌≡◌, ◌≢◌, ◌⊎◌, some, ◌∷◌, arith}
use landlord.Game.Types.{PlayerType, Player, Game}
use landlord.Game.Types.GameStatus
use landlord.Game.Spec.{Ensures, Seated}
use landlord.Game.Player.Deal.{
  check_start, get_default_landlord, check_deal_cards, deal_packet, wait_start_packet,
}

-- If nobody is drawn yet, one of the three at the table is, and all three know the same one.
get_default_landlord-draws :
    (p l r : ℕ) (g : Game) (a b c : Player)
    → Seated g p l r a b c
    → a.default_landlord ≡ 0
    → Ensures
        (λ id g'.
          ((id ≡ a.info.id) ⊎ (id ≡ b.info.id) ⊎ (id ≡ c.info.id))
          × (g'.cell p ≡ some (record a { default_landlord = id }))
          × (g'.cell l ≡ some (record b { default_landlord = id }))
          × (g'.cell r ≡ some (record c { default_landlord = id })))
        (get_default_landlord p g)
unfolding get_default_landlord
get_default_landlord-draws p l r g a b c s h = ground arith

-- Once somebody is drawn the answer is the same, and asking changes nothing.
get_default_landlord-again :
    (p : ℕ) (g : Game) (a : Player)
    → g.cell p ≡ some a
    → a.default_landlord ≢ 0
    → get_default_landlord p g ≡ some (a.default_landlord, g)
unfolding get_default_landlord
get_default_landlord-again p g a h ne = ground arith

-- A user who is dealt cards is sent the id of the first bidder and the 24 bytes of `_cards` and
-- `_baseCards`, and is in GAME_STATUS_DEALED_CARD.
check_deal_cards-user :
    (p l r s : ℕ) (g : Game) (a b c : Player)
    → Seated g p l r a b c
    → a.game_status ≡ GameStatus.dealing_card
    → a.player_type ≡ PlayerType.user
    → a.session ≡ some s
    → a.default_landlord ≢ 0
    → Ensures
        (λ _ g'.
          (g'.cell p ≡ some (record a { game_status = GameStatus.dealed_card }))
          × (g'.sent ≡ (s, deal_packet a.default_landlord a.cards) ∷ g.sent))
        (check_deal_cards p g)
unfolding check_deal_cards
check_deal_cards-user p l r s g a b c seat hs ht hn hd = ground arith

-- checkStart moves a player who is starting on and tells each neighbour who is a user; a null
-- neighbour is passed over.
check_start-users :
    (p l r u v : ℕ) (g : Game) (a b c : Player)
    → Seated g p l r a b c
    → a.game_status ≡ GameStatus.starting
    → b.player_type ≡ PlayerType.user
    → c.player_type ≡ PlayerType.user
    → b.session ≡ some u
    → c.session ≡ some v
    → Ensures
        (λ _ g'.
          (g'.cell p ≡ some (record a { game_status = GameStatus.started }))
          × (g'.sent
              ≡ (v, wait_start_packet a.info.id) ∷ (u, wait_start_packet a.info.id) ∷ g.sent))
        (check_start p g)
unfolding check_start
check_start-users p l r u v g a b c seat hs hb hc hu hv = ground arith
