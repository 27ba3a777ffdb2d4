-- ===== src/Game/Player/Bidding/Settle.antt =====
-- The auction step by step (server/game/Player/Player.cpp, Player::checkGrabLandlord).
use landlord.Prelude.{ℕ, ◌≤◌, ◌≡◌, refl, ◌∙◌, ◌≢◌, true, some, arith, minus_one, signed_key}
use landlord.Game.Types.{PlayerType, is_user, Player, Game}
use landlord.Game.Types.GameStatus
use landlord.Game.Store.{◌>>◌, update}
use landlord.Game.Spec.{Ensures, Seated, outcome, chain_rule}
use landlord.Game.Player.Bidding.{
  ai_grab_landlord, elected, get_landlord_id, must_wait, place_bid, begin_out_card, settle_bid,
  announce, check_grab_landlord, ai_starts_bid,
}

-- beginOutCard gives the whole table the landlord that the player knows, and the status in which
-- cards are awaited.
begin_out_card_lem :
    (p l r : ℕ) (g : Game) (a b c : Player)
    → Seated g p l r a b c
    → Ensures
        (λ _ g'.
          (g'.cell p ≡ some (record a { game_status = GameStatus.wait_out_card }))
          × (g'.cell l
              ≡ some (record b {
                landlord_id = a.landlord_id;
                game_status = GameStatus.wait_out_card;
              }))
          × (g'.cell r
              ≡ some (record c {
                landlord_id = a.landlord_id;
                game_status = GameStatus.wait_out_card;
              })))
        (begin_out_card p g)
unfolding begin_out_card
begin_out_card_lem p l r g a b c s = ground arith

-- When all three bids are 0 and no landlord is known, the one who bid last goes back to
-- GAME_STATUS_STARTED and to no bid, while both neighbours stay as they are.
settle_bid-all_passed :
    (p l r : ℕ) (g : Game) (a b c : Player)
    → Seated g p l r a b c
    → a.game_status ≡ GameStatus.grabed_land_lord
    → a.landlord_id ≡ minus_one
    → a.grab_score ≡ 0
    → b.grab_score ≡ 0
    → c.grab_score ≡ 0
    → Ensures
        (λ _ g'.
          (g'.cell p
            ≡ some (record a {
              default_landlord = 0;
              grab_score = minus_one;
              game_status = GameStatus.started;
            }))
          × (g'.cell l ≡ some b)
          × (g'.cell r ≡ some c))
        (settle_bid p g)
unfolding settle_bid get_landlord_id
settle_bid-all_passed p l r g a b c s hs hl ha hb hc = ground arith

-- The state after a player has learnt who the landlord is.
abbrev informed : ℕ → Player → ℕ → Game → Game
informed p a id g = record g { cell = update g.cell p (some (record a { landlord_id = id })) }

get_landlord_id-elects :
    (p l r : ℕ) (g : Game) (a b c : Player)
    → Seated g p l r a b c
    → a.landlord_id ≡ minus_one
    → let id = elected a.grab_score a.info.id b.grab_score b.info.id c.grab_score c.info.id in
      get_landlord_id p g ≡ some (id, informed p a id g)
unfolding get_landlord_id
get_landlord_id-elects p l r g a b c s h = ground arith

elected-three :
    (i y j z k : ℕ)
    → signed_key y ≤ signed_key 3
    → signed_key z ≤ signed_key 3
    → elected 3 i y j z k ≡ i
elected-three i y j z k hy hz = ground arith

outcomes_of_begin :
    (p l r id : ℕ) (g : Game) (a b c : Player)
    → Seated g p l r a b c
    → a.landlord_id ≡ id
    → Ensures
        (λ _ g'.
          (outcome g' p ≡ some (id, GameStatus.wait_out_card))
          × (outcome g' l ≡ some (id, GameStatus.wait_out_card))
          × (outcome g' r ≡ some (id, GameStatus.wait_out_card)))
        (begin_out_card p g)
unfolding begin_out_card
outcomes_of_begin p l r id g a b c s h = ground arith

-- A user bids, and everyone at the table is told; each user has a session.
place_bid-informs :
    (p l r s t u id : ℕ) (g : Game) (a b c : Player)
    → Seated g p l r a b c
    → a.game_status ≡ GameStatus.grabing_landlord
    → a.player_type ≡ PlayerType.user
    → a.session ≡ some s
    → (is_user b.player_type ≡ true → b.session ≡ some t)
    → (is_user c.player_type ≡ true → c.session ≡ some u)
    → get_landlord_id p g ≡ some (id, informed p a id g)
    → Ensures
        (λ _ g'.
          Seated g' p l r
            (record a { landlord_id = id; game_status = GameStatus.grabed_land_lord })
            b
            c)
        (place_bid p g)
unfolding place_bid announce
place_bid-informs p l r s t u id g a b c seat hs ht hn hb hc hl = ground arith

-- Once the landlord is known, settling begins the play.
settle_bid-known :
    (p : ℕ) (g : Game) (a : Player)
    → g.cell p ≡ some a
    → a.game_status ≡ GameStatus.grabed_land_lord
    → a.grab_score ≢ 0
    → a.landlord_id ≢ minus_one
    → settle_bid p g ≡ begin_out_card p g
unfolding settle_bid get_landlord_id
settle_bid-known p g a h hs hb hl = ground arith

check_grab_landlord-user :
    (p : ℕ) (g : Game) (a : Player)
    → g.cell p ≡ some a
    → a.game_status ≡ GameStatus.grabing_landlord
    → check_grab_landlord p g ≡ (place_bid p >> settle_bid p) g
unfolding check_grab_landlord ai_starts_bid
check_grab_landlord-user p g a h hs = ground arith

-- checkGrabLandlord of a user at a full table who has just bid 3, while it knows no landlord and
-- neither neighbour has bid more, ends the auction at once: everyone at the table knows the bidder as
-- the landlord and waits for cards. The bidder and each neighbour who is a user have a session, and
-- the id of the bidder is not -1.
pub check_grab_landlord-three :
    (p l r s t u : ℕ) (g : Game) (a b c : Player)
    → Seated g p l r a b c
    → a.game_status ≡ GameStatus.grabing_landlord
    → a.player_type ≡ PlayerType.user
    → a.session ≡ some s
    → (is_user b.player_type ≡ true → b.session ≡ some t)
    → (is_user c.player_type ≡ true → c.session ≡ some u)
    → a.landlord_id ≡ minus_one
    → a.grab_score ≡ 3
    → signed_key b.grab_score ≤ signed_key 3
    → signed_key c.grab_score ≤ signed_key 3
    → a.info.id ≢ minus_one
    → Ensures
        (λ _ g'.
          (outcome g' p ≡ some (a.info.id, GameStatus.wait_out_card))
          × (outcome g' l ≡ some (a.info.id, GameStatus.wait_out_card))
          × (outcome g' r ≡ some (a.info.id, GameStatus.wait_out_card)))
        (check_grab_landlord p g)
check_grab_landlord-three p l r s t u g a b c seat hs ht hn hb hc hl h3 kb kc hi =
    let id : ℕ = a.info.id in
    let elects : get_landlord_id p g ≡ some (id, informed p a id g) =
      get_landlord_id-elects p l r g a b c seat hl
      ∙ (rw (h3, elected-three id b.grab_score b.info.id c.grab_score c.info.id kb kc)) in
    rw (check_grab_landlord-user p g a seat.me hs) (
      chain_rule _ _ (place_bid p g) (settle_bid p) g
        (place_bid-informs p l r s t u id g a b c seat hs ht hn hb hc elects)
        λ g' seat'.
          rw (settle_bid-known p g' _ seat'.me refl (omega (arith, h3)) hi)
            (outcomes_of_begin p l r id g' _ b c seat' refl))

-- An AI whose delay is not over makes no bid and changes nothing.
place_bid-waits :
    (p : ℕ) (g : Game) (a : Player)
    → g.cell p ≡ some a
    → must_wait a ≡ true
    → place_bid p g ≡ some (tt, g)
unfolding place_bid
place_bid-waits p g a h w = ground arith

-- The bid of an AI, as a number of points: at most 3, and after a bid of a neighbour 1 or 0. The
-- neighbours' bids are compared as uint32, so next to an open bid and a bid of 0 it is 0.
ai_grab_landlord_lem :
    (p l r : ℕ) (g : Game) (a b c : Player)
    → Seated g p l r a b c
    → Ensures
        (λ bid _.
          (bid ≤ 3)
          × (b.grab_score ≡ 0 → c.grab_score ≡ 0 → bid ≡ 1)
          × (b.grab_score ≡ 0 → c.grab_score ≡ minus_one → bid ≡ 0)
          × (b.grab_score ≡ minus_one → c.grab_score ≡ 0 → bid ≡ 0))
        (ai_grab_landlord p g)
unfolding ai_grab_landlord
ai_grab_landlord_lem p l r g a b c s = ground arith
