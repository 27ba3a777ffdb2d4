-- ===== src/Game/Player/Playing/Turn.antt =====
-- A turn at cards (server/game/Player/Player.cpp, Player::checkOutCard, and
-- server/game/AI/OutCardAI.cpp, OutCardAi::OutCard).
use landlord.Prelude.{
  ℕ, ◌+◌, count, inl, inr, ◌<◌, ◌≡◌, ◌≢◌, ◌⊎◌, true, ◌&&◌, ◌||◌, some, List, ◌∷◌, arith, ◌==◌,
  if◌then◌else◌, get_elem?, set, minus_one,
}
use native.Mathlib.Decide.{ℕ_discrete}
use landlord.Cards.Hand.Face.{has_end, face, Holds, update_cards_face-count}
use landlord.Cards.Hand.{get_cards_number, update_cards_face, reset_cards}
use landlord.Game.Types.{
  PlayerType, is_user, plays_as_ai, Packet, card_type_pass, card_type_single, Player, Game,
}
use landlord.Game.Types.GameStatus
use landlord.Game.Spec.{Ensures, Seated}
use landlord.Game.Player.Bidding.{must_wait, announce, get_landlord_id}
use landlord.Game.Player.Playing.{
  out_card, play_cards, ai_turn, await_turn, drop_played, check_out_card, out_packet,
}

-- Who is told what the player has played: the player, and each neighbour who is a user.
abbrev pub told : ℕ → ℕ → ℕ → Player → Player → Packet → List (ℕ × Packet) → List (ℕ × Packet)
told s t u b c packet sent =
    let both =
      if is_user b.player_type then (t, packet) ∷ (s, packet) ∷ sent else (s, packet) ∷ sent in
    if is_user c.player_type then (u, packet) ∷ both else both

-- The player on the right, who is next if an AI plays there.
abbrev pub next_player : Player → Player
next_player c =
    if plays_as_ai c.player_type then record c { game_status = GameStatus.out_carding } else c

-- The status of a player who has played or waits for others.
abbrev pub turn_status : Player → ℕ
turn_status c =
    if c.game_status == GameStatus.out_carded
    then GameStatus.wait_out_card
    else GameStatus.out_carded

module _ (p l r s t u : ℕ) (g : Game) (a b c : Player) where
  turn_played :
      (rest : List ℕ)
      → Seated g p l r a b c
      → a.player_type ≡ PlayerType.user
      → a.session ≡ some s
      → (is_user b.player_type ≡ true → b.session ≡ some t)
      → (is_user c.player_type ≡ true → c.session ≡ some u)
      → a.game_status ≡ GameStatus.out_carding
      → update_cards_face a.cards a.out_cards ≡ some rest
      → Ensures
          (λ _ g'.
            (g'.cell p
              ≡ some (record a { cards = rest; game_status = turn_status (next_player c) }))
            × (g'.cell l ≡ some b)
            × (g'.cell r ≡ some (next_player c))
            × (g'.sent ≡ told s t u b c (out_packet a.info.id a.card_type a.out_cards) g.sent))
          (check_out_card p g)
  unfolding check_out_card ai_turn play_cards await_turn announce drop_played
  turn_played rest seat ht hn hb hc hs hu = ground arith

  turn_over :
      Seated g p l r a b c
      → a.player_type ≡ PlayerType.user
      → a.game_status ≡ GameStatus.out_carded
      → Ensures
          (λ _ g'.
            (g'.cell p ≡ some (record a { game_status = turn_status c }))
            × (g'.cell l ≡ some b)
            × (g'.cell r ≡ some c)
            × (g'.sent ≡ g.sent))
          (check_out_card p g)
  unfolding check_out_card ai_turn play_cards await_turn
  turn_over seat ht hs = ground arith

  turn_awaited :
      Seated g p l r a b c
      → a.player_type ≡ PlayerType.user
      → a.game_status ≢ GameStatus.out_carding
      → a.game_status ≢ GameStatus.out_carded
      → check_out_card p g ≡ some (tt, g)
  unfolding check_out_card ai_turn play_cards await_turn
  turn_awaited seat ht hs hd = ground arith

-- checkOutCard for a user with a session, each of whose neighbours is an AI or a user with a session,
-- and whose hand and played cards are terminated arrays, all played cards being in the hand. While the
-- user plays, the hand loses just the played cards, each user at the table is told them, an AI on the
-- right is next, and the left neighbour does not change; the user waits again at once if the one on
-- the right has played, and else once that one has, in a later
-- update. In every status
-- but these two nothing happens.
pub check_out_card-user :
    (p l r s t u : ℕ) (g : Game) (a b c : Player)
    → Seated g p l r a b c
    → a.player_type ≡ PlayerType.user
    → a.session ≡ some s
    → (is_user b.player_type ≡ true → b.session ≡ some t)
    → (is_user c.player_type ≡ true → c.session ≡ some u)
    → has_end a.cards ≡ true
    → has_end a.out_cards ≡ true
    → Holds (face a.out_cards) (face a.cards)
    → ((a.game_status ≡ GameStatus.out_carding)
        × ((rest : List ℕ) × (has_end rest ≡ true)
            × ((k : ℕ) → count k (face rest) + count k (face a.out_cards) ≡ count k (face a.cards))
            × Ensures
                (λ _ g'.
                  (g'.cell p
                    ≡ some (record a { cards = rest; game_status = turn_status (next_player c) }))
                  × (g'.cell l ≡ some b)
                  × (g'.cell r ≡ some (next_player c))
                  × (g'.sent
                      ≡ told s t u b c (out_packet a.info.id a.card_type a.out_cards) g.sent))
                (check_out_card p g)))
      ⊎ ((a.game_status ≡ GameStatus.out_carded)
          × Ensures
              (λ _ g'.
                (g'.cell p ≡ some (record a { game_status = turn_status c }))
                × (g'.cell l ≡ some b)
                × (g'.cell r ≡ some c)
                × (g'.sent ≡ g.sent))
              (check_out_card p g))
      ⊎ ((a.game_status ≢ GameStatus.out_carding)
          × (a.game_status ≢ GameStatus.out_carded)
          × (check_out_card p g ≡ some (tt, g)))
check_out_card-user p l r s t u g a b c seat ht hn hb hc he ho hold =
    elim (ℕ_discrete a.game_status GameStatus.out_carding) [
      | yes plays ↦
          let (rest, ran, ended, counts) = update_cards_face-count a.cards a.out_cards he ho hold in
          inl (
            plays,
            (rest, ended, counts, turn_played p l r s t u g a b c rest seat ht hn hb hc plays ran),
          )
      | no other ↦ elim (ℕ_discrete a.game_status GameStatus.out_carded) [
        | yes over ↦ inr (inl (over, turn_over p l r s t u g a b c seat ht over))
        | no waits ↦ inr (inr (other, waits, turn_awaited p l r s t u g a b c seat ht other waits))
      ]
    ]

-- An AI that neither opens the round nor follows two passes passes; else it plays its first card.
pub out_card_lem :
    (p l r n first : ℕ) (g : Game) (a b c : Player)
    → Seated g p l r a b c
    → a.landlord_id ≢ minus_one
    → get_cards_number a.cards ≡ some n
    → get_elem? a.cards 0 ≡ some first
    → Ensures
        (λ _ g'.
          g'.cell p
          ≡ some (
              if (a.landlord_id == a.info.id && n == 20)
                || (b.card_type == card_type_pass && c.card_type == card_type_pass)
              then record a { out_cards = set reset_cards 0 first; card_type = card_type_single }
              else record a { out_cards = reset_cards; card_type = card_type_pass }))
        (out_card p g)
unfolding out_card get_landlord_id
out_card_lem p l r n first g a b c s hl hn hf = ground arith

-- An AI whose delay is not over plays nothing.
play_cards-waits :
    (p : ℕ) (g : Game) (a : Player)
    → g.cell p ≡ some a
    → must_wait a ≡ true
    → play_cards p g ≡ some (tt, g)
unfolding play_cards
play_cards-waits p g a h w = ground arith

-- checkOutCard does nothing outside the three statuses of a round.
check_out_card-idle :
    (p : ℕ) (g : Game) (a : Player)
    → g.cell p ≡ some a
    → (a.game_status < GameStatus.wait_out_card) ⊎ (GameStatus.out_carded < a.game_status)
    → check_out_card p g ≡ some (tt, g)
unfolding check_out_card
check_out_card-idle p g a h out = ground arith
