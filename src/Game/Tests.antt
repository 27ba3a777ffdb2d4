-- ===== src/Game/Tests.antt =====
-- The properties of the game at concrete tables, and runs of its code.
use landlord.Prelude.{
  ℕ, ◌+◌, ◌*◌, ◌≡◌, refl, ◌⊎◌, true, false, none, some, List, [], ◌∷◌, arith, count, minus_one,
}
use landlord.Cards.Shuffle.{shuffle_card}
use landlord.Cards.Shuffle.Counts.{shuffle_card-IsDeck, IsDeck}
use landlord.Cards.Hand.{update_cards_face}
use landlord.Cards.Hand.Face.{
  Leaves, face, has_end, update_cards_face-Leaves, update_cards_face-count,
}
use landlord.Game.Types.{PlayerType, Player, Game}
use landlord.Game.Types.GameStatus
use landlord.Game.Spec.{Ensures, IsRing, outcome}
use landlord.Game.Player.Bidding.{elected, check_grab_landlord}
use landlord.Game.Player.Bidding.Election.{Outbids, closes, elected_highest, elected_agree}
use landlord.Game.Store.{pure}
use landlord.Game.Room.{Room}
use landlord.Game.Room.One.{one_round, one_rounds, update_one}
use landlord.Game.Room.One.Fuel.{update_one-fuel}
use landlord.Game.Room.One.Seating.{one_round_loses}
use landlord.Game.Room.Two.{complete_two}
use landlord.Game.Room.Two.Joining.{complete_two-IsRing}
use landlord.Game.Room.Three.{deal_table, Hands}
use landlord.Game.Room.Three.Dealing.{deal_table-IsDeal, IsDeal, HoldHands}
use landlord.Game.Player.Bidding.Settle.{check_grab_landlord-three}
use landlord.Game.Fixture.{user, game, strangers, table, table-Seated}

shuffle_card-IsDeck_example : (d : List ℕ) × (shuffle_card (λ k. k * 7 + 3) ≡ some d) × IsDeck d
shuffle_card-IsDeck_example = shuffle_card-IsDeck (λ k. k * 7 + 3)

update_cards_face-Leaves_example :
    Leaves 5 (3 ∷ 20 ∷ []) (update_cards_face (3 ∷ 19 ∷ 20 ∷ 100 ∷ 100 ∷ []) (19 ∷ 100 ∷ []))
update_cards_face-Leaves_example =
    update_cards_face-Leaves (3 ∷ 19 ∷ 20 ∷ 100 ∷ 100 ∷ []) (19 ∷ 100 ∷ []) refl refl

elected_highest_example :
    ((closes 1 2 0 ≡ false) × (elected 1 101 2 102 0 103 ≡ minus_one))
    ⊎ ((closes 1 2 0 ≡ true) × (elected 1 101 2 102 0 103 ≡ 101) × Outbids 1 2 0)
    ⊎ ((closes 1 2 0 ≡ true) × (elected 1 101 2 102 0 103 ≡ 102) × Outbids 2 1 0)
    ⊎ ((closes 1 2 0 ≡ true) × (elected 1 101 2 102 0 103 ≡ 103) × Outbids 0 1 2)
elected_highest_example =
    elected_highest 1 101 2 102 0 103 (omega arith) (omega arith) (omega arith)

elected_agree_example :
    (elected 1 101 2 102 0 103 ≡ elected 2 102 0 103 1 101)
    × (elected 1 101 2 102 0 103 ≡ elected 0 103 1 101 2 102)
elected_agree_example =
    elected_agree 1 101 2 102 0 103 (omega arith) (omega arith) (omega arith) (omega arith)
      (omega arith) (omega arith)

check_grab_landlord-three_example :
    Ensures
      (λ _ g'.
        (outcome g' 1 ≡ some (101, GameStatus.wait_out_card))
        × (outcome g' 2 ≡ some (101, GameStatus.wait_out_card))
        × (outcome g' 3 ≡ some (101, GameStatus.wait_out_card)))
      (check_grab_landlord 1 (table 3 0 1))
check_grab_landlord-three_example =
    check_grab_landlord-three 1 2 3 11 12 13 (table 3 0 1) _ _ _ (table-Seated 3 0 1) refl refl refl
      (λ e. refl) (λ e. refl) refl refl (omega arith) (omega arith) (omega arith)

update_cards_face-count_example :
    (after : List ℕ) × (update_cards_face (3 ∷ 19 ∷ 20 ∷ 100 ∷ []) (19 ∷ 100 ∷ []) ≡ some after)
    × (has_end after ≡ true)
    × ((c : ℕ) → count c (face after) + count c (19 ∷ []) ≡ count c (3 ∷ 19 ∷ 20 ∷ []))
update_cards_face-count_example =
    update_cards_face-count (3 ∷ 19 ∷ 20 ∷ 100 ∷ []) (19 ∷ 100 ∷ []) refl refl (λ c. ground arith)

abbrev room : Room
room = record {
  id = 0;
  basic_score = 5000;
  players = [];
  one = 1 ∷ 2 ∷ 3 ∷ [];
  two = [];
  three = [];
}

-- The first of the three has logged out.
abbrev one_left : Game
one_left = game (record (user 1) { game_status = GameStatus.log_outed }) (user 2) (user 3)

one_round_loses_example :
    Ensures
      (λ r g'.
        (r.0 ≡ true)
        × (r.1 ≡ record room { one = [] })
        × (g'.cell 1 ≡ none)
        × (g'.cell 2 ≡ some (user 2))
        × (g'.cell 3 ≡ some (user 3)))
      (one_round room one_left)
one_round_loses_example =
    one_round_loses 1 2 3 [] room one_left _ _ _ (omega arith) (omega arith) (omega arith) refl refl
      refl refl refl refl refl

update_one-fuel_example : one_rounds pure 9 room strangers ≡ update_one room strangers
update_one-fuel_example = update_one-fuel pure 9 room strangers (omega arith)

abbrev pair : Game
pair = game (record (user 1) { left = some 2 }) (record (user 2) { right = some 1 }) (user 3)

abbrev third_waits : Room
third_waits = record room { one = 3 ∷ [] }

complete_two-IsRing_example :
    Ensures
      (λ r g'. IsRing g' 1 2 3 × (r.one ≡ []) × (r.two ≡ []) × (r.three ≡ (1, 2, 3) ∷ []))
      (complete_two (1, 2) third_waits pair)
complete_two-IsRing_example =
    complete_two-IsRing 1 2 3 [] third_waits pair (user 3) (omega arith) (omega arith) (omega arith)
      refl refl refl refl refl refl refl

deal_table-IsDeal_example :
    (h : Hands) × IsDeal h
    × Ensures
        (λ _ g'.
          HoldHands (user 1) (user 2) (user 3) (1, 2, 3) h g'
          × (g'.random ≡ λ k. (k + 54) * 31 + 7))
        (deal_table (1, 2, 3) strangers)
deal_table-IsDeal_example =
    deal_table-IsDeal 1 2 3 strangers (user 1) (user 2) (user 3) (omega arith) (omega arith)
      (omega arith) refl refl refl

-- An AI of the pool at the end of a round.
abbrev over_ai : Player
over_ai = record (user 3) { player_type = PlayerType.ai; game_status = GameStatus.roundovered }

abbrev over_user : ℕ → Player
over_user n = record (user n) { game_status = GameStatus.roundovered }
