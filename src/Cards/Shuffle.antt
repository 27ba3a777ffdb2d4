-- ===== src/Cards/Shuffle.antt =====
-- Room::shuffleCard and Room::dealCards (server/game/Room/Room.cpp).
pub mod Counts
use landlord.Prelude.{
  ℕ, zero, suc, ◌+◌, ◌*◌, ◌%◌, Bool, List, [], ◌∷◌, ◌++◌, Option, none, some, ◌==◌, if◌then◌else◌,
  get_elem?, set, bind, take, drop,
}

-- `color << 4 | card`, where card < 13 leaves the low four bits to the card.
abbrev card_code : ℕ → ℕ → ℕ
card_code color card = color * 16 + card

-- The inner loop: the cards of one color from `card` on, `n` of them.
color_cards : ℕ → ℕ → ℕ → List ℕ
color_cards color card zero = []
color_cards color card (suc n) = card_code color card ∷ color_cards color (card + 1) n

-- The outer loop over the colors.
all_colors : ℕ → ℕ → List ℕ
unfolding color_cards
all_colors color zero = []
all_colors color (suc n) = color_cards color 0 13 ++ all_colors (color + 1) n

-- The array before it is shuffled: four colors of thirteen cards, then the two jokers.
pub new_deck : List ℕ
unfolding all_colors
new_deck = all_colors 0 4 ++ (61 ∷ 62 ∷ [])

-- Exchanges two entries; an index out of the array is a fault.
pub swap_cards : List ℕ → ℕ → ℕ → Option (List ℕ)
swap_cards cards i j =
    bind (get_elem? cards i) λ a. bind (get_elem? cards j) λ b. some (set (set cards i b) j a)

-- One round, with the index that `rand() % 54` gave.
pub shuffle_round : List ℕ → ℕ → ℕ → Option (List ℕ)
unfolding swap_cards
shuffle_round cards i r = if i == r then some cards else swap_cards cards i r

-- The rounds from `i` on, `n` of them; `rand k` is what the k-th call of rand() returns.
pub shuffle_rounds : (ℕ → ℕ) → ℕ → ℕ → List ℕ → Option (List ℕ)
unfolding shuffle_round
shuffle_rounds rand zero i cards = some cards
shuffle_rounds rand (suc n) i cards =
    bind (shuffle_round cards i (rand i % 54)) (shuffle_rounds rand n (i + 1))

pub shuffle_card : (ℕ → ℕ) → Option (List ℕ)
unfolding new_deck shuffle_rounds
shuffle_card rand = shuffle_rounds rand 54 0 new_deck
