-- ===== src/Cards/Hand.antt =====
-- The card arrays of OutCardAi (server/game/AI/OutCardAI.cpp): a run of cards up to the first
-- CARD_TERMINATE. Reading or writing past the end of the memory that is modelled is a fault.
pub mod Face
use landlord.Prelude.{
  ℕ, zero, suc, ◌+◌, ◌-◌, ◌*◌, ◌/◌, ◌%◌, ◌^◌, ◌≤◌, ◌<◌, min, ◌≡◌, refl, sym, ap, ◌∙◌, ◌≢◌, ◌↔◌, ◌⊎◌,
  inl, inr, Bool, true, false, not, ◌&&◌, ◌||◌, Option, none, some, List, [], ◌∷◌, ◌++◌, map, arith,
  ltb, leb, ◌==◌, if◌then◌else◌, ==_iff, Bool-cases, Option-cases, bind, length, get_elem?, set,
  take, drop, replicate, length-append, length-set, take-append-drop, length-take, length-drop,
  length-replicate, get_elem?_total, get_elem?-set_self, get_elem?-set_ne, one_if_eq, count,
  count-append, count-set, u32_mod, add32, sub32, minus_one, is_negative, is_positive, signed_key,
  max32,
}
use mathlib.Core.Option

-- CARD_TERMINATE of Player.h.
abbrev pub card_terminate : ℕ
card_terminate = 100

-- `while (cards[number] != CARD_TERMINATE) ++number;`
unfoldable pub get_cards_number : List ℕ → Option ℕ
get_cards_number [] = none
get_cards_number (c ∷ cs) =
    if c == card_terminate then some 0 else Option.map suc (get_cards_number cs)

-- The array of 24 entries after resetCards.
abbrev pub reset_cards : List ℕ
reset_cards = replicate 24 card_terminate

-- The second loop of rearrangeCards: each entry takes the value of the next, up to the terminator.
pub shift_cards : List ℕ → Option (List ℕ)
shift_cards [] = none
shift_cards (c ∷ []) = if c == card_terminate then some (c ∷ []) else none
shift_cards (c ∷ d ∷ cs) =
    if c == card_terminate then some (c ∷ d ∷ cs) else Option.map (◌∷◌ d) (shift_cards (d ∷ cs))

-- The first loop of rearrangeCards looks for the card; the second starts where it stops.
unfoldable pub rearrange_cards : List ℕ → ℕ → Option (List ℕ)
unfolding shift_cards
rearrange_cards [] card = none
rearrange_cards (c ∷ cs) card =
    if c == card_terminate
    then shift_cards (c ∷ cs)
    else if c == card
    then shift_cards (c ∷ cs)
    else Option.map (◌∷◌ c) (rearrange_cards cs card)

-- The loop of updateCardsFace over the cards that are played.
pub remove_played : List ℕ → List ℕ → Option (List ℕ)
remove_played self_cards [] = none
remove_played self_cards (o ∷ os) =
    if o == card_terminate
    then some self_cards
    else bind (rearrange_cards self_cards o) λ rest. remove_played rest os

-- `*pcOutCard == CARD_TERMINATE` is tested before the loop.
unfoldable pub update_cards_face : List ℕ → List ℕ → Option (List ℕ)
unfolding remove_played
update_cards_face self_cards [] = none
update_cards_face self_cards (o ∷ os) =
    if o == card_terminate then some self_cards else remove_played self_cards (o ∷ os)
