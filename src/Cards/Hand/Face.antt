-- ===== src/Cards/Hand/Face.antt =====
-- What the array functions of OutCardAi (server/game/AI/OutCardAI.cpp) do to the cards that an array
-- stands for.
use landlord.Prelude.{
  ℕ, ◌+◌, ◌≤◌, ◌<◌, ◌≡◌, ap, ◌∙◌, inl, inr, Bool, true, false, Option, none, some, List, [], ◌∷◌,
  arith, ◌==◌, if◌then◌else◌, Option-cases, length, one_if_eq, count,
}
use landlord.Cards.Hand.{
  card_terminate, get_cards_number, shift_cards, rearrange_cards, remove_played, update_cards_face,
}

-- The cards before the first terminator.
abbrev pub face : List ℕ → List ℕ
face [] = []
face (c ∷ cs) = if c == card_terminate then [] else c ∷ face cs

-- The array holds a terminator.
abbrev pub has_end : List ℕ → Bool
has_end [] = false
has_end (c ∷ cs) = if c == card_terminate then true else has_end cs

-- A list without the first occurrence of a card.
abbrev take_out : ℕ → List ℕ → List ℕ
take_out card [] = []
take_out card (c ∷ cs) = if c == card then cs else c ∷ take_out card cs

-- A hand without the cards that are played, each taken out once.
abbrev take_out_all : List ℕ → List ℕ → List ℕ
take_out_all [] cards = cards
take_out_all (o ∷ os) cards = take_out_all os (take_out o cards)

-- OutCardAi::getCardsNumber counts the cards before the terminator, if the memory that follows the
-- pointer holds one.
get_cards_number-length :
    (cards : List ℕ) → has_end cards ≡ true → get_cards_number cards ≡ some (length (face cards))
unfolding get_cards_number
get_cards_number-length [] h = cc
get_cards_number-length (c ∷ cs) h = ground (arith, get_cards_number-length cs)

-- The array of the result: of the same length, terminated, and with these cards.
abbrev pub Leaves : ℕ → List ℕ → Option (List ℕ) → Type 0
Leaves n cards none = ⊥
Leaves n cards (some after) = (length after ≡ n) × (has_end after ≡ true) × (face after ≡ cards)

shift_cards-at_end :
    (c : ℕ) (cs : List ℕ) → (c == card_terminate) ≡ true → shift_cards (c ∷ cs) ≡ some (c ∷ cs)
unfolding shift_cards
shift_cards-at_end c [] h = ground arith
shift_cards-at_end c (d ∷ cs) h = ground arith

-- The second loop drops the entry that it starts at.
shift_cards-Leaves :
    (c : ℕ) (cs : List ℕ)
    → (c == card_terminate) ≡ false
    → has_end (c ∷ cs) ≡ true
    → Leaves (length (c ∷ cs)) (face cs) (shift_cards (c ∷ cs))
unfolding shift_cards
shift_cards-Leaves c [] ne h = ground arith
shift_cards-Leaves c (d ∷ cs) ne h =
    ground (arith, shift_cards-Leaves d cs, shift_cards-at_end d cs)

-- OutCardAi::rearrangeCards takes the first occurrence of a card out of a terminated array and
-- closes the gap; the length and the terminator stay. A card that is not there changes nothing.
rearrange_cards-Leaves :
    (cards : List ℕ) (card : ℕ)
    → has_end cards ≡ true
    → Leaves (length cards) (take_out card (face cards)) (rearrange_cards cards card)
unfolding rearrange_cards
rearrange_cards-Leaves [] card h = cc
rearrange_cards-Leaves (c ∷ cs) card h =
    ground (arith, shift_cards-Leaves c cs, shift_cards-at_end c cs, rearrange_cards-Leaves cs card)

remove_played-Leaves :
    (out cards : List ℕ)
    → has_end out ≡ true
    → has_end cards ≡ true
    → Leaves (length cards) (take_out_all (face out) (face cards)) (remove_played cards out)
unfolding remove_played
remove_played-Leaves [] cards ho h = cc
remove_played-Leaves (o ∷ os) cards ho h = elim (Option-cases (rearrange_cards cards o)) [
  | inl e ↦ ground (arith, rearrange_cards-Leaves cards o h)
  | inr (d, e) ↦ ground (arith, rearrange_cards-Leaves cards o h, remove_played-Leaves os d)
]

-- OutCardAi::updateCardsFace takes the cards that are played out of a hand, each once; both arrays
-- are terminated. It never leaves the arrays, and the hand keeps its length and its terminator.
pub update_cards_face-Leaves :
    (cards out : List ℕ)
    → has_end cards ≡ true
    → has_end out ≡ true
    → Leaves (length cards) (take_out_all (face out) (face cards)) (update_cards_face cards out)
unfolding update_cards_face
update_cards_face-Leaves cards [] h ho = cc
update_cards_face-Leaves cards (o ∷ os) h ho =
    ground (arith, remove_played-Leaves (o ∷ os) cards ho h)

-- How often a card is in a hand, with what is taken out.
count-take_out :
    (c card : ℕ) (cards : List ℕ)
    → 0 < count card cards
    → count c (take_out card cards) + one_if_eq c card ≡ count c cards
count-take_out c card [] h = ground arith
count-take_out c card (d ∷ ds) h = ground (arith, count-take_out c card ds)

-- The cards that are played are all in the hand, each as often as it is played.
abbrev pub Holds : List ℕ → List ℕ → Type 0
Holds out cards = (c : ℕ) → count c out ≤ count c cards

count-take_out_all :
    (c : ℕ) (out cards : List ℕ)
    → Holds out cards
    → count c (take_out_all out cards) + count c out ≡ count c cards
count-take_out_all c [] cards h = omega arith
count-take_out_all c (o ∷ os) cards h = omega (
  arith,
  count-take_out c o cards has,
  count-take_out_all c os (take_out o cards)
      (λ d. omega (arith, h d, count-take_out d o cards has)),
)
  where
    has : 0 < count o cards
    has = ground (arith, h o)

-- If the cards that are played are in the hand, then the hand after updateCardsFace and the cards
-- that were played are together the hand before.
pub update_cards_face-count :
    (cards out : List ℕ)
    → has_end cards ≡ true
    → has_end out ≡ true
    → Holds (face out) (face cards)
    → (after : List ℕ) × (update_cards_face cards out ≡ some after)
      × (has_end after ≡ true)
      × ((c : ℕ) → count c (face after) + count c (face out) ≡ count c (face cards))
update_cards_face-count cards out h ho holds = elim (Option-cases (update_cards_face cards out)) [
  | inl e ↦ absurd (rw e at (update_cards_face-Leaves cards out h ho))
  | inr (after, e) ↦
      let left : Leaves (length cards) (take_out_all (face out) (face cards)) (some after) =
        rw e at (update_cards_face-Leaves cards out h ho) in
      (
        after,
        e,
        left.1,
        λ c.
            ap (λ xs. count c xs + count c (face out)) left.2
            ∙ count-take_out_all c (face out) (face cards) holds,
      )
]
