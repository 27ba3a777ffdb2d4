-- ===== src/Cards/Shuffle/Counts.antt =====
-- The shuffle of Room::shuffleCard (server/game/Room/Room.cpp) loses no card and makes none.
use landlord.Prelude.{
  ℕ, zero, suc, ◌+◌, ◌%◌, ◌≤◌, ◌<◌, ◌≡◌, refl, ◌∙◌, ◌≢◌, inl, inr, Bool, true, not, ◌&&◌, ◌||◌,
  Option, some, List, [], ◌∷◌, arith, ltb, ◌==◌, if◌then◌else◌, ==_iff, Bool-cases, length, set,
  length-set, get_elem?_total, get_elem?-set_ne, count, count-set,
}
use native.Mathlib.Decide.{dec_lt}
use landlord.Cards.Shuffle.{swap_cards, shuffle_round, shuffle_rounds, shuffle_card, new_deck}

-- The same cards, as often.
abbrev SameCards : List ℕ → List ℕ → Type 0
SameCards xs ys = (length xs ≡ length ys) × ((c : ℕ) → count c xs ≡ count c ys)

-- A computation that ends with the same cards, and does not fault.
abbrev Shuffles : List ℕ → Option (List ℕ) → Type 0
Shuffles cards r = (d : List ℕ) × (r ≡ some d) × SameCards d cards

swap_cards-Shuffles :
    (cards : List ℕ) (i j : ℕ)
    → i < length cards
    → j < length cards
    → i ≢ j
    → Shuffles cards (swap_cards cards i j)
unfolding swap_cards
swap_cards-Shuffles cards i j hi hj ne =
    let (a, ea) = get_elem?_total cards i hi in
    let (b, eb) = get_elem?_total cards j hj in
    (
      set (set cards i b) j a,
      ground arith,
      (
        omega (arith, length-set cards i b, length-set (set cards i b) j a),
        λ c. omega (
          arith,
          count-set c cards i a b ea,
          count-set c (set cards i b) j b a (get_elem?-set_ne cards i j b ne ∙ eb),
        ),
      ),
    )

shuffle_round-Shuffles :
    (cards : List ℕ) (i j : ℕ)
    → i < length cards
    → j < length cards
    → Shuffles cards (shuffle_round cards i j)
unfolding shuffle_round
shuffle_round-Shuffles cards i j hi hj = elim (Bool-cases (i == j)) [
  | inl e ↦ rw e (cards, refl, (refl, λ c. refl))
  | inr e ↦ rw e (swap_cards-Shuffles cards i j hi hj (ground arith))
]

-- The rounds from `i` on stay inside an array of 54 entries, whatever rand() returns.
shuffle_rounds-Shuffles :
    (rand : ℕ → ℕ) (n i : ℕ) (cards : List ℕ)
    → length cards ≡ 54
    → i + n ≡ 54
    → Shuffles cards (shuffle_rounds rand n i cards)
unfolding shuffle_rounds
shuffle_rounds-Shuffles rand zero i cards hl hi = (cards, refl, (refl, λ c. refl))
shuffle_rounds-Shuffles rand (suc n) i cards hl hi =
    let (d, ed, sd) = shuffle_round-Shuffles cards i (rand i % 54) (omega arith) (omega arith) in
    let (r, er, sr) = shuffle_rounds-Shuffles rand n (i + 1) d (sd.0 ∙ hl) (omega arith) in
    (r, rw ed er, (sr.0 ∙ sd.0, λ c. sr.1 c ∙ sd.1 c))

shuffle_card-Shuffles : (rand : ℕ → ℕ) → Shuffles new_deck (shuffle_card rand)
unfolding shuffle_card
shuffle_card-Shuffles rand = shuffle_rounds-Shuffles rand 54 0 new_deck refl refl

-- The codes of the cards: four colors of thirteen, and the jokers 61 and 62.
abbrev pub is_card : ℕ → Bool
is_card c = (ltb (c % 16) 13 && ltb c 64 && not (c == 61) && not (c == 62)) || c == 61 || c == 62

-- A test that holds for all numbers below a bound.
all_below : ℕ → (ℕ → Bool) → Bool
all_below zero test = true
all_below (suc n) test = test n && all_below n test

all_below_sound :
    (n : ℕ) (test : ℕ → Bool) (x : ℕ) → all_below n test ≡ true → x < n → test x ≡ true
unfolding all_below
all_below_sound zero test x h lt = absurd (omega arith)
all_below_sound (suc n) test x h lt = ground (arith, all_below_sound n test x)

deck_table : all_below 64 (λ c. count c new_deck == (if is_card c then 1 else 0)) ≡ true
unfolding all_below new_deck
deck_table = refl

abbrev all_small : List ℕ → Bool
all_small [] = true
all_small (x ∷ xs) = ltb x 64 && all_small xs

count_large : (c : ℕ) (xs : List ℕ) → all_small xs ≡ true → 64 ≤ c → count c xs ≡ 0
count_large c [] h le = refl
count_large c (x ∷ xs) h le = ground (arith, count_large c xs)

-- The new deck holds each card once, and nothing else.
count-new_deck : (c : ℕ) → count c new_deck ≡ (if is_card c then 1 else 0)
unfolding new_deck
count-new_deck c = elim (dec_lt c 64) [
  | yes lt ↦ (==_iff _ _).0 (all_below_sound 64 _ c deck_table lt)
  | no ge ↦ count_large c new_deck refl (omega arith) ∙ (ground arith)
]

new_deck-length : length new_deck ≡ 54
unfolding new_deck
new_deck-length = refl

-- An array of 54 entries with each of the 54 cards once.
pub record IsDeck (cards : List ℕ) : Type 0 where
  pub size : length cards ≡ 54
  pub once : (c : ℕ) → count c cards ≡ (if is_card c then 1 else 0)

-- Whatever rand() returns, Room::shuffleCard reads and writes inside its array of 54 entries and ends
-- with each of the 54 cards once.
pub shuffle_card-IsDeck : (rand : ℕ → ℕ) → (d : List ℕ) × (shuffle_card rand ≡ some d) × IsDeck d
shuffle_card-IsDeck rand =
    let (d, e, same) = shuffle_card-Shuffles rand in
    (d, e, record { size = same.0 ∙ new_deck-length; once = λ c. same.1 c ∙ count-new_deck c })
