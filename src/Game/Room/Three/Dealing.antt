-- ===== src/Game/Room/Three/Dealing.antt =====
-- The cards of a table (server/game/Room/Room.cpp, Room::dealCards).
use landlord.Prelude.{
  ℕ, zero, suc, ◌+◌, ◌≡◌, refl, sym, ap, ◌∙◌, ◌≢◌, some, List, [], ◌∷◌, ◌++◌, arith, if◌then◌else◌,
  length, take, drop, take-append-drop, length-take, length-drop, count, count-append,
}
use landlord.Cards.Shuffle.{shuffle_card}
use landlord.Cards.Shuffle.Counts.{shuffle_card-IsDeck, IsDeck, is_card}
use landlord.Game.Types.{Player, Game}
use landlord.Game.Types.GameStatus
use landlord.Game.Spec.{Ensures}
use landlord.Game.Player.{deal_cards}
use landlord.Game.Room.Three.{Hands, Table, hands, deal_hands, deal_table}

-- Three hands of 17 cards and three cards beside them, together each card of the deck once.
pub record IsDeal (h : Hands) : Type 0 where
  pub sizes : (length h.0 ≡ 17) × (length h.1 ≡ 17) × (length h.2 ≡ 17) × (length h.3 ≡ 3)
  pub once :
      (c : ℕ) → count c h.0 + count c h.1 + count c h.2 + count c h.3 ≡ (if is_card c then 1 else 0)

-- What stands before and behind a place counts together as the whole.
count-cut : (c n : ℕ) (xs : List ℕ) → count c (take n xs) + count c (drop n xs) ≡ count c xs
count-cut c n xs =
    sym (count-append c (take n xs) (drop n xs)) ∙ ap (count c) (take-append-drop n xs)

drop-nil : (n : ℕ) → drop {A = ℕ} n [] ≡ []
drop-nil zero = refl
drop-nil (suc n) = refl

drop-drop : (n m : ℕ) (xs : List ℕ) → drop m (drop n xs) ≡ drop (n + m) xs
drop-drop zero m xs = let e : zero + m ≡ m = omega arith in rw e
drop-drop (suc n) m [] = drop-nil m ∙ sym (drop-nil (suc n + m))
drop-drop (suc n) m (x ∷ xs) =
    let e : suc n + m ≡ suc (n + m) = omega arith in rw e (drop-drop n m xs)

-- Any array of 54 entries that holds the deck is dealt out whole.
hands-IsDeal : (d : List ℕ) → IsDeck d → IsDeal (hands d)
unfolding hands
hands-IsDeal d v = record {
  sizes = omega (
    arith,
    v.size,
    length-take 17 d,
    length-take 17 (drop 17 d),
    length-take 17 (drop 34 d),
    length-drop 17 d,
    length-drop 34 d,
    length-drop 51 d,
  );
  once = λ c. omega (
    arith,
    v.once c,
    count-cut c 17 d,
    count-cut c 17 (drop 17 d),
    count-cut c 17 (drop 34 d),
    ap (count c) (drop-drop 17 17 d),
    ap (count c) (drop-drop 34 17 d),
  );
}

-- Three different players with their hands, as `deal_hands` leaves them.
abbrev pub HoldHands : Player → Player → Player → Table → Hands → Game → Type 0
HoldHands a b c (p0, p1, p2) h g =
    (g.cell p0
      ≡ some (record a {
        cards = h.0 ++ h.3 ++ drop 20 a.cards;
        game_status = GameStatus.dealing_card;
      }))
    × (g.cell p1
        ≡ some (record b {
          cards = h.1 ++ h.3 ++ drop 20 b.cards;
          game_status = GameStatus.dealing_card;
        }))
    × (g.cell p2
        ≡ some (record c {
          cards = h.2 ++ h.3 ++ drop 20 c.cards;
          game_status = GameStatus.dealing_card;
        }))

module _ (p0 p1 p2 : ℕ) (g : Game) (a b c : Player) (d01 : p0 ≢ p1) (d12 : p1 ≢ p2) (d02 : p0 ≢ p2)
    (h0 : g.cell p0 ≡ some a) (h1 : g.cell p1 ≡ some b) (h2 : g.cell p2 ≡ some c) where
  deal_hands-HoldHands :
      (h : Hands) (random : ℕ → ℕ)
      → Ensures
          (λ _ g'. HoldHands a b c (p0, p1, p2) h g' × (g'.random ≡ random))
          (deal_hands (p0, p1, p2) h (record g { random = random }))
  unfolding deal_hands deal_cards
  deal_hands-HoldHands h random = ground arith

  deal_table-hands :
      (d : List ℕ)
      → shuffle_card g.random ≡ some d
      → deal_table (p0, p1, p2) g
        ≡ deal_hands (p0, p1, p2) (hands d) (record g { random = λ k. g.random (k + 54) })
  unfolding deal_table
  deal_table-hands d e = ground (arith, e)

  -- Whatever rand() returns, dealCards gives three different players 17 cards each and shows all of
  -- them the same last three, together each card of the deck once. All three are then in
  -- GAME_STATUS_DEALING_CARD, and 54 results of rand() are used up.
  pub deal_table-IsDeal :
      (h : Hands) × IsDeal h
      × Ensures
          (λ _ g'. HoldHands a b c (p0, p1, p2) h g' × (g'.random ≡ λ k. g.random (k + 54)))
          (deal_table (p0, p1, p2) g)
  deal_table-IsDeal =
      let (d, e, v) = shuffle_card-IsDeck g.random in
      (
        hands d,
        hands-IsDeal d v,
        rw (deal_table-hands d e) (deal_hands-HoldHands (hands d) (λ k. g.random (k + 54))),
      )
