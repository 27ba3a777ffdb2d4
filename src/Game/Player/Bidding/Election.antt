-- ===== src/Game/Player/Bidding/Election.antt =====
-- Who becomes the landlord (server/game/Player/Player.cpp, Player::getLandlordId).
use landlord.Prelude.{
  ℕ, ◌≤◌, ◌<◌, ◌≡◌, ◌≢◌, ◌⊎◌, Bool, true, false, not, ◌&&◌, ◌||◌, arith, ◌==◌, u32_mod, minus_one,
  signed_key, max32,
}
use landlord.Game.Player.Bidding.{elected}

-- An int32 as its pattern.
abbrev IsWord : ℕ → Type 0
IsWord w = w < u32_mod

-- The bids of three seats that end the auction.
abbrev pub closes : ℕ → ℕ → ℕ → Bool
closes x y z =
    (not (x == minus_one) && not (y == minus_one) && not (z == minus_one))
    || max32 (max32 x y) z == 3

-- Whoever is elected bid at least as much, as an int32, as both others.
abbrev pub Outbids : ℕ → ℕ → ℕ → Type 0
Outbids x y z = (signed_key y ≤ signed_key x) × (signed_key z ≤ signed_key x)

-- A seat elects nobody before the auction is closed, and afterwards one of the three whose bid no
-- other exceeds.
pub elected_highest :
    (x i y j z k : ℕ)
    → IsWord x
    → IsWord y
    → IsWord z
    → ((closes x y z ≡ false) × (elected x i y j z k ≡ minus_one))
      ⊎ ((closes x y z ≡ true) × (elected x i y j z k ≡ i) × Outbids x y z)
      ⊎ ((closes x y z ≡ true) × (elected x i y j z k ≡ j) × Outbids y x z)
      ⊎ ((closes x y z ≡ true) × (elected x i y j z k ≡ k) × Outbids z x y)
elected_highest x i y j z k hx hy hz = ground arith

-- When no two bids are equal the three seats of a ring elect the same player.
pub elected_agree :
    (x i y j z k : ℕ)
    → IsWord x
    → IsWord y
    → IsWord z
    → x ≢ y
    → y ≢ z
    → x ≢ z
    → (elected x i y j z k ≡ elected y j z k x i) × (elected x i y j z k ≡ elected z k x i y j)
elected_agree x i y j z k hx hy hz = ground arith

-- When two neighbours share the highest bid of a closed auction, each of them elects itself.
elected_tie :
    (x i j z k : ℕ)
    → IsWord x
    → IsWord z
    → x ≢ minus_one
    → z ≢ minus_one
    → signed_key z ≤ signed_key x
    → (elected x i x j z k ≡ i) × (elected x j z k x i ≡ j)
elected_tie x i j z k hx hz = ground arith
