-- ===== src/Game/Spec.antt =====
-- How the properties of the game's code are stated: what a step ensures, and what is seen of a store.
use landlord.Prelude.{ℕ, ◌≡◌, refl, ◌≢◌, Option, none, some}
use landlord.Game.Types.{Player, Game}
use landlord.Game.Store.{M, ◌>>=◌, ◌>>◌, read}
use mathlib.Core.Option

-- A step that does not fault, with what holds of its result and of the state after it.
abbrev pub Ensures : {A : Type 0} → (A → Game → Type 0) → Option (A × Game) → Type 0
Ensures P none = ⊥
Ensures P (some (a, g)) = P a g

-- One field of a player, `none` for a dangling pointer.
abbrev pub seen : {A : Type 0} → (Player → A) → Game → ℕ → Option A
seen f g p = Option.map f (g.cell p)

-- The neighbours of a player.
abbrev pub links : Game → ℕ → Option (Option ℕ × Option ℕ)
links = seen λ a. (a.left, a.right)

-- The landlord whom a player knows, and the status.
abbrev pub outcome : Game → ℕ → Option (ℕ × ℕ)
outcome = seen λ a. (a.landlord_id, a.game_status)

-- Everyone has the next on the left and the one before on the right.
abbrev pub IsRing : Game → ℕ → ℕ → ℕ → Type 0
IsRing g p0 p1 p2 =
    (links g p0 ≡ some (some p1, some p2))
    × (links g p1 ≡ some (some p2, some p0))
    × (links g p2 ≡ some (some p0, some p1))

-- A player at a full table, with the two neighbours: three objects of the store.
pub record Seated (g : Game) (p l r : ℕ) (a b c : Player) : Type 0 where
  pub distinct : (p ≢ l) × (p ≢ r) × (l ≢ r)
  pub me : g.cell p ≡ some a
  pub to_left : g.cell l ≡ some b
  pub to_right : g.cell r ≡ some c
  pub left_link : a.left ≡ some l
  pub right_link : a.right ≡ some r

-- A chain ensures what its second step ensures after the first.
pub chain_rule :
    (P Q : Game → Type 0) (o : Option (Unit {0} × Game)) (m : M (Unit {0})) (g : Game)
    → Ensures (λ _ g'. P g') o
    → ((g' : Game) → P g' → Ensures (λ _ h. Q h) (m g'))
    → Ensures (λ _ h. Q h) (((λ _. o) >> m) g)
chain_rule P Q none m g h next = absurd h
chain_rule P Q (some (u, g')) m g h next = next g' h

-- A chain that begins with a look at a player who is there.
pub at_player :
    (p : ℕ) (a : Player) (f : Player → M (Unit {0})) (g : Game)
    → g.cell p ≡ some a
    → (read p >>= f) g ≡ f a g
at_player p a f g e = rw (◌>>=◌, read, e) refl
