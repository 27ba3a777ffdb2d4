-- ===== src/Game/Room/Holding.antt =====
-- Who holds the players of a room (server/game/Room/Room.cpp, server/game/AI/AiPlayerPool.cpp): the
-- three lists, the pool of AIs, and the local variables of the code that moves players.
pub mod Steps
pub mod Moves
use landlord.Prelude.{
  ℕ, refl, Bool, true, false, ◌+◌, ◌≤◌, ◌<◌, ◌≡◌, Option, none, some, inl, inr, Option-cases, List,
  [], ◌∷◌, ◌++◌, arith, ltb, if◌then◌else◌, one_if_eq, count, count-append,
}
use landlord.Game.Types.{Player, Game}
use landlord.Game.Store.{M, ◌>>=◌, and_then, read, when}
use landlord.Game.Spec.{Ensures}
use landlord.Game.Room.{Room}

-- 1 for the number of an object that exists, else 0.
abbrev pub alive : Game → ℕ → ℕ
alive g q = elim (g.cell q) [ none ↦ 0 | some _ ↦ if ltb q g.next then 1 else 0 ]

-- How often a player sits in pairs, or at tables.
abbrev pub count_two : ℕ → List (ℕ × ℕ) → ℕ
count_two q [] = 0
count_two q ((p0, p1) ∷ pairs) = one_if_eq q p0 + (one_if_eq q p1 + count_two q pairs)

abbrev pub count_three : ℕ → List (ℕ × ℕ × ℕ) → ℕ
count_three q [] = 0
count_three q ((p0, p1, p2) ∷ tables) =
    one_if_eq q p0 + (one_if_eq q p1 + (one_if_eq q p2 + count_three q tables))

-- How often a player is in the lists of the room and in the pool.
abbrev places : ℕ → Room → Game → ℕ
places q room g =
    count q room.one + (count_two q room.two + (count_three q room.three + count q g.idle_ai))

-- The players at hand, those in the lists and those in the pool are objects that exist, and nobody
-- is there twice.
abbrev pub IsSound : List ℕ → Room → Game → Type 0
IsSound hand room g = (q : ℕ) → count q hand + places q room g ≤ alive g q

pub count_two-append :
    (q : ℕ) (xs ys : List (ℕ × ℕ)) → count_two q (xs ++ ys) ≡ count_two q xs + count_two q ys
count_two-append q [] ys = omega arith
count_two-append q ((p0, p1) ∷ xs) ys = omega (arith, count_two-append q xs ys)

pub count_three-append :
    (q : ℕ) (xs ys : List (ℕ × ℕ × ℕ))
    → count_three q (xs ++ ys) ≡ count_three q xs + count_three q ys
count_three-append q [] ys = omega arith
count_three-append q ((p0, p1, p2) ∷ xs) ys = omega (arith, count_three-append q xs ys)

pub one_if_eq_self : (p : ℕ) → one_if_eq p p ≡ 1
one_if_eq_self p = ground arith

-- `Ensures`, kept whole.
pub record Ends {A : Type 0} (Q : A → Game → Type 0) (o : Option (A × Game)) : Type 0 where
  pub holds : Ensures Q o

chain_cases :
    {A B : Type 0} {P : A → Game → Type 0} {Q : B → Game → Type 0} (o : Option (A × Game))
    (k : A → M B) (g : Game)
    → Ends P o
    → ((a : A) (g' : Game) → P a g' → Ends Q (k a g'))
    → Ends Q (((λ _. o) >>= k) g)
chain_cases none k g h next = absurd h.holds
chain_cases (some (a, g')) k g h next = next a g' h.holds

pub weaken :
    {A : Type 0} {P Q : A → Game → Type 0} (o : Option (A × Game))
    → ((a : A) (g' : Game) → P a g' → Q a g')
    → Ends P o
    → Ends Q o
weaken none f h = absurd h.holds
weaken (some (a, g')) f h = record { holds = f a g' h.holds }

-- The rules for a chain of steps, for the reading of a player, and for a test.
pub chain :
    {A B : Type 0} {P : A → Game → Type 0} {Q : B → Game → Type 0} (m : M A) {k : A → M B}
    (g : Game)
    → Ends P (m g)
    → ((a : A) (g' : Game) → P a g' → Ends Q (k a g'))
    → Ends Q ((m >>= k) g)
chain m {k} g h next = chain_cases (m g) k g h next

pub read_chain :
    {A : Type 0} {Q : A → Game → Type 0} (p : ℕ) (k : Player → M A) (g : Game) (a : Player)
    → g.cell p ≡ some a
    → Ends Q (k a g)
    → Ends Q ((read p >>= k) g)
read_chain p k g a e h = rw (◌>>=◌, e) h

pub when_rule :
    {P : Unit {0} → Game → Type 0} (test : Bool) (m : M (Unit {0})) (g : Game)
    → P tt g
    → Ends P (m g)
    → Ends P (when test m g)
when_rule true m g h k = k
when_rule false m g h k = record { holds = h }

pub and_rule :
    {Q : Bool → Game → Type 0} (test : Bool) (m : M Bool) (g : Game)
    → Q false g
    → Ends Q (m g)
    → Ends Q (and_then test m g)
and_rule true m g h k = k
and_rule false m g h k = record { holds = h }

pub if_rule :
    {A : Type 0} {Q : A → Game → Type 0} (test : Bool) (m n : M A) (g : Game)
    → Ends Q (m g)
    → Ends Q (n g)
    → Ends Q ((if test then m else n) g)
if_rule true m n g h k = h
if_rule false m n g h k = k

-- The same where the branch needs its test.
pub if_keep :
    {A : Type 0} {Q : A → Game → Type 0} (test : Bool) (m n : M A) (g : Game)
    → (test ≡ true → Ends Q (m g))
    → (test ≡ false → Ends Q (n g))
    → Ends Q ((if test then m else n) g)
if_keep true m n g h k = h refl
if_keep false m n g h k = k refl

pub true-false : (b : Bool) → b ≡ true → b ≡ false → ⊥
true-false b h k = cc

pub live_cases : (p : ℕ) (g : Game) → 0 < alive g p → (a : Player) × (g.cell p ≡ some a)
live_cases p g h = elim (Option-cases (g.cell p)) [
  | inl e ↦ absurd (ground arith)
  | inr found ↦ found
]

-- Whoever is at hand is an object that exists.
pub at_hand :
    (p : ℕ) (hand : List ℕ) (room : Room) (g : Game)
    → IsSound (p ∷ hand) room g
    → (a : Player) × (g.cell p ≡ some a)
at_hand p hand room g s = live_cases p g (omega (arith, s p, one_if_eq_self p))

pub in_hand :
    (p : ℕ) (hand : List ℕ) (room : Room) (g : Game)
    → 0 < count p hand
    → IsSound hand room g
    → (a : Player) × (g.cell p ≡ some a)
in_hand p hand room g h s = live_cases p g (omega (arith, s p))
