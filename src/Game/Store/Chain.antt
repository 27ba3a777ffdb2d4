-- ===== src/Game/Store/Chain.antt =====
-- Steps of the state monad that are known not to fault.
use landlord.Prelude.{ℕ, ◌≡◌, refl, ap, Option, none, some, arith}
use landlord.Game.Types.{Game, Player}
use landlord.Game.Store.{M, ◌>>=◌, modify, pure, update, write}

no_fault : {B : Type 0} (r : B) → none ≡ some r → ⊥
no_fault r h = ground arith

through_cases :
    {A B P : Type 0} (o : Option (A × Game)) (k : A → M B) (g : Game) (r : B × Game)
    → ((λ _. o) >>= k) g ≡ some r
    → ((a : A) (g' : Game) → o ≡ some (a, g') → k a g' ≡ some r → P)
    → P
through_cases none k g r h f = absurd (no_fault r h)
through_cases (some (a, g')) k g r h f = f a g' refl h

-- A chain that does not fault has done its first step.
pub through :
    {A B P : Type 0} (m : M A) {k : A → M B} (g : Game) (r : B × Game)
    → (m >>= k) g ≡ some r
    → ((a : A) (g' : Game) → m g ≡ some (a, g') → k a g' ≡ some r → P)
    → P
through m {k} g r h f = through_cases (m g) k g r h f

-- What a chain does after a step whose result is known.
pub step :
    {A B : Type 0} (m : M A) (k : A → M B) (g : Game) {g' : Game} {a : A}
    → m g ≡ some (a, g')
    → (m >>= k) g ≡ k a g'
step m k g e = rw (e, ◌>>=◌)

pub modify-ok :
    (p : ℕ) (f : Player → Player) (g : Game) (a : Player)
    → g.cell p ≡ some a
    → modify p f g ≡ some (tt, record g { cell = update g.cell p (some (f a)) })
modify-ok p f g a e = rw (e, ◌>>=◌, write, e)

-- What `pure` returns.
pub pure-inv : {A : Type 0} (a b : A) (g g' : Game) → pure a g ≡ some (b, g') → a ≡ b
pure-inv a b g g' e = ap (λ o. elim o [ none ↦ a | some x ↦ x.0 ]) e
