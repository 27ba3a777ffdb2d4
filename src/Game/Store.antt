-- ===== src/Game/Store.antt =====
-- The state monad of the game's code: every step may read and write the store of Player objects.
pub mod Chain
use landlord.Prelude.{ℕ, suc, Bool, true, false, Option, none, some, ◌∷◌, ◌==◌, if◌then◌else◌}
use landlord.Game.Types.{Player, Packet, Game, get_int_config}

-- `none` is a fault: a null or dangling pointer is followed, an array is left, or fuel runs out.
abbrev pub M : Type 0 → Type 0
M A = Game → Option (A × Game)

abbrev pub pure : {A : Type 0} → A → M A
pure a g = some (a, g)

abbrev pub fault : {A : Type 0} → M A
fault g = none

infixl 5 ◌>>=◌ ◌>>◌
abbrev pub ◌>>=◌ : {A B : Type 0} → M A → (A → M B) → M B
◌>>=◌ first next g = elim (first g) [ some (a, after) ↦ next a after | none ↦ none ]

abbrev pub ◌>>◌ : {B : Type 0} → M (Unit {0}) → M B → M B
first >> second = first >>= λ _. second

abbrev pub done : M (Unit {0})
done = pure tt

-- `if (test) { body }`, the test already read.
abbrev pub when : Bool → M (Unit {0}) → M (Unit {0})
when true body = body
when false body = done

-- `a && b` and `a || b`, where `b` is read only if needed.
abbrev pub and_then : Bool → M Bool → M Bool
and_then true b = b
and_then false b = pure false

abbrev pub or_else : Bool → M Bool → M Bool
or_else true b = pure true
or_else false b = b

abbrev pub update : (ℕ → Option Player) → ℕ → Option Player → ℕ → Option Player
update cell p a q = if p == q then a else cell q

-- Follows a pointer that may be null.
abbrev pub deref : {A : Type 0} → Option A → M A
deref none = fault
deref (some p) = pure p

-- The object that a pointer shows to.
abbrev pub read : ℕ → M Player
read p g = deref (g.cell p) g

abbrev pub write : ℕ → Player → M (Unit {0})
write p a g = elim (g.cell p) [
  | none ↦ none
  | some _ ↦ some (tt, record g { cell = update g.cell p (some a) })
]

-- An assignment to fields of `*p`.
abbrev pub modify : ℕ → (Player → Player) → M (Unit {0})
modify p f = do a ← read p; write p (f a)

abbrev pub config : ℕ → M ℕ
config index g = some (get_int_config g index, g)

-- rand()
abbrev pub rand : M ℕ
rand g = some (g.random 0, record g { random = λ k. g.random (suc k) })

-- `p->GetSession()->SendPacket(&data)`: what is handed to WorldSession::SendPacket, which drops it
-- if the session has lost its socket.
abbrev pub send : ℕ → Packet → M (Unit {0})
send p packet = do
  a ← read p
  s ← deref a.session
  λ g. some (tt, record g { sent = (s, packet) ∷ g.sent })
