-- ===== src/Server/World/Accounts.antt =====
-- The session map of World (server/game/World/World.cpp).
use landlord.Prelude.{
  ℕ, ◌≡◌, refl, sym, ◌≢◌, inl, inr, Bool, true, false, some, List, [], ◌∷◌, ◌++◌, arith, ◌==◌,
  if◌then◌else◌, Bool-cases,
}
use landlord.Game.Types.{Game}
use landlord.Game.Store.{◌>>◌, pure}
use landlord.Game.Store.Chain.{through, pure-inv}
use mathlib.Core.Path.{subst}
use landlord.Server.Session.{WorldSession, destroy_session}
use landlord.Server.World.{World, log_out_fuel, find_session, remove_session, take_session}

abbrev Absent : ℕ → List (ℕ × WorldSession) → Type 0
Absent id [] = Unit
Absent id ((k, s) ∷ rest) = (k ≢ id) × Absent id rest

-- Every session is under its account, and no account is there twice.
abbrev pub IsSessionMap : List (ℕ × WorldSession) → Type 0
IsSessionMap [] = Unit
IsSessionMap ((k, s) ∷ rest) = (k ≡ s.account_id) × Absent k rest × IsSessionMap rest

find_session-Absent :
    (id : ℕ) (m : List (ℕ × WorldSession)) → remove_session id m ≡ false → Absent id m
unfolding remove_session find_session
find_session-Absent id [] h = tt
find_session-Absent id ((k, s) ∷ m) h = elim (Bool-cases (k == id)) [
  | inl e ↦ ground arith
  | inr e ↦ (ground arith, find_session-Absent id m (ground arith))
]

append-Absent :
    (id k : ℕ) (s : WorldSession) (m : List (ℕ × WorldSession))
    → Absent id m
    → k ≢ id
    → Absent id (m ++ ((k, s) ∷ []))
append-Absent id k s [] h n = (n, tt)
append-Absent id k s ((j, t) ∷ m) h n = (h.0, append-Absent id k s m h.1 n)

append-IsSessionMap :
    (s : WorldSession) (m : List (ℕ × WorldSession))
    → IsSessionMap m
    → Absent s.account_id m
    → IsSessionMap (m ++ ((s.account_id, s) ∷ []))
append-IsSessionMap s [] h n = (refl, tt, tt)
append-IsSessionMap s ((j, t) ∷ m) h n =
    (h.0, append-Absent j s.account_id s m h.1 (λ e. n.0 (sym e)), append-IsSessionMap s m h.2 n.1)

take_cases :
    (b : Bool) (s : WorldSession) (m m' : List (ℕ × WorldSession)) (g g' : Game)
    → IsSessionMap m
    → (b ≡ false → Absent s.account_id m)
    → (if b
          then (do destroy_session log_out_fuel s; pure m)
          else pure (m ++ ((s.account_id, s) ∷ [])))
        g
      ≡ some (m', g')
    → IsSessionMap m'
take_cases true s m m' g g' h n e =
    through (destroy_session log_out_fuel s) g (m', g') e
      λ u g1 e1 e2. subst IsSessionMap (pure-inv m m' g1 g' e2) h
take_cases false s m m' g g' h n e =
    subst IsSessionMap (pure-inv (m ++ ((s.account_id, s) ∷ [])) m' g g' e)
      (append-IsSessionMap s m h (n refl))

pub take_session-IsSessionMap :
    (s : WorldSession) (m m' : List (ℕ × WorldSession)) (g g' : Game)
    → IsSessionMap m
    → take_session s m g ≡ some (m', g')
    → IsSessionMap m'
unfolding take_session
take_session-IsSessionMap s m m' g g' h e =
    take_cases (remove_session s.account_id m) s m m' g g' h (find_session-Absent s.account_id m) e
