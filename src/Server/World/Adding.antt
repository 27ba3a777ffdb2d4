-- ===== src/Server/World/Adding.antt =====
-- How World takes new sessions into its map (server/game/World/World.cpp, World::AddSession_ and the
-- first loop of UpdateSessions).
use landlord.Prelude.{
  ℕ, ◌≡◌, refl, sym, ◌∙◌, ap, ==_iff, inl, inr, true, false, Option, none, some, List, [], ◌∷◌,
  ◌++◌, ◌==◌, if◌then◌else◌, Bool-cases, Option-cases,
}
use landlord.Game.Types.{Game}
use landlord.Game.Store.{◌>>=◌, ◌>>◌}
use landlord.Server.Session.{WorldSession, destroy_session, get_player}
use landlord.Server.World.{find_session, remove_session, take_session, take_sessions}
use landlord.Server.World.Accounts.{IsSessionMap, take_session-IsSessionMap}

-- The first session of an account in a queue.
unfoldable pub first_of : ℕ → List WorldSession → Option WorldSession
first_of id [] = none
first_of id (s ∷ queue) = if s.account_id == id then some s else first_of id queue

abbrev pub or_else_of : Option WorldSession → Option WorldSession → Option WorldSession
or_else_of none late = late
or_else_of (some s) late = some s

-- The sessions have no player yet.
abbrev pub NoPlayers : Game → List WorldSession → Type 0
NoPlayers g [] = Unit {0}
NoPlayers g (s ∷ queue) = (g.session_player s.id ≡ none) × NoPlayers g queue

find_session-append :
    (id k : ℕ) (s : WorldSession) (m : List (ℕ × WorldSession))
    → find_session id (m ++ ((k, s) ∷ []))
      ≡ or_else_of (find_session id m) (if k == id then some s else none)
unfolding find_session
find_session-append id k s [] = refl
find_session-append id k s ((j, t) ∷ m) = elim (Bool-cases (j == id)) [
  | inl e ↦ rw e refl
  | inr e ↦ rw e (find_session-append id k s m)
]

or_assoc :
    (a b c : Option WorldSession) → or_else_of (or_else_of a b) c ≡ or_else_of a (or_else_of b c)
or_assoc none b c = refl
or_assoc (some s) b c = refl

first_of-cons :
    (id : ℕ) (s : WorldSession) (queue : List WorldSession)
    → or_else_of (if s.account_id == id then some s else none) (first_of id queue)
      ≡ first_of id (s ∷ queue)
unfolding first_of
first_of-cons id s queue = elim (Bool-cases (s.account_id == id)) [
  | inl e ↦ rw e refl
  | inr e ↦ rw e refl
]

or_none : (a : Option WorldSession) → a ≡ or_else_of a none
or_none none = refl
or_none (some s) = refl

known_account :
    (id : ℕ) (s t : WorldSession) (m : List (ℕ × WorldSession))
    → find_session s.account_id m ≡ some t
    → find_session id m
      ≡ or_else_of (find_session id m) (if s.account_id == id then some s else none)
known_account id s t m old = elim (Bool-cases (s.account_id == id)) [
  | inl e ↦
      let there : find_session id m ≡ some t =
        ap (λ (k : ℕ). find_session k m) (sym ((==_iff s.account_id id).0 e)) ∙ old in
      rw there refl
  | inr e ↦ rw e (or_none (find_session id m))
]

remove_session-none :
    (id : ℕ) (m : List (ℕ × WorldSession)) → find_session id m ≡ none → remove_session id m ≡ false
unfolding remove_session
remove_session-none id m e = rw (remove_session, e) refl

remove_session-some :
    (id : ℕ) (t : WorldSession) (m : List (ℕ × WorldSession))
    → find_session id m ≡ some t
    → remove_session id m ≡ true
unfolding remove_session
remove_session-some id t m e = rw (remove_session, e) refl

-- One session without a player is taken, or refused if its account is there.
take_session-one :
    (s : WorldSession) (m : List (ℕ × WorldSession)) (g : Game)
    → g.session_player s.id ≡ none
    → (m' : List (ℕ × WorldSession)) × (take_session s m g ≡ some (m', g))
      × ((id : ℕ)
          → find_session id m'
            ≡ or_else_of (find_session id m) (if s.account_id == id then some s else none))
unfolding take_session destroy_session get_player
take_session-one s m g e = elim (Option-cases (find_session s.account_id m)) [
  | inl new ↦ (
    m ++ ((s.account_id, s) ∷ []),
    rw (remove_session-none s.account_id m new) refl,
    λ id. find_session-append id s.account_id s m,
  )
  | inr (t, old) ↦ (
    m,
    rw (remove_session-some s.account_id t m old, ◌>>◌, ◌>>=◌, e) refl,
    λ id. known_account id s t m old,
  )
]

-- The first loop of UpdateSessions takes new sessions, none of which has a player, without a fault and
-- without a change to the game. If every session of the map is under its account and no account is
-- there twice, this stays so; an account that was there keeps its session, and any other gets the
-- first session that the queue has of it, if there is one.
pub take_sessions-first :
    (queue : List WorldSession) (m : List (ℕ × WorldSession)) (g : Game)
    → IsSessionMap m
    → NoPlayers g queue
    → (m' : List (ℕ × WorldSession)) × (take_sessions queue m g ≡ some (m', g))
      × IsSessionMap m'
      × ((id : ℕ) → find_session id m' ≡ or_else_of (find_session id m) (first_of id queue))
unfolding take_sessions first_of
take_sessions-first [] m g h n = (m, refl, h, λ id. or_none (find_session id m))
take_sessions-first (s ∷ queue) m g h n =
    let (m1, ran, found) = take_session-one s m g n.0 in
    let (m2, others, map2, found2) =
      take_sessions-first queue m1 g (take_session-IsSessionMap s m m1 g g h ran) n.1 in
    (
      m2,
      rw (◌>>=◌, ran) others,
      map2,
      λ id.
          found2 id
          ∙ ap (λ (o : Option WorldSession). or_else_of o (first_of id queue)) (found id)
          ∙ or_assoc (find_session id m) (if s.account_id == id then some s else none)
              (first_of id queue)
          ∙ ap (or_else_of (find_session id m)) (first_of-cons id s queue),
    )
