-- ===== src/Game/Room/One/Fuel.antt =====
-- The loop of Room::UpdateOne ends (server/game/Room/Room.cpp).
use landlord.Prelude.{
  ℕ, zero, suc, ◌+◌, ◌<◌, ◌≡◌, refl, ap, ◌∙◌, inl, inr, Bool, true, false, Option, none, some, List,
  [], ◌∷◌, ◌++◌, arith, if◌then◌else◌, Option-cases, length,
}
use landlord.Game.Types.{Player, Game}
use landlord.Game.Store.Chain.{through}
use landlord.Game.Store.{M, ◌>>=◌, ◌>>◌, pure, read}
use landlord.Game.Room.{Room, enter, expired}
use landlord.Game.Room.Pool.{get_ai_player}
use landlord.Game.Player.{add_player}
use mathlib.Core.Path.{subst}
use landlord.Game.Room.One.{
  get_player_from_one, seat_three, seat_two, seat_one, one_round, one_rounds, update_one,
}

get-one :
    (room r : Room) (p : ℕ) (rest : List ℕ) (o : Option ℕ) (g g' : Game)
    → room.one ≡ p ∷ rest
    → get_player_from_one room g ≡ some ((o, r), g')
    → r.one ≡ rest
unfolding get_player_from_one
get-one room r p rest o g g' e h = ground arith

seat_three-one :
    (a b c : Option ℕ) (room r : Room) (g g' : Game)
    → seat_three a b c room g ≡ some (r, g')
    → r.one ≡ room.one
unfolding seat_three
seat_three-one none b c room r g g' h = ground arith
seat_three-one (some a) none c room r g g' h = ground arith
seat_three-one (some a) (some b) none room r g g' h = ground arith
seat_three-one (some a) (some b) (some c) room r g g' h = ground arith

seat_two-one :
    (a b : Option ℕ) (room r : Room) (g g' : Game)
    → seat_two a b room g ≡ some (r, g')
    → r.one ≡ room.one
unfolding seat_two
seat_two-one none b room r g g' h = ground arith
seat_two-one (some a) none room r g g' h = ground arith
seat_two-one (some a) (some b) room r g g' h = ground arith

get-rest :
    (room r : Room) (p : ℕ) (rest : List ℕ) (o : Option ℕ) (g g' : Game)
    → get_player_from_one (record room { one = p ∷ rest }) g ≡ some ((o, r), g')
    → r.one ≡ rest
get-rest room r p rest o g g' h = get-one (record room { one = p ∷ rest }) r p rest o g g' refl h

goes_on :
    (again : Bool) (room r : Room) (g g' : Game)
    → pure {A = Bool × Room} (again, room) g ≡ some ((true, r), g')
    → (again ≡ true) × (r.one ≡ room.one)
goes_on again room r g g' h = (ground arith, ground arith)

entered :
    (id p p0 p1 : ℕ) (room r : Room) (g g' : Game)
    → pure (enter id p (record room { two = room.two ++ ((p0, p1) ∷ []) })) g ≡ some (r, g')
    → r.one ≡ room.one
unfolding enter
entered id p p0 p1 room r g g' h = ground arith

same_read :
    (p : ℕ) (a b : Player) (g g1 g2 : Game)
    → read p g ≡ some (a, g1)
    → read p g1 ≡ some (b, g2)
    → expired b ≡ expired a
same_read p a b g g1 g2 e1 e2 = ground arith

seat_one-one :
    (p : ℕ) (a : Player) (room r : Room) (g g1 g' : Game)
    → expired a ≡ true
    → read p g ≡ some (a, g1)
    → seat_one p room g1 ≡ some (r, g')
    → r.one ≡ room.one
unfolding seat_one
seat_one-one p a room r g g1 g' e e1 h =
    through (read p) g1 (r, g') h
      λ b g2 e2 h2.
        through (get_ai_player b.room_id) g2 (r, g')
          (subst
            (λ t.
              (if t
                  then (do
                    p1 ← get_ai_player b.room_id
                    add_player p p1
                    add_player p1 p
                    c ← read p1
                    pure (enter c.info.id p1 (record room { two = room.two ++ ((p, p1) ∷ []) })))
                  else pure (record room { one = room.one ++ (p ∷ []) }))
                g2
              ≡ some (r, g'))
            (same_read p a b g g1 g2 e1 e2 ∙ e) h2)
          λ p1 g3 e3 h3.
            through (add_player p p1) g3 (r, g') h3
              λ u1 g4 e4 h4.
                through (add_player p1 p) g4 (r, g') h4
                  λ u2 g5 e5 h5.
                    through (read p1) g5 (r, g') h5
                      λ c g6 e6 h6. entered c.info.id p1 p p1 room r g6 g' h6

-- The end of a round for the only one of the list.
abbrev alone : ℕ → Room → M (Bool × Room)
alone p room = do a ← read p; r ← seat_one p room; pure (expired a, r)

alone-one :
    (o : Option ℕ) (room r : Room) (g g' : Game)
    → (elim o as (λ _. M (Bool × Room)) [ none ↦ pure (false, room) | some p ↦ alone p room ]) g
      ≡ some ((true, r), g')
    → r.one ≡ room.one
alone-one none room r g g' h = ground arith
alone-one (some p) room r g g' h =
    through (read p) g ((true, r), g') h
      λ a g1 e1 h1.
        through (seat_one p room) g1 ((true, r), g') h1
          λ s g2 e2 h2.
            let l : (expired a ≡ true) × (r.one ≡ s.one) = goes_on (expired a) s r g2 g' h2 in
            l.1 ∙ seat_one-one p a room s g g1 g2 l.0 e1 e2

ended :
    (room r : Room) (g g' : Game)
    → pure {A = Bool × Room} (true, room) g ≡ some ((true, r), g')
    → r.one ≡ room.one
ended room r g g' h = ground arith

-- A round that goes on leaves fewer players in the list.
one_round-shrinks :
    (ps : List ℕ) (room r : Room) (g g' : Game)
    → one_round (record room { one = ps }) g ≡ some ((true, r), g')
    → length r.one < length ps
unfolding one_round
one_round-shrinks [] room r g g' h = ground arith
one_round-shrinks (p ∷ []) room r g g' h =
    through (get_player_from_one (record room { one = p ∷ [] })) g ((true, r), g') h
      λ x g1 e1 h1.
        let a1 : x.1.one ≡ [] = get-rest room x.1 p [] x.0 g g1 e1 in
        let a2 : r.one ≡ [] = alone-one x.0 x.1 r g1 g' h1 ∙ a1 in omega (arith, ap length a2)
one_round-shrinks (p ∷ q ∷ []) room r g g' h =
    through (get_player_from_one (record room { one = p ∷ q ∷ [] })) g ((true, r), g') h
      λ x g1 e1 h1.
        through (get_player_from_one x.1) g1 ((true, r), g') h1
          λ y g2 e2 h2.
            through (seat_two x.0 y.0 y.1) g2 ((true, r), g') h2
              λ z g3 e3 h3.
                let a1 : x.1.one ≡ q ∷ [] = get-rest room x.1 p (q ∷ []) x.0 g g1 e1 in
                let a2 : y.1.one ≡ [] = get-one x.1 y.1 q [] y.0 g1 g2 a1 e2 in
                let a3 : r.one ≡ [] =
                  ended z r g3 g' h3 ∙ seat_two-one x.0 y.0 y.1 z g2 g3 e3 ∙ a2 in
                omega (arith, ap length a3)
one_round-shrinks (p ∷ q ∷ q' ∷ ps) room r g g' h =
    through (get_player_from_one (record room { one = p ∷ q ∷ q' ∷ ps })) g ((true, r), g') h
      λ x g1 e1 h1.
        through (get_player_from_one x.1) g1 ((true, r), g') h1
          λ y g2 e2 h2.
            through (get_player_from_one y.1) g2 ((true, r), g') h2
              λ z g3 e3 h3.
                through (seat_three x.0 y.0 z.0 z.1) g3 ((true, r), g') h3
                  λ w g4 e4 h4.
                    let a1 : x.1.one ≡ q ∷ q' ∷ ps =
                      get-rest room x.1 p (q ∷ q' ∷ ps) x.0 g g1 e1 in
                    let a2 : y.1.one ≡ q' ∷ ps = get-one x.1 y.1 q (q' ∷ ps) y.0 g1 g2 a1 e2 in
                    let a3 : z.1.one ≡ ps = get-one y.1 z.1 q' ps z.0 g2 g3 a2 e3 in
                    let a4 : r.one ≡ ps =
                      ended w r g4 g' h4 ∙ seat_three-one x.0 y.0 z.0 z.1 w g3 g4 e4 ∙ a3 in
                    omega (arith, ap length a4)

enough_fuel :
    (stop stop' : Room → M Room) (n m : ℕ) (room : Room) (g : Game)
    → length room.one < n
    → length room.one < m
    → one_rounds stop n room g ≡ one_rounds stop' m room g
unfolding one_rounds
enough_fuel stop stop' zero m room g h k = absurd (omega arith)
enough_fuel stop stop' (suc n) zero room g h k = absurd (omega arith)
enough_fuel stop stop' (suc n) (suc m) room g h k = elim (Option-cases (one_round room g)) [
  | inl e ↦ rw (e, one_rounds, ◌>>=◌)
  | inr (((true, r), g'), e) ↦
      rw (e, one_rounds, ◌>>=◌)
        (enough_fuel stop stop' n m r g' (omega (arith, one_round-shrinks room.one room r g g' e))
          (omega (arith, one_round-shrinks room.one room r g g' e)))
  | inr (((false, r), g'), e) ↦ rw (e, one_rounds, ◌>>=◌)
]

-- The loop of UpdateOne is left, or a round of it faults, after at most one round more than there are
-- players in the list: with that much fuel or more, what is chosen to happen when the fuel is used up
-- never happens, and the outcome is that of update_one.
pub update_one-fuel :
    (stop : Room → M Room) (n : ℕ) (room : Room) (g : Game)
    → length room.one < n
    → one_rounds stop n room g ≡ update_one room g
unfolding update_one
update_one-fuel stop n room g h = enough_fuel stop _ n (length room.one + 1) room g h (omega arith)
