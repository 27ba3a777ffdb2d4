-- ===== src/Game/Room/One/Safety.antt =====
-- Room::UpdateOne never follows a dangling pointer (server/game/Room/Room.cpp).
use landlord.Prelude.{
  ℕ, zero, suc, ◌+◌, ◌≤◌, ◌<◌, ◌≡◌, refl, ap, ◌∙◌, Bool, true, false, Option, none, some, List, [],
  ◌∷◌, arith, length, drop, count, count-append,
}
use landlord.Game.Types.{Player, Game}
use landlord.Game.Store.{M, ◌>>=◌, read, pure}
use landlord.Game.Player.{add_player}
use landlord.Game.Room.{Room, enter, expired}
use landlord.Game.Room.Pool.{get_ai_player}
use landlord.Game.Room.One.{
  get_player_from_one, seat_three, seat_two, seat_one, one_round, one_rounds, update_one,
}
use landlord.Game.Room.Holding.{
  Ends, IsSound, at_hand, chain, read_chain, if_keep, true-false, one_if_eq_self, count_two-append,
}
use landlord.Game.Room.Holding.Steps.{add_player-IsSound}
use landlord.Game.Room.Holding.Moves.{get_ai_player-IsSound}
use landlord.Game.Room.One.Taking.{
  held, get_player_from_one-IsSound, seat_three-held, seat_two-held,
}

-- The last one of the list gets an AI, or goes back to the list.
seat_one-IsSound :
    (p : ℕ) (a : Player) (room : Room) (g : Game)
    → g.cell p ≡ some a
    → IsSound (p ∷ []) room g
    → Ends (λ r g'. IsSound [] r g' × (expired a ≡ true → r.one ≡ room.one)) (seat_one p room g)
unfolding seat_one enter
seat_one-IsSound p a room g e s = read_chain p _ g a e (
    if_keep (expired a) _ _ g
      (λ _.
        chain (get_ai_player a.room_id) g (get_ai_player-IsSound a.room_id (p ∷ []) room g s)
          λ p1 g1 s1.
            let in0 : 0 < count p (p1 ∷ p ∷ []) = omega (arith, one_if_eq_self p) in
            let in1 : 0 < count p1 (p1 ∷ p ∷ []) = omega (arith, one_if_eq_self p1) in
            chain (add_player p p1) g1 (add_player-IsSound p p1 (p1 ∷ p ∷ []) room g1 in0 in1 s1)
              λ _ g2 s2.
                chain (add_player p1 p) g2
                  (add_player-IsSound p1 p (p1 ∷ p ∷ []) room g2 in1 in0 s2)
                  λ _ g3 s3.
                    let (b, e') = at_hand p1 (p ∷ []) room g3 s3 in
                    read_chain p1 _ g3 b e' (record {
                      holds = (
                        λ q. omega (arith, s3 q, count_two-append q room.two ((p, p1) ∷ [])),
                        λ _. refl,
                      );
                    }))
      (λ no. record {
        holds = (
          λ q. omega (arith, s q, count-append q room.one (p ∷ [])),
          λ h. absurd (true-false (expired a) h no),
        );
      }))

-- What a round ensures; a round that goes on leaves a shorter list.
abbrev Round : ℕ → Bool × Room → Game → Type 0
Round n (again, room) g = IsSound [] room g × (again ≡ true → length room.one < n)

alone-Round :
    (o : Option ℕ) (room : Room) (g : Game)
    → IsSound (held o []) room g
    → room.one ≡ []
    → Ends (Round 1) (
        (elim o as (λ _. M (Bool × Room)) [
          | none ↦ pure (false, room)
          | some p ↦ do a ← read p; r ← seat_one p room; pure (expired a, r)
        ])
          g)
alone-Round none room g s e = record { holds = (s, λ h. cc) }
alone-Round (some p) room g s e =
    let (a, here) = at_hand p [] room g s in
    read_chain p _ g a here (
      chain (seat_one p room) g (seat_one-IsSound p a room g here s)
        λ r g' s'. record { holds = (s'.0, λ h. omega (arith, ap length (s'.1 h ∙ e))) })

one_round-Round :
    (ps : List ℕ) (room : Room) (g : Game)
    → IsSound [] (record room { one = ps }) g
    → Ends (Round (length ps)) (one_round (record room { one = ps }) g)
unfolding one_round
one_round-Round [] room g s = record { holds = (s, λ h. cc) }
one_round-Round (p ∷ []) room g s =
    chain (get_player_from_one (record room { one = p ∷ [] })) g
      (get_player_from_one-IsSound [] (record room { one = p ∷ [] }) g s)
      λ x g1 s1. alone-Round x.0 x.1 g1 s1.0 s1.1
one_round-Round (p ∷ q ∷ []) room g s =
    chain (get_player_from_one (record room { one = p ∷ q ∷ [] })) g
      (get_player_from_one-IsSound [] (record room { one = p ∷ q ∷ [] }) g s)
      λ x g1 s1.
        chain (get_player_from_one x.1) g1 (get_player_from_one-IsSound (held x.0 []) x.1 g1 s1.0)
          λ y g2 s2. chain (seat_two x.0 y.0 y.1) g2 (seat_two-held x.0 y.0 y.1 g2 s2.0) λ r g3 s3.
            record {
              holds = (s3.0, λ h. omega (arith, ap length (s3.1 ∙ s2.1 ∙ ap (drop 1) s1.1)));
            }
one_round-Round (p ∷ q ∷ q' ∷ ps) room g s =
    chain (get_player_from_one (record room { one = p ∷ q ∷ q' ∷ ps })) g
      (get_player_from_one-IsSound [] (record room { one = p ∷ q ∷ q' ∷ ps }) g s)
      λ x g1 s1.
        chain (get_player_from_one x.1) g1 (get_player_from_one-IsSound (held x.0 []) x.1 g1 s1.0)
          λ y g2 s2.
            chain (get_player_from_one y.1) g2
              (get_player_from_one-IsSound (held y.0 (held x.0 [])) y.1 g2 s2.0)
              λ z g3 s3.
                chain (seat_three x.0 y.0 z.0 z.1) g3 (seat_three-held x.0 y.0 z.0 z.1 g3 s3.0)
                  λ r g4 s4. record {
                    holds = (
                      s4.0,
                      λ h. omega (
                        arith,
                        ap length
                            (s4.1 ∙ s3.1 ∙ ap (drop 1) s2.1 ∙ ap (λ l. drop 1 (drop 1 l)) s1.1),
                      ),
                    );
                  }

-- The loop after a round, if the rest of the loop is known to be sound.
loop_end :
    (stop : Room → M Room) (n m : ℕ) (again : Bool) (room : Room) (g : Game)
    → m ≤ n
    → Round m (again, room) g
    → ((r : Room) (g' : Game)
        → IsSound [] r g'
        → length r.one < n
        → Ends (IsSound []) (one_rounds stop n r g'))
    → Ends
        (IsSound [])
        ((elim again as (λ _. M Room) [ true ↦ one_rounds stop n room | false ↦ pure room ]) g)
loop_end stop n m true room g le h rest = rest room g h.0 (omega (arith, h.1 refl))
loop_end stop n m false room g le h rest = record { holds = h.0 }

one_rounds-IsSound :
    (stop : Room → M Room) (n : ℕ) (room : Room) (g : Game)
    → IsSound [] room g
    → length room.one < n
    → Ends (IsSound []) (one_rounds stop n room g)
unfolding one_rounds
one_rounds-IsSound stop zero room g s h = absurd (omega arith)
one_rounds-IsSound stop (suc n) room g s h =
    chain (one_round room) g (one_round-Round room.one room g s) λ x g' s'.
      loop_end stop n (length room.one) x.0 x.1 g' (omega arith) s'
        λ r g'' s'' short. one_rounds-IsSound stop n r g'' s'' short

-- UpdateOne of a sound room does not fault, and leaves a sound room.
pub update_one-IsSound :
    (room : Room) (g : Game) → IsSound [] room g → Ends (IsSound []) (update_one room g)
unfolding update_one
update_one-IsSound room g s = one_rounds-IsSound _ (length room.one + 1) room g s (omega arith)
