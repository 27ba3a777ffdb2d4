-- ===== src/Game/Room/One/Taking.antt =====
-- Taking players from the list and seating them never follows a dangling pointer (server/game/Room/Room.cpp).
use landlord.Prelude.{
  ℕ, ◌<◌, ◌≡◌, refl, ap, Option, none, some, List, [], ◌∷◌, arith, drop, count, List-cases, inl,
  inr,
}
use landlord.Game.Types.{Game}
use landlord.Game.Player.{add_player, delete_player}
use landlord.Game.Room.{Room, logged_out}
use landlord.Game.Room.One.{get_player_from_one, seat_three, seat_two}
use landlord.Game.Room.Holding.{
  Ends, IsSound, at_hand, chain, read_chain, if_rule, one_if_eq_self, count_two-append,
  count_three-append,
}
use landlord.Game.Room.Holding.Steps.{add_player-IsSound}
use landlord.Game.Room.Holding.Moves.{delete_player-IsSound}

-- A player that getPlayerFromOne hands out is at hand.
abbrev pub held : Option ℕ → List ℕ → List ℕ
held none hand = hand
held (some p) hand = p ∷ hand

pub held-drop :
    (o : Option ℕ) (hand : List ℕ) (room : Room) (g : Game)
    → IsSound (held o hand) room g
    → IsSound hand room g
held-drop none hand room g s = s
held-drop (some p) hand room g s = λ q. omega (arith, s q)

pub get_player_from_one-IsSound :
    (hand : List ℕ) (room : Room) (g : Game)
    → IsSound hand room g
    → Ends
        (λ r g'. IsSound (held r.0 hand) r.1 g' × (r.1.one ≡ drop 1 room.one))
        (get_player_from_one room g)
unfolding get_player_from_one
get_player_from_one-IsSound hand room g s = elim (List-cases room.one) [
  | inl e ↦ rw (get_player_from_one, e) (record { holds = (s, rw e) })
  | inr (p, rest, e) ↦
      let room' : Room = record room { one = rest } in
      let s' : IsSound (p ∷ hand) room' g = λ q. omega (arith, s q, ap (count q) e) in
      let (a, here) = at_hand p hand room' g s' in
      rw (get_player_from_one, e)
        (read_chain p _ g a here (
          if_rule (logged_out a) _ _ g
            (chain (delete_player p) g (delete_player-IsSound p hand room' g s')
              λ _ g' s''. record { holds = (s'', refl) })
            (record { holds = (s', refl) })))
]

seat_three-IsSound :
    (p0 p1 p2 : ℕ) (room : Room) (g : Game)
    → IsSound (p2 ∷ p1 ∷ p0 ∷ []) room g
    → Ends
        (λ r g'. IsSound [] r g' × (r.one ≡ room.one))
        (seat_three (some p0) (some p1) (some p2) room g)
unfolding seat_three
seat_three-IsSound p0 p1 p2 room g s =
    let hand : List ℕ = p2 ∷ p1 ∷ p0 ∷ [] in
    let in0 : 0 < count p0 hand = omega (arith, one_if_eq_self p0) in
    let in1 : 0 < count p1 hand = omega (arith, one_if_eq_self p1) in
    let in2 : 0 < count p2 hand = omega (arith, one_if_eq_self p2) in
    chain (add_player p0 p1) g (add_player-IsSound p0 p1 hand room g in0 in1 s) λ _ g1 s1.
      chain (add_player p1 p2) g1 (add_player-IsSound p1 p2 hand room g1 in1 in2 s1) λ _ g2 s2.
        chain (add_player p2 p0) g2 (add_player-IsSound p2 p0 hand room g2 in2 in0 s2) λ _ g3 s3.
          record {
            holds = (
              λ q. omega (arith, s3 q, count_three-append q room.three ((p0, p1, p2) ∷ [])),
              refl,
            );
          }

-- The three whom getPlayerFromOne has handed out, all there or not.
pub seat_three-held :
    (a b c : Option ℕ) (room : Room) (g : Game)
    → IsSound (held c (held b (held a []))) room g
    → Ends (λ r g'. IsSound [] r g' × (r.one ≡ room.one)) (seat_three a b c room g)
unfolding seat_three
seat_three-held none b c room g s = record {
  holds = (held-drop b [] room g (held-drop c (held b []) room g s), refl);
}
seat_three-held (some p0) none c room g s = record {
  holds = (held-drop (some p0) [] room g (held-drop c (p0 ∷ []) room g s), refl);
}
seat_three-held (some p0) (some p1) none room g s = record {
  holds = (held-drop (some p0) [] room g (held-drop (some p1) (p0 ∷ []) room g s), refl);
}
seat_three-held (some p0) (some p1) (some p2) room g s = seat_three-IsSound p0 p1 p2 room g s

pub seat_two-held :
    (a b : Option ℕ) (room : Room) (g : Game)
    → IsSound (held b (held a [])) room g
    → Ends (λ r g'. IsSound [] r g' × (r.one ≡ room.one)) (seat_two a b room g)
unfolding seat_two
seat_two-held none b room g s = record { holds = (held-drop b [] room g s, refl) }
seat_two-held (some p0) none room g s = record { holds = (held-drop (some p0) [] room g s, refl) }
seat_two-held (some p0) (some p1) room g s =
    let hand : List ℕ = p1 ∷ p0 ∷ [] in
    let in0 : 0 < count p0 hand = omega (arith, one_if_eq_self p0) in
    let in1 : 0 < count p1 hand = omega (arith, one_if_eq_self p1) in
    chain (add_player p0 p1) g (add_player-IsSound p0 p1 hand room g in0 in1 s) λ _ g1 s1.
      chain (add_player p1 p0) g1 (add_player-IsSound p1 p0 hand room g1 in1 in0 s1) λ _ g2 s2.
        record {
          holds = (λ q. omega (arith, s2 q, count_two-append q room.two ((p0, p1) ∷ [])), refl);
        }
