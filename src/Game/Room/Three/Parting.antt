-- ===== src/Game/Room/Three/Parting.antt =====
-- Room::LogoutThree never follows a dangling pointer (server/game/Room/Room.cpp).
use landlord.Prelude.{
  ℕ, ◌<◌, Bool, true, false, List, [], ◌∷◌, ◌++◌, arith, if◌then◌else◌, count, count-append,
}
use landlord.Game.Types.{Game}
use landlord.Game.Store.{◌>>◌, pure}
use landlord.Game.Player.{delete_player}
use landlord.Game.Room.{Room, logged_out}
use landlord.Game.Room.Pool.{release}
use landlord.Game.Room.Three.{break_three, logout_three}
use landlord.Game.Room.Holding.{
  Ends, weaken, IsSound, in_hand, chain, read_chain, one_if_eq_self, count_two-append,
}
use landlord.Game.Room.Holding.Moves.{delete_player-IsSound, release-IsSound}

-- Who is still at hand when the table may be gone.
abbrev pub unless_gone : Bool → ℕ → ℕ → ℕ → List ℕ → List ℕ
unless_gone gone p0 p1 p2 hand = if gone then hand else p0 ∷ p1 ∷ p2 ∷ hand

-- One of a table logs out, and the two others become a pair.
delete_one :
    (p q r : ℕ) (hand : List ℕ) (room : Room) (g : Game)
    → IsSound (p ∷ q ∷ r ∷ hand) room g
    → Ends (λ _. IsSound hand (record room { two = room.two ++ ((q, r) ∷ []) })) (delete_player p g)
delete_one p q r hand room g s =
    weaken (delete_player p g)
      (λ _ g' s'. λ q'. omega (arith, s' q', count_two-append q' room.two ((q, r) ∷ [])))
      (delete_player-IsSound p (q ∷ r ∷ hand) room g s)

-- Two of a table log out, and the third is alone.
delete_two :
    (p q r : ℕ) (hand hand' : List ℕ) (room : Room) (g : Game)
    → IsSound (p ∷ q ∷ r ∷ hand) room g
    → Ends {A = Bool × Room}
        (λ x. IsSound (if x.0 then hand else hand') x.1)
        ((delete_player p
            >> (delete_player q >> pure (true, record room { one = room.one ++ (r ∷ []) })))
          g)
delete_two p q r hand hand' room g s =
    chain (delete_player p) g (delete_player-IsSound p (q ∷ r ∷ hand) room g s) λ _ g1 s1.
      chain (delete_player q) g1 (delete_player-IsSound q (r ∷ hand) room g1 s1)
        λ _ g2 s2. record { holds = λ t. omega (arith, s2 t, count-append t room.one (r ∷ [])) }

break_three-IsSound :
    (x y z : Bool) (p0 p1 p2 : ℕ) (hand : List ℕ) (room : Room) (g : Game)
    → IsSound (p0 ∷ p1 ∷ p2 ∷ hand) room g
    → Ends
        (λ r. IsSound (unless_gone r.0 p0 p1 p2 hand) r.1)
        (break_three x y z (p0, p1, p2) room g)
unfolding break_three
break_three-IsSound false false false p0 p1 p2 hand room g s = record { holds = s }
break_three-IsSound true false false p0 p1 p2 hand room g s =
    chain (delete_player p0) g (delete_one p0 p1 p2 hand room g s) λ _ g' s'. record { holds = s' }
break_three-IsSound false true false p0 p1 p2 hand room g s =
    chain (delete_player p1) g (delete_one p1 p0 p2 hand room g (λ q. omega (arith, s q)))
      λ _ g' s'. record { holds = s' }
break_three-IsSound false false true p0 p1 p2 hand room g s =
    chain (delete_player p2) g (delete_one p2 p0 p1 hand room g (λ q. omega (arith, s q)))
      λ _ g' s'. record { holds = s' }
break_three-IsSound true true false p0 p1 p2 hand room g s =
    delete_two p0 p1 p2 hand (p0 ∷ p1 ∷ p2 ∷ hand) room g s
break_three-IsSound true false true p0 p1 p2 hand room g s =
    delete_two p0 p2 p1 hand (p0 ∷ p1 ∷ p2 ∷ hand) room g (λ q. omega (arith, s q))
break_three-IsSound false true true p0 p1 p2 hand room g s =
    delete_two p1 p2 p0 hand (p0 ∷ p1 ∷ p2 ∷ hand) room g (λ q. omega (arith, s q))
break_three-IsSound true true true p0 p1 p2 hand room g s =
    chain (release p0) g (release-IsSound p0 (p1 ∷ p2 ∷ hand) room g s) λ _ g1 s1.
      chain (release p1) g1 (release-IsSound p1 (p2 ∷ hand) room g1 s1) λ _ g2 s2.
        chain (release p2) g2 (release-IsSound p2 hand room g2 s2) λ _ g3 s3. record { holds = s3 }

module _ (p0 p1 p2 : ℕ) (hand : List ℕ) where
  abbrev pub table : List ℕ
  table = p0 ∷ p1 ∷ p2 ∷ hand

  pub in0 : 0 < count p0 table
  in0 = omega (arith, one_if_eq_self p0)

  pub in1 : 0 < count p1 table
  in1 = omega (arith, one_if_eq_self p1)

  pub in2 : 0 < count p2 table
  in2 = omega (arith, one_if_eq_self p2)

pub logout_three-IsSound :
    (p0 p1 p2 : ℕ) (hand : List ℕ) (room : Room) (g : Game)
    → IsSound (table p0 p1 p2 hand) room g
    → Ends (λ r. IsSound (unless_gone r.0 p0 p1 p2 hand) r.1) (logout_three (p0, p1, p2) room g)
unfolding logout_three
logout_three-IsSound p0 p1 p2 hand room g s =
    let all : List ℕ = table p0 p1 p2 hand in
    let (a, e0) = in_hand p0 all room g (in0 p0 p1 p2 hand) s in
    let (b, e1) = in_hand p1 all room g (in1 p0 p1 p2 hand) s in
    let (c, e2) = in_hand p2 all room g (in2 p0 p1 p2 hand) s in
    read_chain p0 _ g a e0 (
      read_chain p1 _ g b e1 (
        read_chain p2 _ g c e2 (
          break_three-IsSound (logged_out a) (logged_out b) (logged_out c) p0 p1 p2 hand room g s)))
