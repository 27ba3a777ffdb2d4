-- ===== src/Game/Room/Two/Safety.antt =====
-- Room::UpdateTwo never follows a dangling pointer (server/game/Room/Room.cpp).
use landlord.Prelude.{
  ℕ, ◌<◌, ◌≡◌, refl, Bool, true, false, ◌||◌, Option, none, some, List, [], ◌∷◌, arith,
  if◌then◌else◌, count, count-append,
}
use landlord.Game.Types.{is_ai, Game}
use landlord.Game.Store.{pure}
use landlord.Game.Player.{add_player}
use landlord.Game.Room.{Room, enter, logged_out, expired}
use landlord.Game.Room.Pool.{release}
use landlord.Game.Room.One.{get_player_from_one}
use landlord.Game.Room.Two.{
  out_two, logout_two, third_player, join_two, complete_two, two_rounds, update_two,
}
use landlord.Game.Room.Holding.{
  Ends, IsSound, at_hand, in_hand, chain, read_chain, if_rule, one_if_eq_self, count_two-append,
  count_three-append, count_two,
}
use landlord.Game.Room.Holding.Steps.{add_player-IsSound}
use landlord.Game.Room.Holding.Moves.{get_ai_player-IsSound, release-IsSound}
use landlord.Game.Room.One.Taking.{held, held-drop, get_player_from_one-IsSound}

out_two-IsSound :
    (p : ℕ) (hand : List ℕ) (room : Room) (g : Game)
    → IsSound (p ∷ hand) room g
    → Ends (λ r. IsSound hand r) (out_two p room g)
unfolding out_two
out_two-IsSound p hand room g s =
    let (a, e) = at_hand p hand room g s in
    read_chain p _ g a e (
      if_rule (is_ai a.player_type) _ _ g (record { holds = λ q. omega (arith, s q) })
        (record { holds = λ q. omega (arith, s q, count-append q room.one (p ∷ [])) }))

-- Who is still at hand after LogoutTwo.
abbrev unless_broken : Bool → ℕ → ℕ → List ℕ → List ℕ
unless_broken broken p0 p1 hand = if broken then hand else p0 ∷ p1 ∷ hand

logout_two-IsSound :
    (p0 p1 : ℕ) (hand : List ℕ) (room : Room) (g : Game)
    → IsSound (p0 ∷ p1 ∷ hand) room g
    → Ends (λ r. IsSound (unless_broken r.0 p0 p1 hand) r.1) (logout_two (p0, p1) room g)
unfolding logout_two
logout_two-IsSound p0 p1 hand room g s =
    let s' : IsSound (p1 ∷ p0 ∷ hand) room g = λ q. omega (arith, s q) in
    let (a, e0) = at_hand p0 (p1 ∷ hand) room g s in
    let (b, e1) = at_hand p1 (p0 ∷ hand) room g s' in
    read_chain p0 _ g a e0 (
      read_chain p1 _ g b e1 (
        if_rule (logged_out a) _ _ g
          (if_rule (logged_out b) _ _ g
            (chain (release p0) g (release-IsSound p0 (p1 ∷ hand) room g s) λ _ g1 s1.
              chain (release p1) g1 (release-IsSound p1 hand room g1 s1)
                λ _ g2 s2. record { holds = s2 })
            (chain (release p0) g (release-IsSound p0 (p1 ∷ hand) room g s) λ _ g1 s1.
              chain (out_two p1 room) g1 (out_two-IsSound p1 hand room g1 s1)
                λ r g2 s2. record { holds = s2 }))
          (if_rule (logged_out b) _ _ g
            (chain (out_two p0 room) g (out_two-IsSound p0 (p1 ∷ hand) room g s) λ r g1 s1.
              chain (release p1) g1 (release-IsSound p1 hand r g1 s1)
                λ _ g2 s2. record { holds = s2 })
            (record { holds = s }))))

third_player-IsSound :
    (o : Option ℕ) (id : ℕ) (hand : List ℕ) (room : Room) (g : Game)
    → IsSound (held o hand) room g
    → Ends (λ p. IsSound (p ∷ hand) room) (third_player o id g)
unfolding third_player
third_player-IsSound none id hand room g s = get_ai_player-IsSound id hand room g s
third_player-IsSound (some p) id hand room g s = record { holds = s }

join_two-IsSound :
    (p0 p1 p : ℕ) (hand : List ℕ) (room : Room) (g : Game)
    → IsSound (p ∷ p0 ∷ p1 ∷ hand) room g
    → Ends (λ r. IsSound hand r) (join_two p0 p1 p room g)
unfolding join_two enter
join_two-IsSound p0 p1 p hand room g s =
    let all : List ℕ = p ∷ p0 ∷ p1 ∷ hand in
    let in_p : 0 < count p all = omega (arith, one_if_eq_self p) in
    let in0 : 0 < count p0 all = omega (arith, one_if_eq_self p0) in
    let in1 : 0 < count p1 all = omega (arith, one_if_eq_self p1) in
    chain (add_player p0 p) g (add_player-IsSound p0 p all room g in0 in_p s) λ _ g1 s1.
      chain (add_player p1 p) g1 (add_player-IsSound p1 p all room g1 in1 in_p s1) λ _ g2 s2.
        let (c, e) = at_hand p (p0 ∷ p1 ∷ hand) room g2 s2 in
        read_chain p _ g2 c e (record {
          holds = λ q. omega (arith, s2 q, count_three-append q room.three ((p0, p1, p) ∷ []));
        })

complete_two-IsSound :
    (p0 p1 : ℕ) (hand : List ℕ) (room : Room) (g : Game)
    → IsSound (p0 ∷ p1 ∷ hand) room g
    → Ends (λ r. IsSound hand r) (complete_two (p0, p1) room g)
unfolding complete_two
complete_two-IsSound p0 p1 hand room g s =
    chain (get_player_from_one room) g (get_player_from_one-IsSound (p0 ∷ p1 ∷ hand) room g s)
      λ x g1 s1.
        let s2 : IsSound (p0 ∷ p1 ∷ hand) x.1 g1 = held-drop x.0 (p0 ∷ p1 ∷ hand) x.1 g1 s1.0 in
        let in1 : 0 < count p1 (p0 ∷ p1 ∷ hand) = omega (arith, one_if_eq_self p1) in
        let (a, e0) = at_hand p0 (p1 ∷ hand) x.1 g1 s2 in
        let (b, e1) = in_hand p1 (p0 ∷ p1 ∷ hand) x.1 g1 in1 s2 in
        read_chain p0 _ g1 a e0 (
          read_chain p1 _ g1 b e1 (
            if_rule
              (expired a || expired b || (elim x.0 as (λ _. Bool) [ none ↦ false | some _ ↦ true ]))
              _ _ g1
              (chain (third_player x.0 a.room_id) g1
                (third_player-IsSound x.0 a.room_id (p0 ∷ p1 ∷ hand) x.1 g1 s1.0)
                λ p g2 s3. join_two-IsSound p0 p1 p hand x.1 g2 s3)
              (record {
                holds = λ q. omega (arith, s2 q, count_two-append q x.1.two ((p0, p1) ∷ []));
              })))

-- The players of pairs.
abbrev pair_players : List (ℕ × ℕ) → List ℕ
pair_players [] = []
pair_players ((p0, p1) ∷ pairs) = p0 ∷ p1 ∷ pair_players pairs

count-pair_players :
    (q : ℕ) (pairs : List (ℕ × ℕ)) → count q (pair_players pairs) ≡ count_two q pairs
count-pair_players q [] = refl
count-pair_players q ((p0, p1) ∷ pairs) = omega (arith, count-pair_players q pairs)

stay_or_complete :
    (broken : Bool) (p0 p1 : ℕ) (hand : List ℕ) (room : Room) (g : Game)
    → IsSound (unless_broken broken p0 p1 hand) room g
    → Ends (λ r. IsSound hand r) ((if broken then pure room else complete_two (p0, p1) room) g)
stay_or_complete true p0 p1 hand room g s = record { holds = s }
stay_or_complete false p0 p1 hand room g s = complete_two-IsSound p0 p1 hand room g s

two_rounds-IsSound :
    (pairs : List (ℕ × ℕ)) (room : Room) (g : Game)
    → IsSound (pair_players pairs) room g
    → Ends (IsSound []) (two_rounds pairs room g)
unfolding two_rounds
two_rounds-IsSound [] room g s = record { holds = s }
two_rounds-IsSound ((p0, p1) ∷ pairs) room g s =
    chain (logout_two (p0, p1) room) g (logout_two-IsSound p0 p1 (pair_players pairs) room g s)
      λ x g1 s1.
        chain (if x.0 then pure x.1 else complete_two (p0, p1) x.1) g1
          (stay_or_complete x.0 p0 p1 (pair_players pairs) x.1 g1 s1)
          λ r g2 s2. two_rounds-IsSound pairs r g2 s2

-- UpdateTwo of a sound room does not fault, and leaves a sound room.
pub update_two-IsSound :
    (room : Room) (g : Game) → IsSound [] room g → Ends (IsSound []) (update_two room g)
unfolding update_two
update_two-IsSound room g s =
    two_rounds-IsSound room.two (record room { two = [] }) g
      λ q. omega (arith, s q, count-pair_players q room.two)
